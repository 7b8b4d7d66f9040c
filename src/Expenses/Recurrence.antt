-- ===== src/Expenses/Recurrence.antt =====
-- The dates of a recurring expense: `proximasOcorrencias` of
-- back/src/modules/expenses/expenses.config.ts.
use orbix_hub.Base.{
  ℕ, zero, suc, ◌+◌, ◌-◌, ◌*◌, ◌≤◌, ◌<◌, ◌≡◌, refl, sym, false, Bool-cases, inl, inr, Option, none,
  some, or_default, List, [], ◌∷◌, length, All, arith, min,
}
use orbix_hub.Calendar.{Day, before, days_in_month}
use orbix_hub.Expenses.{
  Frequency, Rule, Month, avanca, past_end, ocorrencias_from, proximas_ocorrencias,
  data_da_ocorrencia, meses_de_esteira,
}

-- A month of the calendar, and the months counted from the year zero.
abbrev pub InYear : Month → Type 0
InYear m = (1 ≤ m.mes) × (m.mes ≤ 12)

abbrev pub count_of : Month → ℕ
count_of m = 12 * m.ano + (m.mes - 1)

abbrev pub month_count : Day → ℕ
month_count d = 12 * d.year + d.month

-- What each date meets.
pub record IsOccurrence (rule : Rule) (d : Day) : Type 0 where
  pub started : before d rule.starts_on ≡ false
  pub not_ended : past_end rule.ends_on d ≡ false
  pub on_day : d.day ≡ min rule.day_of_month (days_in_month d.year d.month)

shortened :
    (rule : Rule) (m : Month)
    → let d = data_da_ocorrencia m.ano m.mes rule.day_of_month in
      d.day ≡ min rule.day_of_month (days_in_month d.year d.month)
unfolding data_da_ocorrencia
shortened rule m = ground arith

pub month_count-data_da_ocorrencia :
    (m : Month) (day : ℕ) → month_count (data_da_ocorrencia m.ano m.mes day) ≡ count_of m
unfolding data_da_ocorrencia
month_count-data_da_ocorrencia m day = refl

from-IsOccurrence :
    (rule : Rule) (n : ℕ) (m : Month) → All (IsOccurrence rule) (ocorrencias_from rule n m)
unfolding ocorrencias_from
from-IsOccurrence rule zero m = tt
from-IsOccurrence rule (suc n) m =
    let next = avanca rule.frequency rule.month_of_year m in
    let date = data_da_ocorrencia next.ano next.mes rule.day_of_month in
    let rest = from-IsOccurrence rule n next in
    elim (Bool-cases (before date rule.starts_on)) [
      | inl early ↦ rw early rest
      | inr started ↦ rw started (elim (Bool-cases (past_end rule.ends_on date)) [
        | inl over ↦ rw over tt
        | inr going ↦
            rw going
              (record { started = started; not_ended = going; on_day = shortened rule next }, rest)
      ])
    ]

length-from : (rule : Rule) (n : ℕ) (m : Month) → length (ocorrencias_from rule n m) ≤ n
unfolding ocorrencias_from
length-from rule zero m = omega arith
length-from rule (suc n) m =
    ground (arith, length-from rule n (avanca rule.frequency rule.month_of_year m))

-- Whatever was made before: at most as many dates as asked (twelve by default), none before the rule
-- starts or after it ends, each on the day asked or on the last of a shorter month.
pub proximas_ocorrencias_lem :
    (rule : Rule) (desde : Option Day) (quantidade : Option ℕ)
    → let dates = proximas_ocorrencias rule desde quantidade in
      (length dates ≤ or_default quantidade meses_de_esteira) × All (IsOccurrence rule) dates
unfolding proximas_ocorrencias
proximas_ocorrencias_lem rule desde quantidade = (length-from rule _ _, from-IsOccurrence rule _ _)

-- The month of a yearly rule, if it has one, is a month.
abbrev pub IsRuleMonth : Option ℕ → Type 0
IsRuleMonth none = Unit
IsRuleMonth (some m) = (1 ≤ m) × (m ≤ 12)

avanca_later :
    (f : Frequency) (month : Option ℕ) (m : Month)
    → IsRuleMonth month
    → InYear m
    → InYear (avanca f month m) × (count_of m < count_of (avanca f month m))
unfolding avanca
avanca_later f month m h k = ground arith

-- Each date in a later month than the one before.
abbrev pub EachLater : ℕ → List Day → Type 0
EachLater last [] = Unit
EachLater last (d ∷ ds) = (last < month_count d) × EachLater (month_count d) ds

weaken-EachLater : (a b : ℕ) (ds : List Day) → a ≤ b → EachLater b ds → EachLater a ds
weaken-EachLater a b [] h k = tt
weaken-EachLater a b (d ∷ ds) h k = (omega (arith, k.0), k.1)

from-EachLater :
    (rule : Rule) (n : ℕ) (m : Month)
    → IsRuleMonth rule.month_of_year
    → InYear m
    → EachLater (count_of m) (ocorrencias_from rule n m)
unfolding ocorrencias_from
from-EachLater rule zero m r h = tt
from-EachLater rule (suc n) m r h =
    let next = avanca rule.frequency rule.month_of_year m in
    let date = data_da_ocorrencia next.ano next.mes rule.day_of_month in
    let later = avanca_later rule.frequency rule.month_of_year m r h in
    let rest = from-EachLater rule n next r later.0 in
    let same = month_count-data_da_ocorrencia next rule.day_of_month in
    elim (Bool-cases (before date rule.starts_on)) [
      | inl early ↦
          rw early (weaken-EachLater (count_of m) (count_of next) _ (omega (arith, later.1)) rest)
      | inr started ↦ rw started (elim (Bool-cases (past_end rule.ends_on date)) [
        | inl over ↦ rw over tt
        | inr going ↦ rw going (omega (arith, same, later.1), rw (sym same) at rest)
      ])
    ]

-- No month has two dates, and they come in order, each in a later month than the last one made.
pub proximas_ocorrencias_later :
    (rule : Rule) (desde : Day) (quantidade : Option ℕ)
    → IsRuleMonth rule.month_of_year
    → desde.month < 12
    → EachLater (month_count desde) (proximas_ocorrencias rule (some desde) quantidade)
unfolding proximas_ocorrencias
proximas_ocorrencias_later rule desde quantidade r h =
    weaken-EachLater (month_count desde)
      (count_of (record { ano = desde.year; mes = desde.month + 1 })) _ (omega arith)
      (from-EachLater rule _ (record { ano = desde.year; mes = desde.month + 1 }) r
        (omega arith, omega (arith, h)))

from-months :
    (rule : Rule) (n : ℕ) (m : Month)
    → IsRuleMonth rule.month_of_year
    → InYear m
    → All (λ d. d.month < 12) (ocorrencias_from rule n m)
unfolding ocorrencias_from data_da_ocorrencia
from-months rule zero m r h = tt
from-months rule (suc n) m r h =
    let next = avanca rule.frequency rule.month_of_year m in
    let date = data_da_ocorrencia next.ano next.mes rule.day_of_month in
    let later = avanca_later rule.frequency rule.month_of_year m r h in
    let rest = from-months rule n next r later.0 in
    elim (Bool-cases (before date rule.starts_on)) [
      | inl early ↦ rw early rest
      | inr started ↦ rw started (elim (Bool-cases (past_end rule.ends_on date)) [
        | inl over ↦ rw over tt
        | inr going ↦ rw going (omega (arith, later.0), rest)
      ])
    ]

-- Every date has a month of the calendar.
pub proximas_ocorrencias_months :
    (rule : Rule) (desde : Day) (quantidade : Option ℕ)
    → IsRuleMonth rule.month_of_year
    → desde.month < 12
    → All (λ d. d.month < 12) (proximas_ocorrencias rule (some desde) quantidade)
unfolding proximas_ocorrencias
proximas_ocorrencias_months rule desde quantidade r h =
    from-months rule _ (record { ano = desde.year; mes = desde.month + 1 }) r
      (omega arith, omega (arith, h))
