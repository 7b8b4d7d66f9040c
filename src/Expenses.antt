-- ===== src/Expenses.antt =====
-- The pure half of the expenses: back/src/modules/expenses/expenses.config.ts. Dates are UTC midnights,
-- so a day stands for one; the months of the arguments count from 1, as in the source. An amount comes
-- in thousandths and leaves in cents.
pub mod Split
pub mod Recurrence
pub mod Store
pub mod Bin
pub mod Payment
pub mod Purchase
pub mod Whole
pub mod Recover
pub mod Edit
pub mod Create
pub mod Esteira
pub mod Single
use orbix_hub.Base.{
  ℕ, zero, suc, ◌+◌, ◌-◌, ◌*◌, ◌/◌, ◌%◌, ◌==◌, Bool, true, false, Option, none, some, or_default,
  List, [], ◌∷◌, if◌then◌else◌, ltb, min,
}
use orbix_hub.Money.{round2}
use orbix_hub.Calendar.{Day, days_in_month, before}

pub data Frequency : Type 0 where
  monthly yearly : Frequency

-- `MESES_DE_ESTEIRA`
abbrev pub meses_de_esteira : ℕ
meses_de_esteira = 12

unfoldable pub ultimo_dia_do_mes : (ano mes : ℕ) → ℕ
unfolding days_in_month
ultimo_dia_do_mes ano mes = days_in_month ano (mes - 1)

-- A short month shortens the day.
unfoldable pub data_da_ocorrencia : (ano mes dia_pedido : ℕ) → Day
unfolding ultimo_dia_do_mes
data_da_ocorrencia ano mes dia_pedido =
    let ultimo = ultimo_dia_do_mes ano mes in
    record {
      year = ano;
      month = mes - 1;
      day = if ltb ultimo dia_pedido then ultimo else dia_pedido;
    }

pub record Rule : Type 0 where
  pub frequency : Frequency
  pub day_of_month : ℕ
  pub month_of_year : Option ℕ
  pub starts_on : Day
  pub ends_on : Option Day

-- The year and the month (from 1) that the loop stands at.
pub record Month : Type 0 where
  pub ano : ℕ
  pub mes : ℕ

unfoldable pub avanca : Frequency → Option ℕ → Month → Month
avanca monthly month_of_year m =
    if ltb 12 (m.mes + 1)
    then record { ano = m.ano + 1; mes = 1 }
    else record { ano = m.ano; mes = m.mes + 1 }
avanca yearly month_of_year m = record { ano = m.ano + 1; mes = or_default month_of_year m.mes }

abbrev pub past_end : Option Day → Day → Bool
past_end none vencimento = false
past_end (some end) vencimento = before end vencimento

-- The loop, with `n` rounds to go.
unfoldable pub ocorrencias_from : Rule → (n : ℕ) → Month → List Day
unfolding avanca data_da_ocorrencia before
ocorrencias_from rule zero m = []
ocorrencias_from rule (suc n) m =
    let next = avanca rule.frequency rule.month_of_year m in
    let vencimento = data_da_ocorrencia next.ano next.mes rule.day_of_month in
    let rest = ocorrencias_from rule n next in
    if before vencimento rule.starts_on
    then rest
    else if past_end rule.ends_on vencimento
    then []
    else vencimento ∷ rest

-- `desde` is the last due date that was made, if any.
unfoldable pub proximas_ocorrencias :
    Rule → (desde : Option Day) → (quantidade : Option ℕ) → List Day
unfolding ocorrencias_from
proximas_ocorrencias rule desde quantidade =
    let base = or_default desde rule.starts_on in
    ocorrencias_from rule (or_default quantidade meses_de_esteira)
      (record { ano = base.year; mes = base.month + 1 })

-- `Array.from({ length: n })` of the parts, from the index `i`.
unfoldable pub partes : (n i base resto : ℕ) → List ℕ
partes zero i base resto = []
partes (suc n) i base resto = (base + (if i == 0 then resto else 0)) ∷ partes n (i + 1) base resto

-- The remaining cents go into the first part.
unfoldable pub ratear_parcelas : (total n : ℕ) → List ℕ
unfolding partes round2
ratear_parcelas total n =
    let centavos = round2 total in
    let base = centavos / n in let resto = centavos - base * n in partes n 0 base resto

-- The same of the due dates, month by month from the first.
unfoldable pub datas_from : (n i : ℕ) → Day → List Day
unfolding data_da_ocorrencia
datas_from zero i primeiro = []
datas_from (suc n) i primeiro =
    let total = primeiro.month + 1 + i - 1 in
    data_da_ocorrencia (primeiro.year + total / 12) (total % 12 + 1) primeiro.day
    ∷ datas_from n (i + 1) primeiro

unfoldable pub datas_das_parcelas : Day → (n : ℕ) → List Day
unfolding datas_from
datas_das_parcelas primeiro n = datas_from n 0 primeiro
