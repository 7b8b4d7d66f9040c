-- ===== src/Expenses/Esteira/Consecutive.antt =====
-- The months of a monthly rule without an end, under `proximasOcorrencias` of
-- back/src/modules/expenses/expenses.config.ts.
use orbix_hub.Base.{
  ℕ, zero, suc, ◌+◌, ◌≤◌, ◌<◌, ◌≡◌, refl, ap, sym, subst, ◌∙◌, false, Option, none, ◌∷◌, map, arith,
}
use orbix_hub.Calendar.{Day, before}
use orbix_hub.Expenses.{
  monthly, Rule, Month, avanca, past_end, ocorrencias_from, data_da_ocorrencia,
  proximas_ocorrencias, meses_de_esteira,
}
use orbix_hub.Expenses.Store.{Recurrence}
use orbix_hub.Expenses.Recurrence.{month_count-data_da_ocorrencia, InYear, count_of, month_count}
use orbix_hub.Expenses.Create.Plan.{count_from}
use orbix_hub.Expenses.Esteira.{last_made, datas_de}

later_not_before :
    (a b : Day) → a.month < 12 → b.month < 12 → month_count b < month_count a → before a b ≡ false
unfolding before
later_not_before a b h k l = ground (arith, h, k, l)

next_month :
    (month : Option ℕ) (m : Month)
    → InYear m
    → InYear (avanca monthly month m) × (count_of (avanca monthly month m) ≡ count_of m + 1)
unfolding avanca
next_month month m h = ground (arith, h)

in_year : (m : Month) (day : ℕ) → InYear m → (data_da_ocorrencia m.ano m.mes day).month < 12
unfolding data_da_ocorrencia
in_year m day h = omega (arith, h)

-- A monthly rule without an end has a date in each month.
consecutive :
    (rule : Rule) (n : ℕ) (m : Month)
    → rule.frequency ≡ monthly
    → rule.ends_on ≡ none
    → rule.starts_on.month < 12
    → InYear m
    → month_count rule.starts_on ≤ count_of m
    → map month_count (ocorrencias_from rule n m) ≡ count_from (count_of m + 1) n
unfolding ocorrencias_from
consecutive rule zero m f e s y l = refl
consecutive rule (suc n) m f e s y l =
    rw (on_time, open_ended)
      (ap (λ ds. month_count date ∷ ds)
          (consecutive rule n next f e s forward.0 (omega (arith, l, forward.1)))
        ∙ ap (λ k. k ∷ count_from (count_of next + 1) n) dated
        ∙ ap (λ k. k ∷ count_from (k + 1) n) forward.1)
  where
    next : Month
    next = avanca rule.frequency rule.month_of_year m

    date : Day
    date = data_da_ocorrencia next.ano next.mes rule.day_of_month

    forward : InYear next × (count_of next ≡ count_of m + 1)
    forward =
        subst
          (λ g.
            InYear (avanca g rule.month_of_year m)
            × (count_of (avanca g rule.month_of_year m) ≡ count_of m + 1))
          (sym f) (next_month rule.month_of_year m y)

    dated : month_count date ≡ count_of next
    dated = month_count-data_da_ocorrencia next rule.day_of_month

    on_time : before date rule.starts_on ≡ false
    on_time =
        later_not_before date rule.starts_on (in_year next rule.day_of_month forward.0) s
          (omega (arith, dated, forward.1, l))

    open_ended : past_end rule.ends_on date ≡ false
    open_ended = ap (λ o. past_end o date) e

-- The dates of an extension.
pub months_made :
    (r : Recurrence)
    → r.rule.frequency ≡ monthly
    → r.rule.ends_on ≡ none
    → r.rule.starts_on.month < 12
    → month_count r.rule.starts_on ≤ month_count (last_made r)
    → (last_made r).month < 12
    → map month_count (datas_de r) ≡ count_from (month_count (last_made r) + 1) meses_de_esteira
unfolding datas_de proximas_ocorrencias
months_made r f e s l y =
    let last : Month = record { ano = (last_made r).year; mes = (last_made r).month + 1 } in
    let here : count_of last ≡ month_count (last_made r) = omega arith in
    consecutive r.rule meses_de_esteira last f e s (omega arith, omega (arith, y))
      (omega (arith, l, here))
    ∙ ap (λ k. count_from (k + 1) meses_de_esteira) here
