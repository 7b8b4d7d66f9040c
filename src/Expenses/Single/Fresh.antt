-- ===== src/Expenses/Single/Fresh.antt =====
-- What a new rule and its first expense add to the books.
use orbix_hub.Base.{
  ℕ, ◌<◌, ◌≡◌, refl, ap, sym, subst, ◌∙◌, ◌==◌, false, ==_iff, ==_refl, Bool-cases, inl, inr,
  Option, none, some, [], ◌∷◌, ◌++◌, find, any, if◌then◌else◌, arith,
}
use orbix_hub.Base.Rows.{find-append_one, find-none}
use orbix_hub.Calendar.{Day}
use orbix_hub.Expenses.{Frequency, monthly, yearly}
use orbix_hub.Expenses.Store.{Expense, Recurrence, Books, rule_has_id}
use orbix_hub.Expenses.Recurrence.{IsRuleMonth, month_count}
use orbix_hub.Expenses.Esteira.{last_made}
use orbix_hub.Expenses.Esteira.Months.{months_of, add_month_of, months-append, foreign-append}
use orbix_hub.Expenses.Esteira.Monthly.{Scheduled, HasMonths, OncePerMonth, has_same}
use orbix_hub.Expenses.Single.{month_or, first_occurrence}

-- A rule that was just made: no expense is its own.
pub record Fresh (x : ℕ) (vencimento : Day) (db : Books) : Type 0 where
  once : OncePerMonth db
  empty : months_of x db.expenses ≡ []
  regra : Recurrence
  found : find (rule_has_id x) db.recurrences ≡ some regra
  starts : last_made regra ≡ vencimento

abbrev pub Ready : Option ℕ → Day → Books → Type 0
Ready none vencimento db = OncePerMonth db
Ready (some x) vencimento db = Fresh x vencimento db

pub is_month :
    (f : Frequency) (m : Option ℕ) (d : Day)
    → IsRuleMonth m
    → d.month < 12
    → IsRuleMonth (month_or f m d)
is_month f (some m) d h k = h
is_month monthly none d h k = tt
is_month yearly none d h k = (omega arith, omega (arith, k))

-- The new rule.
module _ (r : Recurrence) (vencimento : Day) (new : last_made r ≡ vencimento)
    (month : IsRuleMonth r.rule.month_of_year) (in_year : vencimento.month < 12) where
  pub with_rule :
      (db : Books)
      → any (rule_has_id r.id) db.recurrences ≡ false
      → OncePerMonth db
      → Fresh r.id vencimento (record db { recurrences = db.recurrences ++ (r ∷ []) })
  with_rule db free h = record {
    once = at_each;
    empty = unused;
    regra = r;
    found = looked r.id ∙ rw (==_refl r.id) refl;
    starts = new;
  }
    where
      looked :
          (x : ℕ)
          → find (rule_has_id x) (db.recurrences ++ (r ∷ []))
            ≡ (if r.id == x then some r else find (rule_has_id x) db.recurrences)
      looked x = find-append_one (λ (q : Recurrence). q.id) x r db.recurrences free

      unused : months_of r.id db.expenses ≡ []
      unused =
          subst (λ o. HasMonths o (months_of r.id db.expenses))
            (find-none (λ (q : Recurrence). q.id) r.id db.recurrences free) (h r.id)

      at_each : OncePerMonth (record db { recurrences = db.recurrences ++ (r ∷ []) })
      at_each x = elim (Bool-cases (r.id == x)) [
        | inl own ↦
            has_same {p = some r} {ns = []} (looked x ∙ rw own refl)
              (ap (λ y. months_of y db.expenses) (sym ((==_iff r.id x).0 own)) ∙ unused)
              ((tt, tt), month, rw new in_year)
        | inr other ↦ has_same (looked x ∙ rw other refl) refl (h x)
      ]

-- The new expense.
pub with_row :
    (rid : Option ℕ) (e : Expense) (vencimento : Day) (db : Books)
    → e.recurrence_id ≡ rid
    → e.occurrence_on ≡ first_occurrence rid vencimento
    → Ready rid vencimento db
    → OncePerMonth (record db { expenses = db.expenses ++ (e ∷ []) })
with_row none e d db own on h =
    λ x. has_same refl (foreign-append x db.expenses e (rw own refl)) (h x)
with_row (some y) e d db own on h = at_each
  where
    appended :
        (x : ℕ)
        → months_of x (db.expenses ++ (e ∷ []))
          ≡ months_of x db.expenses ++ add_month_of x (some y) (some d) []
    appended x = months-append x db.expenses e ∙ rw own (rw on refl)

    planned : Scheduled h.regra (months_of y db.expenses)
    planned = subst (λ o. HasMonths o (months_of y db.expenses)) h.found (h.once y)

    its_months : months_of y (db.expenses ++ (e ∷ [])) ≡ month_count d ∷ []
    its_months = appended y ∙ rw h.empty (rw (==_refl y) refl)

    its_date : month_count (last_made h.regra) ≡ month_count d
    its_date = ap month_count h.starts

    at_each : OncePerMonth (record db { expenses = db.expenses ++ (e ∷ []) })
    at_each x = elim (Bool-cases (y == x)) [
      | inl same ↦
          subst
            (λ z.
              HasMonths (find (rule_has_id z) db.recurrences)
                (months_of z (db.expenses ++ (e ∷ []))))
            ((==_iff y x).0 same)
            (has_same h.found its_months
              (((tt, tt), (omega (arith, its_date), tt)), planned.1, planned.2))
      | inr other ↦
          has_same refl (foreign-append x db.expenses e (rw own (rw on (rw other refl)))) (h.once x)
    ]
