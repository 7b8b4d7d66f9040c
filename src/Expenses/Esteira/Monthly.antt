-- ===== src/Expenses/Esteira/Monthly.antt =====
-- The months of a rule under `materializar` and `estenderRegra` of
-- back/src/modules/expenses/expenses.service.ts.
use orbix_hub.Base.{
  ℕ, ◌<◌, ◌≡◌, refl, ap, sym, subst, ◌∙◌, ◌==◌, Bool, true, false, ==_iff, ==_refl, Bool-cases, inl,
  inr, Option, none, some, List, [], ◌∷◌, All, find, if◌then◌else◌, ◌>>=◌,
}
use orbix_hub.Base.Keeps.{Keeps, Keeps-transaction}
use orbix_hub.Base.Rows.{map_found, find-update_first, find_holds}
use orbix_hub.Calendar.{Day}
use orbix_hub.Expenses.{meses_de_esteira}
use orbix_hub.Expenses.Store.{Recurrence, Books, rule_has_id, with_generated, update_recurrence}
use orbix_hub.Expenses.Recurrence.{
  IsRuleMonth, EachLater, month_count, proximas_ocorrencias_later, proximas_ocorrencias_months,
}
use orbix_hub.Expenses.Esteira.{
  last_made, datas_de, ocorrencias, last_of, gravar, estender, materializar, estender_regra,
}
use orbix_hub.Expenses.Esteira.Months.{
  months_of, Ahead, create_many-later, create_many-foreign, ocorrencias-IsForeign,
  last_month-last_of,
}

-- No month comes twice among a rule's expenses, and none comes after the last date that was made.
abbrev pub Scheduled : Recurrence → List ℕ → Type 0
Scheduled r ms =
    Ahead (month_count (last_made r)) ms
    × IsRuleMonth r.rule.month_of_year
    × ((last_made r).month < 12)

abbrev pub HasMonths : Option Recurrence → List ℕ → Type 0
HasMonths none ms = ms ≡ []
HasMonths (some r) ms = Scheduled r ms

abbrev pub OncePerMonth : Books → Type 0
OncePerMonth db =
    (x : ℕ) → HasMonths (find (rule_has_id x) db.recurrences) (months_of x db.expenses)

last_of-All : (P : Day → Type 0) (d : Day) (ds : List Day) → All P (d ∷ ds) → P (last_of d ds)
last_of-All P d [] (h, hs) = h
last_of-All P d (e ∷ es) (h, hs) = last_of-All P e es hs

pub has_same :
    {o p : Option Recurrence} → {ms ns : List ℕ} → o ≡ p → ms ≡ ns → HasMonths p ns → HasMonths o ms
has_same {o = o} {p = p} {ms = ms} {ns = ns} e f h =
    subst (λ q. HasMonths q ms) (sym e) (subst (HasMonths p) (sym f) h)

gravar-OncePerMonth :
    (uuid : ℕ → ℕ) (r : Recurrence) (ds : List Day) (db : Books)
    → find (rule_has_id r.id) db.recurrences ≡ some r
    → EachLater (month_count (last_made r)) ds
    → All (λ d. d.month < 12) ds
    → OncePerMonth db
    → OncePerMonth (gravar uuid r ds db)
unfolding gravar update_recurrence
gravar-OncePerMonth uuid r [] db here l k h = h
gravar-OncePerMonth uuid r (d ∷ ds) db here l k h = at_each
  where
    after : Books
    after = gravar uuid r (d ∷ ds) db

    looked :
        (x : ℕ)
        → find (rule_has_id x) after.recurrences ≡ (
            if r.id == x
            then map_found (with_generated (last_of d ds)) (find (rule_has_id x) db.recurrences)
            else find (rule_has_id x) db.recurrences)
    looked x =
        find-update_first (λ (q : Recurrence). q.id) x r.id (with_generated (last_of d ds))
          db.recurrences (λ q. refl)

    before_it : Scheduled r (months_of r.id db.expenses)
    before_it = subst (λ o. HasMonths o (months_of r.id db.expenses)) here (h r.id)

    found : find (rule_has_id r.id) after.recurrences ≡ some (with_generated (last_of d ds) r)
    found = looked r.id ∙ rw (==_refl r.id) (ap (map_found (with_generated (last_of d ds))) here)

    extended : Scheduled (with_generated (last_of d ds) r) (months_of r.id after.expenses)
    extended = (
      subst (λ b. Ahead b (months_of r.id after.expenses))
          (last_month-last_of (month_count (last_made r)) d ds)
          (create_many-later uuid 0 r (d ∷ ds) (month_count (last_made r)) db.expenses l
            before_it.0),
      before_it.1,
      last_of-All (λ e. e.month < 12) d ds k,
    )

    at_each : OncePerMonth after
    at_each x = elim (Bool-cases (r.id == x)) [
      | inl own ↦
          subst
            (λ y. HasMonths (find (rule_has_id y) after.recurrences) (months_of y after.expenses))
            ((==_iff r.id x).0 own) (has_same found refl extended)
      | inr other ↦
          has_same (looked x ∙ rw other refl)
            (create_many-foreign x (ocorrencias uuid 0 r (d ∷ ds)) db.expenses
              (ocorrencias-IsForeign x uuid 0 r (d ∷ ds) other))
            (h x)
    ]

estender-OncePerMonth :
    (uuid : ℕ → ℕ) (x : ℕ) (db : Books)
    → OncePerMonth db
    → (o : Option Recurrence) → find (rule_has_id x) db.recurrences ≡ o
    → OncePerMonth (estender uuid o db)
unfolding datas_de estender
estender-OncePerMonth uuid x db h none e = h
estender-OncePerMonth uuid x db h (some r) e = unless r.disabled
  where
    here : find (rule_has_id r.id) db.recurrences ≡ some r
    here =
        subst (λ y. find (rule_has_id y) db.recurrences ≡ some r)
          (sym (find_holds (λ (q : Recurrence). q.id) x r db.recurrences e)) e

    planned : Scheduled r (months_of r.id db.expenses)
    planned = subst (λ o. HasMonths o (months_of r.id db.expenses)) here (h r.id)

    unless : (off : Bool) → OncePerMonth (if off then db else gravar uuid r (datas_de r) db)
    unless true = h
    unless false =
        gravar-OncePerMonth uuid r (datas_de r) db here
          (proximas_ocorrencias_later r.rule (last_made r) (some meses_de_esteira) planned.1
            planned.2)
          (proximas_ocorrencias_months r.rule (last_made r) (some meses_de_esteira) planned.1
            planned.2)
          h

pub Keeps-materializar : (uuid : ℕ → ℕ) (x : ℕ) → Keeps OncePerMonth (materializar uuid x)
unfolding materializar ◌>>=◌
Keeps-materializar uuid x = record { at = λ db h. estender-OncePerMonth uuid x db h _ refl }

pub Keeps-estender_regra : (uuid : ℕ → ℕ) (x : ℕ) → Keeps OncePerMonth (estender_regra uuid x)
unfolding estender_regra
Keeps-estender_regra uuid x = Keeps-transaction _ (Keeps-materializar uuid x)
