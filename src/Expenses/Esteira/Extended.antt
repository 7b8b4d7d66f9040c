-- ===== src/Expenses/Esteira/Extended.antt =====
-- The months that an extension adds: `estenderRegra` of back/src/modules/expenses/expenses.service.ts.
use orbix_hub.Base.{
  append_assoc, append_nil, ==_refl, ℕ, zero, suc, ◌+◌, ◌≤◌, ◌<◌, ◌≡◌, refl, ap, sym, subst, ◌∙◌,
  ◌==◌, false, ◌&&◌, Bool-cases, inl, inr, Option, none, some, same_option, List, [], ◌∷◌, ◌++◌,
  map, length, find, arith, ok, if◌then◌else◌, ◌>>=◌,
}
use orbix_hub.Calendar.{Day}
use orbix_hub.Expenses.{monthly, meses_de_esteira}
use orbix_hub.Expenses.Store.{
  Expense, Recurrence, Books, rule_has_id, same_day, on_day, occurrence_taken, create_many,
  update_recurrence,
}
use orbix_hub.Expenses.Recurrence.{
  month_count, EachLater, proximas_ocorrencias_lem, proximas_ocorrencias_later,
}
use orbix_hub.Expenses.Create.{generate}
use orbix_hub.Expenses.Create.Plan.{Free, Free-after, count_from}
use orbix_hub.Expenses.Esteira.{
  last_made, datas_de, ocorrencia, ocorrencias, gravar, estender, materializar, estender_regra,
}
use orbix_hub.Expenses.Esteira.Consecutive.{months_made}
use orbix_hub.Expenses.Esteira.Months.{
  after_row, months_of, add_month_of, months-append, UpTo, UpTo-append,
}
use orbix_hub.Expenses.Esteira.Monthly.{Scheduled, HasMonths, OncePerMonth}
use orbix_hub.Base.Rows.{find_holds}

-- A date in a later month is not taken.
own_row :
    (x b : ℕ) (d : Day) (y : Option ℕ) (o : Option Day) (ms : List ℕ)
    → b < month_count d
    → UpTo b (add_month_of x y o ms)
    → ((same_option y (some x) && on_day d o) ≡ false) × UpTo b ms
own_row x b d none o ms l u = (refl, u)
own_row x b d (some y) none ms l u = (ground arith, u)
own_row x b d (some y) (some o) ms l u = elim (Bool-cases (y == x)) [
  | inl own ↦
      let v : UpTo b (month_count o ∷ ms) = rw own at u in
      let apart : same_day d o ≡ false = ground (arith, v.0, l) in (rw (own, apart) refl, v.1)
  | inr other ↦ (rw other refl, rw other at u)
]

not_taken :
    (x b : ℕ) (d : Day) (es : List Expense)
    → b < month_count d
    → UpTo b (months_of x es)
    → occurrence_taken (some x) (some d) es ≡ false
not_taken x b d [] l u = refl
not_taken x b d (e ∷ es) l u =
    let r = own_row x b d e.recurrence_id e.occurrence_on (months_of x es) l u in
    rw r.0 (not_taken x b d es l r.1)

module _ (uuid : ℕ → ℕ) (r : Recurrence) where
  -- Dates that come later, with free ids: all of them are inserted.
  create_many-all :
      (n i : ℕ) (ds : List Day) (b : ℕ) (es : List Expense)
      → length ds ≤ n
      → Free (generate n i uuid) es
      → EachLater b ds
      → UpTo b (months_of r.id es)
      → months_of r.id (create_many (ocorrencias uuid i r ds) es)
        ≡ months_of r.id es ++ map month_count ds
  unfolding create_many ocorrencias
  create_many-all n i [] b es h f l u = sym (append_nil (months_of r.id es))
  create_many-all zero i (d ∷ ds) b es h f l u = absurd (omega (arith, h))
  create_many-all (suc n) i (d ∷ ds) b es h (f, g, fs) (l, ls) u =
      ap (λ rows. months_of r.id (create_many (ocorrencias uuid (i + 1) r ds) rows)) inserted
      ∙ create_many-all n (i + 1) ds (month_count d) (es ++ (e ∷ [])) (omega (arith, h))
          (Free-after e (generate n (i + 1) uuid) es g fs) ls
          (rw added (UpTo-append b (month_count d) (months_of r.id es) l u))
      ∙ ap (λ ms. ms ++ map month_count ds) added
      ∙ append_assoc (months_of r.id es) (month_count d ∷ []) (map month_count ds)
    where
      e : Expense
      e = ocorrencia (uuid i) r d

      added : months_of r.id (es ++ (e ∷ [])) ≡ months_of r.id es ++ (month_count d ∷ [])
      added = months-append r.id es e ∙ rw (==_refl r.id) refl

      inserted : after_row e es ≡ es ++ (e ∷ [])
      inserted = rw (f, not_taken r.id b d es l u) refl

gravar-expenses :
    (uuid : ℕ → ℕ) (r : Recurrence) (ds : List Day) (db : Books)
    → (gravar uuid r ds db).expenses ≡ create_many (ocorrencias uuid 0 r ds) db.expenses
unfolding gravar create_many ocorrencias update_recurrence
gravar-expenses uuid r [] db = refl
gravar-expenses uuid r (d ∷ ds) db = refl

gravar-months :
    (uuid : ℕ → ℕ) (r : Recurrence) (db : Books)
    → r.rule.frequency ≡ monthly
    → r.rule.ends_on ≡ none
    → r.rule.starts_on.month < 12
    → month_count r.rule.starts_on ≤ month_count (last_made r)
    → Free (generate meses_de_esteira 0 uuid) db.expenses
    → Scheduled r (months_of r.id db.expenses)
    → months_of r.id (gravar uuid r (datas_de r) db).expenses
      ≡ months_of r.id db.expenses ++ count_from (month_count (last_made r) + 1) meses_de_esteira
unfolding datas_de
gravar-months uuid r db f e s l free planned =
    ap (months_of r.id) (gravar-expenses uuid r (datas_de r) db)
    ∙ create_many-all uuid r meses_de_esteira 0 (datas_de r) (month_count (last_made r)) db.expenses
        (proximas_ocorrencias_lem r.rule (some (last_made r)) (some meses_de_esteira)).0 free
        (proximas_ocorrencias_later r.rule (last_made r) (some meses_de_esteira) planned.1
          planned.2)
        planned.0.1
    ∙ ap (λ ms. months_of r.id db.expenses ++ ms) (months_made r f e s l planned.2)

-- A monthly rule that is in use and has no end, whose last date made is not in a month before
-- it starts, in books that give every rule one expense for a month at most: its extension,
-- with ids for the rows of which none is taken and none comes twice, succeeds, and adds to the
-- months of the rule's expenses the twelve that follow its last date made, each once.
pub months-estender_regra :
    (uuid : ℕ → ℕ) (x : ℕ) (r : Recurrence) (db : Books)
    → find (rule_has_id x) db.recurrences ≡ some r
    → r.disabled ≡ false
    → r.rule.frequency ≡ monthly
    → r.rule.ends_on ≡ none
    → r.rule.starts_on.month < 12
    → month_count r.rule.starts_on ≤ month_count (last_made r)
    → Free (generate meses_de_esteira 0 uuid) db.expenses
    → OncePerMonth db
    → ((estender_regra uuid x db).0 ≡ ok tt)
      × (months_of x (estender_regra uuid x db).1.expenses
          ≡ months_of x db.expenses ++ count_from (month_count (last_made r) + 1) meses_de_esteira)
unfolding estender_regra materializar estender ◌>>=◌
months-estender_regra uuid x r db found on f e s l free h = (
  ap (λ q. q.0) whole,
  ap (λ q. months_of x q.1.expenses) whole
      ∙ subst
          (λ y.
            months_of y (gravar uuid r (datas_de r) db).expenses
            ≡ months_of y db.expenses ++ twelve)
          same extended,
)
  where
    whole : estender_regra uuid x db ≡ (ok tt, gravar uuid r (datas_de r) db)
    whole =
        ap (λ o. (ok tt, estender uuid o db)) found
        ∙ ap (λ off. (ok tt, if off then db else gravar uuid r (datas_de r) db)) on

    twelve : List ℕ
    twelve = count_from (month_count (last_made r) + 1) meses_de_esteira

    same : r.id ≡ x
    same = find_holds (λ (q : Recurrence). q.id) x r db.recurrences found

    planned : Scheduled r (months_of r.id db.expenses)
    planned =
        subst (λ y. Scheduled r (months_of y db.expenses)) (sym same)
          (subst (λ o. HasMonths o (months_of x db.expenses)) found (h x))

    extended :
        months_of r.id (gravar uuid r (datas_de r) db).expenses
        ≡ months_of r.id db.expenses ++ twelve
    extended = gravar-months uuid r db f e s l free planned
