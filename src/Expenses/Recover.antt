-- ===== src/Expenses/Recover.antt =====
-- What the bin of back/src/modules/expenses/expenses.service.ts gives back.
use orbix_hub.Base.{
  ℕ, ◌≡◌, refl, ap, sym, ◌∙◌, ◌==◌, ==_refl, Bool, true, false, not, Bool-cases, inl, inr, Option,
  none, some, List, [], ◌∷◌, find, any, length, All, ok, err, Result, arith,
}
use orbix_hub.Expenses.Store.{
  Expense, ExpenseStatus, active, canceled, Books, Error, expense_has_id, with_status, is_active,
  conflict, ja_excluida, tem_parcela_paga, expense_cancel,
}
use orbix_hub.Expenses.Bin.{is_paid, cancel, restore}
use orbix_hub.Expenses.Purchase.{Distinct, of_purchase, marked}
use orbix_hub.Expenses.Whole.{purchase_of, rows_of, canceled_whole, bin_whole, unless, after_write}

-- All the rows of a purchase are in use.
abbrev pub AllActive : (Expense → Bool) → List Expense → Type 0
AllActive p es = All (λ e. p e ≡ true → e.status ≡ active) es

purchase-with_status :
    (id : ℕ) (group : Option ℕ) (status : ExpenseStatus) (e : Expense)
    → of_purchase id group (with_status status e) ≡ of_purchase id group e
purchase-with_status id none status e = refl
purchase-with_status id (some g) status e = refl

own_purchase :
    (e : Expense) (group : Option ℕ)
    → e.installment_group_id ≡ group
    → of_purchase e.id group e ≡ true
own_purchase e none h = ==_refl e.id
own_purchase e (some g) h = rw h (==_refl g)

any-marked :
    (p : Expense → Bool) (status : ExpenseStatus) (id : ℕ) (es : List Expense)
    → any (expense_has_id id) (marked p status es) ≡ any (expense_has_id id) es
any-marked p status id [] = refl
any-marked p status id (e ∷ es) = ground (arith, any-marked p status id es)

marked-Distinct :
    (p : Expense → Bool) (status : ExpenseStatus) (es : List Expense)
    → Distinct es
    → Distinct (marked p status es)
marked-Distinct p status [] d = tt
marked-Distinct p status (e ∷ es) (d, ds) = elim (Bool-cases (p e)) [
  | inl own ↦ rw own (any-marked p status e.id es ∙ d, marked-Distinct p status es ds)
  | inr other ↦ rw other (any-marked p status e.id es ∙ d, marked-Distinct p status es ds)
]

find-marked :
    (p : Expense → Bool) (status : ExpenseStatus) (id : ℕ) (es : List Expense) (a : Expense)
    → p a ≡ true
    → find (expense_has_id id) es ≡ some a
    → find (expense_has_id id) (marked p status es) ≡ some (with_status status a)
find-marked p status id [] a h f = cc
find-marked p status id (e ∷ es) a h f = elim (Bool-cases (e.id == id)) [
  | inl own ↦
      let same : e ≡ a = let g : some e ≡ some a = rw own at f in cc in
      let chosen : p e ≡ true = ap p same ∙ h in
      rw chosen (rw own (ap (λ x. some (with_status status x)) same))
  | inr other ↦
      let g : find (expense_has_id id) es ≡ some a = rw other at f in
      elim (Bool-cases (p e)) [
        | inl q ↦ rw q (rw other (find-marked p status id es a h g))
        | inr q ↦ rw q (rw other (find-marked p status id es a h g))
      ]
]

marked_back :
    (id : ℕ) (group : Option ℕ) (es : List Expense)
    → AllActive (of_purchase id group) es
    → marked (of_purchase id group) active (marked (of_purchase id group) canceled es) ≡ es
marked_back id group [] h = refl
marked_back id group (e ∷ es) (h, hs) = elim (Bool-cases (of_purchase id group e)) [
  | inl own ↦
      let same : with_status active e ≡ e = ap (λ s. with_status s e) (sym (h own)) in
      rw own (
        rw (purchase-with_status id group canceled e)
          (rw own (rw (marked_back id group es hs) (ap (λ x. x ∷ es) same))))
  | inr other ↦ rw other (rw other (ap (λ r. e ∷ r) (marked_back id group es hs)))
]

-- What succeeded was not refused.
not_refused :
    (b : Bool) (e : Error) (db t : Books) (r : Result Error (Unit {0}) × Books)
    → unless b e db r ≡ (ok tt, t)
    → r ≡ (ok tt, t)
not_refused true e db t r h = let clash : err e ≡ ok tt = ap (λ q. q.0) h in cc
not_refused false e db t r h = h

canceled_rows :
    (id : ℕ) (atual : Expense) (db t : Books)
    → canceled_whole id atual db ≡ (ok tt, t)
    → t.expenses ≡ marked (purchase_of atual) canceled db.expenses
canceled_rows id atual db t h =
    let written =
      after_write db (marked (purchase_of atual) canceled db.expenses)
        (expense_cancel id (length (rows_of atual db))) in
    let paid = any is_paid (rows_of atual db) in
    let there =
      not_refused (not (is_active atual.status)) (conflict ja_excluida) db t
        (unless paid (conflict tem_parcela_paga) db written) h in
    let unpaid = not_refused paid (conflict tem_parcela_paga) db t written there in
    sym (ap (λ (q : Result Error (Unit {0}) × Books). q.1.expenses) unpaid)

-- After a cancellation that succeeds, of an expense of a purchase that was all in use, with distinct
-- ids: the restoration succeeds, and every row is as it was.
pub cancel-restore :
    (id : ℕ) (atual : Expense) (db t : Books)
    → Distinct db.expenses
    → find (expense_has_id id) db.expenses ≡ some atual
    → AllActive (purchase_of atual) db.expenses
    → cancel id db ≡ (ok tt, t)
    → ((restore id t).0 ≡ ok tt) × ((restore id t).1.expenses ≡ db.expenses)
cancel-restore id atual db t d found in_use h =
    let rows = canceled_rows id atual db t (sym (bin_whole id atual db d found).0 ∙ h) in
    let own = own_purchase atual atual.installment_group_id refl in
    let distinct : Distinct t.expenses =
      rw rows (marked-Distinct (purchase_of atual) canceled db.expenses d) in
    let there : find (expense_has_id id) t.expenses ≡ some (with_status canceled atual) =
      rw rows (find-marked (purchase_of atual) canceled id db.expenses atual own found) in
    rw ((bin_whole id (with_status canceled atual) t distinct there).1, rows)
      (refl, marked_back atual.id atual.installment_group_id db.expenses in_use)
