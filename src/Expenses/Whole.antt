-- ===== src/Expenses/Whole.antt =====
-- The bin of back/src/modules/expenses/expenses.service.ts against purchases taken as a whole.
use orbix_hub.Base.{
  ℕ, ◌≡◌, refl, Bool, not, Bool-cases, inl, inr, some, List, [], ◌∷◌, ◌++◌, find, any, keep, length,
  if◌then◌else◌, ok, err, Result, ◌>>=◌, arith,
}
use orbix_hub.Expenses.Store.{
  Expense, ExpenseStatus, active, canceled, Books, Error, AuditEvent, conflict, ja_excluida,
  tem_parcela_paga, nao_esta_excluida, so_da_lixeira, tem_pagamento_registrado, expense_cancel,
  expense_restore, expense_purge, expense_has_id, set_status_many, is_active, find_by_id, audit_log,
}
use orbix_hub.Expenses.Bin.{
  irmas_do_grupo, is_paid, is_registered, ids_of, expense_or_throw, cancel_group, cancel,
  restore_group, restore, purge_group, purge, write_status,
}
use orbix_hub.Expenses.Purchase.{
  Distinct, of_purchase, irmas_of-keep, ids-Selects, marked, marked-ids, deleted-ids,
}

-- The purchase that an expense belongs to.
abbrev pub purchase_of : Expense → Expense → Bool
purchase_of atual = of_purchase atual.id atual.installment_group_id

abbrev pub rows_of : Expense → Books → List Expense
rows_of atual db = keep (purchase_of atual) db.expenses

abbrev pub after_write : Books → List Expense → AuditEvent → Result Error (Unit {0}) × Books
after_write db es event = (ok tt, record db { expenses = es; audit = db.audit ++ (event ∷ []) })

abbrev pub unless :
    Bool → Error → Books → Result Error (Unit {0}) × Books → Result Error (Unit {0}) × Books
unless refused e db r = if refused then (err e, db) else r

-- The whole purchase goes to the bin.
abbrev pub canceled_whole : ℕ → Expense → Books → Result Error (Unit {0}) × Books
canceled_whole id atual db = unless (not (is_active atual.status)) (conflict ja_excluida) db (
    unless (any is_paid (rows_of atual db)) (conflict tem_parcela_paga) db (
      after_write db (marked (purchase_of atual) canceled db.expenses)
        (expense_cancel id (length (rows_of atual db)))))

-- It comes back as a whole.
abbrev pub restored_whole : ℕ → Expense → Books → Result Error (Unit {0}) × Books
restored_whole id atual db = unless (is_active atual.status) (conflict nao_esta_excluida) db (
    after_write db (marked (purchase_of atual) active db.expenses)
      (expense_restore id (length (rows_of atual db))))

-- It is deleted as a whole, from the bin only and never with a payment.
abbrev pub purged_whole : ℕ → Expense → Books → Result Error (Unit {0}) × Books
purged_whole id atual db = unless (is_active atual.status) (conflict so_da_lixeira) db (
    unless (any is_registered (rows_of atual db)) (conflict tem_pagamento_registrado) db (
      after_write db (keep (λ e. not (purchase_of atual e)) db.expenses)
        (expense_purge id (length (rows_of atual db)) atual.description)))

length-ids : (es : List Expense) → length (ids_of es) ≡ length es
length-ids [] = refl
length-ids (e ∷ es) = omega (arith, length-ids es)

module _ (id : ℕ) (atual : Expense) (db : Books) (d : Distinct db.expenses)
    (found : find (expense_has_id id) db.expenses ≡ some atual) where
  grouped : irmas_do_grupo atual db ≡ rows_of atual db
  unfolding irmas_do_grupo
  grouped = irmas_of-keep atual.id atual.installment_group_id db.expenses d

  marked_by :
      (status : ExpenseStatus)
      → set_status_many (ids_of (rows_of atual db)) status db.expenses
        ≡ marked (purchase_of atual) status db.expenses
  marked_by status =
      marked-ids (purchase_of atual) _ status db.expenses
        (ids-Selects (purchase_of atual) db.expenses d)

  cancel_whole : cancel id db ≡ canceled_whole id atual db
  unfolding cancel cancel_group expense_or_throw find_by_id write_status audit_log ◌>>=◌
  cancel_whole = elim (Bool-cases (is_active atual.status)) [
    | inr gone ↦ rw (found, gone) refl
    | inl here ↦ elim (Bool-cases (any is_paid (rows_of atual db))) [
      | inl paid ↦ rw (found, here, grouped, paid) refl
      | inr unpaid ↦
          rw (found, here, grouped, unpaid, marked_by canceled, length-ids (rows_of atual db)) refl
    ]
  ]

  restore_whole : restore id db ≡ restored_whole id atual db
  unfolding restore restore_group expense_or_throw find_by_id write_status audit_log ◌>>=◌
  restore_whole = elim (Bool-cases (is_active atual.status)) [
    | inl here ↦ rw (found, here) refl
    | inr gone ↦ rw (found, gone, grouped, marked_by active, length-ids (rows_of atual db)) refl
  ]

  purge_whole : purge id db ≡ purged_whole id atual db
  unfolding purge purge_group expense_or_throw find_by_id audit_log ◌>>=◌
  purge_whole =
      let rest =
        deleted-ids (purchase_of atual) _ db.expenses
          (ids-Selects (purchase_of atual) db.expenses d) in
      elim (Bool-cases (is_active atual.status)) [
        | inl here ↦ rw (found, here) refl
        | inr gone ↦ elim (Bool-cases (any is_registered (rows_of atual db))) [
          | inl paid ↦ rw (found, gone, grouped, paid) refl
          | inr unpaid ↦ rw (found, gone, grouped, unpaid, rest, length-ids (rows_of atual db)) refl
        ]
      ]

  -- With distinct ids and an expense behind the id: cancelling, restoring and deleting for good, each
  -- with all its refusals, act on the whole purchase of the expense and on no other row.
  pub bin_whole :
      (cancel id db ≡ canceled_whole id atual db)
      × (restore id db ≡ restored_whole id atual db)
      × (purge id db ≡ purged_whole id atual db)
  bin_whole = (cancel_whole, restore_whole, purge_whole)
