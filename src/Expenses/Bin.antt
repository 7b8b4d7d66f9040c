-- ===== src/Expenses/Bin.antt =====
-- The bin: `cancel`, `restore` and `purge` of back/src/modules/expenses/expenses.service.ts. An instalment
-- stands for its whole purchase. What `restore` answers, the detail of the expense, is left out.
use orbix_hub.Base.{
  ℕ, Bool, not, ◌||◌, Option, none, some, is_some, List, [], ◌∷◌, length, find, any, keep, map,
  Text, pure, gets, or_throw, throw_if, transaction, modify, ◌>>=◌, ◌>>◌,
}
use orbix_hub.Expenses.Store.{
  Expense, ExpenseStatus, active, canceled, Books, Expenses, conflict, not_found,
  despesa_nao_encontrada, ja_excluida, tem_parcela_paga, nao_esta_excluida, so_da_lixeira,
  tem_pagamento_registrado, find_by_id, is_active, in_installment_group, expense_has_id,
  set_status_many, delete_many, audit_log, expense_cancel, expense_restore, expense_purge,
}

abbrev pub one_or_none : Option Expense → List Expense
one_or_none none = []
one_or_none (some e) = e ∷ []

-- The expense and its sisters, whatever their status.
unfoldable pub irmas_of : (id : ℕ) → (group : Option ℕ) → List Expense → List Expense
irmas_of id none es = one_or_none (find (expense_has_id id) es)
irmas_of id (some group) es = keep (in_installment_group group) es

unfoldable pub irmas_do_grupo : Expense → Books → List Expense
unfolding irmas_of
irmas_do_grupo conta db = irmas_of conta.id conta.installment_group_id db.expenses

abbrev pub is_paid : Expense → Bool
is_paid e = is_some e.paid_at

abbrev pub is_registered : Expense → Bool
is_registered e = is_some e.paid_at || is_some e.cash_entry_id

abbrev pub ids_of : List Expense → List ℕ
ids_of es = map (λ e. e.id) es

unfoldable pub expense_or_throw : ℕ → Expenses Expense
unfolding find_by_id
expense_or_throw id = do found ← find_by_id id; or_throw found (not_found despesa_nao_encontrada)

unfoldable pub write_status : List ℕ → ExpenseStatus → Books → Books
unfolding set_status_many
write_status ids status db = record db { expenses = set_status_many ids status db.expenses }

unfoldable pub cancel_group : ℕ → Expenses (List ℕ)
unfolding expense_or_throw irmas_do_grupo write_status
cancel_group id = transaction do
  atual ← expense_or_throw id
  throw_if (not (is_active atual.status)) (conflict ja_excluida)
  grupo ← gets (irmas_do_grupo atual)
  throw_if (any is_paid grupo) (conflict tem_parcela_paga)
  modify (write_status (ids_of grupo) canceled)
  pure (ids_of grupo)

unfoldable pub cancel : ℕ → Expenses (Unit {0})
unfolding cancel_group audit_log
cancel id = do ids ← cancel_group id; audit_log (expense_cancel id (length ids))

unfoldable pub restore_group : ℕ → Expenses (List ℕ)
unfolding expense_or_throw irmas_do_grupo write_status
restore_group id = transaction do
  atual ← expense_or_throw id
  throw_if (is_active atual.status) (conflict nao_esta_excluida)
  grupo ← gets (irmas_do_grupo atual)
  modify (write_status (ids_of grupo) active)
  pure (ids_of grupo)

unfoldable pub restore : ℕ → Expenses (Unit {0})
unfolding restore_group audit_log
restore id = do ids ← restore_group id; audit_log (expense_restore id (length ids))

-- What is to be deleted for good, with the description for the log.
unfoldable pub purge_group : ℕ → Expenses (List ℕ × Text)
unfolding expense_or_throw irmas_do_grupo
purge_group id = transaction do
  atual ← expense_or_throw id
  throw_if (is_active atual.status) (conflict so_da_lixeira)
  grupo ← gets (irmas_do_grupo atual)
  throw_if (any is_registered grupo) (conflict tem_pagamento_registrado)
  pure (ids_of grupo, atual.description)

-- The log is written before the rows go.
unfoldable pub purge : ℕ → Expenses (Unit {0})
unfolding purge_group audit_log delete_many
purge id = do
  alvo ← purge_group id
  audit_log (expense_purge id (length alvo.0) alvo.1)
  modify (λ db. record db { expenses = delete_many alvo.0 db.expenses })
