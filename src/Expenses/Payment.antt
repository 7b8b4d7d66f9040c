-- ===== src/Expenses/Payment.antt =====
-- Paying an expense and undoing it, through the cash book: `pay` and `unpay` of
-- back/src/modules/expenses/expenses.service.ts.
pub mod Mirrored
pub mod Order
pub mod Paid
use orbix_hub.Base.{
  ℕ, ◌==◌, Bool, true, false, not, ◌&&◌, Option, none, some, is_some, or_default, List, [], ◌∷◌,
  any, keep, update_first, if◌then◌else◌, ltb, Text, Result, ok, err, pure, gets, throw_if,
  transaction, modify, ◌>>=◌, ◌>>◌,
}
use orbix_hub.Money.{round2, of_cents}
use orbix_hub.Cashier
use orbix_hub.Cashier.Config.{PaymentMethod, dinheiro, known}
use orbix_hub.Cashier.Corrections.{
  SaidaDeDespesa, registrar_saida_de_despesa, estornar_saida_de_despesa,
}
use orbix_hub.Expenses.Store.{
  Expense, Books, Error, of_cashier, bad_request, conflict, Expenses, despesa_cancelada,
  despesa_ja_paga, parcela_anterior_em_aberto, sem_valor_definido, nao_esta_paga, is_active,
  in_installment_group, PaymentPatch, set_payment, audit_log, expense_pay, expense_unpay,
  list_installment_group,
}
use orbix_hub.Expenses.Bin.{is_paid, expense_or_throw}

-- `PayExpenseDto`; the amount is in thousandths.
pub record PayDto : Type 0 where
  pub amount : Option ℕ
  pub method : Option PaymentMethod
  pub paid_at : Option ℕ
  pub device_id : Option ℕ
  pub cash_entry_id : Option ℕ

abbrev pub keep_books :
    {A : Type 0} → Books → Result Cashier.Store.Error A × Cashier.Store.Db → Result Error A × Books
keep_books db (ok a, cash) = (ok a, record db { cash = cash })
keep_books db (err e, cash) = (err (of_cashier e), record db { cash = cash })

-- A call of the cash book's service.
abbrev pub at_desk : {A : Type 0} → Cashier.Store.Cashier A → Expenses A
at_desk m db = keep_books db (m db.cash)

-- The rows of the group that are not in the bin.
unfoldable pub active_group : Expense → Books → List Expense
unfolding list_installment_group
active_group conta db = of_group conta.installment_group_id
  where
    of_group : Option ℕ → List Expense
    of_group none = []
    of_group (some g) = list_installment_group g db

-- Numbered before, and not paid.
abbrev pub open_before : (numero : ℕ) → Expense → Bool
open_before numero p = not (is_paid p) && numbered p.installment_no
  where
    numbered : Option ℕ → Bool
    numbered none = false
    numbered (some n) = ltb n numero

abbrev pub number_of : Expense → ℕ
number_of p = or_default p.installment_no 0

abbrev pub sooner : Expense → Option Expense → Expense
sooner p none = p
sooner p (some q) = if ltb (number_of q) (number_of p) then q else p

-- The first of the sorted rows.
unfoldable pub earliest : List Expense → Option Expense
earliest [] = none
earliest (p ∷ ps) = some (sooner p (earliest ps))

abbrev pub before_number : Option ℕ → Option ℕ → List Expense → Option Expense
before_number (some g) (some numero) grupo = earliest (keep (open_before numero) grupo)
before_number _ _ grupo = none

unfoldable pub parcela_anterior : Expense → List Expense → Option Expense
unfolding earliest
parcela_anterior conta grupo = before_number conta.installment_group_id conta.installment_no grupo

abbrev pub payment_of : ℕ → PayDto → Cashier.Store.Request → (valor entry : ℕ) → PaymentPatch
payment_of id dto req valor entry = record {
  paid_at = some (or_default dto.paid_at req.now);
  paid_amount = some valor;
  paid_method = some (or_default dto.method dinheiro);
  cash_entry_id = some entry;
}

unfoldable pub saida_of : ℕ → PayDto → Expense → (valor : ℕ) → SaidaDeDespesa
saida_of id dto atual valor = record {
  amount = of_cents valor;
  method = known (or_default dto.method dinheiro);
  description = atual.description;
  device_id = dto.device_id;
  entry_id = dto.cash_entry_id;
  origin_id = some id;
}

-- The guards, in their order, with the value to pay.
unfoldable pub check_payment : ℕ → PayDto → Expenses (Expense × ℕ)
unfolding expense_or_throw active_group parcela_anterior round2
check_payment id dto = do
  atual ← expense_or_throw id
  grupo ← gets (active_group atual)
  throw_if (not (is_active atual.status)) (conflict despesa_cancelada)
  throw_if (is_paid atual) (conflict despesa_ja_paga)
  throw_if (is_some (parcela_anterior atual grupo)) (conflict parcela_anterior_em_aberto)
  let valor = round2 (or_default dto.amount (of_cents atual.amount))
  throw_if (valor == 0) (bad_request sem_valor_definido)
  pure (atual, valor)

-- The cash book first, then the expense.
unfoldable pub pay : Cashier.Store.Request → ℕ → PayDto → Expenses (Unit {0})
unfolding check_payment registrar_saida_de_despesa saida_of set_payment audit_log
pay req id dto = do
  checked ← check_payment id dto
  entry ← at_desk (registrar_saida_de_despesa req (saida_of id dto checked.0 checked.1))
  modify (set_payment id (payment_of id dto req checked.1 entry))
  audit_log (expense_pay id checked.1 entry)

abbrev pub no_payment : PaymentPatch
no_payment = record { paid_at = none; paid_amount = none; paid_method = none; cash_entry_id = none }

unfoldable pub undo_entry : Cashier.Store.Request → Option ℕ → Expenses (Unit {0})
unfolding estornar_saida_de_despesa
undo_entry req none = pure tt
undo_entry req (some entry) = at_desk (estornar_saida_de_despesa req entry)

unfoldable pub unpay : Cashier.Store.Request → ℕ → Expenses (Unit {0})
unfolding expense_or_throw undo_entry set_payment audit_log
unpay req id = do
  atual ← expense_or_throw id
  throw_if (not (is_paid atual)) (conflict nao_esta_paga)
  undo_entry req atual.cash_entry_id
  modify (set_payment id no_payment)
  audit_log (expense_unpay id atual.cash_entry_id)
