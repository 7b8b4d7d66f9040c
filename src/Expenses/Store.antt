-- ===== src/Expenses/Store.antt =====
-- The expenses of a tenant: `expense` and `expense_recurrence` of back/prisma/schema.prisma and
-- back/src/modules/expenses/expenses.repository.ts, beside the cash book that the service reaches.
-- Left out are the author and the stamps of a row, the method of a rule, the check that a
-- description is not blank, and in the log the group, the method of payment and the names of the
-- edited fields; a category is its id.
use orbix_hub.Base.{
  ℕ, ◌==◌, Bool, true, false, not, Option, some, same_option, List, [], ◌∷◌, ◌++◌, find, any, all,
  leb, keep, map, update_first, if◌then◌else◌, Text, Exec, gets, modify, ◌&&◌, ◌||◌, none, throw_if,
  ◌>>=◌, ◌>>◌,
}
use orbix_hub.Calendar.{Day, before}
use orbix_hub.Expenses.{Rule}
use orbix_hub.Cashier
use orbix_hub.Cashier.Config.{PaymentMethod}

pub data ExpenseStatus : Type 0 where
  active canceled : ExpenseStatus

pub record Expense : Type 0 where
  pub id : ℕ
  pub description : Text
  pub amount : ℕ
  pub due_date : Day
  pub category_id : Option ℕ
  pub notes : Option Text
  pub supplier_name : Option Text
  pub supplier_doc : Option Text
  pub status : ExpenseStatus
  pub paid_at : Option ℕ
  pub paid_amount : Option ℕ
  pub paid_method : Option PaymentMethod
  pub cash_entry_id : Option ℕ
  pub installment_group_id : Option ℕ
  pub installment_no : Option ℕ
  pub installment_total : Option ℕ
  pub recurrence_id : Option ℕ
  pub occurrence_on : Option Day

pub data AuditEvent : Type 0 where
  expense_pay : (id amount cash_entry_id : ℕ) → AuditEvent
  expense_unpay : (id : ℕ) (cash_entry_id : Option ℕ) → AuditEvent
  expense_update : (id : ℕ) → AuditEvent
  expense_create : (id amount parcelas : ℕ) → AuditEvent
  expense_create_single : (id amount : ℕ) (recorrente : Bool) → AuditEvent
  expense_cancel expense_restore : (id parcelas : ℕ) → AuditEvent
  expense_purge : (id parcelas : ℕ) (description : Text) → AuditEvent

-- `expense_recurrence`: a rule, and how far its dates are made.
pub record Recurrence : Type 0 where
  pub id : ℕ
  pub description : Text
  pub amount : ℕ
  pub category_id : Option ℕ
  pub rule : Rule
  pub notes : Option Text
  pub generated_through : Option Day
  pub disabled : Bool

pub record Books : Type 0 where
  pub expenses : List Expense
  pub recurrences : List Recurrence
  pub categories : List ℕ
  pub cash : Cashier.Store.Db
  pub audit : List AuditEvent

pub data Message : Type 0 where
  despesa_nao_encontrada despesa_cancelada despesa_ja_paga parcela_anterior_em_aberto : Message
  sem_valor_definido nao_esta_paga ja_excluida tem_parcela_paga nao_esta_excluida : Message
  so_da_lixeira tem_pagamento_registrado : Message
  categoria_invalida documento_invalido total_menor_que_o_pago : Message
  informe_o_total ids_repetidos escolha_uma_coisa_so anual_sem_mes id_duplicado : Message
  ids_esperados : (esperados recebidos : ℕ) → Message

pub data Error : Type 0 where
  bad_request conflict not_found : Message → Error
  of_cashier : Cashier.Store.Error → Error
  -- A field of `undefined` was read.
  type_error : Error
  unique_violation check_violation : Error

abbrev pub Expenses : Type 0 → Type 0
Expenses A = Exec Books Error A

abbrev pub expense_has_id : ℕ → Expense → Bool
expense_has_id id e = e.id == id

unfoldable pub find_by_id : ℕ → Expenses (Option Expense)
find_by_id id = gets (λ db. find (expense_has_id id) db.expenses)

abbrev pub is_active : ExpenseStatus → Bool
is_active active = true
is_active canceled = false

abbrev pub in_installment_group : ℕ → Expense → Bool
in_installment_group group e = same_option e.installment_group_id (some group)

abbrev pub is_in : List ℕ → ℕ → Bool
is_in ids id = any (λ x. x == id) ids

abbrev pub with_status : ExpenseStatus → Expense → Expense
with_status status e = record e { status = status }

unfoldable pub set_status_many : List ℕ → ExpenseStatus → List Expense → List Expense
set_status_many ids status es = map (λ e. if is_in ids e.id then with_status status e else e) es

unfoldable pub delete_many : List ℕ → List Expense → List Expense
delete_many ids es = keep (λ e. not (is_in ids e.id)) es

pub record PaymentPatch : Type 0 where
  pub paid_at : Option ℕ
  pub paid_amount : Option ℕ
  pub paid_method : Option PaymentMethod
  pub cash_entry_id : Option ℕ

abbrev pub with_payment : PaymentPatch → Expense → Expense
with_payment p e = record e {
  paid_at = p.paid_at;
  paid_amount = p.paid_amount;
  paid_method = p.paid_method;
  cash_entry_id = p.cash_entry_id;
}

unfoldable pub set_payment : ℕ → PaymentPatch → Books → Books
set_payment id p db = record db {
  expenses = update_first (expense_has_id id) (with_payment p) db.expenses;
}

unfoldable pub audit_log : AuditEvent → Expenses (Unit {0})
audit_log event = modify (λ db. record db { audit = db.audit ++ (event ∷ []) })

abbrev pub in_active_group : ℕ → Expense → Bool
in_active_group group e = in_installment_group group e && is_active e.status

-- The rows of a group, without those in the bin.
unfoldable pub list_installment_group : ℕ → Books → List Expense
list_installment_group group db = keep (in_active_group group) db.expenses

unfoldable pub update : ℕ → (Expense → Expense) → List Expense → List Expense
update id patch es = update_first (expense_has_id id) patch es

abbrev pub same_day : Day → Day → Bool
same_day a b = a.year == b.year && a.month == b.month && a.day == b.day

abbrev pub on_day : Day → Option Day → Bool
on_day d none = false
on_day d (some e) = same_day d e

-- The unique index on a rule and its date.
abbrev pub occurrence_taken : Option ℕ → Option Day → List Expense → Bool
occurrence_taken none d es = false
occurrence_taken (some x) none es = false
occurrence_taken (some x) (some d) es =
    any (λ e. same_option e.recurrence_id (some x) && on_day d e.occurrence_on) es

abbrev pub is_taken : Expense → List Expense → Bool
is_taken r es = any (expense_has_id r.id) es || occurrence_taken r.recurrence_id r.occurrence_on es

-- A row that meets a unique index is left out.
unfoldable pub create_many : List Expense → List Expense → List Expense
create_many [] es = es
create_many (r ∷ rs) es = create_many rs (if is_taken r es then es else es ++ (r ∷ []))

-- `expense_installment_chk`: all three columns or none, from two parts to forty-eight.
abbrev pub plan_fits : (group numero total : Option ℕ) → Bool
plan_fits none none none = true
plan_fits (some g) (some n) (some t) = leb 2 t && leb t 48 && leb 1 n && leb n t
plan_fits _ _ _ = false

abbrev pub fits : Expense → Bool
fits r = plan_fits r.installment_group_id r.installment_no r.installment_total

-- `createMany`: a row that fails the check refuses them all.
unfoldable pub insert_many : List Expense → Expenses (Unit {0})
unfolding create_many
insert_many rows = do
  throw_if (not (all fits rows)) check_violation
  modify (λ db. record db { expenses = create_many rows db.expenses })

-- `create`: such a row is refused.
unfoldable pub create_row : Expense → Expenses (Unit {0})
create_row r = do
  taken ← gets (λ db. is_taken r db.expenses)
  throw_if taken unique_violation
  modify (λ db. record db { expenses = db.expenses ++ (r ∷ []) })

abbrev pub rule_has_id : ℕ → Recurrence → Bool
rule_has_id id r = r.id == id

abbrev pub ends_early : Option Day → Day → Bool
unfolding before
ends_early none start = false
ends_early (some d) start = before d start

-- Under the primary key, and the check that a rule does not end before it starts.
unfoldable pub create_recurrence : Recurrence → Expenses (Unit {0})
unfolding ends_early
create_recurrence r = do
  taken ← gets (λ db. any (rule_has_id r.id) db.recurrences)
  throw_if taken unique_violation
  throw_if (ends_early r.rule.ends_on r.rule.starts_on) check_violation
  modify (λ db. record db { recurrences = db.recurrences ++ (r ∷ []) })

abbrev pub with_generated : Day → Recurrence → Recurrence
with_generated d r = record r { generated_through = some d }

unfoldable pub update_recurrence : ℕ → Day → Books → Books
update_recurrence id d db = record db {
  recurrences = update_first (rule_has_id id) (with_generated d) db.recurrences;
}
