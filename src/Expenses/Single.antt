-- ===== src/Expenses/Single.antt =====
-- A new expense: `create` of back/src/modules/expenses/expenses.service.ts, which leaves a purchase in instalments to
-- `criarParcelado`.
pub mod Fresh
pub mod Kept
use orbix_hub.Base.{
  ℕ, ◌+◌, ◌==◌, Bool, true, false, not, ◌&&◌, Option, none, some, or_default, is_some, Text, trim,
  trim_or_null, trimmed, if◌then◌else◌, pure, throw, throw_if, transaction, catch, ◌>>=◌, ◌>>◌,
}
use orbix_hub.Money.{round2}
use orbix_hub.Calendar.{Day}
use orbix_hub.Expenses.{Frequency, monthly, yearly}
use orbix_hub.Expenses.Store.{
  Expense, active, Recurrence, Expenses, Error, bad_request, conflict, unique_violation,
  escolha_uma_coisa_so, anual_sem_mes, id_duplicado, create_row, create_recurrence, audit_log,
  expense_create_single,
}
use orbix_hub.Expenses.Edit.{Fornecedor, normalizar_fornecedor, validar_categoria}
use orbix_hub.Expenses.Create.{CreateDto, RecurrenceDto, Generated, criar_parcelado}
use orbix_hub.Expenses.Esteira.{materializar}

abbrev pub is_yearly : Frequency → Bool
is_yearly monthly = false
is_yearly yearly = true

abbrev pub month_or : Frequency → Option ℕ → Day → Option ℕ
month_or freq (some m) vencimento = some m
month_or monthly none vencimento = none
month_or yearly none vencimento = some (vencimento.month + 1)

unfoldable pub nova_regra :
    Generated → CreateDto → (valor : ℕ) → RecurrenceDto → Frequency → Recurrence
unfolding trim trim_or_null
nova_regra g dto valor rec freq = record {
  id = g.regra;
  description = trim dto.description;
  amount = valor;
  category_id = dto.category_id;
  rule = record {
    frequency = freq;
    day_of_month = or_default rec.day_of_month dto.due_date.day;
    month_of_year = month_or freq rec.month_of_year dto.due_date;
    starts_on = dto.due_date;
    ends_on = rec.ends_on;
  };
  notes = trimmed dto.notes;
  generated_through = none;
  disabled = false;
}

-- The id of the rule, if one is asked for.
abbrev pub criar_regra :
    Generated → CreateDto → (valor : ℕ) → Option RecurrenceDto → Expenses (Option ℕ)
unfolding create_recurrence nova_regra
criar_regra g dto valor none = pure none
criar_regra g dto valor (some rec) = do
  let freq = or_default rec.frequency monthly
  throw_if (is_yearly freq && not (is_some rec.month_of_year)) (bad_request anual_sem_mes)
  create_recurrence (nova_regra g dto valor rec freq)
  pure (some g.regra)

abbrev pub first_occurrence : Option ℕ → Day → Option Day
first_occurrence none vencimento = none
first_occurrence (some regra) vencimento = some vencimento

unfoldable pub conta :
    Generated → CreateDto → (valor : ℕ) → Fornecedor → (recurrence_id : Option ℕ) → Expense
unfolding trim trim_or_null
conta g dto valor f recurrence_id = record {
  id = or_default dto.id (g.parcela 0);
  description = trim dto.description;
  amount = valor;
  due_date = dto.due_date;
  category_id = dto.category_id;
  notes = trimmed dto.notes;
  supplier_name = f.name;
  supplier_doc = f.doc;
  status = active;
  paid_at = none;
  paid_amount = none;
  paid_method = none;
  cash_entry_id = none;
  installment_group_id = none;
  installment_no = none;
  installment_total = none;
  recurrence_id = recurrence_id;
  occurrence_on = first_occurrence recurrence_id dto.due_date;
}

abbrev pub explain : (asked : Option ℕ) → Error → Error
explain (some id) unique_violation = conflict id_duplicado
explain _ e = e

abbrev pub seguir : (uuid : ℕ → ℕ) → Option ℕ → Expenses (Unit {0})
unfolding materializar
seguir uuid none = pure tt
seguir uuid (some regra) = materializar uuid regra

unfoldable pub write_conta : Generated → CreateDto → (valor : ℕ) → Fornecedor → Expenses Expense
unfolding validar_categoria create_recurrence nova_regra create_row conta materializar
write_conta g dto valor f = transaction do
  validar_categoria dto.category_id
  recurrence_id ← criar_regra g dto valor dto.recorrencia
  let nova = conta g dto valor f recurrence_id
  catch (create_row nova) (λ e. throw (explain dto.id e))
  seguir (λ i. g.parcela (i + 1)) recurrence_id
  pure nova

unfoldable pub create_single : Generated → CreateDto → (valor : ℕ) → Fornecedor → Expenses Expense
unfolding write_conta audit_log
create_single g dto valor f = do
  criada ← write_conta g dto valor f
  audit_log (expense_create_single criada.id criada.amount (is_some dto.recorrencia))
  pure criada

unfoldable pub create : Generated → CreateDto → Expenses Expense
unfolding normalizar_fornecedor round2 criar_parcelado create_single
create g dto = do
  let valor = round2 (or_default dto.amount 0)
  fornecedor ← normalizar_fornecedor dto.supplier_name dto.supplier_doc
  throw_if (not (dto.parcelas == 0) && is_some dto.recorrencia) (bad_request escolha_uma_coisa_so)
  if dto.parcelas == 0
      then create_single g dto valor fornecedor
      else criar_parcelado g dto
          (record { vencimento = dto.due_date; total = valor; fornecedor = fornecedor })
