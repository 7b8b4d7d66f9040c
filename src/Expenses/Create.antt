-- ===== src/Expenses/Create.antt =====
-- A purchase in instalments: `criarParcelado` of back/src/modules/expenses/expenses.service.ts. Totals are in
-- cents, the requested amount in thousandths.
pub mod Plan
pub mod Rows
pub mod Born
use orbix_hub.Base.{
  ℕ, zero, suc, ◌+◌, ◌==◌, Bool, true, false, not, ◌||◌, Option, none, some, or_default, List, [],
  ◌∷◌, length, any, Text, trim, trim_or_null, trimmed, pure, gets, or_throw, throw_if, transaction,
  modify, ◌>>=◌, ◌>>◌,
}
use orbix_hub.Money.{of_cents}
use orbix_hub.Calendar.{Day}
use orbix_hub.Expenses.{Frequency, ratear_parcelas, datas_das_parcelas}
use orbix_hub.Expenses.Store.{
  Expense, active, Books, Expenses, bad_request, type_error, informe_o_total, ids_repetidos,
  ids_esperados, list_installment_group, insert_many, audit_log, expense_create,
}
use orbix_hub.Expenses.Edit.{Fornecedor, validar_categoria, sort_by_number}

-- `RecurrenceInputDto`
pub record RecurrenceDto : Type 0 where
  pub frequency : Option Frequency
  pub day_of_month : Option ℕ
  pub month_of_year : Option ℕ
  pub ends_on : Option Day

-- `CreateExpenseDto`; zero `parcelas` are none.
pub record CreateDto : Type 0 where
  pub id : Option ℕ
  pub recorrencia : Option RecurrenceDto
  pub description : Text
  pub due_date : Day
  pub amount : Option ℕ
  pub category_id : Option ℕ
  pub notes : Option Text
  pub parcelas : ℕ
  pub installment_ids : Option (List ℕ)
  pub installment_group_id : Option ℕ
  pub supplier_name : Option Text
  pub supplier_doc : Option Text

pub record Contexto : Type 0 where
  pub vencimento : Day
  pub total : ℕ
  pub fornecedor : Fornecedor

-- `randomUUID()`, and what `gen_random_uuid()` answers for a rule and for each row.
pub record Generated : Type 0 where
  pub grupo : ℕ
  pub regra : ℕ
  pub parcela : ℕ → ℕ

abbrev pub repeated : List ℕ → Bool
repeated [] = false
repeated (id ∷ ids) = any (λ x. x == id) ids || repeated ids

abbrev pub check_ids : (n : ℕ) → Option (List ℕ) → Expenses (Unit {0})
check_ids n none = pure tt
check_ids n (some ids) = do
  throw_if (not (length ids == n)) (bad_request (ids_esperados n (length ids)))
  throw_if (repeated ids) (bad_request ids_repetidos)

abbrev pub generate : (n i : ℕ) → (ℕ → ℕ) → List ℕ
generate zero i parcela = []
generate (suc n) i parcela = parcela i ∷ generate n (i + 1) parcela

abbrev pub ids_for : Generated → CreateDto → List ℕ
ids_for g dto = or_default dto.installment_ids (generate dto.parcelas 0 g.parcela)

abbrev pub grupo_for : Generated → CreateDto → ℕ
grupo_for g dto = or_default dto.installment_group_id g.grupo

unfoldable pub linha : CreateDto → Fornecedor → (grupo i id valor : ℕ) → Day → Expense
unfolding trim trim_or_null
linha dto f grupo i id valor data_ = record {
  id = id;
  description = trim dto.description;
  amount = valor;
  due_date = data_;
  category_id = dto.category_id;
  notes = trimmed dto.notes;
  supplier_name = f.name;
  supplier_doc = f.doc;
  status = active;
  paid_at = none;
  paid_amount = none;
  paid_method = none;
  cash_entry_id = none;
  installment_group_id = some grupo;
  installment_no = some (i + 1);
  installment_total = some dto.parcelas;
  recurrence_id = none;
  occurrence_on = none;
}

-- `valores.map`, from the index `i`.
unfoldable pub linhas_from :
    CreateDto → Fornecedor → (grupo i : ℕ) → (ids valores : List ℕ) → List Day → List Expense
unfolding linha
linhas_from dto f grupo i (id ∷ ids) (v ∷ vs) (d ∷ ds) =
    linha dto f grupo i id v d ∷ linhas_from dto f grupo (i + 1) ids vs ds
linhas_from dto f grupo i _ _ _ = []

unfoldable pub linhas : Generated → CreateDto → Contexto → List Expense
unfolding linhas_from ratear_parcelas datas_das_parcelas
linhas g dto ctx =
    linhas_from dto ctx.fornecedor (grupo_for g dto) 0 (ids_for g dto)
      (ratear_parcelas (of_cents ctx.total) dto.parcelas)
      (datas_das_parcelas ctx.vencimento dto.parcelas)

abbrev pub first_of : List Expense → Option Expense
first_of [] = none
first_of (e ∷ es) = some e

-- The `catch` of the source is left out: rows that violate an index are skipped by the insert.
unfoldable pub write_parcelas : Generated → CreateDto → Contexto → Expenses (Option Expense)
unfolding validar_categoria insert_many linhas list_installment_group sort_by_number
write_parcelas g dto ctx = transaction do
  validar_categoria dto.category_id
  insert_many (linhas g dto ctx)
  gets (λ db. first_of (sort_by_number (list_installment_group (grupo_for g dto) db)))

unfoldable pub criar_parcelado : Generated → CreateDto → Contexto → Expenses Expense
unfolding write_parcelas audit_log
criar_parcelado g dto ctx = do
  throw_if (ctx.total == 0) (bad_request informe_o_total)
  check_ids dto.parcelas dto.installment_ids
  found ← write_parcelas g dto ctx
  primeira ← or_throw found type_error
  audit_log (expense_create primeira.id ctx.total dto.parcelas)
  pure primeira
