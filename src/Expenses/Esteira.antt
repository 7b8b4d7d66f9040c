-- ===== src/Expenses/Esteira.antt =====
-- The dates of a rule that are made ahead: `materializar` and `estenderRegra` of
-- back/src/modules/expenses/expenses.service.ts.
pub mod Months
pub mod Monthly
pub mod Consecutive
pub mod Extended
use orbix_hub.Base.{
  ℕ, ◌+◌, Bool, true, false, Option, none, some, or_default, List, [], ◌∷◌, find, if◌then◌else◌,
  pure, gets, transaction, modify, ◌>>=◌, ◌>>◌,
}
use orbix_hub.Calendar.{Day}
use orbix_hub.Expenses.{proximas_ocorrencias, meses_de_esteira}
use orbix_hub.Expenses.Store.{
  Expense, active, Recurrence, Books, Expenses, rule_has_id, create_many, update_recurrence,
}

abbrev pub last_made : Recurrence → Day
last_made regra = or_default regra.generated_through regra.rule.starts_on

unfoldable pub datas_de : Recurrence → List Day
unfolding proximas_ocorrencias
datas_de regra = proximas_ocorrencias regra.rule (some (last_made regra)) (some meses_de_esteira)

abbrev pub ocorrencia : (id : ℕ) → Recurrence → Day → Expense
ocorrencia id regra data_ = record {
  id = id;
  description = regra.description;
  amount = regra.amount;
  due_date = data_;
  category_id = regra.category_id;
  notes = regra.notes;
  supplier_name = none;
  supplier_doc = none;
  status = active;
  paid_at = none;
  paid_amount = none;
  paid_method = none;
  cash_entry_id = none;
  installment_group_id = none;
  installment_no = none;
  installment_total = none;
  recurrence_id = some regra.id;
  occurrence_on = some data_;
}

-- `datas.map`, with the ids that the database gives.
unfoldable pub ocorrencias : (uuid : ℕ → ℕ) → (i : ℕ) → Recurrence → List Day → List Expense
ocorrencias uuid i regra [] = []
ocorrencias uuid i regra (d ∷ ds) = ocorrencia (uuid i) regra d ∷ ocorrencias uuid (i + 1) regra ds

abbrev pub last_of : Day → List Day → Day
last_of d [] = d
last_of d (e ∷ es) = last_of e es

unfoldable pub gravar : (uuid : ℕ → ℕ) → Recurrence → List Day → Books → Books
unfolding create_many update_recurrence ocorrencias
gravar uuid regra [] db = db
gravar uuid regra (d ∷ ds) db =
    update_recurrence regra.id (last_of d ds)
      (record db { expenses = create_many (ocorrencias uuid 0 regra (d ∷ ds)) db.expenses })

abbrev pub estender : (uuid : ℕ → ℕ) → Option Recurrence → Books → Books
unfolding gravar datas_de
estender uuid none db = db
estender uuid (some regra) db = if regra.disabled then db else gravar uuid regra (datas_de regra) db

unfoldable pub materializar : (uuid : ℕ → ℕ) → (recurrence_id : ℕ) → Expenses (Unit {0})
unfolding gravar datas_de
materializar uuid id = do
  regra ← gets (λ db. find (rule_has_id id) db.recurrences)
  modify (estender uuid regra)

unfoldable pub estender_regra : (uuid : ℕ → ℕ) → (recurrence_id : ℕ) → Expenses (Unit {0})
unfolding materializar
estender_regra uuid id = transaction (materializar uuid id)
