-- ===== src/Expenses/Edit.antt =====
-- Editing an expense: `update`, `redistribuirParcelamento`, `normalizarFornecedor` and `validarCategoria` of
-- back/src/modules/expenses/expenses.service.ts. The amount of an instalment is the total of its purchase.
pub mod Rows
pub mod Sorted
pub mod Total
pub mod Redistributed
use orbix_hub.Base.{
  ℕ, ◌+◌, ◌-◌, ◌==◌, Bool, true, false, not, ◌&&◌, Option, none, some, or_default, List, [], ◌∷◌,
  length, any, keep, sum_by, if◌then◌else◌, ltb, leb, Text, trim, trim_or_null, trimmed, pure,
  throw, gets, or_throw, throw_if, transaction, modify, ◌>>=◌, ◌>>◌,
}
use orbix_hub.Money.{round2, of_cents}
use orbix_hub.Calendar.{Day}
use orbix_hub.Expenses.{ratear_parcelas}
use orbix_hub.Expenses.Store.{
  Expense, Books, Expenses, bad_request, conflict, despesa_ja_paga, categoria_invalida,
  documento_invalido, total_menor_que_o_pago, list_installment_group, expense_has_id, update,
  audit_log, expense_update,
}
use orbix_hub.Expenses.Bin.{is_paid, expense_or_throw}
use orbix_hub.Expenses.Payment.{number_of}

-- `UpdateExpenseDto`; the amount is in thousandths.
pub record UpdateDto : Type 0 where
  pub description : Option Text
  pub due_date : Option Day
  pub amount : Option ℕ
  pub category_id : Option ℕ
  pub notes : Option Text
  pub limpar_categoria : Bool
  pub supplier_name : Option Text
  pub supplier_doc : Option Text
  pub limpar_fornecedor : Bool

unfoldable pub validar_categoria : Option ℕ → Expenses (Unit {0})
validar_categoria none = pure tt
validar_categoria (some c) = do
  known ← gets (λ db. any (λ x. x == c) db.categories)
  throw_if (not known) (bad_request categoria_invalida)

pub record Fornecedor : Type 0 where
  pub name : Option Text
  pub doc : Option Text

abbrev pub is_digit : ℕ → Bool
is_digit c = leb 48 c && leb c 57

-- `cru`, empty or with 11 or 14 digits.
abbrev pub doc_of : Text → Expenses (Option Text)
doc_of [] = pure none
doc_of (c ∷ cs) =
    let n = length (c ∷ cs) in
    if not (n == 11) && not (n == 14)
    then throw (bad_request documento_invalido)
    else pure (some (c ∷ cs))

unfoldable pub normalizar_fornecedor : Option Text → Option Text → Expenses Fornecedor
unfolding trim_or_null
normalizar_fornecedor name doc = do
  cru ← doc_of (keep is_digit (or_default doc []))
  pure (record { name = trimmed name; doc = cru })

-- Stable, by the number of the instalment.
unfoldable pub insert_by_number : Expense → List Expense → List Expense
insert_by_number p [] = p ∷ []
insert_by_number p (q ∷ qs) =
    let rest = insert_by_number p qs in
    if leb (number_of p) (number_of q) then p ∷ q ∷ qs else q ∷ rest

unfoldable pub sort_by_number : List Expense → List Expense
unfolding insert_by_number
sort_by_number [] = []
sort_by_number (p ∷ ps) = insert_by_number p (sort_by_number ps)

abbrev pub with_amount : ℕ → Expense → Expense
with_amount v e = record e { amount = v }

-- `meuValor` and the rows, after one round.
abbrev pub write_value : (id : ℕ) → Expense → ℕ → ℕ × List Expense → ℕ × List Expense
write_value id p v w = if p.id == id then (v, w.1) else (w.0, update p.id (with_amount v) w.1)

unfoldable pub write_values : (id : ℕ) → List Expense → List ℕ → ℕ × List Expense → ℕ × List Expense
unfolding update
write_values id (p ∷ ps) (v ∷ vs) w = write_values id ps vs (write_value id p v w)
write_values id _ _ w = w

unfoldable pub abertas_of : List Expense → List Expense
unfolding sort_by_number
abertas_of grupo = sort_by_number (keep (λ p. not (is_paid p)) grupo)

unfoldable pub comprometido_of : List Expense → ℕ
comprometido_of grupo = sum_by (λ p. p.amount) (keep is_paid grupo)

abbrev pub redistribuir_grupo : (id total : ℕ) → List Expense → Expenses ℕ
redistribuir_grupo id total grupo = do
  let abertas = abertas_of grupo
  let comprometido = comprometido_of grupo
  throw_if (ltb 0 (length abertas) && leb total comprometido) (bad_request total_menor_que_o_pago)
  let valores = ratear_parcelas (of_cents (total - comprometido)) (length abertas)
  meu ← gets (λ db. (write_values id abertas valores (total, db.expenses)).0)
  modify (λ db. record db { expenses = (write_values id abertas valores (total, db.expenses)).1 })
  pure meu

abbrev pub redistribuir_de : Expense → (total : ℕ) → Option ℕ → Expenses ℕ
redistribuir_de atual total none = pure total
redistribuir_de atual total (some group) = do
  grupo ← gets (list_installment_group group)
  redistribuir_grupo atual.id total grupo

abbrev pub redistribuir_total : Expense → Option ℕ → Expenses (Option ℕ)
redistribuir_total atual none = pure none
redistribuir_total atual (some novo_total) = do
  meu ← redistribuir_de atual (round2 novo_total) atual.installment_group_id
  pure (some meu)

unfoldable pub redistribuir_parcelamento : Expense → Option ℕ → Expenses (Option ℕ)
unfolding list_installment_group abertas_of comprometido_of write_values ratear_parcelas round2
redistribuir_parcelamento = redistribuir_total

abbrev pub kept_or : {A : Type 0} → Bool → Option A → Option A → Option A
kept_or true new old = none
kept_or false none old = old
kept_or false (some a) old = some a

abbrev pub notes_of : Option Text → Option Text → Option Text
notes_of none old = old
notes_of (some t) old = trim_or_null t

unfoldable pub patched : UpdateDto → Fornecedor → Option ℕ → Expense → Expense
unfolding trim_or_null
patched dto fornecedor meu e = record e {
  description = description_of dto.description;
  amount = or_default meu e.amount;
  due_date = or_default dto.due_date e.due_date;
  category_id = kept_or dto.limpar_categoria dto.category_id e.category_id;
  notes = notes_of dto.notes e.notes;
  supplier_name = kept_or dto.limpar_fornecedor fornecedor.name e.supplier_name;
  supplier_doc = kept_or dto.limpar_fornecedor fornecedor.doc e.supplier_doc;
}
  where
    description_of : Option Text → Text
    description_of none = e.description
    description_of (some t) = trim t

unfoldable pub edit_expense : ℕ → UpdateDto → Expenses (Unit {0})
unfolding expense_or_throw validar_categoria normalizar_fornecedor redistribuir_parcelamento patched
    update
edit_expense id dto = transaction do
  atual ← expense_or_throw id
  throw_if (is_paid atual) (conflict despesa_ja_paga)
  validar_categoria dto.category_id
  fornecedor ← normalizar_fornecedor dto.supplier_name dto.supplier_doc
  meu ← redistribuir_parcelamento atual dto.amount
  modify (λ db. record db { expenses = update id (patched dto fornecedor meu) db.expenses })

-- `update`
unfoldable pub update_expense : ℕ → UpdateDto → Expenses (Unit {0})
unfolding edit_expense audit_log
update_expense id dto = do edit_expense id dto; audit_log (expense_update id)
