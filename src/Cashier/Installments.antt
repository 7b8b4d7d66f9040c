-- ===== src/Cashier/Installments.antt =====
-- Instalments of a credit sale: `createInstallmentPlan`, `updateInstallment`, `payInstallment`,
-- `contarParcelasEmAberto` and their helpers of
-- back/src/modules/cashier/cashier.service.impl.ts.
pub mod Plan
use orbix_hub.Base.{
  ℕ, zero, suc, ◌-◌, ◌*◌, ◌==◌, Bool, false, not, ◌&&◌, ◌||◌, Option, none, some, is_some,
  or_default, List, [], ◌∷◌, ◌++◌, find, any, keep, length, update_first, if◌then◌else◌, Text,
  trimmed, ℤ, pos, sub_ℕ, ok, err, pure, throw_if, or_throw, transaction, gets, modify, ◌>>=◌, ◌>>◌,
  ltb, min,
}
use orbix_hub.Money.{of_cents, round2, round2_ℤ, divide_rounded}
use orbix_hub.Calendar.{Day, days_in_month, make_day, add_month, before}
use orbix_hub.Cashier.Config.{
  PaymentMethod, EntryCategory, os_payment, venda_avulsa, SaleKind, os, sale, expense, incoming,
}
use orbix_hub.Cashier.Store.{
  CashEntry, CashSession, Installment, Db, Cashier, Request, bad_request, not_found,
  unique_violation, check_violation, plano_pendente_existe, ids_por_parcela, parcela_nao_encontrada,
  parcela_ja_paga, parcela_inexistente_ou_paga, installment_amount_update, installment_pay,
  get_config, create_entry_row, audit_log,
}
use orbix_hub.Cashier.Entries.{aprovar_desconto, ensure_session, audit_discount}

pub record CreatePlanDto : Type 0 where
  pub sale_kind : SaleKind
  pub sale_id : ℕ
  pub installment_count : ℕ
  pub due_day_of_month : ℕ
  pub total_amount : ℕ  -- thousandths
  pub first_due_date : Option Day
  pub notes : Option Text
  pub installment_ids : Option (List ℕ)
  pub substituir_pendentes : Bool

abbrev kind_code : SaleKind → ℕ
kind_code os = 0
kind_code sale = 1
kind_code expense = 2

abbrev pub pending_of : SaleKind → ℕ → Installment → Bool
pending_of kind id i =
    kind_code i.sale_kind == kind_code kind && i.sale_id == id && not (is_some i.paid_at)

-- `next.setMonth(+1)` and then `next.setDate(min(dueDay, last day))`.
unfoldable pub next_due : (due_day : ℕ) → Day → Day
unfolding add_month
next_due due_day current =
    let next = add_month current in
    record next { day = min due_day (days_in_month next.year next.month) }

-- `nextOccurrenceOfDay`, from today; the candidate at midnight is not after `now` on its own day.
unfoldable pub next_occurrence_of_day : (today : Day) (day : ℕ) → Day
unfolding next_due make_day before
next_occurrence_of_day today day =
    let candidate = make_day today.year today.month day in
    if before today candidate then candidate else next_due day candidate

unfoldable pub due_dates : (count due_day : ℕ) → Day → List Day
due_dates zero due_day current = []
due_dates (suc n) due_day current = current ∷ due_dates n due_day (next_due due_day current)

-- The base value in cents, and what the last instalment takes so that the sum is the total.
unfoldable pub base_amount : (total count : ℕ) → ℕ
unfolding divide_rounded
base_amount total count = divide_rounded total count

unfoldable pub last_amount : (total count : ℕ) → ℤ
unfolding base_amount round2_ℤ
last_amount total count = round2_ℤ (sub_ℕ total (of_cents (base_amount total count * (count - 1))))

-- The amounts in order, with `left` instalments to go.
unfoldable pub amounts_from : (left : ℕ) (base : ℕ) (last : ℤ) → List ℤ
amounts_from zero base last = []
amounts_from (suc zero) base last = last ∷ []
amounts_from (suc (suc n)) base last = pos base ∷ amounts_from (suc n) base last

unfoldable pub plan_amounts : (total count : ℕ) → List ℤ
unfolding amounts_from base_amount last_amount
plan_amounts total count = amounts_from count (base_amount total count) (last_amount total count)

-- The rows of `createMany`. `CHECK (amount > 0)` refuses all of them when one is not positive.
unfoldable pub plan_rows : CreatePlanDto → List ℤ → List Day → List ℕ → Option (List Installment)
plan_rows dto (pos (suc n) ∷ rest) (d ∷ ds) (id ∷ ids) = elim (plan_rows dto rest ds ids) [
  | none ↦ none
  | some rows ↦ some (
      record {
        id = id;
        sale_kind = dto.sale_kind;
        sale_id = dto.sale_id;
        amount = suc n;
        due_date = d;
        paid_at = none;
        entry_id = none;
        notes = dto.notes;
      }
      ∷ rows)
]
plan_rows dto [] ds ids = some []
plan_rows dto _ ds ids = none

abbrev pub installment_has_id : ℕ → Installment → Bool
installment_has_id id i = i.id == id

abbrev pub repeats : List Installment → List Installment → Bool
repeats old [] = false
repeats old (i ∷ rest) =
    any (installment_has_id i.id) old || any (installment_has_id i.id) rest || repeats old rest

unfoldable pub insert_plan : Option (List Installment) → Cashier ℕ
insert_plan none db = (err check_violation, db)
insert_plan (some rows) db =
    if repeats db.installments rows
    then (err (unique_violation false), db)
    else (ok (length rows), record db { installments = db.installments ++ rows })

abbrev wrong_length : Option (List ℕ) → ℕ → Bool
wrong_length none count = false
wrong_length (some ids) count = not (length ids == count)

-- `today` is the server's day, `uuids` what the database would generate.
unfoldable pub create_installment_plan : Day → List ℕ → CreatePlanDto → Cashier ℕ
unfolding insert_plan plan_rows plan_amounts due_dates next_occurrence_of_day
create_installment_plan today uuids dto =
    throw_if (wrong_length dto.installment_ids dto.installment_count) (bad_request ids_por_parcela)
    >> transaction do
      existing ← gets (λ db. keep (pending_of dto.sale_kind dto.sale_id) db.installments)
      throw_if (ltb 0 (length existing) && not dto.substituir_pendentes)
          (bad_request plano_pendente_existe)
      modify (λ db. record db {
        installments = keep (λ i. not (pending_of dto.sale_kind dto.sale_id i)) db.installments;
      })
      insert_plan (
          plan_rows dto (plan_amounts dto.total_amount dto.installment_count)
            (due_dates dto.installment_count dto.due_day_of_month
              (or_default dto.first_due_date (next_occurrence_of_day today dto.due_day_of_month)))
            (or_default dto.installment_ids uuids))

unfoldable pub contar_parcelas_em_aberto : SaleKind → ℕ → Cashier ℕ
contar_parcelas_em_aberto kind id = gets (λ db. length (keep (pending_of kind id) db.installments))

-- The posted amount is positive (DTO), in thousandths; the column's CHECK sees the rounded one.
unfoldable pub update_installment : Request → ℕ → (amount : ℕ) → Cashier Installment
unfolding audit_log round2
update_installment req id amount = do
  before_after ← transaction do
    found ← gets (λ db. find (installment_has_id id) db.installments)
    inst ← or_throw found (not_found parcela_nao_encontrada)
    throw_if (is_some inst.paid_at) (bad_request parcela_ja_paga)
    throw_if (round2 amount == 0) check_violation
    modify (λ db. record db {
      installments =
          update_first (installment_has_id id) (λ i. record i { amount = round2 amount })
            db.installments;
    })
    pure inst
  audit_log req.user_id (installment_amount_update id before_after.amount (round2 amount))
  pure (record before_after { amount = round2 amount })

pub record PayInstallmentDto : Type 0 where
  pub method : PaymentMethod
  pub description : Option Text
  pub cash_entry_id : Option ℕ
  pub discount : Option ℕ
  pub discount_reason : Option Text

abbrev pub unpaid : ℕ → Installment → Bool
unpaid id i = i.id == id && not (is_some i.paid_at)

abbrev pub category_of : SaleKind → EntryCategory
category_of os = os_payment
category_of _ = venda_avulsa

-- The money that comes in is the instalment less the discount.
abbrev pub payment_row :
    Request → PayInstallmentDto → Installment → (desconto : ℕ) → CashSession → CashEntry
payment_row req dto inst desconto s = record {
  id = or_default dto.cash_entry_id req.entry_uuid;
  cash_session_id = s.id;
  direction = incoming;
  amount = inst.amount - desconto;
  method = dto.method;
  category = category_of inst.sale_kind;
  sale_kind = some inst.sale_kind;
  sale_id = some inst.sale_id;
  description = trimmed dto.description;
  discount = desconto;
  discount_reason = if desconto == 0 then none else trimmed dto.discount_reason;
  created_by = req.user_id;
  reversed_at = none;
  reversed_by = none;
  reversal_reason = none;
}

abbrev pub settled_row : (now entry : ℕ) → Installment → Installment
settled_row now entry i = record i { paid_at = some now; entry_id = some entry }

unfoldable pub write_paid : (id now entry : ℕ) → Db → Db
write_paid id now entry db = record db {
  installments = update_first (installment_has_id id) (settled_row now entry) db.installments;
}

-- Answers the paid instalment and the discount.
unfoldable pub pay_installment : Request → ℕ → PayInstallmentDto → Cashier (Installment × ℕ)
unfolding get_config ensure_session aprovar_desconto create_entry_row audit_log audit_discount
    write_paid
pay_installment req id dto = do
  config ← get_config
  result ← transaction do
    found ← gets (λ db. find (unpaid id) db.installments)
    inst ← or_throw found (not_found parcela_inexistente_ou_paga)
    s ← ensure_session req config none
    desconto ←
        aprovar_desconto req.role (or_default dto.discount 0) inst.amount
          (of_cents inst.amount - or_default dto.discount 0)
    entry ← create_entry_row (payment_row req dto inst desconto s)
    modify (write_paid id req.now entry.id)
    pure (settled_row req.now entry.id inst, desconto)
  audit_log req.user_id (installment_pay id result.1)
  audit_discount req id result.1 dto.discount_reason
  pure result
