-- ===== src/Sale/Service.antt =====
-- Creating, declaring and cancelling a sale: back/src/modules/sale/sale.service.ts.
use orbix_hub.Base.{
  ℕ, ◌+◌, ◌==◌, Bool, true, false, Option, none, some, or_default, is_some, List, length, find,
  if◌then◌else◌, Text, trimmed, trim_or_null, pos, pure, gets, or_throw, throw_if, transaction,
  modify, ◌>>=◌, ◌>>◌,
}
use orbix_hub.Money.{of_cents}
use orbix_hub.NumeroSequencial.{criar_com_numero_sequencial}
use orbix_hub.Sale.{Discounted, apply_sale_discount}
use orbix_hub.Sale.Store.{
  SaleStatus, active, canceled, Sale, Customer, Shop, Error, conflict, not_found, unique_violation,
  cliente_nao_encontrado, venda_nao_encontrada, venda_ja_cancelada, cancelada_nao_vira_fiado,
  Selling, Request, StockWarning, consume, give_back, find_sale_by_id, list_items, max_sale_number,
  create_sale_row, update_sale_row, canceled_row, with_fiado, audit_log, sale_create, sale_fiado,
  sale_cancel,
}
use orbix_hub.Sale.Stock.{apply_stock}
use orbix_hub.Sale.Lines.{ItemDto, ResolvedItem, resolve_items, gross, add_items}

-- `CreateSaleDto`; the discount is in thousandths.
pub record CreateDto : Type 0 where
  pub id : Option ℕ
  pub customer_id : Option ℕ
  pub customer_note : Option Text
  pub discount : Option ℕ
  pub description : Option Text
  pub fiado : Bool
  pub items : List ItemDto

-- The pointer to a customer and the snapshot of the name.
pub record Buyer : Type 0 where
  pub customer_id : Option ℕ
  pub customer_name : Option Text

-- The public service of the customers.
unfoldable pub get_customer : ℕ → Selling Customer
get_customer id = do
  found ← gets (λ db. find (λ c. c.id == id) db.customers)
  or_throw found (not_found cliente_nao_encontrado)

unfoldable pub buyer_of : Option ℕ → Option Text → Selling Buyer
unfolding get_customer trim_or_null
buyer_of none apelido = pure (record { customer_id = none; customer_name = trimmed apelido })
buyer_of (some id) apelido = do
  customer ← get_customer id
  pure (record { customer_id = some customer.id; customer_name = some customer.name })

abbrev pub is_unique_violation : Error → Bool
is_unique_violation (unique_violation b) = true
is_unique_violation _ = false

abbrev pub names_id : Error → Bool
names_id (unique_violation b) = b
names_id _ = false

unfoldable pub eh_conflito_de_id : Option ℕ → Error → Selling Bool
unfolding find_sale_by_id
eh_conflito_de_id none e = pure false
eh_conflito_de_id (some id) e =
    if names_id e
    then pure true
    else do existente ← transaction (find_sale_by_id id); pure (is_some existente)

unfoldable pub new_sale : Request → CreateDto → Buyer → Discounted → (number : ℕ) → Sale
unfolding trim_or_null
new_sale req dto buyer d number = record {
  id = or_default dto.id req.sale_uuid;
  number = number;
  customer_id = buyer.customer_id;
  customer_name = buyer.customer_name;
  status = active;
  total = d.total;
  discount = d.discount;
  description = trimmed dto.description;
  fiscal_status = none;
  fiado_at = if dto.fiado then some req.now else none;
  created_by = req.user_id;
  canceled_by = none;
  canceled_at = none;
  canceled_reason = none;
  updated_at = req.now;
}

-- The writes of one attempt.
unfoldable pub insert_sale : Request → Sale → List ResolvedItem → Selling Sale
unfolding create_sale_row add_items
insert_sale req s resolved =
    transaction do create_sale_row s; modify (add_items req s.id 0 resolved); pure s

-- One attempt. The highest number is read without a lock: `rivals` is what the other sellers commit
-- between that and the insert.
unfoldable pub attempt_sale :
    (rivals : ℕ → Shop → Shop)
    → Request
    → CreateDto
    → Buyer
    → Discounted
    → List ResolvedItem
    → (tentativa : ℕ) → Selling Sale
unfolding insert_sale new_sale max_sale_number
attempt_sale rivals req dto buyer d resolved tentativa = do
  n ← gets max_sale_number
  modify (rivals tentativa)
  insert_sale req (new_sale req dto buyer d (n + 1)) resolved

unfoldable pub discount_for : (bruto : ℕ) (asked : ℕ) → Discounted
unfolding apply_sale_discount
discount_for bruto asked = apply_sale_discount (pos (of_cents bruto)) (pos asked)

pub record Sold : Type 0 where
  pub sale : Sale
  pub stock_warnings : List StockWarning

-- With the customer and the lines resolved: the document, then its stock.
unfoldable pub create_resolved :
    (rivals : ℕ → Shop → Shop) → Request → CreateDto → Buyer → List ResolvedItem → Selling Sold
unfolding gross discount_for attempt_sale eh_conflito_de_id criar_com_numero_sequencial audit_log
    apply_stock list_items
create_resolved rivals req dto buyer resolved = do
  let d = discount_for (gross resolved) (or_default dto.discount 0)
  s ←
      criar_com_numero_sequencial is_unique_violation (eh_conflito_de_id dto.id)
        (attempt_sale rivals req dto buyer d resolved) none
  audit_log req.user_id (sale_create s.id d.total d.discount (length resolved))
  rows ← gets (list_items s.id)
  warnings ← apply_stock s.id s.number rows consume
  pure (record { sale = s; stock_warnings = warnings })

unfoldable pub create_sale : (rivals : ℕ → Shop → Shop) → Request → CreateDto → Selling Sold
unfolding buyer_of resolve_items create_resolved
create_sale rivals req dto = do
  buyer ← buyer_of dto.customer_id dto.customer_note
  resolved ← resolve_items dto.items
  create_resolved rivals req dto buyer resolved

abbrev pub is_canceled : SaleStatus → Bool
is_canceled canceled = true
is_canceled active = false

-- The sale behind an id, or the refusal.
unfoldable pub sale_or_throw : ℕ → Selling Sale
unfolding find_sale_by_id
sale_or_throw id = do found ← find_sale_by_id id; or_throw found (not_found venda_nao_encontrada)

-- True: it was declared before.
unfoldable pub declare_fiado : Request → ℕ → Selling Bool
unfolding sale_or_throw update_sale_row
declare_fiado req id = transaction do
  found ← sale_or_throw id
  throw_if (is_canceled found.status) (conflict cancelada_nao_vira_fiado)
  if is_some found.fiado_at
      then pure true
      else (modify (update_sale_row id req.now (with_fiado req.now)) >> pure false)

unfoldable pub mark_fiado : Request → ℕ → Selling (Unit {0})
unfolding declare_fiado audit_log
mark_fiado req id = do
  ja_era ← declare_fiado req id
  if ja_era then pure tt else audit_log req.user_id (sale_fiado id)

unfoldable pub cancel_row : Request → ℕ → Option Text → Selling Sale
unfolding sale_or_throw update_sale_row trim_or_null
cancel_row req id reason = transaction do
  found ← sale_or_throw id
  throw_if (is_canceled found.status) (conflict venda_ja_cancelada)
  modify (update_sale_row id req.now (canceled_row req.user_id req.now (trimmed reason)))
  pure found

unfoldable pub cancel_sale : Request → ℕ → Option Text → Selling (List StockWarning)
unfolding cancel_row audit_log apply_stock list_items trim_or_null
cancel_sale req id reason = do
  s ← cancel_row req id reason
  audit_log req.user_id (sale_cancel id (trimmed reason))
  rows ← gets (list_items id)
  apply_stock id s.number rows give_back
