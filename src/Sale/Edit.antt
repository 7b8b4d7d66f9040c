-- ===== src/Sale/Edit.antt =====
-- Editing a registered sale: `updateSale` of back/src/modules/sale/sale.service.ts.
use orbix_hub.Base.{
  ℕ, ◌+◌, ◌==◌, Bool, true, false, ◌||◌, ltb, Option, none, some, or_default, is_some, List, [],
  if◌then◌else◌, Text, trim_or_null, pos, pure, gets, throw_if, transaction, modify, ◌>>=◌, ◌>>◌,
}
use orbix_hub.Money.{of_cents}
use orbix_hub.Cashier.Payment.{PaymentSummary, eps, build_payment_summary}
use orbix_hub.Cashier.Store.{sum_settled_for_sale}
use orbix_hub.Sale.{Discounted}
use orbix_hub.Sale.Store.{
  FiscalStatus, rejeitada, emitida, Sale, SaleItemRow, Shop, conflict, venda_cancelada,
  venda_tem_nota, cliente_ja_pagou, Selling, Request, StockWarning, consume, list_items,
  delete_items, update_sale_row, with_customer, with_totals, with_description, audit_log,
  sale_update,
}
use orbix_hub.Sale.Stock.{apply_stock, give_back_rows}
use orbix_hub.Sale.Lines.{ItemDto, ResolvedItem, resolve_items, gross, add_items}
use orbix_hub.Sale.Service.{Buyer, buyer_of, discount_for, is_canceled, sale_or_throw}

-- `UpdateSaleDto`: what is not asked stays. The customer may be taken off; the discount is in thousandths.
pub record UpdateDto : Type 0 where
  pub customer_id : Option (Option ℕ)
  pub discount : Option ℕ
  pub description : Option Text
  pub items : Option (List ItemDto)

unfoldable pub buyer_asked : Option (Option ℕ) → Selling (Option Buyer)
unfolding buyer_of
buyer_asked none = pure none
buyer_asked (some id) = do buyer ← buyer_of id none; pure (some buyer)

unfoldable pub lines_asked : Option (List ItemDto) → Selling (Option (List ResolvedItem))
unfolding resolve_items
lines_asked none = pure none
lines_asked (some its) = do resolved ← resolve_items its; pure (some resolved)

-- What the sale is worth: by the new lines, or by the total and the discount it has.
abbrev pub bruto_of : Option (List ResolvedItem) → Sale → ℕ
bruto_of none atual = atual.total + atual.discount
bruto_of (some resolved) atual = gross resolved

abbrev pub money_unless : (asked : Bool) → Discounted → Sale → Discounted
money_unless true d atual = d
money_unless false d atual = record { total = atual.total; discount = atual.discount }

-- The total and the discount after the edit.
unfoldable pub new_money : UpdateDto → Option (List ResolvedItem) → Sale → Discounted
unfolding discount_for
new_money dto resolved atual =
    money_unless (is_some resolved || is_some dto.discount)
      (discount_for (bruto_of resolved atual) (or_default dto.discount (of_cents atual.discount)))
      atual

abbrev pub has_invoice : Option FiscalStatus → Bool
has_invoice none = false
has_invoice (some rejeitada) = false
has_invoice (some (emitida s)) = true

-- `getPaymentSummary` of the cash desk.
unfoldable pub paid_of : Sale → Shop → PaymentSummary
unfolding build_payment_summary sum_settled_for_sale
paid_of atual db =
    let somas = sum_settled_for_sale atual.id db.cash in
    build_payment_summary (pos (of_cents atual.total)) (pos (of_cents somas.recebido))
      (pos (of_cents somas.desconto))

-- The two guards of an edit that changes the total: `total < paid - 0.005` is refused.
unfoldable pub guard_money : Sale → (total : ℕ) → Selling (Unit {0})
unfolding paid_of
guard_money atual total = if total == atual.total then pure tt else do
  throw_if (has_invoice atual.fiscal_status) (conflict venda_tem_nota)
  pago ← gets (paid_of atual)
  throw_if (ltb (of_cents total + eps) pago.paid) (conflict (cliente_ja_pagou pago.paid total))

unfoldable pub write_buyer : (id now : ℕ) → Option Buyer → Shop → Shop
unfolding update_sale_row
write_buyer id now none db = db
write_buyer id now (some b) db =
    update_sale_row id now (with_customer b.customer_id b.customer_name) db

unfoldable pub write_lines : Request → ℕ → Option (List ResolvedItem) → Shop → Shop
unfolding delete_items add_items
write_lines req id none db = db
write_lines req id (some resolved) db = add_items req id 0 resolved (delete_items id db)

unfoldable pub write_money : (id now : ℕ) → (asked : Bool) → Discounted → Shop → Shop
unfolding update_sale_row
write_money id now false d db = db
write_money id now true d db = update_sale_row id now (with_totals d.total d.discount) db

unfoldable pub write_description : (id now : ℕ) → Option Text → Shop → Shop
unfolding update_sale_row trim_or_null
write_description id now none db = db
write_description id now (some t) db = update_sale_row id now (with_description (trim_or_null t)) db

-- The writes of one transaction, in their order.
unfoldable pub write_sale :
    Request → ℕ → UpdateDto → Option Buyer → Option (List ResolvedItem) → Discounted → Shop → Shop
unfolding write_buyer write_lines write_money write_description
write_sale req id dto buyer resolved d db = write_description id req.now dto.description (
    write_money id req.now (is_some resolved || is_some dto.discount) d
      (write_lines req id resolved (write_buyer id req.now buyer db)))

-- The stock gets back what the old lines took, and gives what the new ones ask.
unfoldable pub move_stock :
    ℕ
    → (number : ℕ) → (antigos : List SaleItemRow) → Option (List ResolvedItem)
    → Selling (List StockWarning)
unfolding give_back_rows apply_stock list_items
move_stock id number antigos none = pure []
move_stock id number antigos (some resolved) = do
  give_back_rows id antigos
  rows ← gets (list_items id)
  apply_stock id number rows consume

-- The sale as it stands, its new money, and its old lines.
pub record Checked : Type 0 where
  pub atual : Sale
  pub money : Discounted

unfoldable pub check_edit : ℕ → UpdateDto → Option (List ResolvedItem) → Selling Checked
unfolding sale_or_throw new_money guard_money
check_edit id dto resolved = do
  atual ← transaction (sale_or_throw id)
  throw_if (is_canceled atual.status) (conflict venda_cancelada)
  let d = new_money dto resolved atual
  guard_money atual d.total
  pure (record { atual = atual; money = d })

unfoldable pub update_sale : Request → ℕ → UpdateDto → Selling (List StockWarning)
unfolding buyer_asked lines_asked check_edit write_sale move_stock audit_log list_items
update_sale req id dto = do
  buyer ← buyer_asked dto.customer_id
  resolved ← lines_asked dto.items
  checked ← check_edit id dto resolved
  antigos ← gets (list_items id)
  modify (write_sale req id dto buyer resolved checked.money)
  audit_log req.user_id (sale_update id)
  move_stock id checked.atual.number antigos resolved
