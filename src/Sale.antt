-- ===== src/Sale.antt =====
-- The arithmetic of a sale: back/src/modules/sale/sale.config.ts. Quantities, prices and asked amounts are
-- in thousandths, so that a quantity times a price is in millionths; what leaves is in cents.
pub mod Store
pub mod Stock
pub mod Lines
pub mod Service
pub mod Edit
pub mod Worth
pub mod Untouched
pub mod Reads
pub mod Priced
pub mod Edited
pub mod Repriced
pub mod Returned
use orbix_hub.Base.{ℕ, ◌+◌, ◌-◌, ◌*◌, ◌/◌, ◌≤◌, ◌<◌, ◌≡◌, List, min, sum_by, ℤ, pos_part, arith}
use orbix_hub.Money.{round2}

pub record SaleItem : Type 0 where
  pub quantity : ℕ
  pub unit_price : ℤ

-- Never negative.
unfoldable pub compute_subtotal : (quantity : ℕ) (unit_price : ℤ) → ℕ
compute_subtotal quantity unit_price = (quantity * pos_part unit_price + 5000) / 10_000

-- The sum of whole cents, which rounding leaves as it is.
unfoldable pub compute_sale_total : List SaleItem → ℕ
unfolding compute_subtotal
compute_sale_total items = sum_by (λ it. compute_subtotal it.quantity it.unit_price) items

pub record Discounted : Type 0 where
  pub total : ℕ
  pub discount : ℕ

unfoldable pub apply_sale_discount : (bruto desconto_pedido : ℤ) → Discounted
unfolding round2
apply_sale_discount bruto desconto_pedido =
    let base = round2 (pos_part bruto) in
    let pedido = round2 (pos_part desconto_pedido) in
    let discount = min pedido base in record { total = base - discount; discount = discount }

-- For any gross value and any asked discount, negative ones counting as nothing: what is to be paid and
-- the discount granted make up the gross value in cents, the discount is what was asked unless the sale
-- is worth less, and only then nothing is left to pay.
pub apply_sale_discount_lem :
    (bruto desconto_pedido : ℤ)
    → let r = apply_sale_discount bruto desconto_pedido in
      (r.total + r.discount ≡ round2 (pos_part bruto))
      × (r.discount ≤ round2 (pos_part desconto_pedido))
      × (r.discount < round2 (pos_part desconto_pedido) → r.total ≡ 0)
unfolding apply_sale_discount
apply_sale_discount_lem bruto desconto_pedido = ground arith
