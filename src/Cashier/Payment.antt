-- ===== src/Cashier/Payment.antt =====
-- back/src/modules/cashier/cashier.service.ts: the payment summary of a document (OS or sale).
-- Amounts are in thousandths of a real, so that the tolerance of half a cent is 5.
pub mod Balance
use orbix_hub.Base.{ℕ, ◌+◌, ◌-◌, leb, if◌then◌else◌, ℤ, pos_part}

pub data PaymentStatus : Type 0 where
  a_receber parcial pago : PaymentStatus

pub record PaymentSummary : Type 0 where
  pub total : ℕ
  pub paid : ℕ
  pub received : ℕ
  pub discount : ℕ
  pub balance : ℕ
  pub status : PaymentStatus

abbrev pub eps : ℕ
eps = 5

unfoldable pub derive_payment_status : (total paid : ℕ) → PaymentStatus
derive_payment_status total paid =
    if leb paid eps then a_receber else if leb total (paid + eps) then pago else parcial

-- Negative inputs count as nothing; `balance` stops at zero.
unfoldable pub build_payment_summary : (total received discount : ℤ) → PaymentSummary
unfolding derive_payment_status
build_payment_summary total received discount =
    let safe_total = pos_part total in
    let safe_received = pos_part received in
    let safe_discount = pos_part discount in
    let paid = safe_received + safe_discount in
    record {
      total = safe_total;
      paid = paid;
      received = safe_received;
      discount = safe_discount;
      balance = safe_total - paid;
      status = derive_payment_status safe_total paid;
    }
