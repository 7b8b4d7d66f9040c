-- ===== src/Cashier/Payment/Balance.antt =====
-- The payment summary of back/src/modules/cashier/cashier.service.ts against the arithmetic of a
-- debt.
use orbix_hub.Base.{ℕ, ◌+◌, ◌≤◌, ◌<◌, ◌≡◌, ◌↔◌, max, pos, ℤ, pos_part, arith}
use orbix_hub.Money.{of_cents}
use orbix_hub.Cashier.Payment.{a_receber, parcial, pago, build_payment_summary}

-- For any three values, negative ones counting as nothing: what was received and what was forgiven
-- make up what is settled, the balance completes it to the total unless more was settled than owed,
-- and the three statuses are read from the settled value within half a cent.
pub summary_lem :
    (total received discount : ℤ)
    → let s = build_payment_summary total received discount in
      (s.paid ≡ pos_part received + pos_part discount)
      × (s.paid + s.balance ≡ max (pos_part total) s.paid)
      × ((s.status ≡ a_receber) ↔ (s.paid ≤ 5))
      × ((s.status ≡ pago) ↔ ((5 < s.paid) × (s.total ≤ s.paid + 5)))
unfolding build_payment_summary
summary_lem total received discount = ground arith

-- On whole cents and a total above zero the status is exact: `pago` when nothing is left,
-- `a_receber` when nothing was settled, `parcial` in between.
pub status_exact :
    (total received discount : ℕ)
    → 0 < total
    → let s =
        build_payment_summary
          (pos (of_cents total))
          (pos (of_cents received))
          (pos (of_cents discount)) in
      ((s.status ≡ pago) ↔ (s.balance ≡ 0))
      × ((s.status ≡ a_receber) ↔ (s.balance ≡ of_cents total))
      × ((s.status ≡ parcial) ↔ ((0 < s.balance) × (s.balance < of_cents total)))
unfolding build_payment_summary
status_exact total received discount h = ground arith
