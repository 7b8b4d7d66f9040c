-- ===== src/Cashier/Installments/Plan.antt =====
-- The amounts of an instalment plan of back/src/modules/cashier/cashier.service.impl.ts.
use orbix_hub.Base.{
  ℕ, zero, suc, ◌+◌, ◌-◌, ◌*◌, ◌≡◌, ap, ◌∙◌, List, [], ◌∷◌, ℤ, pos, sub_ℕ, ◌+ℤ◌, arith,
}
use orbix_hub.Money.{of_cents, round2, round2_ℤ}
use orbix_hub.Cashier.Installments.{base_amount, last_amount, amounts_from, plan_amounts}

-- Σ over a list of signed amounts.
abbrev pub sum_ℤ : List ℤ → ℤ
sum_ℤ [] = pos 0
sum_ℤ (a ∷ rest) = a +ℤ sum_ℤ rest

-- Rounding what is left of a total after whole cents.
rounded_rest : (total k : ℕ) → pos k +ℤ round2_ℤ (sub_ℕ total (of_cents k)) ≡ pos (round2 total)
unfolding round2_ℤ
rounded_rest total k = ground arith

add_base : (a b : ℕ) (last : ℤ) → pos a +ℤ (pos b +ℤ last) ≡ pos (a + b) +ℤ last
add_base a b last = ground arith

sum-amounts_from :
    (n base : ℕ) (last : ℤ) → sum_ℤ (amounts_from (suc n) base last) ≡ pos (base * n) +ℤ last
unfolding amounts_from
sum-amounts_from zero base last = ground arith
sum-amounts_from (suc n) base last =
    rw (sum-amounts_from n base last, add_base base (base * n) last)
      (let more : base + base * n ≡ base * suc n = omega arith in ap (λ b. pos b +ℤ last) more)

-- The amounts of a plan of one instalment or more add up to the total rounded to cents, the last one
-- taking what the rounding of the others leaves, which may be less than nothing.
pub sum-plan_amounts : (total n : ℕ) → sum_ℤ (plan_amounts total (suc n)) ≡ pos (round2 total)
unfolding plan_amounts last_amount
sum-plan_amounts total n =
    let b = base_amount total (suc n) in
    let less : suc n - 1 ≡ n = omega arith in
    sum-amounts_from n b (last_amount total (suc n)) ∙ rw less (rounded_rest total (b * n))
