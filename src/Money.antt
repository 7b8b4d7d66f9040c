-- ===== src/Money.antt =====
-- Money: `round2` of back/src/modules/cashier/cashier.config.ts, which the sale, expenses and
-- report modules repeat. A value that the API receives is in thousandths of a real, a stored one
-- (`numeric(14,2)`) in cents; `Number.EPSILON` only lifts a tie, and a tie goes up here too.
use orbix_hub.Base.{ℕ, ◌+◌, ◌*◌, ◌/◌, ◌≤◌, ◌<◌, ◌≡◌, arith, ℤ, pos, negsuc, sub_ℕ}

-- A stored amount, read back as thousandths.
abbrev pub of_cents : ℕ → ℕ
of_cents c = 10 * c

-- Thousandths to the nearest cent, half a cent up.
unfoldable pub round2 : ℕ → ℕ
round2 m = (m + 5) / 10

-- The same of a signed value: `Math.round` takes a tie towards plus infinity.
unfoldable pub round2_ℤ : ℤ → ℤ
unfolding round2
round2_ℤ (pos m) = pos (round2 m)
round2_ℤ (negsuc n) = sub_ℕ 0 ((n + 5) / 10)

-- `round2(value / n)` of a value in thousandths, in cents.
unfoldable pub divide_rounded : ℕ → ℕ → ℕ
divide_rounded value n = (2 * value + 10 * n) / (20 * n)

pub round2-of_cents : (c : ℕ) → round2 (of_cents c) ≡ c
unfolding round2
round2-of_cents c = omega arith

pub round2_mono : (a b : ℕ) → a ≤ b → round2 a ≤ round2 b
unfolding round2
round2_mono a b h = omega arith

-- The cent nearest to the value.
pub round2_nearest : (m : ℕ) → (of_cents (round2 m) ≤ m + 5) × (m < of_cents (round2 m) + 5 + 1)
unfolding round2
round2_nearest m = omega arith
