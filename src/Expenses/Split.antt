-- ===== src/Expenses/Split.antt =====
-- The parts of back/src/modules/expenses/expenses.config.ts against the total: `ratearParcelas` and
-- `datasDasParcelas`.
use native.Mathlib.Nat.{div-add-mod', mod-lt}
use orbix_hub.Base.{
  ℕ, zero, suc, ◌+◌, ◌-◌, ◌*◌, ◌/◌, ◌≤◌, ◌<◌, ◌≡◌, refl, List, [], ◌∷◌, length, sum_by, All, arith,
  min,
}
use orbix_hub.Money.{round2}
use orbix_hub.Calendar.{Day, days_in_month}
use orbix_hub.Expenses.{partes, ratear_parcelas, datas_from, datas_das_parcelas, data_da_ocorrencia}

-- The parts after the first.
sum-partes : (n i base resto : ℕ) → sum_by (λ p. p) (partes n (i + 1) base resto) ≡ n * base
unfolding partes
sum-partes zero i base resto = omega arith
sum-partes (suc n) i base resto = ground (arith, sum-partes n (i + 1) base resto)

length-partes : (n i base resto : ℕ) → length (partes n i base resto) ≡ n
unfolding partes
length-partes zero i base resto = refl
length-partes (suc n) i base resto = omega (arith, length-partes n (i + 1) base resto)

-- Equal to the base, but for what the first takes.
abbrev pub Between : (low high : ℕ) → List ℕ → Type 0
Between low high ps = All (λ p. (low ≤ p) × (p ≤ high)) ps

partes-Between : (n i base resto : ℕ) → Between base (base + resto) (partes n i base resto)
unfolding partes
partes-Between zero i base resto = tt
partes-Between (suc n) i base resto = (ground arith, partes-Between n (i + 1) base resto)

-- The rest of a division is less than the divisor.
rest_lt : (c n : ℕ) → ((c / suc n) * suc n ≤ c) × (c - (c / suc n) * suc n ≤ n)
rest_lt c n =
    let d = div-add-mod' c (suc n) in
    let m = mod-lt c {m = suc n} (omega arith) in (omega (arith, d), omega (arith, d, m))

split-sum :
    (n base c : ℕ)
    → base * suc n ≤ c
    → sum_by (λ p. p) (partes (suc n) 0 base (c - base * suc n)) ≡ c
unfolding partes
split-sum n base c h = ground (arith, sum-partes n 0 base (c - base * suc n))

widen-Between : (low a b : ℕ) (ps : List ℕ) → a ≤ b → Between low a ps → Between low b ps
widen-Between low a b [] h k = tt
widen-Between low a b (p ∷ ps) h k = ((k.0.0, omega (arith, k.0.1)), widen-Between low a b ps h k.1)

split-Between :
    (n base resto : ℕ) → resto ≤ n → Between base (base + n) (partes (suc n) 0 base resto)
split-Between n base resto h =
    widen-Between base (base + resto) (base + n) _ (omega (arith, h))
      (partes-Between (suc n) 0 base resto)

-- A total split into one part or more: there are as many parts as asked, they add up to the total in
-- cents, and no two differ by as many cents as there are parts.
pub ratear_parcelas_lem :
    (total n : ℕ)
    → let ps = ratear_parcelas total (suc n) in
      (length ps ≡ suc n)
      × (sum_by (λ p. p) ps ≡ round2 total)
      × Between (round2 total / suc n) (round2 total / suc n + n) ps
unfolding ratear_parcelas
ratear_parcelas_lem total n =
    let c = round2 total in
    let base = c / suc n in
    let resto = c - base * suc n in
    let low = rest_lt c n in
    (length-partes (suc n) 0 base resto, split-sum n base c low.0, split-Between n base resto low.1)

-- Every due date falls as many months after the first as its index says, on the day of the first or on
-- the last of a shorter month.
abbrev pub Monthly : (first : Day) (i : ℕ) → List Day → Type 0
Monthly first i [] = Unit
Monthly first i (d ∷ ds) =
    (12 * d.year + d.month ≡ 12 * first.year + first.month + i)
    × (d.month < 12)
    × (d.day ≡ min first.day (days_in_month d.year d.month))
    × Monthly first (i + 1) ds

from-Monthly : (n i : ℕ) (first : Day) → Monthly first i (datas_from n i first)
unfolding datas_from data_da_ocorrencia
from-Monthly zero i first = tt
from-Monthly (suc n) i first =
    (omega arith, omega arith, ground arith, from-Monthly n (i + 1) first)

length-datas : (n i : ℕ) (first : Day) → length (datas_from n i first) ≡ n
unfolding datas_from
length-datas zero i first = refl
length-datas (suc n) i first = omega (arith, length-datas n (i + 1) first)

-- As many due dates as parts; the one with index i falls i months after the first, on the day of the
-- first or on the last of a shorter month.
pub datas_das_parcelas_lem :
    (first : Day) (n : ℕ)
    → (length (datas_das_parcelas first n) ≡ n) × Monthly first 0 (datas_das_parcelas first n)
unfolding datas_das_parcelas
datas_das_parcelas_lem first n = (length-datas n 0 first, from-Monthly n 0 first)
