-- ===== src/Os/Returned.antt =====
-- What a deletion gives back to the stock: `reconcileOrderStock` of back/src/modules/os/os.service.ts with
-- `devolverTudo`.
use orbix_hub.Base.{ℕ, ◌≡◌, refl, false, Option, none, some, List, [], ◌∷◌, All, pos, neg_part}
use orbix_hub.Inventory.{Stock, reconcile_consumption, sum_consumed_by_ref_item}
use orbix_hub.Inventory.Returned.{Backed-Keeps, HasProduct, IsReturned, return-consumed, others}
use orbix_hub.Os.Consumption.{OrderLine, line_args, stock_line, reconcile_line, reconcile_lines}

-- What a line consumes is not negative.
abbrev pub Counted : Stock → OrderLine → Type 0
Counted s line = neg_part (sum_consumed_by_ref_item line.id s) ≡ 0

-- Every line may be given back.
abbrev pub Returnable : Stock → List OrderLine → Type 0
Returnable s lines = All (λ line. HasProduct s (stock_line line) × Counted s line) lines

module _ (order : ℕ) where
  abbrev After : OrderLine → Stock → Stock
  After line s = reconcile_line order false line (stock_line line) s

  lines_kept :
      (line : OrderLine) (item : Option ℕ) (s : Stock)
      → HasProduct s item
      → Counted s line
      → (lines : List OrderLine) → Returnable s lines
      → Returnable (reconcile_line order false line item s) lines
  unfolding reconcile_line
  lines_kept line none s b c lines h = h
  lines_kept line (some item) s b c [] h = tt
  lines_kept line (some item) s b c (l ∷ ls) ((has, n), hs) = (
    (
      kept_product (stock_line l) has,
      others (λ v. neg_part v ≡ 0) refl l.id (line_args order false line item) s refl b c n,
    ),
    lines_kept line (some item) s b c ls hs,
  )
    where
      kept_product :
          (x : Option ℕ)
          → HasProduct s x
          → HasProduct (reconcile_consumption (line_args order false line item) s).1 x
      kept_product none k = tt
      kept_product (some x) k = (Backed-Keeps x (line_args order false line item)).at s k

  -- What was given back stays so.
  stays_returned :
      (ref : ℕ) (x : Option ℕ) (lines : List OrderLine) (s : Stock)
      → Returnable s lines
      → IsReturned s ref x
      → IsReturned (reconcile_lines order false lines s) ref x
  unfolding reconcile_lines reconcile_line
  stays_returned ref none lines s h k = tt
  stays_returned ref (some y) [] s h k = k
  stays_returned ref (some y) (l ∷ ls) s ((has, n), hs) k =
      stays_returned ref (some y) ls (After l s) (lines_kept l (stock_line l) s has n ls hs)
        (one (stock_line l) has)
    where
      one :
          (x : Option ℕ)
          → HasProduct s x
          → IsReturned (reconcile_line order false l x s) ref (some y)
      one none b = k
      one (some item) b =
          others (λ v. v ≡ pos 0) refl ref (line_args order false l item) s refl b n k

  -- All the lines are given back.
  pub lines-IsReturned :
      (lines : List OrderLine) (s : Stock)
      → Returnable s lines
      → All
          (λ line. IsReturned (reconcile_lines order false lines s) line.id (stock_line line))
          lines
  unfolding reconcile_lines reconcile_line
  lines-IsReturned [] s h = tt
  lines-IsReturned (l ∷ ls) s ((has, n), hs) =
      let rest = lines_kept l (stock_line l) s has n ls hs in
      (
        stays_returned l.id (stock_line l) ls (After l s) rest (own_return (stock_line l) has),
        lines-IsReturned ls (After l s) rest,
      )
    where
      own_return :
          (x : Option ℕ) → HasProduct s x → IsReturned (reconcile_line order false l x s) l.id x
      own_return none b = tt
      own_return (some item) b = return-consumed (line_args order false l item) s refl b n
