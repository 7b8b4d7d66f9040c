-- ===== src/Inventory/Returned.antt =====
-- What a return gives back to the stock: `reconcileConsumption` of
-- back/src/modules/inventory/inventory.service.ts with nothing left to consume.
use orbix_hub.Base.{
  ℕ, ◌≡◌, refl, ap, sym, subst, ◌∙◌, ◌==◌, ==_iff, false, Bool-cases, inl, inr, Option, none, some,
  List, [], ◌∷◌, find, update_first, if◌then◌else◌, All, ℤ, pos, negsuc, neg_part, ◌+ℤ◌, Result, ok,
  err, roll_back, ◌>>=◌, arith,
}
use orbix_hub.Base.Keeps.{
  Keeps, Keeps-pure, Keeps-throw, Keeps-gets, Keeps-modify, Keeps-if, Keeps-bind, Keeps-transaction,
}
use orbix_hub.Inventory.{
  Item, Stock, Plan, Error, adjust_stock, item_has_id, is_service, ReconcileArgs,
  reconcile_consumption, reconcile_found, apply_plan, write_balance, write_movement,
  compute_reconcile, sum_consumed_by_ref_item, of_ref, movement_of,
}
use orbix_hub.Inventory.Target.{taken-append, returned-append, reconcile_consumption_target}

-- A reconciliation keeps what its one write keeps.
module _ (P : Stock → Type 0) (args : ReconcileArgs)
    (writes : (plan : Plan) (n : ℕ) (s : Stock)
      → P s
      → P (write_movement args plan (pos n) s)) where
  balance-Keeps : (plan : Plan) (next : ℤ) → Keeps P (write_balance args plan next)
  unfolding write_balance
  balance-Keeps plan (pos n) = Keeps-modify _ (λ s h. writes plan n s h)
  balance-Keeps plan (negsuc n) = Keeps-throw _

  plan-Keeps : (plan : Option Plan) (item : Item) → Keeps P (apply_plan args plan item)
  unfolding apply_plan
  plan-Keeps none item = Keeps-pure _
  plan-Keeps (some plan) item = balance-Keeps plan (item.current_stock +ℤ plan.delta)

  found-Keeps : (found : Option Item) → Keeps P (reconcile_found args found)
  unfolding reconcile_found
  found-Keeps none = Keeps-pure _
  found-Keeps (some item) =
      Keeps-if _ _ _ (Keeps-pure _) (Keeps-bind _ _ (Keeps-gets _) (λ prev. plan-Keeps _ item))

  pub reconcile-Keeps : Keeps P (reconcile_consumption args)
  unfolding reconcile_consumption
  reconcile-Keeps = Keeps-transaction _ (Keeps-bind _ _ (Keeps-gets _) found-Keeps)

-- A product with a balance that is not negative; it may be one that was deleted.
pub record Backed (item : ℕ) (s : Stock) : Type 0 where
  pub row : Item
  pub found : find (item_has_id item) s.items ≡ some row
  pub is_product : is_service row.kind ≡ false
  pub not_negative : neg_part row.current_stock ≡ 0

written_row :
    (x id : ℕ) (n : ℕ) (is : List Item) (row : Item)
    → find (item_has_id x) is ≡ some row
    → find
        (item_has_id x)
        (update_first (item_has_id id) (λ i. record i { current_stock = pos n }) is)
      ≡ some (if id == x then record row { current_stock = pos n } else row)
written_row x id n [] row h = cc
written_row x id n (i ∷ is) row h = ground (arith, written_row x id n is row)

pub Backed-write :
    (item : ℕ) (args : ReconcileArgs) (plan : Plan) (n : ℕ) (s : Stock)
    → Backed item s
    → Backed item (write_movement args plan (pos n) s)
unfolding adjust_stock
Backed-write item args plan n s b = elim (Bool-cases (args.inventory_item_id == item)) [
  | inl own ↦ record {
    row = record b.row { current_stock = pos n };
    found = written_row item args.inventory_item_id n s.items b.row b.found ∙ rw own refl;
    is_product = b.is_product;
    not_negative = refl;
  }
  | inr other ↦ record {
    row = b.row;
    found = written_row item args.inventory_item_id n s.items b.row b.found ∙ rw other refl;
    is_product = b.is_product;
    not_negative = b.not_negative;
  }
]

-- What a line that may point to a product needs so as to be given back.
abbrev pub HasProduct : Stock → Option ℕ → Type 0
HasProduct s none = Unit
HasProduct s (some item) = Backed item s

-- What it consumes then, if it points to one.
abbrev pub IsReturned : Stock → (ref : ℕ) → Option ℕ → Type 0
IsReturned s ref none = Unit
IsReturned s ref (some item) = sum_consumed_by_ref_item ref s ≡ pos 0

-- The line of another reference consumes what it did.
pub consumed-write :
    (ref : ℕ) (args : ReconcileArgs) (plan : Plan) (n : ℕ) (s : Stock)
    → (args.ref_item_id == ref) ≡ false
    → sum_consumed_by_ref_item ref (write_movement args plan (pos n) s)
      ≡ sum_consumed_by_ref_item ref s
unfolding adjust_stock sum_consumed_by_ref_item
consumed-write ref args plan n s other =
    let p = of_ref ref in
    let m = movement_of args plan in
    rw (taken-append p s.movements m, returned-append p s.movements m, other) (ground arith)

-- The return of what a line consumed is never refused.
return_applies :
    (args : ReconcileArgs) (row : Item) (prev : ℤ) (s : Stock)
    → args.target_qty ≡ 0
    → neg_part row.current_stock ≡ 0
    → neg_part prev ≡ 0
    → (apply_plan args (compute_reconcile prev (pos args.target_qty) args.ref_type) row s).0 ≡ ok tt
unfolding apply_plan compute_reconcile write_balance ◌>>=◌
return_applies args row prev s t b p = ground arith

module _ (args : ReconcileArgs) (s : Stock) (zero_target : args.target_qty ≡ 0)
    (b : Backed args.inventory_item_id s)
    (counted : neg_part (sum_consumed_by_ref_item args.ref_item_id s) ≡ 0) where
  pub return_succeeds : (reconcile_consumption args s).0 ≡ ok tt
  unfolding reconcile_consumption reconcile_found ◌>>=◌
  return_succeeds =
      let applied =
        return_applies args b.row (sum_consumed_by_ref_item args.ref_item_id s) s zero_target
          b.not_negative counted in
      rw (b.found, b.is_product) (rolled _ applied)
    where
      rolled : (r : Result Error (Unit {0}) × Stock) → r.0 ≡ ok tt → (roll_back s r).0 ≡ ok tt
      rolled (ok u, t) h = h
      rolled (err e, t) h = cc

  pub return-consumed :
      sum_consumed_by_ref_item args.ref_item_id (reconcile_consumption args s).1 ≡ pos 0
  return-consumed =
      reconcile_consumption_target args s b.row b.found b.is_product return_succeeds
      ∙ ap pos zero_target

-- Another reference consumes what it did, or nothing any more.
pub others :
    (P : ℤ → Type 0) (zero_fits : P (pos 0)) (ref : ℕ) (args : ReconcileArgs) (s : Stock)
    → args.target_qty ≡ 0
    → Backed args.inventory_item_id s
    → neg_part (sum_consumed_by_ref_item args.ref_item_id s) ≡ 0
    → P (sum_consumed_by_ref_item ref s)
    → P (sum_consumed_by_ref_item ref (reconcile_consumption args s).1)
others P zero_fits ref args s z b c h = elim (Bool-cases (args.ref_item_id == ref)) [
  | inl own ↦
      let back = return-consumed args s z b c in
      subst (λ n. P (sum_consumed_by_ref_item n (reconcile_consumption args s).1))
        ((==_iff args.ref_item_id ref).0 own) (subst P (sym back) zero_fits)
  | inr other ↦
      (reconcile-Keeps (λ t. P (sum_consumed_by_ref_item ref t)) args
          (λ plan n t k. subst P (sym (consumed-write ref args plan n t other)) k)).at
        s h
]

pub Backed-Keeps :
    (item : ℕ) (args : ReconcileArgs) → Keeps (Backed item) (reconcile_consumption args)
Backed-Keeps item args =
    reconcile-Keeps (Backed item) args (λ plan n t i. Backed-write item args plan n t i)

-- Several returns, one after the other.
abbrev pub reconcile_all : List ReconcileArgs → Stock → Stock
reconcile_all [] s = s
reconcile_all (a ∷ as_) s = reconcile_all as_ (reconcile_consumption a s).1

pub record IsReturn (s : Stock) (a : ReconcileArgs) : Type 0 where
  pub nothing_left : a.target_qty ≡ 0
  pub backed : Backed a.inventory_item_id s
  pub counted : neg_part (sum_consumed_by_ref_item a.ref_item_id s) ≡ 0

pub all_kept :
    (a : ReconcileArgs) (s : Stock)
    → IsReturn s a
    → (as_ : List ReconcileArgs) → All (IsReturn s) as_
    → All (IsReturn (reconcile_consumption a s).1) as_
all_kept a s r [] h = tt
all_kept a s r (b ∷ bs) (h, hs) = (
  record {
    nothing_left = h.nothing_left;
    backed = (Backed-Keeps b.inventory_item_id a).at s h.backed;
    counted =
        others (λ v. neg_part v ≡ 0) refl b.ref_item_id a s r.nothing_left r.backed r.counted
          h.counted;
  },
  all_kept a s r bs hs,
)

stays_zero :
    (ref : ℕ) (as_ : List ReconcileArgs) (s : Stock)
    → All (IsReturn s) as_
    → sum_consumed_by_ref_item ref s ≡ pos 0
    → sum_consumed_by_ref_item ref (reconcile_all as_ s) ≡ pos 0
stays_zero ref [] s h k = k
stays_zero ref (a ∷ as_) s (h, hs) k =
    stays_zero ref as_ (reconcile_consumption a s).1 (all_kept a s h as_ hs)
      (others (λ v. v ≡ pos 0) refl ref a s h.nothing_left h.backed h.counted k)

pub all_given_back :
    (as_ : List ReconcileArgs) (s : Stock)
    → All (IsReturn s) as_
    → All (λ a. sum_consumed_by_ref_item a.ref_item_id (reconcile_all as_ s) ≡ pos 0) as_
all_given_back [] s h = tt
all_given_back (a ∷ as_) s (h, hs) =
    let rest = all_kept a s h as_ hs in
    (
      stays_zero a.ref_item_id as_ (reconcile_consumption a s).1 rest
          (return-consumed a s h.nothing_left h.backed h.counted),
      all_given_back as_ (reconcile_consumption a s).1 rest,
    )
