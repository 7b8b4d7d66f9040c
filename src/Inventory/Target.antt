-- ===== src/Inventory/Target.antt =====
-- `reconcileConsumption` of back/src/modules/inventory/inventory.service.ts brings the consumption of
-- a line to its target.
use orbix_hub.Base.{
  ℕ, ◌+◌, ◌≡◌, refl, Bool, true, false, Bool-cases, inl, inr, Option, none, some, List, [], ◌∷◌,
  ◌++◌, find, if◌then◌else◌, ℤ, pos, negsuc, pos_part, neg_part, Result, ok, err, arith, roll_back,
  ◌>>=◌, ◌+ℤ◌, sum_by-append, ==_refl, ◌-ℤ◌,
}
use orbix_hub.Inventory.{
  Item, Stock, Source, Plan, Movement, item_has_id, is_service, compute_reconcile, ReconcileArgs,
  reconcile_consumption, sum_consumed_by_ref_item, of_ref, taken, returned, movement_of, apply_plan,
  write_balance, Error, write_movement, reconcile_found,
}

-- A plan moves the consumption to its target.
abbrev PlanReaches : ℤ → ℕ → Option Plan → Type 0
PlanReaches prev target none = prev ≡ pos target
PlanReaches prev target (some plan) = prev -ℤ plan.delta ≡ pos target

compute_reconcile-PlanReaches :
    (prev : ℤ) (target : ℕ) (source : Source)
    → PlanReaches prev target (compute_reconcile prev (pos target) source)
unfolding compute_reconcile
compute_reconcile-PlanReaches prev target source = ground arith

-- What a movement adds to the sums of the movements that `p` selects.
pub taken-append :
    (p : Movement → Bool) (ms : List Movement) (m : Movement)
    → taken p (ms ++ (m ∷ [])) ≡ taken p ms + (if p m then neg_part m.stock_delta else 0)
taken-append p ms m =
    omega (arith, sum_by-append (λ x. if p x then neg_part x.stock_delta else 0) ms (m ∷ []))

pub returned-append :
    (p : Movement → Bool) (ms : List Movement) (m : Movement)
    → returned p (ms ++ (m ∷ [])) ≡ returned p ms + (if p m then pos_part m.stock_delta else 0)
returned-append p ms m =
    omega (arith, sum_by-append (λ x. if p x then pos_part x.stock_delta else 0) ms (m ∷ []))

-- A plan that is applied leaves the line's consumption at the plan's value.
write_movement-consumed :
    (args : ReconcileArgs) (plan : Plan) (next : ℤ) (db : Stock)
    → sum_consumed_by_ref_item args.ref_item_id (write_movement args plan next db)
      ≡ sum_consumed_by_ref_item args.ref_item_id db -ℤ plan.delta
unfolding write_movement sum_consumed_by_ref_item
write_movement-consumed args plan next db =
    let p = of_ref args.ref_item_id in
    let m = movement_of args plan in
    rw (taken-append p db.movements m, returned-append p db.movements m, ==_refl args.ref_item_id)
      (ground arith)

write_balance-PlanReaches :
    (args : ReconcileArgs) (plan : Plan) (next : ℤ) (db : Stock)
    → PlanReaches (sum_consumed_by_ref_item args.ref_item_id db) args.target_qty (some plan)
    → (write_balance args plan next db).0 ≡ ok tt
    → sum_consumed_by_ref_item args.ref_item_id (write_balance args plan next db).1
      ≡ pos args.target_qty
unfolding write_balance ◌>>=◌
write_balance-PlanReaches args plan (pos n) db r h =
    cc (write_movement-consumed args plan (pos n) db)
write_balance-PlanReaches args plan (negsuc n) db r h = cc

apply_plan-PlanReaches :
    (args : ReconcileArgs) (plan : Option Plan) (item : Item) (db : Stock)
    → PlanReaches (sum_consumed_by_ref_item args.ref_item_id db) args.target_qty plan
    → (apply_plan args plan item db).0 ≡ ok tt
    → sum_consumed_by_ref_item args.ref_item_id (apply_plan args plan item db).1
      ≡ pos args.target_qty
unfolding apply_plan ◌>>=◌
apply_plan-PlanReaches args none item db r h = r
apply_plan-PlanReaches args (some plan) item db r h =
    write_balance-PlanReaches args plan (item.current_stock +ℤ plan.delta) db r h

reconcile_step :
    (args : ReconcileArgs) (db : Stock) (found : Option Item) (item : Item)
    → found ≡ some item
    → is_service item.kind ≡ false
    → reconcile_found args found db
      ≡ apply_plan args
          (compute_reconcile
            (sum_consumed_by_ref_item args.ref_item_id db)
            (pos args.target_qty)
            args.ref_type)
          item
          db
unfolding reconcile_found ◌>>=◌
reconcile_step args db found item e k = rw (e, k) refl

roll_back_ok :
    (s : Stock) (r : Result Error (Unit {0}) × Stock)
    → (roll_back s r).0 ≡ ok tt
    → (r.0 ≡ ok tt) × (roll_back s r ≡ r)
roll_back_ok s (ok u, t) h = (h, refl)
roll_back_ok s (err e, t) h = cc

-- At the target nothing is done, whether the item exists or not.
idle_found :
    (args : ReconcileArgs) (db : Stock) (found : Option Item)
    → sum_consumed_by_ref_item args.ref_item_id db ≡ pos args.target_qty
    → reconcile_found args found db ≡ (ok tt, db)
unfolding reconcile_found ◌>>=◌ compute_reconcile
idle_found args db none h = refl
idle_found args db (some item) h = elim (Bool-cases (is_service item.kind)) [
  | inl e ↦ rw e refl
  | inr e ↦ rw (e, h) (ground arith)
]

pub reconcile_idle :
    (args : ReconcileArgs) (db : Stock)
    → sum_consumed_by_ref_item args.ref_item_id db ≡ pos args.target_qty
    → reconcile_consumption args db ≡ (ok tt, db)
unfolding reconcile_consumption ◌>>=◌
reconcile_idle args db h =
    rw (idle_found args db (find (item_has_id args.inventory_item_id) db.items) h) refl

-- A reconciliation of a product that succeeds leaves the consumption of its line at the target.
pub reconcile_consumption_target :
    (args : ReconcileArgs) (db : Stock) (item : Item)
    → find (item_has_id args.inventory_item_id) db.items ≡ some item
    → is_service item.kind ≡ false
    → (reconcile_consumption args db).0 ≡ ok tt
    → sum_consumed_by_ref_item args.ref_item_id (reconcile_consumption args db).1
      ≡ pos args.target_qty
unfolding reconcile_consumption ◌>>=◌
reconcile_consumption_target args db item found k h =
    let start = find (item_has_id args.inventory_item_id) db.items in
    let same = roll_back_ok db (reconcile_found args start db) h in
    let plan =
      compute_reconcile (sum_consumed_by_ref_item args.ref_item_id db) (pos args.target_qty)
        args.ref_type in
    let step = reconcile_step args db start item found k in
    let done =
      apply_plan-PlanReaches args plan item db
        (compute_reconcile-PlanReaches (sum_consumed_by_ref_item args.ref_item_id db)
          args.target_qty args.ref_type)
        (rw step at same.0) in
    rw (same.1, step) done

-- Nothing is done for what is no product.
skipped_found :
    (args : ReconcileArgs) (db : Stock) (found : Option Item)
    → ((item : Item) → found ≡ some item → is_service item.kind ≡ true)
    → reconcile_found args found db ≡ (ok tt, db)
unfolding reconcile_found ◌>>=◌
skipped_found args db none h = refl
skipped_found args db (some item) h = rw (h item refl) refl
