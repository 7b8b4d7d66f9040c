-- ===== src/Inventory/Conservation.antt =====
-- No operation of back/src/modules/inventory/inventory.service.ts that reconciles makes or loses stock:
-- what is on the shelf and what the journal says was consumed stay the same together.
use orbix_hub.Base.{
  ℕ, ◌+◌, ◌≡◌, refl, Bool, Bool-cases, inl, inr, Option, none, some, List, [], ◌∷◌, find,
  update_first, if◌then◌else◌, ℤ, pos, negsuc, pos_part, neg_part, sub_ℕ, ◌+ℤ◌, Result, ok, err,
  roll_back, arith, ◌>>=◌, ◌==◌, ℤ_ext, ==_iff, sub_ℕ_parts,
}
use orbix_hub.Inventory.{
  Item, Stock, Plan, Movement, item_has_id, is_service, ReconcileArgs, reconcile_consumption, taken,
  returned, movement_of, apply_plan, write_balance, Error, write_movement, reconcile_found,
  adjust_stock,
}
use orbix_hub.Inventory.Target.{taken-append, returned-append}

abbrev pub of_item : ℕ → Movement → Bool
of_item id m = m.inventory_item_id == id

abbrev stock_found : Option Item → ℤ
stock_found none = pos 0
stock_found (some i) = i.current_stock

-- What is on the shelf of an item.
abbrev pub on_shelf : ℕ → Stock → ℤ
on_shelf id db = stock_found (find (item_has_id id) db.items)

-- What the journal says was consumed of an item.
abbrev pub consumed_of : ℕ → Stock → ℤ
consumed_of id db = sub_ℕ (taken (of_item id) db.movements) (returned (of_item id) db.movements)

-- A balance that is written, read back under any id.
shelf-update :
    (x id : ℕ) (v : ℤ) (is : List Item) (item : Item)
    → find (item_has_id id) is ≡ some item
    → stock_found (
        find
          (item_has_id x)
          (update_first (item_has_id id) (λ i. record i { current_stock = v }) is))
      ≡ (if id == x then v else stock_found (find (item_has_id x) is))
shelf-update x id v [] item e = cc
shelf-update x id v (i ∷ is) item e = ground (arith, shelf-update x id v is item)

abbrev total : ℕ → Stock → ℤ
total x db = on_shelf x db +ℤ consumed_of x db

-- Equal by the parts of each sum.
moved_parts :
    (stock delta : ℤ) (out back : ℕ) (shelf journal before after sum : ℤ)
    → pos_part shelf + (neg_part stock + neg_part delta)
      ≡ neg_part shelf + (pos_part stock + pos_part delta)
    → pos_part journal + (back + pos_part delta) ≡ neg_part journal + (out + neg_part delta)
    → pos_part before + back ≡ neg_part before + out
    → pos_part after + (neg_part shelf + neg_part journal)
      ≡ neg_part after + (pos_part shelf + pos_part journal)
    → pos_part sum + (neg_part stock + neg_part before)
      ≡ neg_part sum + (pos_part stock + pos_part before)
    → after ≡ sum
moved_parts stock delta out back shelf journal before after sum a b c d e =
    ℤ_ext after sum (omega arith)

-- What leaves the shelf enters the journal.
moved-total :
    (stock delta : ℤ) (out back : ℕ)
    → (stock +ℤ delta) +ℤ sub_ℕ (out + neg_part delta) (back + pos_part delta)
      ≡ stock +ℤ sub_ℕ out back
moved-total stock delta out back =
    moved_parts stock delta out back (stock +ℤ delta)
      (sub_ℕ (out + neg_part delta) (back + pos_part delta)) (sub_ℕ out back) _ _ (sub_ℕ_parts _ _)
      (sub_ℕ_parts _ _) (sub_ℕ_parts _ _) (sub_ℕ_parts _ _) (sub_ℕ_parts _ _)

write_movement-total :
    (x : ℕ) (args : ReconcileArgs) (plan : Plan) (db : Stock) (item : Item)
    → find (item_has_id args.inventory_item_id) db.items ≡ some item
    → total x (write_movement args plan (item.current_stock +ℤ plan.delta) db) ≡ total x db
unfolding write_movement adjust_stock
write_movement-total x args plan db item e =
    let m = movement_of args plan in
    rw
      (
        taken-append (of_item x) db.movements m,
        returned-append (of_item x) db.movements m,
        shelf-update x args.inventory_item_id (item.current_stock +ℤ plan.delta) db.items item e,
      )
      (elim (Bool-cases (args.inventory_item_id == x)) [
        | inl same ↦
            let here : find (item_has_id x) db.items ≡ some item =
              rw ((==_iff args.inventory_item_id x).0 same) at e in
            rw (same, here)
              (moved-total item.current_stock plan.delta (taken (of_item x) db.movements)
                (returned (of_item x) db.movements))
        | inr other ↦ rw other (ground arith)
      ])

balance-total :
    (x : ℕ) (args : ReconcileArgs) (plan : Plan) (db : Stock) (item : Item) (next : ℤ)
    → find (item_has_id args.inventory_item_id) db.items ≡ some item
    → next ≡ item.current_stock +ℤ plan.delta
    → total x (write_balance args plan next db).1 ≡ total x db
unfolding write_balance ◌>>=◌
balance-total x args plan db item (pos n) e h = rw h (write_movement-total x args plan db item e)
balance-total x args plan db item (negsuc n) e h = refl

plan-total :
    (x : ℕ) (args : ReconcileArgs) (plan : Option Plan) (db : Stock) (item : Item)
    → find (item_has_id args.inventory_item_id) db.items ≡ some item
    → total x (apply_plan args plan item db).1 ≡ total x db
unfolding apply_plan ◌>>=◌
plan-total x args none db item e = refl
plan-total x args (some plan) db item e = balance-total x args plan db item _ e refl

found-total :
    (x : ℕ) (args : ReconcileArgs) (db : Stock) (found : Option Item)
    → find (item_has_id args.inventory_item_id) db.items ≡ found
    → total x (reconcile_found args found db).1 ≡ total x db
unfolding reconcile_found ◌>>=◌
found-total x args db none e = refl
found-total x args db (some item) e = elim (Bool-cases (is_service item.kind)) [
  | inl k ↦ rw k refl
  | inr k ↦ rw k (plan-total x args _ db item e)
]

roll_back-total :
    (x : ℕ) (db : Stock) (r : Result Error (Unit {0}) × Stock)
    → total x r.1 ≡ total x db
    → total x (roll_back db r).1 ≡ total x db
roll_back-total x db (ok u, t) h = h
roll_back-total x db (err e, t) h = refl

-- Whatever a reconciliation does, refused or not: for every item, what is on the shelf and what the
-- journal says was consumed add up to the same as before.
pub reconcile_consumption_conserves :
    (x : ℕ) (args : ReconcileArgs) (db : Stock)
    → let after = (reconcile_consumption args db).1 in
      on_shelf x after +ℤ consumed_of x after ≡ on_shelf x db +ℤ consumed_of x db
unfolding reconcile_consumption ◌>>=◌
reconcile_consumption_conserves x args db =
    roll_back-total x db
      (reconcile_found args (find (item_has_id args.inventory_item_id) db.items) db)
      (found-total x args db _ refl)
