-- ===== src/Inventory.antt =====
-- The stock: back/src/modules/inventory/stock-reconcile.ts and the programmatic entrances of
-- back/src/modules/inventory/inventory.service.ts, over the two tables they change. Quantities are in
-- thousandths (`numeric(14,3)`). The notice of a low stock is left out: it writes neither table.
pub mod Conservation
pub mod Target
pub mod Returned
use orbix_hub.Base.{
  ℕ, ◌+◌, ◌==◌, Bool, true, false, ◌&&◌, Option, none, some, List, [], ◌∷◌, ◌++◌, find,
  update_first, sum_by, if◌then◌else◌, ℤ, pos, negsuc, pos_part, neg_part, sub_ℕ, neg_ℤ, ◌+ℤ◌, ◌-ℤ◌,
  Exec, ok, err, pure, throw, or_throw, throw_if, transaction, catch, gets, modify, ◌>>=◌, ◌>>◌,
  Text,
}

pub data ItemKind : Type 0 where
  product service : ItemKind

pub record Item : Type 0 where
  pub id : ℕ
  pub kind : ItemKind
  pub name : Text
  pub sale_price : Option ℕ  -- cents
  pub current_stock : ℤ
  pub deleted : Bool

pub data Source : Type 0 where
  service_order sale : Source

pub data Reason : Type 0 where
  os_consumption os_reversal sale_consumption sale_reversal : Reason

pub record Movement : Type 0 where
  pub inventory_item_id : ℕ
  pub stock_delta : ℤ
  pub reason : Reason
  pub ref_id : ℕ
  pub ref_item_id : ℕ

pub record Stock : Type 0 where
  pub items : List Item
  pub movements : List Movement

pub data Error : Type 0 where
  item_nao_encontrado servico_nao_controla_estoque estoque_insuficiente : Error

abbrev pub Inventory : Type 0 → Type 0
Inventory A = Exec Stock Error A

abbrev pub item_has_id : ℕ → Item → Bool
item_has_id id i = i.id == id

abbrev pub is_service : ItemKind → Bool
is_service service = true
is_service product = false

unfoldable pub adjust_stock : ℕ → ℤ → Stock → Stock
adjust_stock id stock db = record db {
  items = update_first (item_has_id id) (λ i. record i { current_stock = stock }) db.items;
}

-- `getItem`: a deleted item is not there.
abbrev pub live : Option Item → Option Item
live none = none
live (some item) = if item.deleted then none else some item

unfoldable pub get_item : ℕ → Inventory Item
get_item id = do
  found ← gets (λ db. find (item_has_id id) db.items)
  or_throw (live found) item_nao_encontrado

-- The product behind an id, or the refusal.
unfoldable pub product_or_throw : ℕ → Inventory Item
product_or_throw id = do
  found ← gets (λ db. find (item_has_id id) db.items)
  item ← or_throw found item_nao_encontrado
  throw_if (is_service item.kind) servico_nao_controla_estoque
  pure item

unfoldable pub increment_stock : (id qty : ℕ) → Inventory (Unit {0})
unfolding product_or_throw adjust_stock
increment_stock id qty =
    transaction
      do item ← product_or_throw id; modify (adjust_stock id (item.current_stock +ℤ pos qty))

-- `if (next < 0) throw`, and then the new balance is written.
unfoldable pub write_stock : ℕ → ℤ → Inventory (Unit {0})
unfolding adjust_stock
write_stock id (negsuc n) = throw estoque_insuficiente
write_stock id (pos n) = modify (adjust_stock id (pos n))

unfoldable pub decrement_stock : (id qty : ℕ) → Inventory (Unit {0})
unfolding product_or_throw write_stock
decrement_stock id qty =
    transaction do item ← product_or_throw id; write_stock id (item.current_stock -ℤ pos qty)

unfoldable pub reason_of : Source → (consuming : Bool) → Reason
reason_of sale true = sale_consumption
reason_of sale false = sale_reversal
reason_of service_order true = os_consumption
reason_of service_order false = os_reversal

pub record Plan : Type 0 where
  pub delta : ℤ
  pub reason : Reason

-- By the change of the consumption.
unfoldable pub plan_of : ℤ → Source → Option Plan
unfolding reason_of
plan_of (negsuc n) source =
    some (record { delta = neg_ℤ (negsuc n); reason = reason_of source false })
plan_of (pos n) source =
    if n == 0 then none else some (record { delta = neg_ℤ (pos n); reason = reason_of source true })

unfoldable pub compute_reconcile : (prev_consumed target_consumed : ℤ) → Source → Option Plan
unfolding plan_of
compute_reconcile prev target source = plan_of (target -ℤ prev) source

abbrev pub of_ref : ℕ → Movement → Bool
of_ref ref m = m.ref_item_id == ref

-- What the movements selected by `p` took out of the stock and put back.
abbrev pub taken : (Movement → Bool) → List Movement → ℕ
taken p ms = sum_by (λ m. if p m then neg_part m.stock_delta else 0) ms

abbrev pub returned : (Movement → Bool) → List Movement → ℕ
returned p ms = sum_by (λ m. if p m then pos_part m.stock_delta else 0) ms

-- Minus the sum of the deltas of a line.
unfoldable pub sum_consumed_by_ref_item : ℕ → Stock → ℤ
sum_consumed_by_ref_item ref db =
    sub_ℕ (taken (of_ref ref) db.movements) (returned (of_ref ref) db.movements)

pub record ReconcileArgs : Type 0 where
  pub inventory_item_id : ℕ
  pub ref_type : Source
  pub ref_id : ℕ
  pub ref_item_id : ℕ
  pub target_qty : ℕ

abbrev pub movement_of : ReconcileArgs → Plan → Movement
movement_of args plan = record {
  inventory_item_id = args.inventory_item_id;
  stock_delta = plan.delta;
  reason = plan.reason;
  ref_id = args.ref_id;
  ref_item_id = args.ref_item_id;
}

abbrev pub write_movement : ReconcileArgs → Plan → ℤ → Stock → Stock
unfolding adjust_stock
write_movement args plan next db =
    adjust_stock args.inventory_item_id next
      (record db { movements = db.movements ++ (movement_of args plan ∷ []) })

-- `if (next < 0) throw`, and then the movement and the balance are written.
unfoldable pub write_balance : ReconcileArgs → Plan → ℤ → Inventory (Unit {0})
write_balance args plan (negsuc n) = throw estoque_insuficiente
write_balance args plan (pos n) = modify (write_movement args plan (pos n))

unfoldable pub apply_plan : ReconcileArgs → Option Plan → Item → Inventory (Unit {0})
unfolding write_balance
apply_plan args none item = pure tt
apply_plan args (some plan) item = write_balance args plan (item.current_stock +ℤ plan.delta)

-- A missing item, or a service, has nothing to reconcile.
unfoldable pub reconcile_found : ReconcileArgs → Option Item → Inventory (Unit {0})
unfolding apply_plan compute_reconcile sum_consumed_by_ref_item
reconcile_found args none = pure tt
reconcile_found args (some item) = if is_service item.kind then pure tt else do
  prev ← gets (sum_consumed_by_ref_item args.ref_item_id)
  apply_plan args (compute_reconcile prev (pos args.target_qty) args.ref_type) item

unfoldable pub reconcile_consumption : ReconcileArgs → Inventory (Unit {0})
unfolding reconcile_found
reconcile_consumption args = transaction do
  found ← gets (λ db. find (item_has_id args.inventory_item_id) db.items)
  reconcile_found args found
