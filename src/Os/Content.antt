-- ===== src/Os/Content.antt =====
-- The items of an order: `addItem`, `updateItem` and `deleteItem` of back/src/modules/os/os.service.ts. Asked
-- amounts are in thousandths. The push to the screens is left out.
use orbix_hub.Base.{
  ℕ, ◌+◌, ◌-◌, ◌*◌, ◌/◌, Bool, true, false, Option, none, some, or_default, [], ◌∷◌, find, any,
  if◌then◌else◌, Text, trim, pure, throw, gets, or_throw, throw_if, transaction, modify, ◌>>=◌,
  ◌>>◌,
}
use orbix_hub.Money.{round2, of_cents}
use orbix_hub.Inventory
use orbix_hub.Inventory.{ItemKind, Item}
use orbix_hub.Os.{OsStatus, consumes}
use orbix_hub.Os.Consumption.{reconcile_order_stock, reconcile_line, stock_line}
use orbix_hub.Os.Store.{
  ItemRow, Event, EventText, adicionada, removida, note, Error, Working, bad_request, conflict,
  not_found, unique_violation, item_nao_encontrado, nome_obrigatorio, id_duplicado, Request,
  item_has_id, of_order, items_of, insert_item, update_item_row, delete_item_row, create_event,
  line_of, order_or_throw, editable_or_throw, recompute_total,
}

-- `CreateItemDto`
pub record CreateItemDto : Type 0 where
  pub id : Option ℕ
  pub kind : ItemKind
  pub inventory_item_id : Option ℕ
  pub name : Option Text
  pub quantity : Option ℕ
  pub unit_price : Option ℕ
  pub discount : Option ℕ

pub record UpdateItemDto : Type 0 where
  pub name : Option Text
  pub quantity : Option ℕ
  pub unit_price : Option ℕ
  pub discount : Option ℕ

-- `Math.max(0, quantity * unitPrice - discount)`, as the column stores it.
unfoldable pub item_total : (quantity unit_price discount : ℕ) → ℕ
item_total quantity unit_price discount = (quantity * unit_price - 1000 * discount + 5000) / 10_000

-- What an item is before it has an order.
pub record Snapshot : Type 0 where
  pub kind : ItemKind
  pub inventory_item_id : Option ℕ
  pub name : Text
  pub unit_price : ℕ

-- Outside the stock an item needs a name.
abbrev pub loose : CreateItemDto → Text → Working Snapshot
loose dto [] = throw (bad_request nome_obrigatorio)
loose dto (c ∷ cs) = pure (record {
  kind = dto.kind;
  inventory_item_id = none;
  name = c ∷ cs;
  unit_price = or_default dto.unit_price 0;
})

abbrev pub stocked : CreateItemDto → Item → Snapshot
stocked dto item = record {
  kind = item.kind;
  inventory_item_id = some item.id;
  name = item.name;
  unit_price = or_default dto.unit_price (of_cents (or_default item.sale_price 0));
}

abbrev pub snapshot_by : CreateItemDto → Option ℕ → Working Snapshot
snapshot_by dto none = loose dto (trim (or_default dto.name []))
snapshot_by dto (some id) = do
  found ← gets (λ db. find (Inventory.item_has_id id) db.stock.items)
  item ← or_throw (Inventory.live found) (not_found item_nao_encontrado)
  pure (stocked dto item)

unfoldable pub snapshot_of : CreateItemDto → Working Snapshot
unfolding trim
snapshot_of dto = snapshot_by dto dto.inventory_item_id

unfoldable pub new_item : Request → (order_id : ℕ) → CreateItemDto → Snapshot → ItemRow
unfolding item_total round2
new_item req order_id dto s = record {
  id = or_default dto.id req.item_uuid;
  order_id = order_id;
  kind = s.kind;
  inventory_item_id = s.inventory_item_id;
  name = s.name;
  quantity = or_default dto.quantity 1000;
  unit_price = round2 s.unit_price;
  discount = round2 (or_default dto.discount 0);
  total = item_total (or_default dto.quantity 1000) s.unit_price (or_default dto.discount 0);
}

abbrev pub note_of : Request → (order_id : ℕ) → EventText → (visible : Bool) → Event
note_of req order_id message visible = record {
  order_id = order_id;
  kind = note;
  message = message;
  status_snapshot = none;
  visible_public = visible;
  created_by = req.user_id;
}

unfoldable pub follow_line :
    (order_id : ℕ) → OsStatus → Option ItemRow → Inventory.Stock → Inventory.Stock
unfolding reconcile_order_stock consumes
follow_line order_id status none stock = stock
follow_line order_id status (some i) stock =
    if consumes status
    then reconcile_order_stock order_id status (line_of i ∷ []) false stock
    else stock

-- The line with an id is reconciled, if the order consumes stock.
unfoldable pub follow_item : (order_id item_id : ℕ) → Working (Unit {0})
unfolding order_or_throw items_of follow_line
follow_item order_id item_id = do
  o ← order_or_throw order_id
  found ← gets (λ db. find (item_has_id item_id) (items_of order_id db))
  modify (λ db. record db { stock = follow_line order_id o.cycle.status found db.stock })

abbrev pub taken_error : (asked : Option ℕ) → Error
taken_error none = unique_violation false
taken_error (some id) = conflict id_duplicado

unfoldable pub write_new_item :
    Request → (order_id : ℕ) → CreateItemDto → ItemRow → Working (Unit {0})
unfolding editable_or_throw insert_item recompute_total create_event
write_new_item req order_id dto row = transaction do
  editable_or_throw order_id
  taken ← gets (λ db. any (item_has_id row.id) db.items)
  throw_if taken (taken_error dto.id)
  modify (λ db. recompute_total order_id (insert_item row db))
  create_event (note_of req order_id (adicionada row.kind row.name) true)

unfoldable pub add_item : Request → (order_id : ℕ) → CreateItemDto → Working (Unit {0})
unfolding snapshot_of write_new_item new_item follow_item
add_item req order_id dto = do
  s ← snapshot_of dto
  let row = new_item req order_id dto s
  write_new_item req order_id dto row
  follow_item order_id row.id

-- The line behind an id, in the order.
abbrev pub own : ℕ → Option ItemRow → Option ItemRow
own order_id none = none
own order_id (some i) = if of_order order_id i then some i else none

unfoldable pub item_or_throw : (order_id item_id : ℕ) → Working ItemRow
item_or_throw order_id item_id = do
  found ← gets (λ db. find (item_has_id item_id) db.items)
  or_throw (own order_id found) (not_found item_nao_encontrado)

unfoldable pub edited_item : UpdateItemDto → ItemRow → ItemRow
unfolding item_total round2 trim
edited_item dto i = record i {
  name = named dto.name;
  quantity = or_default dto.quantity i.quantity;
  unit_price = stored dto.unit_price i.unit_price;
  discount = stored dto.discount i.discount;
  total =
      item_total (or_default dto.quantity i.quantity)
        (or_default dto.unit_price (of_cents i.unit_price))
        (or_default dto.discount (of_cents i.discount));
}
  where
    named : Option Text → Text
    named none = i.name
    named (some t) = trim t

    stored : Option ℕ → ℕ → ℕ
    stored none old = old
    stored (some v) old = round2 v

unfoldable pub write_item : (order_id item_id : ℕ) → UpdateItemDto → Working (Unit {0})
unfolding editable_or_throw item_or_throw update_item_row edited_item recompute_total
write_item order_id item_id dto = transaction do
  editable_or_throw order_id
  existing ← item_or_throw order_id item_id
  modify
      (λ db. recompute_total order_id (update_item_row item_id (λ i. edited_item dto existing) db))

unfoldable pub update_item : (order_id item_id : ℕ) → UpdateItemDto → Working (Unit {0})
unfolding write_item follow_item
update_item order_id item_id dto = do write_item order_id item_id dto; follow_item order_id item_id

pub record Removed : Type 0 where
  pub removed : ItemRow
  pub status : OsStatus

unfoldable pub remove_item : Request → (order_id item_id : ℕ) → Working Removed
unfolding editable_or_throw item_or_throw delete_item_row recompute_total create_event
remove_item req order_id item_id = transaction do
  o ← editable_or_throw order_id
  existing ← item_or_throw order_id item_id
  modify (λ db. recompute_total order_id (delete_item_row item_id db))
  create_event (note_of req order_id (removida existing.kind existing.name) true)
  pure (record { removed = existing; status = o.cycle.status })

-- The consumption of the line goes back, if the order consumes.
unfoldable pub delete_item : Request → (order_id item_id : ℕ) → Working (Unit {0})
unfolding remove_item reconcile_line stock_line consumes
delete_item req order_id item_id = do
  r ← remove_item req order_id item_id
  modify (λ db. record db {
    stock =
        if consumes r.status
        then reconcile_line order_id false (line_of r.removed) (stock_line (line_of r.removed))
            db.stock
        else db.stock;
  })
