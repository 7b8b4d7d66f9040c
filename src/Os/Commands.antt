-- ===== src/Os/Commands.antt =====
-- The methods of back/src/modules/os/os.service.ts that write, as commands, and the histories that they make.
pub mod Traversal
pub mod Rows
pub mod Totals
pub mod Timeline
use orbix_hub.Base.{ℕ, Bool, Option, List, [], ◌∷◌, Text, pure, ◌>>=◌, ◌>>◌}
use orbix_hub.Os.{OsStatus}
use orbix_hub.Os.Store.{Workshop, Working, Request}
use orbix_hub.Os.Content.{CreateItemDto, UpdateItemDto, add_item, update_item, delete_item}
use orbix_hub.Os.Fields.{UpdateOrderDto, update_order, create_note}
use orbix_hub.Os.Service.{
  CreateOrderDto, Holder, create_order, change_order_status, mark_fiado, delete_order,
}

pub data Command : Type 0 where
  creating : (rivals : ℕ → Workshop → Workshop) → CreateOrderDto → Holder → Command
  editing : (id : ℕ) → UpdateOrderDto → Command
  adding : (order_id : ℕ) → CreateItemDto → Command
  changing : (order_id item_id : ℕ) → UpdateItemDto → Command
  removing : (order_id item_id : ℕ) → Command
  noting : (id : ℕ) (message : Text) (visible_public : Option Bool) → Command
  moving : (id : ℕ) (to : OsStatus) → Command
  declaring deleting : (id : ℕ) → Command

unfoldable pub step : Request → Command → Working (Unit {0})
unfolding create_order update_order add_item update_item delete_item create_note change_order_status
    mark_fiado delete_order
step req (creating rivals dto h) = create_order rivals req dto h >> pure tt
step req (editing id dto) = update_order req id dto
step req (adding id dto) = add_item req id dto
step req (changing id item dto) = update_item id item dto
step req (removing id item) = delete_item req id item
step req (noting id message visible) = create_note req id message visible
step req (moving id to) = change_order_status req id to
step req (declaring id) = mark_fiado req id
step req (deleting id) = delete_order req id

-- The tables after a history; what was refused is part of it.
unfoldable pub run : List (Request × Command) → Workshop → Workshop
unfolding step
run [] db = db
run ((req, c) ∷ rest) db = run rest (step req c db).1
