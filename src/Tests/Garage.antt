-- ===== src/Tests/Garage.antt =====
-- An order with a part on it: a history, an edit that comes too late, and a deletion.
use orbix_hub.Base.{
  ℕ, ◌≡◌, refl, true, false, ◌==◌, Bool-cases, inl, inr, none, some, List, [], ◌∷◌, pos, negsuc,
  arith,
}
use orbix_hub.Base.Triple.{Met}
use orbix_hub.Cashier
use orbix_hub.Cashier.Config.{empty_config}
use orbix_hub.Inventory.{Item, product, Stock, os_consumption}
use orbix_hub.Os.{em_execucao, concluida, entregue, livre, new_order}
use orbix_hub.Os.Store.{ServiceOrder, ItemRow, Event, created, os_aberta, Workshop, Request}
use orbix_hub.Os.Content.{CreateItemDto, UpdateItemDto, add_item, update_item, delete_item}
use orbix_hub.Os.Fields.{UpdateOrderDto, update_order, create_note}
use orbix_hub.Os.Service.{CreateOrderDto, Holder, delete_order}
use orbix_hub.Os.Commands.{Command, creating, editing, adding, removing, moving, deleting, run}
use orbix_hub.Os.Commands.Totals.{Totalled, run-Totalled}
use orbix_hub.Os.Commands.Timeline.{Traced, run-Traced}
use orbix_hub.Os.Closed.{Refused, Closed-Refused}
use orbix_hub.Os.Deleted.{Gone, delete_order-Gone}

abbrev belt : Item
belt = record {
  id = 7;
  kind = product;
  name = 98 ∷ [];
  sale_price = some 2000;
  current_stock = pos 5000;
  deleted = false;
}

abbrev shelf : Stock
shelf = record {
  items = belt ∷ [];
  movements =
      record {
        inventory_item_id = 7;
        stock_delta = negsuc 1999;
        reason = os_consumption;
        ref_id = 1;
        ref_item_id = 5;
      }
      ∷ [];
}

abbrev brakes : ServiceOrder
brakes = record {
  id = 1;
  number = 12;
  customer_id = 3;
  customer_name = 65 ∷ [];
  subject_id = none;
  subject_label = none;
  cycle = record new_order { status = em_execucao; started_at = some 4 };
  opened_by = 2;
  assigned_to = none;
  complaint = none;
  diagnosis = none;
  scheduled_start = none;
  scheduled_end = none;
  discount = 500;
  total = 3500;
  fiado_at = none;
  deleted_at = none;
}

abbrev fitted : ItemRow
fitted = record {
  id = 5;
  order_id = 1;
  kind = product;
  inventory_item_id = some 7;
  name = 98 ∷ [];
  quantity = 2000;
  unit_price = 2000;
  discount = 0;
  total = 4000;
}

abbrev started : Event
started = record {
  order_id = 1;
  kind = created;
  message = os_aberta;
  status_snapshot = some em_execucao;
  visible_public = true;
  created_by = 2;
}

abbrev till : Cashier.Store.Db
till = record {
  sessions = [];
  entries = [];
  installments = [];
  grants = [];
  settings = empty_config;
  audit = [];
}

abbrev garage : Workshop
garage = record {
  orders = brakes ∷ [];
  items = fitted ∷ [];
  events = started ∷ [];
  stock = shelf;
  cash = till;
  audit = [];
}

abbrev boss : Request
boss = record {
  user_id = 2;
  may_approve = true;
  locks = livre ∷ [];
  now = 30;
  order_uuid = 40;
  item_uuid = 50;
}

abbrev another : CreateItemDto
another = record {
  id = none;
  kind = product;
  inventory_item_id = some 7;
  name = none;
  quantity = some 1000;
  unit_price = none;
  discount = none;
}

abbrev fields : UpdateOrderDto
fields = record {
  complaint = none;
  diagnosis = some (111 ∷ []);
  scheduled_start = none;
  scheduled_end = none;
  assigned_to = none;
  discount = some 10_000;
}

abbrev walk_in : CreateOrderDto
walk_in = record {
  id = none;
  complaint = none;
  diagnosis = none;
  scheduled_start = none;
  scheduled_end = none;
  assigned_to = none;
  discount = none;
}

abbrev visitor : Holder
visitor = record {
  customer_id = 3;
  customer_name = 65 ∷ [];
  subject_id = none;
  subject_label = none;
}

abbrev nobody : ℕ → Workshop → Workshop
nobody k db = db

abbrev history : List (Request × Command)
history =
    (boss, adding 1 another)
    ∷ (boss, editing 1 fields)
    ∷ (boss, creating nobody walk_in visitor)
    ∷ (boss, moving 1 concluida)
    ∷ (boss, removing 1 5)
    ∷ (boss, deleting 1)
    ∷ []

run-Totalled_example : Totalled (run history garage)
run-Totalled_example =
    run-Totalled history garage (tt, (tt, ((λ k db h. h), (tt, (tt, (tt, tt))))))
      (λ x. ground arith)

garage-Traced : Traced garage
garage-Traced x = elim (Bool-cases (1 == x)) [ inl own ↦ rw own refl | inr other ↦ rw other tt ]

run-Traced_example : Traced (run history garage)
run-Traced_example =
    run-Traced history garage (tt, (tt, ((λ k db h. h), (tt, (tt, (tt, tt)))))) garage-Traced

abbrev late : Workshop
late = record garage {
  orders = record brakes { cycle = record new_order { status = entregue } } ∷ [];
}

abbrev cheaper : UpdateItemDto
cheaper = record { name = none; quantity = none; unit_price = some 1; discount = none }

Closed-Refused_example :
    Refused late (add_item boss 1 another late)
    × Refused late (update_item 1 5 cheaper late)
    × Refused late (delete_item boss 1 5 late)
    × Refused late (update_order boss 1 fields late)
    × Refused late (create_note boss 1 (111 ∷ []) none late)
Closed-Refused_example =
    Closed-Refused 1 (record brakes { cycle = record new_order { status = entregue } }) late refl
      (inr refl) boss another 5 cheaper fields (111 ∷ []) none

delete_order-Gone_example :
    Met (λ t. t ≡ garage) (λ u t. Gone boss 1 garage t) (delete_order boss 1 garage)
delete_order-Gone_example = delete_order-Gone boss 1 garage
