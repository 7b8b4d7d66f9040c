-- ===== src/Tests/Shop.antt =====
-- A counter that sells a part, edits the sale and cancels it.
use orbix_hub.Base.{find, ◌>>=◌, ℕ, ◌≡◌, refl, false, none, some, [], ◌∷◌, negsuc, pos}
use orbix_hub.Base.Keeps.{Keeps}
use orbix_hub.Cashier
use orbix_hub.Cashier.Config.{empty_config, dinheiro, incoming, venda_avulsa}
use orbix_hub.Cashier.Store.{CashEntry}
use orbix_hub.Inventory.{
  Item, Movement, product, sale_consumption, adjust_stock, reconcile_consumption,
  sum_consumed_by_ref_item,
}
use orbix_hub.Inventory.Returned.{Backed}
use orbix_hub.Sale.Store.{list_items, sale_has_id, Sale, SaleItemRow, Shop, Request, active}
use orbix_hub.Sale.Lines.{ItemDto, gross}
use orbix_hub.Sale.Service.{CreateDto, create_sale, mark_fiado, cancel_sale}
use orbix_hub.Sale.Edit.{UpdateDto, update_sale}
use orbix_hub.Sale.Worth.{Priced}
use orbix_hub.Sale.Repriced.{operations-Priced}
use orbix_hub.Sale.Returned.{Canceled, cancel_sale-Canceled}
use orbix_hub.Sale.Edited.{Safe, update_sale-Safe}

abbrev filter : Item
filter = record {
  id = 1;
  kind = product;
  name = 102 ∷ [];
  sale_price = some 2500;
  current_stock = pos 4000;
  deleted = false;
}

abbrev old_sale : Sale
old_sale = record {
  id = 30;
  number = 7;
  customer_id = none;
  customer_name = none;
  status = active;
  total = 4500;
  discount = 500;
  description = none;
  fiscal_status = none;
  fiado_at = none;
  created_by = 5;
  canceled_by = none;
  canceled_at = none;
  canceled_reason = none;
  updated_at = 10;
}

abbrev old_line : SaleItemRow
old_line = record {
  id = 300;
  sale_id = 30;
  kind = product;
  inventory_item_id = some 1;
  name = 102 ∷ [];
  quantity = 2000;
  unit_price = 2500;
  subtotal = 5000;
}

abbrev paid : CashEntry
paid = record {
  id = 10;
  cash_session_id = 1;
  direction = incoming;
  amount = 2000;
  method = dinheiro;
  category = venda_avulsa;
  sale_kind = none;
  sale_id = some 30;
  description = none;
  discount = 0;
  discount_reason = none;
  created_by = 5;
  reversed_at = none;
  reversed_by = none;
  reversal_reason = none;
}

abbrev cash_desk : Cashier.Store.Db
cash_desk = record {
  sessions = [];
  entries = paid ∷ [];
  installments = [];
  grants = [];
  settings = empty_config;
  audit = [];
}

abbrev shop : Shop
shop = record {
  sales = old_sale ∷ [];
  items = old_line ∷ [];
  customers = [];
  stock = record { items = filter ∷ []; movements = [] };
  cash = cash_desk;
  audit = [];
  notices = [];
}

abbrev seller : Request
seller = record { user_id = 5; now = 20; sale_uuid = 31; line_uuid = λ k. k }

abbrev one_filter : ItemDto
one_filter = record {
  inventory_item_id = some 1;
  name = none;
  kind = none;
  quantity = none;
  unit_price = none;
}

abbrev purchase : CreateDto
purchase = record {
  id = none;
  customer_id = none;
  customer_note = none;
  discount = some 1000;
  description = none;
  fiado = false;
  items = one_filter ∷ one_filter ∷ [];
}

-- One filter instead of two: the discount stays.
abbrev edit : UpdateDto
edit = record {
  customer_id = none;
  discount = none;
  description = none;
  items = some (one_filter ∷ []);
}

abbrev alone : ℕ → Shop → Shop
alone k db = db

operations-Priced_example :
    Keeps Priced (create_sale alone seller purchase)
    × Keeps Priced (update_sale seller 30 edit)
    × Keeps Priced (mark_fiado seller 30)
    × Keeps Priced (cancel_sale seller 30 none)
operations-Priced_example = operations-Priced alone seller purchase 30 edit none (λ k db p. p)

update_sale-Safe_example : Safe 30 old_sale cash_desk (update_sale seller 30 edit shop).1
update_sale-Safe_example = update_sale-Safe seller 30 edit shop old_sale refl

-- The edit goes through.
edited_total :
    (find (sale_has_id 30) (update_sale seller 30 edit shop).1.sales)
    ≡ some (record old_sale { total = 2000; updated_at = 20 })
unfolding update_sale ◌>>=◌ gross reconcile_consumption
edited_total = refl

abbrev taken : Movement
taken = record {
  inventory_item_id = 1;
  stock_delta = negsuc 1999;
  reason = sale_consumption;
  ref_id = 30;
  ref_item_id = 300;
}

-- The shop after the sale took its two filters.
abbrev sold : Shop
sold = record shop { stock = record { items = filter ∷ []; movements = taken ∷ [] } }

filter-Backed : Backed 1 sold.stock
filter-Backed = record { row = filter; found = refl; is_product = refl; not_negative = refl }

cancel_sale-Canceled_example :
    Canceled seller 30
      (some (118 ∷ []))
      old_sale
      sold
      (cancel_sale seller 30 (some (118 ∷ [])) sold)
unfolding list_items sum_consumed_by_ref_item
cancel_sale-Canceled_example =
    cancel_sale-Canceled seller 30 (some (118 ∷ [])) sold old_sale refl refl
      ((filter-Backed, refl), tt)

-- The two filters are on the shelf again.
filters_returned :
    (cancel_sale seller 30 none sold).1.stock.items
    ≡ record filter { current_stock = pos 6000 } ∷ []
unfolding cancel_sale ◌>>=◌ reconcile_consumption adjust_stock
filters_returned = refl
