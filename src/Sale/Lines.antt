-- ===== src/Sale/Lines.antt =====
-- The lines of a sale: `resolveItems` of back/src/modules/sale/sale.service.ts, the same for a new sale and for
-- an edited one. An asked price is in thousandths.
use orbix_hub.Base.{
  ℕ, suc, Option, none, some, or_default, List, [], ◌∷◌, map, find, Text, trim, pos, pure, throw,
  gets, or_throw, ◌>>=◌,
}
use orbix_hub.Money.{round2, of_cents}
use orbix_hub.Inventory.{ItemKind, product, Item, live, item_has_id}
use orbix_hub.Sale.{compute_subtotal, compute_sale_total}
use orbix_hub.Sale.Store.{
  Shop, SaleItemRow, Selling, bad_request, not_found, item_nao_encontrado, nome_obrigatorio,
  Request, add_item,
}

-- `CreateSaleItemDto`
pub record ItemDto : Type 0 where
  pub inventory_item_id : Option ℕ
  pub name : Option Text
  pub kind : Option ItemKind
  pub quantity : Option ℕ
  pub unit_price : Option ℕ

pub record ResolvedItem : Type 0 where
  pub kind : ItemKind
  pub inventory_item_id : Option ℕ
  pub name : Text
  pub quantity : ℕ
  pub unit_price : ℕ
  pub subtotal : ℕ

unfoldable pub resolved_item : ItemKind → Option ℕ → Text → (quantity unit_price : ℕ) → ResolvedItem
unfolding compute_subtotal
resolved_item kind item name quantity unit_price = record {
  kind = kind;
  inventory_item_id = item;
  name = name;
  quantity = quantity;
  unit_price = unit_price;
  subtotal = compute_subtotal quantity (pos unit_price);
}

-- The price that was asked, or the one of the stock.
abbrev pub price_of : ItemDto → Item → ℕ
price_of it item = or_default it.unit_price (of_cents (or_default item.sale_price 0))

abbrev pub quantity_of : ItemDto → ℕ
quantity_of it = or_default it.quantity 1000

-- A line outside the stock needs a name.
unfoldable pub loose_item : ItemDto → Text → Selling ResolvedItem
unfolding resolved_item
loose_item it [] = throw (bad_request nome_obrigatorio)
loose_item it (c ∷ cs) = pure (
    resolved_item (or_default it.kind product) none (c ∷ cs) (quantity_of it)
      (or_default it.unit_price 0))

unfoldable pub resolve_item : ItemDto → Option ℕ → Selling ResolvedItem
unfolding loose_item trim
resolve_item it none = loose_item it (trim (or_default it.name []))
resolve_item it (some id) = do
  found ← gets (λ db. find (item_has_id id) db.stock.items)
  item ← or_throw (live found) (not_found item_nao_encontrado)
  pure (resolved_item item.kind (some item.id) item.name (quantity_of it) (price_of it item))

unfoldable pub resolve_items : List ItemDto → Selling (List ResolvedItem)
unfolding resolve_item
resolve_items [] = pure []
resolve_items (it ∷ its) = do
  r ← resolve_item it it.inventory_item_id
  rs ← resolve_items its
  pure (r ∷ rs)

-- `computeSaleTotal` of the lines.
unfoldable pub gross : List ResolvedItem → ℕ
unfolding compute_sale_total
gross rs =
    compute_sale_total
      (map (λ r. record { quantity = r.quantity; unit_price = pos r.unit_price }) rs)

-- What the table stores: a price in cents.
unfoldable pub sale_item_row : (id sale_id : ℕ) → ResolvedItem → SaleItemRow
unfolding round2
sale_item_row id sale_id r = record {
  id = id;
  sale_id = sale_id;
  kind = r.kind;
  inventory_item_id = r.inventory_item_id;
  name = r.name;
  quantity = r.quantity;
  unit_price = round2 r.unit_price;
  subtotal = r.subtotal;
}

-- The loop of `addItem`; `k` counts the lines.
unfoldable pub add_items : Request → (sale_id k : ℕ) → List ResolvedItem → Shop → Shop
unfolding sale_item_row add_item
add_items req sale_id k [] db = db
add_items req sale_id k (r ∷ rs) db =
    add_items req sale_id (suc k) rs (add_item (sale_item_row (req.line_uuid k) sale_id r) db)
