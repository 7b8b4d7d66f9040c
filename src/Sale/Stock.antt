-- ===== src/Sale/Stock.antt =====
-- The stock behind a sale: `applyStock` and `reconcile` of back/src/modules/sale/sale.service.ts. A refusal of
-- the stock never undoes the sale: the line is named in a warning.
use orbix_hub.Base.{ℕ, Option, none, some, List, [], ◌∷◌, ◌++◌, Result, ok, err, modify}
use orbix_hub.Inventory
use orbix_hub.Inventory.{
  ItemKind, product, service, Source, sale, ReconcileArgs, reconcile_consumption,
}
use orbix_hub.Sale.Store.{
  Shop, SaleItemRow, StockWarning, Notice, Mode, consume, give_back, Selling,
}

abbrev pub args_of : (sale_id : ℕ) (row : SaleItemRow) (item target : ℕ) → ReconcileArgs
args_of sale_id row item target = record {
  inventory_item_id = item;
  ref_type = sale;
  ref_id = sale_id;
  ref_item_id = row.id;
  target_qty = target;
}

-- The line of a product that points to the stock.
abbrev pub stock_item : ItemKind → Option ℕ → Option ℕ
stock_item product item = item
stock_item service item = none

abbrev pub target_of : Mode → SaleItemRow → ℕ
target_of consume row = row.quantity
target_of give_back row = 0

abbrev pub warning_of : SaleItemRow → Result Inventory.Error (Unit {0}) → List StockWarning
warning_of row (ok u) = []
warning_of row (err e) = record { item_id = row.id; name = row.name; message = e } ∷ []

abbrev after_reconcile :
    Shop
    → SaleItemRow
    → Result Inventory.Error (Unit {0}) × Inventory.Stock
    → List StockWarning × Shop
after_reconcile db row (r, stock) = (warning_of row r, record db { stock = stock })

-- The service of the stock is called, and what it throws is a warning.
unfoldable pub reconcile_row :
    (sale_id : ℕ) (target : ℕ) → SaleItemRow → Option ℕ → Shop → List StockWarning × Shop
reconcile_row sale_id target row none db = ([], db)
reconcile_row sale_id target row (some item) db =
    after_reconcile db row (reconcile_consumption (args_of sale_id row item target) db.stock)

unfoldable pub reconcile_rows :
    (sale_id : ℕ) → (SaleItemRow → ℕ) → List SaleItemRow → Shop → List StockWarning × Shop
unfolding reconcile_row
reconcile_rows sale_id target [] db = ([], db)
reconcile_rows sale_id target (row ∷ rows) db =
    let here =
      reconcile_row sale_id (target row) row (stock_item row.kind row.inventory_item_id) db in
    let rest = reconcile_rows sale_id target rows here.1 in (here.0 ++ rest.0, rest.1)

abbrev pub notify : (sale_id sale_number : ℕ) → Mode → List StockWarning → Shop → Shop
notify sale_id number mode [] db = db
notify sale_id number mode (f ∷ fs) db =
    let notice : Notice = record {
      sale_id = sale_id;
      sale_number = number;
      falhas = f ∷ fs;
      mode = mode;
    } in
    record db { notices = db.notices ++ (notice ∷ []) }

abbrev pub notified :
    (sale_id sale_number : ℕ) → Mode → List StockWarning × Shop → List StockWarning × Shop
notified sale_id number mode (falhas, db) = (falhas, notify sale_id number mode falhas db)

abbrev pub answered : {E : Type 0} → List StockWarning × Shop → Result E (List StockWarning) × Shop
answered (falhas, db) = (ok falhas, db)

unfoldable pub apply_stock :
    (sale_id sale_number : ℕ) → List SaleItemRow → Mode → Selling (List StockWarning)
unfolding reconcile_rows
apply_stock sale_id number rows mode db =
    answered (notified sale_id number mode (reconcile_rows sale_id (target_of mode) rows db))

-- Of the lines that an edit removes: only logged.
unfoldable pub give_back_rows : (sale_id : ℕ) → List SaleItemRow → Selling (Unit {0})
unfolding reconcile_rows
give_back_rows sale_id rows = modify (λ db. (reconcile_rows sale_id (λ row. 0) rows db).1)
