-- ===== src/Sale/Returned.antt =====
-- What a cancellation gives back: `cancel` of back/src/modules/sale/sale.service.ts.
use orbix_hub.Base.{
  ℕ, ◌≡◌, refl, ◌∙◌, ==_iff, Option, none, some, List, [], ◌∷◌, ◌++◌, All, find, pos, neg_part,
  Text, trimmed, Result, ok, ◌>>=◌,
}
use orbix_hub.Base.Rows.{find-update_first}
use orbix_hub.Inventory.{Stock, ReconcileArgs, reconcile_consumption, sum_consumed_by_ref_item}
use orbix_hub.Inventory.Returned.{
  HasProduct, IsReturned, IsReturn, all_kept, reconcile_all, return_succeeds, all_given_back,
}
use orbix_hub.Sale.Store.{
  active, canceled, canceled_row, update_sale_row, Sale, SaleItemRow, Shop, Error, StockWarning,
  Request, give_back, sale_has_id, AuditRow, sale_cancel, list_items, audit_log,
}
use orbix_hub.Sale.Stock.{
  args_of, stock_item, target_of, reconcile_row, reconcile_rows, apply_stock,
}
use orbix_hub.Sale.Service.{cancel_row, cancel_sale}

-- A line whose product, if it points to one, exists, and that has not given back more than it took.
abbrev pub Returnable : Stock → SaleItemRow → Type 0
Returnable s row =
    HasProduct s (stock_item row.kind row.inventory_item_id)
    × (neg_part (sum_consumed_by_ref_item row.id s) ≡ 0)

module _ (id : ℕ) where
  abbrev with_return : SaleItemRow → Option ℕ → List ReconcileArgs → List ReconcileArgs
  with_return row none rest = rest
  with_return row (some item) rest = args_of id row item 0 ∷ rest

  abbrev returns : List SaleItemRow → List ReconcileArgs
  returns [] = []
  returns (row ∷ rows) = with_return row (stock_item row.kind row.inventory_item_id) (returns rows)

  rows-IsReturn :
      (s : Stock) (rows : List SaleItemRow)
      → All (Returnable s) rows
      → All (IsReturn s) (returns rows)
  rows-IsReturn s [] h = tt
  rows-IsReturn s (row ∷ rows) ((has, n), hs) =
      line (rows-IsReturn s rows hs) (stock_item row.kind row.inventory_item_id) has
    where
      line :
          All (IsReturn s) (returns rows)
          → (x : Option ℕ) → HasProduct s x
          → All (IsReturn s) (with_return row x (returns rows))
      line rest none k = rest
      line rest (some item) k = (record { nothing_left = refl; backed = k; counted = n }, rest)

  rows-IsReturned :
      (s : Stock) (rows : List SaleItemRow)
      → All (λ a. sum_consumed_by_ref_item a.ref_item_id s ≡ pos 0) (returns rows)
      → All (λ row. IsReturned s row.id (stock_item row.kind row.inventory_item_id)) rows
  rows-IsReturned s [] h = tt
  rows-IsReturned s (row ∷ rows) h =
      line (rows-IsReturned s rows) (stock_item row.kind row.inventory_item_id) h
    where
      line :
          (All (λ a. sum_consumed_by_ref_item a.ref_item_id s ≡ pos 0) (returns rows)
            → All (λ r. IsReturned s r.id (stock_item r.kind r.inventory_item_id)) rows)
          → (x : Option ℕ)
          → All
              (λ a. sum_consumed_by_ref_item a.ref_item_id s ≡ pos 0)
              (with_return row x (returns rows))
          → IsReturned s row.id x
            × All (λ r. IsReturned s r.id (stock_item r.kind r.inventory_item_id)) rows
      line rest none k = (tt, rest k)
      line rest (some item) (k, ks) = (k, rest ks)

  abbrev continued : List StockWarning × Shop → List SaleItemRow → List StockWarning × Shop
  continued here rows =
      let rest = reconcile_rows id (target_of give_back) rows here.1 in (here.0 ++ rest.0, rest.1)

  -- The returns are all applied, and nothing is warned of.
  reconcile_rows-returns :
      (rows : List SaleItemRow) (db : Shop)
      → All (IsReturn db.stock) (returns rows)
      → reconcile_rows id (target_of give_back) rows db
        ≡ ([], record db { stock = reconcile_all (returns rows) db.stock })
  unfolding reconcile_rows reconcile_row
  reconcile_rows-returns [] db h = refl
  reconcile_rows-returns (row ∷ rows) db h =
      line (reconcile_rows-returns rows) (stock_item row.kind row.inventory_item_id) h
    where
      line :
          ((t : Shop)
            → All (IsReturn t.stock) (returns rows)
            → reconcile_rows id (target_of give_back) rows t
              ≡ ([], record t { stock = reconcile_all (returns rows) t.stock }))
          → (x : Option ℕ) → All (IsReturn db.stock) (with_return row x (returns rows))
          → continued (reconcile_row id 0 row x db) rows
            ≡ ([], record db { stock = reconcile_all (with_return row x (returns rows)) db.stock })
      line rest none k = rest db k
      line rest (some item) (k, ks) =
          let a = args_of id row item 0 in
          let done = return_succeeds a db.stock k.nothing_left k.backed k.counted in
          let after =
            rest (record db { stock = (reconcile_consumption a db.stock).1 })
              (all_kept a db.stock k (returns rows) ks) in
          rw (done, after) refl

  apply_stock-returns :
      (number : ℕ) (rows : List SaleItemRow) (db : Shop)
      → All (IsReturn db.stock) (returns rows)
      → apply_stock id number rows give_back db
        ≡ (ok [], record db { stock = reconcile_all (returns rows) db.stock })
  unfolding apply_stock
  apply_stock-returns number rows db h = rw (reconcile_rows-returns rows db h) refl

-- A sale that was canceled.
pub record Canceled (req : Request) (id : ℕ) (reason : Option Text) (s : Sale) (db : Shop)
    (r : Result Error (List StockWarning) × Shop) : Type 0 where
  no_warning : r.0 ≡ ok []
  no_notice : r.1.notices ≡ db.notices
  marked :
      find (sale_has_id id) r.1.sales
      ≡ some (record s {
        status = canceled;
        canceled_at = some req.now;
        canceled_by = some req.user_id;
        canceled_reason = trimmed reason;
        updated_at = req.now;
      })
  same_lines : r.1.items ≡ db.items
  same_cash : r.1.cash ≡ db.cash
  given_back :
      All
        (λ row. IsReturned r.1.stock row.id (stock_item row.kind row.inventory_item_id))
        (list_items id db)

module _ (req : Request) (id : ℕ) (reason : Option Text) (db : Shop) (s : Sale)
    (found : find (sale_has_id id) db.sales ≡ some s) (is_active : s.status ≡ active) where
  abbrev after_row : Shop
  after_row = update_sale_row id req.now (canceled_row req.user_id req.now (trimmed reason)) db

  cancel_row_lem : cancel_row req id reason db ≡ (ok s, after_row)
  unfolding cancel_row ◌>>=◌
  cancel_row_lem = rw (found, is_active) refl

  after_row-found :
      find (sale_has_id id) after_row.sales
      ≡ some (record (canceled_row req.user_id req.now (trimmed reason) s) { updated_at = req.now })
  unfolding update_sale_row
  after_row-found =
      find-update_first (λ (x : Sale). x.id) id id
        (λ x. record (canceled_row req.user_id req.now (trimmed reason) x) { updated_at = req.now })
        db.sales (λ x. refl)
      ∙ rw (found, (==_iff id id).1 refl) refl

  -- A sale that is there and active, of which no line has a negative consumption, and each line
  -- of a product points to one that is there, in the catalogue or deleted from it, without a
  -- negative balance: its cancellation succeeds without a warning or a notice, marks the sale
  -- with who canceled it, when and why, leaves the lines and the cash book as they were, and
  -- each line that points to a product of the stock then consumes nothing.
  pub cancel_sale-Canceled :
      All (Returnable db.stock) (list_items id db)
      → Canceled req id reason s db (cancel_sale req id reason db)
  unfolding cancel_sale apply_stock audit_log ◌>>=◌
  cancel_sale-Canceled returnable =
      let rows = list_items id db in
      let back = rows-IsReturn id db.stock rows returnable in
      let log : AuditRow = record {
        actor = req.user_id;
        event = sale_cancel id (trimmed reason);
      } in
      let logged = record after_row { audit = db.audit ++ (log ∷ []) } in
      rw (cancel_row_lem, apply_stock-returns id s.number rows logged back)
        record {
          no_warning = refl;
          no_notice = refl;
          marked = after_row-found;
          same_lines = refl;
          same_cash = refl;
          given_back = rows-IsReturned id _ rows (all_given_back (returns id rows) db.stock back);
        }
