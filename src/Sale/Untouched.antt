-- ===== src/Sale/Untouched.antt =====
-- What moves the stock behind a sale, or writes the audit log, leaves alone.
use orbix_hub.Base.{ℕ, ◌≡◌, refl, ◌∙◌, Option, none, some, List, [], ◌∷◌}
use orbix_hub.Base.Keeps.{Keeps, Keeps-modify}
use orbix_hub.Sale.Store.{SaleItemRow, Shop, StockWarning, Mode, AuditEvent, audit_log}
use orbix_hub.Sale.Stock.{
  apply_stock, give_back_rows, reconcile_rows, reconcile_row, stock_item, target_of, notified,
}

pub record Untouched (s t : Shop) : Type 0 where
  pub same_sales : t.sales ≡ s.sales
  pub same_items : t.items ≡ s.items
  pub same_cash : t.cash ≡ s.cash

untouched : (s : Shop) → Untouched s s
untouched s = record { same_sales = refl; same_items = refl; same_cash = refl }

Untouched-trans : (s t u : Shop) → Untouched s t → Untouched t u → Untouched s u
Untouched-trans s t u a b = record {
  same_sales = b.same_sales ∙ a.same_sales;
  same_items = b.same_items ∙ a.same_items;
  same_cash = b.same_cash ∙ a.same_cash;
}

line-Untouched :
    (id target : ℕ) (row : SaleItemRow) (item : Option ℕ) (db : Shop)
    → Untouched db (reconcile_row id target row item db).1
unfolding reconcile_row
line-Untouched id target row none db = untouched db
line-Untouched id target row (some item) db = record {
  same_sales = refl;
  same_items = refl;
  same_cash = refl;
}

rows-Untouched :
    (id : ℕ) (target : SaleItemRow → ℕ) (rows : List SaleItemRow) (db : Shop)
    → Untouched db (reconcile_rows id target rows db).1
unfolding reconcile_rows
rows-Untouched id target [] db = untouched db
rows-Untouched id target (row ∷ rows) db =
    Untouched-trans _ _ _
      (line-Untouched id (target row) row (stock_item row.kind row.inventory_item_id) db)
      (rows-Untouched id target rows _)

notified-Untouched :
    (id number : ℕ) (mode : Mode) (w : List StockWarning × Shop)
    → Untouched w.1 (notified id number mode w).1
notified-Untouched id number mode ([], db) = untouched db
notified-Untouched id number mode (f ∷ fs, db) = record {
  same_sales = refl;
  same_items = refl;
  same_cash = refl;
}

-- What the sales, their lines and the cash desk say is kept.
module _ (I : Shop → Type 0) (respects : (s t : Shop) → Untouched s t → I s → I t) where
  pub apply_stock-Keeps :
      (id number : ℕ) (rows : List SaleItemRow) (mode : Mode)
      → Keeps I (apply_stock id number rows mode)
  unfolding apply_stock
  apply_stock-Keeps id number rows mode = record {
    at = λ s i.
        respects _ _
          (Untouched-trans _ _ _ (rows-Untouched id (target_of mode) rows s)
            (notified-Untouched id number mode (reconcile_rows id (target_of mode) rows s)))
          i;
  }

  pub give_back_rows-Keeps : (id : ℕ) (rows : List SaleItemRow) → Keeps I (give_back_rows id rows)
  unfolding give_back_rows
  give_back_rows-Keeps id rows =
      Keeps-modify _ (λ s i. respects _ _ (rows-Untouched id (λ row. 0) rows s) i)

  pub audit_log-Keeps : (actor : ℕ) (e : AuditEvent) → Keeps I (audit_log actor e)
  unfolding audit_log
  audit_log-Keeps actor e =
      Keeps-modify _
        (λ s i. respects _ _ (record { same_sales = refl; same_items = refl; same_cash = refl }) i)
