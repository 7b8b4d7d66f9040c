-- ===== src/Os/Consumption.antt =====
-- `reconcileOrderStock` of back/src/modules/os/os.service.ts: the stock follows the status of an
-- order, line by line, and the refusal of one line is only logged.
use orbix_hub.Base.{
  ℕ, ◌≡◌, ◌≢◌, refl, ap, Result, Bool, true, false, not, ◌&&◌, Option, none, some, List, [], ◌∷◌,
  if◌then◌else◌, All, pos, ◌+ℤ◌, sym, ◌∙◌,
}
use orbix_hub.Inventory.{
  Error, Stock, ItemKind, product, service, service_order, ReconcileArgs, reconcile_consumption,
  sum_consumed_by_ref_item,
}
use orbix_hub.Inventory.Conservation.{on_shelf, consumed_of, reconcile_consumption_conserves}
use orbix_hub.Inventory.Target.{reconcile_idle}
use orbix_hub.Os.{OsStatus, cancelada, consumes, is_reopen}
use orbix_hub.Os.Workflow.{reopen-consumes}

pub record OrderLine : Type 0 where
  pub id : ℕ
  pub kind : ItemKind
  pub inventory_item_id : Option ℕ
  pub quantity : ℕ

abbrev pub line_args : (order : ℕ) (target : Bool) → OrderLine → (item : ℕ) → ReconcileArgs
line_args order target line item = record {
  inventory_item_id = item;
  ref_type = service_order;
  ref_id = order;
  ref_item_id = line.id;
  target_qty = if target then line.quantity else 0;
}

-- The line of a product that points to the stock; the others are passed over.
unfoldable pub stock_line : OrderLine → Option ℕ
stock_line line = is_product line.kind line.inventory_item_id
  where
    is_product : ItemKind → Option ℕ → Option ℕ
    is_product product item = item
    is_product service item = none

unfoldable pub reconcile_line : (order : ℕ) (target : Bool) → OrderLine → Option ℕ → Stock → Stock
reconcile_line order target line none db = db
reconcile_line order target line (some item) db =
    (reconcile_consumption (line_args order target line item) db).1

unfoldable pub reconcile_lines : (order : ℕ) (target : Bool) → List OrderLine → Stock → Stock
unfolding reconcile_line stock_line
reconcile_lines order target [] db = db
reconcile_lines order target (line ∷ rest) db =
    reconcile_lines order target rest (reconcile_line order target line (stock_line line) db)

unfoldable pub reconcile_order_stock :
    (order : ℕ) → OsStatus → List OrderLine → (devolver_tudo : Bool) → Stock → Stock
unfolding reconcile_lines consumes
reconcile_order_stock order status lines devolver_tudo db =
    reconcile_lines order (not devolver_tudo && consumes status) lines db

pub line-conserves :
    (x order : ℕ) (target : Bool) (line : OrderLine) (item : Option ℕ) (db : Stock)
    → let after = reconcile_line order target line item db in
      on_shelf x after +ℤ consumed_of x after ≡ on_shelf x db +ℤ consumed_of x db
unfolding reconcile_line
line-conserves x order target line none db = refl
line-conserves x order target line (some item) db =
    reconcile_consumption_conserves x (line_args order target line item) db

lines-conserve :
    (x order : ℕ) (target : Bool) (lines : List OrderLine) (db : Stock)
    → let after = reconcile_lines order target lines db in
      on_shelf x after +ℤ consumed_of x after ≡ on_shelf x db +ℤ consumed_of x db
unfolding reconcile_lines
lines-conserve x order target [] db = refl
lines-conserve x order target (line ∷ rest) db =
    lines-conserve x order target rest (reconcile_line order target line (stock_line line) db)
    ∙ line-conserves x order target line (stock_line line) db

-- Whatever status the order has and however many of its lines are refused: for every item, the shelf
-- and the journal's consumption add up to the same as before.
pub reconcile_order_stock_conserves :
    (x order : ℕ) (status : OsStatus) (lines : List OrderLine) (devolver_tudo : Bool) (db : Stock)
    → let after = reconcile_order_stock order status lines devolver_tudo db in
      on_shelf x after +ℤ consumed_of x after ≡ on_shelf x db +ℤ consumed_of x db
unfolding reconcile_order_stock
reconcile_order_stock_conserves x order status lines devolver_tudo db =
    lines-conserve x order (not devolver_tudo && consumes status) lines db

-- Every line consumes what it should.
abbrev pub AtTarget : (target : Bool) → Stock → List OrderLine → Type 0
AtTarget target db lines =
    All (λ line. sum_consumed_by_ref_item line.id db ≡ pos (if target then line.quantity else 0))
      lines

line-idle :
    (order : ℕ) (target : Bool) (line : OrderLine) (item : Option ℕ) (db : Stock)
    → sum_consumed_by_ref_item line.id db ≡ pos (if target then line.quantity else 0)
    → reconcile_line order target line item db ≡ db
unfolding reconcile_line
line-idle order target line none db h = refl
line-idle order target line (some item) db h =
    ap (λ (r : Result Error (Unit {0}) × Stock). r.1)
      (reconcile_idle (line_args order target line item) db h)

lines-idle :
    (order : ℕ) (target : Bool) (lines : List OrderLine) (db : Stock)
    → AtTarget target db lines
    → reconcile_lines order target lines db ≡ db
unfolding reconcile_lines
lines-idle order target [] db h = refl
lines-idle order target (line ∷ rest) db h =
    rw (line-idle order target line (stock_line line) db h.0) (lines-idle order target rest db h.1)

-- Reopening a finished order, all of whose lines consume their quantity, moves no stock at all.
pub reopening_moves_nothing :
    (order : ℕ) (from to : OsStatus) (lines : List OrderLine) (db : Stock)
    → is_reopen from to ≡ true
    → from ≢ cancelada
    → AtTarget (consumes from) db lines
    → reconcile_order_stock order to lines false db ≡ db
unfolding reconcile_order_stock
reopening_moves_nothing order from to lines db reopens finished h =
    let c = reopen-consumes from to reopens finished in
    lines-idle order (consumes to) lines db (rw (c.0 ∙ sym c.1) at h)
