-- ===== src/Os/Commands/Traversal.antt =====
-- One walk through the methods of back/src/modules/os/os.service.ts that write: what their single writes keep of
-- the tables is kept by every method.
pub mod Content
pub mod Service
pub mod Steps
use orbix_hub.Base.{
  ℕ, ◌+◌, ◌≡◌, refl, sym, ◌∙◌, ◌==◌, Bool, true, false, not, ◌&&◌, Bool-cases, inl, inr, Option,
  none, some, is_some, or_default, List, [], ◌∷◌, ◌++◌, find, any, map, if◌then◌else◌, ltb, Text, ℤ,
  ◌+ℤ◌, Result, ok, err, pure, gets, throw_if, transaction, modify, ◌>>=◌, ◌>>◌, arith,
}
use orbix_hub.Base.Keeps.{
  Keeps, Keeps-pure, Keeps-throw, Keeps-gets, Keeps-or_throw, Keeps-if, Keeps-transaction,
  Keeps-modify, Keeps-throw_if, Keeps-bind, Keeps-then,
}
use orbix_hub.Base.Triple.{
  Triple, Triple-pure, Triple-throw, Triple-gets, Triple-or_throw, Triple-modify, Triple-throw_if,
  Triple-bind, Triple-given, Triple-transaction, Triple-weaken, Triple-Keeps, Keeps-Triple,
}
use orbix_hub.NumeroSequencial.Attempts.{criar-Keeps}
use orbix_hub.Inventory
use orbix_hub.Inventory.Conservation.{on_shelf, consumed_of}
use orbix_hub.Os
use orbix_hub.Os.{
  OsStatus, Order, new_order, same_status, change_status, stamped, assert_editable, consumes,
  cancelada,
}
use orbix_hub.Os.Workflow.{change_status_iff}
use orbix_hub.Os.Consumption.{
  OrderLine, stock_line, reconcile_line, reconcile_order_stock, reconcile_order_stock_conserves,
  line-conserves,
}
use orbix_hub.Os.Store.{
  ServiceOrder, ItemRow, Event, EventText, Workshop, Working, Error, Request, workflow_of,
  AuditEvent, AuditRow, allow, order_has_id, order_has_number, item_has_id, of_order, items_of,
  add_order, insert_order, update_row, with_cycle, with_fiado, with_deleted, insert_item,
  update_item_row, delete_item_row, add_events, create_event, audit_log, line_of, live,
  order_or_throw, editable_or_throw, recompute_total,
}
use orbix_hub.Os.Content.{
  CreateItemDto, UpdateItemDto, edited_item, own, snapshot_of, new_item, write_new_item,
  follow_item, add_item, item_or_throw, write_item, update_item, remove_item, delete_item, note_of,
  loose, snapshot_by, taken_error,
}
use orbix_hub.Os.Fields.{
  UpdateOrderDto, edited_order, write_fields, write_order, update_order, create_note,
}
use orbix_hub.Os.Service.{
  CreateOrderDto, Holder, order_row, opening_event, status_event, label_of, attempt_order,
  is_unique_violation, eh_conflito_de_id, create_order, stock_lines, write_status, note_return,
  follow_status, change_order_status, declare_fiado, mark_fiado, check_deletion, refuse_locked,
  payment_of, open_installments, give_back, delete_order,
}
use orbix_hub.Os.Commands.{
  Command, creating, editing, adding, changing, removing, noting, moving, declaring, deleting, step,
}

-- The shelf and the journal of an item together.
abbrev pub stock_total : ℕ → Inventory.Stock → ℤ
stock_total x s = on_shelf x s +ℤ consumed_of x s

-- A row of an order as it is created.
pub record IsNew (o : ServiceOrder) : Type 0 where
  pub opened : o.cycle ≡ new_order
  pub worthless : o.total ≡ 0

abbrev pub Found : ℕ → ServiceOrder → Workshop → Type 0
Found id o db = find (order_has_id id) db.orders ≡ some o

-- The single writes, each with what the methods know where they make it.
pub record Primitives (P : Workshop → Type 0) : Type 0 where
  pub creates :
      (req : Request) (o : ServiceOrder) (db : Workshop)
      → IsNew o
      → any (order_has_id o.id) db.orders ≡ false
      → any (order_has_number o.number) db.orders ≡ false
      → P db
      → P (add_events (opening_event req o.id ∷ []) (add_order o db))
  pub inserts_item :
      (id : ℕ) (o : ServiceOrder) (i : ItemRow) (db : Workshop)
      → Found id o db
      → of_order id i ≡ true
      → P db
      → P (recompute_total id (insert_item i db))
  pub edits_item :
      (id item : ℕ) (dto : UpdateItemDto) (o : ServiceOrder) (i : ItemRow) (db : Workshop)
      → Found id o db
      → find (item_has_id item) db.items ≡ some i
      → of_order id i ≡ true
      → P db
      → P (recompute_total id (update_item_row item (λ j. edited_item dto i) db))
  pub deletes_item :
      (id item : ℕ) (o : ServiceOrder) (i : ItemRow) (db : Workshop)
      → Found id o db
      → find (item_has_id item) db.items ≡ some i
      → of_order id i ≡ true
      → P db
      → P (recompute_total id (delete_item_row item db))
  pub edits_order :
      (req : Request) (id : ℕ) (dto : UpdateOrderDto) (o : ServiceOrder) (db : Workshop)
      → Found id o db
      → P db
      → P (write_fields req id dto o db)
  pub moves :
      (req : Request) (id : ℕ) (o : ServiceOrder) (after : Order) (message : EventText)
      (db : Workshop)
      → Found id o db
      → P db
      → P (
          add_events
            (status_event req id message after.status ∷ [])
            (update_row id (with_cycle after) db))
  pub stamps_fiado : (id at : ℕ) (db : Workshop) → P db → P (update_row id (with_fiado at) db)
  pub stamps_deleted : (id at : ℕ) (db : Workshop) → P db → P (update_row id (with_deleted at) db)
  pub notes :
      (req : Request) (id : ℕ) (message : EventText) (visible : Bool) (db : Workshop)
      → P db
      → P (add_events (note_of req id message visible ∷ []) db)
  pub moves_stock :
      (s : Inventory.Stock) (db : Workshop)
      → ((x : ℕ) → stock_total x s ≡ stock_total x db.stock)
      → P db
      → P (record db { stock = s })
  pub audits : (rows : List AuditRow) (db : Workshop) → P db → P (record db { audit = rows })

live-some : (found : Option ServiceOrder) (o : ServiceOrder) → live found ≡ some o → found ≡ some o
live-some none o h = cc
live-some (some p) o h = elim (Bool-cases (is_some p.deleted_at)) [
  | inl gone ↦ let clash : none ≡ some o = rw gone at h in cc
  | inr here ↦ rw here at h
]

own-some :
    (id : ℕ) (found : Option ItemRow) (i : ItemRow)
    → own id found ≡ some i
    → (found ≡ some i) × (of_order id i ≡ true)
own-some id none i h = cc
own-some id (some j) i h = elim (Bool-cases (of_order id j)) [
  | inl mine ↦
      let same : some j ≡ some i = rw mine at h in let row : j ≡ i = cc in (same, rw row at mine)
  | inr other ↦ let clash : none ≡ some i = rw other at h in cc
]

module _ {P : Workshop → Type 0} where
  pub order_or_throw-Found : (id : ℕ) → Triple P P (order_or_throw id) (λ o t. Found id o t × P t)
  unfolding order_or_throw
  order_or_throw-Found id =
      Triple-bind _ _
        (Triple-gets {Q = λ f t. (find (order_has_id id) t.orders ≡ f) × P t} _ (λ t p. (refl, p)))
        (λ f. Triple-or_throw (live f) _ (λ t p. p.1) (λ o e t p. (p.0 ∙ live-some f o e, p.1)))

  pub allow-Keeps : {A : Type 0} (r : Result Os.Error A) → Keeps P (allow r)
  unfolding allow
  allow-Keeps (ok a) = record { at = λ t p. p }
  allow-Keeps (err e) = record { at = λ t p. p }

module _ {P : Workshop → Type 0} where
  pub editable_or_throw-Found :
      (id : ℕ) → Triple P P (editable_or_throw id) (λ o t. Found id o t × P t)
  unfolding editable_or_throw
  editable_or_throw-Found id = Triple-bind _ _ (order_or_throw-Found id) (λ o.
      Triple-bind {Q = λ u t. Found id o t × P t} _ _ (allowed o (assert_editable o.cycle.status))
        (λ u. Triple-pure _ (λ t p. p)))
    where
      allowed :
          (o : ServiceOrder) (r : Result Os.Error (Unit {0}))
          → Triple P (λ t. Found id o t × P t) (allow r) (λ u t. Found id o t × P t)
      allowed o (ok u) = record { at = λ t p. p }
      allowed o (err e) = record { at = λ t p. p.1 }

  -- The line, beside its order.
  pub item_or_throw-Found :
      (id item : ℕ) (o : ServiceOrder)
      → Triple P
          (λ t. Found id o t × P t)
          (item_or_throw id item)
          (λ i t.
            (find (item_has_id item) t.items ≡ some i)
            × (of_order id i ≡ true)
            × Found id o t
            × P t)
  unfolding item_or_throw
  item_or_throw-Found id item o =
      Triple-bind _ _
        (Triple-gets {Q = λ f t. (find (item_has_id item) t.items ≡ f) × Found id o t × P t} _
          (λ t p. (refl, p.0, p.1)))
        (λ f.
          Triple-or_throw (own id f) _ (λ t p. p.2)
            (λ i e t p. (p.0 ∙ (own-some id f i e).0, (own-some id f i e).1, p.1, p.2)))
