-- ===== src/Os/Commands/Traversal/Content.antt =====
-- The walk through the edits of an order's content in back/src/modules/os/os.service.ts.
use orbix_hub.Base.{
  ℕ, ◌≡◌, refl, ==_refl, Bool, true, false, Option, none, some, [], ◌∷◌, if◌then◌else◌, Text,
}
use orbix_hub.Base.Keeps.{
  Keeps, Keeps-pure, Keeps-throw, Keeps-gets, Keeps-or_throw, Keeps-transaction, Keeps-modify,
  Keeps-bind, Keeps-then,
}
use orbix_hub.Base.Triple.{
  Triple-pure, Triple-gets, Triple-modify, Triple-throw_if, Triple-bind, Triple-weaken,
  Triple-Keeps, Keeps-Triple,
}
use orbix_hub.Inventory
use orbix_hub.Os.{OsStatus, consumes}
use orbix_hub.Os.Consumption.{
  stock_line, reconcile_line, reconcile_order_stock, reconcile_order_stock_conserves,
  line-conserves,
}
use orbix_hub.Os.Store.{
  ItemRow, EventText, Workshop, Request, AuditEvent, of_order, create_event, audit_log, line_of,
}
use orbix_hub.Os.Content.{
  CreateItemDto, UpdateItemDto, snapshot_of, new_item, write_new_item, follow_line, follow_item,
  add_item, write_item, update_item, remove_item, delete_item, note_of, loose, snapshot_by,
}
use orbix_hub.Os.Fields.{UpdateOrderDto, write_order, update_order, create_note}
use orbix_hub.Os.Commands.Traversal.{
  stock_total, Found, Primitives, order_or_throw-Found, editable_or_throw-Found,
  item_or_throw-Found,
}

-- To do what conserves, or nothing.
pub either_conserves :
    (b : Bool) (s t : Inventory.Stock) (x : ℕ)
    → stock_total x s ≡ stock_total x t
    → stock_total x (if b then s else t) ≡ stock_total x t
either_conserves true s t x h = h
either_conserves false s t x h = refl

module _ {P : Workshop → Type 0} (p : Primitives P) where
  pub audit_log-Keeps : (actor : ℕ) (e : AuditEvent) → Keeps P (audit_log actor e)
  unfolding audit_log
  audit_log-Keeps actor e = Keeps-modify _ (λ db h. p.audits _ db h)

  pub note-Keeps :
      (req : Request) (id : ℕ) (message : EventText) (visible : Bool)
      → Keeps P (create_event (note_of req id message visible))
  unfolding create_event
  note-Keeps req id message visible = Keeps-modify _ (λ db h. p.notes req id message visible db h)

  follow_line-conserves :
      (id : ℕ) (status : OsStatus) (found : Option ItemRow) (stock : Inventory.Stock) (x : ℕ)
      → stock_total x (follow_line id status found stock) ≡ stock_total x stock
  unfolding follow_line
  follow_line-conserves id status none stock x = refl
  follow_line-conserves id status (some i) stock x =
      either_conserves (consumes status)
        (reconcile_order_stock id status (line_of i ∷ []) false stock) stock x
        (reconcile_order_stock_conserves x id status (line_of i ∷ []) false stock)

  follow_item-Keeps : (id item : ℕ) → Keeps P (follow_item id item)
  unfolding follow_item
  follow_item-Keeps id item = Triple-Keeps _ (
      Triple-bind _ _ (order_or_throw-Found id) (λ o.
        Triple-bind {Q = λ f. P} _ _ (Triple-gets _ (λ t h. h.1)) (λ f.
          Triple-modify _
            (λ t h. p.moves_stock _ t (follow_line-conserves id o.cycle.status f t.stock) h))))

  snapshot-Keeps : (dto : CreateItemDto) → Keeps P (snapshot_of dto)
  unfolding snapshot_of
  snapshot-Keeps dto = by_item dto.inventory_item_id
    where
      loosely : (name : Text) → Keeps P (loose dto name)
      loosely [] = Keeps-throw _
      loosely (c ∷ cs) = Keeps-pure _

      by_item : (item : Option ℕ) → Keeps P (snapshot_by dto item)
      by_item none = loosely _
      by_item (some id) =
          Keeps-bind _ _ (Keeps-gets _)
            (λ f. Keeps-bind _ _ (Keeps-or_throw (Inventory.live f) _) (λ i. Keeps-pure _))

  write_new_item-Keeps :
      (req : Request) (id : ℕ) (dto : CreateItemDto) (row : ItemRow)
      → of_order id row ≡ true
      → Keeps P (write_new_item req id dto row)
  unfolding write_new_item
  write_new_item-Keeps req id dto row mine = Keeps-transaction _ (
      Triple-Keeps _ (
        Triple-bind _ _ (editable_or_throw-Found id) (λ o.
          Triple-bind {Q = λ b t. Found id o t × P t} _ _ (Triple-gets _ (λ t h. h)) (λ b.
            Triple-bind {Q = λ u t. Found id o t × P t} _ _
              (Triple-throw_if _ _ (λ t h. h.1) (λ e t h. h))
              (λ u.
                Triple-bind {Q = λ v. P} _ _
                  (Triple-modify _ (λ t h. p.inserts_item id o row t h.0 mine h.1))
                  (λ v. Keeps-Triple _ (note-Keeps req id _ true)))))))

  pub add_item-Keeps :
      (req : Request) (id : ℕ) (dto : CreateItemDto) → Keeps P (add_item req id dto)
  unfolding add_item new_item
  add_item-Keeps req id dto = Keeps-bind _ _ (snapshot-Keeps dto) (λ s.
      Keeps-then _ _ (write_new_item-Keeps req id dto (new_item req id dto s) (==_refl id))
        (follow_item-Keeps id _))

  write_item-Keeps : (id item : ℕ) (dto : UpdateItemDto) → Keeps P (write_item id item dto)
  unfolding write_item
  write_item-Keeps id item dto = Keeps-transaction _ (
      Triple-Keeps _ (
        Triple-bind _ _ (editable_or_throw-Found id) (λ o.
          Triple-bind _ _ (item_or_throw-Found id item o)
            (λ i. Triple-modify _ (λ t h. p.edits_item id item dto o i t h.2 h.0 h.1 h.3)))))

  pub update_item-Keeps : (id item : ℕ) (dto : UpdateItemDto) → Keeps P (update_item id item dto)
  unfolding update_item
  update_item-Keeps id item dto =
      Keeps-then _ _ (write_item-Keeps id item dto) (follow_item-Keeps id item)

  remove_item-Keeps : (req : Request) (id item : ℕ) → Keeps P (remove_item req id item)
  unfolding remove_item
  remove_item-Keeps req id item = Keeps-transaction _ (
      Triple-Keeps _ (
        Triple-bind _ _ (editable_or_throw-Found id) (λ o.
          Triple-bind _ _ (item_or_throw-Found id item o) (λ i.
            Triple-bind {Q = λ u. P} _ _
              (Triple-modify _ (λ t h. p.deletes_item id item o i t h.2 h.0 h.1 h.3))
              (λ u.
                Triple-bind {Q = λ v. P} _ _ (Keeps-Triple _ (note-Keeps req id _ true))
                  (λ v. Triple-pure _ (λ t h. h)))))))

  pub delete_item-Keeps : (req : Request) (id item : ℕ) → Keeps P (delete_item req id item)
  unfolding delete_item
  delete_item-Keeps req id item = Keeps-bind _ _ (remove_item-Keeps req id item) (λ r.
      Keeps-modify _ (λ t h.
        p.moves_stock _ t
          (λ x.
            either_conserves (consumes r.status)
              (reconcile_line id false (line_of r.removed) (stock_line (line_of r.removed)) t.stock)
              t.stock x
              (line-conserves x id false (line_of r.removed) (stock_line (line_of r.removed))
                t.stock))
          h))

  pub update_order-Keeps :
      (req : Request) (id : ℕ) (dto : UpdateOrderDto) → Keeps P (update_order req id dto)
  unfolding update_order write_order
  update_order-Keeps req id dto =
      Keeps-then _ _
        (Keeps-transaction _ (
          Triple-Keeps _ (
            Triple-bind _ _ (editable_or_throw-Found id)
              (λ o. Triple-modify _ (λ t h. p.edits_order req id dto o t h.0 h.1)))))
        (audit_log-Keeps _ _)

  pub create_note-Keeps :
      (req : Request) (id : ℕ) (message : Text) (visible : Option Bool)
      → Keeps P (create_note req id message visible)
  unfolding create_note
  create_note-Keeps req id message visible = Keeps-transaction _ (
      Triple-Keeps _ (
        Triple-bind {Q = λ o. P} _ _ (Triple-weaken _ _ (λ o t h. h.1) (editable_or_throw-Found id))
          (λ o. Keeps-Triple _ (note-Keeps req id _ _))))
