-- ===== src/Os/Commands/Traversal/Service.antt =====
-- The walk through the life of an order in back/src/modules/os/os.service.ts.
use orbix_hub.Base.{
  ℕ, ◌+◌, ◌≡◌, refl, ap, sym, subst, ◌∙◌, Bool, true, false, Option, none, some, List, [], ◌∷◌, any,
  map, if◌then◌else◌, ltb, Result, ok, err,
}
use orbix_hub.Base.Keeps.{
  Keeps, Keeps-pure, Keeps-throw, Keeps-gets, Keeps-if, Keeps-transaction, Keeps-modify,
  Keeps-throw_if, Keeps-bind, Keeps-then,
}
use orbix_hub.Base.Triple.{
  Triple, Triple-gets, Triple-modify, Triple-throw_if, Triple-bind, Triple-given, Triple-weaken,
  Triple-Keeps, Keeps-Triple,
}
use orbix_hub.NumeroSequencial.Attempts.{criar-Keeps}
use orbix_hub.Os
use orbix_hub.Os.{
  OsStatus, Order, new_order, same_status, change_status, stamped, assert_editable, consumes,
  cancelada,
}
use orbix_hub.Os.Workflow.{change_status_iff}
use orbix_hub.Os.Consumption.{reconcile_order_stock_conserves}
use orbix_hub.Os.Store.{
  ServiceOrder, ItemRow, Workshop, Error, Request, workflow_of, allow, order_has_id,
  order_has_number, items_of, add_order, insert_order, update_row, with_cycle, add_events,
  create_event, line_of,
}
use orbix_hub.Os.Service.{
  CreateOrderDto, Holder, order_row, opening_event, status_event, label_of, attempt_order,
  is_unique_violation, eh_conflito_de_id, create_order, stock_lines, write_status, note_return,
  follow_status, change_order_status, declare_fiado, mark_fiado, check_deletion, refuse_locked,
  give_back, delete_order,
}
use orbix_hub.Os.Commands.Traversal.{Found, Primitives, order_or_throw-Found, allow-Keeps}
use orbix_hub.Os.Commands.Traversal.Content.{audit_log-Keeps, note-Keeps}

module _ {P : Workshop → Type 0} (p : Primitives P) where
  -- The rows before an insert.
  record Inserted (o : ServiceOrder) (t : Workshop) : Type 0 where
    before : Workshop
    is : t ≡ add_order o before
    fresh_id : any (order_has_id o.id) before.orders ≡ false
    fresh_number : any (order_has_number o.number) before.orders ≡ false
    kept : P before

  insert-Inserted : (o : ServiceOrder) → Triple P P (insert_order o) (λ u t. Inserted o t)
  unfolding insert_order
  insert-Inserted o =
      Triple-bind {Q = λ b t. (any (order_has_id o.id) t.orders ≡ b) × P t} _ _
        (Triple-gets _ (λ t h. (refl, h)))
        (λ b.
          Triple-bind {Q = λ u t. (any (order_has_id o.id) t.orders ≡ false) × P t} _ _
            (Triple-throw_if _ _ (λ t h. h.1) (λ e t h. (h.0 ∙ e, h.1)))
            (λ u.
              Triple-bind
                {Q = λ c t.
                  (any (order_has_number o.number) t.orders ≡ c)
                  × (any (order_has_id o.id) t.orders ≡ false)
                  × P t}
                _ _ (Triple-gets _ (λ t h. (refl, h.0, h.1)))
                (λ c.
                  Triple-bind
                    {Q = λ v t.
                      (any (order_has_number o.number) t.orders ≡ false)
                      × (any (order_has_id o.id) t.orders ≡ false)
                      × P t}
                    _ _ (Triple-throw_if _ _ (λ t h. h.2) (λ e t h. (h.0 ∙ e, h.1, h.2)))
                    (λ v. Triple-modify _ (λ t h. record {
                      before = t;
                      is = refl;
                      fresh_id = h.1;
                      fresh_number = h.0;
                      kept = h.2;
                    })))))

  attempt-Keeps :
      (rivals : ℕ → Workshop → Workshop) (req : Request) (dto : CreateOrderDto) (h : Holder) (k : ℕ)
      → ((k : ℕ) (db : Workshop) → P db → P (rivals k db))
      → Keeps P (attempt_order rivals req dto h k)
  unfolding attempt_order order_row create_event
  attempt-Keeps rivals req dto h k honest = Keeps-bind _ _ (Keeps-gets _) (λ n.
      Keeps-then _ _ (Keeps-modify _ (λ t i. honest k t i)) (
        Keeps-then _ _
          (Keeps-transaction _ (
            Triple-Keeps _ (
              Triple-bind _ _ (insert-Inserted (order_row req dto h (n + 1))) (λ u.
                Triple-modify _ (λ t i.
                  subst
                    (λ w.
                      P (add_events (opening_event req (order_row req dto h (n + 1)).id ∷ []) w))
                    (sym i.is)
                    (p.creates req (order_row req dto h (n + 1)) i.before
                      (record { opened = refl; worthless = refl }) i.fresh_id i.fresh_number
                      i.kept))))))
          (Keeps-pure _)))

  conflict-Keeps : (id : Option ℕ) (e : Error) → Keeps P (eh_conflito_de_id id e)
  unfolding eh_conflito_de_id
  conflict-Keeps none e = Keeps-pure _
  conflict-Keeps (some id) e =
      Keeps-bind _ _ (Keeps-gets _) (λ f. Keeps-then _ _ (Keeps-throw_if _ _) (Keeps-pure _))

  pub create_order-Keeps :
      (rivals : ℕ → Workshop → Workshop) (req : Request) (dto : CreateOrderDto) (h : Holder)
      → ((k : ℕ) (db : Workshop) → P db → P (rivals k db))
      → Keeps P (create_order rivals req dto h)
  unfolding create_order
  create_order-Keeps rivals req dto h honest =
      Keeps-bind _ _
        (criar-Keeps P is_unique_violation (eh_conflito_de_id dto.id)
          (attempt_order rivals req dto h) (conflict-Keeps dto.id)
          (λ k. attempt-Keeps rivals req dto h k honest) none)
        (λ o. Keeps-then _ _ (audit_log-Keeps p _ _) (Keeps-pure _))

  note_return-Keeps : (req : Request) (id n : ℕ) → Keeps P (note_return req id n)
  note_return-Keeps req id n =
      Keeps-if _ _ _ (Keeps-pure _)
        (Keeps-then _ _ (audit_log-Keeps p _ _) (note-Keeps p req id _ false))

  -- What the workflow allows is the order with its stamps.
  allow_change :
      (req : Request) (id : ℕ) (to : OsStatus) (o : ServiceOrder) (r : Result Os.Error Order)
      → ((after : Order) → r ≡ ok after → after.status ≡ to)
      → Triple P
          (λ t. Found id o t × P t)
          (allow r)
          (λ after t. (after.status ≡ to) × (Found id o t × P t))
  unfolding allow
  allow_change req id to o (ok after) e = record { at = λ t h. (e after refl, h) }
  allow_change req id to o (err f) e = record { at = λ t h. h.1 }

  changed_status :
      (req : Request) (to : OsStatus) (c after : Order)
      → change_status (workflow_of req) to c ≡ ok after
      → after.status ≡ to
  unfolding stamped
  changed_status req to c after h =
      ap (λ (k : Order). k.status) ((change_status_iff (workflow_of req) to c after).0 h).1

  pub change_order_status-Keeps :
      (req : Request) (id : ℕ) (to : OsStatus) → Keeps P (change_order_status req id to)
  unfolding change_order_status write_status follow_status
  change_order_status-Keeps req id to = Triple-Keeps _ (
      Triple-bind _ _ (order_or_throw-Found id) (λ o.
        Triple-bind _ _ (allow_change req id to o _ (changed_status req to o.cycle)) (λ after.
          Triple-given _ (λ arrived.
            Triple-bind {Q = λ u. P} _ _
              (Triple-modify _ (λ t h.
                subst
                  (λ s. P (
                    add_events (status_event req id (label_of o.cycle.status to) s ∷ [])
                      (update_row id (with_cycle after) t)))
                  arrived (p.moves req id o after (label_of o.cycle.status to) t h.0 h.1)))
              (λ u. Triple-bind {Q = λ v. P} _ _ (Keeps-Triple _ (audit_log-Keeps p _ _)) (λ v.
                Triple-bind _ _ (order_or_throw-Found id) (λ changed.
                  Triple-bind {Q = λ w. P} _ _
                    (Triple-modify _ (λ t h.
                      p.moves_stock _ t
                        (λ x.
                          reconcile_order_stock_conserves x id changed.cycle.status
                            (map line_of (items_of id t)) false t.stock)
                        h.1))
                    (λ w. Keeps-Triple _ (
                      Keeps-bind _ _ (Keeps-gets _) (λ items.
                        Keeps-if _ _ _ (note_return-Keeps req id (stock_lines items))
                          (Keeps-pure _)))))))))))

  pub mark_fiado-Keeps : (req : Request) (id : ℕ) → Keeps P (mark_fiado req id)
  unfolding mark_fiado declare_fiado
  mark_fiado-Keeps req id =
      Keeps-bind _ _
        (Keeps-transaction _ (
          Triple-Keeps _ (
            Triple-bind {Q = λ o. P} _ _
              (Triple-weaken _ _ (λ o t h. h.1) (order_or_throw-Found id))
              (λ o. Keeps-Triple _ (
                Keeps-then _ _ (Keeps-throw_if _ _) (
                  Keeps-if _ _ _ (Keeps-pure _) (
                    Keeps-then _ _ (Keeps-modify _ (λ t h. p.stamps_fiado id req.now t h))
                      (Keeps-pure _))))))))
        (λ b. Keeps-if _ _ _ (Keeps-pure _) (audit_log-Keeps p _ _))

  refuse_locked-Keeps : (m : Option ℕ) → Keeps P (refuse_locked m)
  refuse_locked-Keeps none = Keeps-pure _
  refuse_locked-Keeps (some m) = Keeps-throw _

  check_deletion-Keeps : (req : Request) (id : ℕ) → Keeps P (check_deletion req id)
  unfolding check_deletion
  check_deletion-Keeps req id = Keeps-then _ _ (Keeps-throw_if _ _) (
      Triple-Keeps _ (
        Triple-bind {Q = λ o. P} _ _ (Triple-weaken _ _ (λ o t h. h.1) (order_or_throw-Found id))
          (λ o. Keeps-Triple _ (
            Keeps-bind _ _ (allow-Keeps _) (λ lock. Keeps-then _ _ (refuse_locked-Keeps lock) (
              Keeps-bind _ _ (Keeps-gets _) (λ payment. Keeps-then _ _ (Keeps-throw_if _ _) (
                Keeps-bind _ _ (Keeps-gets _)
                  (λ parcelas. Keeps-then _ _ (Keeps-throw_if _ _) (Keeps-pure _))))))))))

  return_stock :
      (id : ℕ) (status : OsStatus) (items : List ItemRow) (b : Bool) (t : Workshop)
      → P t
      → P (if b then give_back id status items t else t)
  unfolding give_back
  return_stock id status items true t h =
      p.moves_stock _ t
        (λ x. reconcile_order_stock_conserves x id status (map line_of items) true t.stock) h
  return_stock id status items false t h = h

  pub delete_order-Keeps : (req : Request) (id : ℕ) → Keeps P (delete_order req id)
  unfolding delete_order give_back
  delete_order-Keeps req id = Keeps-bind _ _ (check_deletion-Keeps req id) (λ o.
      Keeps-bind _ _ (Keeps-gets _) (λ items.
        Keeps-then _ _ (Keeps-modify _ (λ t h. p.stamps_deleted id req.now t h)) (
          Keeps-then _ _
            (Keeps-modify _
              (λ t h. return_stock id o.cycle.status items (ltb 0 (stock_lines items)) t h))
            (audit_log-Keeps p _ _))))
