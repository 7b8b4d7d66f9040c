-- ===== src/Os/Closed.antt =====
-- The content of an order that is closed or deleted: `assertEditable` in the edits of
-- back/src/modules/os/os.service.ts.
use orbix_hub.Base.{
  ℕ, ◌≡◌, ◌⊎◌, refl, ap, sym, ◌∙◌, Bool, true, inl, inr, Option, none, some, is_some, [], ◌∷◌, find,
  Text, Result, ok, err, transaction, ◌>>=◌, arith,
}
use orbix_hub.Base.Triple.{
  Triple, Met, Triple-pure, Triple-throw, Triple-gets, Triple-or_throw, Triple-bind,
  Triple-transaction,
}
use orbix_hub.Inventory
use orbix_hub.Os
use orbix_hub.Os.{includes, terminal_statuses, assert_editable}
use orbix_hub.Os.Store.{
  ServiceOrder, Workshop, Working, Error, Request, order_has_id, live, order_or_throw,
  editable_or_throw, allow,
}
use orbix_hub.Os.Content.{
  CreateItemDto, UpdateItemDto, snapshot_of, snapshot_by, loose, write_new_item, add_item,
  write_item, update_item, remove_item, delete_item,
}
use orbix_hub.Os.Fields.{UpdateOrderDto, write_order, update_order, create_note}

-- Deleted, or in a status that ends the work.
abbrev pub Closed : ServiceOrder → Type 0
Closed o = (is_some o.deleted_at ≡ true) ⊎ (includes terminal_statuses o.cycle.status ≡ true)

-- A refusal that changes nothing.
abbrev pub Refused : {A : Type 0} → Workshop → Result Error A × Workshop → Type 0
Refused db r = Met (λ t. t ≡ db) (λ a t. ⊥) r

module _ (id : ℕ) (o : ServiceOrder) (db : Workshop)
    (found : find (order_has_id id) db.orders ≡ some o) (closed : Closed o) where
  abbrev Start : Workshop → Type 0
  Start t = t ≡ db

  never_allowed :
      (a : ServiceOrder) → live (some o) ≡ some a → (assert_editable a.cycle.status ≡ ok tt) → ⊥
  unfolding assert_editable
  never_allowed a h k = elim closed [
    | inl gone ↦ let clash : none ≡ some a = rw gone at h in ground arith
    | inr ended ↦ ground arith
  ]

  allowed_never :
      (a : ServiceOrder) (r : Result Os.Error (Unit {0}))
      → assert_editable a.cycle.status ≡ r
      → live (some o) ≡ some a
      → Triple Start Start (allow r) (λ u t. ⊥)
  unfolding allow
  allowed_never a (ok u) e h = record { at = λ t s. never_allowed a h e }
  allowed_never a (err f) e h = record { at = λ t s. s }

  editable-Refused : Triple Start Start (editable_or_throw id) (λ a t. ⊥)
  unfolding editable_or_throw order_or_throw
  editable-Refused =
      Triple-bind {Q = λ a t. (live (some o) ≡ some a) × Start t} _ _
        (Triple-bind {Q = λ f t. (f ≡ some o) × Start t} _ _
          (Triple-gets _
            (λ t s. (ap (λ (w : Workshop). find (order_has_id id) w.orders) s ∙ found, s)))
          (λ f. Triple-or_throw (live f) _ (λ t s. s.1) (λ a e t s. (ap live (sym s.0) ∙ e, s.1))))
        (λ a.
          Triple-bind {Q = λ u t. ⊥} _ _
            (record {
              at = λ t s. (allowed_never a (assert_editable a.cycle.status) refl s.0).at t s.1;
            })
            (λ u. record { at = λ t bad. absurd bad }))

  -- Whatever follows the check is never reached.
  unreached :
      {A B : Type 0} (m : Working A) (f : A → Working B)
      → Triple Start Start m (λ a t. ⊥)
      → Triple Start Start (m >>= f) (λ b t. ⊥)
  unreached m f h = Triple-bind m f h (λ a. record { at = λ t bad. absurd bad })

  checked :
      {B : Type 0} (f : ServiceOrder → Working B)
      → Triple Start Start (transaction (editable_or_throw id >>= f)) (λ b t. ⊥)
  checked f = Triple-transaction Start _ (λ t s. s) (unreached _ f editable-Refused)

  snapshot-reads : (dto : CreateItemDto) → Triple Start Start (snapshot_of dto) (λ s. Start)
  unfolding snapshot_of
  snapshot-reads dto = by_item dto.inventory_item_id
    where
      loosely : (name : Text) → Triple Start Start (loose dto name) (λ s. Start)
      loosely [] = Triple-throw _ (λ t s. s)
      loosely (c ∷ cs) = Triple-pure _ (λ t s. s)

      by_item : (item : Option ℕ) → Triple Start Start (snapshot_by dto item) (λ s. Start)
      by_item none = loosely _
      by_item (some n) = Triple-bind {Q = λ f. Start} _ _ (Triple-gets _ (λ t s. s)) (λ f.
          Triple-bind {Q = λ i. Start} _ _
            (Triple-or_throw (Inventory.live f) _ (λ t s. s) (λ i e t s. s))
            (λ i. Triple-pure _ (λ t s. s)))

-- For an order that is deleted, or cancelled, delivered or without repair: whoever adds, changes or removes an
-- item, edits its fields or notes something on it is refused, and nothing changes.
pub Closed-Refused :
    (id : ℕ) (o : ServiceOrder) (db : Workshop)
    → find (order_has_id id) db.orders ≡ some o
    → Closed o
    → (req : Request) (new : CreateItemDto) (item : ℕ) (edit : UpdateItemDto)
      (fields : UpdateOrderDto) (message : Text) (visible : Option Bool)
    → Refused db (add_item req id new db)
      × Refused db (update_item id item edit db)
      × Refused db (delete_item req id item db)
      × Refused db (update_order req id fields db)
      × Refused db (create_note req id message visible db)
unfolding add_item write_new_item update_item write_item delete_item remove_item update_order
    write_order create_note
Closed-Refused id o db f c req new item edit fields message visible = (
  (Triple-bind _ _ (snapshot-reads id o db f c new)
        (λ s. unreached id o db f c _ _ (checked id o db f c _))).at
      db refl,
  (unreached id o db f c _ _ (checked id o db f c _)).at db refl,
  (unreached id o db f c _ _ (checked id o db f c _)).at db refl,
  (unreached id o db f c _ _ (checked id o db f c _)).at db refl,
  (checked id o db f c _).at db refl,
)
