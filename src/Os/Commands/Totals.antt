-- ===== src/Os/Commands/Totals.antt =====
-- The total of an order follows its lines and its discount through every method of
-- back/src/modules/os/os.service.ts.
use orbix_hub.Base.{
  ℕ, ◌-◌, ◌≡◌, refl, ap, sym, ◌∙◌, ◌==◌, ==_refl, ==_iff, true, false, Bool-cases, inl, inr, Option,
  none, some, is_some, List, find, any, update_first, All, arith,
}
use orbix_hub.Os.Store.{
  ServiceOrder, ItemRow, Workshop, Request, order_has_id, item_has_id, of_order, items_total,
  with_total, with_cycle, with_fiado, with_deleted, add_order, add_events, update_row, insert_item,
  update_item_row, delete_item_row, recompute_total,
}
use orbix_hub.Os.Content.{UpdateItemDto, edited_item}
use orbix_hub.Os.Fields.{UpdateOrderDto, edited_order, told, recompute_if, write_fields}
use orbix_hub.Os.Commands.{Command, run}
use orbix_hub.Base.Rows.{map_found, find-none}
use orbix_hub.Os.Commands.Rows.{
  find-update, find-add, total-insert, total-update, total-delete, of_another,
}
use orbix_hub.Os.Commands.Traversal.{Primitives, IsNew, Found}
use orbix_hub.Os.Commands.Traversal.Steps.{Honest, run-keeps}

abbrev pub total_found : Option ServiceOrder → ℕ
total_found none = 0
total_found (some o) = o.total

abbrev pub discount_found : Option ServiceOrder → ℕ
discount_found none = 0
discount_found (some o) = o.discount

abbrev Agrees : ℕ → Workshop → Type 0
Agrees x db =
    total_found (find (order_has_id x) db.orders)
    ≡ items_total x db.items - discount_found (find (order_has_id x) db.orders)

-- The total of every order is what its items come to less its discount, or zero; no item that is worth
-- something is without its order.
abbrev pub Totalled : Workshop → Type 0
Totalled db =
    (x : ℕ)
    → total_found (find (order_has_id x) db.orders)
      ≡ items_total x db.items - discount_found (find (order_has_id x) db.orders)

-- All but one.
abbrev TotalledBut : ℕ → Workshop → Type 0
TotalledBut id db = (x : ℕ) → (id == x) ≡ false → Agrees x db

recompute-Totalled :
    (id : ℕ) (o : ServiceOrder) (db : Workshop)
    → Found id o db
    → TotalledBut id db
    → Totalled (recompute_total id db)
unfolding recompute_total update_row
recompute-Totalled id o db f h x =
    let read =
      find-update x id (with_total (items_total id db.items - o.discount)) db.orders (λ p. refl) in
    elim (Bool-cases (id == x)) [
      | inl own ↦
          let same = (==_iff id x).0 own in
          let there : find (order_has_id x) db.orders ≡ some o =
            ap (λ n. find (order_has_id n) db.orders) (sym same) ∙ f in
          rw (f, read, own, there) (ap (λ n. items_total n db.items - o.discount) same)
      | inr other ↦ rw (f, read, other) (h x other)
    ]

module _ (id : ℕ) (o : ServiceOrder) (db : Workshop) (f : Found id o db) (h : Totalled db) where
  inserts-Totalled :
      (i : ItemRow) → of_order id i ≡ true → Totalled (recompute_total id (insert_item i db))
  unfolding insert_item
  inserts-Totalled i mine = recompute-Totalled id o _ f (λ x other.
      let before = h x in
      rw (total-insert x i db.items, of_another id x i.order_id other mine) (omega (arith, before)))

  module _ (item : ℕ) (i : ItemRow) (g : find (item_has_id item) db.items ≡ some i)
      (mine : of_order id i ≡ true) where
    edits-Totalled :
        (dto : UpdateItemDto)
        → Totalled (recompute_total id (update_item_row item (λ j. edited_item dto i) db))
    unfolding update_item_row edited_item
    edits-Totalled dto = recompute-Totalled id o _ f (λ x other.
        let away = of_another id x i.order_id other mine in
        rw (total-update x item i (edited_item dto i) db.items g away away) (h x))

    deletes-Totalled : Totalled (recompute_total id (delete_item_row item db))
    unfolding delete_item_row
    deletes-Totalled = recompute-Totalled id o _ f (λ x other.
        rw (total-delete x item i db.items g (of_another id x i.order_id other mine)) (h x))

-- A row is written that keeps its money.
row-Totalled :
    (id : ℕ) (f : ServiceOrder → ServiceOrder) (db : Workshop)
    → ((o : ServiceOrder) → (f o).id ≡ o.id)
    → ((o : ServiceOrder) → (f o).total ≡ o.total)
    → ((o : ServiceOrder) → (f o).discount ≡ o.discount)
    → Totalled db
    → Totalled (update_row id f db)
unfolding update_row
row-Totalled id f db i t d h x = elim (Bool-cases (id == x)) [
  | inl own ↦
      rw (find-update x id f db.orders i, own) (mapped (find (order_has_id x) db.orders) (h x))
  | inr other ↦ rw (find-update x id f db.orders i, other) (h x)
]
  where
    mapped :
        (found : Option ServiceOrder)
        → total_found found ≡ items_total x db.items - discount_found found
        → total_found (map_found f found)
          ≡ items_total x db.items - discount_found (map_found f found)
    mapped none k = k
    mapped (some o) k = rw (t o, d o) k

fields-Totalled :
    (req : Request) (id : ℕ) (dto : UpdateOrderDto) (o : ServiceOrder) (db : Workshop)
    → Found id o db
    → Totalled db
    → Totalled (write_fields req id dto o db)
unfolding write_fields update_row edited_order add_events
fields-Totalled req id dto o db f h = by_discount dto.discount refl
  where
    found :
        find (order_has_id id) (update_first (order_has_id id) (edited_order dto) db.orders)
        ≡ some (edited_order dto o)
    found = find-update id id (edited_order dto) db.orders (λ p. refl) ∙ rw (==_refl id, f) refl

    by_discount :
        (d : Option ℕ)
        → dto.discount ≡ d
        → Totalled (
            recompute_if
              (is_some d)
              id
              (add_events (told req id dto o) (update_row id (edited_order dto) db)))
    by_discount none e =
        row-Totalled id (edited_order dto) db (λ p. refl) (λ p. refl) (λ p. rw e refl) h
    by_discount (some d) e =
        recompute-Totalled id (edited_order dto o) _ found
          (λ x other. rw (find-update x id (edited_order dto) db.orders (λ p. refl), other) (h x))

creates-Totalled :
    (o : ServiceOrder) (db : Workshop)
    → IsNew o
    → any (order_has_id o.id) db.orders ≡ false
    → Totalled db
    → Totalled (add_order o db)
creates-Totalled o db new fresh h x = elim (Bool-cases (o.id == x)) [
  | inl own ↦
      let same = (==_iff o.id x).0 own in
      let absent =
        find-none (λ (q : ServiceOrder). q.id) x db.orders
          (ap (λ n. any (order_has_id n) db.orders) (sym same) ∙ fresh) in
      let before = h x in
      let lineless : 0 ≡ items_total x db.items - 0 = rw absent at before in
      rw (find-add x o db.orders fresh, own) (omega (arith, lineless, new.worthless))
  | inr other ↦ rw (find-add x o db.orders fresh, other) (h x)
]

Totalled-Primitives : Primitives Totalled
unfolding update_row add_events
Totalled-Primitives = record {
  creates = λ req o db new fresh unused h. creates-Totalled o db new fresh h;
  inserts_item = λ id o i db f mine h. inserts-Totalled id o db f h i mine;
  edits_item = λ id item dto o i db f g mine h. edits-Totalled id o db f h item i g mine dto;
  deletes_item = λ id item o i db f g mine h. deletes-Totalled id o db f h item i g mine;
  edits_order = λ req id dto o db f h. fields-Totalled req id dto o db f h;
  moves = λ req id o after message db f h.
      row-Totalled id (with_cycle after) db (λ p. refl) (λ p. refl) (λ p. refl) h;
  stamps_fiado =
      λ id at db h. row-Totalled id (with_fiado at) db (λ p. refl) (λ p. refl) (λ p. refl) h;
  stamps_deleted =
      λ id at db h. row-Totalled id (with_deleted at) db (λ p. refl) (λ p. refl) (λ p. refl) h;
  notes = λ req id message visible db h. h;
  moves_stock = λ s db e h. h;
  audits = λ rows db h. h;
}

-- If the total of every order is what its items come to less its discount, or zero if the discount is
-- larger, and no item that is worth something is without its order: so it is after any methods called by
-- whomever, with success or not, if those who commit during the attempts to create an order keep it so.
pub run-Totalled :
    (rs : List (Request × Command)) (db : Workshop)
    → All (λ r. Honest Totalled r.1) rs
    → Totalled db
    → Totalled (run rs db)
run-Totalled rs db honest h = run-keeps Totalled-Primitives rs db honest h
