-- ===== src/Os/Commands/Timeline.antt =====
-- What the timeline of an order, which the customer sees, says of its status.
use orbix_hub.Base.{
  ℕ, ◌≡◌, refl, ap, sym, ◌∙◌, ◌==◌, Bool, true, false, Bool-cases, inl, inr, Option, none, some,
  is_some, List, [], ◌∷◌, ◌++◌, find, any, if◌then◌else◌, All, All-append, same_option,
}
use orbix_hub.Os.{OsStatus, Order}
use orbix_hub.Os.Store.{
  ServiceOrder, Event, Workshop, Request, order_has_id, with_cycle, with_fiado, with_deleted,
  add_order, add_events, update_row, insert_item, update_item_row, delete_item_row, set_total,
  recompute_total,
}
use orbix_hub.Os.Content.{edited_item, note_of}
use orbix_hub.Os.Fields.{
  UpdateOrderDto, edited_order, told, told_end, told_diagnosis, text_or, same_note, recompute_if,
  write_fields,
}
use orbix_hub.Os.Service.{status_event, opening_event}
use orbix_hub.Os.Commands.{Command, run}
use orbix_hub.Base.Rows.{map_found}
use orbix_hub.Os.Commands.Rows.{find-update, find-add}
use orbix_hub.Os.Commands.Traversal.{Primitives}
use orbix_hub.Os.Commands.Traversal.Steps.{Honest, run-keeps}

abbrev or_else : Option OsStatus → Option OsStatus → Option OsStatus
or_else none earlier = earlier
or_else (some s) earlier = some s

abbrev snapshot_for : ℕ → Event → Option OsStatus
snapshot_for x e = if e.order_id == x then e.status_snapshot else none

-- The status that the timeline of an order shows last.
abbrev pub last_status : ℕ → List Event → Option OsStatus
last_status x [] = none
last_status x (e ∷ es) = or_else (last_status x es) (snapshot_for x e)

abbrev pub Shows : Option ServiceOrder → Option OsStatus → Type 0
Shows none s = Unit
Shows (some o) s = s ≡ some o.cycle.status

-- The timeline of every order ends in its status.
abbrev pub Traced : Workshop → Type 0
Traced db = (x : ℕ) → Shows (find (order_has_id x) db.orders) (last_status x db.events)

or_else_assoc : (a b c : Option OsStatus) → or_else (or_else a b) c ≡ or_else a (or_else b c)
or_else_assoc none b c = refl
or_else_assoc (some s) b c = refl

or_else-none : (a : Option OsStatus) → or_else a none ≡ a
or_else-none none = refl
or_else-none (some s) = refl

last-append :
    (x : ℕ) (es fs : List Event)
    → last_status x (es ++ fs) ≡ or_else (last_status x fs) (last_status x es)
last-append x [] fs = sym (or_else-none (last_status x fs))
last-append x (e ∷ es) fs =
    ap (λ s. or_else s (snapshot_for x e)) (last-append x es fs)
    ∙ or_else_assoc (last_status x fs) (last_status x es) (snapshot_for x e)

-- Events without a status.
abbrev Silent : List Event → Type 0
Silent es = All (λ e. e.status_snapshot ≡ none) es

last-Silent : (x : ℕ) (es : List Event) → Silent es → last_status x es ≡ none
last-Silent x [] h = refl
last-Silent x (e ∷ es) (h, hs) = elim (Bool-cases (e.order_id == x)) [
  | inl own ↦ rw (last-Silent x es hs, own) h
  | inr other ↦ rw (last-Silent x es hs, other) refl
]

Silent-tail : (x : ℕ) (es fs : List Event) → Silent fs → last_status x (es ++ fs) ≡ last_status x es
Silent-tail x es fs h =
    last-append x es fs ∙ ap (λ s. or_else s (last_status x es)) (last-Silent x fs h)

told-Silent :
    (req : Request) (id : ℕ) (dto : UpdateOrderDto) (o : ServiceOrder) → Silent (told req id dto o)
unfolding told
told-Silent req id dto o =
    All-append _ (told_end req id dto.scheduled_end o.scheduled_end) _ (end_is dto.scheduled_end)
      (diagnosis_is (text_or dto.diagnosis none))
  where
    end_is : (asked : Option (Option ℕ)) → Silent (told_end req id asked o.scheduled_end)
    end_is none = tt
    end_is (some new) = elim (Bool-cases (same_option new o.scheduled_end)) [
      | inl same ↦ rw same tt
      | inr other ↦ rw other (refl, tt)
    ]

    diagnosis_is : (new : Option (List ℕ)) → Silent (told_diagnosis req id new o.diagnosis)
    diagnosis_is none = tt
    diagnosis_is (some t) = elim (Bool-cases (same_note t o.diagnosis)) [
      | inl same ↦ rw same tt
      | inr other ↦ rw other (refl, tt)
    ]

-- A row is written that keeps its status.
row-Traced :
    (id : ℕ) (f : ServiceOrder → ServiceOrder) (db : Workshop)
    → ((o : ServiceOrder) → (f o).id ≡ o.id)
    → ((o : ServiceOrder) → (f o).cycle ≡ o.cycle)
    → Traced db
    → Traced (update_row id f db)
unfolding update_row
row-Traced id f db i c h x = elim (Bool-cases (id == x)) [
  | inl own ↦
      rw (find-update x id f db.orders i, own) (mapped (find (order_has_id x) db.orders) (h x))
  | inr other ↦ rw (find-update x id f db.orders i, other) (h x)
]
  where
    mapped :
        (found : Option ServiceOrder)
        → Shows found (last_status x db.events)
        → Shows (map_found f found) (last_status x db.events)
    mapped none k = tt
    mapped (some o) k = k ∙ ap (λ (t : Order). some t.status) (sym (c o))

Silent-Traced :
    (es : List Event) (db : Workshop) → Silent es → Traced db → Traced (add_events es db)
unfolding add_events
Silent-Traced es db s h x = rw (Silent-tail x db.events es s) (h x)

recompute-Traced : (id : ℕ) (db : Workshop) → Traced db → Traced (recompute_total id db)
unfolding recompute_total
recompute-Traced id db h = by_found (find (order_has_id id) db.orders)
  where
    by_found : (found : Option ServiceOrder) → Traced (set_total id found db)
    by_found none = h
    by_found (some o) = row-Traced id _ db (λ p. refl) (λ p. refl) h

recompute_if-Traced :
    (b : Bool) (id : ℕ) (db : Workshop) → Traced db → Traced (recompute_if b id db)
recompute_if-Traced true id db h = recompute-Traced id db h
recompute_if-Traced false id db h = h

-- One event tells the status of one order.
module _ (id : ℕ) (s : OsStatus) (e : Event) (at : e.order_id ≡ id)
    (is : e.status_snapshot ≡ some s) where
  told_status :
      (x : ℕ) (es : List Event)
      → last_status x (es ++ (e ∷ [])) ≡ (if id == x then some s else last_status x es)
  told_status x es = elim (Bool-cases (id == x)) [
    | inl own ↦ rw (last-append x es (e ∷ []), at, own, is) refl
    | inr other ↦ rw (last-append x es (e ∷ []), at, other) refl
  ]

moves-Traced :
    (id : ℕ) (after : Order) (e : Event) (db : Workshop)
    → e.order_id ≡ id
    → e.status_snapshot ≡ some after.status
    → Traced db
    → Traced (add_events (e ∷ []) (update_row id (with_cycle after) db))
unfolding update_row add_events
moves-Traced id after e db at is h x =
    let read = find-update x id (with_cycle after) db.orders (λ p. refl) in
    let says = told_status id after.status e at is x db.events in
    elim (Bool-cases (id == x)) [
      | inl own ↦ rw (read, says, own) (moved (find (order_has_id x) db.orders))
      | inr other ↦ rw (read, says, other) (h x)
    ]
  where
    moved :
        (found : Option ServiceOrder)
        → Shows (map_found (with_cycle after) found) (some after.status)
    moved none = tt
    moved (some o) = refl

creates-Traced :
    (o : ServiceOrder) (e : Event) (db : Workshop)
    → e.order_id ≡ o.id
    → e.status_snapshot ≡ some o.cycle.status
    → any (order_has_id o.id) db.orders ≡ false
    → Traced db
    → Traced (add_events (e ∷ []) (add_order o db))
unfolding add_events
creates-Traced o e db at is fresh h x =
    let read = find-add x o db.orders fresh in
    let says = told_status o.id o.cycle.status e at is x db.events in
    elim (Bool-cases (o.id == x)) [
      | inl own ↦ rw (read, says, own) refl
      | inr other ↦ rw (read, says, other) (h x)
    ]

Traced-Primitives : Primitives Traced
unfolding insert_item update_item_row delete_item_row write_fields
Traced-Primitives = record {
  creates = λ req o db new fresh unused h.
      creates-Traced o (opening_event req o.id) db refl
        (ap (λ (c : Order). some c.status) (sym new.opened)) fresh h;
  inserts_item = λ id o i db f mine h. recompute-Traced id (insert_item i db) h;
  edits_item = λ id item dto o i db f g mine h.
      recompute-Traced id (update_item_row item (λ j. edited_item dto i) db) h;
  deletes_item = λ id item o i db f g mine h. recompute-Traced id (delete_item_row item db) h;
  edits_order = λ req id dto o db f h. recompute_if-Traced (is_some dto.discount) id _ (
      Silent-Traced (told req id dto o) (update_row id (edited_order dto) db)
        (told-Silent req id dto o) (row-Traced id (edited_order dto) db (λ p. refl) (λ p. refl) h));
  moves = λ req id o after message db f h.
      moves-Traced id after (status_event req id message after.status) db refl refl h;
  stamps_fiado = λ id at db h. row-Traced id (with_fiado at) db (λ p. refl) (λ p. refl) h;
  stamps_deleted = λ id at db h. row-Traced id (with_deleted at) db (λ p. refl) (λ p. refl) h;
  notes = λ req id message visible db h.
      Silent-Traced (note_of req id message visible ∷ []) db (refl, tt) h;
  moves_stock = λ s db e h. h;
  audits = λ rows db h. h;
}

-- If the last status that the timeline of each order shows is the order's own, so it is after any methods
-- called by whomever, with success or not, if those who commit during the attempts to create an order keep it
-- so.
pub run-Traced :
    (rs : List (Request × Command)) (db : Workshop)
    → All (λ r. Honest Traced r.1) rs
    → Traced db
    → Traced (run rs db)
run-Traced rs db honest h = run-keeps Traced-Primitives rs db honest h
