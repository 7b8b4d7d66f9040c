-- ===== src/Os/Commands/Rows.antt =====
-- What the writes of back/src/modules/os/os.repository.ts do to the rows that are read back.
use orbix_hub.Base.{
  ℕ, ◌+◌, ◌≡◌, refl, ap, ◌∙◌, ◌==◌, true, false, Bool-cases, inl, inr, some, List, [], ◌∷◌, ◌++◌,
  find, any, update_first, if◌then◌else◌, arith,
}
use orbix_hub.Base.Rows.{map_found, find-update_first, find-append_one}
use orbix_hub.Os.Store.{
  ServiceOrder, ItemRow, order_has_id, item_has_id, of_order, items_total, delete_first,
}

pub find-update :
    (x id : ℕ) (f : ServiceOrder → ServiceOrder) (os : List ServiceOrder)
    → ((o : ServiceOrder) → (f o).id ≡ o.id)
    → find (order_has_id x) (update_first (order_has_id id) f os)
      ≡ (if id == x then map_found f (find (order_has_id x) os) else find (order_has_id x) os)
find-update = find-update_first (λ (o : ServiceOrder). o.id)

pub find-add :
    (x : ℕ) (o : ServiceOrder) (os : List ServiceOrder)
    → any (order_has_id o.id) os ≡ false
    → find (order_has_id x) (os ++ (o ∷ []))
      ≡ (if o.id == x then some o else find (order_has_id x) os)
find-add = find-append_one (λ (o : ServiceOrder). o.id)

pub total-insert :
    (x : ℕ) (i : ItemRow) (is : List ItemRow)
    → items_total x (is ++ (i ∷ [])) ≡ items_total x is + (if of_order x i then i.total else 0)
total-insert x i [] = ground arith
total-insert x i (j ∷ is) = ground (arith, total-insert x i is)

-- A line of another order is written.
pub total-update :
    (x item : ℕ) (i j : ItemRow) (is : List ItemRow)
    → find (item_has_id item) is ≡ some i
    → of_order x i ≡ false
    → of_order x j ≡ false
    → items_total x (update_first (item_has_id item) (λ k. j) is) ≡ items_total x is
total-update x item i j [] f h k = refl
total-update x item i j (l ∷ is) f h k = elim (Bool-cases (l.id == item)) [
  | inl own ↦
      let same : some l ≡ some i = rw own at f in
      let row : l ≡ i = cc in
      let away : of_order x l ≡ false = ap (of_order x) row ∙ h in rw (own, k, away) refl
  | inr other ↦
      let rest = total-update x item i j is (rw other at f) h k in
      elim (Bool-cases (of_order x l)) [
        | inl m ↦ rw (other, m) (ap (λ n. l.total + n) rest)
        | inr m ↦ rw (other, m) rest
      ]
]

pub total-delete :
    (x item : ℕ) (i : ItemRow) (is : List ItemRow)
    → find (item_has_id item) is ≡ some i
    → of_order x i ≡ false
    → items_total x (delete_first item is) ≡ items_total x is
unfolding delete_first
total-delete x item i [] f h = refl
total-delete x item i (l ∷ is) f h = elim (Bool-cases (l.id == item)) [
  | inl own ↦
      let same : some l ≡ some i = rw own at f in
      let row : l ≡ i = cc in
      let away : of_order x l ≡ false = ap (of_order x) row ∙ h in rw (own, away) refl
  | inr other ↦
      let rest = total-delete x item i is (rw other at f) h in
      elim (Bool-cases (of_order x l)) [
        | inl m ↦ rw (other, m) (ap (λ n. l.total + n) rest)
        | inr m ↦ rw (other, m) rest
      ]
]

-- A line of one order is none of another.
pub of_another : (id x order : ℕ) → (id == x) ≡ false → (order == id) ≡ true → (order == x) ≡ false
of_another id x order h k = ground arith
