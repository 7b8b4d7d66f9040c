-- ===== src/Expenses/Edit/Sorted.antt =====
-- The open instalments in their order: the same rows as in the table, each once.
use orbix_hub.Base.{
  ℕ, ◌+◌, ◌≡◌, refl, ap, ◌∙◌, ◌==◌, ==_refl, Bool, true, false, not, ◌&&◌, ◌||◌, Bool-cases, inl,
  inr, some, List, [], ◌∷◌, find, any, keep, All, leb, arith,
}
use orbix_hub.Expenses.Store.{Expense, expense_has_id}
use orbix_hub.Expenses.Purchase.{Distinct}
use orbix_hub.Expenses.Bin.{is_paid}
use orbix_hub.Expenses.Payment.{number_of}
use orbix_hub.Expenses.Edit.{insert_by_number, sort_by_number, abertas_of, comprometido_of}
use orbix_hub.Expenses.Edit.Rows.{amounts_of, Stored}

amounts-insert :
    (p : Expense) (ps : List Expense)
    → amounts_of (insert_by_number p ps) ≡ p.amount + amounts_of ps
unfolding insert_by_number
amounts-insert p [] = refl
amounts-insert p (q ∷ qs) = ground (arith, amounts-insert p qs)

amounts-sort : (ps : List Expense) → amounts_of (sort_by_number ps) ≡ amounts_of ps
unfolding sort_by_number
amounts-sort [] = refl
amounts-sort (p ∷ ps) = omega (arith, amounts-sort ps, amounts-insert p (sort_by_number ps))

any-insert :
    (q : Expense → Bool) (p : Expense) (ps : List Expense)
    → any q (insert_by_number p ps) ≡ (q p || any q ps)
unfolding insert_by_number
any-insert q p [] = refl
any-insert q p (r ∷ rs) = ground (arith, any-insert q p rs)

any-sort : (q : Expense → Bool) (ps : List Expense) → any q (sort_by_number ps) ≡ any q ps
unfolding sort_by_number
any-sort q [] = refl
any-sort q (p ∷ ps) = any-insert q p (sort_by_number ps) ∙ ap (λ b. q p || b) (any-sort q ps)

same_ids : (a b : ℕ) → (a == b) ≡ false → (b == a) ≡ false
same_ids a b h = ground arith

insert-Distinct :
    (p : Expense) (ps : List Expense)
    → any (expense_has_id p.id) ps ≡ false
    → Distinct ps
    → Distinct (insert_by_number p ps)
unfolding insert_by_number
insert-Distinct p [] n d = (refl, tt)
insert-Distinct p (q ∷ qs) n (d, ds) = elim (Bool-cases (leb (number_of p) (number_of q))) [
  | inl first ↦ rw first (n, (d, ds))
  | inr later ↦ elim (Bool-cases (q.id == p.id)) [
    | inl own ↦ let clash : true ≡ false = rw own at n in cc
    | inr other ↦
        let rest : any (expense_has_id p.id) qs ≡ false = rw other at n in
        let apart : any (expense_has_id q.id) (insert_by_number p qs) ≡ false =
          rw (any-insert (expense_has_id q.id) p qs, same_ids q.id p.id other) d in
        rw later (apart, insert-Distinct p qs rest ds)
  ]
]

sort-Distinct : (ps : List Expense) → Distinct ps → Distinct (sort_by_number ps)
unfolding sort_by_number
sort-Distinct [] d = tt
sort-Distinct (p ∷ ps) (d, ds) =
    insert-Distinct p (sort_by_number ps) (any-sort (expense_has_id p.id) ps ∙ d)
      (sort-Distinct ps ds)

module _ (P : Expense → Type 0) where
  insert-All : (p : Expense) (ps : List Expense) → P p → All P ps → All P (insert_by_number p ps)
  unfolding insert_by_number
  insert-All p [] k h = (k, tt)
  insert-All p (q ∷ qs) k (h, hs) = elim (Bool-cases (leb (number_of p) (number_of q))) [
    | inl first ↦ rw first (k, (h, hs))
    | inr later ↦ rw later (h, insert-All p qs k hs)
  ]

  sort-All : (ps : List Expense) → All P ps → All P (sort_by_number ps)
  unfolding sort_by_number
  sort-All [] h = tt
  sort-All (p ∷ ps) (h, hs) = insert-All p (sort_by_number ps) h (sort-All ps hs)

  keep-All : (q : Expense → Bool) (ps : List Expense) → All P ps → All P (keep q ps)
  keep-All q [] h = tt
  keep-All q (p ∷ ps) (h, hs) = elim (Bool-cases (q p)) [
    | inl k ↦ rw k (h, keep-All q ps hs)
    | inr k ↦ rw k (keep-All q ps hs)
  ]

any-keep-false :
    (r q : Expense → Bool) (ps : List Expense) → any r ps ≡ false → any r (keep q ps) ≡ false
any-keep-false r q [] h = refl
any-keep-false r q (p ∷ ps) h = ground (arith, any-keep-false r q ps)

keep-Distinct : (q : Expense → Bool) (ps : List Expense) → Distinct ps → Distinct (keep q ps)
keep-Distinct q [] d = tt
keep-Distinct q (p ∷ ps) (d, ds) = elim (Bool-cases (q p)) [
  | inl k ↦ rw k (any-keep-false (expense_has_id p.id) q ps d, keep-Distinct q ps ds)
  | inr k ↦ rw k (keep-Distinct q ps ds)
]

-- The rows of a table that a test selects are in it.
further :
    (q : Expense → Bool) (x : Expense) (es ps : List Expense)
    → any (expense_has_id x.id) ps ≡ false
    → Stored q es ps
    → Stored q (x ∷ es) ps
further q x es [] n s = tt
further q x es (p ∷ ps) n (s, ss) = elim (Bool-cases (p.id == x.id)) [
  | inl own ↦ let clash : true ≡ false = rw own at n in cc
  | inr other ↦
      let apart = same_ids p.id x.id other in
      ((rw apart s.0, s.1), further q x es ps (rw other at n) ss)
]

kept-Stored : (q : Expense → Bool) (es : List Expense) → Distinct es → Stored q es (keep q es)
kept-Stored q [] d = tt
kept-Stored q (e ∷ es) (d, ds) =
    let rest =
      further q e es (keep q es) (any-keep-false (expense_has_id e.id) q es d)
        (kept-Stored q es ds) in
    elim (Bool-cases (q e)) [ inl k ↦ rw k ((rw (==_refl e.id) refl, k), rest) | inr k ↦ rw k rest ]

split_paid :
    (es : List Expense)
    → comprometido_of es + amounts_of (keep (λ p. not (is_paid p)) es) ≡ amounts_of es
unfolding comprometido_of
split_paid [] = refl
split_paid (e ∷ es) = ground (arith, split_paid es)

any-own :
    (r : Expense → Bool) (id : ℕ) (es : List Expense) (a : Expense)
    → find (expense_has_id id) es ≡ some a
    → r a ≡ true
    → any (expense_has_id id) (keep r es) ≡ true
any-own r id [] a f h = cc
any-own r id (e ∷ es) a f h = elim (Bool-cases (e.id == id)) [
  | inl own ↦
      let same : e ≡ a = let g : some e ≡ some a = rw own at f in cc in
      let chosen : r e ≡ true = ap r same ∙ h in rw chosen (rw own refl)
  | inr other ↦
      let g : find (expense_has_id id) es ≡ some a = rw other at f in
      let rest = any-own r id es a g h in
      elim (Bool-cases (r e)) [ inl k ↦ rw k (rw other rest) | inr k ↦ rw k rest ]
]

pub abertas_total :
    (es : List Expense) → comprometido_of es + amounts_of (abertas_of es) ≡ amounts_of es
unfolding abertas_of
abertas_total es = omega (arith, split_paid es, amounts-sort (keep (λ p. not (is_paid p)) es))

module _ (q : Expense → Bool) (es : List Expense) where
  pub abertas-Stored : Distinct es → Stored q es (abertas_of (keep q es))
  unfolding abertas_of
  abertas-Stored d =
      sort-All (λ p. (find (expense_has_id p.id) es ≡ some p) × (q p ≡ true)) _
        (keep-All (λ p. (find (expense_has_id p.id) es ≡ some p) × (q p ≡ true))
          (λ p. not (is_paid p)) _ (kept-Stored q es d))

  pub abertas-Distinct : Distinct es → Distinct (abertas_of (keep q es))
  unfolding abertas_of
  abertas-Distinct d =
      sort-Distinct _ (keep-Distinct (λ p. not (is_paid p)) _ (keep-Distinct q es d))

keep-keep :
    (r q : Expense → Bool) (es : List Expense) → keep r (keep q es) ≡ keep (λ e. q e && r e) es
keep-keep r q [] = refl
keep-keep r q (e ∷ es) = ground (arith, keep-keep r q es)

pub any-abertas :
    (q : Expense → Bool) (id : ℕ) (es : List Expense) (a : Expense)
    → find (expense_has_id id) es ≡ some a
    → q a ≡ true
    → is_paid a ≡ false
    → any (expense_has_id id) (abertas_of (keep q es)) ≡ true
unfolding abertas_of
any-abertas q id es a f own unpaid =
    any-sort (expense_has_id id) _
    ∙ ap (any (expense_has_id id)) (keep-keep (λ p. not (is_paid p)) q es)
    ∙ any-own (λ e. q e && not (is_paid e)) id es a f (ground arith)
