-- ===== src/Expenses/Edit/Rows.antt =====
-- What the writes of a redistribution do to a group's total: the loop of `redistribuirParcelamento` of
-- back/src/modules/expenses/expenses.service.ts.
use orbix_hub.Base.{
  ℕ, ◌+◌, ◌≡◌, refl, ap, sym, ◌∙◌, ◌==◌, ==_iff, Bool, true, false, Bool-cases, inl, inr, some,
  List, [], ◌∷◌, length, find, any, keep, All, sum_by, arith,
}
use orbix_hub.Base.Rows.{find-update_first}
use orbix_hub.Expenses.Store.{Expense, expense_has_id, update}
use orbix_hub.Expenses.Purchase.{Distinct}
use orbix_hub.Expenses.Edit.{with_amount, write_values}

-- What the selected rows add up to.
abbrev pub total_of : (Expense → Bool) → List Expense → ℕ
total_of q es = sum_by (λ e. e.amount) (keep q es)

abbrev pub amounts_of : List Expense → ℕ
amounts_of es = sum_by (λ e. e.amount) es

-- A row is written: the total loses its amount and takes the new one.
pub total-update :
    (q : Expense → Bool) (f : Expense → Expense) (id : ℕ) (es : List Expense) (a : Expense)
    → find (expense_has_id id) es ≡ some a
    → q a ≡ true
    → q (f a) ≡ true
    → total_of q (update id f es) + a.amount ≡ total_of q es + (f a).amount
unfolding update
total-update q f id [] a h s t = cc
total-update q f id (e ∷ es) a h s t = elim (Bool-cases (e.id == id)) [
  | inl own ↦
      let same : e ≡ a = let g : some e ≡ some a = rw own at h in cc in
      rw (own, same, s, t) (omega arith)
  | inr other ↦
      let g : find (expense_has_id id) es ≡ some a = rw other at h in
      let rest = total-update q f id es a g s t in
      elim (Bool-cases (q e)) [
        | inl k ↦ rw (other, k) (omega (arith, rest))
        | inr k ↦ rw (other, k) rest
      ]
]

-- Another row is written.
pub find-update :
    (v id other : ℕ) (es : List Expense)
    → (id == other) ≡ false
    → find (expense_has_id other) (update id (with_amount v) es) ≡ find (expense_has_id other) es
unfolding update
find-update v id other es h =
    find-update_first (λ (e : Expense). e.id) other id (with_amount v) es (λ e. refl) ∙ rw h refl

-- Each of the rows is in the table, selected.
abbrev pub Stored : (Expense → Bool) → List Expense → List Expense → Type 0
Stored q es ps = All (λ p. (find (expense_has_id p.id) es ≡ some p) × (q p ≡ true)) ps

swap_false : (a b : ℕ) → (a == b) ≡ false → (b == a) ≡ false
swap_false a b h = ground arith

Stored-update :
    (q : Expense → Bool) (v id : ℕ) (es ps : List Expense)
    → any (expense_has_id id) ps ≡ false
    → Stored q es ps
    → Stored q (update id (with_amount v) es) ps
Stored-update q v id es [] n s = tt
Stored-update q v id es (p ∷ ps) n (s, ss) = elim (Bool-cases (p.id == id)) [
  | inl own ↦ let clash : true ≡ false = rw own at n in cc
  | inr other ↦ (
    (find-update v id p.id es (swap_false p.id id other) ∙ s.0, s.1),
    Stored-update q v id es ps (rw other at n) ss,
  )
]

-- The amounts do not decide who is in the group.
abbrev pub Blind : (Expense → Bool) → Type 0
Blind q = (e : Expense) (v : ℕ) → q (with_amount v e) ≡ q e

module _ (q : Expense → Bool) (blind : Blind q) (id : ℕ) where
  -- Without the own row among those to write.
  total-others :
      (ps : List Expense) (vs : List ℕ) (meu : ℕ) (es : List Expense)
      → length ps ≡ length vs
      → any (expense_has_id id) ps ≡ false
      → Distinct ps
      → Stored q es ps
      → ((write_values id ps vs (meu, es)).0 ≡ meu)
        × (find (expense_has_id id) (write_values id ps vs (meu, es)).1
            ≡ find (expense_has_id id) es)
        × (total_of q (write_values id ps vs (meu, es)).1 + amounts_of ps
            ≡ total_of q es + sum_by (λ v. v) vs)
  unfolding write_values
  total-others [] [] meu es l n d s = (refl, refl, refl)
  total-others [] (v ∷ vs) meu es l n d s = let clash : ⊥ = omega (arith, l) in cc
  total-others (p ∷ ps) [] meu es l n d s = let clash : ⊥ = omega (arith, l) in cc
  total-others (p ∷ ps) (v ∷ vs) meu es l n (d, ds) (s, ss) = elim (Bool-cases (p.id == id)) [
    | inl own ↦ let clash : true ≡ false = rw own at n in cc
    | inr other ↦
        let wrote = total-update q (with_amount v) p.id es p s.0 s.1 (blind p v ∙ s.1) in
        let after = update p.id (with_amount v) es in
        let rest =
          total-others ps vs meu after (omega (arith, l)) (rw other at n) ds
            (Stored-update q v p.id es ps d ss) in
        rw (write_values, other)
          (rest.0, rest.1 ∙ find-update v p.id id es other, omega (arith, rest.2, wrote))
  ]

  -- With it: its value waits for the last write.
  pub total-all :
      (ps : List Expense) (vs : List ℕ) (meu : ℕ) (es : List Expense) (a : Expense)
      → length ps ≡ length vs
      → any (expense_has_id id) ps ≡ true
      → find (expense_has_id id) es ≡ some a
      → Distinct ps
      → Stored q es ps
      → (find (expense_has_id id) (write_values id ps vs (meu, es)).1 ≡ some a)
        × (total_of q (write_values id ps vs (meu, es)).1
              + amounts_of ps
              + (write_values id ps vs (meu, es)).0
            ≡ total_of q es + sum_by (λ v. v) vs + a.amount)
  unfolding write_values
  total-all [] vs meu es a l n f d s = cc
  total-all (p ∷ ps) [] meu es a l n f d s = let clash : ⊥ = omega (arith, l) in cc
  total-all (p ∷ ps) (v ∷ vs) meu es a l n f (d, ds) (s, ss) = elim (Bool-cases (p.id == id)) [
    | inl own ↦
        let same_id = (==_iff p.id id).0 own in
        let alone : any (expense_has_id id) ps ≡ false =
          ap (λ n. any (expense_has_id n) ps) (sym same_id) ∙ d in
        let same : some p ≡ some a = sym s.0 ∙ ap (λ n. find (expense_has_id n) es) same_id ∙ f in
        let row : p ≡ a = cc in
        let value = ap (λ (e : Expense). e.amount) row in
        let rest = total-others ps vs v es (omega (arith, l)) alone ds ss in
        rw (write_values, own) (rest.1 ∙ f, omega (arith, rest.0, rest.2, value))
    | inr other ↦
        let wrote = total-update q (with_amount v) p.id es p s.0 s.1 (blind p v ∙ s.1) in
        let after = update p.id (with_amount v) es in
        let rest =
          total-all ps vs meu after a (omega (arith, l)) (rw other at n)
            (find-update v p.id id es other ∙ f) ds (Stored-update q v p.id es ps d ss) in
        rw (write_values, other) (rest.0, omega (arith, rest.1, wrote))
  ]
