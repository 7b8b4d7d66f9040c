-- ===== src/Expenses/Payment/Order.antt =====
-- Which instalment comes next: `parcelaAnteriorEmAberto` of back/src/modules/expenses/expenses.service.ts.
use orbix_hub.Base.{
  ℕ, ◌<◌, ◌≡◌, refl, true, false, ◌&&◌, Bool-cases, inl, inr, Option, none, some, is_some, List, [],
  ◌∷◌, All, keep, arith,
}
use orbix_hub.Expenses.Store.{
  Expense, ExpenseStatus, active, canceled, is_active, Books, in_active_group,
  list_installment_group,
}
use orbix_hub.Expenses.Bin.{is_paid}
use orbix_hub.Expenses.Payment.{active_group, open_before, earliest, parcela_anterior}

-- An instalment of the purchase that is in use, not paid, and numbered before.
pub record OpenBefore (group numero : ℕ) (p : Expense) : Type 0 where
  pub same_group : p.installment_group_id ≡ some group
  pub in_use : p.status ≡ active
  pub open_ : p.paid_at ≡ none
  pub number : ℕ
  pub numbered : p.installment_no ≡ some number
  pub before : number < numero

-- By the group and the number of the expense, if it is an instalment.
abbrev pub NoneBefore : (group numero : Option ℕ) → List Expense → Type 0
NoneBefore none numero es = Unit
NoneBefore (some g) none es = Unit
NoneBefore (some g) (some n) es = All (λ p. OpenBefore g n p → ⊥) es

is_open_before :
    (g n : ℕ) (p : Expense) → OpenBefore g n p → (in_active_group g p && open_before n p) ≡ true
is_open_before g n p o = rw (o.same_group, o.in_use, o.open_, o.numbered) (ground (arith, o.before))

none_open :
    (g n : ℕ) (es : List Expense)
    → is_some (earliest (keep (open_before n) (keep (in_active_group g) es))) ≡ false
    → All (λ p. OpenBefore g n p → ⊥) es
unfolding earliest
none_open g n [] h = tt
none_open g n (e ∷ es) h = elim (Bool-cases (in_active_group g e)) [
  | inr out ↦ (λ o. ground (arith, out, is_open_before g n e o), none_open g n es (rw out at h))
  | inl within_group ↦ elim (Bool-cases (open_before n e)) [
    | inl before ↦ absurd (let none_there : true ≡ false = (rw (within_group, before) at h) in cc)
    | inr after ↦ (
      λ o. ground (arith, after, is_open_before g n e o),
      none_open g n es (rw (within_group, after) at h),
    )
  ]
]

pub next_in_order :
    (atual : Expense) (db : Books)
    → is_some (parcela_anterior atual (active_group atual db)) ≡ false
    → NoneBefore atual.installment_group_id atual.installment_no db.expenses
unfolding parcela_anterior active_group list_installment_group
next_in_order atual db h = by_number atual.installment_group_id atual.installment_no refl refl
  where
    by_number :
        (group numero : Option ℕ)
        → atual.installment_group_id ≡ group
        → atual.installment_no ≡ numero
        → NoneBefore group numero db.expenses
    by_number none numero e f = tt
    by_number (some g) none e f = tt
    by_number (some g) (some n) e f = none_open g n db.expenses (rw (e, f) at h)

pub in_use_of : (s : ExpenseStatus) → is_active s ≡ true → s ≡ active
in_use_of active h = refl
in_use_of canceled h = cc

pub unpaid_of : (e : Expense) → is_paid e ≡ false → e.paid_at ≡ none
unpaid_of e h = ground arith
