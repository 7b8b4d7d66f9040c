-- ===== src/Expenses/Purchase.antt =====
-- What the bin of back/src/modules/expenses/expenses.service.ts does to a purchase as a whole, although it
-- works on the ids of its rows.
use orbix_hub.Base.{
  ℕ, ◌≡◌, refl, ap, sym, ◌∙◌, ◌==◌, ==_refl, ==_iff, Bool, false, not, Bool-cases, inl, inr, Option,
  none, some, List, [], ◌∷◌, find, any, keep, All, map, if◌then◌else◌, arith,
}
use orbix_hub.Expenses.Store.{
  Expense, ExpenseStatus, expense_has_id, in_installment_group, is_in, with_status, set_status_many,
  delete_many,
}
use orbix_hub.Expenses.Bin.{irmas_of, one_or_none, ids_of}

-- The primary key.
abbrev pub Distinct : List Expense → Type 0
Distinct [] = Unit
Distinct (e ∷ es) = (any (expense_has_id e.id) es ≡ false) × Distinct es

-- The rows of a purchase: those of the group, or the one with the id.
abbrev pub of_purchase : (id : ℕ) (group : Option ℕ) → Expense → Bool
of_purchase id none = expense_has_id id
of_purchase id (some group) = in_installment_group group

-- With nothing behind the id, nothing is kept.
keep-none : (p : Expense → Bool) (es : List Expense) → any p es ≡ false → keep p es ≡ []
keep-none p [] h = refl
keep-none p (e ∷ es) h = ground (arith, keep-none p es)

keep-one :
    (id : ℕ) (es : List Expense)
    → Distinct es
    → one_or_none (find (expense_has_id id) es) ≡ keep (expense_has_id id) es
keep-one id [] d = refl
keep-one id (e ∷ es) (d, ds) = elim (Bool-cases (e.id == id)) [
  | inl own ↦
      let alone : any (expense_has_id id) es ≡ false =
        ap (λ n. any (expense_has_id n) es) (sym ((==_iff e.id id).0 own)) ∙ d in
      rw (own, keep-none (expense_has_id id) es alone) refl
  | inr other ↦ rw other (keep-one id es ds)
]

pub irmas_of-keep :
    (id : ℕ) (group : Option ℕ) (es : List Expense)
    → Distinct es
    → irmas_of id group es ≡ keep (of_purchase id group) es
unfolding irmas_of
irmas_of-keep id none es d = keep-one id es d
irmas_of-keep id (some group) es d = refl

-- An id that no row has is not among the ids of some of them.
unknown_id :
    (p : Expense → Bool) (id : ℕ) (es : List Expense)
    → any (expense_has_id id) es ≡ false
    → is_in (ids_of (keep p es)) id ≡ false
unknown_id p id [] h = refl
unknown_id p id (e ∷ es) h = ground (arith, unknown_id p id es)

not_first :
    (id : ℕ) (es : List Expense)
    → any (expense_has_id id) es ≡ false
    → All (λ e. (id == e.id) ≡ false) es
not_first id [] h = tt
not_first id (e ∷ es) h = (ground arith, not_first id es (ground arith))

-- To be among the ids of the selected rows is to be selected.
abbrev pub Selects : (Expense → Bool) → List Expense → List Expense → Type 0
Selects p es among = All (λ e. is_in (ids_of (keep p es)) e.id ≡ p e) among

further :
    (p : Expense → Bool) (x : Expense) (es among : List Expense)
    → All (λ e. (x.id == e.id) ≡ false) among
    → Selects p es among
    → Selects p (x ∷ es) among
further p x es [] n s = tt
further p x es (e ∷ among) (n, ns) (s, ss) = (
  elim (Bool-cases (p x)) [ inl own ↦ rw (own, n) s | inr other ↦ rw other s ],
  further p x es among ns ss,
)

pub ids-Selects : (p : Expense → Bool) (es : List Expense) → Distinct es → Selects p es es
ids-Selects p [] d = tt
ids-Selects p (x ∷ es) (d, ds) = (
  elim (Bool-cases (p x)) [
    | inl own ↦ rw (own, ==_refl x.id) refl
    | inr other ↦ rw other (unknown_id p x.id es d)
  ],
  further p x es es (not_first x.id es d) (ids-Selects p es ds),
)

abbrev pub marked : (Expense → Bool) → ExpenseStatus → List Expense → List Expense
marked p status es = map (λ e. if p e then with_status status e else e) es

pub marked-ids :
    (p : Expense → Bool) (ids : List ℕ) (status : ExpenseStatus) (es : List Expense)
    → All (λ e. is_in ids e.id ≡ p e) es
    → set_status_many ids status es ≡ marked p status es
unfolding set_status_many
marked-ids p ids status [] h = refl
marked-ids p ids status (e ∷ es) (h, hs) = rw (h, marked-ids p ids status es hs) refl

pub deleted-ids :
    (p : Expense → Bool) (ids : List ℕ) (es : List Expense)
    → All (λ e. is_in ids e.id ≡ p e) es
    → delete_many ids es ≡ keep (λ e. not (p e)) es
unfolding delete_many
deleted-ids p ids [] h = refl
deleted-ids p ids (e ∷ es) (h, hs) = elim (Bool-cases (p e)) [
  | inl own ↦ rw (h, own) (deleted-ids p ids es hs)
  | inr other ↦ rw (h, other) (ap (λ r. e ∷ r) (deleted-ids p ids es hs))
]
