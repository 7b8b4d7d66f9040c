-- ===== src/ChangedSince/Pages.antt =====
-- The page after a page, for back/src/common/database/changed-since.ts.
use orbix_hub.Base.{
  ℕ, zero, suc, ◌-◌, ◌≤◌, ◌≡◌, refl, sym, ap, subst, ◌∙◌, Bool, true, Bool-cases, inl, inr, Option,
  none, some, List, [], ◌∷◌, ◌++◌, length, take, drop, keep, All, pos, negsuc, arith,
}
use orbix_hub.ChangedSince.{
  ChangeCursor, past, later, order_by_stamp, changed_since, last_stamp, Limit, finite, not_finite,
  clamp_changed_since_limit,
}
use orbix_hub.ChangedSince.Order.{
  Distinct, Ascending, later_trans, keep-Distinct, order-Ascending, keep-order, order-past,
  keep-drop, last_of,
}

pub clamp_positive : (l : Limit) → 1 ≤ clamp_changed_since_limit l
unfolding clamp_changed_since_limit
clamp_positive not_finite = omega arith
clamp_positive (finite (pos n)) = ground arith
clamp_positive (finite (negsuc n)) = omega arith

module _ {A : Type 0} where
  pub take-drop : (k : ℕ) (xs : List A) → take k xs ++ drop k xs ≡ xs
  take-drop zero xs = refl
  take-drop (suc k) [] = refl
  take-drop (suc k) (x ∷ xs) = ap (◌∷◌ x) (take-drop k xs)

  pub length-drop : (k : ℕ) (xs : List A) → length (drop k xs) ≡ length xs - k
  length-drop zero xs = omega arith
  length-drop (suc k) [] = omega arith
  length-drop (suc k) (x ∷ xs) = omega (arith, length-drop k xs)

  -- A page that is not full is the last one.
  pub short-take : (k : ℕ) (xs : List A) → suc (length (take k xs)) ≤ k → take k xs ≡ xs
  short-take zero xs h = absurd (omega (arith, h))
  short-take (suc k) [] h = refl
  short-take (suc k) (x ∷ xs) h = ap (◌∷◌ x) (short-take k xs (omega (arith, h)))

module _ {A : Type 0} (stamp : A → ChangeCursor) where
  -- Where a device stands that took these rows.
  abbrev pub end_of : Option ChangeCursor → List A → Option ChangeCursor
  end_of c [] = c
  end_of c (r ∷ rs) = some (last_stamp stamp r rs)

  pub end-drop :
      (r : A) (rs : List A) (k : ℕ)
      → end_of (some (last_stamp stamp r (take k rs))) (drop k rs) ≡ some (last_stamp stamp r rs)
  end-drop r [] zero = refl
  end-drop r (s ∷ ss) zero = refl
  end-drop r [] (suc k) = refl
  end-drop r (s ∷ ss) (suc k) = end-drop s ss k

  keep-keep :
      (p q : A → Bool)
      → ((r : A) → p r ≡ true → q r ≡ true)
      → (rs : List A) → keep p (keep q rs) ≡ keep p rs
  keep-keep p q f [] = refl
  keep-keep p q f (r ∷ rs) = elim (Bool-cases (p r)) [
    | inl k ↦ rw (f r k, k) (ap (◌∷◌ r) (keep-keep p q f rs))
    | inr k ↦ elim (Bool-cases (q r)) [
      | inl j ↦ rw (j, k) (keep-keep p q f rs)
      | inr j ↦ rw (j, k) (keep-keep p q f rs)
    ]
  ]

  past_trans :
      (c : Option ChangeCursor) (d : ChangeCursor) (x r : A)
      → stamp x ≡ d
      → past stamp c x ≡ true
      → past stamp (some d) r ≡ true
      → past stamp c r ≡ true
  past_trans none d x r e h k = refl
  past_trans (some c) d x r e h k = later_trans (stamp r) d c k (ap (λ s. later s c) (sym e) ∙ h)

  abbrev After : Option ChangeCursor → ChangeCursor → Type 0
  After c d = (r : A) → past stamp (some d) r ≡ true → past stamp c r ≡ true

  -- What is past the last row of a page is the rest of what was past the cursor before.
  pub changed-next :
      (table : List A) (c : Option ChangeCursor) (r : A) (rs : List A) (k : ℕ)
      → Distinct stamp table
      → changed_since stamp c table ≡ r ∷ rs
      → changed_since stamp (some (last_stamp stamp r (take k rs))) table ≡ drop k rs
  unfolding changed_since
  changed-next table c r rs k distinct page =
      let d = last_stamp stamp r (take k rs) in
      let all_past : All (λ s. past stamp c s ≡ true) (r ∷ rs) =
        subst (All (λ s. past stamp c s ≡ true)) page (order-past stamp c table) in
      let further : After c d =
        last_of stamp (λ s. past stamp c s ≡ true) r rs k (After c)
          (λ s h t j. past_trans c (stamp s) s t refl h j) all_past in
      ap (order_by_stamp stamp) (sym (keep-keep (past stamp (some d)) (past stamp c) further table))
      ∙ sym (keep-order stamp (some d) (keep (past stamp c) table))
      ∙ ap (keep (past stamp (some d))) page
      ∙ keep-drop stamp r rs k (
          subst (Ascending stamp) page
            (order-Ascending stamp _ (keep-Distinct stamp (past stamp c) table distinct)))
