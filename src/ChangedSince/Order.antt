-- ===== src/ChangedSince/Order.antt =====
-- The order of the rows of back/src/common/database/changed-since.ts: by moment, then by id.
use orbix_hub.Base.{
  ℕ, zero, suc, ◌≡◌, refl, ap, ◌==◌, Bool, true, false, Bool-cases, inl, inr, Option, none, some,
  List, [], ◌∷◌, take, drop, keep, All, if◌then◌else◌, arith,
}
use orbix_hub.ChangedSince.{ChangeCursor, later, past, insert_by_stamp, order_by_stamp, last_stamp}

pub later_trans : (a b c : ChangeCursor) → later a b ≡ true → later b c ≡ true → later a c ≡ true
later_trans a b c h k = ground arith

later_asym : (a b : ChangeCursor) → later a b ≡ true → later b a ≡ false
later_asym a b h = ground arith

later_irrefl : (a : ChangeCursor) → later a a ≡ false
later_irrefl a = ground arith

-- Two rows with different ids are one after the other.
later_total : (a b : ChangeCursor) → (b.id == a.id) ≡ false → later a b ≡ false → later b a ≡ true
later_total a b h k = ground arith

-- What is not after a stamp past a cursor, is past it too.
later_up : (a b c : ChangeCursor) → later a b ≡ false → later a c ≡ true → later b c ≡ true
later_up a b c h k = ground arith

module _ {A : Type 0} (stamp : A → ChangeCursor) where
  abbrev pub Distinct : List A → Type 0
  Distinct [] = Unit
  Distinct (r ∷ rs) = All (λ s. ((stamp s).id == (stamp r).id) ≡ false) rs × Distinct rs

  -- Each row is later than those before it.
  abbrev pub Ascending : List A → Type 0
  Ascending [] = Unit
  Ascending (r ∷ rs) = All (λ s. later (stamp s) (stamp r) ≡ true) rs × Ascending rs

  module _ (P : A → Type 0) where
    insert-All : (x : A) (rs : List A) → P x → All P rs → All P (insert_by_stamp stamp x rs)
    unfolding insert_by_stamp
    insert-All x [] p h = (p, tt)
    insert-All x (r ∷ rs) p (h, hs) = elim (Bool-cases (later (stamp x) (stamp r))) [
      | inl after ↦ rw after (h, insert-All x rs p hs)
      | inr before ↦ rw before (p, (h, hs))
    ]

    order-All : (rs : List A) → All P rs → All P (order_by_stamp stamp rs)
    unfolding order_by_stamp
    order-All [] h = tt
    order-All (r ∷ rs) (h, hs) = insert-All r (order_by_stamp stamp rs) h (order-All rs hs)

    keep-All : (q : A → Bool) (rs : List A) → All P rs → All P (keep q rs)
    keep-All q [] h = tt
    keep-All q (r ∷ rs) (h, hs) = elim (Bool-cases (q r)) [
      | inl k ↦ rw k (h, keep-All q rs hs)
      | inr k ↦ rw k (keep-All q rs hs)
    ]

    -- The last of some first rows has what all of them have.
    pub last_of :
        (r : A) (rs : List A) (k : ℕ) (Q : ChangeCursor → Type 0)
        → ((s : A) → P s → Q (stamp s))
        → All P (r ∷ rs)
        → Q (last_stamp stamp r (take k rs))
    last_of r rs zero Q f (h, hs) = f r h
    last_of r [] (suc k) Q f (h, hs) = f r h
    last_of r (s ∷ ss) (suc k) Q f (h, hs) = last_of s ss k Q f hs

  All-imp : (P Q : A → Type 0) → ((s : A) → P s → Q s) → (rs : List A) → All P rs → All Q rs
  All-imp P Q f [] h = tt
  All-imp P Q f (r ∷ rs) (h, hs) = (f r h, All-imp P Q f rs hs)

  pub keep-Distinct : (q : A → Bool) (rs : List A) → Distinct rs → Distinct (keep q rs)
  keep-Distinct q [] d = tt
  keep-Distinct q (r ∷ rs) (d, ds) = elim (Bool-cases (q r)) [
    | inl k ↦ rw k (keep-All _ q rs d, keep-Distinct q rs ds)
    | inr k ↦ rw k (keep-Distinct q rs ds)
  ]

  insert-Ascending :
      (x : A) (rs : List A)
      → All (λ s. ((stamp s).id == (stamp x).id) ≡ false) rs
      → Ascending rs
      → Ascending (insert_by_stamp stamp x rs)
  unfolding insert_by_stamp
  insert-Ascending x [] d h = (tt, tt)
  insert-Ascending x (r ∷ rs) (d, ds) (h, hs) = elim (Bool-cases (later (stamp x) (stamp r))) [
    | inl after ↦ rw after (insert-All _ x rs after h, insert-Ascending x rs ds hs)
    | inr before ↦
        let next = later_total (stamp x) (stamp r) d before in
        rw before (
          (next, All-imp _ _ (λ s k. later_trans (stamp s) (stamp r) (stamp x) k next) rs h),
          (h, hs),
        )
  ]

  pub order-Ascending : (rs : List A) → Distinct rs → Ascending (order_by_stamp stamp rs)
  unfolding order_by_stamp
  order-Ascending [] d = tt
  order-Ascending (r ∷ rs) (d, ds) =
      insert-Ascending r (order_by_stamp stamp rs) (order-All _ rs d) (order-Ascending rs ds)

  past-up :
      (c : Option ChangeCursor) (x r : A)
      → later (stamp x) (stamp r) ≡ false
      → past stamp c x ≡ true
      → past stamp c r ≡ true
  past-up none x r h k = refl
  past-up (some c) x r h k = later_up (stamp x) (stamp r) c h k

  keep-insert :
      (c : Option ChangeCursor) (x : A) (rs : List A)
      → keep (past stamp c) (insert_by_stamp stamp x rs) ≡ (
          if past stamp c x
          then insert_by_stamp stamp x (keep (past stamp c) rs)
          else keep (past stamp c) rs)
  unfolding insert_by_stamp
  keep-insert c x [] = refl
  keep-insert c x (r ∷ rs) =
      let rest = keep-insert c x rs in
      elim (Bool-cases (later (stamp x) (stamp r))) [
        | inl after ↦ elim (Bool-cases (past stamp c r)) [
          | inl k ↦ elim (Bool-cases (past stamp c x)) [
            | inl j ↦ rw (after, k, j, after, rest, j) refl
            | inr j ↦ rw (after, k, j, rest, j) refl
          ]
          | inr k ↦ rw (after, k, rest) refl
        ]
        | inr before ↦ elim (Bool-cases (past stamp c x)) [
          | inl j ↦ rw (before, j, past-up c x r before j, before) refl
          | inr j ↦ rw (before, j) refl
        ]
      ]

  -- To select and to order, in either order, is the same.
  pub keep-order :
      (c : Option ChangeCursor) (rs : List A)
      → keep (past stamp c) (order_by_stamp stamp rs)
        ≡ order_by_stamp stamp (keep (past stamp c) rs)
  unfolding order_by_stamp
  keep-order c [] = refl
  keep-order c (r ∷ rs) = elim (Bool-cases (past stamp c r)) [
    | inl k ↦ rw (keep-insert c r (order_by_stamp stamp rs), k, keep-order c rs) refl
    | inr k ↦ rw (keep-insert c r (order_by_stamp stamp rs), k) (keep-order c rs)
  ]

  pub order-past :
      (c : Option ChangeCursor) (rs : List A)
      → All (λ r. past stamp c r ≡ true) (order_by_stamp stamp (keep (past stamp c) rs))
  order-past c rs = order-All _ _ (kept rs)
    where
      kept : (ss : List A) → All (λ r. past stamp c r ≡ true) (keep (past stamp c) ss)
      kept [] = tt
      kept (s ∷ ss) = elim (Bool-cases (past stamp c s)) [
        | inl k ↦ rw k (k, kept ss)
        | inr k ↦ rw k (kept ss)
      ]

  keep_all : (q : A → Bool) (rs : List A) → All (λ r. q r ≡ true) rs → keep q rs ≡ rs
  keep_all q [] h = refl
  keep_all q (r ∷ rs) (h, hs) = rw h (ap (◌∷◌ r) (keep_all q rs hs))

  -- Past the last of the first rows are the others.
  pub keep-drop :
      (r : A) (rs : List A) (k : ℕ)
      → Ascending (r ∷ rs)
      → keep (past stamp (some (last_stamp stamp r (take k rs)))) (r ∷ rs) ≡ drop k rs
  keep-drop r rs zero (h, hs) = rw (later_irrefl (stamp r)) (keep_all _ rs h)
  keep-drop r [] (suc k) (h, hs) = rw (later_irrefl (stamp r)) refl
  keep-drop r (s ∷ ss) (suc k) (h, hs) =
      let c = last_stamp stamp s (take k ss) in
      let over : later c (stamp r) ≡ true =
        last_of _ s ss k (λ d. later d (stamp r) ≡ true) (λ t j. j) h in
      rw (later_asym c (stamp r) over) (keep-drop s ss k hs)
