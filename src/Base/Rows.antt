-- ===== src/Base/Rows.antt =====
-- Tables whose rows have a key: what a lookup finds after a write.
use orbix_hub.Base.Lists.{find, any, update_first}
use orbix_hub.Base.Tests.{◌==◌, ==_iff, Bool-cases, or_default, if◌then◌else◌}
use Prim.Native.Nat.{ℕ}
use mathlib.Core.Path.{◌≡◌, refl, ap, sym, ◌∙◌}
use mathlib.Core.Logic.{inl, inr}
use mathlib.Core.Bool.{false}
use mathlib.Core.Option.{Option, none, some}
use mathlib.Core.List.{List, [], ◌∷◌, ◌++◌}
use native.Mathlib.Omega.{arith}

module _ {ℓ} {A : Type ℓ} where
  abbrev pub map_found : (A → A) → Option A → Option A
  map_found f none = none
  map_found f (some a) = some (f a)

  module _ (key : A → ℕ) where
    pub find-update_first :
        (x id : ℕ) (f : A → A) (rows : List A)
        → ((a : A) → key (f a) ≡ key a)
        → find (λ a. key a == x) (update_first (λ a. key a == id) f rows) ≡ (
            if id == x
            then map_found f (find (λ a. key a == x) rows)
            else find (λ a. key a == x) rows)
    find-update_first x id f [] k = ground arith
    find-update_first x id f (r ∷ rows) k = ground (arith, find-update_first x id f rows k, k r)

    pub find-append_one :
        (x : ℕ) (r : A) (rows : List A)
        → any (λ a. key a == key r) rows ≡ false
        → find (λ a. key a == x) (rows ++ (r ∷ []))
          ≡ (if key r == x then some r else find (λ a. key a == x) rows)
    find-append_one x r [] h = ground arith
    find-append_one x r (s ∷ rows) h = ground (arith, find-append_one x r rows)

    pub find_holds :
        (x : ℕ) (r : A) (rows : List A) → find (λ a. key a == x) rows ≡ some r → key r ≡ x
    find_holds x r [] h = ground (arith, h)
    find_holds x r (s ∷ rows) h = elim (Bool-cases (key s == x)) [
      | inl own ↦
          let found : some s ≡ some r = rw own at h in
          let same : s ≡ r = ap (λ o. or_default o s) found in
          sym (ap key same) ∙ (==_iff (key s) x).0 own
      | inr other ↦ find_holds x r rows (rw other at h)
    ]

    pub find-none :
        (x : ℕ) (rows : List A)
        → any (λ a. key a == x) rows ≡ false
        → find (λ a. key a == x) rows ≡ none
    find-none x [] h = refl
    find-none x (r ∷ rows) h = ground (arith, find-none x rows)
