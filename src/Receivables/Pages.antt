-- ===== src/Receivables/Pages.antt =====
-- `paginar` of back/src/modules/receivables/receivables.filtro.ts: the pages in order are the list.
use orbix_hub.Base.{
  ℕ, zero, suc, ◌+◌, ◌-◌, ◌*◌, ◌≤◌, ◌≡◌, refl, sym, ap, ◌∙◌, List, [], ◌∷◌, ◌++◌, length, take,
  drop, max, arith,
}
use orbix_hub.Receivables.{paginar}

module _ {ℓ} {A : Type ℓ} where
  take_nil : (n : ℕ) → take {A = A} n [] ≡ []
  take_nil zero = refl
  take_nil (suc n) = refl

  take-add : (a b : ℕ) (xs : List A) → take (a + b) xs ≡ take a xs ++ take b (drop a xs)
  take-add zero b xs = ap (λ n. take n xs) (omega arith)
  take-add (suc a) b [] = take_nil (suc a + b) ∙ sym (take_nil b)
  take-add (suc a) b (x ∷ xs) =
      let more : suc a + b ≡ suc (a + b) = omega arith in
      ap (λ n. take n (x ∷ xs)) more ∙ ap (◌∷◌ x) (take-add a b xs)

  take_all : (n : ℕ) (xs : List A) → length xs ≤ n → take n xs ≡ xs
  take_all zero [] h = refl
  take_all (suc n) [] h = refl
  take_all zero (x ∷ xs) h = absurd (omega (arith, h))
  take_all (suc n) (x ∷ xs) h = ap (◌∷◌ x) (take_all n xs (omega (arith, h)))

  -- The first `k` pages, one after the other.
  abbrev pub pages : List A → (k page_size : ℕ) → List A
  unfolding paginar
  pages xs zero size = []
  pages xs (suc k) size = pages xs k size ++ (paginar xs (suc k) size).0

  pages-take : (xs : List A) (k size : ℕ) → pages xs k size ≡ take (k * size) xs
  unfolding paginar
  pages-take xs zero size =
      let none_yet : 0 ≡ 0 * size = omega arith in ap (λ n. take n xs) none_yet
  pages-take xs (suc k) size =
      let page : max 1 (suc k) - 1 ≡ k = omega arith in
      let start : (max 1 (suc k) - 1) * size ≡ k * size = ap (λ n. n * size) page in
      let more : k * size + size ≡ suc k * size = omega arith in
      rw (start, pages-take xs k size)
        (sym (take-add (k * size) size xs) ∙ ap (λ n. take n xs) more)

  -- Enough pages of any size, one after the other, are the list, with nothing missing or repeated, and
  -- every page tells the size of the whole.
  pub pages_lem :
      (xs : List A) (k size : ℕ)
      → length xs ≤ k * size
      → (pages xs k size ≡ xs) × ((paginar xs k size).1 ≡ length xs)
  unfolding paginar
  pages_lem xs k size h = (pages-take xs k size ∙ take_all (k * size) xs h, refl)
