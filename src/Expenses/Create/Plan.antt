-- ===== src/Expenses/Create/Plan.antt =====
-- The rows of a purchase in instalments, before and after back/src/modules/expenses/expenses.service.ts inserts
-- them.
use orbix_hub.Base.{
  append_assoc, append_nil, ℕ, zero, suc, ◌+◌, ◌≡◌, refl, ap, sym, ◌∙◌, ◌==◌, ==_refl, Bool, true,
  false, Bool-cases, inl, inr, List, [], ◌∷◌, ◌++◌, length, any, keep, map, leb, arith,
}
use orbix_hub.Calendar.{Day}
use orbix_hub.Expenses.Store.{
  Expense, expense_has_id, in_installment_group, in_active_group, create_many,
}
use orbix_hub.Expenses.Payment.{number_of}
use orbix_hub.Expenses.Edit.{Fornecedor, insert_by_number, sort_by_number}
use orbix_hub.Expenses.Create.{CreateDto, linha, linhas_from, generate}

-- No id is taken, and none comes twice.
abbrev pub Free : List ℕ → List Expense → Type 0
Free [] es = Unit
Free (id ∷ ids) es =
    (any (expense_has_id id) es ≡ false) × (any (λ x. x == id) ids ≡ false) × Free ids es

any-append_one :
    (id : ℕ) (es : List Expense) (r : Expense)
    → any (expense_has_id id) es ≡ false
    → (r.id == id) ≡ false
    → any (expense_has_id id) (es ++ (r ∷ [])) ≡ false
any-append_one id [] r h k = rw k refl
any-append_one id (e ∷ es) r h k = ground (arith, any-append_one id es r)

pub Free-after :
    (r : Expense) (ids : List ℕ) (es : List Expense)
    → any (λ x. x == r.id) ids ≡ false
    → Free ids es
    → Free ids (es ++ (r ∷ []))
Free-after r [] es h f = tt
Free-after r (id ∷ ids) es h (f, d, fs) =
    (any-append_one id es r f (ground arith), d, Free-after r ids es (ground arith) fs)

pub keep-append :
    (p : Expense → Bool) (xs ys : List Expense) → keep p (xs ++ ys) ≡ keep p xs ++ keep p ys
keep-append p [] ys = refl
keep-append p (x ∷ xs) ys = elim (Bool-cases (p x)) [
  | inl k ↦ rw k (ap (◌∷◌ x) (keep-append p xs ys))
  | inr k ↦ rw k (keep-append p xs ys)
]

-- A group that has no row has none in use.
pub keep-unused :
    (group : ℕ) (es : List Expense)
    → any (in_installment_group group) es ≡ false
    → keep (in_active_group group) es ≡ []
keep-unused group [] h = refl
keep-unused group (e ∷ es) h = ground (arith, keep-unused group es)

pub length-generate : (n i : ℕ) (f : ℕ → ℕ) → length (generate n i f) ≡ n
length-generate zero i f = refl
length-generate (suc n) i f = omega (arith, length-generate n (i + 1) f)

-- `n` numbers from `i`.
abbrev pub count_from : (i n : ℕ) → List ℕ
count_from i zero = []
count_from i (suc n) = i ∷ count_from (i + 1) n

module _ (dto : CreateDto) (f : Fornecedor) (group : ℕ) where
  pub create-rows :
      (i : ℕ) (ids vs : List ℕ) (ds : List Day) (es : List Expense)
      → Free ids es
      → create_many (linhas_from dto f group i ids vs ds) es
        ≡ es ++ linhas_from dto f group i ids vs ds
  unfolding create_many linhas_from linha
  create-rows i [] vs ds es h = sym (append_nil es)
  create-rows i (id ∷ ids) [] ds es h = sym (append_nil es)
  create-rows i (id ∷ ids) (v ∷ vs) [] es h = sym (append_nil es)
  create-rows i (id ∷ ids) (v ∷ vs) (d ∷ ds) es (h, n, hs) =
      let r = linha dto f group i id v d in
      rw (create_many, h)
        (create-rows (i + 1) ids vs ds (es ++ (r ∷ [])) (Free-after r ids es n hs)
          ∙ append_assoc es (r ∷ []) (linhas_from dto f group (i + 1) ids vs ds))

  pub keep-rows :
      (i : ℕ) (ids vs : List ℕ) (ds : List Day)
      → keep (in_active_group group) (linhas_from dto f group i ids vs ds)
        ≡ linhas_from dto f group i ids vs ds
  unfolding linhas_from linha
  keep-rows i [] vs ds = refl
  keep-rows i (id ∷ ids) [] ds = refl
  keep-rows i (id ∷ ids) (v ∷ vs) [] = refl
  keep-rows i (id ∷ ids) (v ∷ vs) (d ∷ ds) =
      rw (==_refl group) (ap (◌∷◌ (linha dto f group i id v d)) (keep-rows (i + 1) ids vs ds))

  insert-first :
      (i : ℕ) (e : Expense) (ids vs : List ℕ) (ds : List Day)
      → number_of e ≡ i
      → insert_by_number e (linhas_from dto f group i ids vs ds)
        ≡ e ∷ linhas_from dto f group i ids vs ds
  unfolding linhas_from linha insert_by_number
  insert-first i e [] vs ds h = refl
  insert-first i e (id ∷ ids) [] ds h = refl
  insert-first i e (id ∷ ids) (v ∷ vs) [] h = refl
  insert-first i e (id ∷ ids) (v ∷ vs) (d ∷ ds) h =
      let sooner : leb (number_of e) (i + 1) ≡ true = ground arith in rw sooner refl

  pub sort-rows :
      (i : ℕ) (ids vs : List ℕ) (ds : List Day)
      → sort_by_number (linhas_from dto f group i ids vs ds) ≡ linhas_from dto f group i ids vs ds
  unfolding linhas_from linha sort_by_number
  sort-rows i [] vs ds = refl
  sort-rows i (id ∷ ids) [] ds = refl
  sort-rows i (id ∷ ids) (v ∷ vs) [] = refl
  sort-rows i (id ∷ ids) (v ∷ vs) (d ∷ ds) =
      ap (insert_by_number (linha dto f group i id v d)) (sort-rows (i + 1) ids vs ds)
      ∙ insert-first (i + 1) (linha dto f group i id v d) ids vs ds refl

  -- What the rows carry, if there are as many ids and dates as values.
  pub rows-carry :
      (i : ℕ) (ids vs : List ℕ) (ds : List Day)
      → length ids ≡ length vs
      → length ds ≡ length vs
      → let rows = linhas_from dto f group i ids vs ds in
        (map (λ r. r.id) rows ≡ ids)
        × (map (λ r. r.amount) rows ≡ vs)
        × (map (λ r. r.due_date) rows ≡ ds)
        × (map number_of rows ≡ count_from (i + 1) (length vs))
  unfolding linhas_from linha
  rows-carry i [] [] [] h k = (refl, refl, refl, refl)
  rows-carry i [] [] (d ∷ ds) h k = absurd (omega (arith, k))
  rows-carry i [] (v ∷ vs) ds h k = absurd (omega (arith, h))
  rows-carry i (id ∷ ids) [] ds h k = absurd (omega (arith, h))
  rows-carry i (id ∷ ids) (v ∷ vs) [] h k = absurd (omega (arith, k))
  rows-carry i (id ∷ ids) (v ∷ vs) (d ∷ ds) h k =
      let rest = rows-carry (i + 1) ids vs ds (omega (arith, h)) (omega (arith, k)) in
      (ap (◌∷◌ id) rest.0, ap (◌∷◌ v) rest.1, ap (◌∷◌ d) rest.2, ap (◌∷◌ (i + 1)) rest.3)
