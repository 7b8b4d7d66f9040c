-- ===== src/Expenses/Esteira/Months.antt =====
-- The months for which a rule has an expense, and what an insert adds to them.
use orbix_hub.Base.{
  append_nil, ℕ, ◌+◌, ◌≤◌, ◌<◌, ◌≡◌, refl, ap, sym, subst, ◌∙◌, ◌==◌, ==_refl, true, false,
  Bool-cases, inl, inr, Option, none, some, List, [], ◌∷◌, ◌++◌, All, if◌then◌else◌, arith,
}
use orbix_hub.Calendar.{Day}
use orbix_hub.Expenses.Store.{Expense, Recurrence, is_taken, create_many}
use orbix_hub.Expenses.Recurrence.{month_count, EachLater}
use orbix_hub.Expenses.Esteira.{ocorrencia, ocorrencias, last_of}

abbrev pub add_month_of : (x : ℕ) → Option ℕ → Option Day → List ℕ → List ℕ
add_month_of x none d ms = ms
add_month_of x (some y) none ms = ms
add_month_of x (some y) (some d) ms = if y == x then month_count d ∷ ms else ms

-- The months of a rule's expenses, in the order in which they were made.
abbrev pub months_of : ℕ → List Expense → List ℕ
months_of x [] = []
months_of x (e ∷ es) = add_month_of x e.recurrence_id e.occurrence_on (months_of x es)

-- No month twice, and in order.
abbrev pub Rising : List ℕ → Type 0
Rising [] = Unit
Rising (m ∷ ms) = All (λ k. m < k) ms × Rising ms

abbrev pub UpTo : ℕ → List ℕ → Type 0
UpTo b ms = All (λ m. m ≤ b) ms

-- The last month, or the one before all.
abbrev pub last_month : ℕ → List Day → ℕ
last_month b [] = b
last_month b (d ∷ ds) = last_month (month_count d) ds

pub UpTo-weaken : (a b : ℕ) (ms : List ℕ) → a ≤ b → UpTo a ms → UpTo b ms
UpTo-weaken a b [] h k = tt
UpTo-weaken a b (m ∷ ms) h (k, ks) = (omega (arith, h, k), UpTo-weaken a b ms h ks)

pub UpTo-append : (b m : ℕ) (ms : List ℕ) → b < m → UpTo b ms → UpTo m (ms ++ (m ∷ []))
UpTo-append b m [] h k = (omega arith, tt)
UpTo-append b m (n ∷ ms) h (k, ks) = (omega (arith, h, k), UpTo-append b m ms h ks)

above :
    (n b m : ℕ) (ms : List ℕ)
    → n ≤ b
    → b < m
    → All (λ k. n < k) ms
    → All (λ k. n < k) (ms ++ (m ∷ []))
above n b m [] h k a = (omega (arith, h, k), tt)
above n b m (l ∷ ms) h k (a, as_) = (a, above n b m ms h k as_)

Rising-append : (b m : ℕ) (ms : List ℕ) → b < m → UpTo b ms → Rising ms → Rising (ms ++ (m ∷ []))
Rising-append b m [] h u r = (tt, tt)
Rising-append b m (n ∷ ms) h (u, us) (r, rs) = (above n b m ms u h r, Rising-append b m ms h us rs)

pub months-append :
    (x : ℕ) (es : List Expense) (e : Expense)
    → months_of x (es ++ (e ∷ []))
      ≡ months_of x es ++ add_month_of x e.recurrence_id e.occurrence_on []
months-append x [] e = refl
months-append x (f ∷ es) e =
    ap (add_month_of x f.recurrence_id f.occurrence_on) (months-append x es e)
    ∙ before_end f.recurrence_id f.occurrence_on
  where
    before_end :
        (y : Option ℕ) (d : Option Day)
        → add_month_of x y d (months_of x es ++ add_month_of x e.recurrence_id e.occurrence_on [])
          ≡ add_month_of x y d (months_of x es) ++ add_month_of x e.recurrence_id e.occurrence_on []
    before_end none d = refl
    before_end (some y) none = refl
    before_end (some y) (some d) = elim (Bool-cases (y == x)) [
      | inl own ↦ rw own refl
      | inr other ↦ rw other refl
    ]

-- A row that belongs to no rule, or to another one.
abbrev pub IsForeign : ℕ → Expense → Type 0
IsForeign x e = add_month_of x e.recurrence_id e.occurrence_on [] ≡ []

pub foreign-append :
    (x : ℕ) (es : List Expense) (e : Expense)
    → IsForeign x e
    → months_of x (es ++ (e ∷ [])) ≡ months_of x es
foreign-append x es e h =
    months-append x es e ∙ ap (λ ms. months_of x es ++ ms) h ∙ append_nil (months_of x es)

pub create_many-foreign :
    (x : ℕ) (rows es : List Expense)
    → All (IsForeign x) rows
    → months_of x (create_many rows es) ≡ months_of x es
unfolding create_many
create_many-foreign x [] es h = refl
create_many-foreign x (r ∷ rows) es (h, hs) = elim (Bool-cases (is_taken r es)) [
  | inl taken ↦ rw taken (create_many-foreign x rows es hs)
  | inr free ↦ rw free (create_many-foreign x rows (es ++ (r ∷ [])) hs ∙ foreign-append x es r h)
]

abbrev pub Ahead : ℕ → List ℕ → Type 0
Ahead b ms = Rising ms × UpTo b ms

-- One more row, inserted or not, before the others.
abbrev pub after_row : Expense → List Expense → List Expense
after_row e es = if is_taken e es then es else es ++ (e ∷ [])

-- Dates that come later, each in a later month: whichever of them are inserted.
pub create_many-later :
    (uuid : ℕ → ℕ) (i : ℕ) (r : Recurrence) (ds : List Day) (b : ℕ) (es : List Expense)
    → EachLater b ds
    → Ahead b (months_of r.id es)
    → Ahead (last_month b ds) (months_of r.id (create_many (ocorrencias uuid i r ds) es))
unfolding create_many ocorrencias
create_many-later uuid i r [] b es l h = h
create_many-later uuid i r (d ∷ ds) b es (l, ls) (h, u) =
    create_many-later uuid (i + 1) r ds (month_count d) (after_row e es) ls one_more
  where
    e : Expense
    e = ocorrencia (uuid i) r d

    added : months_of r.id (es ++ (e ∷ [])) ≡ months_of r.id es ++ (month_count d ∷ [])
    added = months-append r.id es e ∙ rw (==_refl r.id) refl

    kept : is_taken e es ≡ true → after_row e es ≡ es
    kept taken = rw taken refl

    grown : is_taken e es ≡ false → after_row e es ≡ es ++ (e ∷ [])
    grown free = rw free refl

    one_more : Ahead (month_count d) (months_of r.id (after_row e es))
    one_more = elim (Bool-cases (is_taken e es)) [
      | inl taken ↦
          subst (λ rows. Ahead (month_count d) (months_of r.id rows)) (sym (kept taken))
            (h, UpTo-weaken b (month_count d) _ (omega (arith, l)) u)
      | inr free ↦
          subst (Ahead (month_count d)) (sym (ap (months_of r.id) (grown free) ∙ added))
            (Rising-append b (month_count d) _ l u h, UpTo-append b (month_count d) _ l u)
    ]

pub ocorrencias-IsForeign :
    (x : ℕ) (uuid : ℕ → ℕ) (i : ℕ) (r : Recurrence) (ds : List Day)
    → (r.id == x) ≡ false
    → All (IsForeign x) (ocorrencias uuid i r ds)
unfolding ocorrencias
ocorrencias-IsForeign x uuid i r [] h = tt
ocorrencias-IsForeign x uuid i r (d ∷ ds) h =
    (rw h refl, ocorrencias-IsForeign x uuid (i + 1) r ds h)

-- The last date stands in the last month.
pub last_month-last_of :
    (b : ℕ) (d : Day) (ds : List Day) → last_month b (d ∷ ds) ≡ month_count (last_of d ds)
last_month-last_of b d [] = refl
last_month-last_of b d (e ∷ es) = last_month-last_of b e es
