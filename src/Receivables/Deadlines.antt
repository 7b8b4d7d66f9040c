-- ===== src/Receivables/Deadlines.antt =====
-- The deadlines of back/src/modules/receivables/receivables.filtro.ts: what `classificar` finds, and
-- how `filtrarDevedores` divides the debtors.
use orbix_hub.Base.{
  ℕ, ◌+◌, ◌≡◌, refl, Bool, true, false, ◌||◌, Option, none, some, is_some, List, [], ◌∷◌, length,
  All, arith, if◌then◌else◌, ltb, leb, any, Text,
}
use orbix_hub.Receivables.{
  Iso, Titulo, Devedor, Prazo, DevedorClassificado, dia_de, com_vencimento, vencimento_efetivo,
  classificar_titulos, classificar, Vencimento, todos, vencidos, a_vencer, sem_prazo, no_vencimento,
  filtrar_devedores, Origin,
}

abbrev pub is_past : (hoje : ℕ) → Option ℕ → Bool
is_past hoje none = false
is_past hoje (some d) = ltb d hoje

-- The first is no later, if there is a second.
abbrev pub no_later : Option ℕ → Option ℕ → Bool
no_later a none = true
no_later none (some b) = false
no_later (some a) (some b) = leb a b

abbrev pub dia_do_titulo : Titulo → Option ℕ
dia_do_titulo t = dia_de (vencimento_efetivo t)

-- What a debtor's deadline is, for the titles it was found from.
pub record IsClassified (hoje : ℕ) (ts : List Titulo) (p : Prazo) : Type 0 where
  pub overdue_any : p.overdue ≡ any (λ t. is_past hoje (dia_do_titulo t)) ts
  pub overdue_past : p.overdue ≡ is_past hoje (dia_de p.next_due_at)
  pub dated : is_some p.next_due_at ≡ any (λ t. is_some (dia_do_titulo t)) ts
  pub soonest : All (λ t. no_later (dia_de p.next_due_at) (dia_do_titulo t) ≡ true) ts

-- The date found reads as a day, and the debtor is overdue exactly when it is past.
record IsRead (hoje : ℕ) (p : Prazo) : Type 0 where
  overdue_past : p.overdue ≡ is_past hoje (dia_de p.next_due_at)
  readable : is_some (dia_de p.next_due_at) ≡ is_some p.next_due_at

vencimento-IsRead :
    (hoje : ℕ) (v : Option Iso) (p : Prazo) → IsRead hoje p → IsRead hoje (com_vencimento hoje v p)
unfolding com_vencimento dia_de
vencimento-IsRead hoje v p h = ground arith

vencimento_lem :
    (hoje : ℕ) (v : Option Iso) (p : Prazo)
    → IsRead hoje p
    → let q = com_vencimento hoje v p in
      (q.overdue ≡ (p.overdue || is_past hoje (dia_de v)))
      × (is_some q.next_due_at ≡ (is_some p.next_due_at || is_some (dia_de v)))
      × (no_later (dia_de q.next_due_at) (dia_de p.next_due_at) ≡ true)
      × (no_later (dia_de q.next_due_at) (dia_de v) ≡ true)
unfolding com_vencimento dia_de
vencimento_lem hoje v p h = ground arith

no_later_trans :
    (a b c : Option ℕ) → no_later a b ≡ true → no_later b c ≡ true → no_later a c ≡ true
no_later_trans a b c h k = ground arith

titulos-IsRead :
    (hoje : ℕ) (ts : List Titulo) (p : Prazo)
    → IsRead hoje p
    → IsRead hoje (classificar_titulos hoje ts p)
unfolding classificar_titulos
titulos-IsRead hoje [] p h = h
titulos-IsRead hoje (t ∷ ts) p h =
    titulos-IsRead hoje ts (com_vencimento hoje (vencimento_efetivo t) p)
      (vencimento-IsRead hoje (vencimento_efetivo t) p h)

-- The loop from any start.
titulos_lem :
    (hoje : ℕ) (ts : List Titulo) (p : Prazo)
    → IsRead hoje p
    → let q = classificar_titulos hoje ts p in
      (q.overdue ≡ (p.overdue || any (λ t. is_past hoje (dia_do_titulo t)) ts))
      × (is_some q.next_due_at ≡ (is_some p.next_due_at || any (λ t. is_some (dia_do_titulo t)) ts))
      × (no_later (dia_de q.next_due_at) (dia_de p.next_due_at) ≡ true)
      × All (λ t. no_later (dia_de q.next_due_at) (dia_do_titulo t) ≡ true) ts
unfolding classificar_titulos
titulos_lem hoje [] p h = (ground arith, ground arith, ground arith, tt)
titulos_lem hoje (t ∷ ts) p h =
    let v = vencimento_efetivo t in
    let q = com_vencimento hoje v p in
    let one = vencimento_lem hoje v p h in
    let last = dia_de (classificar_titulos hoje ts q).next_due_at in
    let more = titulos_lem hoje ts q (vencimento-IsRead hoje v p h) in
    (
      ground (arith, one.0, more.0),
      ground (arith, one.1, more.1),
      no_later_trans last (dia_de q.next_due_at) (dia_de p.next_due_at) more.2 one.2,
      (no_later_trans last (dia_de q.next_due_at) (dia_de v) more.2 one.3, more.3),
    )

-- For any titles and any day: a debtor is overdue exactly when some title's date is past, which is
-- when the date shown is past; there is a date to show exactly when some title's date reads as a day;
-- and the date shown is the soonest.
pub classificar-IsClassified :
    (hoje : ℕ) (d : Devedor) → IsClassified hoje d.titulos (classificar hoje d).prazo
unfolding classificar dia_de
classificar-IsClassified hoje d =
    let start : IsRead hoje (record { next_due_at = none; overdue = false }) = record {
      overdue_past = refl;
      readable = refl;
    } in
    let all = titulos_lem hoje d.titulos (record { next_due_at = none; overdue = false }) start in
    record {
      overdue_any = all.0;
      overdue_past = (titulos-IsRead hoje d.titulos _ start).overdue_past;
      dated = all.1;
      soonest = all.3;
    }

abbrev pub all_classified : (hoje : ℕ) → List Devedor → List DevedorClassificado
all_classified hoje [] = []
all_classified hoje (d ∷ ds) = classificar hoje d ∷ all_classified hoje ds

one_queue :
    (hoje : ℕ) (p : Prazo)
    → p.overdue ≡ is_past hoje (dia_de p.next_due_at)
    → (if no_vencimento hoje vencidos p then 1 else 0)
        + (if no_vencimento hoje a_vencer p then 1 else 0)
        + (if no_vencimento hoje sem_prazo p then 1 else 0)
      ≡ 1
unfolding no_vencimento dia_de
one_queue hoje p h = ground arith

module _ (nfd : ℕ → Text) (lower : Text → Text) where
  -- How many debtors a deadline lets through.
  abbrev pub count_of :
      Option Text → Option Origin → (hoje : ℕ) → Vencimento → List DevedorClassificado → ℕ
  count_of q origem hoje v ds =
      length
        (filtrar_devedores nfd lower ds (record { q = q; vencimento = v; origem = origem }) hoje)

  -- Whatever is searched for: the debtors that are overdue, those that are due later and those without
  -- a deadline are all the debtors, each counted once.
  pub queues_partition :
      (q : Option Text) (origem : Option Origin) (hoje : ℕ) (ds : List Devedor)
      → let cs = all_classified hoje ds in
        count_of q origem hoje vencidos cs
          + count_of q origem hoje a_vencer cs
          + count_of q origem hoje sem_prazo cs
        ≡ count_of q origem hoje todos cs
  unfolding filtrar_devedores no_vencimento
  queues_partition q origem hoje [] = omega arith
  queues_partition q origem hoje (d ∷ ds) =
      let c = classificar hoje d in
      let one = one_queue hoje c.prazo (classificar-IsClassified hoje d).overdue_past in
      let rest = queues_partition q origem hoje ds in ground (arith, one, rest)
