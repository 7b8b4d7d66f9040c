-- ===== src/Receivables.antt =====
-- The rule of who is overdue, what comes first and which page:
-- back/src/modules/receivables/receivables.filtro.ts. A day is its number; `new Date(iso)` either reads
-- one or does not. The order by a column is left to the sorting of the runtime and is not modelled.
pub mod Deadlines
pub mod Pages
use orbix_hub.Base.{
  ℕ, suc, ◌+◌, ◌-◌, ◌*◌, ◌==◌, Bool, true, false, not, ◌&&◌, ◌||◌, Option, none, some, is_some,
  List, [], ◌∷◌, ◌++◌, any, keep, length, take, drop, max, if◌then◌else◌, ltb, leb, Text, trim, map,
}

-- A date string: one that reads as a day (UTC), or garbage.
pub data Iso : Type 0 where
  dia : ℕ → Iso
  ilegivel : Iso

unfoldable pub dia_utc : Iso → Option ℕ
dia_utc (dia n) = some n
dia_utc ilegivel = none

pub data Origin : Type 0 where
  os sale : Origin

pub record Titulo : Type 0 where
  pub origin : Origin
  pub created_at : Option Iso
  pub balance : ℕ
  pub proxima_parcela_em : Option Iso

pub record Devedor : Type 0 where
  pub customer_id : Option ℕ
  pub customer_name : Text
  pub total_due : ℕ
  pub title_count : ℕ
  pub oldest_at : Option Iso
  pub titulos : List Titulo

-- What the loop of `classificar` keeps.
pub record Prazo : Type 0 where
  pub next_due_at : Option Iso
  pub overdue : Bool

pub record DevedorClassificado : Type 0 where
  pub devedor : Devedor
  pub prazo : Prazo

abbrev pub vencimento_efetivo : Titulo → Option Iso
vencimento_efetivo t = t.proxima_parcela_em

-- `nextDueAt === null ? null : diaUtc(nextDueAt)`
unfoldable pub dia_de : Option Iso → Option ℕ
unfolding dia_utc
dia_de none = none
dia_de (some v) = dia_utc v

abbrev pub is_sooner : ℕ → Option ℕ → Bool
is_sooner d none = true
is_sooner d (some atual) = ltb d atual

-- The body of the loop, once the due date reads as a day.
unfoldable pub com_dia : (hoje : ℕ) → Iso → Option ℕ → Prazo → Prazo
unfolding dia_utc dia_de
com_dia hoje v none p = p
com_dia hoje v (some d) p = record {
  next_due_at = if is_sooner d (dia_de p.next_due_at) then some v else p.next_due_at;
  overdue = if ltb d hoje then true else p.overdue;
}

unfoldable pub com_vencimento : (hoje : ℕ) → Option Iso → Prazo → Prazo
unfolding com_dia dia_utc
com_vencimento hoje none p = p
com_vencimento hoje (some v) p = com_dia hoje v (dia_utc v) p

unfoldable pub classificar_titulos : (hoje : ℕ) → List Titulo → Prazo → Prazo
unfolding com_vencimento
classificar_titulos hoje [] p = p
classificar_titulos hoje (t ∷ ts) p =
    classificar_titulos hoje ts (com_vencimento hoje (vencimento_efetivo t) p)

unfoldable pub classificar : (hoje : ℕ) → Devedor → DevedorClassificado
unfolding classificar_titulos
classificar hoje d = record {
  devedor = d;
  prazo = classificar_titulos hoje d.titulos (record { next_due_at = none; overdue = false });
}

pub data Vencimento : Type 0 where
  todos vencidos vence7 a_vencer sem_prazo : Vencimento

-- `none` is 'todos'.
pub record Filtro : Type 0 where
  pub q : Option Text
  pub vencimento : Vencimento
  pub origem : Option Origin

abbrev pub same_origin : Origin → Origin → Bool
same_origin os os = true
same_origin sale sale = true
same_origin _ _ = false

abbrev pub has_origin : Option Origin → List Titulo → Bool
has_origin none ts = true
has_origin (some o) ts = any (λ t. same_origin t.origin o) ts

abbrev pub within : (low high : ℕ) → Option ℕ → Bool
within low high none = false
within low high (some d) = leb low d && leb d high

-- The `switch` on the deadline; `hoje + 7` is `limite7`.
unfoldable pub no_vencimento : (hoje : ℕ) → Vencimento → Prazo → Bool
unfolding dia_de
no_vencimento hoje todos p = true
no_vencimento hoje vencidos p = p.overdue
no_vencimento hoje vence7 p =
    if p.overdue || not (is_some p.next_due_at)
    then false
    else within hoje (hoje + 7) (dia_de p.next_due_at)
no_vencimento hoje a_vencer p = not p.overdue && is_some p.next_due_at
no_vencimento hoje sem_prazo p = not (is_some p.next_due_at)

abbrev starts_with : Text → Text → Bool
starts_with [] s = true
starts_with (c ∷ cs) [] = false
starts_with (c ∷ cs) (d ∷ ds) = c == d && starts_with cs ds

-- `s.includes(term)`
abbrev pub contains : Text → Text → Bool
contains term [] = starts_with term []
contains term (c ∷ cs) = starts_with term (c ∷ cs) || contains term cs

-- The tables of Unicode: the canonical decomposition of a character, and lower case.
module _ (nfd : ℕ → Text) (lower : Text → Text) where
  abbrev decompose : Text → Text
  decompose [] = []
  decompose (c ∷ cs) = nfd c ++ decompose cs

  abbrev pub sem_acento : Text → Text
  sem_acento s = lower (keep (λ c. not (leb 768 c && leb c 879)) (decompose s))

  -- An empty term filters nothing.
  abbrev pub has_term : Option Text → Text → Bool
  unfolding trim
  has_term none name = true
  has_term (some q) name = contains (sem_acento (trim q)) (sem_acento name)

  unfoldable pub filtrar_devedores :
      List DevedorClassificado → Filtro → (hoje : ℕ) → List DevedorClassificado
  unfolding no_vencimento
  filtrar_devedores lista f hoje =
      keep
        (λ d.
          has_origin f.origem d.devedor.titulos
          && (has_term f.q d.devedor.customer_name && no_vencimento hoje f.vencimento d.prazo))
        lista

-- A page and the size of the whole.
unfoldable pub paginar {ℓ} : {A : Type ℓ} → List A → (page page_size : ℕ) → List A × ℕ
paginar lista page page_size =
    let inicio = (max 1 page - 1) * page_size in (take page_size (drop inicio lista), length lista)
