-- ===== src/Cashier/Commands/Direction.antt =====
-- The direction of every entry is the one of its category: what
-- back/src/modules/cashier/cashier.config.ts calls the coherence of the cash book.
use orbix_hub.Base.{
  ℕ, ◌≡◌, Bool, false, ◌&&◌, Option, some, List, [], ◌∷◌, find, any, All, All-append, update_first,
  arith, ◌==◌, Bool-cases, inl, inr, Text,
}
use mathlib.Core.Option.{some-injective}
use orbix_hub.Base.Keeps.{Keeps}
use orbix_hub.Cashier.Config.{direction_for_category}
use orbix_hub.Cashier.Store.{
  CashEntry, Db, Request, entry_has_id, create_session, create_entry_row, mark_reversed,
}
use orbix_hub.Cashier.Sessions.{close_found}
use orbix_hub.Cashier.Corrections.{UpdateEntryDto, inverts, edit_row, write_edit}
use orbix_hub.Cashier.Commands.{Command, run, run-keeps}
use orbix_hub.Cashier.Commands.Traversal.{IsNewRow, Primitives}
use orbix_hub.Cashier.Commands.Traversal.Steps.{step-keeps}

abbrev pub IsCoherent : CashEntry → Type 0
IsCoherent e = e.direction ≡ direction_for_category e.category

-- A change of the row that is found.
pub All-update_first {ℓ κ} :
    {A : Type ℓ} (P : A → Type κ) (p : A → Bool) (f : A → A) (xs : List A) (x : A)
    → find p xs ≡ some x
    → (P x → P (f x))
    → All P xs
    → All P (update_first p f xs)
All-update_first P p f [] x e k h = tt
All-update_first P p f (y ∷ xs) x e k h = elim (Bool-cases (p y)) [
  | inl t ↦
      let same : y ≡ x = some-injective _ _ (rw t at e) in rw (t, same) (k (rw same at h.0), h.1)
  | inr t ↦ rw t (h.0, All-update_first P p f xs x (rw t at e) k h.1)
]

pub create_session-entries :
    (id user opening : ℕ) (notes : Option Text) (device : Option ℕ) (db : Db)
    → (create_session id user opening notes device db).1.entries ≡ db.entries
unfolding create_session
create_session-entries id user opening notes device db = ground arith

edit_row-IsCoherent :
    (dto : UpdateEntryDto) (e : CashEntry)
    → inverts e.category dto.category ≡ false
    → IsCoherent e
    → IsCoherent (edit_row dto e)
unfolding direction_for_category
edit_row-IsCoherent dto e h c = ground arith

create_entry_row-IsCoherent :
    (e : CashEntry) → IsNewRow e → Keeps (λ db. All IsCoherent db.entries) (create_entry_row e)
unfolding create_entry_row
create_entry_row-IsCoherent e new = record {
  at = λ db h. elim (Bool-cases (e.amount == 0 && e.discount == 0)) [
    | inl z ↦ rw z h
    | inr z ↦ rw z (elim (Bool-cases (any (entry_has_id e.id) db.entries)) [
      | inl t ↦ rw t h
      | inr t ↦ rw t (All-append IsCoherent db.entries (e ∷ []) h (new.coherent, tt))
    ])
  ];
}

IsCoherent-Primitives : Primitives (λ db. All IsCoherent db.entries)
unfolding mark_reversed write_edit close_found
IsCoherent-Primitives = record {
  inserts_session = λ id user opening notes device. record {
    at = λ db h. rw (create_session-entries id user opening notes device db) h;
  };
  closes = λ req dto c s. record { at = λ db h. h };
  inserts_entry = create_entry_row-IsCoherent;
  reverses = λ id now user reason db e found active h.
      All-update_first IsCoherent (entry_has_id id) _ db.entries e found (λ c. c) h;
  edits = λ id dto db e found active same h.
      All-update_first IsCoherent (entry_has_id id) (edit_row dto) db.entries e found
        (edit_row-IsCoherent dto e same) h;
  changes_installments = λ is db h. h;
  audits = λ rows db h. h;
}

-- If every entry enters or leaves as its category says, then so it is after any methods called by
-- whomever, edits of the category included.
pub run-IsCoherent :
    (cs : List (Request × Command)) (db : Db)
    → All IsCoherent db.entries
    → All IsCoherent (run cs db).entries
run-IsCoherent = run-keeps (step-keeps IsCoherent-Primitives)
