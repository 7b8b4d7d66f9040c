-- ===== src/Cashier/Commands/Ledger.antt =====
-- The cash book is append-only ("um livro caixa não sobrescreve movimento, registra a correção"):
-- what any run of the methods of back/src/modules/cashier/cashier.service.impl.ts leaves of the
-- entries that were there before.
use mathlib.Core.Option.{some-injective}
use orbix_hub.Base.{
  ℕ, ◌≡◌, Bool, true, false, ◌&&◌, some, List, [], ◌∷◌, ◌++◌, find, any, update_first, is_some,
  arith, ◌==◌, Bool-cases, inl, inr, Text, ap,
}
use orbix_hub.Base.Keeps.{Keeps}
use orbix_hub.Cashier.Store.{
  CashEntry, Db, Request, entry_has_id, create_entry_row, mark_reversed, reverse_row,
}
use orbix_hub.Cashier.Sessions.{close_found}
use orbix_hub.Cashier.Corrections.{UpdateEntryDto, edit_row, write_edit}
use orbix_hub.Cashier.Commands.{Command, run, run-keeps}
use orbix_hub.Cashier.Commands.Traversal.{Primitives}
use orbix_hub.Cashier.Commands.Traversal.Steps.{step-keeps}
use orbix_hub.Cashier.Commands.Direction.{create_session-entries}

-- What never changes of an entry; a reversed one does not change at all.
pub record IsKept (before after : CashEntry) : Type 0 where
  pub same_id : after.id ≡ before.id
  pub same_session : after.cash_session_id ≡ before.cash_session_id
  pub same_direction : after.direction ≡ before.direction
  pub same_amount : after.amount ≡ before.amount
  pub same_discount : after.discount ≡ before.discount
  pub same_method : after.method ≡ before.method
  pub same_document : after.sale_id ≡ before.sale_id
  pub same_kind : after.sale_kind ≡ before.sale_kind
  pub same_author : after.created_by ≡ before.created_by
  pub frozen : is_some before.reversed_at ≡ true → after ≡ before

-- The rows of the first list stand at the head of the second, each kept.
abbrev pub Extends : (before after : List CashEntry) → Type 0
Extends [] ys = Unit
Extends (x ∷ xs) [] = ⊥
Extends (x ∷ xs) (y ∷ ys) = IsKept x y × Extends xs ys

IsKept-refl : (e : CashEntry) → IsKept e e
IsKept-refl e = ground arith

pub Extends-refl : (es : List CashEntry) → Extends es es
Extends-refl [] = tt
Extends-refl (e ∷ es) = (IsKept-refl e, Extends-refl es)

Extends-append : (xs ys zs : List CashEntry) → Extends xs ys → Extends xs (ys ++ zs)
Extends-append [] ys zs h = tt
Extends-append (x ∷ xs) [] zs h = absurd h
Extends-append (x ∷ xs) (y ∷ ys) zs h = (h.0, Extends-append xs ys zs h.1)

-- A change of the row that is found, when the change keeps what `IsKept` says.
Extends-update_first :
    (p : CashEntry → Bool) (f : CashEntry → CashEntry) (xs ys : List CashEntry) (y : CashEntry)
    → find p ys ≡ some y
    → ((x : CashEntry) → IsKept x y → IsKept x (f y))
    → Extends xs ys
    → Extends xs (update_first p f ys)
Extends-update_first p f [] ys y e k h = tt
Extends-update_first p f (x ∷ xs) [] y e k h = absurd h
Extends-update_first p f (x ∷ xs) (z ∷ ys) y e k h = elim (Bool-cases (p z)) [
  | inl t ↦
      let same : z ≡ y = some-injective _ _ (rw t at e) in rw (t, same) (k x (rw same at h.0), h.1)
  | inr t ↦ rw t (h.0, Extends-update_first p f xs ys y (rw t at e) k h.1)
]

-- An entry that is not reversed now was not reversed before.
kept_active :
    (x y : CashEntry) → IsKept x y → is_some y.reversed_at ≡ false → is_some x.reversed_at ≡ false
kept_active x y k active = elim (Bool-cases (is_some x.reversed_at)) [
  | inl r ↦ cc (ap (λ (e : CashEntry). is_some e.reversed_at) (k.frozen r))
  | inr a ↦ a
]

reverse-IsKept :
    (now user : ℕ) (reason : Text) (x y : CashEntry)
    → is_some y.reversed_at ≡ false
    → IsKept x y
    → IsKept x (reverse_row now user reason y)
reverse-IsKept now user reason x y active k =
    let before = kept_active x y k active in
    record {
      same_id = k.same_id;
      same_session = k.same_session;
      same_direction = k.same_direction;
      same_amount = k.same_amount;
      same_discount = k.same_discount;
      same_method = k.same_method;
      same_document = k.same_document;
      same_kind = k.same_kind;
      same_author = k.same_author;
      frozen = λ r. cc before;
    }

edit-IsKept :
    (dto : UpdateEntryDto) (x y : CashEntry)
    → is_some y.reversed_at ≡ false
    → IsKept x y
    → IsKept x (edit_row dto y)
edit-IsKept dto x y active k =
    let before = kept_active x y k active in
    record {
      same_id = k.same_id;
      same_session = k.same_session;
      same_direction = k.same_direction;
      same_amount = k.same_amount;
      same_discount = k.same_discount;
      same_method = k.same_method;
      same_document = k.same_document;
      same_kind = k.same_kind;
      same_author = k.same_author;
      frozen = λ r. cc before;
    }

module _ (start : List CashEntry) where
  insert-Extends : (e : CashEntry) → Keeps (λ db. Extends start db.entries) (create_entry_row e)
  unfolding create_entry_row
  insert-Extends e = record {
    at = λ db h. elim (Bool-cases (e.amount == 0 && e.discount == 0)) [
      | inl z ↦ rw z h
      | inr z ↦ rw z (elim (Bool-cases (any (entry_has_id e.id) db.entries)) [
        | inl t ↦ rw t h
        | inr t ↦ rw t (Extends-append start db.entries (e ∷ []) h)
      ])
    ];
  }

  Extends-Primitives : Primitives (λ db. Extends start db.entries)
  unfolding mark_reversed write_edit close_found
  Extends-Primitives = record {
    inserts_session = λ id user opening notes device. record {
      at = λ db h. rw (create_session-entries id user opening notes device db) h;
    };
    closes = λ req dto c s. record { at = λ db h. h };
    inserts_entry = λ e new. insert-Extends e;
    reverses = λ id now user reason db e found active h.
        Extends-update_first (entry_has_id id) (reverse_row now user reason) start db.entries e
          found (λ x k. reverse-IsKept now user reason x e active k) h;
    edits = λ id dto db e found active same h.
        Extends-update_first (entry_has_id id) (edit_row dto) start db.entries e found
          (λ x k. edit-IsKept dto x e active k) h;
    changes_installments = λ is db h. h;
    audits = λ rows db h. h;
  }

-- Whatever methods are called by whomever, with success or not: no entry disappears or moves, its
-- value, discount, method, direction, session, document and author stay as they were, and an entry
-- that was reversed stays as it was in everything.
pub run-Extends : (cs : List (Request × Command)) (db : Db) → Extends db.entries (run cs db).entries
run-Extends cs db =
    run-keeps {P = λ d. Extends db.entries d.entries} (step-keeps (Extends-Primitives db.entries))
      cs db (Extends-refl db.entries)
