-- ===== src/Expenses/Payment/Mirrored.antt =====
-- A paid expense has its entry in the cash book: `pay` of back/src/modules/expenses/expenses.service.ts with
-- `registrarSaidaDeDespesa` of back/src/modules/cashier/cashier.service.impl.ts.
use orbix_hub.Base.{
  ℕ, ◌≡◌, refl, ◌==◌, ==_refl, false, ◌&&◌, Bool-cases, inl, inr, Option, none, some, List, [], ◌∷◌,
  ◌++◌, find, any, arith,
}
use orbix_hub.Base.Triple.{
  Triple, Met, Triple-pure, Triple-throw, Triple-or_throw, Triple-transaction, Triple-modify,
  Triple-bind, Triple-catch, Triple-any,
}
use orbix_hub.Money.{round2}
use orbix_hub.Cashier
use orbix_hub.Cashier.Store.{
  CashEntry, entry_has_id, create_entry_row, get_config, unique_violation, bad_request, conflict,
  forbidden, not_found, check_violation, audit_log,
}
use orbix_hub.Cashier.Entries.{explain_duplicate}
use orbix_hub.Cashier.Corrections.{
  SaidaDeDespesa, accepted, expense_row, registrar_saida_de_despesa,
}

-- An entry of the cash book that stands.
pub record Stands (id amount : ℕ) (origin : Option ℕ) (cash : Cashier.Store.Db) : Type 0 where
  pub entry : CashEntry
  pub found : find (entry_has_id id) cash.entries ≡ some entry
  pub same_amount : entry.amount ≡ amount
  pub same_origin : entry.sale_id ≡ origin
  pub not_reversed : entry.reversed_at ≡ none

find-new :
    (e : CashEntry) (es : List CashEntry)
    → any (entry_has_id e.id) es ≡ false
    → find (entry_has_id e.id) (es ++ (e ∷ [])) ≡ some e
find-new e [] h = rw (==_refl e.id) refl
find-new e (x ∷ es) h = ground (arith, find-new e es)

abbrev pub Anything : Cashier.Store.Db → Type 0
Anything cash = Unit {0}

created :
    (e : CashEntry) (cash : Cashier.Store.Db)
    → e.reversed_at ≡ none
    → Met {E = Cashier.Store.Error} Anything
        (λ a s. Stands a.id e.amount e.sale_id s)
        (create_entry_row e cash)
unfolding create_entry_row
created e cash r = elim (Bool-cases (e.amount == 0 && e.discount == 0)) [
  | inl empty ↦ rw empty tt
  | inr filled ↦ elim (Bool-cases (any (entry_has_id e.id) cash.entries)) [
    | inl taken ↦ rw (filled, taken) tt
    | inr free ↦
        rw (filled, free)
          (record {
            entry = e;
            found = find-new e cash.entries free;
            same_amount = refl;
            same_origin = refl;
            not_reversed = r;
          })
  ]
]

module _ (Q : CashEntry → Cashier.Store.Db → Type 0) where
  explained :
      (id : Option ℕ) (e : Cashier.Store.Error)
      → Triple Anything Anything (explain_duplicate id e) Q
  unfolding explain_duplicate
  explained (some id) (unique_violation n) = Triple-throw _ (λ s p. tt)
  explained (some id) (bad_request m) = Triple-throw _ (λ s p. tt)
  explained (some id) (conflict m) = Triple-throw _ (λ s p. tt)
  explained (some id) (forbidden m) = Triple-throw _ (λ s p. tt)
  explained (some id) (not_found m) = Triple-throw _ (λ s p. tt)
  explained (some id) check_violation = Triple-throw _ (λ s p. tt)
  explained none e = Triple-throw _ (λ s p. tt)

-- What leaves the drawer for an expense is in the book, under the id that is answered.
pub registrar-Stands :
    (req : Cashier.Store.Request) (input : SaidaDeDespesa)
    → Triple Anything Anything
        (registrar_saida_de_despesa req input)
        (λ id cash. Stands id (round2 input.amount) input.origin_id cash)
unfolding registrar_saida_de_despesa get_config audit_log
registrar-Stands req input = Triple-bind _ _ (Triple-any Anything _) (λ config.
    Triple-bind {Q = λ m s. Unit {0}} _ _
      (Triple-or_throw (accepted config input.method) _ (λ s p. tt) (λ m e s p. tt))
      (λ method.
        Triple-bind {Q = λ e s. Stands e.id (round2 input.amount) input.origin_id s} _ _
          (Triple-transaction Anything _ (λ s p. tt)
            (Triple-bind _ _ (Triple-any Anything _) (λ session.
              Triple-catch Anything _ _
                (record { at = λ s p. created (expense_row req input method session.id) s refl })
                (explained _ input.entry_id))))
          (λ entry.
            Triple-bind {Q = λ u s. Stands entry.id (round2 input.amount) input.origin_id s} _ _
              (Triple-modify _ (λ s k. record {
                entry = k.entry;
                found = k.found;
                same_amount = k.same_amount;
                same_origin = k.same_origin;
                not_reversed = k.not_reversed;
              }))
              (λ u. Triple-pure _ (λ s k. k)))))
