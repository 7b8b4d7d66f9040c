-- ===== src/Cashier/Commands/Traversal/Corrections.antt =====
-- The methods of back/src/modules/cashier/cashier.service.impl.ts that change an
-- entry or act for an expense, walked through.
use orbix_hub.Base.{
  ℕ, ◌≡◌, refl, Bool, true, false, Option, none, some, find, is_some, Text, Bool-cases, inl, inr,
  ◌>>=◌, trim,
}
use orbix_hub.Base.Keeps.{
  Keeps, Keeps-pure, Keeps-gets, Keeps-or_throw, Keeps-transaction, Keeps-throw_if, Keeps-catch,
  Keeps-bind, Keeps-then, Keeps-bind_gets,
}
use orbix_hub.Cashier.Store.{CashEntry, Db, Request, entry_has_id}
use orbix_hub.Cashier.Corrections.{
  UpdateEntryDto, CorrectEntryDto, SaidaDeDespesa, inverts, edit_found, reverse_found, update_entry,
  reverse_entry, correct_entry, corrected, expense_row, undo_found, audit_undo,
  registrar_saida_de_despesa, estornar_saida_de_despesa, pagamento_desfeito,
}
use orbix_hub.Cashier.Commands.Traversal.{
  Primitives, audit_log-Keeps, ensure_session-Keeps, explain_duplicate-Keeps,
}
use orbix_hub.Cashier.Commands.Traversal.Entries.{create_entry-Keeps}

module _ {P : Db → Type 0} (p : Primitives P) where
  -- A write behind a row that was found and is not reversed.
  pub edit_found-keeps :
      (id : ℕ) (dto : UpdateEntryDto) (db : Db) (found : Option CashEntry)
      → find (entry_has_id id) db.entries ≡ found
      → P db
      → P (edit_found id dto found db).1
  unfolding edit_found ◌>>=◌
  edit_found-keeps id dto db none e h = h
  edit_found-keeps id dto db (some x) e h = elim (Bool-cases (is_some x.reversed_at)) [
    | inl r ↦ rw r h
    | inr r ↦ rw r (elim (Bool-cases (inverts x.category dto.category)) [
      | inl i ↦ rw i h
      | inr i ↦ rw i (p.edits id dto db x e r i h)
    ])
  ]

  pub update_entry-Keeps :
      (req : Request) (id : ℕ) (dto : UpdateEntryDto) → Keeps P (update_entry req id dto)
  unfolding update_entry
  update_entry-Keeps req id dto =
      Keeps-bind _ _
        (Keeps-transaction _ (Keeps-bind_gets _ _ λ db h. edit_found-keeps id dto db _ refl h))
        λ e. Keeps-then _ _ (audit_log-Keeps p _ _) (Keeps-pure e)

  pub reverse_found-keeps :
      (req : Request) (id : ℕ) (reason : Text) (db : Db) (found : Option CashEntry)
      → find (entry_has_id id) db.entries ≡ found
      → P db
      → P (reverse_found req id reason found db).1
  unfolding reverse_found ◌>>=◌
  reverse_found-keeps req id reason db none e h = h
  reverse_found-keeps req id reason db (some x) e h = elim (Bool-cases (is_some x.reversed_at)) [
    | inl r ↦ rw r h
    | inr r ↦ rw r (p.reverses id req.now req.user_id (trim reason) db x e r h)
  ]

  pub reverse_entry-Keeps :
      (req : Request) (id : ℕ) (reason : Text) → Keeps P (reverse_entry req id reason)
  unfolding reverse_entry
  reverse_entry-Keeps req id reason =
      Keeps-then _ _
        (Keeps-transaction _
          (Keeps-bind_gets _ _ λ db h. reverse_found-keeps req id reason db _ refl h))
        (audit_log-Keeps p _ _)

  pub correct_entry-Keeps :
      (req : Request) (id : ℕ) (dto : CorrectEntryDto) → Keeps P (correct_entry req id dto)
  unfolding correct_entry
  correct_entry-Keeps req id dto = Keeps-bind _ _ (Keeps-transaction _ (Keeps-gets _)) λ found.
      Keeps-bind _ _ (Keeps-or_throw _ _) λ original. Keeps-then _ _ (Keeps-throw_if _ _) (
        Keeps-then _ _ (reverse_entry-Keeps req id dto.reason) (
          Keeps-bind _ _ (create_entry-Keeps p req (corrected original dto))
            λ novo. Keeps-then _ _ (audit_log-Keeps p _ _) (Keeps-pure novo)))

  pub registrar-Keeps :
      (req : Request) (input : SaidaDeDespesa) → Keeps P (registrar_saida_de_despesa req input)
  unfolding registrar_saida_de_despesa
  registrar-Keeps req input = Keeps-bind _ _ (Keeps-gets _) λ c.
      Keeps-bind _ _ (Keeps-or_throw _ _) λ m.
        Keeps-bind _ _
          (Keeps-transaction _ (
            Keeps-bind _ _ (ensure_session-Keeps p req c input.device_id) λ s.
              Keeps-catch _ _
                (p.inserts_entry (expense_row req input m s.id)
                  (record { coherent = refl; active = refl }))
                (explain_duplicate-Keeps p input.entry_id)))
          λ e. Keeps-then _ _ (audit_log-Keeps p _ _) (Keeps-pure e.id)

  pub undo_found-keeps :
      (req : Request) (id : ℕ) (db : Db) (found : Option CashEntry)
      → find (entry_has_id id) db.entries ≡ found
      → P db
      → P (undo_found req id found db).1
  unfolding undo_found ◌>>=◌
  undo_found-keeps req id db none e h = h
  undo_found-keeps req id db (some x) e h = elim (Bool-cases (is_some x.reversed_at)) [
    | inl r ↦ rw r h
    | inr r ↦ rw r (p.reverses id req.now req.user_id pagamento_desfeito db x e r h)
  ]

  pub audit_undo-Keeps : (req : Request) (id : ℕ) (done : Bool) → Keeps P (audit_undo req id done)
  unfolding audit_undo
  audit_undo-Keeps req id true = audit_log-Keeps p _ _
  audit_undo-Keeps req id false = Keeps-pure tt

  pub estornar-Keeps : (req : Request) (id : ℕ) → Keeps P (estornar_saida_de_despesa req id)
  unfolding estornar_saida_de_despesa
  estornar-Keeps req id =
      Keeps-bind _ _
        (Keeps-transaction _ (Keeps-bind_gets _ _ λ db h. undo_found-keeps req id db _ refl h))
        (audit_undo-Keeps req id)
