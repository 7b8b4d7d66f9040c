-- ===== src/Cashier/Commands/Traversal.antt =====
-- One walk through all the methods of back/src/modules/cashier/cashier.service.impl.ts: a property
-- of the tables that their single writes keep is kept by every method.
pub mod Sessions
pub mod Entries
pub mod Corrections
pub mod Installments
pub mod Steps
use orbix_hub.Base.{
  ℕ, ◌≡◌, refl, Bool, true, false, Option, none, some, List, find, is_some, Text, arith, Bool-cases,
  inl, inr, modify, throw_if, ◌>>=◌, or_default, ltb, ◌==◌, trim,
}
use orbix_hub.Base.Keeps.{
  Keeps, Keeps-read, Keeps-pure, Keeps-throw, Keeps-gets, Keeps-or_throw, Keeps-if,
  Keeps-transaction, Keeps-modify, Keeps-throw_if, Keeps-catch, Keeps-bind, Keeps-then,
  Keeps-bind_gets,
}
use orbix_hub.Cashier.Config.{
  EntryCategory, SaleKind, direction_for_category, CashierConfig, incoming,
}
use orbix_hub.Cashier.Store.{
  CashSession, CashEntry, Installment, Db, Request, Error, AuditEvent, AuditRow, unique_violation,
  entry_has_id, find_open_session, create_session, create_entry_row, mark_reversed, audit_log,
}
use orbix_hub.Cashier.Discount.{ResultadoDesconto, granted, refused}
use orbix_hub.Cashier.Sessions.{
  OpenSessionDto, CloseSessionDto, close_found, explain_open, id_taken, refuse_open, open_session,
  close_session,
}
use orbix_hub.Cashier.Entries.{
  CreateEntryDto, resolve_sale, settle_discount, aprovar_desconto, approve_on, approve_for_document,
  session_or_implicit, ensure_session, explain_duplicate, audit_discount, create_entry, row_of,
}
use orbix_hub.Cashier.Corrections.{
  UpdateEntryDto, CorrectEntryDto, SaidaDeDespesa, inverts, edit_found, reverse_found, write_edit,
  update_entry, reverse_entry, correct_entry, corrected, expense_row, undo_found, audit_undo,
  registrar_saida_de_despesa, estornar_saida_de_despesa, pagamento_desfeito,
}
use orbix_hub.Cashier.Installments.{
  CreatePlanDto, PayInstallmentDto, payment_row, insert_plan, create_installment_plan,
  update_installment, pay_installment, repeats, category_of,
}
use orbix_hub.Calendar.{Day}
use orbix_hub.Cashier.Commands.{
  Command, open_caixa, close_caixa, lancar, editar, estornar, corrigir, pagar_despesa,
  desfazer_despesa, parcelar, mudar_parcela, pagar_parcela, step,
}

-- A row that a method may insert: its direction is the one of its category, and it is not reversed.
pub record IsNewRow (e : CashEntry) : Type 0 where
  pub coherent : e.direction ≡ direction_for_category e.category
  pub active : is_some e.reversed_at ≡ false

-- The single writes, each with what the methods know where they make it.
pub record Primitives (P : Db → Type 0) : Type 0 where
  pub inserts_session :
      (id user opening : ℕ) (notes : Option Text) (device : Option ℕ)
      → Keeps P (create_session id user opening notes device)
  pub closes :
      (req : Request) (dto : CloseSessionDto) (c : CashierConfig) (s : CashSession)
      → Keeps P (close_found req dto c s)
  pub inserts_entry : (e : CashEntry) → IsNewRow e → Keeps P (create_entry_row e)
  pub reverses :
      (id now user : ℕ) (reason : Text) (db : Db) (e : CashEntry)
      → find (entry_has_id id) db.entries ≡ some e
      → is_some e.reversed_at ≡ false
      → P db
      → P (mark_reversed id now user reason db)
  pub edits :
      (id : ℕ) (dto : UpdateEntryDto) (db : Db) (e : CashEntry)
      → find (entry_has_id id) db.entries ≡ some e
      → is_some e.reversed_at ≡ false
      → inverts e.category dto.category ≡ false
      → P db
      → P (write_edit id dto db)
  pub changes_installments :
      (is : List Installment) (db : Db) → P db → P (record db { installments = is })
  pub audits : (rows : List AuditRow) (db : Db) → P db → P (record db { audit = rows })

module _ {P : Db → Type 0} (p : Primitives P) where
  pub audit_log-Keeps : (actor : ℕ) (event : AuditEvent) → Keeps P (audit_log actor event)
  unfolding audit_log modify
  audit_log-Keeps actor event = record { at = λ db h. p.audits _ db h }

  pub ensure_session-Keeps :
      (req : Request) (c : CashierConfig) (device : Option ℕ)
      → Keeps P (ensure_session req c device)
  unfolding ensure_session
  ensure_session-Keeps req c device =
      Keeps-bind (find_open_session device) (session_or_implicit req c device) (Keeps-gets _)
        (go req c device)
    where
      go :
          (req : Request) (c : CashierConfig) (device : Option ℕ) (found : Option CashSession)
          → Keeps P (session_or_implicit req c device found)
      go req c device (some s) = Keeps-pure s
      go req c device none =
          Keeps-then (throw_if c.require_open_session _) _ (Keeps-throw_if _ _)
            (p.inserts_session req.session_uuid req.user_id 0 none device)

  pub settle_discount-Keeps : (r : ResultadoDesconto) → Keeps P (settle_discount r)
  unfolding settle_discount
  settle_discount-Keeps (granted d) = Keeps-pure d
  settle_discount-Keeps (refused m) = Keeps-throw _

  pub aprovar_desconto-Keeps :
      (role desconto saldo amount : ℕ) → Keeps P (aprovar_desconto role desconto saldo amount)
  unfolding aprovar_desconto
  aprovar_desconto-Keeps role desconto saldo amount =
      Keeps-if (desconto == 0) _ _ (Keeps-pure 0)
        (Keeps-bind _ _ (Keeps-gets _) λ pode. settle_discount-Keeps _)

  pub explain_duplicate-Keeps : (id : Option ℕ) (e : Error) → Keeps P (explain_duplicate id e)
  unfolding explain_duplicate
  explain_duplicate-Keeps (some id) (unique_violation b) = Keeps-throw _
  explain_duplicate-Keeps none e = Keeps-throw e
  explain_duplicate-Keeps (some id) e = Keeps-throw e

  pub audit_discount-Keeps :
      (req : Request) (target desconto : ℕ) (reason : Option Text)
      → Keeps P (audit_discount req target desconto reason)
  unfolding audit_discount
  audit_discount-Keeps req target desconto reason =
      Keeps-if (ltb 0 desconto) _ _ (audit_log-Keeps _ _) (Keeps-pure tt)
