-- ===== src/Cashier/Commands.antt =====
-- The cash book as a state machine: every method of
-- back/src/modules/cashier/cashier.service.impl.ts that writes `cash_session`, `cash_entry` or
-- `receivable_installment`, as a command. A method that throws is a step too: what it had committed
-- stays. Requests are served one after the other.
pub mod Traversal
pub mod Ledger
pub mod Direction
use orbix_hub.Base.{ℕ, List, [], ◌∷◌, Text}
use orbix_hub.Calendar.{Day}
use orbix_hub.Cashier.Store.{Db, Request}
use orbix_hub.Cashier.Sessions.{OpenSessionDto, CloseSessionDto, open_session, close_session}
use orbix_hub.Cashier.Entries.{CreateEntryDto, create_entry}
use orbix_hub.Cashier.Corrections.{
  UpdateEntryDto, CorrectEntryDto, SaidaDeDespesa, update_entry, reverse_entry, correct_entry,
  registrar_saida_de_despesa, estornar_saida_de_despesa,
}
use orbix_hub.Cashier.Installments.{
  CreatePlanDto, PayInstallmentDto, create_installment_plan, update_installment, pay_installment,
}

pub data Command : Type 0 where
  open_caixa : OpenSessionDto → Command
  close_caixa : CloseSessionDto → Command
  lancar : CreateEntryDto → Command
  editar : (id : ℕ) → UpdateEntryDto → Command
  estornar : (id : ℕ) (reason : Text) → Command
  corrigir : (id : ℕ) → CorrectEntryDto → Command
  pagar_despesa : SaidaDeDespesa → Command
  desfazer_despesa : (id : ℕ) → Command
  parcelar : (today : Day) (uuids : List ℕ) → CreatePlanDto → Command
  mudar_parcela : (id amount : ℕ) → Command
  pagar_parcela : (id : ℕ) → PayInstallmentDto → Command

-- The tables after a command.
pub step : Request → Command → Db → Db
step req (open_caixa dto) db = (open_session req dto db).1
step req (close_caixa dto) db = (close_session req dto db).1
step req (lancar dto) db = (create_entry req dto db).1
step req (editar id dto) db = (update_entry req id dto db).1
step req (estornar id reason) db = (reverse_entry req id reason db).1
step req (corrigir id dto) db = (correct_entry req id dto db).1
step req (pagar_despesa input) db = (registrar_saida_de_despesa req input db).1
step req (desfazer_despesa id) db = (estornar_saida_de_despesa req id db).1
step req (parcelar today uuids dto) db = (create_installment_plan today uuids dto db).1
step req (mudar_parcela id amount) db = (update_installment req id amount db).1
step req (pagar_parcela id dto) db = (pay_installment req id dto db).1

pub run : List (Request × Command) → Db → Db
run [] db = db
run ((req, c) ∷ rest) db = run rest (step req c db)

-- An invariant of every command is one of every run.
module _ {P : Db → Type 0}
    (keeps : (req : Request) (c : Command) (db : Db) → P db → P (step req c db)) where
  pub run-keeps : (cs : List (Request × Command)) (db : Db) → P db → P (run cs db)
  unfolding run
  run-keeps [] db h = h
  run-keeps ((req, c) ∷ rest) db h = run-keeps rest (step req c db) (keeps req c db h)
