-- ===== src/Cashier/Commands/Traversal/Steps.antt =====
-- Every command of back/src/modules/cashier/cashier.service.impl.ts, walked through.
use orbix_hub.Cashier.Store.{Db, Request}
use orbix_hub.Cashier.Commands.{
  Command, open_caixa, close_caixa, lancar, editar, estornar, corrigir, pagar_despesa,
  desfazer_despesa, parcelar, mudar_parcela, pagar_parcela, step,
}
use orbix_hub.Cashier.Commands.Traversal.{Primitives}
use orbix_hub.Cashier.Commands.Traversal.Corrections.{
  correct_entry-Keeps, estornar-Keeps, registrar-Keeps, reverse_entry-Keeps, update_entry-Keeps,
}
use orbix_hub.Cashier.Commands.Traversal.Entries.{create_entry-Keeps}
use orbix_hub.Cashier.Commands.Traversal.Installments.{
  pay_installment-Keeps, plan-Keeps, update_installment-Keeps,
}
use orbix_hub.Cashier.Commands.Traversal.Sessions.{close_session-Keeps, open_session-Keeps}

module _ {P : Db → Type 0} (p : Primitives P) where
  -- What the single writes keep, every command keeps.
  pub step-keeps : (req : Request) (c : Command) (db : Db) → P db → P (step req c db)
  unfolding step
  step-keeps req (open_caixa dto) db h = (open_session-Keeps p req dto).at db h
  step-keeps req (close_caixa dto) db h = (close_session-Keeps p req dto).at db h
  step-keeps req (lancar dto) db h = (create_entry-Keeps p req dto).at db h
  step-keeps req (editar id dto) db h = (update_entry-Keeps p req id dto).at db h
  step-keeps req (estornar id reason) db h = (reverse_entry-Keeps p req id reason).at db h
  step-keeps req (corrigir id dto) db h = (correct_entry-Keeps p req id dto).at db h
  step-keeps req (pagar_despesa input) db h = (registrar-Keeps p req input).at db h
  step-keeps req (desfazer_despesa id) db h = (estornar-Keeps p req id).at db h
  step-keeps req (parcelar today uuids dto) db h = (plan-Keeps p today uuids dto).at db h
  step-keeps req (mudar_parcela id amount) db h = (update_installment-Keeps p req id amount).at db h
  step-keeps req (pagar_parcela id dto) db h = (pay_installment-Keeps p req id dto).at db h
