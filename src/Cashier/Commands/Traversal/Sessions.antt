-- ===== src/Cashier/Commands/Traversal/Sessions.antt =====
-- `openSession` and `closeSession` of
-- back/src/modules/cashier/cashier.service.impl.ts, walked through.
use orbix_hub.Base.{ℕ, Bool, true, false, Option, none, some, ◌>>=◌}
use orbix_hub.Base.Keeps.{
  Keeps, Keeps-pure, Keeps-throw, Keeps-gets, Keeps-or_throw, Keeps-transaction, Keeps-throw_if,
  Keeps-catch, Keeps-bind, Keeps-then,
}
use orbix_hub.Cashier.Store.{Db, Request, Error, unique_violation}
use orbix_hub.Cashier.Sessions.{
  OpenSessionDto, CloseSessionDto, explain_open, id_taken, refuse_open, open_session, close_session,
}
use orbix_hub.Cashier.Commands.Traversal.{Primitives, audit_log-Keeps}

module _ {P : Db → Type 0} (p : Primitives P) where
  pub id_taken-Keeps : (names_id : Bool) (id : ℕ) → Keeps P (id_taken names_id id)
  unfolding id_taken ◌>>=◌
  id_taken-Keeps true id = Keeps-pure true
  id_taken-Keeps false id = record { at = λ db h. h }

  pub refuse_open-Keeps : (taken : Bool) → Keeps P (refuse_open taken)
  unfolding refuse_open
  refuse_open-Keeps true = Keeps-throw _
  refuse_open-Keeps false = Keeps-throw _

  pub explain_open-Keeps : (id : Option ℕ) (e : Error) → Keeps P (explain_open id e)
  unfolding explain_open
  explain_open-Keeps none (unique_violation b) = Keeps-throw _
  explain_open-Keeps (some id) (unique_violation b) =
      Keeps-bind _ _ (Keeps-transaction _ (id_taken-Keeps b id)) refuse_open-Keeps
  explain_open-Keeps none e = Keeps-throw e
  explain_open-Keeps (some id) e = Keeps-throw e

  pub open_session-Keeps : (req : Request) (dto : OpenSessionDto) → Keeps P (open_session req dto)
  unfolding open_session
  open_session-Keeps req dto =
      Keeps-catch _ _
        (Keeps-bind _ _
          (Keeps-transaction _ (
            Keeps-bind _ _ (Keeps-gets _)
              (λ found. Keeps-bind _ _ (Keeps-throw_if _ _) (λ u. p.inserts_session _ _ _ _ _))))
          (λ s. Keeps-then _ _ (audit_log-Keeps p _ _) (Keeps-pure s)))
        (explain_open-Keeps dto.id)

  pub close_session-Keeps :
      (req : Request) (dto : CloseSessionDto) → Keeps P (close_session req dto)
  unfolding close_session
  close_session-Keeps req dto = Keeps-bind _ _ (Keeps-gets _) λ c.
      Keeps-bind _ _
        (Keeps-transaction _ (
          Keeps-bind _ _ (Keeps-gets _)
            λ found. Keeps-bind _ _ (Keeps-or_throw _ _) λ s. p.closes req dto c s))
        λ closing. Keeps-then _ _ (audit_log-Keeps p _ _) (Keeps-pure _)
