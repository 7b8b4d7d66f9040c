-- ===== src/Sync/Push.antt =====
-- The replay of an offline outbox: `push` of back/src/modules/sync/sync.service.ts. What the other modules keep is
-- `world`; their services come in by the registry of operations.
pub mod Ledger
pub mod Allowed
pub mod Answers
use orbix_hub.Base.{
  ℕ, ◌==◌, Bool, true, false, not, ◌&&◌, Option, none, some, or_default, is_some, List, [], ◌∷◌,
  ◌++◌, find, if◌then◌else◌, Text, same_text, Result, ok, err, Exec, pure, throw, gets, transaction,
  catch, modify, throw_if, ◌>>=◌, ◌>>◌,
}
use orbix_hub.Billing.{Status, subscription_allows}
use orbix_hub.Sync.{Clock, lww_discards, effective_ts_ms}
use orbix_hub.Sync.Store.{
  Db, Error, Message, ModuleAccess, Overwrite, PushResultItem, Request, Services, SyncMutation,
  SyncMutationOutcome, SyncMutationRow, SyncOpDef, SyncStatus, Thrown, anything_else, applied,
  assinatura_nao_permite, autor_do_lote, by_author, create_mutation, de_excecao, discarded,
  erro_ao_aplicar, error, error_of, find_mutation, matches, modulo_nao_habilitado, of_service,
  operacao_desconhecida, payload_invalido, recorded, sem_permissao, to_result, violates_unique,
  with_outcome,
}
use orbix_hub.Sync.Payload.{Fields, validate_payload}

unfoldable pub message_of : Thrown → Message
message_of (error_of []) = erro_ao_aplicar
message_of (error_of (c ∷ cs)) = de_excecao (c ∷ cs)
message_of anything_else = erro_ao_aplicar

abbrev pub refused : Message → SyncMutationOutcome
refused m = record { status = error; entity_id = none; message = some m }

abbrev pub discarded_outcome : SyncMutationOutcome
discarded_outcome = record { status = discarded; entity_id = none; message = none }

abbrev pub applied_outcome : Option ℕ → SyncMutationOutcome
applied_outcome id = record { status = applied; entity_id = id; message = none }

abbrev pub Cache : Type 0
Cache = List (Text × Option Message)

abbrev pub of_module : Text → Text × Option Message → Bool
unfolding same_text
of_module key e = same_text e.0 key

unfoldable pub resolve_module_denial :
    {W J : Type 0} → Services W J → Text → (is_write : Bool) → W → Option Message
unfolding subscription_allows
resolve_module_denial services key is_write w =
    let access = services.get_module_access key w in
    if not access.is_core && not access.enabled
    then some (modulo_nao_habilitado key)
    else if subscription_allows access.status is_write services.enforce_subscription
    then none
    else some (assinatura_nao_permite access.status)

-- The decision for a module is taken once in a push, for writing.
abbrev pub denial_or :
    Text → Option (Text × Option Message) → Cache → Option Message → Option Message × Cache
denial_or key (some e) cache fresh = (e.1, cache)
denial_or key none cache fresh = (fresh, (key, fresh) ∷ cache)

unfoldable pub module_denial :
    {W J : Type 0} → Services W J → Text → Cache → W → Option Message × Cache
unfolding resolve_module_denial of_module
module_denial services key cache w =
    denial_or key (find (of_module key) cache) cache (resolve_module_denial services key true w)

module _ {J : Type 0} where
  -- `${m.entity}.${m.op}`
  abbrev pub op_key : SyncMutation J → Text
  op_key m = m.entity ++ (46 ∷ m.op)

  abbrev pub answer_of :
      SyncMutation J → SyncMutationOutcome → Option SyncMutationRow → PushResultItem
  answer_of m o none = with_outcome m.client_mutation_id o
  answer_of m o (some winner) = to_result winner

module _ {W : Type 0} where
  -- `try` around a service: what it threw is a value.
  abbrev keep_world :
      {A : Type 0} → Db W → Result Thrown A × W → Result Error (Result Thrown A) × Db W
  keep_world d (r, w) = (ok r, record d { world = w })

  abbrev pub try_service : {A : Type 0} → Exec W Thrown A → Exec (Db W) Error (Result Thrown A)
  try_service m d = keep_world d (m d.world)

abbrev pub read_or_none : Result Thrown (Option ℕ) → Option ℕ
read_or_none (ok t) = t
read_or_none (err e) = none

module _ {W J : Type 0} where
  unfoldable pub after_violation :
      ℕ → SyncMutation J → Error → Exec (Db W) Error (Option SyncMutationRow)
  unfolding find_mutation
  after_violation author m violates_unique = find_mutation author m
  after_violation author m autor_do_lote = throw autor_do_lote
  after_violation author m (of_service t) = throw (of_service t)

  -- Nothing, or the outcome that another push has recorded first.
  unfoldable pub record_mutation :
      ℕ → SyncMutation J → SyncMutationOutcome → Exec (Db W) Error (Option SyncMutationRow)
  unfolding create_mutation after_violation
  record_mutation author m o =
      catch (do transaction (create_mutation author m o); pure none) (after_violation author m)

  abbrev pub current_by :
      Option (ℕ → Fields J → W → Result Thrown (Option ℕ)) → ℕ → SyncMutation J → W → Option ℕ
  current_by none user m w = none
  current_by (some read) user m w = read_or_none (read user m.payload w)

  -- When the row was written last, if the operation has a row to overwrite.
  abbrev pub current_updated_at : SyncOpDef W J → ℕ → SyncMutation J → W → Option ℕ
  current_updated_at op user m w = current_by op.get_updated_at user m w

  -- Best effort: whatever it throws is caught.
  unfoldable pub log_overwrite :
      Request → SyncMutation J → (current entity_id : Option ℕ) → Exec (Db W) Error (Unit {0})
  unfolding effective_ts_ms
  log_overwrite req m none entity_id = pure tt
  log_overwrite req m (some t) entity_id =
      let row : Overwrite = record {
        user_id = req.user_id;
        entity_id = entity_id;
        client_updated_at = m.client_updated_at;
        effective_ts = effective_ts_ms m.client_updated_at (req.now m.client_mutation_id);
      } in
      catch (modify (λ d. record d { audit = d.audit ++ (row ∷ []) })) (λ e. pure tt)

  unfoldable pub after_apply :
      Request
      → SyncMutation J
      → (current : Option ℕ) → Result Thrown (Option ℕ)
      → Exec (Db W) Error SyncMutationOutcome
  unfolding log_overwrite message_of
  after_apply req m current (err e) = pure (refused (message_of e))
  after_apply req m current (ok id) = do log_overwrite req m current id; pure (applied_outcome id)

  -- With a valid payload: the last write wins.
  unfoldable pub replay :
      SyncOpDef W J
      → Request
      → SyncMutation J
      → Result Message (Fields J)
      → Exec (Db W) Error SyncMutationOutcome
  unfolding after_apply lww_discards
  replay op req m (err message) = pure (refused message)
  replay op req m (ok value) = do
    current ← gets (λ d. current_updated_at op req.user_id m d.world)
    let late = lww_discards current m.client_updated_at (req.now m.client_mutation_id)
    if late
        then pure discarded_outcome
        else do r ← try_service (op.apply req.user_id value); after_apply req m current r

  unfoldable pub replay_unless_denied :
      SyncOpDef W J
      → Request
      → SyncMutation J
      → Option Message × Cache
      → Exec (Db W) Error (SyncMutationOutcome × Cache)
  unfolding replay validate_payload
  replay_unless_denied op req m (some message, cache) = pure (refused message, cache)
  replay_unless_denied op req m (none, cache) = do
    o ← replay op req m (validate_payload op.dto op.structural_keys m.payload)
    pure (o, cache)

  unfoldable pub apply_op :
      Services W J
      → Request
      → (granted : Text → Bool) → Cache
      → SyncMutation J
      → Option (SyncOpDef W J)
      → Exec (Db W) Error (SyncMutationOutcome × Cache)
  unfolding replay_unless_denied module_denial
  apply_op services req granted cache m none = pure (refused operacao_desconhecida, cache)
  apply_op services req granted cache m (some op) =
      if not (granted op.permission) then pure (refused sem_permissao, cache) else do
        denial ← gets (λ d. module_denial services op.module_key cache d.world)
        replay_unless_denied op req m denial

  unfoldable pub apply_mutation :
      Services W J
      → Request
      → (granted : Text → Bool) → Cache
      → SyncMutation J
      → Exec (Db W) Error (SyncMutationOutcome × Cache)
  unfolding apply_op
  apply_mutation services req granted cache m =
      apply_op services req granted cache m (services.sync_ops (op_key m))

  -- What is done for a mutation, by what the lookup found. `rivals` is what other pushes of the tenant
  -- commit between the lookup and the insert of the mutation with an id.
  unfoldable pub process :
      Services W J
      → (rivals : ℕ → Db W → Db W) → Request
      → (granted : Text → Bool) → Cache
      → SyncMutation J
      → Option SyncMutationRow
      → Exec (Db W) Error (PushResultItem × Cache)
  unfolding apply_mutation record_mutation
  process services rivals req granted cache m (some prior) = pure (to_result prior, cache)
  process services rivals req granted cache m none = do
    o ← apply_mutation services req granted cache m
    modify (rivals m.client_mutation_id)
    winner ← record_mutation req.user_id m o.0
    pure (answer_of m o.0 winner, o.1)

  unfoldable pub process_all :
      Services W J
      → (rivals : ℕ → Db W → Db W) → Request
      → (granted : Text → Bool) → Cache
      → List (SyncMutation J)
      → Exec (Db W) Error (List PushResultItem)
  unfolding process find_mutation
  process_all services rivals req granted cache [] = pure []
  process_all services rivals req granted cache (m ∷ ms) = do
    prior ← find_mutation req.user_id m
    r ← process services rivals req granted cache m prior
    rest ← process_all services rivals req granted r.1 ms
    pure (r.0 ∷ rest)

  unfoldable pub push :
      Services W J
      → (rivals : ℕ → Db W → Db W) → Request
      → (author_user_id : ℕ) → List (SyncMutation J)
      → Exec (Db W) Error (List PushResultItem)
  unfolding process_all
  push services rivals req author ms = do
    throw_if (not (author == req.user_id)) autor_do_lote
    granted ← gets (λ d. services.permissions_of req.role d.world)
    process_all services rivals req granted [] ms
