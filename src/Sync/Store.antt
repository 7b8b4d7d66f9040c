-- ===== src/Sync/Store.antt =====
-- What a push reads and writes: the mutations and their answers, the table of
-- back/src/modules/sync/sync.repository.ts, and the registry of back/src/modules/sync/sync.registry.ts.
use orbix_hub.Base.{
  ℕ, ◌==◌, Bool, ◌&&◌, Option, is_some, List, [], ◌∷◌, ◌++◌, find, Text, Result, Exec, gets, modify,
  throw_if, ◌>>=◌, ◌>>◌,
}
use orbix_hub.Billing.{Status}
use orbix_hub.Sync.{Clock}
use orbix_hub.Sync.Payload.{Fields}

pub data SyncStatus : Type 0 where
  applied discarded error : SyncStatus

-- What is told to the user.
pub data Message : Type 0 where
  operacao_desconhecida sem_permissao erro_ao_aplicar : Message
  modulo_nao_habilitado : Text → Message
  assinatura_nao_permite : Status → Message
  payload_invalido : Text → Message
  de_excecao : Text → Message

pub record SyncMutationOutcome : Type 0 where
  pub status : SyncStatus
  pub entity_id : Option ℕ
  pub message : Option Message

pub record SyncMutationRow : Type 0 where
  pub author_user_id : ℕ
  pub client_mutation_id : ℕ
  pub entity : Text
  pub op : Text
  pub result : SyncStatus
  pub error_message : Option Message
  pub entity_id : Option ℕ

pub record PushResultItem : Type 0 where
  pub client_mutation_id : ℕ
  pub status : SyncStatus
  pub entity_id : Option ℕ
  pub message : Option Message

pub record SyncMutation (J : Type 0) : Type 0 where
  pub client_mutation_id : ℕ
  pub entity : Text
  pub op : Text
  pub payload : Fields J
  pub client_updated_at : Clock

-- `sync_overwrite` of the audit log.
pub record Overwrite : Type 0 where
  pub user_id : ℕ
  pub entity_id : Option ℕ
  pub client_updated_at : Clock
  pub effective_ts : Option ℕ

pub record Db (W : Type 0) : Type 0 where
  pub world : W
  pub ledger : List SyncMutationRow
  pub audit : List Overwrite

-- What a service threw: an `Error` with its message, or anything else.
pub data Thrown : Type 0 where
  error_of : Text → Thrown
  anything_else : Thrown

pub data Error : Type 0 where
  autor_do_lote violates_unique : Error
  of_service : Thrown → Error

pub record ModuleAccess : Type 0 where
  pub status : Status
  pub enabled : Bool
  pub is_core : Bool

-- `SyncOpDef`: the DTO, the module, the permission and the service of an operation.
pub record SyncOpDef (W J : Type 0) : Type 0 where
  pub dto : Fields J → Result Message (Fields J)
  pub module_key : Text
  pub permission : Text
  pub structural_keys : List Text
  pub get_updated_at : Option (ℕ → Fields J → W → Result Thrown (Option ℕ))
  pub apply : ℕ → Fields J → Exec W Thrown (Option ℕ)

-- The registry, and what the tables of roles and modules hold.
pub record Services (W J : Type 0) : Type 0 where
  pub sync_ops : Text → Option (SyncOpDef W J)
  pub permissions_of : (role : ℕ) → W → Text → Bool
  pub get_module_access : (module_key : Text) → W → ModuleAccess
  pub enforce_subscription : Bool

-- The authenticated user, and the clock at each mutation.
pub record Request : Type 0 where
  pub user_id : ℕ
  pub role : ℕ
  pub now : ℕ → ℕ

abbrev pub by_author : (author id : ℕ) → SyncMutationRow → Bool
by_author author id r = r.author_user_id == author && r.client_mutation_id == id

abbrev pub to_result : SyncMutationRow → PushResultItem
to_result prior = record {
  client_mutation_id = prior.client_mutation_id;
  status = prior.result;
  entity_id = prior.entity_id;
  message = prior.error_message;
}

abbrev pub with_outcome : ℕ → SyncMutationOutcome → PushResultItem
with_outcome id o = record {
  client_mutation_id = id;
  status = o.status;
  entity_id = o.entity_id;
  message = o.message;
}

abbrev pub recorded : {J : Type 0} → ℕ → SyncMutation J → SyncMutationOutcome → SyncMutationRow
recorded author m o = record {
  author_user_id = author;
  client_mutation_id = m.client_mutation_id;
  entity = m.entity;
  op = m.op;
  result = o.status;
  error_message = o.message;
  entity_id = o.entity_id;
}

module _ {J : Type 0} where
  abbrev pub matches : ℕ → SyncMutation J → SyncMutationRow → Bool
  matches author m r = by_author author m.client_mutation_id r

module _ {W : Type 0} where
  abbrev insert_row : SyncMutationRow → Db W → Db W
  insert_row r d = record d { ledger = d.ledger ++ (r ∷ []) }

module _ {W J : Type 0} where
  unfoldable pub find_mutation : ℕ → SyncMutation J → Exec (Db W) Error (Option SyncMutationRow)
  find_mutation author m = gets (λ d. find (matches author m) d.ledger)

  -- The insert, under the unique index on tenant, author and `client_mutation_id`.
  unfoldable pub create_mutation :
      ℕ → SyncMutation J → SyncMutationOutcome → Exec (Db W) Error (Unit {0})
  create_mutation author m o = do
    taken ← gets (λ d. is_some (find (matches author m) d.ledger))
    throw_if taken violates_unique
    modify (insert_row (recorded author m o))
