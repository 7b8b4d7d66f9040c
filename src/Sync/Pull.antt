-- ===== src/Sync/Pull.antt =====
-- The pull of changes: `getChanges` of back/src/modules/sync/sync.service.ts, and the `listChangedSince` of the
-- service that owns the entity. The routes from an entity to a service are an argument; so is what that service
-- reads of its tables, as it sends them.
pub mod Complete
use orbix_hub.Base.{
  ℕ, ◌*◌, Bool, false, not, Option, none, some, or_default, is_some, List, pos, Text, Exec, pure,
  throw, gets, or_throw, throw_if, ◌>>=◌, ◌>>◌,
}
use orbix_hub.ChangedSince.{
  ChangeCursor, ChangedSincePage, Limit, finite, query_changed_since, clamp_changed_since_limit,
}
use orbix_hub.Sync.Store
use orbix_hub.Sync.Store.{Services}
use orbix_hub.Sync.Push.{resolve_module_denial}

-- `tables` answers for the entities of the service.
pub record PullRouteDef (W A : Type 0) : Type 0 where
  pub tables : Text → Option (W → List A)
  pub module_key : Text
  pub permission : Text

pub record PullChangesQuery : Type 0 where
  pub entity : Text
  pub since_ts : Option ℕ
  pub since_id : Option ℕ
  pub limit : Option ℕ

pub data Refusal : Type 0 where
  entidade_desconhecida entidade_de_outro_modulo sem_permissao_de_leitura : Refusal
  of_module : Store.Message → Refusal

pub record Changes (A : Type 0) : Type 0 where
  pub page : ChangedSincePage A
  pub server_time : ℕ

abbrev pub whole : ℕ → Limit
whole n = finite (pos (n * 1000))

-- Both parts or none.
abbrev pub cursor_of : (since_ts since_id : Option ℕ) → Option ChangeCursor
cursor_of (some ts) (some id) = some (record { ts = ts; id = id })
cursor_of (some ts) none = none
cursor_of none id = none

abbrev pub refuse_denied : {W : Type 0} → Option Store.Message → Exec W Refusal (Unit {0})
refuse_denied none = pure tt
refuse_denied (some m) = throw (of_module m)

module _ {W A : Type 0} (stamp : A → ChangeCursor) where
  unfoldable pub list_changed_since :
      PullRouteDef W A
      → (entity : Text) → Option ChangeCursor
      → Limit
      → Exec W Refusal (ChangedSincePage A)
  unfolding query_changed_since clamp_changed_since_limit
  list_changed_since service entity cursor limit = do
    read ← or_throw (service.tables entity) entidade_de_outro_modulo
    gets (λ w. query_changed_since stamp (read w) cursor (clamp_changed_since_limit limit))

  module _ {J : Type 0} (services : Services W J)
      (pull_routes : Text → Option (PullRouteDef W A)) where
    unfoldable pub get_changes : (role now : ℕ) → PullChangesQuery → Exec W Refusal (Changes A)
    unfolding resolve_module_denial list_changed_since clamp_changed_since_limit
    get_changes role now query = do
      route ← or_throw (pull_routes query.entity) entidade_desconhecida
      granted ← gets (λ w. services.permissions_of role w route.permission)
      throw_if (not granted) sem_permissao_de_leitura
      denied ← gets (resolve_module_denial services route.module_key false)
      refuse_denied denied
      let cursor = cursor_of query.since_ts query.since_id
      let limit = clamp_changed_since_limit (whole (or_default query.limit 500))
      page ← list_changed_since route query.entity cursor (whole limit)
      pure (record { page = page; server_time = now })
