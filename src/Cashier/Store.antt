-- ===== src/Cashier/Store.antt =====
-- back/src/modules/cashier/cashier.repository.ts and the migrations of `cash_session`,
-- `cash_entry` and `receivable_installment`: the tables of one tenant (row-level security keeps
-- the others out of sight) with the constraints the database enforces. Stored amounts are in cents.
use orbix_hub.Base.{
  ℕ, ◌==◌, Bool, true, false, not, ◌&&◌, Option, none, some, is_some, same_option, List, ◌++◌, ◌∷◌,
  [], find, any, update_first, sum_by, if◌then◌else◌, Text, ℤ, Exec, ok, err, gets, modify,
}
use orbix_hub.Calendar.{Day}
use orbix_hub.Cashier.Config.{
  PaymentMethod, EntryCategory, EntryDirection, incoming, outgoing, SaleKind, CashierConfig,
  PartialConfig, empty_config, merge_cashier_config,
}
use orbix_hub.Cashier.Discount.{Motivo}

pub data SessionStatus : Type 0 where
  is_open is_closed : SessionStatus

pub record CashSession : Type 0 where
  pub id : ℕ
  pub status : SessionStatus
  pub opened_by : ℕ
  pub opening_amount : ℕ
  pub notes : Option Text
  pub device_id : Option ℕ
  pub closed_by : Option ℕ
  pub closing_counted : Option ℕ
  pub closing_expected : Option ℤ
  pub difference : Option ℤ
  pub closed_at : Option ℕ

pub record CashEntry : Type 0 where
  pub id : ℕ
  pub cash_session_id : ℕ
  pub direction : EntryDirection
  pub amount : ℕ
  pub method : PaymentMethod
  pub category : EntryCategory
  pub sale_kind : Option SaleKind
  pub sale_id : Option ℕ
  pub description : Option Text
  pub discount : ℕ
  pub discount_reason : Option Text
  pub created_by : ℕ
  pub reversed_at : Option ℕ
  pub reversed_by : Option ℕ
  pub reversal_reason : Option Text

pub record Installment : Type 0 where
  pub id : ℕ
  pub sale_kind : SaleKind
  pub sale_id : ℕ
  pub amount : ℕ
  pub due_date : Day
  pub paid_at : Option ℕ
  pub entry_id : Option ℕ
  pub notes : Option Text

pub data Permission : Type 0 where
  cashier_manage cashier_discount : Permission

-- A row of the join of `role`, `role_permission` and `permission`.
pub record Grant : Type 0 where
  pub role : ℕ
  pub permission : Permission

-- The events of the audit log, with their metadata.
pub data AuditEvent : Type 0 where
  session_open : (id : ℕ) → AuditEvent
  session_close : (id : ℕ) (expected difference : ℤ) → AuditEvent
  entry_create :
      (id : ℕ) (category : EntryCategory) (direction : EntryDirection) (amount : ℕ)
      (sale_kind : Option SaleKind) (sale_id : Option ℕ)
      → AuditEvent
  discount_grant : (target discount : ℕ) (reason : Option Text) → AuditEvent
  entry_update : (id : ℕ) → AuditEvent
  entry_correct : (id corrected before after discount_before discount_after : ℕ) → AuditEvent
  entry_reverse : (id : ℕ) (reason : Text) → AuditEvent
  installment_amount_update : (id before after : ℕ) → AuditEvent
  installment_pay : (id discount : ℕ) → AuditEvent

pub record AuditRow : Type 0 where
  pub actor : ℕ
  pub event : AuditEvent

pub record Db : Type 0 where
  pub sessions : List CashSession
  pub entries : List CashEntry
  pub installments : List Installment
  pub grants : List Grant
  pub settings : PartialConfig  -- `tenant_module.settings['cashier']`, which billing keeps
  pub audit : List AuditRow

-- The messages of the HTTP exceptions.
pub data Message : Type 0 where
  caixa_ja_aberto nao_ha_caixa_aberto id_duplicado gestao_exige_permissao : Message
  desconto_sem_documento lancamento_nao_encontrado lancamento_estornado : Message
  lancamento_ja_estornado troca_inverte_direcao os_exige_vinculo forma_nao_aceita : Message
  parcela_nao_encontrada parcela_ja_paga parcela_inexistente_ou_paga : Message
  plano_pendente_existe ids_por_parcela : Message
  desconto_recusado : Motivo → Message

-- `unique_violation` carries whether `meta.target` names the primary key: it does not under
-- row-level security. The database's own errors surface as a status of 500.
pub data Error : Type 0 where
  bad_request conflict forbidden not_found : Message → Error
  unique_violation : (names_id : Bool) → Error
  check_violation : Error

abbrev pub Cashier : Type 0 → Type 0
Cashier A = Exec Db Error A

-- The authenticated user, the clock, and the uuids that `gen_random_uuid()` answers.
pub record Request : Type 0 where
  pub user_id : ℕ
  pub role : ℕ
  pub now : ℕ
  pub session_uuid : ℕ
  pub entry_uuid : ℕ

-- `getConfig`
unfoldable pub get_config : Cashier CashierConfig
unfolding merge_cashier_config
get_config = gets (λ db. merge_cashier_config db.settings empty_config)

abbrev pub is_open_status : SessionStatus → Bool
is_open_status is_open = true
is_open_status is_closed = false

abbrev pub open_at : Option ℕ → CashSession → Bool
open_at device s = is_open_status s.status && same_option s.device_id device

unfoldable pub find_open_session : Option ℕ → Cashier (Option CashSession)
find_open_session device = gets (λ db. find (open_at device) db.sessions)

abbrev pub session_has_id : ℕ → CashSession → Bool
session_has_id id s = s.id == id

unfoldable pub find_session_by_id : ℕ → Cashier (Option CashSession)
find_session_by_id id = gets (λ db. find (session_has_id id) db.sessions)

abbrev pub opened_session :
    (id opened_by opening_amount : ℕ) (notes : Option Text) (device_id : Option ℕ) → CashSession
opened_session id opened_by opening_amount notes device_id = record {
  id = id;
  status = is_open;
  opened_by = opened_by;
  opening_amount = opening_amount;
  notes = notes;
  device_id = device_id;
  closed_by = none;
  closing_counted = none;
  closing_expected = none;
  difference = none;
  closed_at = none;
}

abbrev insert_session : CashSession → Db → Db
insert_session s db = record db { sessions = db.sessions ++ (s ∷ []) }

-- INSERT under the primary key and the partial index `uq_cash_session_open_device`.
unfoldable pub create_session :
    (id opened_by opening_amount : ℕ) (notes : Option Text) (device_id : Option ℕ)
    → Cashier CashSession
create_session id opened_by opening_amount notes device_id db =
    if any (session_has_id id) db.sessions
    then (err (unique_violation false), db)
    else if any (open_at device_id) db.sessions
    then (err (unique_violation false), db)
    else (
      ok (opened_session id opened_by opening_amount notes device_id),
      insert_session (opened_session id opened_by opening_amount notes device_id) db,
    )

abbrev pub entry_has_id : ℕ → CashEntry → Bool
entry_has_id id e = e.id == id

unfoldable pub find_entry_by_id : ℕ → Cashier (Option CashEntry)
find_entry_by_id id = gets (λ db. find (entry_has_id id) db.entries)

-- INSERT under `cash_entry_amount_chk` (migration 0055) and the primary key.
unfoldable pub create_entry_row : CashEntry → Cashier CashEntry
create_entry_row e db =
    if e.amount == 0 && e.discount == 0
    then (err check_violation, db)
    else if any (entry_has_id e.id) db.entries
    then (err (unique_violation false), db)
    else (ok e, record db { entries = db.entries ++ (e ∷ []) })

abbrev pub reverse_row : (now user : ℕ) → Text → CashEntry → CashEntry
reverse_row now user reason e = record e {
  reversed_at = some now;
  reversed_by = some user;
  reversal_reason = some reason;
}

unfoldable pub mark_reversed : (id now user : ℕ) → Text → Db → Db
mark_reversed id now user reason db = record db {
  entries = update_first (entry_has_id id) (reverse_row now user reason) db.entries;
}

-- What settles a document: money in, not reversed.
abbrev pub settles : ℕ → CashEntry → Bool
settles sale_id e =
    same_option e.sale_id (some sale_id) && is_in e.direction && not (is_some e.reversed_at)
  where
    is_in : EntryDirection → Bool
    is_in incoming = true
    is_in outgoing = false

pub record Settled : Type 0 where
  pub recebido : ℕ
  pub desconto : ℕ

unfoldable pub sum_settled_for_sale : ℕ → Db → Settled
sum_settled_for_sale sale_id db = record {
  recebido = sum_by (λ e. if settles sale_id e then e.amount else 0) db.entries;
  desconto = sum_by (λ e. if settles sale_id e then e.discount else 0) db.entries;
}

unfoldable pub audit_log : ℕ → AuditEvent → Cashier (Unit {0})
audit_log actor event =
    modify (λ db. record db { audit = db.audit ++ (record { actor = actor; event = event } ∷ []) })
