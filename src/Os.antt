-- ===== src/Os.antt =====
-- The service orders: the statuses of back/src/modules/os/os-status.ts and the workflow of
-- back/src/modules/os/os.service.ts. The stock that follows a change of status is in `Os.Consumption`.
pub mod Workflow
pub mod Paths
pub mod Consumption
pub mod Store
pub mod Content
pub mod Fields
pub mod Service
pub mod Commands
pub mod Closed
pub mod Returned
pub mod Deleted
use orbix_hub.Base.{
  ℕ, ◌==◌, Bool, true, false, not, ◌&&◌, ◌||◌, Option, none, some, is_some, List, [], ◌∷◌, any,
  keep, if◌then◌else◌, Result, ok, err,
}

pub data OsStatus : Type 0 where
  aberta aguardando_aprovacao aprovada em_execucao aguardando_pecas pendente : OsStatus
  sem_conserto concluida a_receber entregue cancelada : OsStatus

abbrev pub os_statuses : List OsStatus
os_statuses =
    aberta ∷ aguardando_aprovacao ∷ aprovada ∷ em_execucao ∷ aguardando_pecas ∷ pendente
    ∷ sem_conserto ∷ concluida ∷ a_receber ∷ entregue ∷ cancelada ∷ []

abbrev status_code : OsStatus → ℕ
status_code aberta = 0
status_code aguardando_aprovacao = 1
status_code aprovada = 2
status_code em_execucao = 3
status_code aguardando_pecas = 4
status_code pendente = 5
status_code sem_conserto = 6
status_code concluida = 7
status_code a_receber = 8
status_code entregue = 9
status_code cancelada = 10

abbrev pub same_status : OsStatus → OsStatus → Bool
same_status a b = status_code a == status_code b

abbrev pub includes : List OsStatus → OsStatus → Bool
includes ss s = any (same_status s) ss

-- The groups of os-status.ts.
abbrev pub faturaveis : List OsStatus
faturaveis = concluida ∷ a_receber ∷ entregue ∷ []

abbrev pub encerradas : List OsStatus
encerradas = concluida ∷ a_receber ∷ entregue ∷ sem_conserto ∷ cancelada ∷ []

abbrev pub em_andamento : List OsStatus
em_andamento = keep (λ s. not (includes encerradas s)) os_statuses

-- The statuses in which an order consumes stock.
abbrev pub consuming_statuses : List OsStatus
consuming_statuses = em_execucao ∷ concluida ∷ a_receber ∷ entregue ∷ []

unfoldable pub consumes : OsStatus → Bool
consumes s = includes consuming_statuses s

unfoldable pub transitions : OsStatus → List OsStatus
transitions aberta = aguardando_aprovacao ∷ em_execucao ∷ pendente ∷ cancelada ∷ []
transitions aguardando_aprovacao = aprovada ∷ aberta ∷ cancelada ∷ []
transitions aprovada = em_execucao ∷ aguardando_pecas ∷ cancelada ∷ []
transitions em_execucao = concluida ∷ aguardando_pecas ∷ pendente ∷ sem_conserto ∷ cancelada ∷ []
transitions aguardando_pecas = em_execucao ∷ cancelada ∷ []
transitions pendente = aberta ∷ cancelada ∷ []
transitions sem_conserto = entregue ∷ cancelada ∷ []
transitions concluida = a_receber ∷ entregue ∷ em_execucao ∷ []
transitions a_receber = entregue ∷ em_execucao ∷ []
transitions entregue = em_execucao ∷ []
transitions cancelada = aberta ∷ []

-- `REABREM_EM_EXECUCAO`
abbrev pub reabrem_em_execucao : List OsStatus
reabrem_em_execucao = concluida ∷ a_receber ∷ entregue ∷ []

unfoldable pub is_reopen : OsStatus → OsStatus → Bool
is_reopen from to =
    (same_status from cancelada && same_status to aberta)
    || (includes reabrem_em_execucao from && same_status to em_execucao)

abbrev pub terminal_statuses : List OsStatus
terminal_statuses = cancelada ∷ entregue ∷ sem_conserto ∷ []

pub data Error : Type 0 where
  mesmo_status transicao_invalida aprovar_sem_permissao reabrir_sem_permissao : Error
  impedimento : ℕ → Error
  trava_falhou : Error
  nao_pode_ser_alterada : OsStatus → Error

-- `assertEditable`
unfoldable pub assert_editable : OsStatus → Result Error (Unit {0})
assert_editable s = if includes terminal_statuses s then err (nao_pode_ser_alterada s) else ok tt

-- What a registered lock of another module answers about an order; it may fail.
pub data LockAnswer : Type 0 where
  livre : LockAnswer
  motivo : ℕ → LockAnswer
  falha : LockAnswer

-- `primeiroImpedimento` of back/src/modules/os/order-lock.registry.ts, over the answers of the
-- registered locks in order.
unfoldable pub primeiro_impedimento : List LockAnswer → Result Error (Option ℕ)
primeiro_impedimento [] = ok none
primeiro_impedimento (livre ∷ rest) = primeiro_impedimento rest
primeiro_impedimento (motivo m ∷ rest) = ok (some m)
primeiro_impedimento (falha ∷ rest) = err trava_falhou

pub record Order : Type 0 where
  pub status : OsStatus
  pub started_at : Option ℕ
  pub finished_at : Option ℕ
  pub closed_at : Option ℕ

-- The caller's permission `os.approve`, the locks' answers and the clock.
pub record Request : Type 0 where
  pub may_approve : Bool
  pub locks : List LockAnswer
  pub now : ℕ

abbrev pub first_stamp : Bool → ℕ → Option ℕ → Option ℕ
first_stamp arrives now (some t) = some t
first_stamp arrives now none = if arrives then some now else none

-- The fields that the change writes.
unfoldable pub stamped : (now : ℕ) (to : OsStatus) → Order → Order
stamped now to o = record {
  status = to;
  started_at = first_stamp (same_status to em_execucao) now o.started_at;
  finished_at = first_stamp (same_status to concluida) now o.finished_at;
  closed_at =
      if same_status o.status entregue
      then none
      else if same_status to entregue
      then some now
      else o.closed_at;
}

unfoldable pub unless_locked : Result Error (Option ℕ) → Order → Result Error Order
unless_locked (ok none) o = ok o
unless_locked (ok (some m)) o = err (impedimento m)
unless_locked (err e) o = err e

-- `changeStatus`, up to the transaction that writes the order.
unfoldable pub change_status : Request → OsStatus → Order → Result Error Order
unfolding transitions is_reopen primeiro_impedimento unless_locked stamped
change_status req to o =
    if same_status o.status to
    then err mesmo_status
    else if not (includes (transitions o.status) to)
    then err transicao_invalida
    else if same_status to aprovada && not req.may_approve
    then err aprovar_sem_permissao
    else if is_reopen o.status to && not req.may_approve
    then err reabrir_sem_permissao
    else if is_reopen o.status to && not (same_status o.status cancelada)
    then unless_locked (primeiro_impedimento req.locks) (stamped req.now to o)
    else ok (stamped req.now to o)

-- The order after a request, which stays as it was when it is refused.
unfoldable pub attempt : Request → OsStatus → Order → Order
unfolding change_status
attempt req to o = elim (change_status req to o) [ ok after ↦ after | err e ↦ o ]

unfoldable pub run : List (Request × OsStatus) → Order → Order
unfolding attempt
run [] o = o
run ((req, to) ∷ rest) o = run rest (attempt req to o)

-- As it is created.
abbrev pub new_order : Order
new_order = record { status = aberta; started_at = none; finished_at = none; closed_at = none }
