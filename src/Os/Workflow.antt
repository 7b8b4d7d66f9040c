-- ===== src/Os/Workflow.antt =====
-- What `changeStatus` of back/src/modules/os/os.service.ts lets through, and what every run of it
-- keeps of an order.
use orbix_hub.Base.{
  ℕ, true, false, not, ◌&&◌, ◌||◌, Option, none, some, is_some, List, [], ◌∷◌, Result, ok, err, ◌≡◌,
  ◌≢◌, ◌↔◌, ◌⊎◌, refl, ap, sym, ◌∙◌, arith, All,
}
use orbix_hub.Os.{
  OsStatus, aberta, aguardando_aprovacao, aguardando_pecas, pendente, sem_conserto, aprovada,
  em_execucao, concluida, a_receber, entregue, cancelada, LockAnswer, livre, motivo, falha,
  same_status, includes, transitions, is_reopen, consumes, Request, Order, stamped, change_status,
  attempt, run, Error, primeiro_impedimento, faturaveis, unless_locked,
}

-- Where an order may come from, status by status.
abbrev pub comes_from : OsStatus → List OsStatus
comes_from aberta = aguardando_aprovacao ∷ pendente ∷ cancelada ∷ []
comes_from aguardando_aprovacao = aberta ∷ []
comes_from aprovada = aguardando_aprovacao ∷ []
comes_from em_execucao =
    aberta ∷ aprovada ∷ aguardando_pecas ∷ concluida ∷ a_receber ∷ entregue ∷ []
comes_from aguardando_pecas = aprovada ∷ em_execucao ∷ []
comes_from pendente = aberta ∷ em_execucao ∷ []
comes_from sem_conserto = em_execucao ∷ []
comes_from concluida = em_execucao ∷ []
comes_from a_receber = concluida ∷ []
comes_from entregue = sem_conserto ∷ concluida ∷ a_receber ∷ []
comes_from cancelada =
    aberta ∷ aguardando_aprovacao ∷ aprovada ∷ em_execucao ∷ aguardando_pecas ∷ pendente
    ∷ sem_conserto ∷ []

abbrev pub IsAmong : OsStatus → List OsStatus → Type 0
IsAmong s [] = ⊥
IsAmong s (t ∷ ts) = (s ≡ t) ⊎ IsAmong s ts

-- The work on a finished order is taken up again.
abbrev pub Resumes : (from to : OsStatus) → Type 0
Resumes from to =
    ((from ≡ concluida) ⊎ ((from ≡ a_receber) ⊎ (from ≡ entregue))) × (to ≡ em_execucao)

-- What only a holder of `os.approve` may do.
abbrev pub NeedsApproval : (from to : OsStatus) → Type 0
NeedsApproval from to = (to ≡ aprovada) ⊎ (((from ≡ cancelada) × (to ≡ aberta)) ⊎ Resumes from to)

-- What a change must meet.
pub record MayChange (req : Request) (from to : OsStatus) : Type 0 where
  pub edge : IsAmong from (comes_from to)
  pub approved : NeedsApproval from to → req.may_approve ≡ true
  pub unlocked : Resumes from to → All (λ lock. lock ≡ livre) req.locks

-- What it writes, stamp by stamp.
abbrev pub started_after : ℕ → (to : OsStatus) → Option ℕ → Option ℕ
started_after now em_execucao none = some now
started_after now to started = started

abbrev pub finished_after : ℕ → (to : OsStatus) → Option ℕ → Option ℕ
finished_after now concluida none = some now
finished_after now to finished = finished

abbrev pub closed_after : ℕ → (from to : OsStatus) → Option ℕ → Option ℕ
closed_after now entregue to closed = none
closed_after now from entregue closed = some now
closed_after now from to closed = closed

abbrev pub changed : ℕ → OsStatus → Order → Order
changed now to o = record {
  status = to;
  started_at = started_after now to o.started_at;
  finished_at = finished_after now to o.finished_at;
  closed_at = closed_after now o.status to o.closed_at;
}

-- No lock answers anything but that the order is free.
pub primeiro_impedimento_iff :
    (locks : List LockAnswer)
    → (primeiro_impedimento locks ≡ ok none) ↔ All (λ lock. lock ≡ livre) locks
unfolding primeiro_impedimento
primeiro_impedimento_iff [] = (λ h. tt, λ h. refl)
primeiro_impedimento_iff (livre ∷ rest) =
    let more = primeiro_impedimento_iff rest in (λ h. (refl, more.0 h), λ h. more.1 h.1)
primeiro_impedimento_iff (motivo m ∷ rest) = (λ h. cc, λ h. cc h.0)
primeiro_impedimento_iff (falha ∷ rest) = (λ h. cc, λ h. cc h.0)

same_status_iff : (s t : OsStatus) → (same_status s t ≡ true) ↔ (s ≡ t)
same_status_iff s t = ground arith

includes_iff : (ts : List OsStatus) (s : OsStatus) → (includes ts s ≡ true) ↔ IsAmong s ts
includes_iff [] s = ground arith
includes_iff (t ∷ ts) s = ground (arith, includes_iff ts s, same_status_iff s t)

-- The table, read the other way round.
transposed : (from to : OsStatus) → includes (transitions from) to ≡ includes (comes_from to) from
unfolding transitions
transposed from to = ground arith

edge_iff :
    (from to : OsStatus) → (includes (transitions from) to ≡ true) ↔ IsAmong from (comes_from to)
edge_iff from to =
    let there = includes_iff (comes_from to) from in
    (λ h. there.0 (sym (transposed from to) ∙ h), λ h. transposed from to ∙ there.1 h)

Resumes-iff :
    (from to : OsStatus)
    → ((is_reopen from to && not (same_status from cancelada)) ≡ true) ↔ Resumes from to
unfolding is_reopen
Resumes-iff from to = ground arith

approval_iff :
    (from to : OsStatus)
    → ((same_status to aprovada || is_reopen from to) ≡ true) ↔ NeedsApproval from to
unfolding is_reopen
approval_iff from to = ground arith

stamped_lem : (now : ℕ) (to : OsStatus) (o : Order) → stamped now to o ≡ changed now to o
unfolding stamped
stamped_lem now to o = ground arith

stays_put : (s t : OsStatus) → includes (transitions s) t ≡ true → same_status s t ≡ false
unfolding transitions
stays_put s t h = ground arith

-- The locks, as the change reads them.
unless_locked_ok :
    (r : Result Error (Option ℕ)) (o after : Order)
    → unless_locked r o ≡ ok after
    → (r ≡ ok none) × (after ≡ o)
unfolding unless_locked
unless_locked_ok (ok none) o after h = (refl, ground arith)
unless_locked_ok (ok (some m)) o after h = cc
unless_locked_ok (err e) o after h = cc

-- The same in the words of the code.
record Guarded (req : Request) (from to : OsStatus) : Type 0 where
  edge : includes (transitions from) to ≡ true
  approved : (same_status to aprovada || is_reopen from to) ≡ true → req.may_approve ≡ true
  unlocked :
      (is_reopen from to && not (same_status from cancelada)) ≡ true
      → primeiro_impedimento req.locks ≡ ok none

change_status_ok :
    (req : Request) (to : OsStatus) (o after : Order)
    → change_status req to o ≡ ok after
    → Guarded req o.status to × (after ≡ stamped req.now to o)
unfolding change_status
change_status_ok req to o after h =
    ground (arith, unless_locked_ok (primeiro_impedimento req.locks) (stamped req.now to o) after)

change_status_may :
    (req : Request) (to : OsStatus) (o : Order)
    → Guarded req o.status to
    → change_status req to o ≡ ok (stamped req.now to o)
unfolding change_status
change_status_may req to o m = ground (arith, stays_put o.status to m.edge)

Guarded-iff : (req : Request) (from to : OsStatus) → Guarded req from to ↔ MayChange req from to
Guarded-iff req from to =
    let edges = edge_iff from to in
    let approves = approval_iff from to in
    let resumes = Resumes-iff from to in
    let locks = primeiro_impedimento_iff req.locks in
    (
      λ g. record {
        edge = edges.0 g.edge;
        approved = λ n. g.approved (approves.1 n);
        unlocked = λ r. locks.0 (g.unlocked (resumes.1 r));
      },
      λ m. record {
        edge = edges.1 m.edge;
        approved = λ n. m.approved (approves.0 n);
        unlocked = λ r. locks.1 (m.unlocked (resumes.0 r));
      },
    )

-- A change of status succeeds exactly when the order may come from where it is to the new
-- status, who approves an order or reopens one (a cancelled one, or a finished one for
-- execution) holds `os.approve`, and for a finished one every lock of the other modules
-- answers that it is free. The order then has the new status; it is stamped as started at its
-- first execution, as finished at its first conclusion, and as closed while it is delivered,
-- and the other stamps are as they were.
pub change_status_iff :
    (req : Request) (to : OsStatus) (o after : Order)
    → (change_status req to o ≡ ok after)
      ↔ (MayChange req o.status to × (after ≡ changed req.now to o))
change_status_iff req to o after =
    let guards = Guarded-iff req o.status to in
    let stamps = stamped_lem req.now to o in
    (
      λ h. let m = change_status_ok req to o after h in (guards.0 m.0, m.1 ∙ stamps),
      λ m. change_status_may req to o (guards.1 m.0) ∙ ap (λ q. ok q) (stamps ∙ sym m.1),
    )

-- A finished order stays finished for whoever lacks `os.approve`.
keeps_finished :
    (req : Request) (to : OsStatus) (o : Order)
    → req.may_approve ≡ false
    → includes faturaveis o.status ≡ true
    → includes faturaveis (attempt req to o).status ≡ true
unfolding attempt
keeps_finished req to o denied fin = ground arith

-- Whatever changes are asked by users without `os.approve`, a finished order stays finished: it is
-- concluded, receivable or delivered, and so is neither edited as open work nor cancelled.
pub run-finished :
    (rs : List (Request × OsStatus)) (o : Order)
    → All (λ r. r.0.may_approve ≡ false) rs
    → includes faturaveis o.status ≡ true
    → includes faturaveis (run rs o).status ≡ true
unfolding run
run-finished [] o h fin = fin
run-finished ((req, to) ∷ rest) o h fin =
    run-finished rest (attempt req to o) h.1 (keeps_finished req to o h.0 fin)

-- What the stamps say of the status.
pub record IsStamped (o : Order) : Type 0 where
  pub closed : is_some o.closed_at ≡ same_status o.status entregue
  pub finished :
      (same_status o.status concluida || same_status o.status a_receber) ≡ true
      → is_some o.finished_at ≡ true
  pub started : same_status o.status em_execucao ≡ true → is_some o.started_at ≡ true

attempt-IsStamped :
    (req : Request) (to : OsStatus) (o : Order) → IsStamped o → IsStamped (attempt req to o)
unfolding attempt
attempt-IsStamped req to o h = ground arith

-- From an order whose stamps say so already, as a new one's do, after any requests: it has a delivery
-- stamp exactly while it is delivered, a concluded or receivable one was finished, one in execution
-- was started.
pub run-IsStamped :
    (rs : List (Request × OsStatus)) (o : Order) → IsStamped o → IsStamped (run rs o)
unfolding run
run-IsStamped [] o h = h
run-IsStamped ((req, to) ∷ rest) o h =
    run-IsStamped rest (attempt req to o) (attempt-IsStamped req to o h)

-- The first stamps are never rewritten.
attempt_keeps_stamps :
    (req : Request) (to : OsStatus) (o : Order)
    → ((t : ℕ) → o.started_at ≡ some t → (attempt req to o).started_at ≡ some t)
      × ((t : ℕ) → o.finished_at ≡ some t → (attempt req to o).finished_at ≡ some t)
unfolding attempt
attempt_keeps_stamps req to o = ground arith

-- Reopening and finishing again any number of times leaves the dates on which the work started and
-- was first finished, by which the reports group revenue.
pub run_keeps_stamps :
    (rs : List (Request × OsStatus)) (o : Order)
    → ((t : ℕ) → o.started_at ≡ some t → (run rs o).started_at ≡ some t)
      × ((t : ℕ) → o.finished_at ≡ some t → (run rs o).finished_at ≡ some t)
unfolding run
run_keeps_stamps [] o = (λ t h. h, λ t h. h)
run_keeps_stamps ((req, to) ∷ rest) o =
    let one = attempt_keeps_stamps req to o in
    let more = run_keeps_stamps rest (attempt req to o) in
    (λ t h. more.0 t (one.0 t h), λ t h. more.1 t (one.1 t h))

-- Reopening a finished order leaves what it consumes of the stock as it was.
pub reopen-consumes :
    (from to : OsStatus)
    → is_reopen from to ≡ true
    → from ≢ cancelada
    → (consumes from ≡ true) × (consumes to ≡ true)
unfolding consumes is_reopen
reopen-consumes from to h k = ground arith
