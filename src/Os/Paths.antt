-- ===== src/Os/Paths.antt =====
-- No status of back/src/modules/os/os.service.ts is a dead end ("nenhum estado é beco sem saída").
use orbix_hub.Base.{◌≡◌, refl, true}
use orbix_hub.Os.{
  OsStatus, aberta, aguardando_aprovacao, aprovada, em_execucao, aguardando_pecas, pendente,
  sem_conserto, concluida, a_receber, entregue, cancelada, includes, transitions,
}

-- Changes along the edges of the table.
pub data Reaches : OsStatus → OsStatus → Type 0 where
  stay : {s : OsStatus} → Reaches s s
  change :
      (s t : OsStatus) {u : OsStatus}
      → includes (transitions s) t ≡ true
      → Reaches t u
      → Reaches s u

abbrev via : {s t u : OsStatus} → Reaches s t → Reaches t u → Reaches s u
via stay q = q
via (change s t e p) q = change s t e (via p q)

-- Back to the start.
abbrev restart : (s : OsStatus) → Reaches s aberta
unfolding transitions
restart aberta = stay
restart aguardando_aprovacao = change aguardando_aprovacao _ refl stay
restart cancelada = change cancelada _ refl stay
restart pendente = change pendente _ refl stay
restart aprovada = change aprovada cancelada refl (change cancelada _ refl stay)
restart em_execucao = change em_execucao pendente refl (change pendente _ refl stay)
restart aguardando_pecas = change aguardando_pecas cancelada refl (change cancelada _ refl stay)
restart sem_conserto = change sem_conserto cancelada refl (change cancelada _ refl stay)
restart concluida =
    change concluida em_execucao refl
      (change em_execucao pendente refl (change pendente _ refl stay))
restart a_receber =
    change a_receber em_execucao refl
      (change em_execucao pendente refl (change pendente _ refl stay))
restart entregue =
    change entregue em_execucao refl
      (change em_execucao pendente refl (change pendente _ refl stay))

-- From the start to every status.
abbrev proceed : (s : OsStatus) → Reaches aberta s
unfolding transitions
proceed aberta = stay
proceed aguardando_aprovacao = change aberta _ refl stay
proceed em_execucao = change aberta _ refl stay
proceed pendente = change aberta _ refl stay
proceed cancelada = change aberta _ refl stay
proceed aprovada = change aberta aguardando_aprovacao refl (change aguardando_aprovacao _ refl stay)
proceed concluida = change aberta em_execucao refl (change em_execucao _ refl stay)
proceed aguardando_pecas = change aberta em_execucao refl (change em_execucao _ refl stay)
proceed sem_conserto = change aberta em_execucao refl (change em_execucao _ refl stay)
proceed a_receber =
    change aberta em_execucao refl
      (change em_execucao concluida refl (change concluida _ refl stay))
proceed entregue =
    change aberta em_execucao refl
      (change em_execucao concluida refl (change concluida _ refl stay))

-- From every status every other is reached along the edges of the table.
pub reaches_all : (s t : OsStatus) → Reaches s t
reaches_all s t = via (restart s) (proceed t)
