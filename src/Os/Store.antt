-- ===== src/Os/Store.antt =====
-- The tables of back/src/modules/os/os.repository.ts, and beside them what the service of the orders reaches
-- by the services of other modules: the stock and the cash desk. Amounts are stored in cents, quantities in
-- thousandths. The number of an order stands for its text, `OS-` and the number. Left out are the stamps of a row,
-- its public token, the fiscal snapshot, which another module writes, and the agenda of the items.
use orbix_hub.Base.{
  ℕ, ◌-◌, ◌==◌, Bool, false, Option, none, some, is_some, List, [], ◌∷◌, ◌++◌, find, any, keep,
  update_first, sum_by, max, if◌then◌else◌, Text, Exec, Result, ok, err, pure, gets, or_throw,
  throw_if, modify, ◌>>=◌, ◌>>◌,
}
use orbix_hub.Inventory
use orbix_hub.Inventory.{ItemKind}
use orbix_hub.Cashier
use orbix_hub.Os
use orbix_hub.Os.{OsStatus, Order, LockAnswer, assert_editable}
use orbix_hub.Os.Consumption.{OrderLine}

-- `cycle` holds the status and what a change of it writes.
pub record ServiceOrder : Type 0 where
  pub id : ℕ
  pub number : ℕ
  pub customer_id : ℕ
  pub customer_name : Text
  pub subject_id : Option ℕ
  pub subject_label : Option Text
  pub cycle : Order
  pub opened_by : ℕ
  pub assigned_to : Option ℕ
  pub complaint : Option Text
  pub diagnosis : Option Text
  pub scheduled_start : Option ℕ
  pub scheduled_end : Option ℕ
  pub discount : ℕ
  pub total : ℕ
  pub fiado_at : Option ℕ
  pub deleted_at : Option ℕ

pub record ItemRow : Type 0 where
  pub id : ℕ
  pub order_id : ℕ
  pub kind : ItemKind
  pub inventory_item_id : Option ℕ
  pub name : Text
  pub quantity : ℕ
  pub unit_price : ℕ
  pub discount : ℕ
  pub total : ℕ

-- The texts of the timeline. The label of a status depends on the trade of the tenant.
pub data EventText : Type 0 where
  os_aberta os_reaberta diagnostico_atualizado previsao_removida : EventText
  rotulo : OsStatus → EventText
  previsao_de_entrega : (at : ℕ) → EventText
  adicionada removida : ItemKind → (name : Text) → EventText
  estoque_estornado : (itens : ℕ) → EventText
  nota : Text → EventText

pub data EventKind : Type 0 where
  created status_change note : EventKind

pub record Event : Type 0 where
  pub order_id : ℕ
  pub kind : EventKind
  pub message : EventText
  pub status_snapshot : Option OsStatus
  pub visible_public : Bool
  pub created_by : ℕ

pub data AuditEvent : Type 0 where
  os_create os_update os_fiado : (id : ℕ) → AuditEvent
  os_status_change : (id : ℕ) (from to : OsStatus) → AuditEvent
  os_stock_reconcile : (id itens : ℕ) → AuditEvent
  os_delete : (id : ℕ) (status : OsStatus) (total itens_devolvidos : ℕ) → AuditEvent

pub record AuditRow : Type 0 where
  pub actor : ℕ
  pub event : AuditEvent

pub record Workshop : Type 0 where
  pub orders : List ServiceOrder
  pub items : List ItemRow
  pub events : List Event
  pub stock : Inventory.Stock
  pub cash : Cashier.Store.Db
  pub audit : List AuditRow

pub data Message : Type 0 where
  os_nao_encontrada item_nao_encontrado nome_obrigatorio id_duplicado : Message
  cancelada_nao_vira_fiado excluir_sem_permissao tem_pagamento : Message
  tem_impedimento tem_parcelas : ℕ → Message

pub data Error : Type 0 where
  bad_request conflict not_found forbidden : Message → Error
  of_workflow : Os.Error → Error
  unique_violation : (names_id : Bool) → Error

abbrev pub Working : Type 0 → Type 0
Working A = Exec Workshop Error A

-- The user with the permission `os.approve` or without, what the other modules' locks answer, the clock, and
-- what `gen_random_uuid()` answers.
pub record Request : Type 0 where
  pub user_id : ℕ
  pub may_approve : Bool
  pub locks : List LockAnswer
  pub now : ℕ
  pub order_uuid : ℕ
  pub item_uuid : ℕ

abbrev pub workflow_of : Request → Os.Request
workflow_of req = record { may_approve = req.may_approve; locks = req.locks; now = req.now }

-- What the workflow answers, as the service throws it.
unfoldable pub allow : {A : Type 0} → Result Os.Error A → Working A
allow (ok a) db = (ok a, db)
allow (err e) db = (err (of_workflow e), db)

abbrev pub order_has_id : ℕ → ServiceOrder → Bool
order_has_id id o = o.id == id

abbrev pub order_has_number : ℕ → ServiceOrder → Bool
order_has_number number o = o.number == number

abbrev pub item_has_id : ℕ → ItemRow → Bool
item_has_id id i = i.id == id

abbrev pub of_order : ℕ → ItemRow → Bool
of_order id i = i.order_id == id

unfoldable pub items_of : ℕ → Workshop → List ItemRow
items_of id db = keep (of_order id) db.items

max_number : List ServiceOrder → ℕ
max_number [] = 0
max_number (o ∷ os) = max o.number (max_number os)

unfoldable pub max_order_number : Workshop → ℕ
unfolding max_number
max_order_number db = max_number db.orders

abbrev pub add_order : ServiceOrder → Workshop → Workshop
add_order o db = record db { orders = db.orders ++ (o ∷ []) }

-- The insert, under the primary key and `uq_service_order_tenant_number`.
unfoldable pub insert_order : ServiceOrder → Working (Unit {0})
insert_order o = do
  id_taken ← gets (λ db. any (order_has_id o.id) db.orders)
  throw_if id_taken (unique_violation false)
  number_taken ← gets (λ db. any (order_has_number o.number) db.orders)
  throw_if number_taken (unique_violation false)
  modify (add_order o)

unfoldable pub update_row : (id : ℕ) → (ServiceOrder → ServiceOrder) → Workshop → Workshop
update_row id f db = record db { orders = update_first (order_has_id id) f db.orders }

abbrev pub with_cycle : Order → ServiceOrder → ServiceOrder
with_cycle c o = record o { cycle = c }

abbrev pub with_fiado : (at : ℕ) → ServiceOrder → ServiceOrder
with_fiado at o = record o { fiado_at = some at }

abbrev pub with_deleted : (at : ℕ) → ServiceOrder → ServiceOrder
with_deleted at o = record o { deleted_at = some at }

abbrev pub with_total : (total : ℕ) → ServiceOrder → ServiceOrder
with_total total o = record o { total = total }

-- The insert of a line, under its primary key.
unfoldable pub insert_item : ItemRow → Workshop → Workshop
insert_item i db = record db { items = db.items ++ (i ∷ []) }

unfoldable pub update_item_row : ℕ → (ItemRow → ItemRow) → Workshop → Workshop
update_item_row id f db = record db { items = update_first (item_has_id id) f db.items }

-- The row with the primary key.
unfoldable pub delete_first : ℕ → List ItemRow → List ItemRow
delete_first id [] = []
delete_first id (i ∷ is) = if i.id == id then is else i ∷ delete_first id is

unfoldable pub delete_item_row : ℕ → Workshop → Workshop
unfolding delete_first
delete_item_row id db = record db { items = delete_first id db.items }

unfoldable pub add_events : List Event → Workshop → Workshop
add_events es db = record db { events = db.events ++ es }

unfoldable pub create_event : Event → Working (Unit {0})
unfolding add_events
create_event e = modify (add_events (e ∷ []))

unfoldable pub audit_log : ℕ → AuditEvent → Working (Unit {0})
audit_log actor event =
    modify (λ db. record db { audit = db.audit ++ (record { actor = actor; event = event } ∷ []) })

-- What the stock sees of a line.
abbrev pub line_of : ItemRow → OrderLine
line_of i = record {
  id = i.id;
  kind = i.kind;
  inventory_item_id = i.inventory_item_id;
  quantity = i.quantity;
}

abbrev pub live : Option ServiceOrder → Option ServiceOrder
live none = none
live (some o) = if is_some o.deleted_at then none else some o

-- The order behind an id; one that was deleted is not there.
unfoldable pub order_or_throw : ℕ → Working ServiceOrder
order_or_throw id = do
  found ← gets (λ db. find (order_has_id id) db.orders)
  or_throw (live found) (not_found os_nao_encontrada)

-- One whose content may be edited.
unfoldable pub editable_or_throw : ℕ → Working ServiceOrder
unfolding order_or_throw allow assert_editable
editable_or_throw id = do o ← order_or_throw id; allow (assert_editable o.cycle.status); pure o

abbrev pub items_total : ℕ → List ItemRow → ℕ
items_total id is = sum_by (λ i. i.total) (keep (of_order id) is)

abbrev pub set_total : ℕ → Option ServiceOrder → Workshop → Workshop
unfolding update_row
set_total id none db = db
set_total id (some o) db = update_row id (with_total (items_total id db.items - o.discount)) db

-- `recomputeTotal`: what the items come to less the discount, never below zero.
unfoldable pub recompute_total : ℕ → Workshop → Workshop
unfolding update_row
recompute_total id db = set_total id (find (order_has_id id) db.orders) db
