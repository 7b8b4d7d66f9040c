-- ===== src/Os/Service.antt =====
-- The life of an order: `createOrder` (once the customer and the vehicle are resolved), `changeStatus`, `markFiado`
-- and `deleteOrder` of back/src/modules/os/os.service.ts. The conversation with the customer and the push to the
-- screens are left out: both are attempted at the end, and a failure is only logged.
use orbix_hub.Base.{
  ℕ, ◌+◌, ◌==◌, Bool, true, false, not, ◌||◌, Option, none, some, or_default, is_some, List, [],
  ◌∷◌, length, find, keep, map, if◌then◌else◌, ltb, Text, trim_or_null, trimmed, pos, pure, throw,
  gets, throw_if, transaction, modify, ◌>>=◌, ◌>>◌,
}
use orbix_hub.Money.{round2, of_cents}
use orbix_hub.NumeroSequencial.{criar_com_numero_sequencial}
use orbix_hub.Cashier
use orbix_hub.Cashier.Config.{os}
use orbix_hub.Cashier.Payment.{PaymentSummary, build_payment_summary}
use orbix_hub.Cashier.Store.{sum_settled_for_sale}
use orbix_hub.Cashier.Installments.{pending_of}
use orbix_hub.Os.{
  OsStatus, aberta, cancelada, Order, new_order, same_status, is_reopen, change_status, consumes,
  primeiro_impedimento,
}
use orbix_hub.Os.Consumption.{reconcile_order_stock, stock_line}
use orbix_hub.Os.Store.{
  ServiceOrder, ItemRow, Event, EventText, os_aberta, os_reaberta, rotulo, estoque_estornado,
  created, status_change, Workshop, Error, Working, bad_request, conflict, forbidden,
  unique_violation, cancelada_nao_vira_fiado, excluir_sem_permissao, tem_pagamento, tem_impedimento,
  tem_parcelas, id_duplicado, Request, workflow_of, allow, order_has_id, items_of, max_order_number,
  insert_order, update_row, with_cycle, with_fiado, with_deleted, add_events, create_event,
  audit_log, os_create, os_fiado, os_status_change, os_stock_reconcile, os_delete, line_of,
  order_or_throw,
}
use orbix_hub.Os.Content.{note_of}

-- The pointer to the customer and to the vehicle, each with the snapshot of its name.
pub record Holder : Type 0 where
  pub customer_id : ℕ
  pub customer_name : Text
  pub subject_id : Option ℕ
  pub subject_label : Option Text

-- The fields of `CreateOrderDto` that the order takes; the discount is in thousandths.
pub record CreateOrderDto : Type 0 where
  pub id : Option ℕ
  pub complaint : Option Text
  pub diagnosis : Option Text
  pub scheduled_start : Option ℕ
  pub scheduled_end : Option ℕ
  pub assigned_to : Option ℕ
  pub discount : Option ℕ

unfoldable pub order_row : Request → CreateOrderDto → Holder → (number : ℕ) → ServiceOrder
unfolding trim_or_null round2
order_row req dto h number = record {
  id = or_default dto.id req.order_uuid;
  number = number;
  customer_id = h.customer_id;
  customer_name = h.customer_name;
  subject_id = h.subject_id;
  subject_label = h.subject_label;
  cycle = new_order;
  opened_by = req.user_id;
  assigned_to = dto.assigned_to;
  complaint = trimmed dto.complaint;
  diagnosis = trimmed dto.diagnosis;
  scheduled_start = dto.scheduled_start;
  scheduled_end = dto.scheduled_end;
  discount = round2 (or_default dto.discount 0);
  total = 0;
  fiado_at = none;
  deleted_at = none;
}

abbrev pub status_event : Request → (order_id : ℕ) → EventText → OsStatus → Event
status_event req order_id message status = record {
  order_id = order_id;
  kind = status_change;
  message = message;
  status_snapshot = some status;
  visible_public = true;
  created_by = req.user_id;
}

abbrev pub opening_event : Request → (order_id : ℕ) → Event
opening_event req order_id = record (status_event req order_id os_aberta aberta) { kind = created }

-- One attempt. The highest number is read without a lock: `rivals` is what others commit between that and
-- the insert.
unfoldable pub attempt_order :
    (rivals : ℕ → Workshop → Workshop)
    → Request
    → CreateOrderDto
    → Holder
    → (tentativa : ℕ) → Working ServiceOrder
unfolding max_order_number insert_order order_row create_event
attempt_order rivals req dto h tentativa = do
  n ← gets max_order_number
  modify (rivals tentativa)
  let o = order_row req dto h (n + 1)
  transaction (insert_order o >> create_event (opening_event req o.id))
  pure o

abbrev pub is_unique_violation : Error → Bool
is_unique_violation (unique_violation b) = true
is_unique_violation _ = false

abbrev pub names_id : Error → Bool
names_id (unique_violation b) = b
names_id _ = false

-- A conflict of ids is thrown as such; any other is tried again.
unfoldable pub eh_conflito_de_id : Option ℕ → Error → Working Bool
eh_conflito_de_id none e = pure false
eh_conflito_de_id (some id) e = do
  found ← gets (λ db. find (order_has_id id) db.orders)
  throw_if (names_id e || is_some found) (conflict id_duplicado)
  pure false

unfoldable pub create_order :
    (rivals : ℕ → Workshop → Workshop) → Request → CreateOrderDto → Holder → Working ServiceOrder
unfolding attempt_order eh_conflito_de_id criar_com_numero_sequencial audit_log
create_order rivals req dto h = do
  o ←
      criar_com_numero_sequencial is_unique_violation (eh_conflito_de_id dto.id)
        (attempt_order rivals req dto h) none
  audit_log req.user_id (os_create o.id)
  pure o

-- The lines that point to the stock.
unfoldable pub stock_lines : List ItemRow → ℕ
unfolding stock_line
stock_lines is = length (keep (λ i. is_some (stock_line (line_of i))) is)

abbrev pub label_of : (from to : OsStatus) → EventText
unfolding is_reopen
label_of from to = if is_reopen from to then os_reaberta else rotulo to

unfoldable pub write_status :
    Request → (id : ℕ) → OsStatus → ServiceOrder → (after : Order) → Working (Unit {0})
unfolding update_row add_events is_reopen
write_status req id to o after = modify (λ db.
    add_events (status_event req id (label_of o.cycle.status to) to ∷ [])
      (update_row id (with_cycle after) db))

-- After a cancellation: the log, and a note that only the shop sees.
abbrev pub note_return : Request → (id devolvidos : ℕ) → Working (Unit {0})
note_return req id devolvidos = if devolvidos == 0 then pure tt else do
  audit_log req.user_id (os_stock_reconcile id devolvidos)
  create_event (note_of req id (estoque_estornado devolvidos) false)

unfoldable pub follow_status : (id : ℕ) → OsStatus → Workshop → Workshop
unfolding items_of reconcile_order_stock
follow_status id status db = record db {
  stock = reconcile_order_stock id status (map line_of (items_of id db)) false db.stock;
}

unfoldable pub change_order_status : Request → (id : ℕ) → OsStatus → Working (Unit {0})
unfolding order_or_throw allow change_status write_status audit_log items_of stock_lines
    create_event follow_status
change_order_status req id to = do
  o ← order_or_throw id
  after ← allow (change_status (workflow_of req) to o.cycle)
  write_status req id to o after
  audit_log req.user_id (os_status_change id o.cycle.status to)
  changed ← order_or_throw id
  modify (follow_status id changed.cycle.status)
  items ← gets (items_of id)
  if same_status to cancelada then note_return req id (stock_lines items) else pure tt

-- True: it was declared before.
unfoldable pub declare_fiado : Request → ℕ → Working Bool
unfolding order_or_throw update_row
declare_fiado req id = transaction do
  o ← order_or_throw id
  throw_if (same_status o.cycle.status cancelada) (bad_request cancelada_nao_vira_fiado)
  if is_some o.fiado_at
      then pure true
      else (modify (update_row id (with_fiado req.now)) >> pure false)

unfoldable pub mark_fiado : Request → ℕ → Working (Unit {0})
unfolding declare_fiado audit_log
mark_fiado req id = do
  ja_era ← declare_fiado req id
  if ja_era then pure tt else audit_log req.user_id (os_fiado id)

-- What the desk says was settled of an order, in thousandths.
unfoldable pub payment_of : ServiceOrder → Cashier.Store.Db → PaymentSummary
unfolding sum_settled_for_sale build_payment_summary
payment_of o cash =
    let s = sum_settled_for_sale o.id cash in
    build_payment_summary (pos (of_cents o.total)) (pos (of_cents s.recebido))
      (pos (of_cents s.desconto))

unfoldable pub open_installments : (id : ℕ) → Cashier.Store.Db → ℕ
open_installments id cash = length (keep (pending_of os id) cash.installments)

abbrev pub refuse_locked : Option ℕ → Working (Unit {0})
refuse_locked none = pure tt
refuse_locked (some m) = throw (bad_request (tem_impedimento m))

-- What stands against a deletion, in the order of the code.
unfoldable pub check_deletion : Request → (id : ℕ) → Working ServiceOrder
unfolding order_or_throw allow primeiro_impedimento payment_of open_installments
check_deletion req id = do
  throw_if (not req.may_approve) (forbidden excluir_sem_permissao)
  o ← order_or_throw id
  lock ← allow (primeiro_impedimento req.locks)
  refuse_locked lock
  payment ← gets (λ db. payment_of o db.cash)
  throw_if (ltb 0 payment.paid) (bad_request tem_pagamento)
  parcelas ← gets (λ db. open_installments id db.cash)
  throw_if (ltb 0 parcelas) (bad_request (tem_parcelas parcelas))
  pure o

-- Everything that the lines consumed goes back.
unfoldable pub give_back : (id : ℕ) → OsStatus → List ItemRow → Workshop → Workshop
unfolding reconcile_order_stock
give_back id status items db = record db {
  stock = reconcile_order_stock id status (map line_of items) true db.stock;
}

unfoldable pub delete_order : Request → (id : ℕ) → Working (Unit {0})
unfolding check_deletion items_of update_row give_back stock_lines consumes audit_log
delete_order req id = do
  o ← check_deletion req id
  items ← gets (items_of id)
  modify (update_row id (with_deleted req.now))
  let linhas = stock_lines items
  modify (λ db. if ltb 0 linhas then give_back id o.cycle.status items db else db)
  audit_log req.user_id
      (os_delete id o.cycle.status o.total (if consumes o.cycle.status then linhas else 0))
