-- ===== src/Tests/Orders.antt =====
-- An order of service and the part it consumes.
use orbix_hub.Base.{
  ◌≡◌, ◌↔◌, refl, true, false, none, some, List, [], ◌∷◌, pos, negsuc, ok, err, ◌+ℤ◌,
}
use orbix_hub.Inventory.{
  Item, product, Stock, ReconcileArgs, service_order, os_consumption, reconcile_consumption,
  sum_consumed_by_ref_item,
}
use orbix_hub.Inventory.Conservation.{on_shelf, consumed_of, reconcile_consumption_conserves}
use orbix_hub.Os.{
  OsStatus, em_execucao, concluida, entregue, cancelada, includes, faturaveis, livre, motivo,
  Request, Order, new_order, impedimento, change_status, run, consumes, is_reopen,
}
use orbix_hub.Os.Workflow.{
  MayChange, changed, change_status_iff, run-finished, IsStamped, run-IsStamped,
}
use orbix_hub.Os.Paths.{Reaches, reaches_all}
use orbix_hub.Os.Consumption.{OrderLine, reconcile_order_stock, reopening_moves_nothing}

abbrev mechanic : Request
mechanic = record { may_approve = false; locks = []; now = 5 }

abbrev manager : Request
manager = record { may_approve = true; locks = livre ∷ motivo 1 ∷ []; now = 9 }

abbrev delivered : Order
delivered = record {
  status = entregue;
  started_at = some 1;
  finished_at = some 2;
  closed_at = some 3;
}

abbrev free_manager : Request
free_manager = record { may_approve = true; locks = livre ∷ livre ∷ []; now = 9 }

-- Its stamps but the last stay.
abbrev resumed : Order
resumed = record delivered { status = em_execucao; closed_at = none }

change_status_iff_example :
    (change_status free_manager em_execucao delivered ≡ ok resumed)
    ↔ (MayChange free_manager entregue em_execucao × (resumed ≡ changed 9 em_execucao delivered))
change_status_iff_example = change_status_iff free_manager em_execucao delivered resumed

reopened : change_status free_manager em_execucao delivered ≡ ok resumed
unfolding change_status
reopened = refl

-- A lock holds the order.
locked : change_status manager em_execucao delivered ≡ err (impedimento 1)
unfolding change_status
locked = refl

abbrev attempts : List (Request × OsStatus)
attempts = (mechanic, em_execucao) ∷ (mechanic, cancelada) ∷ (mechanic, concluida) ∷ []

run-finished_example : includes faturaveis (run attempts delivered).status ≡ true
run-finished_example = run-finished attempts delivered (refl, (refl, (refl, tt))) refl

run-IsStamped_example : IsStamped (run attempts new_order)
run-IsStamped_example =
    run-IsStamped attempts new_order
      (record { closed = refl; finished = λ h. cc; started = λ h. cc })

reaches_all_example : Reaches entregue cancelada
reaches_all_example = reaches_all entregue cancelada

abbrev oil : Item
oil = record {
  id = 1;
  kind = product;
  name = [];
  sale_price = none;
  current_stock = pos 10_000;
  deleted = false;
}

abbrev store : Stock
store = record { items = oil ∷ []; movements = [] }

abbrev use_four : ReconcileArgs
use_four = record {
  inventory_item_id = 1;
  ref_type = service_order;
  ref_id = 40;
  ref_item_id = 41;
  target_qty = 4000;
}

reconcile_consumption_conserves_example :
    on_shelf 1 (reconcile_consumption use_four store).1
      +ℤ consumed_of 1 (reconcile_consumption use_four store).1
    ≡ on_shelf 1 store +ℤ consumed_of 1 store
reconcile_consumption_conserves_example = reconcile_consumption_conserves 1 use_four store

abbrev lines : List OrderLine
lines = record { id = 41; kind = product; inventory_item_id = some 1; quantity = 4000 } ∷ []

-- The store after the order went into execution.
abbrev used : Stock
used = record {
  items = record oil { current_stock = pos 6000 } ∷ [];
  movements =
      record {
        inventory_item_id = 1;
        stock_delta = negsuc 3999;
        reason = os_consumption;
        ref_id = 40;
        ref_item_id = 41;
      }
      ∷ [];
}

reopening_moves_nothing_example : reconcile_order_stock 40 em_execucao lines false used ≡ used
unfolding is_reopen consumes sum_consumed_by_ref_item
reopening_moves_nothing_example =
    reopening_moves_nothing 40 entregue em_execucao lines used refl (cc) (refl, tt)
