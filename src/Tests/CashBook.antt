-- ===== src/Tests/CashBook.antt =====
-- A day of a cash book: a session, a sale with a discount, a withdrawal.
use orbix_hub.Base.{◌≡◌, refl, none, some, List, [], ◌∷◌, pos, negsuc, ok, All}
use orbix_hub.Cashier.Config.{
  dinheiro, pix, venda_avulsa, sangria, despesa, incoming, outgoing, sale, empty_config,
  direction_for_category,
}
use orbix_hub.Cashier.Store.{CashSession, CashEntry, Db, Request, cashier_manage, opened_session}
use orbix_hub.Cashier.Totals.{pick_cash, pick_all, shape_method_totals, session_totals_by_method}
use orbix_hub.Cashier.Totals.Sums.{IsSessionTotal, session-IsSessionTotal}
use orbix_hub.Cashier.Sessions.{CloseSessionDto, close_session}
use orbix_hub.Cashier.Sessions.Drawer.{close_session_lem}
use orbix_hub.Cashier.Entries.{CreateEntryDto}
use orbix_hub.Cashier.Commands.{Command, run, lancar, estornar, close_caixa}
use orbix_hub.Cashier.Commands.Ledger.{Extends, run-Extends}
use orbix_hub.Cashier.Commands.Direction.{IsCoherent, run-IsCoherent}

abbrev drawer_session : CashSession
drawer_session = opened_session 1 7 5000 none none

abbrev paid_sale : CashEntry
paid_sale = record {
  id = 10;
  cash_session_id = 1;
  direction = incoming;
  amount = 9000;
  method = dinheiro;
  category = venda_avulsa;
  sale_kind = some sale;
  sale_id = some 3;
  description = none;
  discount = 1000;
  discount_reason = none;
  created_by = 7;
  reversed_at = none;
  reversed_by = none;
  reversal_reason = none;
}

abbrev withdrawal : CashEntry
withdrawal = record paid_sale {
  id = 11;
  direction = outgoing;
  amount = 2000;
  category = sangria;
  sale_kind = none;
  sale_id = none;
  discount = 0;
}

abbrev day : Db
day = record {
  sessions = drawer_session ∷ [];
  entries = paid_sale ∷ withdrawal ∷ [];
  installments = [];
  grants = record { role = 1; permission = cashier_manage } ∷ [];
  settings = empty_config;
  audit = [];
}

abbrev owner : Request
owner = record { user_id = 7; role = 1; now = 99; session_uuid = 500; entry_uuid = 501 }

abbrev expense_dto : CreateEntryDto
expense_dto = record {
  id = none;
  amount = 30_000;
  discount = none;
  discount_reason = none;
  sale_total = none;
  method = pix;
  category = despesa;
  sale_kind = none;
  sale_id = none;
  description = none;
  device_id = none;
}

abbrev count : CloseSessionDto
count = record { counted_amount = 119_500; notes = none; device_id = none }

abbrev busy_day : List (Request × Command)
busy_day = (owner, lancar expense_dto) ∷ (owner, estornar 10 []) ∷ (owner, close_caixa count) ∷ []

run-Extends_example : Extends day.entries (run busy_day day).entries
run-Extends_example = run-Extends busy_day day

run-IsCoherent_example : All IsCoherent (run busy_day day).entries
unfolding direction_for_category
run-IsCoherent_example = run-IsCoherent busy_day day (refl, (refl, tt))

session-IsSessionTotal_example :
    IsSessionTotal 1 day.entries
      (pick_cash (shape_method_totals (session_totals_by_method 1 day)))
      (pick_all (shape_method_totals (session_totals_by_method 1 day)))
session-IsSessionTotal_example = session-IsSessionTotal 1 day

close_session_example :
    (close_session owner count day).0
    ≡ ok (record {
      session_id = 1;
      expected = pos 12_000;
      difference = negsuc 49;
      by_method = record { method = dinheiro; total_in = 9000; total_out = 2000 } ∷ [];
    })
unfolding shape_method_totals session_totals_by_method close_session
close_session_example = close_session_lem owner count day drawer_session refl
