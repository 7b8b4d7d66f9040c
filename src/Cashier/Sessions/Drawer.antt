-- ===== src/Cashier/Sessions/Drawer.antt =====
-- What `closeSession` and `getCurrentSession` of
-- back/src/modules/cashier/cashier.service.impl.ts answer, against the entries of the session.
use orbix_hub.Base.{
  ◌+◌, ◌≡◌, true, false, Bool, none, some, List, find, ℤ, pos, sub_ℕ, ◌-ℤ◌, ok, err, ◌>>=◌,
}
use orbix_hub.Money.{round2}
use orbix_hub.Cashier.Config.{incoming, outgoing, empty_config, merge_cashier_config}
use orbix_hub.Cashier.Store.{
  CashSession, CashEntry, Db, Request, bad_request, nao_ha_caixa_aberto, open_at,
}
use orbix_hub.Cashier.Totals.{shape_method_totals, session_totals_by_method}
use orbix_hub.Cashier.Totals.Sums.{moved, moved_cash, session-IsSessionTotal}
use orbix_hub.Cashier.Sessions.{CloseSessionDto, close_session, expected_of}

-- The drawer: opening money, plus what entered, less what left; only cash when the tenant counts
-- cash only.
abbrev pub drawer : (cash_only : Bool) → CashSession → List CashEntry → ℤ
drawer true s es =
    sub_ℕ (s.opening_amount + moved_cash s.id incoming es) (moved_cash s.id outgoing es)
drawer false s es = sub_ℕ (s.opening_amount + moved s.id incoming es) (moved s.id outgoing es)

pub expected_of-drawer :
    (cash_only : Bool) (s : CashSession) (db : Db)
    → expected_of cash_only s.opening_amount
        (shape_method_totals (session_totals_by_method s.id db))
      ≡ drawer cash_only s db.entries
unfolding expected_of
expected_of-drawer true s db = let t = session-IsSessionTotal s.id db in rw (t.cash_in, t.cash_out)
expected_of-drawer false s db =
    let t = session-IsSessionTotal s.id db in rw (t.every_in, t.every_out)

-- `config.countCashOnly`, as `getConfig` reads it.
abbrev pub counts_cash_only : Db → Bool
unfolding merge_cashier_config
counts_cash_only db = (merge_cashier_config db.settings empty_config).count_cash_only

-- With an open session at the device the closing succeeds: the expected amount is the drawer's, the
-- difference is what was counted, rounded to cents, less the expected.
pub close_session_lem :
    (req : Request) (dto : CloseSessionDto) (db : Db) (s : CashSession)
    → find (open_at dto.device_id) db.sessions ≡ some s
    → let expected = drawer (counts_cash_only db) s db.entries in
      (close_session req dto db).0
      ≡ ok (record {
        session_id = s.id;
        expected = expected;
        difference = pos (round2 dto.counted_amount) -ℤ expected;
        by_method = shape_method_totals (session_totals_by_method s.id db);
      })
unfolding close_session ◌>>=◌
close_session_lem req dto db s found = rw (found, expected_of-drawer (counts_cash_only db) s db)

-- Without an open session at the device the closing is refused and nothing is written.
pub close_session_refused :
    (req : Request) (dto : CloseSessionDto) (db : Db)
    → find (open_at dto.device_id) db.sessions ≡ none
    → close_session req dto db ≡ (err (bad_request nao_ha_caixa_aberto), db)
unfolding close_session ◌>>=◌
close_session_refused req dto db absent = rw absent
