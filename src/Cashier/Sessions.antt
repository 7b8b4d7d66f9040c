-- ===== src/Cashier/Sessions.antt =====
-- The cash sessions: `openSession`, `closeSession` and `getCurrentSession` of
-- back/src/modules/cashier/cashier.service.impl.ts.
pub mod Drawer
use orbix_hub.Base.{
  ℕ, ◌+◌, ◌==◌, Bool, true, false, ◌||◌, Option, none, some, is_some, or_default, List, [], ◌∷◌,
  find, update_first, if◌then◌else◌, Text, trimmed, ℤ, Exec, ok, err, pure, throw, throw_if,
  or_throw, transaction, catch, gets, modify, ◌>>=◌, ◌>>◌,
}
use orbix_hub.Money.{round2}
use orbix_hub.Cashier.Config.{compute_expected, compute_difference, CashierConfig}
use orbix_hub.Cashier.Store.{
  CashSession, is_closed, Db, Cashier, Request, Error, bad_request, conflict, unique_violation,
  caixa_ja_aberto, nao_ha_caixa_aberto, id_duplicado, session_open, session_close, get_config,
  find_open_session, find_session_by_id, create_session, session_has_id, audit_log,
}
use orbix_hub.Cashier.Totals.{
  InOut, MethodTotals, shape_method_totals, pick_cash, pick_all, session_totals_by_method,
}

pub record OpenSessionDto : Type 0 where
  pub id : Option ℕ
  pub opening_amount : Option ℕ  -- thousandths, rounded by `numeric(14,2)`
  pub notes : Option Text
  pub device_id : Option ℕ

pub record CloseSessionDto : Type 0 where
  pub counted_amount : ℕ
  pub notes : Option Text
  pub device_id : Option ℕ

-- Is the id already that of a session? Asked again after a violation that does not name its column.
unfoldable pub id_taken : (names_id : Bool) → ℕ → Cashier Bool
unfolding find_session_by_id
id_taken true id = pure true
id_taken false id = do found ← find_session_by_id id; pure (is_some found)

unfoldable pub refuse_open : Bool → Cashier CashSession
refuse_open true = throw (conflict id_duplicado)
refuse_open false = throw (conflict caixa_ja_aberto)

-- The `catch` of `openSession`.
unfoldable pub explain_open : Option ℕ → Error → Cashier CashSession
unfolding id_taken refuse_open
explain_open none (unique_violation names_id) = throw (conflict caixa_ja_aberto)
explain_open (some id) (unique_violation names_id) = do
  taken ← transaction (id_taken names_id id)
  refuse_open taken
explain_open id e = throw e

unfoldable pub open_session : Request → OpenSessionDto → Cashier CashSession
unfolding explain_open find_open_session create_session audit_log round2
open_session req dto =
    catch
      (do
        session ← transaction do
          found ← find_open_session dto.device_id
          throw_if (is_some found) (conflict caixa_ja_aberto)
          create_session (or_default dto.id req.session_uuid) req.user_id
              (round2 (or_default dto.opening_amount 0)) (trimmed dto.notes) dto.device_id
        audit_log req.user_id (session_open session.id)
        pure session)
      (explain_open dto.id)

-- What the closing writes into the row.
abbrev pub close_row :
    (user now counted : ℕ) (expected difference : ℤ) (notes : Option Text)
    → CashSession
    → CashSession
close_row user now counted expected difference notes s = record s {
  status = is_closed;
  closed_by = some user;
  closing_counted = some counted;
  closing_expected = some expected;
  difference = some difference;
  notes = notes;
  closed_at = some now;
}

-- With `countCashOnly` only cash enters the expected amount.
unfoldable pub expected_of : Bool → (opening : ℕ) → List MethodTotals → ℤ
unfolding compute_expected pick_cash pick_all
expected_of true opening by_method =
    let cash = pick_cash by_method in compute_expected opening cash.total_in cash.total_out
expected_of false opening by_method =
    let every = pick_all by_method in compute_expected opening every.total_in every.total_out

pub record Closing : Type 0 where
  pub session_id : ℕ
  pub expected : ℤ
  pub difference : ℤ
  pub by_method : List MethodTotals

-- The body of the transaction, once the open session is found.
unfoldable pub close_found :
    Request → CloseSessionDto → CashierConfig → CashSession → Cashier Closing
unfolding expected_of compute_difference round2 session_totals_by_method shape_method_totals
close_found req dto config s db =
    let by_method = shape_method_totals (session_totals_by_method s.id db) in
    let expected = expected_of config.count_cash_only s.opening_amount by_method in
    let counted = round2 dto.counted_amount in
    let difference = compute_difference counted expected in
    (
      ok (record {
        session_id = s.id;
        expected = expected;
        difference = difference;
        by_method = by_method;
      }),
      record db {
        sessions =
            update_first (session_has_id s.id)
              (close_row req.user_id req.now counted expected difference (trimmed dto.notes))
              db.sessions;
      },
    )

unfoldable pub close_session : Request → CloseSessionDto → Cashier Closing
unfolding close_found get_config find_open_session audit_log
close_session req dto = do
  config ← get_config
  closing ← transaction do
    found ← find_open_session dto.device_id
    s ← or_throw found (bad_request nao_ha_caixa_aberto)
    close_found req dto config s
  audit_log req.user_id (session_close closing.session_id closing.expected closing.difference)
  pure closing

pub record CurrentSession : Type 0 where
  pub session : CashSession
  pub by_method : List MethodTotals
  pub totals : InOut
  pub expected : ℤ

unfoldable pub current_of : CashierConfig → Db → CashSession → CurrentSession
unfolding expected_of pick_all session_totals_by_method shape_method_totals
current_of config db s =
    let by_method = shape_method_totals (session_totals_by_method s.id db) in
    record {
      session = s;
      by_method = by_method;
      totals = pick_all by_method;
      expected = expected_of config.count_cash_only s.opening_amount by_method;
    }

unfoldable pub current_found : CashierConfig → Option CashSession → Cashier (Option CurrentSession)
unfolding current_of
current_found config none = pure none
current_found config (some s) = gets (λ db. some (current_of config db s))

unfoldable pub get_current_session : Option ℕ → Cashier (Option CurrentSession)
unfolding current_found get_config find_open_session
get_current_session device =
    transaction do found ← find_open_session device; config ← get_config; current_found config found
