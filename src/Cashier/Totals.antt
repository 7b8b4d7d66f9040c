-- ===== src/Cashier/Totals.antt =====
-- The pure helpers at the end of back/src/modules/cashier/cashier.service.impl.ts: the rows of a
-- GROUP BY (method, direction) become one line per method, and are totalled. Amounts in cents, whose
-- sums `round2` leaves as they are. The maps of the source are lists in order of insertion.
pub mod Sums
use orbix_hub.Base.{
  ℕ, ◌+◌, ◌==◌, Bool, true, false, not, ◌&&◌, Option, none, some, is_some, List, [], ◌∷◌, find,
  sum_by, any, if◌then◌else◌, ◌≡◌, arith, length, ◌++◌,
}
use orbix_hub.Cashier.Config.{
  PaymentMethod, pix, dinheiro, cartao_credito, cartao_debito, outro, payment_methods,
  EntryDirection, incoming, outgoing,
}
use orbix_hub.Cashier.Store.{CashEntry, Db, Cashier}

pub record GroupRow : Type 0 where
  pub method : PaymentMethod
  pub direction : EntryDirection
  pub amount : ℕ

pub record MethodTotals : Type 0 where
  pub method : PaymentMethod
  pub total_in : ℕ
  pub total_out : ℕ

pub record InOut : Type 0 where
  pub total_in : ℕ
  pub total_out : ℕ

abbrev method_code : PaymentMethod → ℕ
method_code pix = 0
method_code dinheiro = 1
method_code cartao_credito = 2
method_code cartao_debito = 3
method_code outro = 4

abbrev pub same_method : PaymentMethod → PaymentMethod → Bool
same_method a b = method_code a == method_code b

abbrev pub same_direction : EntryDirection → EntryDirection → Bool
same_direction incoming incoming = true
same_direction outgoing outgoing = true
same_direction _ _ = false

-- `cur.in = …` or `cur.out = …`
abbrev pub add_amount : EntryDirection → ℕ → MethodTotals → MethodTotals
add_amount incoming n t = record t { total_in = t.total_in + n }
add_amount outgoing n t = record t { total_out = t.total_out + n }

abbrev no_totals : PaymentMethod → MethodTotals
no_totals m = record { method = m; total_in = 0; total_out = 0 }

-- `map.get(r.method) ?? zero`, changed and put back.
unfoldable pub add_row : List MethodTotals → GroupRow → List MethodTotals
add_row [] r = add_amount r.direction r.amount (no_totals r.method) ∷ []
add_row (t ∷ ts) r =
    if same_method t.method r.method
    then add_amount r.direction r.amount t ∷ ts
    else t ∷ add_row ts r

unfoldable pub add_rows : List MethodTotals → List GroupRow → List MethodTotals
unfolding add_row
add_rows ts [] = ts
add_rows ts (r ∷ rs) = add_rows (add_row ts r) rs

unfoldable pub shape_method_totals : List GroupRow → List MethodTotals
unfolding add_rows
shape_method_totals rows = add_rows [] rows

abbrev pub is_cash : MethodTotals → Bool
is_cash t = same_method t.method dinheiro

abbrev pub in_out_of : Option MethodTotals → InOut
in_out_of none = record { total_in = 0; total_out = 0 }
in_out_of (some t) = record { total_in = t.total_in; total_out = t.total_out }

unfoldable pub pick_cash : List MethodTotals → InOut
pick_cash rows = in_out_of (find is_cash rows)

unfoldable pub pick_all : List MethodTotals → InOut
pick_all rows = record {
  total_in = sum_by (λ t. t.total_in) rows;
  total_out = sum_by (λ t. t.total_out) rows;
}

-- `sessionTotalsByMethod`: the entries of a session that are not reversed, by method and direction.
abbrev pub counts_in : (session : ℕ) → CashEntry → Bool
counts_in session e = e.cash_session_id == session && not (is_some e.reversed_at)

abbrev pub in_group : (session : ℕ) → PaymentMethod → EntryDirection → CashEntry → Bool
in_group session m d e =
    counts_in session e && same_method e.method m && same_direction e.direction d

abbrev group_of : (session : ℕ) → PaymentMethod → EntryDirection → List CashEntry → List GroupRow
group_of session m d es =
    if any (in_group session m d) es
    then record {
      method = m;
      direction = d;
      amount = sum_by (λ e. if in_group session m d e then e.amount else 0) es;
    }
      ∷ []
    else []

unfoldable pub groups : (session : ℕ) → List PaymentMethod → List CashEntry → List GroupRow
groups session [] es = []
groups session (m ∷ ms) es =
    group_of session m incoming es ++ (group_of session m outgoing es ++ groups session ms es)

unfoldable pub session_totals_by_method : (session : ℕ) → Db → List GroupRow
unfolding groups
session_totals_by_method session db = groups session payment_methods db.entries
