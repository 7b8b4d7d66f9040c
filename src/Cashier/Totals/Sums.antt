-- ===== src/Cashier/Totals/Sums.antt =====
-- The totals that back/src/modules/cashier/cashier.service.impl.ts reads off its maps are the sums
-- over the entries themselves.
use orbix_hub.Base.{
  ℕ, ◌+◌, ◌≡◌, refl, Bool, true, false, ◌&&◌, ◌||◌, not, List, [], ◌∷◌, ◌++◌, find, any, sum_by,
  sum_by-append, if◌then◌else◌, Bool-cases, inl, inr, arith,
}
use orbix_hub.Cashier.Config.{
  PaymentMethod, pix, dinheiro, cartao_credito, cartao_debito, outro, payment_methods,
  EntryDirection, incoming, outgoing,
}
use orbix_hub.Cashier.Store.{CashEntry, Db}
use orbix_hub.Cashier.Totals.{
  GroupRow, MethodTotals, InOut, same_method, same_direction, add_row, add_rows,
  shape_method_totals, is_cash, in_out_of, pick_cash, pick_all, counts_in, in_group, group_of,
  groups, session_totals_by_method,
}

-- What a row adds to the entering, or to the leaving, side.
abbrev pub row_in : GroupRow → ℕ
row_in r = if same_direction r.direction incoming then r.amount else 0

abbrev pub row_out : GroupRow → ℕ
row_out r = if same_direction r.direction outgoing then r.amount else 0

abbrev cash_only : (GroupRow → ℕ) → GroupRow → ℕ
cash_only f r = if same_method r.method dinheiro then f r else 0

sum_in-add_row :
    (ts : List MethodTotals) (r : GroupRow)
    → sum_by (λ t. t.total_in) (add_row ts r) ≡ sum_by (λ t. t.total_in) ts + row_in r
unfolding add_row
sum_in-add_row [] r = ground arith
sum_in-add_row (t ∷ ts) r = ground (arith, sum_in-add_row ts r)

sum_out-add_row :
    (ts : List MethodTotals) (r : GroupRow)
    → sum_by (λ t. t.total_out) (add_row ts r) ≡ sum_by (λ t. t.total_out) ts + row_out r
unfolding add_row
sum_out-add_row [] r = ground arith
sum_out-add_row (t ∷ ts) r = ground (arith, sum_out-add_row ts r)

cash_in-add_row :
    (ts : List MethodTotals) (r : GroupRow)
    → (in_out_of (find is_cash (add_row ts r))).total_in
      ≡ (in_out_of (find is_cash ts)).total_in + cash_only row_in r
unfolding add_row
cash_in-add_row [] r = ground arith
cash_in-add_row (t ∷ ts) r = ground (arith, cash_in-add_row ts r)

cash_out-add_row :
    (ts : List MethodTotals) (r : GroupRow)
    → (in_out_of (find is_cash (add_row ts r))).total_out
      ≡ (in_out_of (find is_cash ts)).total_out + cash_only row_out r
unfolding add_row
cash_out-add_row [] r = ground arith
cash_out-add_row (t ∷ ts) r = ground (arith, cash_out-add_row ts r)

-- A measure of the totals that each row raises by `f r` ends at the sum of the `f r`.
module _ (measure : List MethodTotals → ℕ) (f : GroupRow → ℕ)
    (step : (ts : List MethodTotals) (r : GroupRow)
      → measure (add_row ts r) ≡ measure ts + f r) where
  measure-add_rows :
      (ts : List MethodTotals) (rows : List GroupRow)
      → measure (add_rows ts rows) ≡ measure ts + sum_by f rows
  unfolding add_rows
  measure-add_rows ts [] = omega arith
  measure-add_rows ts (r ∷ rows) = omega (arith, step ts r, measure-add_rows (add_row ts r) rows)

  measure-shape :
      measure [] ≡ 0 → (rows : List GroupRow) → measure (shape_method_totals rows) ≡ sum_by f rows
  unfolding shape_method_totals
  measure-shape empty rows = omega (arith, measure-add_rows [] rows)

-- For the rows of any grouping, in any order, repeated keys included.
pub record IsTotalled (rows : List GroupRow) (cash every : InOut) : Type 0 where
  pub every_in : every.total_in ≡ sum_by row_in rows
  pub every_out : every.total_out ≡ sum_by row_out rows
  pub cash_in : cash.total_in ≡ sum_by (cash_only row_in) rows
  pub cash_out : cash.total_out ≡ sum_by (cash_only row_out) rows

pub shape-IsTotalled :
    (rows : List GroupRow)
    → IsTotalled rows (pick_cash (shape_method_totals rows)) (pick_all (shape_method_totals rows))
unfolding pick_cash pick_all
shape-IsTotalled rows = record {
  every_in = measure-shape (sum_by (λ t. t.total_in)) row_in sum_in-add_row refl rows;
  every_out = measure-shape (sum_by (λ t. t.total_out)) row_out sum_out-add_row refl rows;
  cash_in =
      measure-shape (λ ts. (in_out_of (find is_cash ts)).total_in) (cash_only row_in)
        cash_in-add_row refl rows;
  cash_out =
      measure-shape (λ ts. (in_out_of (find is_cash ts)).total_out) (cash_only row_out)
        cash_out-add_row refl rows;
}

-- The money that moved in a session in one direction, straight from its entries.
abbrev pub moved : (session : ℕ) → EntryDirection → List CashEntry → ℕ
moved session d es =
    sum_by (λ e. if counts_in session e && same_direction e.direction d then e.amount else 0) es

abbrev pub moved_cash : (session : ℕ) → EntryDirection → List CashEntry → ℕ
moved_cash session d es = sum_by (λ e. if in_group session dinheiro d e then e.amount else 0) es

abbrev grouped : (session : ℕ) → PaymentMethod → EntryDirection → List CashEntry → ℕ
grouped session m d es = sum_by (λ e. if in_group session m d e then e.amount else 0) es

-- An empty group has no row, and adds nothing.
grouped_none :
    (session : ℕ) (m : PaymentMethod) (d : EntryDirection) (es : List CashEntry)
    → any (in_group session m d) es ≡ false
    → grouped session m d es ≡ 0
grouped_none session m d [] h = refl
grouped_none session m d (e ∷ es) h = ground (arith, grouped_none session m d es)

sum_by-group_of :
    (session : ℕ) (m : PaymentMethod) (d : EntryDirection) (es : List CashEntry) (f : GroupRow → ℕ)
    (weight : PaymentMethod → EntryDirection → ℕ → ℕ)
    → ((r : GroupRow) → f r ≡ weight r.method r.direction r.amount)
    → weight m d 0 ≡ 0
    → sum_by f (group_of session m d es) ≡ weight m d (grouped session m d es)
sum_by-group_of session m d es f weight reads zero_weight =
    elim (Bool-cases (any (in_group session m d) es)) [
      | inl p ↦ rw p (
          omega
            (arith, reads (record { method = m; direction = d; amount = grouped session m d es })))
      | inr q ↦ rw (q, grouped_none session m d es q, zero_weight)
    ]

-- The groups of all methods, measured by `f`.
sum_by-groups :
    (session : ℕ) (es : List CashEntry) (f : GroupRow → ℕ)
    (weight : PaymentMethod → EntryDirection → ℕ → ℕ)
    → ((r : GroupRow) → f r ≡ weight r.method r.direction r.amount)
    → ((m : PaymentMethod) (d : EntryDirection) → weight m d 0 ≡ 0)
    → (ms : List PaymentMethod)
    → sum_by f (groups session ms es)
      ≡ sum_by
          (λ m.
            weight m incoming (grouped session m incoming es)
            + weight m outgoing (grouped session m outgoing es))
          ms
unfolding groups
sum_by-groups session es f weight reads zero_weight [] = refl
sum_by-groups session es f weight reads zero_weight (m ∷ ms) =
    let ins = group_of session m incoming es in
    let outs = group_of session m outgoing es in
    let rest = groups session ms es in
    omega (
      arith,
      sum_by-append f ins (outs ++ rest),
      sum_by-append f outs rest,
      sum_by-group_of session m incoming es f weight reads (zero_weight m incoming),
      sum_by-group_of session m outgoing es f weight reads (zero_weight m outgoing),
      sum_by-groups session es f weight reads zero_weight ms,
    )

-- Every entry has one of the five methods.
moved_by_method :
    (session : ℕ) (d : EntryDirection) (es : List CashEntry)
    → grouped session pix d es
        + (grouped session dinheiro d es
            + (grouped session cartao_credito d es
                + (grouped session cartao_debito d es + grouped session outro d es)))
      ≡ moved session d es
moved_by_method session d [] = refl
moved_by_method session d (e ∷ es) = ground (arith, moved_by_method session d es)

-- The weight of a row: the side that is wanted, of every method or of cash alone.
abbrev weight : EntryDirection → Bool → PaymentMethod → EntryDirection → ℕ → ℕ
weight side only_cash m d a =
    if same_direction d side && (not only_cash || same_method m dinheiro) then a else 0

weigh_groups :
    (session : ℕ) (db : Db) (f : GroupRow → ℕ) (side : EntryDirection) (only_cash : Bool)
    → ((r : GroupRow) → f r ≡ weight side only_cash r.method r.direction r.amount)
    → sum_by f (session_totals_by_method session db)
      ≡ sum_by
          (λ m.
            weight side only_cash m incoming (grouped session m incoming db.entries)
            + weight side only_cash m outgoing (grouped session m outgoing db.entries))
          payment_methods
unfolding session_totals_by_method
weigh_groups session db f side only_cash reads =
    sum_by-groups session db.entries f (weight side only_cash) reads (λ m d. ground arith)
      payment_methods

-- The totals of a session, over its entries that are not reversed: all of them, and those in cash.
pub record IsSessionTotal (session : ℕ) (es : List CashEntry) (cash every : InOut) : Type 0 where
  pub every_in : every.total_in ≡ moved session incoming es
  pub every_out : every.total_out ≡ moved session outgoing es
  pub cash_in : cash.total_in ≡ moved_cash session incoming es
  pub cash_out : cash.total_out ≡ moved_cash session outgoing es

-- What `pickCash` and `pickAll` read off the shaped GROUP BY of a session are the sums over the
-- session's entries that are not reversed, by direction, and for `pickCash` those paid in cash.
pub session-IsSessionTotal :
    (session : ℕ) (db : Db)
    → let by_method = shape_method_totals (session_totals_by_method session db) in
      IsSessionTotal session db.entries (pick_cash by_method) (pick_all by_method)
session-IsSessionTotal session db =
    let rows = session_totals_by_method session db in
    let t = shape-IsTotalled rows in
    record {
      every_in = omega (
        arith,
        t.every_in,
        weigh_groups session db row_in incoming false (λ r. ground arith),
        moved_by_method session incoming db.entries,
      );
      every_out = omega (
        arith,
        t.every_out,
        weigh_groups session db row_out outgoing false (λ r. ground arith),
        moved_by_method session outgoing db.entries,
      );
      cash_in = omega (
        arith,
        t.cash_in,
        weigh_groups session db (cash_only row_in) incoming true (λ r. ground arith),
      );
      cash_out = omega (
        arith,
        t.cash_out,
        weigh_groups session db (cash_only row_out) outgoing true (λ r. ground arith),
      );
    }
