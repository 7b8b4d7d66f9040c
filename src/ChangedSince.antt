-- ===== src/ChangedSince.antt =====
-- The pages of changes that a device pulls: back/src/common/database/changed-since.ts. The query runs on the
-- rows that the tenant sees; the row that is answered is the row of the table.
pub mod Order
pub mod Pages
use orbix_hub.Base.{
  ℕ, suc, ◌/◌, ◌==◌, Bool, true, false, ◌&&◌, ◌||◌, Option, none, some, List, [], ◌∷◌, length, take,
  keep, if◌then◌else◌, ltb, leb, min, max, ℤ, pos, negsuc,
}

-- A moment in microseconds, which its text keeps, and the id of a row.
pub record ChangeCursor : Type 0 where
  pub ts : ℕ
  pub id : ℕ

pub record ChangedSincePage (A : Type 0) : Type 0 where
  pub rows : List A
  pub next_cursor : Option ChangeCursor
  pub has_more : Bool

-- `(a.ts, a.id) > (b.ts, b.id)`
abbrev pub later : (a b : ChangeCursor) → Bool
later a b = ltb b.ts a.ts || (a.ts == b.ts && ltb b.id a.id)

module _ {A : Type 0} (stamp : A → ChangeCursor) where
  -- `WHERE`
  abbrev pub past : Option ChangeCursor → A → Bool
  past none r = true
  past (some c) r = later (stamp r) c

  unfoldable pub insert_by_stamp : A → List A → List A
  insert_by_stamp x [] = x ∷ []
  insert_by_stamp x (r ∷ rs) =
      if later (stamp x) (stamp r) then r ∷ insert_by_stamp x rs else x ∷ r ∷ rs

  -- `ORDER BY`
  unfoldable pub order_by_stamp : List A → List A
  unfolding insert_by_stamp
  order_by_stamp [] = []
  order_by_stamp (r ∷ rs) = insert_by_stamp r (order_by_stamp rs)

  unfoldable pub changed_since : Option ChangeCursor → List A → List A
  unfolding order_by_stamp
  changed_since cursor table = order_by_stamp (keep (past cursor) table)

  abbrev pub last_stamp : A → List A → ChangeCursor
  last_stamp r [] = stamp r
  last_stamp r (s ∷ ss) = last_stamp s ss

  -- What is answered for the rows of the query.
  abbrev pub page_of : (limit : ℕ) → List A → ChangedSincePage A
  page_of limit [] = record { rows = []; next_cursor = none; has_more = false }
  page_of limit (r ∷ rs) = record {
    rows = r ∷ rs;
    next_cursor = some (last_stamp r rs);
    has_more = leb limit (length (r ∷ rs));
  }

  unfoldable pub query_changed_since :
      (table : List A) (cursor : Option ChangeCursor) (limit : ℕ) → ChangedSincePage A
  unfolding changed_since
  query_changed_since table cursor limit = page_of limit (take limit (changed_since cursor table))

-- A number of JavaScript, in thousandths.
pub data Limit : Type 0 where
  not_finite : Limit
  finite : (thousandths : ℤ) → Limit

unfoldable pub clamp_changed_since_limit : Limit → ℕ
clamp_changed_since_limit not_finite = 500
clamp_changed_since_limit (finite (pos n)) = min 500 (max 1 (n / 1000))
clamp_changed_since_limit (finite (negsuc n)) = 1
