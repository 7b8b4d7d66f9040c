-- ===== src/Sync.antt =====
-- Last write wins: back/src/modules/sync/sync.lww.ts. Times are milliseconds since the epoch.
pub mod Payload
pub mod Store
pub mod Push
pub mod Pull
use orbix_hub.Base.{ℕ, ◌≤◌, ◌<◌, ◌≡◌, ◌↔◌, Bool, true, false, Option, none, some, ltb, min, arith}

-- The client's clock: a number, or a value that is not finite.
pub data Clock : Type 0 where
  finite : ℕ → Clock
  not_finite : Clock

-- `none` is minus infinity.
unfoldable pub effective_ts_ms : Clock → (now_ms : ℕ) → Option ℕ
effective_ts_ms not_finite now_ms = none
effective_ts_ms (finite t) now_ms = some (min t now_ms)

abbrev pub exceeds : ℕ → Option ℕ → Bool
exceeds current none = true
exceeds current (some t) = ltb t current

unfoldable pub lww_discards : (current : Option ℕ) → Clock → (now_ms : ℕ) → Bool
unfolding effective_ts_ms
lww_discards none client now_ms = false
lww_discards (some current) client now_ms = exceeds current (effective_ts_ms client now_ms)

-- Against a row that is not of the future, a mutation with a finite clock is discarded exactly when its
-- clock, forged or not, is behind the row, one without a finite clock always; without a row nothing is
-- discarded.
pub lww_discards_lem :
    (current t now_ms : ℕ)
    → current ≤ now_ms
    → ((lww_discards (some current) (finite t) now_ms ≡ true) ↔ (t < current))
      × (lww_discards (some current) not_finite now_ms ≡ true)
      × (lww_discards none (finite t) now_ms ≡ false)
unfolding lww_discards
lww_discards_lem current t now_ms h = ground arith

-- A row written with any clock at some time, stamped with its effective time, never has a later
-- mutation with an honest clock discarded: a clock of the future does not poison the row.
pub future_clock_harmless :
    (forged written honest now_ms : ℕ)
    → written ≤ honest
    → written ≤ now_ms
    → lww_discards (effective_ts_ms (finite forged) written) (finite honest) now_ms ≡ false
unfolding lww_discards
future_clock_harmless forged written honest now_ms h k = ground arith
