-- ===== src/Data/Timestamp.antt =====
-- crate-lib/src/data/timestamp.rs: seconds since Unix' epoch, a `u64`, and the conversions from and
-- to the standard library's `SystemTime`, which on Unix has 63 bits of seconds on either side of the
-- epoch. The clock that `now` reads is its argument.
pub mod Conversion
use baf.Base.{ℕ, ◌^◌, ◌<◌, List, Option, none, some, Result, ok, err, ltb, if◌then◌else◌}
use baf.Bytes.{to_le_bytes}
use baf.Source.{Reader, IoError, read_uint}

abbrev pub Timestamp : Type 0
Timestamp = ℕ

pub data TimestampError : Type 0 where
  before_epoch : TimestampError

-- A time after the epoch, or at it, and one before: seconds and nanoseconds from there.
pub data SystemTime : Type 0 where
  since_epoch : ℕ → ℕ → SystemTime
  until_epoch : ℕ → ℕ → SystemTime

-- `value.duration_since(SystemTime::UNIX_EPOCH)` and `as_secs`.
unfoldable pub try_from : SystemTime → Result TimestampError Timestamp
try_from (since_epoch secs nanos) = ok secs
try_from (until_epoch secs nanos) = err before_epoch

-- `SystemTime::UNIX_EPOCH + Duration::from_secs(…)`, which panics where the seconds do not fit.
unfoldable pub to_system_time : Timestamp → Option SystemTime
to_system_time t = if ltb t (2 ^ 63) then some (since_epoch t 0) else none

-- `none` is the panic of `expect`.
unfoldable pub now : SystemTime → Option Timestamp
now clock = elim (try_from clock) [ ok t ↦ some t | err e ↦ none ]

unfoldable pub encode : Timestamp → List ℕ
encode t = to_le_bytes 8 t

unfoldable pub read_from : Reader IoError Timestamp
read_from = read_uint 8
