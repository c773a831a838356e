-- ===== src/Data/Timestamp/Conversion.antt =====
-- What the conversions of timestamps keep.
use baf.Base.{◌^◌, ◌<◌, ◌≡◌, refl, some, and_then, lt→ltb}
use baf.Data.Timestamp.{Timestamp, try_from, to_system_time, now}

-- A timestamp of 63 bits becomes a time that is converted back to it, and `now` at that time is the
-- timestamp.
pub now-to_system_time : (t : Timestamp) → t < 2 ^ 63 → and_then (to_system_time t) now ≡ some t
unfolding to_system_time now try_from
now-to_system_time t h = rw (lt→ltb t (2 ^ 63) h) refl
