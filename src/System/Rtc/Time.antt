-- ===== src/System/Rtc/Time.antt =====
-- Setting and reading the time: crates/rv64-system/src/rtc.rs.
use lish.Prelude.{
  ℕ, ◌+◌, ◌-◌, ◌*◌, ◌%◌, ◌^◌, ◌≤◌, ◌<◌, ◌≡◌, refl, arith, List, [], ◌∷◌, shl, shr, ◌∙◌,
}
use lish.Prelude.Int.{◌+ℤ◌}
use lish.Prelude.Bits.{or_comm}
use lish.Prelude.Bits.Fields.{or_fields}
use lish.System.Rtc.{
  GoldfishRtc, time_low, time_high, time_ns, update_alarm, set_host_time_ns, read, join_words,
  commit_time, write,
}

pub join_words_lem : (high low : ℕ) → low < 2 ^ 32 → join_words high low ≡ high * 2 ^ 32 + low
unfolding join_words
join_words_lem high low lt = or_comm (shl high 32) low ∙ or_fields 32 high low lt ∙ omega arith

-- The host refreshes its clock any number of times.
unfoldable pub refresh : GoldfishRtc → List ℕ → GoldfishRtc
refresh r [] = r
refresh r (ns ∷ rest) = refresh (set_host_time_ns r ns) rest

refresh-latched :
    (r : GoldfishRtc) (times : List ℕ) → (refresh r times).latched_time_high ≡ r.latched_time_high
unfolding refresh set_host_time_ns update_alarm
refresh-latched r [] = refl
refresh-latched r (ns ∷ rest) = refresh-latched (set_host_time_ns r ns) rest ∙ ground arith

time_ns-fits : (r : GoldfishRtc) → time_ns r < 2 ^ 64
unfolding time_ns
time_ns-fits r = ground arith

-- A read of the low half and a later read of the high half make up the time of the first read,
-- however often the host refreshes its clock in between.
pub read_pair :
    (r : GoldfishRtc) (times : List ℕ)
    → let (low, r') = read r time_low in
      let high = (read (refresh r' times) time_high).0 in high * 2 ^ 32 + low ≡ time_ns r
unfolding read
read_pair r times = omega (
  arith,
  refresh-latched (record r { latched_time_high = shr (time_ns r) 32 % 2 ^ 32 }) times,
  time_ns-fits r,
)

-- After the guest writes the high and then the low 32 bits, the clock shows that time; when the
-- host's clock then moves on to a later time, the guest's moves on by as much, provided that the
-- sum fits 64 bits.
pub set_time-advances :
    (r : GoldfishRtc) (high low later : ℕ)
    → high < 2 ^ 32
    → low < 2 ^ 32
    → r.host_ns ≤ later
    → high * 2 ^ 32 + low + (later - r.host_ns) < 2 ^ 64
    → let r' = write (write r time_high high) time_low low in
      (time_ns r' ≡ high * 2 ^ 32 + low)
      × (time_ns (set_host_time_ns r' later) ≡ high * 2 ^ 32 + low + (later - r.host_ns))
unfolding write commit_time update_alarm set_host_time_ns time_ns ◌+ℤ◌
set_time-advances r high low later h l le fits =
    (ground (arith, join_words_lem high low l), ground (arith, join_words_lem high low l))
