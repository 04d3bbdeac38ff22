-- ===== src/System/Rtc.antt =====
-- The Goldfish real-time clock, crates/rv64-system/src/rtc.rs. A u32 is a number below 2 ^ 32, a
-- u64 one below 2 ^ 64, and the i128 offset an integer: it stays between -2 ^ 64 and 2 ^ 64, so its
-- width is never reached.
pub mod Time
pub mod Alarm
mod Tests
use lish.Prelude.{
  ℕ, ◌+◌, ◌*◌, ◌%◌, ◌/◌, ◌^◌, Bool, true, false, ◌&&◌, ltb, leb, ◌==◌, ◌!=◌, if◌then◌else◌, bit_or,
  shl, shr,
}
use lish.Prelude.Int.{ℤ, pos, negsuc, ◌+ℤ◌, sub_ℕ}

abbrev pub time_low : ℕ
time_low = 0x00

abbrev pub time_high : ℕ
time_high = 0x04

abbrev pub alarm_low : ℕ
alarm_low = 0x08

abbrev pub alarm_high : ℕ
alarm_high = 0x0c

abbrev pub irq_enabled : ℕ
irq_enabled = 0x10

abbrev pub clear_alarm : ℕ
clear_alarm = 0x14

abbrev pub alarm_status : ℕ
alarm_status = 0x18

abbrev pub clear_interrupt : ℕ
clear_interrupt = 0x1c

pub record GoldfishRtc : Type 0 where
  pub host_ns : ℕ
  pub guest_offset_ns : ℤ
  pub latched_time_high : ℕ
  pub write_time_high : ℕ
  pub alarm_high_latch : ℕ
  pub alarm_ns : ℕ
  pub alarm_armed : Bool
  pub irq_on : Bool
  pub irq_pending : Bool

unfoldable pub new : GoldfishRtc
new = record {
  host_ns = 0;
  guest_offset_ns = pos 0;
  latched_time_high = 0;
  write_time_high = 0;
  alarm_high_latch = 0;
  alarm_ns = 0;
  alarm_armed = false;
  irq_on = false;
  irq_pending = false;
}

-- `.clamp(0, u64::MAX as i128) as u64`.
unfoldable pub clamp_u64 : ℤ → ℕ
clamp_u64 (pos n) = if leb n 0xffff_ffff_ffff_ffff then n else 0xffff_ffff_ffff_ffff
clamp_u64 (negsuc n) = 0

unfoldable pub time_ns : GoldfishRtc → ℕ
unfolding clamp_u64 ◌+ℤ◌
time_ns r = clamp_u64 (pos r.host_ns +ℤ r.guest_offset_ns)

unfoldable pub update_alarm : GoldfishRtc → GoldfishRtc
update_alarm r =
    if r.alarm_armed && r.irq_on && leb r.alarm_ns (time_ns r)
    then record r { alarm_armed = false; irq_pending = true }
    else r

unfoldable pub set_host_time_ns : GoldfishRtc → ℕ → GoldfishRtc
set_host_time_ns r ns = update_alarm (record r { host_ns = ns })

abbrev bool_word : Bool → ℕ
bool_word b = if b then 1 else 0

unfoldable pub read : GoldfishRtc → ℕ → ℕ × GoldfishRtc
read r off =
    if off == time_low
    then (time_ns r % 2 ^ 32, record r { latched_time_high = shr (time_ns r) 32 % 2 ^ 32 })
    else if off == time_high
    then (r.latched_time_high, r)
    else if off == alarm_low
    then (r.alarm_ns % 2 ^ 32, r)
    else if off == alarm_high
    then (shr r.alarm_ns 32 % 2 ^ 32, r)
    else if off == irq_enabled
    then (bool_word r.irq_on, r)
    else if off == alarm_status
    then (bool_word r.alarm_armed, r)
    else (0, r)

-- `((high as u64) << 32) | low as u64`.
unfoldable pub join_words : ℕ → ℕ → ℕ
join_words high low = bit_or (shl high 32) low

unfoldable pub commit_time : GoldfishRtc → ℕ → GoldfishRtc
commit_time r val =
    update_alarm (record r { guest_offset_ns = sub_ℕ (join_words r.write_time_high val) r.host_ns })

unfoldable pub commit_alarm : GoldfishRtc → ℕ → GoldfishRtc
commit_alarm r val =
    update_alarm (record r { alarm_ns = join_words r.alarm_high_latch val; alarm_armed = true })

unfoldable pub write : GoldfishRtc → ℕ → ℕ → GoldfishRtc
write r off val =
    if off == time_high
    then record r { write_time_high = val }
    else if off == time_low
    then commit_time r val
    else if off == alarm_high
    then record r { alarm_high_latch = val }
    else if off == alarm_low
    then commit_alarm r val
    else if off == irq_enabled
    then update_alarm (record r { irq_on = val != 0 })
    else if off == clear_alarm
    then record r { alarm_armed = false; irq_pending = false }
    else if off == clear_interrupt
    then record r { irq_pending = false }
    else r

unfoldable pub irq : GoldfishRtc → Bool
irq r = r.irq_pending
