-- ===== src/System/Rtc/Tests.antt =====
-- Runs of the clock of crates/rv64-system/src/rtc.rs.
use lish.Prelude.{
  ℕ, ◌+◌, ◌-◌, ◌*◌, ◌^◌, ◌≡◌, refl, true, false, List, [], ◌∷◌, arith, leb, ◌||◌, not,
}
use lish.Prelude.Int.{pos}
use lish.System.Rtc.{
  GoldfishRtc, new, read, write, irq, time_ns, set_host_time_ns, alarm_low, clamp_u64,
}
use lish.System.Rtc.Time.{refresh}
use lish.System.Rtc.Alarm.{NotOverdue, accesses-NotOverdue, refresh-irq}

-- The host's clock is just below a wrap of the low word, and an alarm is set.
abbrev armed : GoldfishRtc
unfolding new
armed = record new {
  host_ns = 0x1_ffff_ffff;
  alarm_ns = 0x2_0000_0010;
  alarm_armed = true;
  irq_on = true;
}

accesses-NotOverdue_example :
    NotOverdue (read armed alarm_low).1
    × NotOverdue (write armed alarm_low 0)
    × NotOverdue (set_host_time_ns armed 0)
unfolding new time_ns clamp_u64 lish.Prelude.Int.◌+ℤ◌
accesses-NotOverdue_example = accesses-NotOverdue armed alarm_low 0 refl

refresh-irq_example :
    irq
      (refresh (record armed { alarm_armed = false; irq_pending = true }) (0 ∷ 0x2_0000_0020 ∷ []))
    ≡ irq (record armed { alarm_armed = false; irq_pending = true })
refresh-irq_example =
    refresh-irq (record armed { alarm_armed = false; irq_pending = true }) (0 ∷ 0x2_0000_0020 ∷ [])
      refl
