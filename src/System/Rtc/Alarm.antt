-- ===== src/System/Rtc/Alarm.antt =====
-- The one-shot alarm: crates/rv64-system/src/rtc.rs.
use lish.Prelude.{leb, ◌&&◌, ◌||◌, not, ℕ, ◌≡◌, refl, arith, true, false, List, [], ◌∷◌, ◌∙◌}
use lish.System.Rtc.{
  GoldfishRtc, time_ns, update_alarm, set_host_time_ns, read, write, commit_time, commit_alarm, irq,
}
use lish.System.Rtc.Time.{refresh}

-- An armed and enabled alarm is still ahead.
abbrev pub NotOverdue : GoldfishRtc → Type 0
NotOverdue r = (r.alarm_armed && r.irq_on && leb r.alarm_ns (time_ns r)) ≡ false

time_ns_of :
    (r s : GoldfishRtc)
    → r.host_ns ≡ s.host_ns
    → r.guest_offset_ns ≡ s.guest_offset_ns
    → time_ns r ≡ time_ns s
unfolding time_ns
time_ns_of r s h g = rw (h, g)

update_alarm-NotOverdue : (r : GoldfishRtc) → NotOverdue (update_alarm r)
unfolding update_alarm
update_alarm-NotOverdue r = ground arith

-- If no armed and enabled alarm is overdue, none is after a read of any register, after a write of
-- any, and after the host sets its clock.
pub accesses-NotOverdue :
    (r : GoldfishRtc) (off val : ℕ)
    → NotOverdue r
    → NotOverdue (read r off).1 × NotOverdue (write r off val) × NotOverdue (set_host_time_ns r val)
unfolding read write commit_time commit_alarm set_host_time_ns time_ns update_alarm
accesses-NotOverdue r off val n = (ground arith, ground arith, ground arith)

-- When the host sets its clock with the alarm armed and enabled, the interrupt is raised and the
-- alarm disarmed if the guest's time has reached the alarm; otherwise both stay as they were.
pub alarm_fires :
    (r : GoldfishRtc) (ns : ℕ)
    → r.alarm_armed ≡ true
    → r.irq_on ≡ true
    → let r' = set_host_time_ns r ns in
      let reached = leb r.alarm_ns (time_ns r') in
      (irq r' ≡ (reached || irq r)) × (r'.alarm_armed ≡ not reached)
unfolding set_host_time_ns update_alarm irq time_ns
alarm_fires r ns a e = (ground arith, ground arith)

-- The alarm is one-shot: while it is disarmed, no sequence of clock refreshes by the host changes
-- the interrupt line.
pub refresh-irq :
    (r : GoldfishRtc) (times : List ℕ) → r.alarm_armed ≡ false → irq (refresh r times) ≡ irq r
unfolding refresh irq set_host_time_ns update_alarm
refresh-irq r [] h = refl
refresh-irq r (ns ∷ rest) h = refresh-irq (set_host_time_ns r ns) rest (ground arith) ∙ ground arith
