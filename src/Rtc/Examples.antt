-- ===== src/Rtc/Examples.antt =====
-- The theorems about kernel/rtc.c at one value each.
use deanos.Prelude.{◌≤◌, ◌*◌, ℕ, true, ◌+◌, ◌≡◌, arith, ◌/◌, ◌<◌, refl, ◌-◌}
use deanos.Rtc.{
  Clock, rtc_time_to_epoch_seconds, Uptime, rtc_epoch_to_calendar, rtc_get_wallclock_seconds,
  get_uptime, rtc_resync_tick, resync_interval_ms,
}
use deanos.Rtc.Ticks.{rtc_resync_tick-steady, get_uptime-total}
use deanos.Rtc.RoundTrip.{rtc_time_to_epoch_seconds-rtc_epoch_to_calendar}

roundtrip_example : rtc_time_to_epoch_seconds (rtc_epoch_to_calendar 951_782_400) ≡ 951_782_400
roundtrip_example = rtc_time_to_epoch_seconds-rtc_epoch_to_calendar 951_782_400 (omega arith)

abbrev clock_at_boot : Clock
clock_at_boot = record { synced = true; epoch_s = 1_000_000; mono_ms = 1_500 }

abbrev running : ℕ → ℕ
running now_ms = rtc_get_wallclock_seconds clock_at_boot now_ms 0

-- The reading at 1_950_200 after a tick at which the CMOS clock gave `read`.
abbrev resynced : ℕ → ℕ
resynced read = rtc_get_wallclock_seconds (rtc_resync_tick clock_at_boot 1_900_000 read) 1_950_200 0

rtc_resync_tick-steady_example :
    ((r : ℕ) → 1_900_000 - 1_500 < resync_interval_ms → resynced r ≡ running 1_950_200)
    × (resynced 0 ≡ running 1_950_200)
    × (resynced (running 1_900_000) ≤ running 1_950_200)
    × (running 1_950_200 ≤ resynced (running 1_900_000) + 1)
rtc_resync_tick-steady_example =
    rtc_resync_tick-steady clock_at_boot 1_900_000 1_950_200 0 refl (omega arith) (omega arith)
      (omega arith) (omega arith)

abbrev two_days : Uptime
two_days = get_uptime 180_000_123

get_uptime-total_example :
    (((two_days.days * 24 + two_days.hours) * 60 + two_days.minutes) * 60 + two_days.seconds
      ≡ 180_000_123 / 1000)
    × (two_days.hours < 24)
    × (two_days.minutes < 60)
    × (two_days.seconds < 60)
get_uptime-total_example = get_uptime-total 180_000_123 (omega arith)
