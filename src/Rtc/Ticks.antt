-- ===== src/Rtc/Ticks.antt =====
-- kernel/rtc.c: the clock between two reads of the CMOS, and the parts of the uptime.
use deanos.Prelude.{
  ℕ, ◌/◌, ◌≤◌, ◌≡◌, ◌<◌, true, ◌⊎◌, ◌^◌, arith, ◌*◌, ◌+◌, ◌-◌, inl, ◌%◌, inr, refl, ap,
}
use deanos.Rtc.{Clock, get_uptime, rtc_resync_tick, rtc_get_wallclock_seconds, resync_interval_ms}

elapsed_lem :
    (now_ms mono_ms : ℕ)
    → mono_ms ≤ now_ms
    → now_ms < 2 ^ 64
    → (now_ms + 2 ^ 64 - mono_ms) % 2 ^ 64 ≡ now_ms - mono_ms
elapsed_lem now_ms mono_ms le lt = omega arith

-- The seconds since the last resync are added to what was read then, as long as they fit 32 bits.
pub wallclock_seconds_synced :
    (c : Clock) (now_ms read : ℕ)
    → c.synced ≡ true
    → c.mono_ms ≤ now_ms
    → now_ms < 2 ^ 64
    → c.epoch_s + (now_ms - c.mono_ms) / 1000 < 2 ^ 32
    → rtc_get_wallclock_seconds c now_ms read ≡ c.epoch_s + (now_ms - c.mono_ms) / 1000
unfolding rtc_get_wallclock_seconds
wallclock_seconds_synced c now_ms read on le lt fits =
    rw (on, elapsed_lem now_ms c.mono_ms le lt) (omega arith)

-- The clock after a tick of a synced one: as before, or the new read.
tick-cases :
    (c : Clock) (now_ms read : ℕ)
    → (rtc_resync_tick c now_ms read ≡ c)
      ⊎ (rtc_resync_tick c now_ms read ≡ record { synced = true; epoch_s = read; mono_ms = now_ms })
unfolding rtc_resync_tick
tick-cases c now_ms read = ground arith

tick_early :
    (c : Clock) (now_ms read : ℕ)
    → c.synced ≡ true
    → c.mono_ms ≤ now_ms
    → now_ms < 2 ^ 64
    → now_ms - c.mono_ms < resync_interval_ms
    → rtc_resync_tick c now_ms read ≡ c
unfolding rtc_resync_tick
tick_early c now_ms read on le lt soon =
    rw (elapsed_lem now_ms c.mono_ms le lt) (ground (arith, on, soon))

tick_zero : (c : Clock) (now_ms : ℕ) → rtc_resync_tick c now_ms 0 ≡ c
unfolding rtc_resync_tick
tick_zero c now_ms = ground arith

-- A tick changes no later reading when it comes within the interval after the last resync, nor when the
-- CMOS clock gives 0. When the CMOS clock agrees with the running one at the tick, later readings are at
-- most as late as without the tick, and at most one second earlier: with uptimes below 2^64 and seconds
-- below 2^32.
pub rtc_resync_tick-steady :
    (c : Clock) (tick_ms now_ms read : ℕ)
    → c.synced ≡ true
    → c.mono_ms ≤ tick_ms
    → tick_ms ≤ now_ms
    → now_ms < 2 ^ 64
    → c.epoch_s + (now_ms - c.mono_ms) / 1000 < 2 ^ 32
    → let before = rtc_get_wallclock_seconds c in
      let after = λ (r : ℕ). rtc_get_wallclock_seconds (rtc_resync_tick c tick_ms r) now_ms read in
      let agreeing = before tick_ms read in
      ((r : ℕ) → tick_ms - c.mono_ms < resync_interval_ms → after r ≡ before now_ms read)
      × (after 0 ≡ before now_ms read)
      × (after agreeing ≤ before now_ms read)
      × (before now_ms read ≤ after agreeing + 1)
rtc_resync_tick-steady c tick_ms now_ms read on le le' lt fits =
    let r = rtc_get_wallclock_seconds c tick_ms read in
    let at_tick = wallclock_seconds_synced c tick_ms read on le (omega arith) (omega arith) in
    let at_now = wallclock_seconds_synced c now_ms read on (omega arith) lt fits in
    let wallclock = λ (k : Clock). rtc_get_wallclock_seconds k now_ms read in
    let early = λ (r' : ℕ) (soon : tick_ms - c.mono_ms < resync_interval_ms).
      ap wallclock (tick_early c tick_ms r' on le (omega arith) soon) in
    let before = rtc_get_wallclock_seconds c in
    let after = rtc_get_wallclock_seconds (rtc_resync_tick c tick_ms r) in
    let steady : (after now_ms read ≤ before now_ms read)
        × (before now_ms read ≤ after now_ms read + 1) =
      elim (tick-cases c tick_ms r) [
        | inl same ↦ rw same (omega arith, omega arith)
        | inr new ↦
            let c' : Clock = record { synced = true; epoch_s = r; mono_ms = tick_ms } in
            let later =
              wallclock_seconds_synced c' now_ms read refl le' lt (omega (arith, at_tick)) in
            rw new (omega (arith, later, at_tick, at_now), omega (arith, later, at_tick, at_now))
      ] in
    (early, ap wallclock (tick_zero c tick_ms), steady.0, steady.1)

-- The days, hours, minutes and seconds of the uptime make up its whole seconds, each in its range,
-- while the days fit 32 bits.
pub get_uptime-total :
    (uptime_ms : ℕ)
    → uptime_ms / 1000 / 86400 < 2 ^ 32
    → let u = get_uptime uptime_ms in
      (((u.days * 24 + u.hours) * 60 + u.minutes) * 60 + u.seconds ≡ uptime_ms / 1000)
      × (u.hours < 24)
      × (u.minutes < 60)
      × (u.seconds < 60)
unfolding get_uptime
get_uptime-total uptime_ms h = (omega arith, omega arith, omega arith, omega arith)
