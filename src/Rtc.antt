-- ===== src/Rtc.antt =====
-- kernel/rtc.c: the calendar and the clock. Time of day and date as the CMOS clock has them, seconds
-- since 1970 in 32 bits, the conversions both ways, and the clock that runs on between two reads of the
-- CMOS.
pub mod Calendar
pub mod RoundTrip
pub mod Ticks
mod Examples
use deanos.Prelude.{
  ℕ, Bool, List, ◌*◌, ◌-◌, ◌%◌, ◌∷◌, if◌then◌else◌, ◌/◌, suc, ◌&&◌, ◌+◌, ◌==◌, ◌^◌, [], not, ◌||◌,
  zero, get_or, ltb, true,
}

-- rtc_time_t
pub record RtcTime : Type 0 where
  pub second : ℕ
  pub minute : ℕ
  pub hour : ℕ
  pub day : ℕ
  pub month : ℕ
  pub year : ℕ

unfoldable pub is_leap_year : ℕ → Bool
is_leap_year year = year % 4 == 0 && not (year % 100 == 0) || year % 400 == 0

abbrev pub days_before_month : List ℕ
days_before_month = 0 ∷ 31 ∷ 59 ∷ 90 ∷ 120 ∷ 151 ∷ 181 ∷ 212 ∷ 243 ∷ 273 ∷ 304 ∷ 334 ∷ []

abbrev pub month_lengths : List ℕ
month_lengths = 31 ∷ 28 ∷ 31 ∷ 30 ∷ 31 ∷ 30 ∷ 31 ∷ 31 ∷ 30 ∷ 31 ∷ 30 ∷ 31 ∷ []

unfoldable pub year_days : ℕ → ℕ
unfolding is_leap_year
year_days y = if is_leap_year y then 366 else 365

-- `for (y = from; y < from + n; ++y) days += ...`
unfoldable pub add_years : ℕ → ℕ → ℕ → ℕ
add_years zero y days = days
add_years (suc n) y days = add_years n (y + 1) ((days + year_days y) % 2 ^ 32)

unfoldable pub rtc_time_to_epoch_seconds : RtcTime → ℕ
unfolding add_years
rtc_time_to_epoch_seconds t =
    let days = add_years (t.year - 1970) 1970 0 in
    let days' = days + get_or days_before_month (t.month - 1) 0 in
    let days'' = if ltb 2 t.month && is_leap_year t.year then days' + 1 else days' in
    if ltb t.year 1970
      || ltb t.month 1
      || ltb 12 t.month
      || ltb t.day 1
      || ltb 31 t.day
      || ltb 23 t.hour
      || ltb 59 t.minute
      || ltb 59 t.second
    then 0
    else ((days'' + (t.day - 1)) * 86400 + t.hour * 3600 + t.minute * 60 + t.second) % 2 ^ 32

-- The loop that takes whole years off `days`: the year and the days left. `days` falls in each round.
unfoldable pub split_years : ℕ → ℕ → ℕ → ℕ × ℕ
split_years zero days year = (year, days)
split_years (suc fuel) days year =
    let rest = split_years fuel (days - year_days year) (year + 1) in
    if ltb days (year_days year) then (year, days) else rest

unfoldable pub month_length : ℕ → ℕ → ℕ
month_length year month =
    if month == 1 && is_leap_year year then 29 else get_or month_lengths month 0

-- The loop that takes whole months off `days`, from January (0) on; 12 rounds are enough for a year.
unfoldable pub split_months : ℕ → ℕ → ℕ → ℕ → ℕ × ℕ
split_months zero year days month = (month, days)
split_months (suc fuel) year days month =
    let len = month_length year month in
    let rest = split_months fuel year (days - len) (month + 1) in
    if ltb days len then (month, days) else rest

-- The casts keep the year in 16 bits and the other fields in 8.
unfoldable pub rtc_epoch_to_calendar : ℕ → RtcTime
unfolding split_years split_months
rtc_epoch_to_calendar epoch =
    let days = epoch / 86400 in
    let rem = epoch % 86400 in
    let (year, in_year) = split_years days days 1970 in
    let (month, in_month) = split_months 12 year in_year 0 in
    record {
      second = rem % 60 % 2 ^ 8;
      minute = rem % 3600 / 60 % 2 ^ 8;
      hour = rem / 3600 % 2 ^ 8;
      day = (in_month + 1) % 2 ^ 8;
      month = (month + 1) % 2 ^ 8;
      year = year % 2 ^ 16;
    }

abbrev pub bcd_to_binary : ℕ → ℕ
bcd_to_binary bcd = (bcd / 16 * 10 + bcd % 16) % 2 ^ 8

-- The state of the clock: the last good read of the CMOS and when it was made.
pub record Clock : Type 0 where
  pub synced : Bool
  pub epoch_s : ℕ
  pub mono_ms : ℕ

abbrev pub resync_interval_ms : ℕ
resync_interval_ms = 30 * 60 * 1000

-- `now_ms` is `pit_get_uptime_ms()` and `read` is `rtc_read_epoch_now()`.
unfoldable pub rtc_resync_tick : Clock → (now_ms read : ℕ) → Clock
rtc_resync_tick c now_ms read =
    if c.synced && ltb ((now_ms + 2 ^ 64 - c.mono_ms) % 2 ^ 64) resync_interval_ms
    then c
    else if read == 0
    then c
    else record { synced = true; epoch_s = read; mono_ms = now_ms }

unfoldable pub rtc_get_wallclock_seconds : Clock → (now_ms read : ℕ) → ℕ
rtc_get_wallclock_seconds c now_ms read =
    if not c.synced
    then read
    else (c.epoch_s + (now_ms + 2 ^ 64 - c.mono_ms) % 2 ^ 64 / 1000 % 2 ^ 32) % 2 ^ 32

pub record Uptime : Type 0 where
  pub days : ℕ
  pub hours : ℕ
  pub minutes : ℕ
  pub seconds : ℕ

unfoldable pub get_uptime : ℕ → Uptime
get_uptime uptime_ms =
    let total = uptime_ms / 1000 in
    record {
      seconds = total % 60 % 2 ^ 32;
      minutes = total / 60 % 60 % 2 ^ 32;
      hours = total / 60 / 60 % 24 % 2 ^ 32;
      days = total / 60 / 60 / 24 % 2 ^ 32;
    }
