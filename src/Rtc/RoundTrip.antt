-- ===== src/Rtc/RoundTrip.antt =====
-- The calendar conversions of kernel/rtc.c undo one another.
use deanos.Prelude.{
  ℕ, ◌<◌, ◌≡◌, ◌^◌, ◌+◌, ◌/◌, ◌-◌, arith, ◌≤◌, Bool-cases, inl, ◌*◌, inr, ◌%◌, ◌∙◌,
}
use deanos.Rtc.{
  rtc_time_to_epoch_seconds, rtc_epoch_to_calendar, RtcTime, split_years, add_years, is_leap_year,
  split_months,
}
use deanos.Rtc.Calendar.{
  split_years-YearSplit, sum_years, day_of_year, split_months-day_of_year, add_years-sum,
  sum_years-le,
}

-- What the fields of a calendar time are, before they are added up.
pub record Fields (e : ℕ) (t : RtcTime) : Type 0 where
  pub years : ℕ
  pub year : t.year ≡ 1970 + years
  pub few : years ≤ 136
  pub month_in : (1 ≤ t.month) × (t.month ≤ 12)
  pub day_in : (1 ≤ t.day) × (t.day ≤ 31)
  pub date :
      sum_years years 1970 + day_of_year (is_leap_year t.year) (t.month - 1, t.day - 1) ≡ e / 86400
  pub clock : (t.hour < 24) × (t.minute < 60) × (t.second < 60)
  pub seconds : t.hour * 3600 + t.minute * 60 + t.second ≡ e % 86400

pub calendar-Fields : (e : ℕ) → e < 2 ^ 32 → Fields e (rtc_epoch_to_calendar e)
unfolding rtc_epoch_to_calendar
calendar-Fields e h =
    let days = e / 86400 in
    let ys = split_years-YearSplit days days 1970 (omega arith) in
    let y = split_years days days 1970 in
    let ms = split_months-day_of_year y.0 y.1 ys.within in
    let m = split_months 12 y.0 y.1 0 in
    let few : ys.years ≤ 136 = omega (arith, sum_years-le ys.years 1970, ys.sum) in
    let year16 : y.0 % 2 ^ 16 ≡ y.0 = omega (arith, ys.year) in
    let month8 : (m.0 + 1) % 2 ^ 8 - 1 ≡ m.0 = omega (arith, ms.0) in
    let day8 : (m.1 + 1) % 2 ^ 8 - 1 ≡ m.1 = omega (arith, ms.1) in
    record {
      years = ys.years;
      year = year16 ∙ ys.year;
      few = few;
      month_in = omega (arith, ms.0);
      day_in = omega (arith, ms.1);
      date = rw (year16, month8, day8) (omega (arith, ms.2, ys.sum));
      clock = omega arith;
      seconds = omega arith;
    }

-- A time with such fields is turned back into the seconds that it came from.
pub epoch_of_Fields :
    (e : ℕ) (t : RtcTime) → e < 2 ^ 32 → Fields e t → rtc_time_to_epoch_seconds t ≡ e
unfolding rtc_time_to_epoch_seconds
epoch_of_Fields e t h f =
    let years : t.year - 1970 ≡ f.years = omega (arith, f.year) in
    let added : add_years (t.year - 1970) 1970 0 ≡ 0 + sum_years f.years 1970 =
      rw years (add_years-sum f.years 1970 0 (omega (arith, f.date))) in
    let date = f.date in
    rw added (elim (Bool-cases (is_leap_year t.year)) [
      | inl leap ↦
          rw leap (
            ground
              (arith, f.year, f.few, f.month_in, f.day_in, f.clock, f.seconds, rw leap at date))
      | inr common ↦ rw common (
          ground
            (arith, f.year, f.few, f.month_in, f.day_in, f.clock, f.seconds, rw common at date))
    ])

-- Turning seconds since 1970 into a date and time of day and back gives the same seconds, for every
-- 32-bit value.
pub rtc_time_to_epoch_seconds-rtc_epoch_to_calendar :
    (e : ℕ) → e < 2 ^ 32 → rtc_time_to_epoch_seconds (rtc_epoch_to_calendar e) ≡ e
rtc_time_to_epoch_seconds-rtc_epoch_to_calendar e h =
    epoch_of_Fields e (rtc_epoch_to_calendar e) h (calendar-Fields e h)
