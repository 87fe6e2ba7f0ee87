-- ===== src/Rtc/Calendar.antt =====
-- The two loops of kernel/rtc.c that take years and months off a number of days.
use deanos.Prelude.{
  ℕ, Bool, get_or, ◌*◌, ◌≡◌, suc, ltb, ◌<◌, ◌≤◌, true, ◌+◌, ◌&&◌, ◌^◌, zero, arith, ◌==◌,
  if◌then◌else◌, refl, ap, Bool-cases, ◌%◌, false, ◌∙◌, inl, inr, sym, ◌-◌,
}
use deanos.Rtc.{
  year_days, split_years, split_months, add_years, month_length, is_leap_year, days_before_month,
  month_lengths,
}

-- The days of the `n` years from `y` on.
abbrev pub sum_years : ℕ → ℕ → ℕ
sum_years zero y = 0
sum_years (suc n) y = year_days y + sum_years n (y + 1)

pub year_days_bounds : (y : ℕ) → (365 ≤ year_days y) × (year_days y ≤ 366)
unfolding year_days
year_days_bounds y = ground arith

pub sum_years-le : (n y : ℕ) → 365 * n ≤ sum_years n y
sum_years-le zero y = omega arith
sum_years-le (suc n) y = omega (arith, (year_days_bounds y).0, sum_years-le n (y + 1))

-- The loop of `rtc_time_to_epoch_seconds` adds them, where they fit 32 bits.
pub add_years-sum :
    (n y days : ℕ) → days + sum_years n y < 2 ^ 32 → add_years n y days ≡ days + sum_years n y
unfolding add_years
add_years-sum zero y days h = omega arith
add_years-sum (suc n) y days h =
    let small : (days + year_days y) % 2 ^ 32 ≡ days + year_days y = omega arith in
    rw small (add_years-sum n (y + 1) (days + year_days y) (omega arith) ∙ omega arith)

-- What taking years off gives: the year that the day lies in, and the day within it.
pub record YearSplit (days y : ℕ) (r : ℕ × ℕ) : Type 0 where
  pub years : ℕ
  pub year : r.0 ≡ y + years
  pub sum : sum_years years y + r.1 ≡ days
  pub within : r.1 < year_days r.0

pub split_years-YearSplit :
    (fuel days y : ℕ) → days ≤ fuel → YearSplit days y (split_years fuel days y)
unfolding split_years
split_years-YearSplit zero days y h = record {
  years = 0;
  year = omega arith;
  sum = omega arith;
  within = omega (arith, (year_days_bounds y).0);
}
split_years-YearSplit (suc fuel) days y h = elim (Bool-cases (ltb days (year_days y))) [
  | inl last ↦
      rw last (record { years = 0; year = omega arith; sum = omega arith; within = ground arith })
  | inr more ↦
      let full : year_days y ≤ days = ground arith in
      let rest =
        split_years-YearSplit fuel (days - year_days y) (y + 1)
          (omega (arith, (year_days_bounds y).0)) in
      rw more (record {
        years = suc rest.years;
        year = omega (arith, rest.year);
        sum = omega (arith, rest.sum);
        within = rest.within;
      })
]

-- The months depend on the year by whether it is a leap year only.
split_months-leap :
    (fuel y y' days month : ℕ)
    → is_leap_year y ≡ is_leap_year y'
    → split_months fuel y days month ≡ split_months fuel y' days month
unfolding split_months month_length
split_months-leap zero y y' days month e = refl
split_months-leap (suc fuel) y y' days month e = rw e (
    ap
      (λ (r : ℕ × ℕ).
        if ltb days (if month == 1 && is_leap_year y' then 29 else get_or month_lengths month 0)
        then (month, days)
        else r)
      (split_months-leap fuel y y'
        (days - (if month == 1 && is_leap_year y' then 29 else get_or month_lengths month 0))
        (month + 1) e))

-- The day of the year that is day `d` of month `m`, both counted from 0.
abbrev pub day_of_year : Bool → ℕ × ℕ → ℕ
day_of_year leap (m, d) = get_or days_before_month m 0 + (if ltb 1 m && leap then 1 else 0) + d

abbrev good_month : Bool → ℕ → ℕ × ℕ → Bool
good_month leap days r = ltb r.0 12 && (ltb r.1 31 && day_of_year leap r == days)

-- The days from `d` on, `n` of them, are all good.
good_run : (ℕ → Bool) → (d n : ℕ) → Bool
good_run good d zero = true
good_run good d (suc n) = let rest = good_run good (d + 1) n in if good d then rest else false

good_run-at : (good : ℕ → Bool) (d n k : ℕ) → good_run good d n ≡ true → k < n → good (d + k) ≡ true
unfolding good_run
good_run-at good d zero k h lt = absurd (omega arith)
good_run-at good d (suc n) zero h lt = ground arith
good_run-at good d (suc n) (suc k) h lt =
    let next : d + suc k ≡ d + 1 + k = omega arith in
    rw next (good_run-at good (d + 1) n k (ground arith) (omega arith))

-- Every day of a common year, and of a leap year.
common_table : good_run (λ d. good_month false d (split_months 12 1970 d 0)) 0 365 ≡ true
unfolding good_run split_months month_length is_leap_year
common_table = refl

leap_table : good_run (λ d. good_month true d (split_months 12 1972 d 0)) 0 366 ≡ true
unfolding good_run split_months month_length is_leap_year
leap_table = refl

-- What taking months off gives: a month and a day in it that make up the day of the year.
pub split_months-day_of_year :
    (y d : ℕ)
    → d < year_days y
    → let r = split_months 12 y d 0 in
      (r.0 < 12) × (r.1 < 31) × (day_of_year (is_leap_year y) r ≡ d)
unfolding year_days
split_months-day_of_year y d h = elim (Bool-cases (is_leap_year y)) [
  | inl leap ↦
      let good = good_run-at _ 0 366 d leap_table (ground arith) in
      rw (split_months-leap 12 y 1972 d 0 (leap ∙ sym leap_1972), leap) (ground arith)
  | inr common ↦
      let good = good_run-at _ 0 365 d common_table (ground arith) in
      rw (split_months-leap 12 y 1970 d 0 (common ∙ sym common_1970), common) (ground arith)
]
  where
    leap_1972 : is_leap_year 1972 ≡ true
    leap_1972 = refl

    common_1970 : is_leap_year 1970 ≡ false
    common_1970 = refl
