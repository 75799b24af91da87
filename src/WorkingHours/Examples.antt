-- ===== src/WorkingHours/Examples.antt =====
-- Tests of chats/apps/sectors/utils.py, and its theorem at a Monday with two intervals.
use chats_engine.Prelude.{
  ℕ, String, ◌≡◌, refl, true, false, Option, none, some, List, [], ◌∷◌, arith, str_eq,
  if◌then◌else◌,
}
use chats_engine.WorkingHours.{
  err, today_is_holiday, hours, many, one, WorkingHours, Moment, SectorHoliday, Caches,
  validate_working_hours, interval_contains, parse_time_cached,
}
use chats_engine.WorkingHours.Caching.{Coherent}
use chats_engine.WorkingHours.Rules.{accepted}
use chats_engine.WorkingHours.Verdict.{validate_working_hours-allows}

-- Minutes of the day, for the texts used here.
abbrev parse_time : String → Option ℕ
parse_time s =
    if str_eq s "08:00"
    then some 480
    else if str_eq s "12:00"
    then some 720
    else if str_eq s "13:00"
    then some 780
    else if str_eq s "18:00"
    then some 1080
    else none

abbrev hh_mm : ℕ → String
hh_mm t = "08:00"

abbrev empty : Caches
empty = record { times = λ s. none; holidays = λ s d. none }

abbrev split_day : WorkingHours
split_day = record {
  closed_weekdays = 7 ∷ [];
  static_holidays = [];
  schedules =
      (
        "monday",
        many (hours (some "08:00") (some "12:00") ∷ hours (some "13:00") (some "18:00") ∷ []),
      )
      ∷ ("saturday", one (some "08:00") (some "12:00"))
      ∷ [];
}

abbrev monday_at : ℕ → Moment
monday_at time = record {
  weekday = 1;
  date = 100;
  date_str = "2024-01-01";
  month_day_str = "01-01";
  time = time;
}

abbrev closed_on_100 : SectorHoliday
closed_on_100 = record {
  sector = 5;
  is_deleted = false;
  date = 99;
  date_end = some 101;
  day_type = "closed";
  start_time = none;
  end_time = none;
}

empty-Coherent : (rows : List SectorHoliday) → Coherent parse_time hh_mm rows empty
empty-Coherent rows = record {
  times_ok = λ s t e. ground arith;
  holidays_ok = λ s d h e. ground arith;
}

at_lunch :
    accepted (validate_working_hours parse_time hh_mm [] 5 (some split_day) (monday_at 750) empty).0
    ≡ false
unfolding validate_working_hours interval_contains parse_time_cached
at_lunch = refl

on_a_holiday :
    (validate_working_hours parse_time hh_mm
      (closed_on_100 ∷ [])
      5
      (some split_day)
      (monday_at 800)
      empty).0
    ≡ err today_is_holiday
unfolding validate_working_hours
on_a_holiday = refl

validate_working_hours-allows_example :
    (accepted
        (validate_working_hours parse_time hh_mm [] 5 (some split_day) (monday_at 800) empty).0
      ≡ true)
    × Coherent parse_time hh_mm []
        (validate_working_hours parse_time hh_mm [] 5 (some split_day) (monday_at 800) empty).1
validate_working_hours-allows_example =
    validate_working_hours-allows parse_time hh_mm [] 5 (some split_day) (monday_at 800) empty
      (omega arith) (omega arith) (empty-Coherent [])
