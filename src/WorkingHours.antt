-- ===== src/WorkingHours.antt =====
-- chats/apps/sectors/utils.py, `WorkingHoursValidator`: whether a room may be opened now.
-- A time of day and a date are numbers (microseconds in the day, days). The validator remembers
-- parsed times and holidays in two caches, which each operation passes on; an exception is an
-- `err`, and the caches written before it stay written.
mod Model
pub mod Caching
pub mod Rules
pub mod Verdict
mod Examples
use chats_engine.Prelude.{
  ℕ, ◌≤◌, String, Bool, true, false, not, ◌&&◌, ◌||◌, Option, none, some, List, [], ◌∷◌, leb, ◌==◌,
  str_eq, if◌then◌else◌, any, find_first,
}
pub use Model.*
use Model.{
  Error, outside_working_hours, outside_holiday_hours, today_is_holiday, parse_error,
  attribute_error, Result, ok, err, Interval, hours, no_dict, DayCfg, one, many, other_value,
  StaticHoliday, blank, day_rule, WorkingHours, Moment, SectorHoliday, HolidayData, Caches, M,
  ◌>>=◌, ◌>>◌, raise, pass, require, given, with_both, lookup,
}

-- The keys of `weekday_map`, and those of `_full_validation`.
abbrev pub day_key : ℕ → String
day_key n =
    if n == 1
    then "monday"
    else if n == 2
    then "tuesday"
    else if n == 3
    then "wednesday"
    else if n == 4
    then "thursday"
    else if n == 5
    then "friday"
    else if n == 6
    then "saturday"
    else "sunday"

-- `parse_time` is `pendulum.parse(…).time()`, `none` where it raises; `hh_mm` is
-- `strftime("%H:%M")`; `rows` is the table of holidays.
module _ (parse_time : String → Option ℕ) (hh_mm : ℕ → String) (rows : List SectorHoliday) where
  pub remember_time : String → Option ℕ → M ℕ
  remember_time s none c = (err parse_error, c)
  remember_time s (some t) c =
      (ok t, record c { times = λ k. if str_eq k s then some t else c.times k })

  pub parse_time_cached : String → M ℕ
  unfolding remember_time
  parse_time_cached s c = elim (c.times s) [
    | some t ↦ (ok t, c)
    | none ↦ remember_time s (parse_time s) c
  ]

  abbrev covers : ℕ → ℕ → SectorHoliday → Bool
  covers sector day row =
      row.sector == sector
      && not row.is_deleted
      && (row.date == day
          || leb row.date day && (elim row.date_end [ none ↦ false | some e ↦ leb day e ]))

  abbrev holiday_data : SectorHoliday → HolidayData
  holiday_data row = record {
    day_type = row.day_type;
    start_time = elim row.start_time [ none ↦ none | some t ↦ some (hh_mm t) ];
    end_time = elim row.end_time [ none ↦ none | some t ↦ some (hh_mm t) ];
  }

  -- The query of `_get_cached_holiday`.
  abbrev pub holiday_on : ℕ → ℕ → Option HolidayData
  holiday_on sector day = elim (find_first (covers sector day) rows) [
    | none ↦ none
    | some row ↦ some (holiday_data row)
  ]

  abbrev remember_holiday : ℕ → ℕ → Option HolidayData → Caches → Caches
  remember_holiday sector day h c = record c {
    holidays = λ s d. if s == sector && d == day then some h else c.holidays s d;
  }

  pub get_cached_holiday : ℕ → ℕ → M (Option HolidayData)
  get_cached_holiday sector day c = elim (c.holidays sector day) [
    | some h ↦ (ok h, c)
    | none ↦ (ok (holiday_on sector day), remember_holiday sector day (holiday_on sector day) c)
  ]

  -- `start <= current_time <= end`, after both texts are parsed.
  pub in_range : String → String → ℕ → M Bool
  in_range start end_ time = do
    s ← parse_time_cached start
    e ← parse_time_cached end_
    λ c. (ok (leb s time && leb time e), c)

  pub check_hours : Option String → Option String → ℕ → Error → M (Unit {0}) → M (Unit {0})
  unfolding in_range
  check_hours start end_ time e missing =
      with_both (given start) (given end_) (λ s t. do b ← in_range s t time; require b e) missing

  pub validate_static_holiday_fast : StaticHoliday → ℕ → M (Unit {0})
  unfolding check_hours
  validate_static_holiday_fast blank time = pass
  validate_static_holiday_fast (day_rule closed start end_) time =
      if (elim closed [ none ↦ true | some b ↦ b ])
      then raise outside_working_hours
      else check_hours start end_ time outside_holiday_hours pass

  -- `static_holidays.get(date_str) or static_holidays.get(month_day_str)`
  abbrev pub or_else : Option StaticHoliday → Option StaticHoliday → Option StaticHoliday
  or_else none b = b
  or_else (some blank) b = b
  or_else (some rule) b = some rule

  pub check_static_holidays_fast : WorkingHours → Moment → M (Unit {0})
  unfolding validate_static_holiday_fast
  check_static_holidays_fast config m =
      elim (or_else (lookup m.date_str config.static_holidays)
        (lookup m.month_day_str config.static_holidays)) [
          | none ↦ pass
          | some rule ↦ validate_static_holiday_fast rule m.time
        ]

  pub validate_holiday : HolidayData → ℕ → M (Unit {0})
  unfolding check_hours
  validate_holiday h time =
      if str_eq h.day_type "closed"
      then raise today_is_holiday
      else check_hours h.start_time h.end_time time outside_working_hours pass

  -- The test of one interval, which may raise.
  pub interval_contains : Interval → ℕ → M Bool
  unfolding in_range
  interval_contains no_dict time = raise attribute_error
  interval_contains (hours start end_) time =
      with_both (given start) (given end_) (λ s t. in_range s t time) (λ c. (ok false, c))

  -- The loop over a day's intervals: `try ... except Exception: continue`, and `break`.
  pub any_interval : List Interval → ℕ → Caches → Bool × Caches
  any_interval [] time c = (false, c)
  any_interval (i ∷ is) time c =
      let (r, c') = interval_contains i time c in
      elim r [
        | ok b ↦ elim b [ true ↦ (true, c') | false ↦ any_interval is time c' ]
        | err e ↦ any_interval is time c'
      ]

  pub check_many : List Interval → ℕ → M (Unit {0})
  unfolding any_interval
  check_many intervals time c =
      let (any_ok, c') = any_interval intervals time c in require any_ok outside_working_hours c'

  pub validate_day_schedules_generic : DayCfg → ℕ → M (Unit {0})
  unfolding check_hours check_many
  validate_day_schedules_generic (one start end_) time =
      check_hours start end_ time outside_working_hours (raise outside_working_hours)
  validate_day_schedules_generic (many intervals) time = check_many intervals time
  validate_day_schedules_generic other_value time = raise outside_working_hours

  pub validate_schedule : WorkingHours → Moment → M (Unit {0})
  unfolding validate_day_schedules_generic
  validate_schedule config m = elim (lookup (day_key m.weekday) config.schedules) [
    | none ↦ raise outside_working_hours
    | some day_cfg ↦ validate_day_schedules_generic day_cfg m.time
  ]

  -- Saturdays and Sundays.
  pub full_validation : ℕ → WorkingHours → Moment → M (Unit {0})
  unfolding get_cached_holiday validate_holiday check_static_holidays_fast validate_schedule
  full_validation sector config m = do
    holiday ← get_cached_holiday sector m.date
    elim holiday [
      | some h ↦ validate_holiday h m.time
      | none ↦ do
        check_static_holidays_fast config m
        if m.weekday == 6 || m.weekday == 7 then validate_schedule config m else pass
    ]

  -- Mondays to Fridays.
  pub weekday_validation : ℕ → WorkingHours → Moment → M (Unit {0})
  unfolding get_cached_holiday validate_holiday check_static_holidays_fast validate_schedule
  weekday_validation sector config m = do
    holiday ← get_cached_holiday sector m.date
    elim holiday [
      | some h ↦ validate_holiday h m.time
      | none ↦ do check_static_holidays_fast config m; validate_schedule config m
    ]

  -- `none` is a sector with no `working_hours`, or an empty one.
  pub validate_working_hours : ℕ → Option WorkingHours → Moment → M (Unit {0})
  unfolding full_validation weekday_validation
  validate_working_hours sector none m = pass
  validate_working_hours sector (some config) m =
      if any (λ d. d == m.weekday) config.closed_weekdays
      then raise outside_working_hours
      else if leb 1 m.weekday && leb m.weekday 5
      then weekday_validation sector config m
      else full_validation sector config m
