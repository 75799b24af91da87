-- ===== src/WorkingHours/Verdict.antt =====
-- The validator of chats/apps/sectors/utils.py decides what its specification says, on every branch.
use chats_engine.Prelude.{
  ℕ, ◌≤◌, String, ◌≡◌, refl, sym, subst, ap, ◌∙◌, Bool, true, false, ◌&&◌, ◌||◌, Option, none, some,
  List, [], ◌∷◌, arith, leb, ◌==◌, str_eq, if◌then◌else◌, any, Bool-cases, inl, inr,
}
use chats_engine.WorkingHours.{
  outside_working_hours, outside_holiday_hours, Result, ok, err, Interval, hours, no_dict, DayCfg,
  one, many, other_value, StaticHoliday, blank, day_rule, WorkingHours, Moment, SectorHoliday,
  HolidayData, Caches, M, ◌>>◌, raise, pass, given, with_both, lookup, day_key, or_else, holiday_on,
  in_range, validate_static_holiday_fast, check_static_holidays_fast, validate_holiday,
  interval_contains, any_interval, check_many, validate_day_schedules_generic, validate_schedule,
  full_validation, weekday_validation, validate_working_hours,
}
use chats_engine.WorkingHours.Caching.{holds, Coherent, within, in_range_lem}
use chats_engine.WorkingHours.Rules.{
  accepted, static_allows, holiday_allows, interval_allows, day_allows, open_day_allows, allows,
  Agrees, Agrees-pass, Agrees-raise, Agrees-require, Agrees-then, Agrees-holiday, Agrees-hours,
  Agrees-unless,
}

module _ (parse_time : String → Option ℕ) (hh_mm : ℕ → String) (rows : List SectorHoliday) where
  Agrees-static :
      (rule : Option StaticHoliday) (time : ℕ)
      → Agrees parse_time hh_mm rows
          (elim rule [
            | none ↦ pass
            | some r ↦ validate_static_holiday_fast parse_time hh_mm rows r time
          ])
          (static_allows parse_time hh_mm rows rule time)
  unfolding validate_static_holiday_fast
  Agrees-static none time = Agrees-pass parse_time hh_mm rows
  Agrees-static (some blank) time = Agrees-pass parse_time hh_mm rows
  Agrees-static (some (day_rule none start end_)) time = Agrees-raise parse_time hh_mm rows _
  Agrees-static (some (day_rule (some true) start end_)) time = Agrees-raise parse_time hh_mm rows _
  Agrees-static (some (day_rule (some false) start end_)) time =
      Agrees-hours parse_time hh_mm rows start end_ time outside_holiday_hours pass true
        (Agrees-pass parse_time hh_mm rows)

  Agrees-holiday_data :
      (h : HolidayData) (time : ℕ)
      → Agrees parse_time hh_mm rows
          (validate_holiday parse_time hh_mm rows h time)
          (holiday_allows parse_time hh_mm rows h time)
  unfolding validate_holiday
  Agrees-holiday_data h time = elim (Bool-cases (str_eq h.day_type "closed")) [
    | inl closed ↦ rw (closed, validate_holiday) (Agrees-raise parse_time hh_mm rows _)
    | inr open_ ↦
        rw (open_, validate_holiday)
          (Agrees-hours parse_time hh_mm rows h.start_time h.end_time time outside_working_hours
            pass true (Agrees-pass parse_time hh_mm rows))
  ]

  -- The test of one interval, exceptions counted as failures.
  interval_lem :
      (i : Interval) (time : ℕ) (c : Caches)
      → Coherent parse_time hh_mm rows c
      → (holds (interval_contains parse_time hh_mm rows i time c).0
          ≡ interval_allows parse_time hh_mm rows time i)
        × Coherent parse_time hh_mm rows (interval_contains parse_time hh_mm rows i time c).1
  unfolding interval_contains
  interval_lem no_dict time c h = (refl, h)
  interval_lem (hours start end_) time c h = both (given start) (given end_)
    where
      both :
          (s t : Option String)
          → let m =
              with_both s t (λ s t. in_range parse_time hh_mm rows s t time) (λ c. (ok false, c)) in
            (holds (m c).0 ≡ with_both s t (λ s t. within parse_time hh_mm rows s t time) false)
            × Coherent parse_time hh_mm rows (m c).1
      both none t = (refl, h)
      both (some s) none = (refl, h)
      both (some s) (some t) = in_range_lem parse_time hh_mm rows s t time c h

  -- One round of the loop over the intervals.
  interval_round :
      (r : Result Bool) (rest : Caches → Bool × Caches) (q : Bool) (c : Caches)
      → ((c : Caches)
          → Coherent parse_time hh_mm rows c
          → ((rest c).0 ≡ q) × Coherent parse_time hh_mm rows (rest c).1)
      → Coherent parse_time hh_mm rows c
      → let s : Bool × Caches = elim r [
        | ok b ↦ elim b [ true ↦ (true, c) | false ↦ rest c ]
        | err e ↦ rest c
      ] in
        (s.0 ≡ (holds r || q)) × Coherent parse_time hh_mm rows s.1
  interval_round (ok true) rest q c ih h = (refl, h)
  interval_round (ok false) rest q c ih h = ih c h
  interval_round (err e) rest q c ih h = ih c h

  any_interval_lem :
      (is : List Interval) (time : ℕ) (c : Caches)
      → Coherent parse_time hh_mm rows c
      → ((any_interval parse_time hh_mm rows is time c).0
          ≡ any (interval_allows parse_time hh_mm rows time) is)
        × Coherent parse_time hh_mm rows (any_interval parse_time hh_mm rows is time c).1
  unfolding any_interval
  any_interval_lem [] time c h = (refl, h)
  any_interval_lem (i ∷ is) time c h =
      let p = interval_lem i time c h in
      let q =
        interval_round (interval_contains parse_time hh_mm rows i time c).0
          (any_interval parse_time hh_mm rows is time)
          (any (interval_allows parse_time hh_mm rows time) is) _
          (λ c h. any_interval_lem is time c h) p.1 in
      (q.0 ∙ ap (λ b. b || any (interval_allows parse_time hh_mm rows time) is) p.0, q.1)

  Agrees-many :
      (is : List Interval) (time : ℕ)
      → Agrees parse_time hh_mm rows
          (check_many parse_time hh_mm rows is time)
          (any (interval_allows parse_time hh_mm rows time) is)
  unfolding check_many
  Agrees-many is time = record {
    at = λ c h.
        let p = any_interval_lem is time c h in
        let q =
          (Agrees-require parse_time hh_mm rows (any_interval parse_time hh_mm rows is time c).0
              outside_working_hours).at
            _ p.1 in
        (q.0 ∙ p.0, q.1);
  }

  Agrees-schedule :
      (day_cfg : Option DayCfg) (time : ℕ)
      → Agrees parse_time hh_mm rows
          (elim day_cfg [
            | none ↦ raise outside_working_hours
            | some d ↦ validate_day_schedules_generic parse_time hh_mm rows d time
          ])
          (day_allows parse_time hh_mm rows day_cfg time)
  unfolding validate_day_schedules_generic
  Agrees-schedule none time = Agrees-raise parse_time hh_mm rows _
  Agrees-schedule (some (one start end_)) time =
      Agrees-hours parse_time hh_mm rows start end_ time outside_working_hours _ false
        (Agrees-raise parse_time hh_mm rows _)
  Agrees-schedule (some (many is)) time = Agrees-many is time
  Agrees-schedule (some other_value) time = Agrees-raise parse_time hh_mm rows _

  -- What follows the lookup of the holiday, on any weekday.
  Agrees-validate_schedule :
      (config : WorkingHours) (m : Moment)
      → Agrees parse_time hh_mm rows
          (validate_schedule parse_time hh_mm rows config m)
          (day_allows parse_time hh_mm rows (lookup (day_key m.weekday) config.schedules) m.time)
  unfolding validate_schedule
  Agrees-validate_schedule config m =
      Agrees-schedule (lookup (day_key m.weekday) config.schedules) m.time

  -- What follows the lookup of the holiday, before an action that decides by the day's schedule.
  Agrees-open_day :
      (config : WorkingHours) (m : Moment) (holiday : Option HolidayData) (last : M (Unit {0}))
      → Agrees parse_time hh_mm rows last
          (day_allows parse_time hh_mm rows (lookup (day_key m.weekday) config.schedules) m.time)
      → Agrees parse_time hh_mm rows
          (elim holiday [
            | some h ↦ validate_holiday parse_time hh_mm rows h m.time
            | none ↦ check_static_holidays_fast parse_time hh_mm rows config m >> last
          ])
          (open_day_allows parse_time hh_mm rows config m holiday)
  unfolding check_static_holidays_fast
  Agrees-open_day config m (some h) last a = Agrees-holiday_data h m.time
  Agrees-open_day config m none last a =
      Agrees-then parse_time hh_mm rows _ _ _ _
        (Agrees-static
          (or_else parse_time hh_mm rows (lookup m.date_str config.static_holidays)
            (lookup m.month_day_str config.static_holidays))
          m.time)
        a

  weekend : (n : ℕ) → 1 ≤ n → n ≤ 7 → (leb 1 n && leb n 5) ≡ false → (n == 6 || n == 7) ≡ true
  weekend n low high h = ground arith

  Agrees-weekday :
      (sector : ℕ) (config : WorkingHours) (m : Moment)
      → Agrees parse_time hh_mm rows (weekday_validation parse_time hh_mm rows sector config m) (
          open_day_allows parse_time hh_mm rows config m
            (holiday_on parse_time hh_mm rows sector m.date))
  unfolding weekday_validation
  Agrees-weekday sector config m = Agrees-holiday parse_time hh_mm rows sector m.date _ _ (
      Agrees-open_day config m (holiday_on parse_time hh_mm rows sector m.date) _
        (Agrees-validate_schedule config m))

  Agrees-full :
      (sector : ℕ) (config : WorkingHours) (m : Moment)
      → (m.weekday == 6 || m.weekday == 7) ≡ true
      → Agrees parse_time hh_mm rows (full_validation parse_time hh_mm rows sector config m) (
          open_day_allows parse_time hh_mm rows config m
            (holiday_on parse_time hh_mm rows sector m.date))
  unfolding full_validation
  Agrees-full sector config m e = Agrees-holiday parse_time hh_mm rows sector m.date _ _ (
      Agrees-open_day config m (holiday_on parse_time hh_mm rows sector m.date) _ (
        subst
          (λ b.
            Agrees parse_time hh_mm rows
              (if b then validate_schedule parse_time hh_mm rows config m else pass)
              (day_allows parse_time hh_mm rows (lookup (day_key m.weekday) config.schedules)
                m.time))
          (sym e) (Agrees-validate_schedule config m)))

  Agrees-by_day :
      (sector : ℕ) (config : WorkingHours) (m : Moment) (b : Bool)
      → (b ≡ false → (m.weekday == 6 || m.weekday == 7) ≡ true)
      → Agrees parse_time hh_mm rows
          (if b
            then weekday_validation parse_time hh_mm rows sector config m
            else full_validation parse_time hh_mm rows sector config m)
          (open_day_allows parse_time hh_mm rows config m
            (holiday_on parse_time hh_mm rows sector m.date))
  Agrees-by_day sector config m true h = Agrees-weekday sector config m
  Agrees-by_day sector config m false h = Agrees-full sector config m (h refl)

  Agrees-validate :
      (sector : ℕ) (config : Option WorkingHours) (m : Moment)
      → 1 ≤ m.weekday
      → m.weekday ≤ 7
      → Agrees parse_time hh_mm rows
          (validate_working_hours parse_time hh_mm rows sector config m)
          (allows parse_time hh_mm rows sector config m)
  unfolding validate_working_hours
  Agrees-validate sector none m low high = Agrees-pass parse_time hh_mm rows
  Agrees-validate sector (some config) m low high =
      Agrees-unless parse_time hh_mm rows (any (λ d. d == m.weekday) config.closed_weekdays)
        outside_working_hours _ _ (Agrees-by_day sector config m _ (weekend m.weekday low high))

  -- On a day of the week, and from caches that hold what the parser and the holiday table give,
  -- the validator accepts exactly the moments that `allows` names, and leaves such caches.
  pub validate_working_hours-allows :
      (sector : ℕ) (config : Option WorkingHours) (m : Moment) (c : Caches)
      → 1 ≤ m.weekday
      → m.weekday ≤ 7
      → Coherent parse_time hh_mm rows c
      → (accepted (validate_working_hours parse_time hh_mm rows sector config m c).0
          ≡ allows parse_time hh_mm rows sector config m)
        × Coherent parse_time hh_mm rows
            (validate_working_hours parse_time hh_mm rows sector config m c).1
  validate_working_hours-allows sector config m c low high h =
      (Agrees-validate sector config m low high).at c h
