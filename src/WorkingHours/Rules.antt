-- ===== src/WorkingHours/Rules.antt =====
-- What `WorkingHoursValidator` (chats/apps/sectors/utils.py) decides, without its caches, and the
-- rules by which an action of the validator decides it.
use chats_engine.Prelude.{
  ℕ, String, ◌≡◌, refl, ap, ◌∙◌, Bool, true, false, not, ◌&&◌, Option, none, some, List, ◌==◌,
  str_eq, if◌then◌else◌, any,
}
use chats_engine.WorkingHours.{
  Error, Result, ok, err, Interval, hours, no_dict, DayCfg, one, many, other_value, StaticHoliday,
  blank, day_rule, WorkingHours, Moment, SectorHoliday, HolidayData, Caches, M, continue, ◌>>=◌,
  ◌>>◌, raise, pass, require, given, with_both, lookup, day_key, or_else, holiday_on, in_range,
  get_cached_holiday, check_hours,
}
use chats_engine.WorkingHours.Caching.{
  holds, Coherent, within, get_cached_holiday_lem, in_range_lem,
}

abbrev pub accepted : Result (Unit {0}) → Bool
accepted (ok u) = true
accepted (err e) = false

module _ (parse_time : String → Option ℕ) (hh_mm : ℕ → String) (rows : List SectorHoliday) where
  -- Where both texts are given the time lies between them, and `missing` decides otherwise.
  abbrev hours_allow : Option String → Option String → ℕ → Bool → Bool
  hours_allow start end_ time missing =
      with_both (given start) (given end_) (λ s e. within parse_time hh_mm rows s e time) missing

  abbrev pub static_allows : Option StaticHoliday → ℕ → Bool
  static_allows none time = true
  static_allows (some blank) time = true
  static_allows (some (day_rule closed start end_)) time =
      not (elim closed [ none ↦ true | some b ↦ b ]) && hours_allow start end_ time true

  abbrev pub holiday_allows : HolidayData → ℕ → Bool
  holiday_allows h time =
      not (str_eq h.day_type "closed") && hours_allow h.start_time h.end_time time true

  abbrev pub interval_allows : ℕ → Interval → Bool
  interval_allows time no_dict = false
  interval_allows time (hours start end_) = hours_allow start end_ time false

  abbrev pub day_allows : Option DayCfg → ℕ → Bool
  day_allows none time = false
  day_allows (some other_value) time = false
  day_allows (some (one start end_)) time = hours_allow start end_ time false
  day_allows (some (many intervals)) time = any (interval_allows time) intervals

  abbrev pub open_day_allows : WorkingHours → Moment → Option HolidayData → Bool
  open_day_allows config m (some h) = holiday_allows h m.time
  open_day_allows config m none =
      static_allows
        (or_else parse_time hh_mm rows (lookup m.date_str config.static_holidays)
          (lookup m.month_day_str config.static_holidays))
        m.time
      && day_allows (lookup (day_key m.weekday) config.schedules) m.time

  -- A sector with no working hours is always open. Else the weekday is no closed one; a holiday of
  -- the sector decides alone; on other days the static holidays and the day's schedule both agree.
  abbrev pub allows : ℕ → Option WorkingHours → Moment → Bool
  allows sector none m = true
  allows sector (some config) m =
      not (any (λ d. d == m.weekday) config.closed_weekdays)
      && open_day_allows config m (holiday_on parse_time hh_mm rows sector m.date)

  -- From coherent caches the action accepts exactly by `b`, and leaves the caches coherent.
  pub record Agrees (m : M (Unit {0})) (b : Bool) : Type 0 where
    pub at :
        (c : Caches)
        → Coherent parse_time hh_mm rows c
        → (accepted (m c).0 ≡ b) × Coherent parse_time hh_mm rows (m c).1

  pub Agrees-pass : Agrees pass true
  Agrees-pass = record { at = λ c h. (refl, h) }

  pub Agrees-raise : (e : Error) → Agrees (raise e) false
  Agrees-raise e = record { at = λ c h. (refl, h) }

  Agrees-if :
      (b : Bool) (m n : M (Unit {0})) (p q : Bool)
      → Agrees m p
      → Agrees n q
      → Agrees (if b then m else n) (if b then p else q)
  Agrees-if true m n p q a a' = a
  Agrees-if false m n p q a a' = a'

  pub Agrees-require : (b : Bool) (e : Error) → Agrees (require b e) b
  Agrees-require true e = Agrees-pass
  Agrees-require false e = Agrees-raise e

  then_continue :
      (n : M (Unit {0})) (r : Result (Unit {0})) (q : Bool) (c : Caches)
      → Agrees n q
      → Coherent parse_time hh_mm rows c
      → (accepted (continue r (λ _. n) c).0 ≡ (accepted r && q))
        × Coherent parse_time hh_mm rows (continue r (λ _. n) c).1
  then_continue n (ok u) q c a h = a.at c h
  then_continue n (err e) q c a h = (refl, h)

  pub Agrees-then :
      (m n : M (Unit {0})) (p q : Bool) → Agrees m p → Agrees n q → Agrees (m >> n) (p && q)
  Agrees-then m n p q a a' = record {
    at = λ c h.
        let s = a.at c h in
        let t = then_continue n (m c).0 q (m c).1 a' s.1 in (t.0 ∙ ap (λ x. x && q) s.0, t.1);
  }

  pub Agrees-holiday :
      (sector day : ℕ) (f : Option HolidayData → M (Unit {0})) (q : Bool)
      → Agrees (f (holiday_on parse_time hh_mm rows sector day)) q
      → Agrees (get_cached_holiday parse_time hh_mm rows sector day >>= f) q
  Agrees-holiday sector day f q a = record {
    at = λ c h.
        let s = get_cached_holiday_lem parse_time hh_mm rows sector day c h in
        rw (s.0) (a.at _ s.1);
  }

  require_range :
      (r : Result Bool) (e : Error) (c : Caches)
      → Coherent parse_time hh_mm rows c
      → (accepted (continue r (λ b. require b e) c).0 ≡ holds r)
        × Coherent parse_time hh_mm rows (continue r (λ b. require b e) c).1
  require_range (ok b) e c h = (Agrees-require b e).at c h
  require_range (err x) e c h = (refl, h)

  Agrees-range :
      (s t : String) (time : ℕ) (e : Error)
      → Agrees
          (in_range parse_time hh_mm rows s t time >>= λ b. require b e)
          (within parse_time hh_mm rows s t time)
  Agrees-range s t time e = record {
    at = λ c h.
        let p = in_range_lem parse_time hh_mm rows s t time c h in
        let q = require_range (in_range parse_time hh_mm rows s t time c).0 e _ p.1 in
        (q.0 ∙ p.0, q.1);
  }

  pub Agrees-hours :
      (start end_ : Option String) (time : ℕ) (e : Error) (missing : M (Unit {0})) (q : Bool)
      → Agrees missing q
      → Agrees
          (check_hours parse_time hh_mm rows start end_ time e missing)
          (hours_allow start end_ time q)
  unfolding check_hours
  Agrees-hours start end_ time e missing q a = both (given start) (given end_)
    where
      both :
          (s t : Option String)
          → Agrees
              (with_both s t
                (λ s t. in_range parse_time hh_mm rows s t time >>= λ b. require b e)
                missing)
              (with_both s t (λ s t. within parse_time hh_mm rows s t time) q)
      both none t = a
      both (some s) none = a
      both (some s) (some t) = Agrees-range s t time e

  pub Agrees-unless :
      (b : Bool) (e : Error) (m : M (Unit {0})) (q : Bool)
      → Agrees m q
      → Agrees (if b then raise e else m) (not b && q)
  Agrees-unless true e m q a = Agrees-raise e
  Agrees-unless false e m q a = a
