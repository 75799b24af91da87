-- ===== src/WorkingHours/Caching.antt =====
-- The caches of `WorkingHoursValidator` (chats/apps/sectors/utils.py) when they hold what the parser
-- and the holiday table give: each lookup has the answer that it would have without them.
use chats_engine.Prelude.{
  ℕ, String, ◌≡◌, refl, Bool, false, ◌&&◌, Option, none, some, List, arith, leb, ◌==◌, str_eq,
  eq_iff, Option-cases, Bool-cases, inl, inr, and_true,
}
use chats_engine.WorkingHours.{
  parse_error, Result, ok, err, SectorHoliday, HolidayData, Caches, holiday_on, remember_time,
  parse_time_cached, get_cached_holiday, in_range,
}

abbrev result_of : Option ℕ → Result ℕ
result_of none = err parse_error
result_of (some t) = ok t

-- Whether a test passed: an exception is a failure.
abbrev pub holds : Result Bool → Bool
holds (ok b) = b
holds (err e) = false

module _ (parse_time : String → Option ℕ) (hh_mm : ℕ → String) (rows : List SectorHoliday) where
  pub record Coherent (c : Caches) : Type 0 where
    pub times_ok : (s : String) (t : ℕ) → c.times s ≡ some t → parse_time s ≡ some t
    pub holidays_ok :
        (sector day : ℕ) (h : Option HolidayData)
        → c.holidays sector day ≡ some h
        → h ≡ holiday_on parse_time hh_mm rows sector day

  remember_time-Coherent :
      (s : String) (o : Option ℕ) (c : Caches)
      → parse_time s ≡ o
      → Coherent c
      → ((remember_time parse_time hh_mm rows s o c).0 ≡ result_of (parse_time s))
        × Coherent (remember_time parse_time hh_mm rows s o c).1
  unfolding remember_time
  remember_time-Coherent s none c e h = (cc, h)
  remember_time-Coherent s (some t) c e h = (
    rw e,
    record {
      times_ok = λ k u p. elim (Bool-cases (str_eq k s)) [
        | inl same ↦ ground (arith, eq_iff k s)
        | inr new ↦ h.times_ok k u (rw new at p)
      ];
      holidays_ok = h.holidays_ok;
    },
  )

  parse_time_cached_lem :
      (s : String) (c : Caches)
      → Coherent c
      → ((parse_time_cached parse_time hh_mm rows s c).0 ≡ result_of (parse_time s))
        × Coherent (parse_time_cached parse_time hh_mm rows s c).1
  unfolding parse_time_cached
  parse_time_cached_lem s c h = elim (Option-cases (c.times s)) [
    | inl fresh ↦ rw (fresh, parse_time_cached) (remember_time-Coherent s (parse_time s) c refl h)
    | inr (t, hit) ↦ rw (hit, parse_time_cached) (rw (h.times_ok s t hit) refl, h)
  ]

  pub get_cached_holiday_lem :
      (sector day : ℕ) (c : Caches)
      → Coherent c
      → ((get_cached_holiday parse_time hh_mm rows sector day c).0
          ≡ ok (holiday_on parse_time hh_mm rows sector day))
        × Coherent (get_cached_holiday parse_time hh_mm rows sector day c).1
  unfolding get_cached_holiday
  get_cached_holiday_lem sector day c h = elim (Option-cases (c.holidays sector day)) [
    | inl fresh ↦
        rw (fresh, get_cached_holiday)
          (
            refl,
            record {
              times_ok = h.times_ok;
              holidays_ok = λ s d x p. elim (Bool-cases (s == sector && d == day)) [
                | inl same ↦ ground (arith, p, same, and_true (s == sector) (d == day) same)
                | inr new ↦ h.holidays_ok s d x (rw new at p)
              ];
            },
          )
    | inr (x, hit) ↦ rw (hit, get_cached_holiday) (rw (h.holidays_ok sector day x hit) refl, h)
  ]

  -- Both texts are parsed, and the time lies between them.
  abbrev pub within : String → String → ℕ → Bool
  within start end_ time = elim (parse_time start) [
    | none ↦ false
    | some s ↦ elim (parse_time end_) [ none ↦ false | some e ↦ leb s time && leb time e ]
  ]

  pub in_range_lem :
      (start end_ : String) (time : ℕ) (c : Caches)
      → Coherent c
      → (holds (in_range parse_time hh_mm rows start end_ time c).0 ≡ within start end_ time)
        × Coherent (in_range parse_time hh_mm rows start end_ time c).1
  unfolding in_range
  in_range_lem start end_ time c h =
      let p = parse_time_cached_lem start c h in
      let q = parse_time_cached_lem end_ _ p.1 in
      elim (Option-cases (parse_time start)) [
        | inl bad ↦ rw (p.0, bad, in_range, within) (refl, p.1)
        | inr (s, good) ↦ elim (Option-cases (parse_time end_)) [
          | inl bad ↦ rw (p.0, good, q.0, bad, in_range, within) (refl, q.1)
          | inr (e, good') ↦ rw (p.0, good, q.0, good', in_range, within) (refl, q.1)
        ]
      ]
