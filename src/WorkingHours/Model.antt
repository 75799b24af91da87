-- ===== src/WorkingHours/Model.antt =====
-- The data of `WorkingHoursValidator` (chats/apps/sectors/utils.py), and the actions over its caches.
use chats_engine.Prelude.{ℕ, String, Bool, Option, none, some, List, [], ◌∷◌, str_eq, if◌then◌else◌}

pub data Error : Type 0 where
  outside_working_hours outside_holiday_hours today_is_holiday : Error
  parse_error attribute_error : Error

pub data Result {ℓ} (A : Type ℓ) : Type ℓ where
  ok : A → Result A
  err : Error → Result A

-- `{"start": ..., "end": ...}`, or an item of the list that is no dict.
pub data Interval : Type 0 where
  hours : Option String → Option String → Interval
  no_dict : Interval

-- One day's value in `schedules`: a dict, a list, or anything else, null included.
pub data DayCfg : Type 0 where
  one : Option String → Option String → DayCfg
  many : List Interval → DayCfg
  other_value : DayCfg

-- A value of `static_holidays`: an empty dict, or one with its `closed`, `start` and `end`.
pub data StaticHoliday : Type 0 where
  blank : StaticHoliday
  day_rule : Option Bool → Option String → Option String → StaticHoliday

pub record WorkingHours : Type 0 where
  pub closed_weekdays : List ℕ
  pub static_holidays : List (String × StaticHoliday)
  pub schedules : List (String × DayCfg)

-- What `isoweekday`, `date`, `strftime` and `time` give for the moment of creation.
pub record Moment : Type 0 where
  pub weekday : ℕ
  pub date : ℕ
  pub date_str : String
  pub month_day_str : String
  pub time : ℕ

-- A row of SectorHoliday.
pub record SectorHoliday : Type 0 where
  pub sector : ℕ
  pub is_deleted : Bool
  pub date : ℕ
  pub date_end : Option ℕ
  pub day_type : String
  pub start_time : Option ℕ
  pub end_time : Option ℕ

-- The cached copy of a row, its times as texts.
pub record HolidayData : Type 0 where
  pub day_type : String
  pub start_time : Option String
  pub end_time : Option String

-- `parsed_time:…` in Django's cache, and `holiday:…` in Redis, where `some none` stands for "null".
pub record Caches : Type 0 where
  pub times : String → Option ℕ
  pub holidays : ℕ → ℕ → Option (Option HolidayData)

abbrev pub M {ℓ} : Type ℓ → Type ℓ
M A = Caches → Result A × Caches

module _ {ℓ κ} {A : Type ℓ} {B : Type κ} where
  abbrev pub continue : Result A → (A → M B) → M B
  continue (ok a) f c = f a c
  continue (err e) f c = (err e, c)

  infixl 10 ◌>>=◌
  abbrev pub ◌>>=◌ : M A → (A → M B) → M B
  ◌>>=◌ m f c = let (r, c') = m c in continue r f c'

infixl 10 ◌>>◌
abbrev pub ◌>>◌ {ℓ} : {B : Type ℓ} → M (Unit {0}) → M B → M B
m >> k = m >>= λ _. k

abbrev pub raise {ℓ} : {A : Type ℓ} → Error → M A
raise e c = (err e, c)

abbrev pub pass : M (Unit {0})
pass c = (ok tt, c)

abbrev pub require : Bool → Error → M (Unit {0})
require b e = if b then pass else raise e

-- A text that Python takes for true.
abbrev pub given : Option String → Option String
given none = none
given (some s) = if str_eq s "" then none else some s

-- `if start_str and end_str: ... else: ...`
abbrev pub with_both {ℓ} :
    {A : Type ℓ} → Option String → Option String → (String → String → A) → A → A
with_both none end_ f d = d
with_both (some s) none f d = d
with_both (some s) (some e) f d = f s e

abbrev pub lookup {ℓ} : {V : Type ℓ} → String → List (String × V) → Option V
lookup k [] = none
lookup k ((j, v) ∷ rest) = if str_eq j k then some v else lookup k rest
