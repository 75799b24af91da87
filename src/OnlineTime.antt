-- ===== src/OnlineTime.antt =====
-- chats/apps/api/v1/external/agents/calculator.py: the time that an agent was online, from the log
-- of status changes. An instant is a number of microseconds; `timestamp` is what
-- `datetime.fromisoformat` reads from the logged text.
pub mod Intervals
mod Examples
use chats_engine.Prelude.{
  ℕ, String, Bool, true, false, not, ◌||◌, Option, none, some, List, [], ◌∷◌, str_eq, if◌then◌else◌,
}
use chats_engine.Prelude.Int.{ℤ, pos, sub_ℕ, ◌+ℤ◌}

pub record StatusChange : Type 0 where
  pub timestamp : ℕ
  pub status : Option String

-- `event.get("status") in ONLINE_STATES`
abbrev pub is_online : Option String → Bool
is_online none = false
is_online (some status) = str_eq status "ONLINE" || str_eq status "In-Service"

-- The loop's variables: `total` and `online_start`.
abbrev pub Tally : Type 0
Tally = ℤ × Option ℕ

-- One round of the loop.
abbrev pub round : Tally → StatusChange → Tally
round (total, none) event =
    if is_online event.status then (total, some event.timestamp) else (total, none)
round (total, some start) event =
    if is_online event.status
    then (total, some start)
    else (total +ℤ sub_ℕ event.timestamp start, none)

pub rounds : Tally → List StatusChange → Tally
rounds t [] = t
rounds t (event ∷ events) = rounds (round t event) events

-- What follows the loop.
abbrev pub finish : Bool → ℕ → Tally → ℤ
finish close_open_with_now now (total, none) = total
finish close_open_with_now now (total, some start) =
    if close_open_with_now then total +ℤ sub_ℕ now start else total

pub calculate_online_time : List StatusChange → Bool → ℕ → ℤ
unfolding rounds
calculate_online_time [] close_open_with_now now = pos 0
calculate_online_time (event ∷ events) close_open_with_now now =
    finish close_open_with_now now (rounds (pos 0, none) (event ∷ events))
