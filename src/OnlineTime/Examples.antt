-- ===== src/OnlineTime/Examples.antt =====
-- Tests of chats/apps/api/v1/external/agents/calculator.py, and its theorems at one day's log.
use chats_engine.Prelude.{◌≡◌, refl, true, false, some, List, [], ◌∷◌}
use chats_engine.Prelude.Int.{pos, ◌+ℤ◌}
use chats_engine.OnlineTime.{StatusChange, calculate_online_time}
use chats_engine.OnlineTime.Intervals.{calculate_online_time-sum}

abbrev morning : List StatusChange
morning =
    record { timestamp = 10; status = some "ONLINE" }
    ∷ record { timestamp = 15; status = some "In-Service" }
    ∷ record { timestamp = 20; status = some "BREAK" }
    ∷ record { timestamp = 30; status = some "ONLINE" }
    ∷ []

abbrev leaves : StatusChange
leaves = record { timestamp = 37; status = some "OFFLINE" }

open_stretch : calculate_online_time morning false 50 ≡ pos 10
unfolding calculate_online_time ◌+ℤ◌
open_stretch = refl

calculate_online_time-sum_example : calculate_online_time morning true 50 ≡ pos 30
unfolding ◌+ℤ◌
calculate_online_time-sum_example = calculate_online_time-sum morning 50
