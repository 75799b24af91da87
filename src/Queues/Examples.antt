-- ===== src/Queues/Examples.antt =====
-- Tests of chats/apps/queues, and its theorems at two agents.
use chats_engine.Prelude.{
  ℕ, ◌≡◌, ◌≤◌, ◌<◌, ◌-◌, ◌/◌, refl, true, false, some, none, ◌&&◌, ◌==◌, if◌then◌else◌, is_some,
  All, select, arith, str_eq, any,
}
use chats_engine.Store.Samples.{queue, agent, db}
use chats_engine.Queues.{
  get_agent_with_least_rooms_closed_today, Env, online_agents, available_agents, load, is_available,
  effective_limit, rooms_closed_today, get_available_agent, execute, is_online_agent,
}
use chats_engine.Queues.Least.{Among}
use chats_engine.Queues.Choice.{
  get_available_agent-least, get_available_agent-is_some, get_available_agent-can_receive, passes,
}

abbrev pub env : Env
env = record {
  ping_timeout = some false;
  agents_management = none;
  least_closed_today = true;
  capacity_recheck = true;
  last_seen_threshold = 90;
  iexact = str_eq;
  local_date = λ t. t / 86400000000;
}

-- The last of the numbers that may be drawn.
abbrev pub last_number : ℕ → ℕ
last_number n = n - 1

pub last_number-below : (n : ℕ) → 0 < n → last_number n < n
last_number-below n h = omega (arith, h)

chosen : get_available_agent env 99 queue last_number db ≡ some (agent 21 8)
unfolding get_available_agent available_agents online_agents load effective_limit rooms_closed_today
    get_agent_with_least_rooms_closed_today
chosen = refl

get_available_agent-least_example :
    Among (agent 21 8) db.permissions
    × (is_available env 99 queue db (agent 21 8) ≡ true)
    × All
        (λ x.
          (load env 99 queue db (agent 21 8) ≤ load env 99 queue db x)
          × ((if env.least_closed_today
                  && load env 99 queue db x == load env 99 queue db (agent 21 8)
                then rooms_closed_today env 99 queue db (agent 21 8)
                else 0)
              ≤ rooms_closed_today env 99 queue db x))
        (select (is_available env 99 queue db) db.permissions)
get_available_agent-least_example =
    get_available_agent-least env 99 queue last_number db (agent 21 8) chosen

get_available_agent-is_some_example :
    is_some (get_available_agent env 99 queue last_number db) ≡ true
unfolding effective_limit
get_available_agent-is_some_example =
    get_available_agent-is_some env 99 queue last_number db last_number-below

get_available_agent-can_receive_example :
    (is_some (get_available_agent env 99 queue last_number db)
      ≡ any
          (λ p. is_online_agent env 99 queue db p && (execute env queue p.user db).can_receive)
          db.permissions)
    × (passes env queue db (get_available_agent env 99 queue last_number db) ≡ true)
get_available_agent-can_receive_example =
    get_available_agent-can_receive env 99 queue last_number db last_number-below
