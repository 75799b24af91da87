-- ===== src/Resolve/Examples.antt =====
-- Tests of chats/apps/rooms/usecases/resolve_room_user.py, and its theorem at a queue where two rooms wait.
use chats_engine.Prelude.{◌≡◌, ◌-◌, ◌/◌, refl, true, false, some, none, [], str_eq}
use chats_engine.Store.{Db, Result, ok}
use chats_engine.Store.Samples.{queue, agent, db}
use chats_engine.Queues.{Env}
use chats_engine.Queues.Router.{Turn}
use chats_engine.Resolve.{start_queue_priority_routing, resolve, FlowStart}
use chats_engine.Resolve.Fairness.{expected, resolve-fair}

abbrev env : Env
env = record {
  ping_timeout = none;
  agents_management = some true;
  least_closed_today = false;
  capacity_recheck = true;
  last_seen_threshold = 90;
  iexact = str_eq;
  local_date = λ t. t / 86400000000;
}

abbrev turn : Turn
turn = record { now = 99; draw = λ n. n - 1; others = λ db. db }

abbrev start : Db → Result (Unit {0}) × Db
start db = start_queue_priority_routing true (λ q d. (ok tt, d)) queue db

-- The agent who has started the flow is online.
abbrev flow : FlowStart
flow = record { permission = some (agent 20 7); created_on = 60 }

flow_first : resolve env true turn queue start 70 none true (some flow) [] db ≡ (ok (some 7), db)
unfolding resolve
flow_first = refl

waits : expected env true turn queue start db ≡ (ok none, (start db).1)
unfolding start_queue_priority_routing
waits = refl

resolve-fair_example :
    resolve env true turn queue start 70 none true none [] db
    ≡ expected env true turn queue start db
resolve-fair_example = resolve-fair env true turn queue start 70 none true none [] db refl refl
