-- ===== src/Queues/Router/Examples.antt =====
-- Tests of `QueueRouterService` (chats/apps/queues/services.py), and its theorems at two agents.
use chats_engine.Prelude.{ℕ, ◌≡◌, ◌⊎◌, refl, false, none, [], ◌∷◌, any, count_if, arith}
use chats_engine.Store.{Db, ok}
use chats_engine.Store.Tables.{find_room, put_room}
use chats_engine.Store.Samples.{queue, room, db}
use chats_engine.Rooms.{save, write, stamped, update_agent_service_status, agent_service}
use chats_engine.Queues.{
  get_agent_with_least_rooms_closed_today, online_agents, available_agents, load, is_available,
  effective_limit, rooms_closed_today, get_available_agent, execute,
}
use chats_engine.Queues.Router.{
  Turn, get_rooms_to_route, turn, give, assign, tell, route_loop, route_rooms, is_queued,
}
use chats_engine.Queues.Router.Limits.{Within, route_rooms-Within}
use chats_engine.Queues.Router.Exhaustion.{Exhausted, route_rooms-Exhausted}
use chats_engine.Queues.Examples.{env, last_number, last_number-below}

abbrev world : ℕ → Turn
world n = record { now = 99; draw = last_number; others = λ db. db }

queued : get_rooms_to_route queue db ≡ room 52 none ∷ room 53 none ∷ []
unfolding get_rooms_to_route
queued = refl

Within-db : Within env queue 7 2 db
unfolding effective_limit find_room
Within-db = record {
  keys = (refl, (refl, (refl, (refl, (refl, tt)))));
  limit = omega arith;
  rooms = omega arith;
}

route_rooms-Within_example : Within env queue 7 2 (route_rooms env queue world 99 db).1
route_rooms-Within_example =
    route_rooms-Within env queue 7 2 world 99 db record { within = λ n d w. w } Within-db

abbrev routed : Db
routed = (route_rooms env queue world 99 db).1

routed-ok : route_rooms env queue world 99 db ≡ (ok tt, routed)
unfolding route_rooms route_loop turn give assign tell get_rooms_to_route get_available_agent
    available_agents online_agents load effective_limit rooms_closed_today
    get_agent_with_least_rooms_closed_today save write stamped find_room put_room
    update_agent_service_status agent_service execute
routed-ok = refl

none_left : count_if (is_queued 100) routed.rooms ≡ 0
unfolding route_rooms route_loop turn give assign tell get_rooms_to_route get_available_agent
    available_agents online_agents load effective_limit rooms_closed_today
    get_agent_with_least_rooms_closed_today save write stamped find_room put_room
    update_agent_service_status agent_service execute
none_left = refl

route_rooms-Exhausted_example :
    Exhausted env queue world routed
    ⊎ ((routed ≡ db) × (any (is_available env 99 queue db) db.permissions ≡ false))
route_rooms-Exhausted_example =
    route_rooms-Exhausted env queue world (λ n k h. last_number-below k h) (λ n d. refl) 99 db
      routed Within-db.keys routed-ok
