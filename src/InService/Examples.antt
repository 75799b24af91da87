-- ===== src/InService/Examples.antt =====
-- Tests of chats/apps/projects/usecases/status_service.py, and its theorems at two agents.
use chats_engine.Prelude.{◌≡◌, refl, some, arith}
use chats_engine.Store.Samples.{project, db}
use chats_engine.InService.{
  get_or_create_status_type, has_priority_status, create_status, assign_status, room_assigned,
  room_closed, sync_agent_status, always_sends,
}
use chats_engine.InService.Single.{AtMostOne, service-AtMostOne}
use chats_engine.InService.Sync.{in_service_type, in_service_count, sync_agent_status-agrees}

assigned :
    in_service_count 7 project
      (in_service_type project db)
      (room_assigned 9 (some 7) (some project) db)
    ≡ 1
unfolding room_assigned assign_status has_priority_status create_status get_or_create_status_type
assigned = refl

single : AtMostOne db
single = record { at = λ u p. omega arith }

service-AtMostOne_example :
    AtMostOne (room_assigned 9 (some 7) (some project) db)
    × AtMostOne (room_closed always_sends 9 (some 7) (some project) db).1
    × AtMostOne (sync_agent_status 9 8 project db)
service-AtMostOne_example =
    service-AtMostOne always_sends 9 (some 7) (some project) 8 project db single

sync_agent_status-agrees_example :
    in_service_count 7 project (in_service_type project db) (sync_agent_status 9 7 project db) ≡ 1
sync_agent_status-agrees_example = sync_agent_status-agrees 9 7 project db single
