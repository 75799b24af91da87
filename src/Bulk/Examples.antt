-- ===== src/Bulk/Examples.antt =====
-- Tests of the bulk operations (chats/apps/api/v1/rooms/services), and their theorems at a few rooms.
use chats_engine.Prelude.{ℕ, ◌≡◌, refl, ◌+◌, true, false, Option, none, some, List, [], ◌∷◌, arith}
use chats_engine.Store.{Queue, Room, Effect, feedback, csat_flow, Error, connection_error, ok}
use chats_engine.Store.Tables.{find_room, put_room, Distinct}
use chats_engine.InService.{room_closed, end_service, get_or_create_status_type}
use chats_engine.Rooms.{
  is_active_in, close, finish_close, after_close, user_in, save, write, stamped,
  update_agent_service_status, agent_service,
}
use chats_engine.Rooms.Transfers.{add_transfer_to_history}
use chats_engine.Store.Samples.{project, sector, room, db}
use chats_engine.Queues.Router.{Turn}
use chats_engine.Bulk.{Outside, BulkResult, Failure, other_project, exception, no_result}
use chats_engine.Bulk.Loop.{failed, Tally, room_loop, rooms_in}
use chats_engine.Bulk.Results.{Consistent}
use chats_engine.Bulk.Transfer.{transfer}
use chats_engine.Bulk.Transfer.Atomic.{Ends, transfer_one-atomic}
use chats_engine.Bulk.Transfer.Refinement.{Refines, view, room_loop-Refines}
use chats_engine.Bulk.Transfer.Validation.{transfer-refuses}
use chats_engine.Bulk.Transfer.{transfer_one}
use chats_engine.Bulk.Take.{take_one, take_room}
use chats_engine.Bulk.Take.Turns.{Takes, take_one-Takes}
use chats_engine.Bulk.Take.Keeping.{room_loop-keeps}
use chats_engine.Bulk.Close.{close_one, close_rooms}
use chats_engine.Bulk.Close.Turns.{Closes, close_one-Closes, close_rooms-counts}

-- Nothing fails, and celery runs the tasks.
abbrev outside : Outside
outside = record {
  use_weni_flows = true;
  is_feature_active = λ p. true;
  get_ticketer_by_sector = λ p s. some 900;
  fails = λ e db. none;
  use_celery = true;
  run = λ q db. (ok tt, db);
}

-- Messages in a room cannot be sent.
abbrev fails_feedback : Effect → Option Error
fails_feedback (feedback r m) = some connection_error
fails_feedback _ = none

abbrev broken : Outside
broken = record outside { fails = λ e db. fails_feedback e }

abbrev quiet : ℕ → Turn
quiet n = record { now = 99; draw = λ k. 0; others = λ db. db }

-- A queue of another sector, and one of another project.
abbrev sales : Queue
sales = record { uuid = 101; sector = record sector { uuid = 11 } }

abbrev foreign : Queue
foreign = record {
  uuid = 102;
  sector = record sector { uuid = 12; project = record project { uuid = 2 } };
}

abbrev empty_tally : Tally
empty_tally = record { result = no_result; affected = [] }

abbrev batch : List Room
batch = room 50 (some 7) ∷ room 53 none ∷ []

transfer_one-atomic_example :
    Ends none
      (some sales)
      (room 50 (some 7))
      db
      (transfer_one outside 99 8 none (some sales) (room 50 (some 7)) db)
transfer_one-atomic_example =
    transfer_one-atomic outside 99 8 none (some sales) (room 50 (some 7)) db refl

room_loop-Refines_example : Refines (some 8) (some sales) batch (view db) empty_tally (
    room_loop outside
      (λ now. transfer_one outside now 7 (some 8) (some sales))
      quiet
      0
      batch
      empty_tally
      db)
room_loop-Refines_example =
    room_loop-Refines outside 7 (some 8) (some sales) quiet refl (λ n db. refl) 0 batch empty_tally
      db

transfer-refuses_example :
    (r : BulkResult) × (e : Failure) × (transfer outside quiet 50 [] batch 7 none (some foreign) db
      ≡ (ok r, db))
    × (r.success_count ≡ 0)
    × (r.failed_count ≡ 2)
    × (r.errors ≡ e ∷ e ∷ [])
    × (r.failed_rooms ≡ 50 ∷ 53 ∷ [])
transfer-refuses_example = transfer-refuses outside quiet 50 batch 7 none (some foreign) db refl

close_one-Closes_example :
    Closes outside 99 [] "agent"
      (some 7)
      (room 50 (some 7))
      db
      (close_one outside ((53, 4 ∷ []) ∷ []) "agent" (some 7) 99 (room 50 (some 7)) db)
close_one-Closes_example =
    close_one-Closes outside ((53, 4 ∷ []) ∷ []) "agent" (some 7) 99 (room 50 (some 7)) db

-- The flow of the satisfaction survey cannot be started.
abbrev fails_csat : Effect → Option Error
fails_csat (csat_flow r) = some connection_error
fails_csat _ = none

-- Room 50 is reported as failed, and is closed.
closed_late :
    let (x, db') =
      close_one
        (record outside { fails = λ e db. fails_csat e })
        []
        "agent"
        none
        99
        (room 50 (some 7))
        db in
    (x ≡ ok (failed (exception 50 connection_error))) × (is_active_in 50 db'.rooms ≡ some false)
unfolding close_one close finish_close after_close save write stamped update_agent_service_status
    agent_service find_room put_room room_closed end_service get_or_create_status_type
closed_late = (refl, refl)

close_rooms-counts_example :
    (r : BulkResult) × ((close_rooms outside quiet 1 batch [] "agent" none db).0 ≡ ok r)
    × Consistent r
    × (r.success_count + r.failed_count ≡ 2)
close_rooms-counts_example =
    close_rooms-counts outside quiet 1 batch [] "agent" none db (omega arith)

take_one-Takes_example : Takes 8 (room 53 none) db (take_one broken 99 8 (room 53 none) db)
take_one-Takes_example = take_one-Takes broken 99 8 (room 53 none) db

-- Room 53 is reported as failed, and has gone to agent 8.
partial :
    let (x, db') = take_one broken 99 8 (room 53 none) db in
    (x ≡ ok (failed (exception 53 connection_error))) × (user_in 53 db'.rooms ≡ some 8)
unfolding take_one take_room save write stamped update_agent_service_status agent_service find_room
    put_room add_transfer_to_history
partial = (refl, refl)

Distinct-keys : Distinct (db.rooms)
unfolding find_room
Distinct-keys = (refl, (refl, (refl, (refl, (refl, tt)))))

room_50 : find_room 50 (db.rooms) ≡ some (room 50 (some 7))
unfolding find_room
room_50 = refl

room_loop-keeps_example :
    find_room 50
      (room_loop outside
        (λ now. take_one outside now 8)
        quiet
        0
        (rooms_in (50 ∷ 53 ∷ []) db)
        empty_tally
        db).1.rooms
    ≡ some (room 50 (some 7))
room_loop-keeps_example =
    room_loop-keeps outside 8 quiet (50 ∷ 53 ∷ []) 0 empty_tally db 50 (room 50 (some 7))
      (λ n db. refl) Distinct-keys room_50 refl

abbrev one_failure : BulkResult
one_failure = record {
  success_count = 3;
  failed_count = 1;
  errors = other_project ∷ [];
  failed_rooms = 50 ∷ [];
}

one_failure-Consistent : Consistent one_failure
one_failure-Consistent = record { errors = refl; failed_rooms = refl }
