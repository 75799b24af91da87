-- ===== src/Bulk.antt =====
-- The bulk operations on rooms (chats/apps/api/v1/rooms/services): what the three services share.
-- `Outside` is what they ask of other systems. The services run each room at one instant; `Turn`
-- gives that instant, and what other processes have written since the room before.
pub mod Batches
pub mod Loop
pub mod Transfer
pub mod Take
pub mod Close
pub mod Frame
pub mod Results
pub mod Affected
mod Examples
use chats_engine.Prelude.{
  ℕ, suc, ◌+◌, ◌-◌, String, Bool, true, false, not, ◌&&◌, Option, none, some, List, [], ◌∷◌, ◌++◌,
  ltb, ◌==◌, if◌then◌else◌, is_some, same, length, take, drop, any, select,
}
use chats_engine.Store.{
  Queue, Permission, Room, Effect, queue_event, permission_event, ticket_assignee, ticketer_changed,
  feedback, automatic_message, Db, Error, attribute_error, flows_ticketer_not_found,
  zero_division_error, Result, ok, err,
}
use chats_engine.Store.Tables.{send}
use chats_engine.Store.Action.{
  Action, Done, pure, raise, modify, when, attempt, or_raise, ◌>>=◌, ◌>>◌, bind,
}
use chats_engine.InService.{find_permission}
use chats_engine.Rooms.{project_of}
use chats_engine.Queues.Router.{Turn, add_metrics, calculate_last_queue_waiting_time, is_empty}
use chats_engine.Resolve.{start_queue_priority_routing}

-- Settings, feature flags, and the systems that are called. `fails` says what sending raises;
-- `run` is `route_queue_rooms`, called in place where celery is not used.
pub record Outside : Type 0 where
  pub use_weni_flows : Bool
  pub is_feature_active : ℕ → Bool
  pub get_ticketer_by_sector : ℕ → ℕ → Option ℕ
  pub fails : Effect → Db → Option Error
  pub use_celery : Bool
  pub run : Queue → Db → Result (Unit {0}) × Db

-- Why a room has failed: the text of the error.
pub data Failure : Type 0 where
  other_project : Failure
  no_permission : ℕ → Option ℕ → Failure
  already_assigned : ℕ → Option ℕ → Failure
  exception : ℕ → Error → Failure

-- BulkTransferResult, and its copies BulkTakeResult and BulkCloseResult.
pub record BulkResult : Type 0 where
  pub success_count : ℕ
  pub failed_count : ℕ
  pub errors : List Failure
  pub failed_rooms : List ℕ

abbrev pub no_result : BulkResult
no_result = record { success_count = 0; failed_count = 0; errors = []; failed_rooms = [] }

unfoldable pub add_success : BulkResult → BulkResult
add_success r = record r { success_count = r.success_count + 1 }

unfoldable pub add_failure : ℕ → Failure → BulkResult → BulkResult
add_failure room e r = record r {
  failed_count = r.failed_count + 1;
  errors = r.errors ++ (e ∷ []);
  failed_rooms = r.failed_rooms ++ (room ∷ []);
}

-- The dictionary of the answer.
pub record Summary : Type 0 where
  pub success_count : ℕ
  pub failed_count : ℕ
  pub total_processed : ℕ
  pub errors : List Failure
  pub failed_rooms : List ℕ
  pub has_more_errors : Bool

pub to_dict : BulkResult → Summary
to_dict r = record {
  success_count = r.success_count;
  failed_count = r.failed_count;
  total_processed = r.success_count + r.failed_count;
  errors = take 10 r.errors;
  failed_rooms = take 10 r.failed_rooms;
  has_more_errors = ltb 10 (length r.errors);
}

abbrev pub or_own : Option ℕ → Option ℕ → Option ℕ
or_own none own = own
or_own (some u) own = some u

-- The waiting time and the count of the room's metrics.
pub add_queue_metrics : ℕ → Room → Action Done
add_queue_metrics now r = modify (λ db. record db {
  metrics = add_metrics r.uuid (calculate_last_queue_waiting_time now r) db.metrics;
})

module _ (o : Outside) where
  -- A message to another system.
  abbrev pub deliver_or : Option Error → Effect → Action Done
  deliver_or none e = modify (send e)
  deliver_or (some x) e = raise x

  abbrev pub deliver : Effect → Action Done
  deliver e db = deliver_or (o.fails e db) e db

  -- `change_ticketer_for_room`, past its guards on the settings and the ticket.
  abbrev change_ticketer : ℕ → Queue → ℕ → Action Done
  change_ticketer ticket q sector =
      if q.sector.uuid == sector
      then pure tt
      else if not (o.is_feature_active q.sector.project.uuid)
      then pure tt
      else do
        ticketer ←
            or_raise (o.get_ticketer_by_sector q.sector.project.uuid sector)
              flows_ticketer_not_found
        deliver (ticketer_changed ticket ticketer)

  abbrev pub change_ticketer_of : Option ℕ → Option Queue → ℕ → Action Done
  change_ticketer_of none q sector = pure tt
  change_ticketer_of (some ticket) none sector = pure tt
  change_ticketer_of (some ticket) (some q) sector = change_ticketer ticket q sector

  pub change_ticketer_for_room : Room → ℕ → Action Done
  change_ticketer_for_room r sector =
      if not o.use_weni_flows then pure tt else change_ticketer_of r.ticket_uuid r.queue sector

  -- `create_room_feedback_message`
  abbrev pub create_room_feedback_message : Room → Action Done
  create_room_feedback_message r = deliver (feedback r.uuid "rt")

  abbrev pub to_queue : ℕ → String → Option Queue → Action Done
  to_queue room event none = raise attribute_error
  to_queue room event (some q) = deliver (queue_event q.uuid room event)

  pub notify_queue : Room → String → Action Done
  notify_queue r event = to_queue r.uuid event r.queue

  abbrev pub to_permission : ℕ → String → Option Permission → Action Done
  to_permission room event none = pure tt
  to_permission room event (some p) = deliver (permission_event p.uuid room event)

  abbrev pub to_user : ℕ → String → Option ℕ → Option Queue → Action Done
  to_user room event user none = raise attribute_error
  to_user room event none (some q) = pure tt
  to_user room event (some u) (some q) =
      λ db. to_permission room event (find_permission u q.sector.project.uuid db.permissions) db

  -- `room.notify_user(event, user=user)`
  pub notify_user : Room → String → Option ℕ → Action Done
  notify_user r event user = to_user r.uuid event (or_own user r.user) r.queue

  abbrev pub ticket_of : Option ℕ → Option ℕ → ℕ → Action Done
  ticket_of (some ticket) (some user) room = deliver (ticket_assignee room (some ticket) user)
  ticket_of _ _ room = pure tt

  -- `update_ticket`, and `update_ticket_async`, which leaves it to a task.
  pub update_ticket : Room → Action Done
  update_ticket r = ticket_of r.ticket_uuid r.user r.uuid

  abbrev pub automatic_of : Option Queue → Room → Action Done
  automatic_of none r = raise attribute_error
  automatic_of (some q) r = when q.sector.automatic_message (deliver (automatic_message r.uuid))

  pub send_automatic_message : Room → Action Done
  send_automatic_message r =
      if is_some r.user && is_some r.user_assigned_at then automatic_of r.queue r else pure tt

  -- `start_queue_priority_routing` for each queue; what it raises is logged.
  unfoldable pub route_affected : List Queue → Db → Db
  route_affected [] db = db
  route_affected (q ∷ qs) db =
      route_affected qs (start_queue_priority_routing o.use_celery o.run q db).1
