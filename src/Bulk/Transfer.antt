-- ===== src/Bulk/Transfer.antt =====
-- chats/apps/api/v1/rooms/services/bulk_transfer_service.py, BulkTransferService.
-- `rooms` are the rows of the query set: nothing is written before the last time it is evaluated.
pub mod Rows
pub mod Moves
pub mod Atomic
pub mod Validation
pub mod Refinement
use chats_engine.Prelude.{
  ℕ, Bool, true, false, not, ◌&&◌, Option, none, some, List, [], ◌∷◌, ◌==◌, if◌then◌else◌, is_some,
  same, any, select, find_first, map,
}
use chats_engine.Store.{Queue, Permission, Room, Db, Error, Result, ok, err}
use chats_engine.Store.Action.{Action, Done, pure, when, atomic, ◌>>=◌, ◌>>◌}
use chats_engine.Rooms.{Instance, load, save}
use chats_engine.Rooms.Transfers.{
  of_user, of_queue, create_transfer_json, add_transfer_to_history, mark_notes_as_non_deletable,
}
use chats_engine.Queues.Router.{Turn, is_empty}
use chats_engine.Bulk.{
  Outside, Failure, other_project, no_permission, exception, BulkResult, no_result, add_failure,
  change_ticketer_for_room, create_room_feedback_message, notify_queue, notify_user, update_ticket,
  send_automatic_message, add_queue_metrics, or_own,
}
use chats_engine.Bulk.Loop.{Outcome, succeeded, failed, rooms_in, run_batches}

-- `queue__sector__project__uuid`
abbrev pub project_uuid : Option Queue → Option ℕ
project_uuid none = none
project_uuid (some q) = some q.sector.project.uuid

-- `set(...)`, in the order of the table.
abbrev pub distinct : List (Option ℕ) → List (Option ℕ)
distinct [] = []
distinct (p ∷ ps) = let rest = distinct ps in if any (same p) ps then rest else p ∷ rest

-- The attribute that caches the projects is a parameter; an empty set is not cached.
pub get_rooms_projects : List (Option ℕ) → List Room → List (Option ℕ)
get_rooms_projects [] rooms = distinct (map (λ r. project_uuid r.queue) rooms)
get_rooms_projects (p ∷ ps) rooms = p ∷ ps

-- `ProjectPermission.objects.filter(user=user, project__uuid=project).exists()`
abbrev pub has_permission : ℕ → Option ℕ → Db → Bool
has_permission user project db =
    any (λ p. not p.is_deleted && p.user == user && same (some p.project) project) db.permissions

abbrev pub queue_error : Queue → List (Option ℕ) → Option Failure
queue_error q projects =
    if any (λ p. not (same p (some q.sector.project.uuid))) projects
    then some other_project
    else none

abbrev pub first_denied : ℕ → Option (Option ℕ) → Option Failure
first_denied user none = none
first_denied user (some project) = some (no_permission user project)

abbrev user_error : ℕ → List (Option ℕ) → Db → Option Failure
user_error user projects db =
    first_denied user (find_first (λ p. not (has_permission user p db)) projects)

pub validate_queue : List (Option ℕ) → List Room → Option Queue → Option Failure
validate_queue cached rooms none = none
validate_queue cached rooms (some q) = queue_error q (get_rooms_projects cached rooms)

pub validate_user : List (Option ℕ) → List Room → Option ℕ → Db → Option Failure
validate_user cached rooms none db = none
validate_user cached rooms (some user) db = user_error user (get_rooms_projects cached rooms) db

-- What the attribute holds after a validation of the target.
abbrev pub cached_after {ℓ} :
    {A : Type ℓ} → List (Option ℕ) → List Room → Option A → List (Option ℕ)
cached_after cached rooms none = cached
cached_after cached rooms (some a) = get_rooms_projects cached rooms

abbrev pub or_error : Option Failure → Option Failure → Option Failure
or_error none e = e
or_error (some d) e = some d

-- The first error of the two validations.
pub check_validations : List (Option ℕ) → List Room → Option ℕ → Option Queue → Db → Option Failure
check_validations cached rooms user queue db =
    or_error (validate_queue cached rooms queue)
      (validate_user (cached_after cached rooms queue) rooms user db)

abbrev pub fail_all : Failure → List Room → BulkResult → BulkResult
fail_all e [] result = result
fail_all e (r ∷ rs) result = fail_all e rs (add_failure r.uuid e result)

-- The end of the body of `_process_batch` for a room.
abbrev pub transferred : Room → Result Instance × Db → Result Outcome × Db
transferred r (ok i, db) = (ok (succeeded (r.queue ∷ i.room.queue ∷ [])), db)
transferred r (err e, db) = (ok (failed (exception r.uuid e)), db)

module _ (o : Outside) (now : ℕ) (user_request : ℕ) where
  abbrev to_target : Option ℕ → Option Queue → Instance → Instance
  to_target user queue i = record i { room = record (i.room) { user = user; queue = queue } }

  pub transfer_user_and_queue : ℕ → Queue → Instance → Action Instance
  transfer_user_and_queue user queue i = do
    change_ticketer_for_room o i.room queue.sector.uuid
    j ← save now (to_target (some user) (some queue) i)
    when (not (is_some i.room.user)) (add_queue_metrics now j.room)
    k ←
        add_transfer_to_history now
          (create_transfer_json "transfer" (of_queue i.room.queue) (of_queue (some queue))
            user_request)
          j
    l ←
        add_transfer_to_history now
          (create_transfer_json "transfer" (of_user i.room.user) (of_user (some user)) user_request)
          k
    create_room_feedback_message o l.room
    create_room_feedback_message o l.room
    notify_queue o l.room "rooms.update"
    notify_user o l.room "rooms.update" i.room.user
    notify_user o l.room "rooms.update" none
    mark_notes_as_non_deletable l.room.uuid
    update_ticket o l.room
    pure l

  pub transfer_user : ℕ → Instance → Action Instance
  transfer_user user i = do
    let target = or_own i.room.user (some user_request)
    j ← save now (to_target (some user) i.room.queue i)
    when (not (is_some i.room.user)) (add_queue_metrics now j.room)
    k ←
        add_transfer_to_history now
          (create_transfer_json "transfer" (of_user i.room.user) (of_user target) user_request) j
    create_room_feedback_message o k.room
    notify_user o k.room "rooms.update" target
    notify_user o k.room "rooms.update" none
    notify_queue o k.room "rooms.update"
    update_ticket o k.room
    mark_notes_as_non_deletable k.room.uuid
    when (not (is_some i.room.user_assigned_at)) (send_automatic_message o k.room)
    pure k

  pub transfer_queue : Queue → Instance → Action Instance
  transfer_queue queue i = do
    let target = or_own i.room.user (some user_request)
    change_ticketer_for_room o i.room queue.sector.uuid
    j ← save now (to_target none (some queue) i)
    k ←
        add_transfer_to_history now
          (create_transfer_json "transfer" (of_user target) (of_queue (some queue)) user_request) j
    create_room_feedback_message o k.room
    notify_user o k.room "rooms.update" target
    notify_queue o k.room "rooms.update"
    mark_notes_as_non_deletable k.room.uuid
    pure k

  pub transfer_room : Option ℕ → Option Queue → Instance → Action Instance
  transfer_room (some user) (some queue) i = transfer_user_and_queue user queue i
  transfer_room (some user) none i = transfer_user user i
  transfer_room none (some queue) i = transfer_queue queue i
  transfer_room none none i = pure i

  pub transfer_one : Option ℕ → Option Queue → Room → Action Outcome
  transfer_one user queue r db = transferred r (atomic (transfer_room user queue (load r)) db)

abbrev pub refuse_or :
    Option Failure → List Room → Result BulkResult × Db → Db → Result BulkResult × Db
refuse_or none rooms run db = run
refuse_or (some e) rooms run db = (ok (fail_all e rooms no_result), db)

unfoldable pub transfer :
    Outside
    → (ℕ → Turn)
    → ℕ
    → List (Option ℕ)
    → List Room
    → ℕ
    → Option ℕ
    → Option Queue
    → Action BulkResult
transfer o world size cached rooms user_request user queue db =
    refuse_or (check_validations cached rooms user queue db) rooms
      (run_batches o (λ now. transfer_one o now user_request user queue) world rooms_in size
        (map (λ r. r.uuid) rooms) db)
      db
