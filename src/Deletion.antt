-- ===== src/Deletion.antt =====
-- Deleting a queue or a sector with its rooms: `destroy` and `perform_destroy` of
-- chats/apps/api/v1/queues/viewsets.py and chats/apps/api/v1/sectors/viewsets.py, which are copies of
-- each other but for what `Subject` decides. The audit fields are left out.
pub mod Emptied
pub mod Batches
pub mod Transferred
pub mod Destroyed
pub mod NoneOpen
mod Examples
use chats_engine.Prelude.{
  ℕ, String, Bool, true, false, not, ◌&&◌, ◌||◌, Option, none, some, List, [], ◌∷◌, ltb, ◌==◌,
  if◌then◌else◌, any, select, find_first,
}
use chats_engine.Store.{Sector, Queue, Room, Db, Error, api_exception, Result, ok, err}
use chats_engine.Store.Tables.{in_sector, in_queue}
use chats_engine.Store.Action.{Action, Done}
use chats_engine.Queues.Router.{Turn, is_empty}
use chats_engine.Bulk.{Outside, BulkResult, Summary, to_dict}
use chats_engine.Bulk.Transfer.{transfer}
use chats_engine.Bulk.Close.{close_rooms}

-- What is deleted.
pub data Subject : Type 0 where
  a_queue : Queue → Subject
  a_sector : Sector → Subject

-- The tables, the queues that are not deleted, and the keys of the deleted sectors.
pub record State : Type 0 where
  pub db : Db
  pub queues : List Queue
  pub deleted_sectors : List ℕ

-- The filter of the query set of rooms, beside `is_active=True`.
abbrev pub holds : Subject → Room → Bool
holds (a_queue q) r = in_queue q.uuid r.queue
holds (a_sector s) r = in_sector s.uuid r.queue

abbrev pub open_in : Subject → Room → Bool
open_in subject r = holds subject r && r.is_active

-- The target would be deleted as well.
abbrev pub contains_queue : Subject → Queue → Bool
contains_queue (a_queue q) target = target.uuid == q.uuid
contains_queue (a_sector s) target = target.sector.uuid == s.uuid

abbrev pub project_of_subject : Subject → ℕ
project_of_subject (a_queue q) = q.sector.project.uuid
project_of_subject (a_sector s) = s.project.uuid

abbrev pub end_by : Subject → String
end_by (a_queue q) = "queue_deleted"
end_by (a_sector s) = "sector_deleted"

-- The status codes with which Flows lets the deletion go on.
abbrev pub accepts : Subject → ℕ → Bool
accepts (a_queue q) code = code == 404 || (code == 200 || (code == 201 || code == 204))
accepts (a_sector s) code = code == 200 || (code == 201 || code == 204)

-- `instance.delete()`; `Sector.delete` deletes its queues as well.
pub delete : Subject → State → State
delete (a_queue q) s = record s { queues = select (λ x. not (x.uuid == q.uuid)) s.queues }
delete (a_sector c) s = record s {
  queues = select (λ x. not (x.sector.uuid == c.uuid)) s.queues;
  deleted_sectors = c.uuid ∷ s.deleted_sectors;
}

-- The response.
pub data Answer : Type 0 where
  both_given target_not_found target_in_subject target_in_other_project : Answer
  transfer_failed : Summary → Answer
  deleted : Option Summary → Answer
  no_content : Answer

pub data Checked : Type 0 where
  accepted : Queue → Checked
  refused : Answer → Checked

-- `_validate_transfer_queue`
pub check_target : Subject → Option Queue → Checked
check_target subject none = refused target_not_found
check_target subject (some q) =
    if contains_queue subject q
    then refused target_in_subject
    else if not (q.sector.project.uuid == project_of_subject subject)
    then refused target_in_other_project
    else accepted q

-- The query parameters, and the status code with which Flows would answer.
pub record Request : Type 0 where
  pub user : ℕ
  pub transfer_to_queue : Option ℕ
  pub end_all_chats : Bool
  pub flows_status : ℕ

abbrev pub with_db : {A : Type 0} → State → Result A × Db → Result A × State
with_db s (x, db) = (x, record s { db = db })

-- `_close_active_rooms`, past the closure.
abbrev check_closed : Result (Option BulkResult) → Result Done
check_closed (err e) = err e
check_closed (ok none) = ok tt
check_closed (ok (some r)) =
    if r.success_count == 0 && ltb 0 r.failed_count then err api_exception else ok tt

abbrev pub as_some : {A : Type 0} → Result A × Db → Result (Option A) × Db
as_some (ok a, db) = (ok (some a), db)
as_some (err e, db) = (err e, db)

abbrev pub then_do :
    {A B : Type 0} → Result A × State → (A → State → Result B × State) → Result B × State
then_do (ok a, s) f = f a s
then_do (err e, s) f = (err e, s)

abbrev pub active_rooms : Subject → Db → List Room
active_rooms subject db = select (open_in subject) db.rooms

abbrev pub checked : Result (Option BulkResult) × Db → Result Done × Db
checked (x, db) = (check_closed x, db)

abbrev pub summary_of : Option BulkResult → Option Summary
summary_of none = none
summary_of (some r) = some (to_dict r)

abbrev pub has_failed : Option BulkResult → Bool
has_failed none = false
has_failed (some r) = ltb 0 r.failed_count

abbrev pub failed_answer : Option BulkResult → Answer
failed_answer none = no_content
failed_answer (some r) = transfer_failed (to_dict r)

module _ (o : Outside) (world : ℕ → Turn) (close_size transfer_size : ℕ) (subject : Subject) where
  pub close_active_rooms : Db → Result (Option BulkResult) × Db
  close_active_rooms db =
      if is_empty (active_rooms subject db)
      then (ok none, db)
      else as_some
          (close_rooms o world close_size (active_rooms subject db) [] (end_by subject) none db)

  pub transfer_active_rooms : ℕ → Queue → Db → Result (Option BulkResult) × Db
  transfer_active_rooms user target db =
      if is_empty (active_rooms subject db)
      then (ok none, db)
      else as_some
          (transfer o world transfer_size [] (active_rooms subject db) user none (some target) db)

  abbrev pub closed_first : Bool → State → Result Done × State
  closed_first true s = with_db s (checked (close_active_rooms s.db))
  closed_first false s = (ok tt, s)

  -- The row goes unless Flows, where it is used, refuses.
  abbrev pub removed : ℕ → State → Result Done × State
  removed code s =
      if not o.use_weni_flows || accepts subject code
      then (ok tt, delete subject s)
      else (err api_exception, s)

  pub perform_destroy : Request → State → Result Done × State
  perform_destroy r s = then_do (closed_first r.end_all_chats s) (λ _. removed r.flows_status)

  abbrev pub after_transfer : Request → Option BulkResult → State → Result Answer × State
  after_transfer r result s =
      if has_failed result
      then (ok (failed_answer result), s)
      else then_do (perform_destroy r s) (λ _ s'. (ok (deleted (summary_of result)), s'))

  abbrev pub to_target : Request → Checked → State → Result Answer × State
  to_target r (refused answer) s = (ok answer, s)
  to_target r (accepted target) s =
      then_do (with_db s (transfer_active_rooms r.user target s.db)) (after_transfer r)

  abbrev pub destroy_with : Request → Option ℕ → Bool → State → Result Answer × State
  destroy_with r (some uuid) true s = (ok both_given, s)
  destroy_with r (some uuid) false s =
      to_target r (check_target subject (find_first (λ q. q.uuid == uuid) s.queues)) s
  destroy_with r none end_all s = then_do (perform_destroy r s) (λ _ s'. (ok no_content, s'))

  pub destroy : Request → State → Result Answer × State
  destroy r s = destroy_with r r.transfer_to_queue r.end_all_chats s
