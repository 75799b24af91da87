-- ===== src/Deletion/Destroyed.antt =====
-- The whole of `destroy` of chats/apps/api/v1/queues/viewsets.py and
-- chats/apps/api/v1/sectors/viewsets.py.
use chats_engine.Prelude.{
  ℕ, ◌≡◌, refl, inl, inr, Bool, true, false, not, ◌||◌, Option, none, some, arith, ◌==◌,
  if◌then◌else◌, find_first, Bool-cases,
}
use chats_engine.Store.{Queue, Db, api_exception, Result, ok, err}
use chats_engine.Store.Action.{Done}
use chats_engine.Queues.Router.{Turn}
use chats_engine.Bulk.{Outside, BulkResult}
use chats_engine.Deletion.{
  Subject, a_queue, a_sector, State, contains_queue, project_of_subject, delete, Answer,
  target_in_other_project, deleted, no_content, Checked, accepted, refused, check_target, Request,
  with_db, checked, then_do, accepts, closed_first, close_active_rooms, transfer_active_rooms,
  removed, perform_destroy, has_failed, failed_answer, summary_of, after_transfer, to_target,
  destroy_with, destroy,
}

-- The tables of what can be deleted are as after the deletion, where the answer says so, and
-- otherwise as before.
abbrev pub says_deleted : Result Answer → Bool
says_deleted (ok (deleted y)) = true
says_deleted (ok no_content) = true
says_deleted _ = false

abbrev SameSubjects : State → State → Type 0
SameSubjects s s' = (s'.queues ≡ s.queues) × (s'.deleted_sectors ≡ s.deleted_sectors)

abbrev pub Deletes : Subject → State → Result Answer × State → Type 0
Deletes subject s (x, s') = SameSubjects (if says_deleted x then delete subject s else s) s'

abbrev is_done : Result Done → Bool
is_done (ok a) = true
is_done (err e) = false

abbrev Performs : Subject → State → Result Done × State → Type 0
Performs subject s (x, s') = SameSubjects (if is_done x then delete subject s else s) s'

delete-same :
    (subject : Subject) (s : State) (db : Db)
    → SameSubjects (delete subject s) (delete subject (record s { db = db }))
unfolding delete
delete-same (a_queue q) s db = (refl, refl)
delete-same (a_sector c) s db = (refl, refl)

module _ (o : Outside) (world : ℕ → Turn) (close_size size : ℕ) (subject : Subject) where
  removed-Performs :
      (code : ℕ) (s : State) (db : Db)
      → Performs subject s (removed o world close_size size subject code (record s { db = db }))
  removed-Performs code s db = of_bool (not o.use_weni_flows || accepts subject code)
    where
      of_bool :
          (b : Bool)
          → Performs subject s (
              if b
              then (ok tt, delete subject (record s { db = db }))
              else (err api_exception, record s { db = db }))
      of_bool true = delete-same subject s db
      of_bool false = (refl, refl)

  then_removed :
      (code : ℕ) (s : State) (x : Result Done × Db)
      → Performs subject s
          (then_do (with_db s x) (λ _. removed o world close_size size subject code))
  then_removed code s (ok a, db) = removed-Performs code s db
  then_removed code s (err e, db) = (refl, refl)

  closed_first-Performs :
      (r : Request) (end_all : Bool) (s : State) (db : Db)
      → Performs subject s (
          then_do
            (closed_first o world close_size size subject end_all (record s { db = db }))
            (λ _. removed o world close_size size subject r.flows_status))
  closed_first-Performs r true s db =
      then_removed r.flows_status s
        (checked (close_active_rooms o world close_size size subject db))
  closed_first-Performs r false s db = removed-Performs r.flows_status s db

  perform_destroy-Performs :
      (r : Request) (s : State) (db : Db)
      → Performs subject s
          (perform_destroy o world close_size size subject r (record s { db = db }))
  unfolding perform_destroy
  perform_destroy-Performs r s db = closed_first-Performs r r.end_all_chats s db

  answered :
      (answer : Answer) (s : State) (x : Result Done × State)
      → says_deleted (ok answer) ≡ true
      → Performs subject s x
      → Deletes subject s (then_do x (λ _ s'. (ok answer, s')))
  answered answer s (ok a, s') e h = rw e h
  answered answer s (err x, s') e h = h

  failed_same :
      (result : Option BulkResult)
      → has_failed result ≡ true
      → says_deleted (ok (failed_answer result)) ≡ false
  failed_same none h = absurd (ground (arith, h))
  failed_same (some y) h = refl

  after_transfer-Deletes :
      (r : Request) (s : State) (result : Option BulkResult) (db : Db)
      → Deletes subject s
          (after_transfer o world close_size size subject r result (record s { db = db }))
  after_transfer-Deletes r s result db = elim (Bool-cases (has_failed result)) [
    | inl some_failed ↦ rw (some_failed, failed_same result some_failed) (refl, refl)
    | inr all_moved ↦
        rw all_moved
          (answered (deleted (summary_of result)) s _ refl (perform_destroy-Performs r s db))
  ]

  transferred-Deletes :
      (r : Request) (s : State) (x : Result (Option BulkResult) × Db)
      → Deletes subject s (then_do (with_db s x) (after_transfer o world close_size size subject r))
  transferred-Deletes r s (ok result, db) = after_transfer-Deletes r s result db
  transferred-Deletes r s (err e, db) = (refl, refl)

  -- What a check of the target gives.
  abbrev pub Sound : Checked → Type 0
  Sound (accepted q) = contains_queue subject q ≡ false
  Sound (refused answer) = says_deleted (ok answer) ≡ false

  pub check_target-Sound : (q : Option Queue) → Sound (check_target subject q)
  unfolding check_target
  check_target-Sound none = refl
  check_target-Sound (some q) = elim (Bool-cases (contains_queue subject q)) [
    | inl inside ↦ rw inside refl
    | inr outside ↦
        rw outside (by_project (not (q.sector.project.uuid == project_of_subject subject)) outside)
  ]
    where
      by_project :
          (b : Bool)
          → contains_queue subject q ≡ false
          → Sound (if b then refused target_in_other_project else accepted q)
      by_project true e = refl
      by_project false e = e

  checked-Deletes :
      (r : Request) (s : State) (c : Checked)
      → Sound c
      → Deletes subject s (to_target o world close_size size subject r c s)
  checked-Deletes r s (accepted q) h =
      transferred-Deletes r s (transfer_active_rooms o world close_size size subject r.user q s.db)
  checked-Deletes r s (refused answer) h = rw h (refl, refl)

  destroy_with-Deletes :
      (r : Request) (target : Option ℕ) (end_all : Bool) (s : State)
      → Deletes subject s (destroy_with o world close_size size subject r target end_all s)
  destroy_with-Deletes r (some uuid) true s = (refl, refl)
  destroy_with-Deletes r (some uuid) false s =
      checked-Deletes r s _ (check_target-Sound (find_first (λ q. q.uuid == uuid) s.queues))
  destroy_with-Deletes r none end_all s =
      answered no_content s _ refl (perform_destroy-Performs r s s.db)

  -- A request to delete a queue or a sector, with whatever parameters, and whatever fails meanwhile,
  -- deletes it, and of a sector its queues, exactly where the answer says so. On every other answer,
  -- a refusal, a transfer that has failed for some room, or an exception, no queue and no sector is
  -- deleted.
  pub destroy-Deletes :
      (r : Request) (s : State) → Deletes subject s (destroy o world close_size size subject r s)
  unfolding destroy
  destroy-Deletes r s = destroy_with-Deletes r r.transfer_to_queue r.end_all_chats s
