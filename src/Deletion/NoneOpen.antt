-- ===== src/Deletion/NoneOpen.antt =====
-- Deleting a queue or a sector after its rooms have been transferred leaves none of them open in it
-- (chats/apps/api/v1/queues/viewsets.py and chats/apps/api/v1/sectors/viewsets.py).
use chats_engine.Prelude.{
  ℕ, ◌≡◌, refl, ap, ◌∙◌, inl, inr, Bool, true, false, not, ◌||◌, Option, none, some, arith, ◌==◌,
  if◌then◌else◌, find_first, Bool-cases,
}
use chats_engine.Store.{Queue, Db, api_exception, Result, ok, err}
use chats_engine.Store.Action.{Done}
use chats_engine.Queues.Router.{Turn}
use chats_engine.Bulk.{Outside, BulkResult}
use chats_engine.Deletion.{
  Subject, a_queue, a_sector, State, contains_queue, delete, Answer, both_given, target_not_found,
  target_in_subject, target_in_other_project, transfer_failed, deleted, no_content, Checked,
  accepted, refused, Request, with_db, then_do, accepts, removed, perform_destroy, has_failed,
  failed_answer, summary_of, after_transfer, to_target, destroy_with, destroy,
}
use chats_engine.Deletion.Emptied.{opens}
use chats_engine.Deletion.Transferred.{NoneLeft, transfer_active-NoneLeft}
use chats_engine.Deletion.Destroyed.{says_deleted, Sound, check_target-Sound}

-- Where the answer is that the subject is deleted after a transfer, no room is open in it.
abbrev pub IsEmptied : Subject → Result Answer × State → Type 0
IsEmptied subject (ok (deleted y), s) = (id : ℕ) → opens subject id s.db ≡ false
IsEmptied subject _ = Unit

not_open : (f a : Bool) → f ≡ false → (f || not a) ≡ true → a ≡ false
not_open true a e h = absurd (ground (arith, e))
not_open false true e h = absurd (ground (arith, h))
not_open false false e h = refl

delete-db : (subject : Subject) (s : State) → (delete subject s).db ≡ s.db
unfolding delete
delete-db (a_queue q) s = refl
delete-db (a_sector c) s = refl

module _ (o : Outside) (world : ℕ → Turn) (close_size size : ℕ) (subject : Subject) where
  removed-db : (code : ℕ) (s : State) → (removed o world close_size size subject code s).1.db ≡ s.db
  removed-db code s = of_bool (not o.use_weni_flows || accepts subject code)
    where
      of_bool :
          (b : Bool)
          → let x : Result Done × State =
              if b then (ok tt, delete subject s) else (err api_exception, s) in
            x.1.db ≡ s.db
      of_bool true = delete-db subject s
      of_bool false = refl

  perform_destroy-db :
      (r : Request) (s : State)
      → r.end_all_chats ≡ false
      → (perform_destroy o world close_size size subject r s).1.db ≡ s.db
  unfolding perform_destroy
  perform_destroy-db r s e = rw e (removed-db r.flows_status s)

  ended :
      (result : Option BulkResult) (s : State) (x : Result Done × State)
      → ((id : ℕ) → opens subject id x.1.db ≡ false)
      → IsEmptied subject (then_do x (λ _ s'. (ok (deleted (summary_of result)), s')))
  ended result s (ok a, s') h = h
  ended result s (err e, s') h = tt

  failed_end :
      (result : Option BulkResult) (s : State) → IsEmptied subject (ok (failed_answer result), s)
  failed_end none s = tt
  failed_end (some y) s = tt

  after_transfer-IsEmptied :
      (r : Request) (result : Option BulkResult) (s : State)
      → r.end_all_chats ≡ false
      → ((id : ℕ) → (has_failed result || not (opens subject id s.db)) ≡ true)
      → IsEmptied subject (after_transfer o world close_size size subject r result s)
  after_transfer-IsEmptied r result s e h = elim (Bool-cases (has_failed result)) [
    | inl some_failed ↦ rw some_failed (failed_end result s)
    | inr all_moved ↦ rw all_moved (
        ended result s (perform_destroy o world close_size size subject r s) (λ id.
          ap (λ (d : Db). opens subject id d) (perform_destroy-db r s e)
          ∙ not_open (has_failed result) (opens subject id s.db) all_moved (h id)))
  ]

module _ (o : Outside) (world : ℕ → Turn) (close_size size : ℕ) (subject : Subject) where
  module _ (celery : o.use_celery ≡ true)
      (quiet : (n : ℕ) (db : Db) → (world n).others db ≡ db) where
    transferred-IsEmptied :
        (r : Request) (s : State) (target : Queue) (out : contains_queue subject target ≡ false)
        (x : Result (Option BulkResult) × Db)
        → r.end_all_chats ≡ false
        → NoneLeft o r target subject out celery world quiet close_size size x
        → IsEmptied subject
            (then_do (with_db s x) (after_transfer o world close_size size subject r))
    transferred-IsEmptied r s target out (ok result, db) e h =
        after_transfer-IsEmptied o world close_size size subject r result (record s { db = db }) e h
    transferred-IsEmptied r s target out (err x, db) e h = tt

    refused-IsEmptied :
        (answer : Answer) (s : State)
        → says_deleted (ok answer) ≡ false
        → IsEmptied subject (ok answer, s)
    refused-IsEmptied (deleted y) s h = absurd (ground (arith, h))
    refused-IsEmptied both_given s h = tt
    refused-IsEmptied target_not_found s h = tt
    refused-IsEmptied target_in_subject s h = tt
    refused-IsEmptied target_in_other_project s h = tt
    refused-IsEmptied (transfer_failed y) s h = tt
    refused-IsEmptied no_content s h = tt

    checked-IsEmptied :
        (r : Request) (s : State) (c : Checked)
        → r.end_all_chats ≡ false
        → Sound o world close_size size subject c
        → IsEmptied subject (to_target o world close_size size subject r c s)
    checked-IsEmptied r s (accepted q) e out =
        transferred-IsEmptied r s q out _ e
          (transfer_active-NoneLeft o r q subject out celery world quiet close_size size s.db)
    checked-IsEmptied r s (refused answer) e h = refused-IsEmptied answer s h

    kept_content :
        (s : State) (x : Result Done × State)
        → IsEmptied subject (then_do x (λ _ s'. (ok no_content, s')))
    kept_content s (ok a, s') = tt
    kept_content s (err e, s') = tt

    destroy_with-IsEmptied :
        (r : Request) (target : Option ℕ) (end_all : Bool) (s : State)
        → r.end_all_chats ≡ end_all
        → IsEmptied subject (destroy_with o world close_size size subject r target end_all s)
    destroy_with-IsEmptied r (some uuid) true s e = tt
    destroy_with-IsEmptied r (some uuid) false s e = checked-IsEmptied r s _ e (
        check_target-Sound o world close_size size subject
          (find_first (λ q. q.uuid == uuid) s.queues))
    destroy_with-IsEmptied r none end_all s e =
        kept_content s (perform_destroy o world close_size size subject r s)

    -- After a request that deletes a queue or a sector and transfers its rooms, no room is open in
    -- it, provided that celery runs the routing tasks and nothing else is written meanwhile.
    pub destroy-IsEmptied :
        (r : Request) (s : State) → IsEmptied subject (destroy o world close_size size subject r s)
    unfolding destroy
    destroy-IsEmptied r s = destroy_with-IsEmptied r r.transfer_to_queue r.end_all_chats s refl
