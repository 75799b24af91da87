-- ===== src/Bulk/Loop.antt =====
-- The loops of chats/apps/api/v1/rooms/services: over the rooms of a batch, and over the batches.
-- `one` is the body of the loop over rooms, which the services differ in.
use chats_engine.Prelude.{
  ℕ, suc, ◌+◌, Bool, Option, none, some, List, [], ◌∷◌, ◌++◌, ◌==◌, if◌then◌else◌, length, any,
  select,
}
use chats_engine.Store.{Queue, Room, Db, zero_division_error, ok, err}
use chats_engine.Store.Action.{Action, bind}
use chats_engine.Queues.Router.{Turn, is_empty}
use chats_engine.Bulk.{
  Outside, Failure, BulkResult, no_result, add_success, add_failure, route_affected,
}
use chats_engine.Bulk.Batches.{range, slice}

-- How the body ends for a room: with the queues to route afterwards, or with an error.
pub data Outcome : Type 0 where
  succeeded : List (Option Queue) → Outcome
  failed : Failure → Outcome

pub record Tally : Type 0 where
  pub result : BulkResult
  pub affected : List Queue

abbrev pub has_queue : Queue → List Queue → Bool
has_queue q qs = any (λ x. x.uuid == q.uuid) qs

-- `if queue_id: affected_queue_ids.add(queue_id)`
abbrev pub add_queue : Option Queue → List Queue → List Queue
add_queue none qs = qs
add_queue (some q) qs = if has_queue q qs then qs else qs ++ (q ∷ [])

abbrev pub add_queues : List (Option Queue) → List Queue → List Queue
add_queues [] qs = qs
add_queues (q ∷ more) qs = add_queues more (add_queue q qs)

abbrev pub count : ℕ → Outcome → Tally → Tally
count room (succeeded qs) t = record {
  result = add_success t.result;
  affected = add_queues qs t.affected;
}
count room (failed e) t = record t { result = add_failure room e t.result }

-- `Room.objects.filter(pk__in=pks)`
abbrev pub rooms_in : List ℕ → Db → List Room
rooms_in pks db = select (λ r. any (λ pk. pk == r.uuid) pks) db.rooms

module _ (o : Outside) (one : ℕ → Room → Action Outcome) (world : ℕ → Turn) where
  unfoldable pub room_loop : ℕ → List Room → Tally → Action Tally
  room_loop n [] t db = (ok t, db)
  room_loop n (r ∷ rs) t db =
      bind (one (world n).now r ((world n).others db))
        (λ x. room_loop (suc n) rs (count r.uuid x t))

  abbrev pub routed : Tally → Action BulkResult
  routed t db = (ok t.result, route_affected o t.affected db)

  unfoldable pub process_batch : ℕ → List Room → BulkResult → Action BulkResult
  process_batch n batch result db =
      bind (room_loop n batch (record { result = result; affected = [] }) db) routed

  module _ {X : Type 0} (load_batch : List X → Db → List Room) (size : ℕ) (items : List X) where
    unfoldable pub batch_loop : ℕ → List ℕ → BulkResult → Action BulkResult
    batch_loop n [] result db = (ok result, db)
    batch_loop n (i ∷ starts) result db =
        let batch = load_batch (slice i (i + size) items) db in
        bind (process_batch n batch result db) (batch_loop (n + length batch) starts)

    unfoldable pub run_batches : Action BulkResult
    run_batches db =
        if is_empty items
        then (ok no_result, db)
        else if size == 0
        then (err zero_division_error, db)
        else batch_loop 0 (range (length items) 0 (length items) size) no_result db
