-- ===== src/Bulk/Results.antt =====
-- What the results of chats/apps/api/v1/rooms/services count.
use chats_engine.Prelude.{
  ℕ, suc, ◌+◌, ◌<◌, ◌≡◌, refl, ap, ◌∙◌, subst, min, Bool, true, false, List, [], ◌∷◌, arith, ltb,
  ◌==◌, length, length-append, length-take, inl, inr, Bool-cases, map,
}
use chats_engine.Store.{Room, Db, Result, ok, err}
use chats_engine.Store.Action.{Action, bind}
use chats_engine.Queues.Router.{Turn, is_empty}
use chats_engine.Bulk.{Outside, Failure, BulkResult, no_result, add_success, add_failure, to_dict}
use chats_engine.Bulk.Batches.{range, concat, slice, range-covers}
use chats_engine.Bulk.Loop.{
  Outcome, succeeded, failed, Tally, count, room_loop, process_batch, routed, batch_loop,
  run_batches,
}

-- Every failure has its error and its room.
pub record Consistent (r : BulkResult) : Type 0 where
  pub errors : length r.errors ≡ r.failed_count
  pub failed_rooms : length r.failed_rooms ≡ r.failed_count

abbrev processed : BulkResult → ℕ
processed r = r.success_count + r.failed_count

no_result-Consistent : Consistent no_result
no_result-Consistent = record { errors = refl; failed_rooms = refl }

add_success-counts :
    (r : BulkResult)
    → Consistent r
    → Consistent (add_success r) × (processed (add_success r) ≡ processed r + 1)
unfolding add_success
add_success-counts r c = (record { errors = c.errors; failed_rooms = c.failed_rooms }, omega arith)

add_failure-counts :
    (room : ℕ) (e : Failure) (r : BulkResult)
    → Consistent r
    → Consistent (add_failure room e r) × (processed (add_failure room e r) ≡ processed r + 1)
unfolding add_failure
add_failure-counts room e r c = (
  record {
    errors = rw (length-append r.errors (e ∷ [])) (omega (arith, c.errors));
    failed_rooms = rw (length-append r.failed_rooms (room ∷ [])) (omega (arith, c.failed_rooms));
  },
  omega arith,
)

count-counts :
    (room : ℕ) (x : Outcome) (t : Tally)
    → Consistent t.result
    → Consistent (count room x t).result
      × (processed (count room x t).result ≡ processed t.result + 1)
count-counts room (succeeded qs) t c = add_success-counts t.result c
count-counts room (failed e) t c = add_failure-counts room e t.result c

-- The answer of a bulk operation whose failures have their errors: the total is the number of rooms
-- that were processed, at most ten errors and ten rooms are listed, all of them where there are no
-- more, and the flag says whether there are more.
to_dict-bounds :
    (r : BulkResult)
    → Consistent r
    → let d = to_dict r in
      (d.total_processed ≡ processed r)
      × (length d.errors ≡ min 10 d.failed_count)
      × (length d.failed_rooms ≡ min 10 d.failed_count)
      × (d.has_more_errors ≡ ltb 10 d.failed_count)
unfolding to_dict
to_dict-bounds r c = (
  refl,
  rw (length-take 10 r.errors, c.errors) refl,
  rw (length-take 10 r.failed_rooms, c.failed_rooms) refl,
  rw c.errors refl,
)

empty_length {ℓ} : {A : Type ℓ} (xs : List A) → is_empty xs ≡ true → length xs ≡ 0
empty_length [] h = refl
empty_length (x ∷ xs) h = absurd (ground (arith, h))

abbrev pub is_ok : {A : Type 0} → Result A → Bool
is_ok (ok a) = true
is_ok (err e) = false

-- The body of the loop over the rooms never raises.
abbrev Total : (ℕ → Room → Action Outcome) → Type 0
Total one = (now : ℕ) (r : Room) (db : Db) → is_ok (one now r db).0 ≡ true

-- The loop has ended with a tally of so many rooms more.
abbrev Counts : Tally → ℕ → Result Tally → Type 0
Counts t rooms x =
    (t' : Tally) × (x ≡ ok t')
    × Consistent t'.result
    × (processed t'.result ≡ processed t.result + rooms)

module _ (o : Outside) (one : ℕ → Room → Action Outcome) (world : ℕ → Turn)
    (total : Total one) where
  went_on :
      (n : ℕ) (r : Room) (rs : List Room) (t : Tally) (x : Result Outcome × Db)
      → is_ok x.0 ≡ true
      → Consistent t.result
      → ((x : Outcome) (db : Db)
          → Consistent (count r.uuid x t).result
          → Counts
              (count r.uuid x t)
              (length rs)
              (room_loop o one world (suc n) rs (count r.uuid x t) db).0)
      → Counts t
          (suc (length rs))
          (bind x (λ x. room_loop o one world (suc n) rs (count r.uuid x t))).0
  went_on n r rs t (err e, db) h c rest = absurd (ground (arith, h))
  went_on n r rs t (ok x, db) h c rest =
      let (c', more) = count-counts r.uuid x t c in
      let (t', e, c'', counted) = rest x db c' in (t', e, c'', omega (arith, counted, more))

  room_loop-Counts :
      (n : ℕ) (rooms : List Room) (t : Tally) (db : Db)
      → Consistent t.result
      → Counts t (length rooms) (room_loop o one world n rooms t db).0
  unfolding room_loop
  room_loop-Counts n [] t db c = (t, refl, c, omega arith)
  room_loop-Counts n (r ∷ rs) t db c =
      went_on n r rs t (one (world n).now r ((world n).others db)) (total _ r _) c
        (λ x db' c'. room_loop-Counts (suc n) rs (count r.uuid x t) db' c')

  -- A batch returns, with a result that counts its rooms.
  abbrev CountsRooms : BulkResult → ℕ → Result BulkResult → Type 0
  CountsRooms r rooms x =
      (r' : BulkResult) × (x ≡ ok r') × Consistent r' × (processed r' ≡ processed r + rooms)

  batch_end :
      (r : BulkResult) (rooms : ℕ) (x : Result Tally × Db)
      → Counts (record { result = r; affected = [] }) rooms x.0
      → CountsRooms r rooms (bind x (routed o one world)).0
  batch_end r rooms (ok t, db) (t', e, c, counted) =
      let same_tally : t ≡ t' = ground (arith, e) in
      (t'.result, ap (λ (k : Tally). ok k.result) same_tally, c, counted)
  batch_end r rooms (err x, db) (t', e, c, counted) = absurd (ground (arith, e))

  process_batch-counts :
      (n : ℕ) (batch : List Room) (r : BulkResult) (db : Db)
      → Consistent r
      → CountsRooms r (length batch) (process_batch o one world n batch r db).0
  unfolding process_batch
  process_batch-counts n batch r db c =
      batch_end r (length batch)
        (room_loop o one world n batch (record { result = r; affected = [] }) db)
        (room_loop-Counts n batch (record { result = r; affected = [] }) db c)

  next_batch :
      (k : BulkResult → Action BulkResult) (r : BulkResult) (rooms more : ℕ)
      (x : Result BulkResult × Db)
      → CountsRooms r rooms x.0
      → ((r' : BulkResult) (db : Db) → Consistent r' → CountsRooms r' more (k r' db).0)
      → CountsRooms r (rooms + more) (bind x k).0
  next_batch k r rooms more (ok r', db) (r1, e, c, counted) rest =
      let same_result : r' ≡ r1 = ground (arith, e) in
      let (r2, e2, c2, counted2) = rest r1 db c in
      (
        r2,
        ap (λ (z : BulkResult). (k z db).0) same_result ∙ e2,
        c2,
        omega (arith, counted, counted2),
      )
  next_batch k r rooms more (err y, db) (r1, e, c, counted) rest = absurd (ground (arith, e))

  module _ {X : Type 0} (load_batch : List X → Db → List Room) (size : ℕ) (items : List X)
      (loads : (batch : List X) (db : Db) → length (load_batch batch db) ≡ length batch) where
    abbrev joined : List ℕ → ℕ
    joined starts = length (concat (map (λ i. slice i (i + size) items) starts))

    batch_loop-counts :
        (n : ℕ) (starts : List ℕ) (r : BulkResult) (db : Db)
        → Consistent r
        → CountsRooms r
            (joined starts)
            (batch_loop o one world load_batch size items n starts r db).0
    unfolding batch_loop
    batch_loop-counts n [] r db c = (r, refl, c, omega arith)
    batch_loop-counts n (i ∷ starts) r db c =
        let batch = load_batch (slice i (i + size) items) db in
        rw
          (length-append (slice i (i + size) items)
            (concat (map (λ i. slice i (i + size) items) starts)))
          (next_batch (batch_loop o one world load_batch size items (n + length batch) starts) r
            (length (slice i (i + size) items)) (joined starts)
            (process_batch o one world n batch r db)
            (subst (λ k. CountsRooms r k (process_batch o one world n batch r db).0)
              (loads (slice i (i + size) items) db) (process_batch-counts n batch r db c))
            (λ r' db' c'. batch_loop-counts (n + length batch) starts r' db' c'))

    -- With a positive size, the batches return, with a result that counts every item.
    pub run_batches-counts :
        (db : Db)
        → 0 < size
        → CountsRooms no_result (length items) (run_batches o one world load_batch size items db).0
    unfolding run_batches
    run_batches-counts db positive = elim (Bool-cases (is_empty items)) [
      | inl nothing ↦
          rw (nothing, empty_length items nothing) (no_result, refl, no_result-Consistent, refl)
      | inr some_items ↦ elim (Bool-cases (size == 0)) [
        | inl zero_size ↦ absurd (ground (arith, zero_size, positive))
        | inr sized ↦
            rw (some_items, sized)
              (subst
                (λ k.
                  CountsRooms no_result k
                    (batch_loop o one world load_batch size items 0
                      (range (length items) 0 (length items) size) no_result db).0)
                (ap length (range-covers size positive items))
                (batch_loop-counts 0 (range (length items) 0 (length items) size) no_result db
                  no_result-Consistent))
      ]
    ]
