-- ===== src/Deletion/Batches.antt =====
-- The bulk transfer of a deletion, over all its batches
-- (chats/apps/api/v1/queues/viewsets.py and chats/apps/api/v1/sectors/viewsets.py).
use chats_engine.Prelude.{
  ℕ, ◌+◌, ◌≡◌, refl, ap, sym, ◌∙◌, subst, inl, inr, Bool, true, false, not, ◌||◌, Option, none,
  some, List, [], ◌∷◌, ◌++◌, map, arith, ltb, ◌==◌, ==_iff, if◌then◌else◌, length, any, select,
  is_some, Bool-cases,
}
use chats_engine.Store.{Queue, Room, Db, Result, ok, err}
use chats_engine.Store.Tables.{find_room}
use chats_engine.Store.Action.{Action, bind}
use chats_engine.Queues.Router.{Turn, is_empty}
use chats_engine.Resolve.{start_queue_priority_routing}
use chats_engine.Bulk.{Outside, BulkResult, no_result, route_affected}
use chats_engine.Bulk.Batches.{range, slice, concat, range-covers}
use chats_engine.Bulk.Loop.{
  Outcome, Tally, rooms_in, room_loop, routed, process_batch, batch_loop, run_batches,
}
use chats_engine.Bulk.Frame.{Good}
use chats_engine.Deletion.{Subject, contains_queue}
use chats_engine.Deletion.Emptied.{open_row, opens, Covers, one, Left, loop-Left}

-- The rows of a batch of keys.
loaded :
    (id : ℕ) (pks : List ℕ) (rooms : List Room)
    → is_some (find_room id rooms) ≡ true
    → any (λ pk. pk == id) pks ≡ true
    → any (λ r. r.uuid == id) (select (λ r. any (λ pk. pk == r.uuid) pks) rooms) ≡ true
unfolding find_room
loaded id pks [] there asked = absurd (ground (arith, there))
loaded id pks (r ∷ rooms) there asked = elim (Bool-cases (r.uuid == id)) [
  | inl hit ↦
      rw (subst (λ k. any (λ pk. pk == k) pks ≡ true) (sym ((==_iff r.uuid id).0 hit)) asked) (
        ap (λ b. b || any (λ r. r.uuid == id) (select (λ r. any (λ pk. pk == r.uuid) pks) rooms))
          hit)
  | inr other ↦
      skipped (any (λ pk. pk == r.uuid) pks)
        (loaded id pks rooms (ground (arith, there, other)) asked)
]
  where
    skipped :
        (b : Bool)
        → any (λ r. r.uuid == id) (select (λ r. any (λ pk. pk == r.uuid) pks) rooms) ≡ true
        → any
            (λ r. r.uuid == id)
            (if b
              then r ∷ select (λ r. any (λ pk. pk == r.uuid) pks) rooms
              else select (λ r. any (λ pk. pk == r.uuid) pks) rooms)
          ≡ true
    skipped true h = elim (Bool-cases (r.uuid == id)) [ inl a ↦ rw a refl | inr a ↦ rw a h ]
    skipped false h = h

any_append :
    (id : ℕ) (xs ys : List ℕ)
    → any (λ pk. pk == id) (xs ++ ys) ≡ any (λ pk. pk == id) xs || any (λ pk. pk == id) ys
any_append id [] ys = refl
any_append id (x ∷ xs) ys = ground (arith, any_append id xs ys)

pub nil_of {ℓ} : {A : Type ℓ} (xs : List A) → is_empty xs ≡ true → xs ≡ []
nil_of [] h = refl
nil_of (x ∷ xs) h = absurd (ground (arith, h))

or_true : (b : Bool) → b || true ≡ true
or_true true = refl
or_true false = refl

exchange :
    (f open_ rows keys rest : Bool)
    → (open_ ≡ true → keys ≡ true → rows ≡ true)
    → ((f || not open_) || (keys || rest)) ≡ true
    → ((f || not open_) || (rows || rest)) ≡ true
exchange true open_ rows keys rest k h = refl
exchange false false rows keys rest k h = refl
exchange false true rows true rest k h = rw (k refl refl) refl
exchange false true rows false rest k h = rw h (or_true rows)

open_there : (subject : Subject) (o : Option Room) → open_row subject o ≡ true → is_some o ≡ true
open_there subject none h = absurd (ground (arith, h))
open_there subject (some r) h = refl

module _ (subject : Subject) where
  load-Covers :
      (batch rest : List ℕ) (f : ℕ) (db : Db)
      → Covers subject [] (batch ++ rest) f db
      → Covers subject (rooms_in batch db) rest f db
  load-Covers batch rest f db h id =
      exchange (ltb 0 f) (opens subject id db) (any (λ r. r.uuid == id) (rooms_in batch db))
        (any (λ pk. pk == id) batch) (any (λ pk. pk == id) rest)
        (λ there asked.
          loaded id batch db.rooms (open_there subject (find_room id db.rooms) there) asked)
        (subst (λ b. ((ltb 0 f || not (opens subject id db)) || b) ≡ true)
          (any_append id batch rest) (h id))

started-rooms :
    (celery : Bool) (run : Queue → Db → Result (Unit {0}) × Db) (q : Queue) (db : Db)
    → celery ≡ true
    → (start_queue_priority_routing celery run q db).1.rooms ≡ db.rooms
unfolding start_queue_priority_routing
started-rooms celery run q db e = ground (arith, e)

-- With celery, the routing at the end of a batch only sends tasks.
routed-rooms :
    (o : Outside) (qs : List Queue) (db : Db)
    → o.use_celery ≡ true
    → (route_affected o qs db).rooms ≡ db.rooms
unfolding route_affected
routed-rooms o [] db celery = refl
routed-rooms o (q ∷ qs) db celery =
    routed-rooms o qs (start_queue_priority_routing o.use_celery o.run q db).1 celery
    ∙ started-rooms o.use_celery o.run q db celery

module _ (o : Outside) (user_request : ℕ) (target : Queue) (subject : Subject)
    (out : contains_queue subject target ≡ false) (celery : o.use_celery ≡ true) (world : ℕ → Turn)
    (quiet : (n : ℕ) (db : Db) → (world n).others db ≡ db) where
  abbrev pub turn : ℕ → Room → Action Outcome
  turn = one o user_request target subject out

  abbrev pub LeftAfter : List ℕ → Result BulkResult × Db → Type 0
  LeftAfter rest (x, db) = Good (λ (r : BulkResult). Covers subject [] rest r.failed_count db) x

  batch_end :
      (rest : List ℕ) (x : Result Tally × Db)
      → Left o user_request target subject out rest x
      → LeftAfter rest (bind x (routed o turn world))
  batch_end rest (ok t, db) h =
      subst
        (λ rooms.
          (id : ℕ)
          → ((ltb 0 t.result.failed_count || not (open_row subject (find_room id rooms)))
              || any (λ pk. pk == id) rest)
            ≡ true)
        (sym (routed-rooms o t.affected db celery)) h
  batch_end rest (err e, db) h = tt

  next_batch :
      (rest : List ℕ) (k : BulkResult → Action BulkResult) (x : Result BulkResult × Db)
      → LeftAfter rest x
      → ((r : BulkResult) (db : Db)
          → Covers subject [] rest r.failed_count db
          → LeftAfter [] (k r db))
      → LeftAfter [] (bind x k)
  next_batch rest k (ok r, db) h next = next r db h
  next_batch rest k (err e, db) h next = tt

  module _ (size : ℕ) (pks : List ℕ) where
    abbrev keys : List ℕ → List ℕ
    keys starts = concat (map (λ i. slice i (i + size) pks) starts)

    batches-Left :
        (n : ℕ) (starts : List ℕ) (r : BulkResult) (db : Db)
        → Covers subject [] (keys starts) r.failed_count db
        → LeftAfter [] (batch_loop o turn world rooms_in size pks n starts r db)
    unfolding batch_loop process_batch
    batches-Left n [] r db h = h
    batches-Left n (i ∷ starts) r db h =
        let batch = rooms_in (slice i (i + size) pks) db in
        let t : Tally = record { result = r; affected = [] } in
        next_batch (keys starts)
          (batch_loop o turn world rooms_in size pks (n + length batch) starts)
          (process_batch o turn world n batch r db)
          (batch_end (keys starts) (room_loop o turn world n batch t db) (
            loop-Left o user_request target subject out world quiet n batch (keys starts) t db
              (load-Covers subject (slice i (i + size) pks) (keys starts) r.failed_count db h)))
          (λ r' db'. batches-Left (n + length batch) starts r' db')

    pub run-Left :
        (db : Db)
        → Covers subject [] pks 0 db
        → LeftAfter [] (run_batches o turn world rooms_in size pks db)
    unfolding run_batches
    run-Left db h = elim (Bool-cases (is_empty pks)) [
      | inl nothing ↦ rw nothing (subst (λ ks. Covers subject [] ks 0 db) (nil_of pks nothing) h)
      | inr some_pks ↦ elim (Bool-cases (size == 0)) [
        | inl zero_size ↦ rw (some_pks, zero_size) tt
        | inr sized ↦
            rw (some_pks, sized)
              (batches-Left 0 (range (length pks) 0 (length pks) size) no_result db (
                subst (λ ks. Covers subject [] ks 0 db)
                  (sym (range-covers size (ground (arith, sized)) pks)) h))
      ]
    ]
