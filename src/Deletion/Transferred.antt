-- ===== src/Deletion/Transferred.antt =====
-- Deleting a queue or a sector after its rooms have been transferred
-- (chats/apps/api/v1/queues/viewsets.py and chats/apps/api/v1/sectors/viewsets.py).
use chats_engine.Prelude.{
  ℕ, suc, ◌≡◌, refl, ap, sym, ◌∙◌, subst, inl, inr, Bool, true, false, not, ◌||◌, Option, none,
  some, List, [], ◌∷◌, map, arith, ltb, ◌==◌, if◌then◌else◌, length, any, select, Bool-cases,
}
use chats_engine.Store.{Queue, Room, Db, Result, ok, err}
use chats_engine.Store.Tables.{find_room}
use chats_engine.Queues.Router.{Turn, is_empty}
use chats_engine.Bulk.{Outside, BulkResult, no_result, Failure}
use chats_engine.Bulk.Frame.{Good}
use chats_engine.Bulk.Transfer.{transfer, fail_all, refuse_or, check_validations}
use chats_engine.Bulk.Transfer.Validation.{fail_all-fails}
use chats_engine.Deletion.{
  Subject, open_in, contains_queue, Request, as_some, transfer_active_rooms, active_rooms,
  has_failed,
}
use chats_engine.Deletion.Emptied.{open_row, opens, Covers}
use chats_engine.Deletion.Batches.{nil_of, LeftAfter, run-Left}

-- An open room is among the keys of the query set.
active_keys :
    (subject : Subject) (id : ℕ) (rooms : List Room)
    → open_row subject (find_room id rooms) ≡ true
    → any (λ pk. pk == id) (map (λ r. r.uuid) (select (open_in subject) rooms)) ≡ true
unfolding find_room
active_keys subject id [] h = h
active_keys subject id (r ∷ rooms) h = elim (Bool-cases (r.uuid == id)) [
  | inl hit ↦
      let is_open : open_in subject r ≡ true = sym (here hit) ∙ h in
      rw is_open (ap (λ b. b || any (λ pk. pk == id) rest) hit)
  | inr other ↦
      skipped (open_in subject r) other (active_keys subject id rooms (sym (here other) ∙ h))
]
  where
    rest : List ℕ
    rest = map (λ r. r.uuid) (select (open_in subject) rooms)

    here :
        {b : Bool}
        → (r.uuid == id) ≡ b
        → open_row subject (if r.uuid == id then some r else find_room id rooms)
          ≡ open_row subject (if b then some r else find_room id rooms)
    here e = ap (λ b. open_row subject (if b then some r else find_room id rooms)) e

    skipped :
        (b : Bool)
        → (r.uuid == id) ≡ false
        → any (λ pk. pk == id) rest ≡ true
        → any
            (λ pk. pk == id)
            (map
              (λ r. r.uuid)
              (if b then r ∷ select (open_in subject) rooms else select (open_in subject) rooms))
          ≡ true
    skipped true other k = ap (λ b. b || any (λ pk. pk == id) rest) other ∙ k
    skipped false other k = k

start-Covers :
    (subject : Subject) (db : Db)
    → Covers subject [] (map (λ r. r.uuid) (select (open_in subject) db.rooms)) 0 db
start-Covers subject db id = implied (opens subject id db) _ (active_keys subject id db.rooms)
  where
    implied : (a b : Bool) → (a ≡ true → b ≡ true) → ((ltb 0 0 || not a) || b) ≡ true
    implied true b k = k refl
    implied false b k = refl

any_key :
    (id : ℕ) (pks : List ℕ) (a : Bool)
    → ((ltb 0 0 || not a) || any (λ pk. pk == id) pks) ≡ true
    → ltb 0 (length pks) || not a ≡ true
any_key id [] true h = absurd (ground (arith, h))
any_key id [] false h = refl
any_key id (pk ∷ pks) a h = ground arith

length-map_uuid : (rooms : List Room) → length (map (λ r. r.uuid) rooms) ≡ length rooms
length-map_uuid [] = refl
length-map_uuid (r ∷ rooms) = ap suc (length-map_uuid rooms)

unpadded : (a b : Bool) → ((a || b) || false) ≡ true → a || b ≡ true
unpadded true b h = refl
unpadded false true h = refl
unpadded false false h = h

padded : (a b : Bool) → a || b ≡ true → ((a || b) || false) ≡ true
padded true b h = refl
padded false true h = refl
padded false false h = h

module _ (o : Outside) (r : Request) (target : Queue) (subject : Subject)
    (out : contains_queue subject target ≡ false) (celery : o.use_celery ≡ true) (world : ℕ → Turn)
    (quiet : (n : ℕ) (db : Db) → (world n).others db ≡ db) (close_size size : ℕ) where
  abbrev Emptying : Result BulkResult × Db → Type 0
  Emptying = LeftAfter o r.user target subject out celery world quiet []

  refused-Left :
      (x : Option Failure) (db : Db) (ran : Result BulkResult × Db)
      → Emptying ran
      → Emptying (refuse_or x (active_rooms subject db) ran db)
  refused-Left none db ran h = h
  refused-Left (some e) db ran h = λ id.
      let rooms = active_rooms subject db in
      let failed_all : (fail_all e rooms no_result).failed_count ≡ length rooms =
        (fail_all-fails e rooms no_result).1 ∙ omega arith in
      padded (ltb 0 (fail_all e rooms no_result).failed_count) (not (opens subject id db)) (
        subst (λ n. ltb 0 n || not (opens subject id db) ≡ true)
          (length-map_uuid rooms ∙ sym failed_all)
          (any_key id (map (λ r. r.uuid) rooms) (opens subject id db) (start-Covers subject db id)))

  transfer-Left :
      (db : Db)
      → Emptying (transfer o world size [] (active_rooms subject db) r.user none (some target) db)
  unfolding transfer
  transfer-Left db =
      let rooms = active_rooms subject db in
      refused-Left (check_validations [] rooms none (some target) db) db _ (
        run-Left o r.user target subject out celery world quiet size (map (λ r. r.uuid) rooms) db
          (start-Covers subject db))

  -- Where the transfer ends without a failure, no open room is left.
  abbrev pub NoneLeft : Result (Option BulkResult) × Db → Type 0
  NoneLeft (x, db) =
      Good
        (λ (y : Option BulkResult). (id : ℕ) → (has_failed y || not (opens subject id db)) ≡ true) x

  end_some : (x : Result BulkResult × Db) → Emptying x → NoneLeft (as_some x)
  end_some (ok y, db) h = λ id. unpadded (ltb 0 y.failed_count) (not (opens subject id db)) (h id)
  end_some (err e, db) h = tt

  pub transfer_active-NoneLeft :
      (db : Db) → NoneLeft (transfer_active_rooms o world close_size size subject r.user target db)
  unfolding transfer_active_rooms
  transfer_active-NoneLeft db = elim (Bool-cases (is_empty (active_rooms subject db))) [
    | inl nothing ↦ rw nothing (λ id. closed_all id (nil_of (active_rooms subject db) nothing))
    | inr some_rooms ↦ rw some_rooms (end_some _ (transfer-Left db))
  ]
    where
      closed_all :
          (id : ℕ) → active_rooms subject db ≡ [] → (false || not (opens subject id db)) ≡ true
      closed_all id e = unpadded false (not (opens subject id db)) (
          subst
            (λ (rooms : List Room).
              ((ltb 0 0 || not (opens subject id db))
                || any (λ pk. pk == id) (map (λ r. r.uuid) rooms))
              ≡ true)
            e (start-Covers subject db id))
