-- ===== src/Deletion/Emptied.antt =====
-- A deletion that transfers the rooms first leaves no open room behind
-- (chats/apps/api/v1/queues/viewsets.py and chats/apps/api/v1/sectors/viewsets.py).
use chats_engine.Prelude.{
  ℕ, suc, ◌+◌, ◌≡◌, refl, ap, sym, ◌∙◌, subst, inl, inr, Bool, true, false, not, ◌&&◌, ◌||◌, Option,
  none, some, List, [], ◌∷◌, arith, ltb, ◌==◌, if◌then◌else◌, any,
}
use chats_engine.Store.{Queue, Room, Db, Result, ok, err}
use chats_engine.Store.Tables.{find_room}
use chats_engine.Store.Action.{Action, bind}
use chats_engine.Queues.Router.{Turn}
use chats_engine.Bulk.{Outside, add_success, add_failure, exception}
use chats_engine.Bulk.Loop.{Outcome, succeeded, failed, Tally, count, room_loop}
use chats_engine.Bulk.Frame.{Good}
use chats_engine.Bulk.Transfer.{transfer_one}
use chats_engine.Bulk.Transfer.Atomic.{OnlyMoved, Ends, transfer_one-atomic}
use chats_engine.Deletion.{Subject, a_queue, a_sector, open_in, contains_queue}

abbrev pub open_row : Subject → Option Room → Bool
open_row subject none = false
open_row subject (some r) = open_in subject r

-- The room is open in what is to be deleted.
abbrev pub opens : Subject → ℕ → Db → Bool
opens subject id db = open_row subject (find_room id db.rooms)

moved_out :
    (subject : Subject) (target : Queue) (row : Room)
    → contains_queue subject target ≡ false
    → row.queue ≡ some target
    → open_in subject row ≡ false
moved_out (a_queue q) target row out e = rw e (ap (λ b. b && row.is_active) out)
moved_out (a_sector c) target row out e = rw e (ap (λ b. b && row.is_active) out)

-- Some room has failed, or every room that is open is still to come: in the batch, or after it.
abbrev pub Covers : Subject → List Room → List ℕ → ℕ → Db → Type 0
Covers subject rooms rest failed_count db =
    (id : ℕ)
    → ((ltb 0 failed_count || not (opens subject id db))
        || (any (λ r. r.uuid == id) rooms || any (λ pk. pk == id) rest))
      ≡ true

-- One room less to come: it is hit, or the rows are as before.
step :
    (f before after hit others rest : Bool)
    → after ≡ (if hit then false else before)
    → ((f || not before) || ((hit || others) || rest)) ≡ true
    → ((f || not after) || (others || rest)) ≡ true
step true before after hit others rest e h = refl
step false before after true others rest e h = rw e refl
step false before after false others rest e h = rw e h

has_failed_now : (n : ℕ) (a b : Bool) → ((ltb 0 (n + 1) || a) || b) ≡ true
has_failed_now n a b = ground arith

chosen_row :
    (subject : Subject) (b : Bool) (row : Room) (o : Option Room)
    → open_in subject row ≡ false
    → open_row subject (if b then some row else o) ≡ (if b then false else open_row subject o)
chosen_row subject true row o e = e
chosen_row subject false row o e = refl

module _ (o : Outside) (user_request : ℕ) (target : Queue) (subject : Subject)
    (out : contains_queue subject target ≡ false) where
  abbrev pub one : ℕ → Room → Action Outcome
  one now = transfer_one o now user_request none (some target)

  moved_opens :
      (r : Room) (id : ℕ) (before db : Db)
      → OnlyMoved none (some target) r.uuid before db
      → opens subject id db ≡ (if r.uuid == id then false else opens subject id before)
  moved_opens r id before db (row, _, e, rows) =
      ap (open_row subject) (rows id)
      ∙ chosen_row subject (r.uuid == id) row (find_room id before.rooms)
          (moved_out subject target row out e)

  turn-Covers :
      (r : Room) (rs : List Room) (rest : List ℕ) (t : Tally) (before db : Db) (x : Outcome)
      → Ends none (some target) r before (ok x, db)
      → Covers subject (r ∷ rs) rest t.result.failed_count before
      → Covers subject rs rest (count r.uuid x t).result.failed_count db
  unfolding add_failure add_success
  turn-Covers r rs rest t before db x (inl (e, is, _)) h id =
      let same_end : x ≡ failed (exception r.uuid e) = ground (arith, is) in
      rw same_end (has_failed_now t.result.failed_count _ _)
  turn-Covers r rs rest t before db x (inr (is, only)) h id =
      let same_end : x ≡ succeeded (r.queue ∷ some target ∷ []) = ground (arith, is) in
      rw same_end (
        step (ltb 0 t.result.failed_count) (opens subject id before) (opens subject id db)
          (r.uuid == id) (any (λ r. r.uuid == id) rs) (any (λ pk. pk == id) rest)
          (moved_opens r id before db only) (h id))

  -- What a loop over a batch leaves.
  abbrev pub Left : List ℕ → Result Tally × Db → Type 0
  Left rest (x, db) = Good (λ (t : Tally). Covers subject [] rest t.result.failed_count db) x

  after_turn :
      (world : ℕ → Turn) (n : ℕ) (r : Room) (rs : List Room) (rest : List ℕ) (t : Tally)
      (before : Db) (x : Result Outcome × Db)
      → Ends none (some target) r before x
      → Covers subject (r ∷ rs) rest t.result.failed_count before
      → ((y : Outcome) (db : Db)
          → Covers subject rs rest (count r.uuid y t).result.failed_count db
          → Left rest (room_loop o one world (suc n) rs (count r.uuid y t) db))
      → Left rest (bind x (λ y. room_loop o one world (suc n) rs (count r.uuid y t)))
  after_turn world n r rs rest t before (ok y, db) ends h next =
      next y db (turn-Covers r rs rest t before db y ends h)
  after_turn world n r rs rest t before (err e, db) ends h next = tt

  pub loop-Left :
      (world : ℕ → Turn) (quiet : (n : ℕ) (db : Db) → (world n).others db ≡ db) (n : ℕ)
      (rooms : List Room) (rest : List ℕ) (t : Tally) (db : Db)
      → Covers subject rooms rest t.result.failed_count db
      → Left rest (room_loop o one world n rooms t db)
  unfolding room_loop
  loop-Left world quiet n [] rest t db h = h
  loop-Left world quiet n (r ∷ rs) rest t db h =
      let d = (world n).others db in
      after_turn world n r rs rest t d (one (world n).now r d)
        (transfer_one-atomic o (world n).now user_request none (some target) r d refl)
        (subst (λ d. Covers subject (r ∷ rs) rest t.result.failed_count d) (sym (quiet n db)) h)
        (λ y db'. loop-Left world quiet (suc n) rs rest (count r.uuid y t) db')
