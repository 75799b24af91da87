-- ===== src/Bulk/Affected.antt =====
-- The queues that a batch of chats/apps/api/v1/rooms/services routes at its end.
use chats_engine.Prelude.{
  ℕ, suc, ◌+◌, ◌≤◌, ◌≡◌, refl, sym, inl, inr, Bool, true, false, ◌||◌, Option, none, some, List, [],
  ◌∷◌, ◌++◌, arith, ◌==◌, if◌then◌else◌, any, count_if, Bool-cases, subst, ==_iff,
}
use chats_engine.Store.{Queue, Room, Db, Result, ok, err}
use chats_engine.Store.Tables.{in_queue}
use chats_engine.Store.Action.{Action, bind}
use chats_engine.Queues.Router.{Turn}
use chats_engine.Bulk.{Outside}
use chats_engine.Bulk.Loop.{
  Outcome, succeeded, failed, Tally, has_queue, add_queue, add_queues, count, room_loop,
}
use chats_engine.Bulk.Frame.{Good}

abbrev pub times : ℕ → List Queue → ℕ
times uuid qs = count_if (λ x. x.uuid == uuid) qs

-- No queue is twice in the list.
abbrev Once : List Queue → Type 0
Once qs = (uuid : ℕ) → times uuid qs ≤ 1

abbrev listed : ℕ → List Queue → Bool
listed uuid qs = any (λ x. x.uuid == uuid) qs

times_end :
    (uuid : ℕ) (qs : List Queue) (q : Queue)
    → times uuid (qs ++ (q ∷ [])) ≡ times uuid qs + (if q.uuid == uuid then 1 else 0)
times_end uuid [] q = omega arith
times_end uuid (x ∷ xs) q = omega (arith, times_end uuid xs q)

listed_end :
    (uuid : ℕ) (qs : List Queue) (q : Queue)
    → listed uuid (qs ++ (q ∷ [])) ≡ listed uuid qs || q.uuid == uuid
listed_end uuid [] q = ground arith
listed_end uuid (x ∷ xs) q = ground (arith, listed_end uuid xs q)

unlisted : (uuid : ℕ) (qs : List Queue) → listed uuid qs ≡ false → times uuid qs ≡ 0
unlisted uuid [] h = refl
unlisted uuid (x ∷ xs) h = ground (arith, unlisted uuid xs)

add_queue-Once : (q : Option Queue) (qs : List Queue) → Once qs → Once (add_queue q qs)
add_queue-Once none qs h uuid = h uuid
add_queue-Once (some q) qs h uuid = elim (Bool-cases (has_queue q qs)) [
  | inl there ↦ rw there (h uuid)
  | inr new ↦
      rw (new, times_end uuid qs q)
        (elim (Bool-cases (q.uuid == uuid)) [
          | inl hit ↦
              rw
                (
                  hit,
                  unlisted uuid qs
                      (subst (λ k. listed k qs ≡ false) ((==_iff q.uuid uuid).0 hit) new),
                )
                (omega arith)
          | inr other ↦ rw other (omega (arith, h uuid))
        ])
]

or_right : (b c : Bool) → c ≡ true → b ≡ true → b ≡ b || c
or_right true c e f = refl
or_right false c e f = absurd (ground (arith, f))

or_false : (b c : Bool) → c ≡ false → b ≡ b || c
or_false true c e = refl
or_false false c e = sym e

add_queue-listed :
    (q : Option Queue) (qs : List Queue) (uuid : ℕ)
    → listed uuid (add_queue q qs) ≡ listed uuid qs || in_queue uuid q
add_queue-listed none qs uuid = or_false (listed uuid qs) false refl
add_queue-listed (some q) qs uuid = elim (Bool-cases (has_queue q qs)) [
  | inl there ↦ rw there (elim (Bool-cases (q.uuid == uuid)) [
    | inl hit ↦
        or_right (listed uuid qs) (q.uuid == uuid) hit
          (subst (λ k. listed k qs ≡ true) ((==_iff q.uuid uuid).0 hit) there)
    | inr other ↦ or_false (listed uuid qs) (q.uuid == uuid) other
  ])
  | inr new ↦ rw new (listed_end uuid qs q)
]

add_queues-Once : (new : List (Option Queue)) (qs : List Queue) → Once qs → Once (add_queues new qs)
add_queues-Once [] qs h = h
add_queues-Once (q ∷ new) qs h = add_queues-Once new (add_queue q qs) (add_queue-Once q qs h)

add_queues-listed :
    (new : List (Option Queue)) (qs : List Queue) (uuid : ℕ)
    → listed uuid (add_queues new qs) ≡ listed uuid qs || any (in_queue uuid) new
add_queues-listed [] qs uuid = or_false (listed uuid qs) false refl
add_queues-listed (q ∷ new) qs uuid =
    rw (add_queues-listed new (add_queue q qs) uuid, add_queue-listed q qs uuid)
      (assoc (listed uuid qs) (in_queue uuid q) (any (in_queue uuid) new))
  where
    assoc : (a b c : Bool) → (a || b) || c ≡ a || (b || c)
    assoc true b c = refl
    assoc false b c = refl

-- The queues that the end of a room's turn names.
abbrev named : ℕ → Outcome → Bool
named uuid (succeeded qs) = any (in_queue uuid) qs
named uuid (failed e) = false

-- Counting a room adds the queues that its success names to those that are to be routed, and none
-- twice; a failure adds none.
count-affected :
    (room : ℕ) (x : Outcome) (t : Tally)
    → Once t.affected
    → Once (count room x t).affected
      × ((uuid : ℕ)
          → listed uuid (count room x t).affected ≡ listed uuid t.affected || named uuid x)
count-affected room (succeeded qs) t h =
    (add_queues-Once qs t.affected h, λ uuid. add_queues-listed qs t.affected uuid)
count-affected room (failed e) t h = (h, λ uuid. or_false (listed uuid t.affected) false refl)

module _ (o : Outside) (one : ℕ → Room → Action Outcome) (world : ℕ → Turn) where
  bound-Once :
      (n : ℕ) (r : Room) (rs : List Room) (t : Tally) (x : Result Outcome × Db)
      → Once t.affected
      → ((x : Outcome) (db : Db)
          → Once (count r.uuid x t).affected
          → Good
              (λ (k : Tally). Once k.affected)
              (room_loop o one world (suc n) rs (count r.uuid x t) db).0)
      → Good
          (λ (k : Tally). Once k.affected)
          (bind x (λ x. room_loop o one world (suc n) rs (count r.uuid x t))).0
  bound-Once n r rs t (ok x, db) h rest = rest x db (count-affected r.uuid x t h).0
  bound-Once n r rs t (err e, db) h rest = tt

  room_loop-Once :
      (n : ℕ) (rooms : List Room) (t : Tally) (db : Db)
      → Once t.affected
      → Good (λ (k : Tally). Once k.affected) (room_loop o one world n rooms t db).0
  unfolding room_loop
  room_loop-Once n [] t db h = h
  room_loop-Once n (r ∷ rs) t db h =
      bound-Once n r rs t (one (world n).now r ((world n).others db)) h
        (λ x db' h'. room_loop-Once (suc n) rs (count r.uuid x t) db' h')
