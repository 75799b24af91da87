-- ===== src/Resolve/Fairness.antt =====
-- Where a new room goes that no one in particular is to have
-- (chats/apps/rooms/usecases/resolve_room_user.py).
use chats_engine.Prelude.{
  ℕ, ◌≡◌, refl, ap, ◌∙◌, inl, inr, Bool, true, false, not, ◌||◌, Option, none, some, List, [], ◌∷◌,
  ◌==◌, if◌then◌else◌, count_if, any, Bool-cases, Option-cases, arith, and_true,
}
use chats_engine.Store.{Queue, Permission, Db, Result, ok}
use chats_engine.Queues.{Env, is_online_agent, has_capacity, get_available_agent}
use chats_engine.Queues.Choice.{get_available_agent-least, can_receive-available}
use chats_engine.Queues.Router.{Turn, is_queued}
use chats_engine.Resolve.{
  FlowStart, LinkContact, started, receive, resolve_queue_priority, resolve_general, or_route,
  flow_user, known_user, resolve,
}

count_if-any : {A : Type 0} (p : A → Bool) (xs : List A) → (count_if p xs == 0) ≡ not (any p xs)
count_if-any p [] = ground arith
count_if-any p (x ∷ xs) = ground (arith, count_if-any p xs)

abbrev pub user_of : Option Permission → Option ℕ
user_of none = none
user_of (some p) = some p.user

module _ (env : Env) (recheck : Bool) (t : Turn) (q : Queue)
    (start : Db → Result (Unit {0}) × Db) where
  receive-available :
      (db : Db) (refused : Result (Option ℕ) × Db)
      → receive env recheck t q start db (get_available_agent env t.now q t.draw db) refused
        ≡ (ok (user_of (get_available_agent env t.now q t.draw db)), db)
  receive-available db refused = elim (Option-cases (get_available_agent env t.now q t.draw db)) [
    | inl e ↦ rw e refl
    | inr (p, e) ↦
        let (_, sound, _) = get_available_agent-least env t.now q t.draw db p e in
        let (_, below) =
          and_true (is_online_agent env t.now q db p) (has_capacity env q db p) sound in
        rw e (
          rw (can_receive-available env q db p below)
            (either recheck (ok (some p.user), db) refused))
  ]
    where
      either : (b : Bool) (x y : Result (Option ℕ) × Db) → (if not b || true then x else y) ≡ x
      either true x y = refl
      either false x y = refl

  abbrev pub expected : Db → Result (Option ℕ) × Db
  expected db =
      if any (is_queued q.uuid) db.rooms
      then if q.sector.project.queue_priority
        then started env recheck t q start (start db)
        else (ok none, db)
      else (ok (user_of (get_available_agent env t.now q t.draw db)), db)

  route-expected : (db : Db) → or_route env recheck t q start none db ≡ expected db
  unfolding resolve_queue_priority resolve_general
  route-expected db = routed q.sector.project.queue_priority
    where
      routed :
          (priority : Bool)
          → (if priority
              then resolve_queue_priority env recheck t q start db
              else resolve_general env recheck t q start db)
            ≡ (if any (is_queued q.uuid) db.rooms
                then if priority then started env recheck t q start (start db) else (ok none, db)
                else (ok (user_of (get_available_agent env t.now q t.draw db)), db))
      routed true = elim (Bool-cases (any (is_queued q.uuid) db.rooms)) [
        | inl w ↦ rw w (rw (count_if-any (is_queued q.uuid) db.rooms ∙ ap not w) refl)
        | inr e ↦ rw e (
            rw (count_if-any (is_queued q.uuid) db.rooms ∙ ap not e)
              (receive-available db (started env recheck t q start (start db))))
      ]
      routed false = elim (Bool-cases (any (is_queued q.uuid) db.rooms)) [
        | inl w ↦ rw w refl
        | inr e ↦ rw e (receive-available db (ok none, db))
      ]

  -- A room that goes to no one by a flow start, a linked contact or the request goes to the agent
  -- that `get_available_agent` chooses, if the queue is empty, under either routing: the last check
  -- of the capacity never refuses them. If a room waits in the queue, the new one waits as well, and
  -- under queue priority the routing of the queue is started.
  pub resolve-fair :
      (contact : ℕ) (user : Option ℕ) (is_created : Bool) (flow : Option FlowStart)
      (links : List LinkContact) (db : Db)
      → flow_user env recheck t q start contact is_created flow db ≡ some none
      → known_user env recheck t q start contact user is_created links db ≡ none
      → resolve env recheck t q start contact user is_created flow links db ≡ expected db
  unfolding resolve
  resolve-fair contact user is_created flow links db f k =
      rw (f, resolve) (ap (λ o. or_route env recheck t q start o db) k ∙ route-expected db)
