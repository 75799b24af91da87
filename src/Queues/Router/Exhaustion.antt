-- ===== src/Queues/Router/Exhaustion.antt =====
-- Routing goes on while there is a room and an agent (chats/apps/queues/services.py).
use chats_engine.Prelude.{
  ℕ, suc, ◌<◌, ◌≡◌, refl, ap, sym, subst, ◌∙◌, ◌⊎◌, inl, inr, Bool, true, false, ◌||◌, Option, none,
  some, List, [], ◌∷◌, ltb, ◌==◌, ==_iff, if◌then◌else◌, is_some, length, count_if, any, select,
  Bool-cases, Option-cases, arith,
}
use chats_engine.Store.{Queue, Permission, Room, Db, Error, Result, ok, err}
use chats_engine.Store.Tables.{find_room, put_room, find_room-put_room, Distinct, put_room-Distinct}
use chats_engine.Rooms.{Instance, load}
use chats_engine.Rooms.Saving.{stamped-uuid, stamped-user}
use chats_engine.Queues.{Env, is_available, available_agents, get_available_agent}
use chats_engine.Queues.Choice.{
  get_available_agent-least, get_available_agent-is_some, available_agents-some,
}
use chats_engine.Queues.Router.{
  announce, Turn, Next, go, stop, raised, db_of, follow, is_queued, date_field, assign, saved, give,
  turn, route_loop, get_rooms_to_route, route_rooms, is_empty,
}
use chats_engine.Queues.Router.Turns.{given, assign-cases, passes-available}
use chats_engine.Queues.Router.Waiting.{any-order_by, any-select, find_room-Among, none_counted}

module _ (env : Env) (q : Queue) where
  -- Every waiting room of the queue is still to come.
  record Covers (rooms : List Room) (db : Db) : Type 0 where
    keys : Distinct db.rooms
    come :
        (u : ℕ) (r : Room)
        → find_room u db.rooms ≡ some r
        → is_queued q.uuid r ≡ true
        → any (λ x. x.uuid == u) rooms ≡ true

  Covers-next :
      (room : Room) (rooms : List Room) (a b : Db)
      → Covers (room ∷ rooms) a
      → Distinct b.rooms
      → ((r : Room) → find_room room.uuid b.rooms ≡ some r → is_queued q.uuid r ≡ false)
      → ((u : ℕ) → (room.uuid == u) ≡ false → find_room u b.rooms ≡ find_room u a.rooms)
      → Covers rooms b
  Covers-next room rooms a b c keys done same_rows = record {
    keys = keys;
    come = λ u r e k. elim (Bool-cases (room.uuid == u)) [
      | inl hit ↦
          let gone =
            done r
              (subst (λ w. find_room w b.rooms ≡ some r) (sym ((==_iff room.uuid u).0 hit)) e) in
          absurd (ground (arith, gone, k))
      | inr miss ↦
          subst (λ w. (w || any (λ x. x.uuid == u) rooms) ≡ true) miss
            (c.come u r (sym (same_rows u miss) ∙ e) k)
    ];
  }

  -- After the loop: no room waits in the queue, or no agent was available at the end of a turn.
  abbrev pub Exhausted : (ℕ → Turn) → Db → Type 0
  Exhausted world db =
      (count_if (is_queued q.uuid) db.rooms ≡ 0)
      ⊎ ((n : ℕ) × (any (is_available env (world n).now q db) db.permissions ≡ false))

  Covers-none : (world : ℕ → Turn) (db : Db) → Covers [] db → Exhausted world db
  Covers-none world db c = inl (
      none_counted (is_queued q.uuid) db.rooms c.keys (λ u r e.
        elim (Bool-cases (is_queued q.uuid r)) [
          | inl k ↦ absurd (ground (arith, c.come u r e k))
          | inr k ↦ k
        ]))

  -- How a turn may end.
  data Ends (world : ℕ → Turn) (rooms : List Room) : Next → Type 0 where
    goes : {db : Db} → Covers rooms db → Ends world rooms (go db)
    stops : {db : Db} → Exhausted world db → Ends world rooms (stop db)
    raises : {e : Error} {db : Db} → Ends world rooms (raised e db)

  abbrev is_stop : Next → Bool
  is_stop (stop db) = true
  is_stop _ = false

  saved-is_stop :
      (now user : ℕ) (r : Room) (x : Result Instance × Db)
      → is_stop (saved env q now user r x) ≡ false
  saved-is_stop now user r (err e, db) = refl
  saved-is_stop now user r (ok j, db) = told j.room.queue
    where
      told :
          (o : Option Queue)
          → is_stop (announce now user (is_some r.user_assigned_at) j.room o db) ≡ false
      told none = refl
      told (some q) = refl

  assign-is_stop :
      (now user : ℕ) (r : Room) (db : Db) → is_stop (assign env q now user r db) ≡ false
  unfolding assign
  assign-is_stop now user r db = saved-is_stop now user r _

  -- The row of a room that has been given to an agent.
  module _ (room : Room) (rooms : List Room) (g : Room) (user : ℕ) (a : Db) where
    Covers-given :
        (b : Db)
        → Covers (room ∷ rooms) a
        → g.uuid ≡ room.uuid
        → g.user ≡ some user
        → b.rooms ≡ put_room g a.rooms
        → Covers rooms b
    Covers-given b c key owner e =
        Covers-next room rooms a b c (rw e (put_room-Distinct g a.rooms c.keys))
          (λ r f. served r (sym (row room.uuid) ∙ f)) (λ u miss. row u ∙ rw key (rw miss refl))
      where
        row : (u : ℕ) → find_room u b.rooms ≡ (if g.uuid == u then some g else find_room u a.rooms)
        row u = rw e (find_room-put_room u g a.rooms)

        same_row : {r : Room} → some g ≡ some r → g ≡ r
        same_row f = ground (arith, f)

        served :
            (r : Room)
            → (if g.uuid == room.uuid then some g else find_room room.uuid a.rooms) ≡ some r
            → is_queued q.uuid r ≡ false
        served r f =
            let hit : (g.uuid == room.uuid) ≡ true = (==_iff g.uuid room.uuid).1 key in
            let is : g ≡ r =
              same_row
                (subst (λ b. (if b then some g else find_room room.uuid a.rooms) ≡ some r) hit f) in
            subst (λ y. is_queued q.uuid y ≡ false) is (rw owner (ground arith))

    Ends-given :
        (world : ℕ → Turn) (x : Next)
        → Covers (room ∷ rooms) a
        → g.uuid ≡ room.uuid
        → g.user ≡ some user
        → is_stop x ≡ false
        → (db_of x).rooms ≡ put_room g a.rooms
        → Ends world rooms x
    Ends-given world (go b) c key owner s e = goes (Covers-given b c key owner e)
    Ends-given world (stop b) c key owner s e = absurd (ground (arith, s))
    Ends-given world (raised x b) c key owner s e = raises

  module _ (world : ℕ → Turn) (below : (n k : ℕ) → 0 < k → (world n).draw k < k) where
    gave :
        (n : ℕ) (room : Room) (rooms : List Room) (r : Room) (user : ℕ) (db : Db)
        → Covers (room ∷ rooms) db
        → (r.uuid == room.uuid) ≡ true
        → Ends world rooms (assign env q (world n).now user r db)
    gave n room rooms r user db c is =
        let now = (world n).now in
        let loaded = record (load r) { room = record r { user = some user } } in
        elim (assign-cases now user r db env q) [
          | inl (_, _, e, _) ↦ rw e raises
          | inr e ↦
              Ends-given room rooms (given now user r) user db world (assign env q now user r db) c
                (stamped-uuid now loaded ∙ (==_iff r.uuid room.uuid).0 is) (stamped-user now loaded)
                (assign-is_stop now user r db) e
        ]

    give-Ends :
        (n : ℕ) (room : Room) (rooms : List Room) (r : Room) (db : Db)
        → Covers (room ∷ rooms) db
        → (r.uuid == room.uuid) ≡ true
        → Ends world rooms (
            give env q
              (world n).now
              r
              db
              (get_available_agent env (world n).now q (world n).draw db))
    unfolding give
    give-Ends n room rooms r db c is =
        let t = world n in
        let some_agent = get_available_agent-is_some env t.now q t.draw db (below n) in
        elim (Option-cases (get_available_agent env t.now q t.draw db)) [
          | inl e ↦ rw (e, give) (stops (inr (n, sym some_agent ∙ ap is_some e)))
          | inr (p, e) ↦
              let (row, sound, _) = get_available_agent-least env t.now q t.draw db p e in
              rw (e, give)
                (rw (passes-available env q t.now db p row sound)
                  (gave n room rooms r p.user db c is))
        ]

    turn-Ends :
        (n : ℕ) (room : Room) (rooms : List Room) (db : Db)
        → Covers (room ∷ rooms) db
        → Ends world rooms (turn env q (world n) room db)
    unfolding turn
    turn-Ends n room rooms db c = elim (Option-cases (find_room room.uuid db.rooms)) [
      | inl e ↦ rw (e, turn) raises
      | inr (r, e) ↦
          rw (e, turn)
            (elim (Bool-cases (is_some r.user)) [
              | inl taken ↦ rw taken (
                  goes (
                    Covers-next room rooms db db c c.keys
                      (λ x f. busy x (subst (λ (o : Option Room). o ≡ some x) e f) taken)
                      (λ u miss. refl)))
              | inr free ↦
                  rw free (give-Ends n room rooms r db c (find_room-Among room.uuid r db.rooms e).1)
            ])
    ]
      where
        busy :
            {r : Room} (x : Room)
            → some r ≡ some x
            → is_some r.user ≡ true
            → is_queued q.uuid x ≡ false
        busy {r} x e taken =
            let is : r ≡ x = ground (arith, e) in
            subst (λ y. is_queued q.uuid y ≡ false) is (rw taken (ground arith))

    follow-Exhausted :
        (rooms : List Room) (x : Next) (rest : Db → Result (Unit {0}) × Db) (db' : Db)
        → Ends world rooms x
        → ((d : Db) → Covers rooms d → rest d ≡ (ok tt, db') → Exhausted world db')
        → follow x rest ≡ (ok tt, db')
        → Exhausted world db'
    follow-Exhausted rooms x rest db' (goes {db = d} c) f e = f d c e
    follow-Exhausted rooms x rest db' (stops {db = d} h) f e =
        subst (Exhausted world) (ground (arith, e)) h
    follow-Exhausted rooms x rest db' raises f e = absurd (ground (arith, e))

    loop-Exhausted :
        (quiet : (n : ℕ) (db : Db) → (world n).others db ≡ db)
        → (n : ℕ) (rooms : List Room) (db db' : Db) → Covers rooms db
        → route_loop env q world n rooms db ≡ (ok tt, db')
        → Exhausted world db'
    unfolding route_loop
    loop-Exhausted quiet n [] db db' c e =
        subst (Exhausted world) (ground (arith, e)) (Covers-none world db c)
    loop-Exhausted quiet n (room ∷ rooms) db db' c e =
        let k = subst (Covers (room ∷ rooms)) (sym (quiet n db)) c in
        follow-Exhausted rooms (turn env q (world n) room ((world n).others db))
          (λ next. route_loop env q world (suc n) rooms next) db'
          (turn-Ends n room rooms ((world n).others db) k)
          (λ d c f. loop-Exhausted quiet (suc n) rooms d db' c f) e

    fetched : (db : Db) → Distinct db.rooms → Covers (get_rooms_to_route q db) db
    unfolding get_rooms_to_route
    fetched db keys = record {
      keys = keys;
      come = λ u r e k.
          let (there, hit) = find_room-Among u r db.rooms e in
          any-order_by (λ x. x.uuid == u) date_field (select (is_queued q.uuid) db.rooms)
          ∙ any-select (λ x. x.uuid == u) (is_queued q.uuid) db.rooms there k hit;
    }

    -- Where nothing else is written meanwhile, routing that does not raise leaves no room waiting in
    -- the queue, unless no agent was available at its start or at the end of one of its turns.
    pub route_rooms-Exhausted :
        (quiet : (n : ℕ) (db : Db) → (world n).others db ≡ db)
        → (now : ℕ) (db db' : Db) → Distinct db.rooms
        → route_rooms env q world now db ≡ (ok tt, db')
        → Exhausted world db'
          ⊎ ((db' ≡ db) × (any (is_available env now q db) db.permissions ≡ false))
    unfolding route_rooms
    route_rooms-Exhausted quiet now db db' keys e =
        branch (get_rooms_to_route q db) (available_agents env now q db) (fetched db keys)
          (available_agents-some env now q (world 0).draw db) e
      where
        branch :
            (waiting : List Room) (agents : List Permission)
            → Covers waiting db
            → ltb 0 (length agents) ≡ any (is_available env now q db) db.permissions
            → (if is_empty waiting
                then (ok tt, db)
                else if is_empty agents
                then (ok tt, db)
                else route_loop env q world 0 waiting db)
              ≡ (ok tt, db')
            → Exhausted world db'
              ⊎ ((db' ≡ db) × (any (is_available env now q db) db.permissions ≡ false))
        branch [] agents c h f =
            inl (subst (Exhausted world) (ground (arith, f)) (Covers-none world db c))
        branch (w ∷ ws) [] c h f = inr (ground (arith, f), sym h)
        branch (w ∷ ws) (p ∷ ps) c h f = inl (loop-Exhausted quiet 0 (w ∷ ws) db db' c f)
