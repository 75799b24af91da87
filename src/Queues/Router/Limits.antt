-- ===== src/Queues/Router/Limits.antt =====
-- Routing and the limits of the agents (chats/apps/queues/services.py).
use chats_engine.Prelude.{
  ℕ, suc, ◌+◌, ◌≤◌, ◌<◌, ◌≡◌, refl, sym, subst, ◌⊎◌, inl, inr, Bool, true, false, some, List, [],
  ◌∷◌, ltb, ◌==◌, ==_iff, if◌then◌else◌, is_some, count_if, Bool-cases, Option-cases, arith,
  and_true,
}
use chats_engine.Store.{Queue, Room, Db, Result}
use chats_engine.Store.Tables.{
  find_room, put_room, Distinct, put_room-Distinct, count_one, count_if-put_room,
}
use chats_engine.Rooms.{load}
use chats_engine.Rooms.Saving.{stamped-user}
use chats_engine.Queues.{
  Env, custom_limit, is_active_room, active_rooms_count, effective_limit, is_online_agent,
  has_capacity, available_agents, get_available_agent,
}
use chats_engine.Queues.Choice.{get_available_agent-least}
use chats_engine.Queues.Router.{
  Turn, Next, go, stop, raised, db_of, follow, assign, passes, give, turn, route_loop,
  get_rooms_to_route, route_rooms, is_empty,
}
use chats_engine.Queues.Router.Turns.{Kept, given, assign-Kept, assign-cases}

module _ (env : Env) (q : Queue) (user most : ℕ) where
  -- The user's limit and rooms, both at most `most`, and primary keys that are distinct.
  pub record Within (db : Db) : Type 0 where
    pub keys : Distinct db.rooms
    pub limit : effective_limit env q user db ≤ most
    pub rooms : active_rooms_count q user db ≤ most

  limit-Kept : (a b : Db) → Kept a b → effective_limit env q user b ≡ effective_limit env q user a
  unfolding effective_limit custom_limit
  limit-Kept a b k = rw k.permissions refl

  -- The row of a room that is found.
  found_uuid :
      (uuid : ℕ) (r : Room) (rooms : List Room) → find_room uuid rooms ≡ some r → r.uuid ≡ uuid
  unfolding find_room
  found_uuid uuid r [] e = absurd (ground (arith, e))
  found_uuid uuid r (x ∷ xs) e = elim (Bool-cases (x.uuid == uuid)) [
    | inl hit ↦ ground (arith, hit, e)
    | inr miss ↦ found_uuid uuid r xs (ground (arith, miss, e))
  ]

  -- Giving a waiting room to someone adds at most one to the rooms of the user, and none to those of
  -- anyone else.
  count-given :
      (now agent : ℕ) (r : Room) (db : Db)
      → Distinct db.rooms
      → count_if (is_active_room q user) (put_room (given now agent r) db.rooms)
        ≤ active_rooms_count q user db + (if agent == user then 1 else 0)
  count-given now agent r db keys = omega (
    arith,
    count_if-put_room (is_active_room q user) (given now agent r) db.rooms keys,
    one (given now agent r)
        (stamped-user now (record (load r) { room = record r { user = some agent } })),
  )
    where
      one :
          (g : Room)
          → g.user ≡ some agent
          → count_one (is_active_room q user) (some g) ≤ (if agent == user then 1 else 0)
      one g e = rw e (ground arith)

  abbrev Counted : ℕ → ℕ → Room → Db → Bool → Type 0
  Counted now agent r db b =
      count_if (is_active_room q user) (put_room (given now agent r) db.rooms)
      ≤ active_rooms_count q user db + (if b then 1 else 0)

  room_for :
      (now agent : ℕ) (r : Room) (db : Db)
      → ltb (active_rooms_count q agent db) (effective_limit env q agent db) ≡ true
      → Within db
      → (((agent == user) ≡ true) ⊎ ((agent == user) ≡ false))
      → count_if (is_active_room q user) (put_room (given now agent r) db.rooms) ≤ most
  room_for now agent r db below w (inl e) =
      let b : active_rooms_count q user db < effective_limit env q user db =
        subst (λ u. active_rooms_count q u db < effective_limit env q u db)
          ((==_iff agent user).0 e) (ground (arith, below)) in
      omega
        (arith, b, w.limit, subst (Counted now agent r db) e (count-given now agent r db w.keys))
  room_for now agent r db below w (inr e) =
      omega (arith, w.rooms, subst (Counted now agent r db) e (count-given now agent r db w.keys))

  -- An assignment to an agent who is below the limit keeps within it.
  assign-Within :
      (now agent : ℕ) (r : Room) (db : Db)
      → ltb (active_rooms_count q agent db) (effective_limit env q agent db) ≡ true
      → Within db
      → Within (db_of (assign env q now agent r db))
  assign-Within now agent r db below w =
      let kept = assign-Kept now agent r db env q in
      elim (assign-cases now agent r db env q) [
        | inl (_, d, e, rooms) ↦ rw e record {
          keys = subst Distinct (sym rooms) w.keys;
          limit = rw (limit-Kept db d (subst (λ n. Kept db (db_of n)) e kept)) w.limit;
          rooms = rw rooms w.rooms;
        }
        | inr rooms ↦ record {
          keys = subst Distinct (sym rooms) (put_room-Distinct (given now agent r) db.rooms w.keys);
          limit = rw (limit-Kept db _ kept) w.limit;
          rooms = rw rooms (room_for now agent r db below w (Bool-cases (agent == user)));
        }
      ]

  -- What other processes write between turns.
  pub record Quiet (world : ℕ → Turn) : Type 0 where
    pub within : (n : ℕ) (db : Db) → Within db → Within ((world n).others db)

  give-Within :
      (t : Turn) (r : Room) (db : Db)
      → Within db
      → Within (db_of (give env q t.now r db (get_available_agent env t.now q t.draw db)))
  unfolding give
  give-Within t r db w = elim (Option-cases (get_available_agent env t.now q t.draw db)) [
    | inl e ↦ rw (e, give) w
    | inr (p, e) ↦
        let (_, sound, _) = get_available_agent-least env t.now q t.draw db p e in
        let (_, below) =
          and_true (is_online_agent env t.now q db p) (has_capacity env q db p) sound in
        rw (e, give)
          (elim (Bool-cases (passes env q t.now p.user db)) [
            | inl y ↦ rw y (assign-Within t.now p.user r db below w)
            | inr n ↦ rw n w
          ])
  ]

  turn-Within :
      (t : Turn) (room : Room) (db : Db) → Within db → Within (db_of (turn env q t room db))
  unfolding turn
  turn-Within t room db w = elim (Option-cases (find_room room.uuid db.rooms)) [
    | inl e ↦ rw (e, turn) w
    | inr (r, e) ↦
        rw (e, turn)
          (elim (Bool-cases (is_some r.user)) [
            | inl taken ↦ rw taken w
            | inr free ↦ rw free (give-Within t r db w)
          ])
  ]

  follow-Within :
      (x : Next) (rest : Db → Result (Unit {0}) × Db)
      → Within (db_of x)
      → ((d : Db) → Within d → Within (rest d).1)
      → Within (follow x rest).1
  follow-Within (go d) rest w f = f d w
  follow-Within (stop d) rest w f = w
  follow-Within (raised e d) rest w f = w

  loop-Within :
      (world : ℕ → Turn) (n : ℕ) (rooms : List Room) (db : Db)
      → Quiet world
      → Within db
      → Within (route_loop env q world n rooms db).1
  unfolding route_loop
  loop-Within world n [] db quiet w = w
  loop-Within world n (room ∷ rooms) db quiet w =
      follow-Within (turn env q (world n) room ((world n).others db))
        (λ next. route_loop env q world (suc n) rooms next)
        (turn-Within (world n) room ((world n).others db) (quiet.within n db w))
        (λ d. loop-Within world (suc n) rooms d quiet)

  -- Where a user has at most `most` active rooms in the sector, and a limit of at most `most`, and
  -- what other processes write between turns keeps both, routing keeps both, whether it ends or
  -- raises.
  pub route_rooms-Within :
      (world : ℕ → Turn) (now : ℕ) (db : Db)
      → Quiet world
      → Within db
      → Within (route_rooms env q world now db).1
  unfolding route_rooms
  route_rooms-Within world now db quiet w = elim (Bool-cases (is_empty (get_rooms_to_route q db))) [
    | inl e ↦ rw e w
    | inr e ↦ rw e (elim (Bool-cases (is_empty (available_agents env now q db))) [
      | inl f ↦ rw f w
      | inr f ↦ rw f (loop-Within world 0 (get_rooms_to_route q db) db quiet w)
    ])
  ]
