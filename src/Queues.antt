-- ===== src/Queues.antt =====
-- chats/apps/queues: the agents of a queue, the choice of one of them, and the check of their
-- capacity (models.py, usecases/can_agent_receive_room.py).
-- The feature flag service, the time zone database and the database's case-insensitive comparison
-- are parameters; an agent is their permission in the project of the queue, which is the only one.
pub mod Least
pub mod Choice
pub mod Router
mod Examples
use chats_engine.Prelude.{
  min, ℕ, zero, suc, ◌+◌, ◌-◌, ◌*◌, ◌/◌, ◌%◌, String, Bool, true, false, not, ◌&&◌, ◌||◌, Option,
  none, some, List, [], ◌∷◌, leb, ltb, ◌==◌, if◌then◌else◌, is_some, same, length, get_elem?,
  count_if, any, select, find_first,
}
use chats_engine.Store.{
  Project, Sector, Queue, QueueAuthorization, Permission, CustomStatus, Room, Db,
}
use chats_engine.Store.Tables.{in_sector, in_queue}
use chats_engine.InService.{is_online, second}

-- What is asked of other systems. A flag is `none` where asking for it raises.
pub record Env : Type 0 where
  pub ping_timeout : Option Bool
  pub agents_management : Option Bool
  pub least_closed_today : Bool
  pub capacity_recheck : Bool
  pub last_seen_threshold : ℕ
  pub iexact : String → String → Bool
  pub local_date : ℕ → ℕ

-- `try: ... except Exception: return False`
abbrev pub enabled : Option Bool → Bool
enabled none = false
enabled (some b) = b

abbrev pub limit : Sector → ℕ
limit s = elim s.group_rooms_limit [ none ↦ s.rooms_limit | some n ↦ n ]

-- `order_by`, where rows that compare equal keep their order.
module _ {ℓ} {A : Type ℓ} where
  abbrev pub insert_by : (A → ℕ) → A → List A → List A
  insert_by key p [] = p ∷ []
  insert_by key p (x ∷ xs) = if leb (key p) (key x) then p ∷ x ∷ xs else x ∷ insert_by key p xs

  abbrev pub order_by : (A → ℕ) → List A → List A
  order_by key [] = []
  order_by key (p ∷ ps) = insert_by key p (order_by key ps)

-- `min(key(agent) for agent in agents)`
abbrev pub least : (Permission → ℕ) → Permission → List Permission → ℕ
least key p [] = key p
least key p (x ∷ xs) = min (key p) (least key x xs)

-- The agents of the list whose number is the smallest.
abbrev pub eligible : (Permission → ℕ) → List Permission → List Permission
eligible key [] = []
eligible key (p ∷ ps) = select (λ x. key x == least key p ps) (p ∷ ps)

pub record AgentCapacityResult : Type 0 where
  pub can_receive : Bool
  pub active_rooms_count : ℕ
  pub limit : ℕ

module _ (q : Queue) where
  abbrev authorized : (QueueAuthorization → Bool) → Permission → Db → Bool
  authorized accepts p db =
      any (λ a. a.queue == q.uuid && a.permission == p.uuid && not a.is_deleted && accepts a)
        db.authorizations

  -- `Queue.agents`
  abbrev is_agent : Db → Permission → Bool
  is_agent db p =
      p.project == q.sector.project.uuid && not p.is_deleted && authorized (λ a. true) p db

  -- `Count("rooms", filter=rooms_count_filter)`
  abbrev pub is_active_room : ℕ → Room → Bool
  is_active_room user r = same r.user (some user) && r.is_active && in_sector q.sector.uuid r.queue

  abbrev pub active_rooms_count : ℕ → Db → ℕ
  active_rooms_count user db = count_if (is_active_room user) db.rooms

  -- `custom_limit_subquery`
  pub custom_limit : ℕ → Db → Option ℕ
  custom_limit user db =
      elim (find_first
        (λ p.
          not p.is_deleted
          && p.user == user
          && p.project == q.sector.project.uuid
          && p.is_custom_limit_active
          && is_some p.custom_rooms_limit)
        db.permissions) [ none ↦ none | some p ↦ p.custom_rooms_limit ]

  abbrev pub or_limit : Option ℕ → ℕ
  or_limit none = limit q.sector
  or_limit (some n) = n

module _ (env : Env) (q : Queue) where
  -- `custom_status_query`
  abbrev has_break : Db → Permission → Bool
  has_break db p =
      any
        (λ s.
          s.user == p.user
          && s.is_active
          && s.status_type.project == q.sector.project.uuid
          && not (env.iexact s.status_type.name "in-service"))
        db.statuses

  pub effective_limit : ℕ → Db → ℕ
  effective_limit user db =
      if enabled env.agents_management then or_limit q (custom_limit q user db) else limit q.sector

  abbrev pub has_capacity : Db → Permission → Bool
  has_capacity db p = ltb (active_rooms_count q p.user db) (effective_limit p.user db)

  -- CanAgentReceiveRoomUseCase.execute
  pub execute : ℕ → Db → AgentCapacityResult
  execute user db =
      let custom = (if enabled env.agents_management then custom_limit q user db else none) in
      let most = or_limit q custom in
      let active = active_rooms_count q user db in
      record { can_receive = ltb active most; active_rooms_count = active; limit = most }

module _ (env : Env) (now : ℕ) (q : Queue) where
  -- `last_seen >= timezone.now() - timedelta(seconds=...)`, under the flag.
  abbrev pub is_seen : Permission → Bool
  is_seen p =
      if enabled env.ping_timeout
      then elim p.last_seen [
        | none ↦ false
        | some t ↦ leb now (t + env.last_seen_threshold * second)
      ]
      else true

  abbrev pub is_online_agent : Db → Permission → Bool
  is_online_agent db p =
      is_agent q db p
      && (is_online p.status && authorized q (λ a. a.role == 1) p db && is_seen p)
      && not (has_break env q db p)

  pub online_agents : Db → List Permission
  online_agents db = select (is_online_agent db) db.permissions

  -- An agent that `available_agents` has.
  abbrev pub is_available : Db → Permission → Bool
  is_available db p = is_online_agent db p && has_capacity env q db p

  abbrev microseconds_per_day : ℕ
  microseconds_per_day = 86400 * second

  -- `rooms__ended_at__date__gte=timezone.now().date()`: the local date, and the date in UTC.
  abbrev is_closed_since_date : Room → Bool
  is_closed_since_date r = elim r.ended_at [
    | none ↦ false
    | some t ↦ leb (now / microseconds_per_day) (env.local_date t)
  ]

  abbrev active_and_day_closed_rooms : ℕ → Db → ℕ
  active_and_day_closed_rooms user db =
      count_if
        (λ r.
          same r.user (some user)
          && in_sector q.sector.uuid r.queue
          && (r.is_active || is_closed_since_date r))
        db.rooms

  -- The number that agents are ordered by.
  pub load : Db → Permission → ℕ
  load db p =
      if q.sector.project.general_routing
      then active_and_day_closed_rooms p.user db
      else active_rooms_count q p.user db

  pub available_agents : Db → List Permission
  unfolding online_agents
  available_agents db = order_by (load db) (select (has_capacity env q db) (online_agents db))

  -- The rooms of the agent that `_get_agent_with_least_rooms_closed_today` counts.
  abbrev is_closed_today : ℕ → Room → Bool
  is_closed_today user r =
      let today_start = now - now % microseconds_per_day in
      same r.user (some user)
      && in_sector q.sector.uuid r.queue
      && (elim r.ended_at [
        | none ↦ false
        | some t ↦ leb today_start t && ltb t (today_start + microseconds_per_day)
      ])
      && not r.is_active

  pub rooms_closed_today : Db → Permission → ℕ
  rooms_closed_today db p = count_if (is_closed_today p.user) db.rooms

  -- `random.choice(agents)`: `draw n` is the number below n that is drawn.
  abbrev pub choice : (ℕ → ℕ) → List Permission → Option Permission
  choice draw ps = get_elem? ps (draw (length ps))

  pub get_agent_with_least_rooms_closed_today : (ℕ → ℕ) → List Permission → Db → Option Permission
  get_agent_with_least_rooms_closed_today draw agents db =
      choice draw (eligible (rooms_closed_today db) agents)

  abbrev pub choose : (ℕ → ℕ) → List Permission → Db → Option Permission
  choose draw [] db = none
  choose draw (p ∷ []) db = some p
  choose draw agents db =
      if env.least_closed_today
      then get_agent_with_least_rooms_closed_today draw agents db
      else choice draw agents

  pub get_available_agent : (ℕ → ℕ) → Db → Option Permission
  get_available_agent draw db = choose draw (eligible (load db) (available_agents db)) db
