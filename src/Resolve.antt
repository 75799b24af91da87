-- ===== src/Resolve.antt =====
-- chats/apps/rooms/usecases/resolve_room_user.py, ResolveRoomUserUseCase: who a new room goes to,
-- with `start_queue_priority_routing` (chats/apps/queues/utils.py).
pub mod Fairness
mod Examples
use chats_engine.Prelude.{
  ℕ, ◌<◌, Bool, true, false, not, ◌&&◌, ◌||◌, Option, none, some, List, [], ◌∷◌, ltb, ◌==◌,
  if◌then◌else◌, is_some, same, count_if, any, find_first,
}
use chats_engine.Store.{
  Project, Queue, Permission, Room, Effect, routing_task, Db, Error, attribute_error, Result, ok,
  err,
}
use chats_engine.Store.Tables.{in_project, in_queue, send}
use chats_engine.InService.{is_online, find_permission}
use chats_engine.Queues.{Env, get_available_agent, AgentCapacityResult, execute}
use chats_engine.Queues.Router.{Turn, is_queued}

-- chats/apps/projects/models/models.py, FlowStart and LinkContact.
pub record FlowStart : Type 0 where
  pub permission : Option Permission
  pub created_on : ℕ

pub record LinkContact : Type 0 where
  pub contact : ℕ
  pub project : ℕ
  pub user : Option ℕ

-- `run` is `route_queue_rooms`, called in place where celery is not used.
unfoldable pub start_queue_priority_routing :
    Bool → (Queue → Db → Result (Unit {0}) × Db) → Queue → Db → Result (Unit {0}) × Db
start_queue_priority_routing use_celery run q db =
    if not q.sector.project.queue_priority
    then (ok tt, db)
    else if not use_celery
    then run q db
    else (ok tt, send (routing_task q.uuid) db)

-- A permission of the user in the project with the status ONLINE.
abbrev is_online_in : ℕ → Project → Db → Bool
is_online_in user project db =
    any (λ p. not p.is_deleted && p.user == user && p.project == project.uuid && is_online p.status)
      db.permissions

-- `LinkContact.is_online`, and the user.
abbrev online_link : Project → Db → Option LinkContact → Option ℕ
online_link project db none = none
online_link project db (some l) = elim l.user [
  | none ↦ none
  | some user ↦ if is_online_in user project db then some user else none
]

abbrev linked_user : ℕ → Project → List LinkContact → Db → Option ℕ
linked_user contact project links db =
    online_link project db
      (find_first (λ l. l.contact == contact && l.project == project.uuid) links)

abbrev online_user : Project → Db → Option ℕ → Option ℕ
online_user project db none = none
online_user project db (some user) = if is_online_in user project db then some user else none

module _ (env : Env) (recheck : Bool) (t : Turn) (q : Queue)
    (start : Db → Result (Unit {0}) × Db) where
  abbrev pub waiting : Db → ℕ
  waiting db = count_if (is_queued q.uuid) db.rooms

  -- `start_queue_priority_routing(self.queue); return None`
  abbrev pub started : Result (Unit {0}) × Db → Result (Option ℕ) × Db
  started (ok x, db) = (ok none, db)
  started (err e, db) = (err e, db)

  abbrev pub receive : Db → Option Permission → Result (Option ℕ) × Db → Result (Option ℕ) × Db
  receive db none refused = (ok none, db)
  receive db (some p) refused =
      if not recheck || (execute env q p.user db).can_receive
      then (ok (some p.user), db)
      else refused

  pub resolve_queue_priority : Db → Result (Option ℕ) × Db
  resolve_queue_priority db =
      if waiting db == 0
      then receive db (get_available_agent env t.now q t.draw db) (started (start db))
      else started (start db)

  pub resolve_general : Db → Result (Option ℕ) × Db
  resolve_general db =
      if any (is_queued q.uuid) db.rooms
      then (ok none, db)
      else receive db (get_available_agent env t.now q t.draw db) (ok none, db)

  abbrev pub or_route : Option ℕ → Db → Result (Option ℕ) × Db
  or_route (some user) db = (ok (some user), db)
  or_route none db =
      if q.sector.project.queue_priority then resolve_queue_priority db else resolve_general db

  abbrev pub or_else : Option ℕ → Option ℕ → Option ℕ
  or_else (some user) o = some user
  or_else none o = o

  -- The rooms of the contact in the project since the flow start.
  abbrev returned : ℕ → FlowStart → Db → Bool
  returned contact flow db =
      any
        (λ r.
          same r.contact (some contact)
          && in_project q.sector.project.uuid r.queue
          && ltb flow.created_on r.created_on)
        db.rooms

  -- The agent who started the flow, where they are online: `none` is an exception.
  abbrev pub flow_user : ℕ → Bool → Option FlowStart → Db → Option (Option ℕ)
  flow_user contact is_created none db = some none
  flow_user contact is_created (some flow) db =
      if is_created || not (returned contact flow db)
      then elim flow.permission [
        | none ↦ none
        | some p ↦ some (if is_online p.status then some p.user else none)
      ]
      else some none

  -- The user that the linked contact, and then the request, name.
  abbrev pub known_user : ℕ → Option ℕ → Bool → List LinkContact → Db → Option ℕ
  known_user contact user is_created links db =
      or_else (if is_created then none else linked_user contact q.sector.project links db)
        (online_user q.sector.project db user)

  -- The use case's project is the queue's.
  pub resolve :
      ℕ → Option ℕ → Bool → Option FlowStart → List LinkContact → Db → Result (Option ℕ) × Db
  resolve contact user is_created flow links db = elim (flow_user contact is_created flow db) [
    | none ↦ (err attribute_error, db)
    | some by_flow ↦ or_route (or_else by_flow (known_user contact user is_created links db)) db
  ]
