-- ===== src/InService/Single.antt =====
-- A user has at most one active status in a project, whatever `InServiceStatusService` records
-- (chats/apps/projects/usecases/status_service.py).
use chats_engine.Prelude.{
  ℕ, ◌+◌, ◌≤◌, ◌≡◌, refl, Bool, true, false, ◌&&◌, Option, none, some, List, [], ◌∷◌, ◌++◌, map,
  arith, ◌==◌, if◌then◌else◌, find_first, count_if,
}
use chats_engine.Store.Tables.{send}
use chats_engine.Store.{
  status_logged, Effect, Project, Permission, StatusType, CustomStatus, Db, Error, Result, ok,
}
use chats_engine.InService.{
  get_or_create_status_type, is_active_of, is_in_service, has_priority_status, deactivate,
  create_status, end_status, close_status, assign_status, find_permission, room_assigned,
  end_service, room_closed, sync_agent_status, Celery, send_last,
}

pub record AtMostOne (db : Db) : Type 0 where
  pub at : (user project : ℕ) → count_if (is_active_of user project) db.statuses ≤ 1

pub count_if-append {ℓ} :
    {A : Type ℓ} (p : A → Bool) (xs ys : List A)
    → count_if p (xs ++ ys) ≡ count_if p xs + count_if p ys
count_if-append p [] ys = omega arith
count_if-append p (x ∷ xs) ys = omega (arith, count_if-append p xs ys)

-- Looking up the type of the status changes no status and no room.
pub get_or_create-statuses :
    (project : Project) (db : Db)
    → ((get_or_create_status_type project db).1.statuses ≡ db.statuses)
      × ((get_or_create_status_type project db).1.rooms ≡ db.rooms)
      × ((get_or_create_status_type project db).1.permissions ≡ db.permissions)
unfolding get_or_create_status_type
get_or_create-statuses project db = ground arith

count-deactivate :
    (user project u p : ℕ) (ss : List CustomStatus)
    → count_if (is_active_of u p) (map (deactivate user project) ss)
      ≡ (if user == u && project == p then 0 else count_if (is_active_of u p) ss)
count-deactivate user project u p [] = ground arith
count-deactivate user project u p (s ∷ ss) = ground (arith, count-deactivate user project u p ss)

create_status-AtMostOne :
    (now user : ℕ) (type : StatusType) (db : Db)
    → AtMostOne db
    → AtMostOne (create_status now user type db)
unfolding create_status
create_status-AtMostOne now user type db h = record {
  at = λ u p.
      rw
        (
          count_if-append (is_active_of u p) (map (deactivate user type.project) db.statuses) _,
          count-deactivate user type.project u p db.statuses,
        )
        (ground (arith, h.at u p));
}

count-end_status :
    (now : ℕ) (status : CustomStatus) (u p : ℕ) (ss : List CustomStatus)
    → count_if (is_active_of u p) (map (end_status now status) ss) ≤ count_if (is_active_of u p) ss
count-end_status now status u p [] = omega arith
count-end_status now status u p (s ∷ ss) = ground (arith, count-end_status now status u p ss)

close_status-AtMostOne :
    (now : ℕ) (status : CustomStatus) (db : Db)
    → AtMostOne db
    → AtMostOne (close_status now status db)
unfolding close_status
close_status-AtMostOne now status db h = record {
  at = λ u p. omega (arith, count-end_status now status u p db.statuses, h.at u p);
}

-- The invariant reads the statuses alone.
AtMostOne-cong : (db db' : Db) → db'.statuses ≡ db.statuses → AtMostOne db → AtMostOne db'
AtMostOne-cong db db' e h = record { at = λ u p. rw e (h.at u p) }

if-AtMostOne : (b : Bool) (x y : Db) → AtMostOne x → AtMostOne y → AtMostOne (if b then x else y)
if-AtMostOne true x y hx hy = hx
if-AtMostOne false x y hx hy = hy

-- Nor does the question for another active status.
pub has_priority-statuses :
    (user : ℕ) (project : Project) (db : Db)
    → ((has_priority_status user project db).1.statuses ≡ db.statuses)
      × ((has_priority_status user project db).1.rooms ≡ db.rooms)
unfolding has_priority_status
has_priority-statuses user project db = let e = get_or_create-statuses project db in (e.0, e.1)

module _ (now user : ℕ) (project : Project) (db : Db) where
  abbrev typed : Db
  typed = (get_or_create_status_type project db).1

  abbrev asked : Db
  asked = (has_priority_status user project typed).1

  typed-AtMostOne : AtMostOne db → AtMostOne typed
  typed-AtMostOne = AtMostOne-cong db typed (get_or_create-statuses project db).0

  asked-AtMostOne : AtMostOne db → AtMostOne asked
  asked-AtMostOne h =
      AtMostOne-cong typed asked (has_priority-statuses user project typed).0 (typed-AtMostOne h)

  create_sent-AtMostOne :
      (type : StatusType)
      → AtMostOne asked
      → AtMostOne (
          send
            (status_logged user project.uuid "OFFLINE" (some type.name))
            (create_status now user type asked))
  create_sent-AtMostOne type h =
      AtMostOne-cong (create_status now user type asked) _ refl
        (create_status-AtMostOne now user type asked h)

  assign_status-AtMostOne :
      (permission : Permission)
      → AtMostOne db
      → AtMostOne (assign_status now user project permission db)
  unfolding assign_status
  assign_status-AtMostOne permission h =
      if-AtMostOne _ _ _
        (create_sent-AtMostOne (get_or_create_status_type project db).0 (asked-AtMostOne h))
        (asked-AtMostOne h)

  close_found-AtMostOne :
      (x : Db) (o : Option CustomStatus)
      → AtMostOne x
      → AtMostOne (elim o [ none ↦ x | some s ↦ close_status now s x ])
  close_found-AtMostOne x none h = h
  close_found-AtMostOne x (some s) h = close_status-AtMostOne now s x h

  sent_last-AtMostOne :
      (o : Option Error) (e : Effect) (x : Db)
      → AtMostOne db
      → AtMostOne x
      → AtMostOne (send_last o e db x).1
  sent_last-AtMostOne none e x h k = AtMostOne-cong x _ refl k
  sent_last-AtMostOne (some y) e x h k = h

  module _ (celery : Celery) where
    abbrev logged : Effect
    logged = status_logged user project.uuid "ONLINE" none

    send_found-AtMostOne :
        (x : Db) (o : Option CustomStatus)
        → AtMostOne db
        → AtMostOne x
        → AtMostOne (
            let s : Result (Unit {0}) × Db = elim o [
              | none ↦ (ok tt, x)
              | some status ↦
                  let ended = close_status now status x in
                  send_last (celery logged ended) logged db ended
            ] in
            s.1)
    send_found-AtMostOne x none h k = k
    send_found-AtMostOne x (some s) h k =
        let ended = close_status now s x in
        sent_last-AtMostOne (celery logged ended) logged ended h (close_status-AtMostOne now s x k)

    if_run-AtMostOne :
        (b : Bool) (x y : Result (Unit {0}) × Db)
        → AtMostOne x.1
        → AtMostOne y.1
        → AtMostOne (if b then x else y).1
    if_run-AtMostOne true x y h k = h
    if_run-AtMostOne false x y h k = k

    end_service-AtMostOne : AtMostOne db → AtMostOne (end_service celery now user project db).1
    unfolding end_service
    end_service-AtMostOne h =
        if_run-AtMostOne _ _ _
          (send_found-AtMostOne typed
            (find_first (is_in_service user project.uuid (get_or_create_status_type project db).0)
              typed.statuses)
            h (typed-AtMostOne h))
          (typed-AtMostOne h)

  -- Synchronizing an agent keeps at most one active status for each user and project.
  sync_agent_status-AtMostOne : AtMostOne db → AtMostOne (sync_agent_status now user project db)
  unfolding sync_agent_status
  sync_agent_status-AtMostOne h =
      if-AtMostOne _ _ _ (create_status-AtMostOne now user _ asked (asked-AtMostOne h)) (
        if-AtMostOne _ _ _
          (close_found-AtMostOne asked
            (find_first (is_in_service user project.uuid (get_or_create_status_type project db).0)
              asked.statuses)
            (asked-AtMostOne h))
          (asked-AtMostOne h))

assign_found-AtMostOne :
    (now user : ℕ) (project : Project) (o : Option Permission) (db : Db)
    → AtMostOne db
    → AtMostOne (elim o [ none ↦ db | some p ↦ assign_status now user project p db ])
assign_found-AtMostOne now user project none db h = h
assign_found-AtMostOne now user project (some p) db h =
    assign_status-AtMostOne now user project db p h

room_assigned-AtMostOne :
    (now : ℕ) (user : Option ℕ) (project : Option Project) (db : Db)
    → AtMostOne db
    → AtMostOne (room_assigned now user project db)
unfolding room_assigned
room_assigned-AtMostOne now none project db h = h
room_assigned-AtMostOne now (some user) none db h = h
room_assigned-AtMostOne now (some user) (some project) db h =
    assign_found-AtMostOne now user project (find_permission user project.uuid db.permissions) db h

room_closed-AtMostOne :
    (celery : Celery) (now : ℕ) (user : Option ℕ) (project : Option Project) (db : Db)
    → AtMostOne db
    → AtMostOne (room_closed celery now user project db).1
unfolding room_closed
room_closed-AtMostOne celery now none project db h = h
room_closed-AtMostOne celery now (some user) none db h = h
room_closed-AtMostOne celery now (some user) (some project) db h =
    end_service-AtMostOne now user project db celery h

-- Assigning a room, closing one, whether or not its last task can be sent, and synchronizing an agent
-- keep at most one active status for each user and project.
pub service-AtMostOne :
    (celery : Celery) (now : ℕ) (user : Option ℕ) (project : Option Project) (agent : ℕ)
    (of : Project) (db : Db)
    → AtMostOne db
    → AtMostOne (room_assigned now user project db)
      × AtMostOne (room_closed celery now user project db).1
      × AtMostOne (sync_agent_status now agent of db)
service-AtMostOne celery now user project agent of db h = (
  room_assigned-AtMostOne now user project db h,
  room_closed-AtMostOne celery now user project db h,
  sync_agent_status-AtMostOne now agent of db h,
)
