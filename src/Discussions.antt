-- ===== src/Discussions.antt =====
-- Discussions between agents about a room: chats/apps/discussions/models/discussion.py with the
-- messages and users of a discussion, the use cases that create one and add a user, and who may act
-- (chats/apps/discussions/usecases and views/permissions/discussions.py). A row is kept with its
-- reverse relations; the text of a message is a number, and an email stands for its user in lower case.
pub mod Acting
pub mod Open
pub mod Adding
mod Examples
use chats_engine.Prelude.{
  ℕ, Bool, true, false, not, ◌&&◌, ◌||◌, Option, none, some, List, [], ◌∷◌, ◌++◌, map, ltb, ◌==◌,
  if◌then◌else◌, is_some, length, any, find_first,
}

-- chats/apps/projects/models/models.py, ProjectPermission. ROLE_ADMIN is 1.
pub record Permission : Type 0 where
  pub pk : ℕ
  pub user : ℕ
  pub project : ℕ
  pub role : ℕ
  pub has_sector_authorizations : Bool

-- chats/apps/discussions/models/discussion_user.py
pub record DiscussionUser : Type 0 where
  pub permission : Permission
  pub role : ℕ

-- chats/apps/discussions/models/discussion_message.py
pub record DiscussionMessage : Type 0 where
  pub user : Option ℕ
  pub text : ℕ

pub record Discussion : Type 0 where
  pub created_by : ℕ
  pub room : ℕ
  pub queue : ℕ
  pub project : ℕ
  pub is_queued : Bool
  pub is_active : Bool
  pub added_users : List DiscussionUser
  pub messages : List DiscussionMessage

pub data Group : Type 0 where
  of_queue of_permission : ℕ → Group

pub data Action : Type 0 where
  created updated closed message_created : Action

-- A discussion in memory, which every save stores, and what was sent over websockets.
pub record State : Type 0 where
  pub discussion : Discussion
  pub sent : List (Group × Action)

pub data Failure : Type 0 where
  user_does_not_exist not_in_project validation_error attribute_error : Failure
  integrity_error outside_project conflict : Failure

pub data Outcome (A : Type 0) : Type 0 where
  done : A → State → Outcome A
  failed : Failure → State → Outcome A

-- The other tables, and the setting DISCUSSION_AGENTS_LIMIT.
pub record Env : Type 0 where
  pub permissions : List Permission
  pub users : List ℕ
  pub agents_limit : ℕ

-- `is_manager(any_sector=True)`
abbrev pub is_manager : Permission → Bool
is_manager p = p.role == 1 || p.has_sector_authorizations

abbrev pub get_permission : Env → ℕ → ℕ → Option Permission
get_permission env project user =
    find_first (λ p. p.user == user && p.project == project) env.permissions

-- The groups that a discussion notifies, and `notify`.
abbrev notification_groups : Discussion → List Group
notification_groups d =
    if d.is_queued
    then of_queue d.queue ∷ []
    else map (λ a. of_permission a.permission.pk) d.added_users

abbrev pub notify : Action → List Group → State → State
notify action groups s = record s { sent = map (λ g. (g, action)) groups ++ s.sent }

pub check_queued : State → State
check_queued s =
    if s.discussion.is_queued && ltb 1 (length s.discussion.added_users)
    then notify updated (of_queue s.discussion.queue ∷ [])
        (record s { discussion = record s.discussion { is_queued = false } })
    else s

pub close : State → State
close s =
    let d = record s.discussion { is_active = false } in
    notify closed (notification_groups d) (record s { discussion = d })

abbrev pub can_add_user : Env → Permission → Discussion → Bool
can_add_user env p d = is_manager p || ltb (length d.added_users) env.agents_limit

abbrev pub is_added_user : ℕ → Discussion → Bool
is_added_user user d = any (λ a. a.permission.user == user) d.added_users

-- `None` has no `is_manager`, which is caught.
abbrev manages_or_created : Option Permission → ℕ → Discussion → Bool
manages_or_created none user d = false
manages_or_created (some p) user d = is_manager p || d.created_by == user

pub is_admin_manager_or_creator : Env → ℕ → Discussion → Bool
is_admin_manager_or_creator env user d =
    manages_or_created (get_permission env d.project user) user d

-- `serves` tells whether a user has an authorization on a queue.
pub can_retrieve : Env → (serves : ℕ → ℕ → Bool) → ℕ → Discussion → Bool
can_retrieve env serves user d =
    if is_added_user user d
    then true
    else if is_admin_manager_or_creator env user d
    then true
    else d.is_queued && serves d.queue user

-- The constraint on the permission and the discussion.
abbrev pub create_row : Permission → ℕ → State → Outcome (Option DiscussionUser)
create_row p role s =
    if any (λ a. a.permission.pk == p.pk) s.discussion.added_users
    then failed integrity_error s
    else (let a : DiscussionUser = record { permission = p; role = role } in
        done (some a) (
          notify updated (of_permission p.pk ∷ []) (
            check_queued (record s {
              discussion = record s.discussion { added_users = a ∷ s.discussion.added_users };
            }))))

abbrev pub or_role : Option ℕ → Permission → ℕ
or_role none p = p.role
or_role (some r) p = r

abbrev pub add_if_can :
    Env → Option Permission → Option Permission → Option ℕ → State → Outcome (Option DiscussionUser)
add_if_can env none to role s = failed not_in_project s
add_if_can env (some f) none role s = failed not_in_project s
add_if_can env (some f) (some p) role s =
    if can_add_user env f s.discussion then create_row p (or_role role p) s else done none s

pub create_discussion_user :
    Env → (from_user to_user : ℕ) → Option ℕ → State → Outcome (Option DiscussionUser)
create_discussion_user env from_user to_user role s =
    add_if_can env (get_permission env s.discussion.project from_user)
      (get_permission env s.discussion.project to_user) role s

-- The message of a user, or of the system where there is none.
pub create_discussion_message : ℕ → Option ℕ → Bool → State → State
create_discussion_message text user with_notice s =
    let d = record s.discussion {
      messages = record { user = user; text = text } ∷ s.discussion.messages;
    } in
    if with_notice
    then notify message_created (notification_groups d) (record s { discussion = d })
    else record s { discussion = d }

-- The text "da", with the user who is added, and the text "dc".
abbrev pub text_added : ℕ
text_added = 1

abbrev pub text_created : ℕ
text_created = 2

-- AddUserToDiscussionUseCase. Where the limit is met there is no added agent to take the name of.
abbrev pub answer : Outcome (Option DiscussionUser) → Outcome DiscussionUser
answer (failed not_in_project s) = failed validation_error s
answer (failed e s) = failed e s
answer (done none s) = failed attribute_error s
answer (done (some a) s) = done a (create_discussion_message text_added none true s)

pub add_user : Env → (to_user from_user : ℕ) → State → Outcome DiscussionUser
add_user env to_user from_user s =
    if not (any (λ u. u == to_user) env.users)
    then failed user_does_not_exist s
    else if is_added_user to_user s.discussion
    then failed validation_error s
    else answer (create_discussion_user env from_user to_user none s)

-- What a request to create a discussion holds.
pub record Request : Type 0 where
  pub room : ℕ
  pub room_project : ℕ
  pub queue : ℕ
  pub queue_project : ℕ
  pub initial_message : ℕ

abbrev pub new_discussion : Request → ℕ → Discussion
new_discussion r user = record {
  created_by = user;
  room = r.room;
  queue = r.queue;
  project = r.queue_project;
  is_queued = true;
  is_active = true;
  added_users = [];
  messages = [];
}

-- The table of discussions, with what was sent.
pub record Table : Type 0 where
  pub discussions : List Discussion
  pub sent : List (Group × Action)

abbrev pub is_open : ℕ → Discussion → Bool
is_open room d = d.room == room && d.is_active

abbrev store : State → Table → Table
store s t = record { discussions = s.discussion ∷ t.discussions; sent = s.sent }

-- Where the creator cannot be added, the discussion and its messages stay.
abbrev pub stored : Outcome (Option DiscussionUser) → Table → Option Failure × Table
stored (failed e s) t = (some e, store s t)
stored (done a s) t = (none, store (notify created (notification_groups s.discussion) s) t)

abbrev pub opened : Request → ℕ → Table → State
opened r user t = create_discussion_message r.initial_message (some user) false (
    create_discussion_message text_created none false
      (record { discussion = new_discussion r user; sent = t.sent }))

-- CreateDiscussionUseCase, under the constraint on the active discussions of a room, and the view.
pub execute : Env → Request → (created_by : ℕ) → Table → Option Failure × Table
execute env r user t =
    if not (r.queue_project == r.room_project)
    then (some outside_project, t)
    else if any (is_open r.room) t.discussions
    then (some integrity_error, t)
    else stored (create_discussion_user env user user (some 0) (opened r user t)) t

pub create : Env → Request → ℕ → Table → Option Failure × Table
create env r user t =
    if any (is_open r.room) t.discussions then (some conflict, t) else execute env r user t

-- DiscussionObjectPermissionActions.add_agents, for a user who asks to add `to_user`.
pub may_add_agents : Env → (user to_user : ℕ) → Discussion → Bool
may_add_agents env user to_user d =
    if is_admin_manager_or_creator env user d
    then true
    else if ltb (length d.added_users) 2
    then to_user == user
    else false
