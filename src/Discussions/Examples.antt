-- ===== src/Discussions/Examples.antt =====
-- Tests of discussions, and their theorems at a discussion of two agents.
use chats_engine.Prelude.{
  ℕ, ◌≡◌, ◌≤◌, ◌↔◌, refl, true, false, ◌||◌, none, some, [], ◌∷◌, suc, ltb, leb, ◌==◌, length, All,
}
use chats_engine.Discussions.{
  Permission, DiscussionUser, Discussion, State, Env, Request, Table, done, failed, is_manager,
  get_permission, validation_error, attribute_error, outside_project, conflict, add_user, create,
  execute, create_discussion_user, create_discussion_message, check_queued, is_added_user,
  can_retrieve, is_admin_manager_or_creator, may_add_agents, of_queue, of_permission, updated,
  message_created, created, text_added,
}
use chats_engine.Discussions.Acting.{waits}
use chats_engine.Discussions.Open.{open_in, here, next, creates, Reach-one_open}
use chats_engine.Discussions.Adding.{is_by_manager, add_user-joins, add_user-at_limit}

abbrev agent : ℕ → ℕ → Permission
agent pk user = record {
  pk = pk;
  user = user;
  project = 7;
  role = 2;
  has_sector_authorizations = false;
}

-- The three agents of a project, of whom two may discuss.
abbrev env : Env
env = record {
  permissions = agent 1 21 ∷ agent 2 22 ∷ agent 3 23 ∷ [];
  users = 21 ∷ 22 ∷ 23 ∷ [];
  agents_limit = 2;
}

abbrev request : Request
request = record {
  room = 30;
  room_project = 7;
  queue = 100;
  queue_project = 7;
  initial_message = 9;
}

abbrev empty : Table
empty = record { discussions = []; sent = [] }

abbrev creator : DiscussionUser
creator = record { permission = agent 1 21; role = 0 }

abbrev joined : DiscussionUser
joined = record { permission = agent 2 22; role = 2 }

abbrev begun : Discussion
begun = record {
  created_by = 21;
  room = 30;
  queue = 100;
  project = 7;
  is_queued = true;
  is_active = true;
  added_users = creator ∷ [];
  messages = record { user = some 21; text = 9 } ∷ record { user = none; text = 2 } ∷ [];
}

abbrev first : Table
first = record {
  discussions = begun ∷ [];
  sent = (of_queue 100, created) ∷ (of_permission 1, updated) ∷ [];
}

started : create env request 21 empty ≡ (none, first)
unfolding create execute create_discussion_user create_discussion_message check_queued
started = refl

-- A second discussion about the room, and one in a queue of another project.
refused : create env request 22 first ≡ (some conflict, first)
unfolding create
refused = refl

outside : create env (record request { queue_project = 8 }) 21 empty ≡ (some outside_project, empty)
unfolding create execute
outside = refl

Reach-one_open_example :
    All (λ d. d.is_queued ≡ waits d) (create env request 21 empty).1.discussions
    × ((room : ℕ) → open_in room (create env request 21 empty).1.discussions ≤ 1)
Reach-one_open_example = Reach-one_open (next here (creates request 21))

abbrev state : State
state = record { discussion = begun; sent = [] }

-- Joining takes the discussion out of its queue, and the message goes to both users.
abbrev both : State
both = record {
  discussion = record begun {
    is_queued = false;
    added_users = joined ∷ creator ∷ [];
    messages = record { user = none; text = text_added } ∷ begun.messages;
  };
  sent =
      (of_permission 2, message_created)
      ∷ (of_permission 1, message_created)
      ∷ (of_permission 2, updated)
      ∷ (of_queue 100, updated)
      ∷ [];
}

joins : add_user env 22 21 state ≡ done joined both
unfolding add_user create_discussion_user check_queued create_discussion_message
joins = refl

add_user-joins_example :
    (length both.discussion.added_users ≡ suc (length state.discussion.added_users))
    × (is_added_user 22 both.discussion ≡ true)
    × ((is_by_manager (get_permission env 7 21)
          || leb (length both.discussion.added_users) env.agents_limit)
        ≡ true)
    × (add_user env 22 23 both ≡ failed validation_error both)
add_user-joins_example = add_user-joins env 22 21 23 state joins

-- A third agent is one too many.
add_user-at_limit_example : (add_user env 23 21 both ≡ failed attribute_error both) ↔ (
    (is_manager (agent 1 21) || ltb (length both.discussion.added_users) env.agents_limit) ≡ false)
add_user-at_limit_example = add_user-at_limit env 23 21 both refl refl refl refl

-- Who serves the queue may see a discussion that waits and join it; then no one else may.
waiting_seen : can_retrieve env (λ q u. u == 22) 22 begun ≡ true
unfolding can_retrieve is_admin_manager_or_creator
waiting_seen = refl

self_added : may_add_agents env 22 22 begun ≡ true
unfolding may_add_agents is_admin_manager_or_creator
self_added = refl

not_another : may_add_agents env 22 23 begun ≡ false
unfolding may_add_agents is_admin_manager_or_creator
not_another = refl

too_late : may_add_agents env 23 23 both.discussion ≡ false
unfolding may_add_agents is_admin_manager_or_creator
too_late = refl
