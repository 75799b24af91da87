-- ===== src/Discussions/Acting.antt =====
-- What every action on a discussion keeps: adding a user, writing a message, closing it
-- (chats/apps/discussions/models/discussion.py and usecases/add_user_to_discussion.py).
use chats_engine.Prelude.{
  ℕ, ◌≡◌, suc, refl, ap, sym, ◌∙◌, inl, inr, Bool, true, false, not, ◌&&◌, Option, none, some, ◌∷◌,
  arith, ltb, ◌==◌, length, any, Bool-cases, and_true,
}
use chats_engine.Discussions.{
  Discussion, DiscussionUser, State, Outcome, done, failed, Env, Permission, add_user, close,
  create_discussion_message, create_discussion_user, check_queued, add_if_can, create_row, answer,
  get_permission, is_added_user, can_add_user, or_role, text_added, user_does_not_exist,
  not_in_project, validation_error, attribute_error, integrity_error, outside_project, conflict,
}

abbrev pub state_of : {A : Type 0} → Outcome A → State
state_of (done a s) = s
state_of (failed e s) = s

-- A discussion waits in its queue while nobody but its creator is in it.
abbrev pub waits : Discussion → Bool
waits d = not (ltb 1 (length d.added_users))

pub data Acts (env : Env) (s : State) : State → Type 0 where
  adds : (to_user from_user : ℕ) → Acts env s (state_of (add_user env to_user from_user s))
  writes :
      (text : ℕ) (user : Option ℕ) (with_notice : Bool)
      → Acts env s (create_discussion_message text user with_notice s)
  closes : Acts env s (close s)

pub record Kept (d d' : Discussion) : Type 0 where
  pub same_room : d'.room ≡ d.room
  pub stays_closed : d.is_active ≡ false → d'.is_active ≡ false
  pub keeps_waiting : d.is_queued ≡ waits d → d'.is_queued ≡ waits d'

Kept-same : (d : Discussion) → Kept d d
Kept-same d = record { same_room = refl; stays_closed = λ e. e; keeps_waiting = λ e. e }

pub Kept-message :
    (text : ℕ) (user : Option ℕ) (with_notice : Bool) (s : State)
    → Kept s.discussion (create_discussion_message text user with_notice s).discussion
unfolding create_discussion_message
Kept-message text user true s = record {
  same_room = refl;
  stays_closed = λ e. e;
  keeps_waiting = λ e. e;
}
Kept-message text user false s = record {
  same_room = refl;
  stays_closed = λ e. e;
  keeps_waiting = λ e. e;
}

Kept-close : (s : State) → Kept s.discussion (close s).discussion
unfolding close
Kept-close s = record { same_room = refl; stays_closed = λ e. refl; keeps_waiting = λ e. e }

pub Kept-trans : {a b c : Discussion} → Kept a b → Kept b c → Kept a c
Kept-trans f g = record {
  same_room = g.same_room ∙ f.same_room;
  stays_closed = λ e. g.stays_closed (f.stays_closed e);
  keeps_waiting = λ e. g.keeps_waiting (f.keeps_waiting e);
}

leaves_queue : (q l : Bool) → (q && l) ≡ true → false ≡ not l
leaves_queue q l h = let (first, second) = and_true q l h in ap not (sym second)

stays_put :
    (q : Bool) (n : ℕ) → (q && ltb 1 (suc n)) ≡ false → q ≡ not (ltb 1 n) → q ≡ not (ltb 1 (suc n))
stays_put true n h k = ap not (sym h)
stays_put false n h k = ground (arith, k)

-- A discussion with one more user, that is checked.
Kept-joined :
    (a : DiscussionUser) (s : State)
    → Kept s.discussion
        (check_queued (record s {
          discussion = record s.discussion { added_users = a ∷ s.discussion.added_users };
        })).discussion
unfolding check_queued
Kept-joined a s =
    elim (Bool-cases (s.discussion.is_queued && ltb 1 (suc (length s.discussion.added_users)))) [
      | inl leaves ↦ rw leaves (record {
        same_room = refl;
        stays_closed = λ e. e;
        keeps_waiting = λ e.
            leaves_queue s.discussion.is_queued (ltb 1 (suc (length s.discussion.added_users)))
              leaves;
      })
      | inr stays ↦ rw stays (record {
        same_room = refl;
        stays_closed = λ e. e;
        keeps_waiting = stays_put s.discussion.is_queued (length s.discussion.added_users) stays;
      })
    ]

Kept-row :
    (p : Permission) (role : ℕ) (s : State)
    → Kept s.discussion (state_of (create_row p role s)).discussion
Kept-row p role s =
    elim (Bool-cases (any (λ a. a.permission.pk == p.pk) s.discussion.added_users)) [
      | inl clash ↦ rw clash (Kept-same s.discussion)
      | inr new ↦ rw new (Kept-joined (record { permission = p; role = role }) s)
    ]

Kept-add_if_can :
    (env : Env) (f p : Option Permission) (role : Option ℕ) (s : State)
    → Kept s.discussion (state_of (add_if_can env f p role s)).discussion
Kept-add_if_can env none p role s = Kept-same s.discussion
Kept-add_if_can env (some f) none role s = Kept-same s.discussion
Kept-add_if_can env (some f) (some p) role s = elim (Bool-cases (can_add_user env f s.discussion)) [
  | inl can ↦ rw can (Kept-row p (or_role role p) s)
  | inr full ↦ rw full (Kept-same s.discussion)
]

pub Kept-user :
    (env : Env) (from_user to_user : ℕ) (role : Option ℕ) (s : State)
    → Kept s.discussion (state_of (create_discussion_user env from_user to_user role s)).discussion
unfolding create_discussion_user
Kept-user env from_user to_user role s =
    Kept-add_if_can env (get_permission env s.discussion.project from_user)
      (get_permission env s.discussion.project to_user) role s

Kept-answer :
    (o : Outcome (Option DiscussionUser))
    → Kept (state_of o).discussion (state_of (answer o)).discussion
Kept-answer (failed user_does_not_exist s) = Kept-same s.discussion
Kept-answer (failed not_in_project s) = Kept-same s.discussion
Kept-answer (failed validation_error s) = Kept-same s.discussion
Kept-answer (failed attribute_error s) = Kept-same s.discussion
Kept-answer (failed integrity_error s) = Kept-same s.discussion
Kept-answer (failed outside_project s) = Kept-same s.discussion
Kept-answer (failed conflict s) = Kept-same s.discussion
Kept-answer (done none s) = Kept-same s.discussion
Kept-answer (done (some a) s) = Kept-message text_added none true s

Kept-add :
    (env : Env) (to_user from_user : ℕ) (s : State)
    → Kept s.discussion (state_of (add_user env to_user from_user s)).discussion
unfolding add_user
Kept-add env to_user from_user s = elim (Bool-cases (any (λ u. u == to_user) env.users)) [
  | inl known ↦ elim (Bool-cases (is_added_user to_user s.discussion)) [
    | inl twice ↦ rw known (rw twice (Kept-same s.discussion))
    | inr new ↦ rw known (
        rw new (
          Kept-trans (Kept-user env from_user to_user none s)
            (Kept-answer (create_discussion_user env from_user to_user none s))))
  ]
  | inr unknown ↦ rw unknown (Kept-same s.discussion)
]

pub Kept-Acts : {env : Env} {s s' : State} → Acts env s s' → Kept s.discussion s'.discussion
Kept-Acts {env} {s} (adds to_user from_user) = Kept-add env to_user from_user s
Kept-Acts {env} {s} (writes text user with_notice) = Kept-message text user with_notice s
Kept-Acts {env} {s} closes = Kept-close s
