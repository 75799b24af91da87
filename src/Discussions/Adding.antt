-- ===== src/Discussions/Adding.antt =====
-- Adding a user to a discussion (chats/apps/discussions/usecases/add_user_to_discussion.py and
-- models/discussion.py, create_discussion_user).
use chats_engine.Prelude.{
  ℕ, ◌≡◌, ◌≢◌, ◌↔◌, suc, refl, ap, sym, ◌∙◌, subst, inl, inr, Bool, true, false, ◌&&◌, ◌||◌, Option,
  none, some, List, [], ◌∷◌, arith, ltb, leb, ltb→lt, ◌==◌, length, any, find_first, Bool-cases,
  and_true,
}
use chats_engine.Discussions.{
  DiscussionUser, State, Outcome, done, failed, Env, Permission, add_user, create_discussion_user,
  create_discussion_message, is_added_user, can_add_user, is_manager, create_row, add_if_can,
  answer, get_permission, check_queued, notify, text_added, or_role, user_does_not_exist,
  not_in_project, validation_error, attribute_error, integrity_error, outside_project, conflict,
  updated, of_permission,
}

abbrev pub is_by_manager : Option Permission → Bool
is_by_manager none = false
is_by_manager (some p) = is_manager p

-- A message leaves the users.
message-users :
    (text : ℕ) (user : Option ℕ) (with_notice : Bool) (s : State)
    → s.discussion.added_users
      ≡ (create_discussion_message text user with_notice s).discussion.added_users
unfolding create_discussion_message
message-users text user true s = refl
message-users text user false s = refl

checked-users : (s : State) → s.discussion.added_users ≡ (check_queued s).discussion.added_users
unfolding check_queued
checked-users s =
    elim (Bool-cases (s.discussion.is_queued && ltb 1 (length s.discussion.added_users))) [
      | inl leaves ↦ rw leaves refl
      | inr stays ↦ rw stays refl
    ]

-- A run that adds someone.
record Joins (env : Env) (f : Option Permission) (p : Option Permission) (s s' : State)
    (a : DiscussionUser) : Type 0 where
  users : a ∷ s.discussion.added_users ≡ s'.discussion.added_users
  found : some a.permission ≡ p
  within : (is_by_manager f || ltb (length s.discussion.added_users) env.agents_limit) ≡ true

row-Joins :
    (env : Env) (f p : Permission) (role : ℕ) (s : State) {a : DiscussionUser} {s' : State}
    → can_add_user env f s.discussion ≡ true
    → create_row p role s ≡ done (some a) s'
    → Joins env (some f) (some p) s s' a
row-Joins env f p role s {a} {s'} may h =
    elim (Bool-cases (any (λ a. a.permission.pk == p.pk) s.discussion.added_users)) [
      | inl clash ↦ absurd (ground (arith, h, clash))
      | inr new ↦
          let b : DiscussionUser = record { permission = p; role = role } in
          let t : State = record s {
            discussion = record s.discussion { added_users = b ∷ s.discussion.added_users };
          } in
          let who : b ≡ a = ground (arith, h, new) in
          let left : notify updated (of_permission p.pk ∷ []) (check_queued t) ≡ s' =
            ground (arith, h, new) in
          record {
            users =
                ap (λ x. x ∷ s.discussion.added_users) (sym who)
                ∙ checked-users t
                ∙ ap (λ x. x.discussion.added_users) left;
            found = ap (λ x. some x.permission) (sym who);
            within = may;
          }
    ]

if_can-Joins :
    (env : Env) (f p : Option Permission) (role : Option ℕ) (s : State) {a : DiscussionUser}
    {s' : State}
    → add_if_can env f p role s ≡ done (some a) s'
    → Joins env f p s s' a
if_can-Joins env none p role s h = absurd (ground (arith, h))
if_can-Joins env (some f) none role s h = absurd (ground (arith, h))
if_can-Joins env (some f) (some p) role s h = elim (Bool-cases (can_add_user env f s.discussion)) [
  | inl can ↦ row-Joins env f p (or_role role p) s can (ground (arith, h, can))
  | inr full ↦ absurd (ground (arith, h, full))
]

answered :
    (o : Outcome (Option DiscussionUser)) {a : DiscussionUser} {s' : State}
    → answer o ≡ done a s'
    → (t : State) × (o ≡ done (some a) t) × (create_discussion_message text_added none true t ≡ s')
answered (failed user_does_not_exist s) h = absurd (ground (arith, h))
answered (failed not_in_project s) h = absurd (ground (arith, h))
answered (failed validation_error s) h = absurd (ground (arith, h))
answered (failed attribute_error s) h = absurd (ground (arith, h))
answered (failed integrity_error s) h = absurd (ground (arith, h))
answered (failed outside_project s) h = absurd (ground (arith, h))
answered (failed conflict s) h = absurd (ground (arith, h))
answered (done none s) h = absurd (ground (arith, h))
answered (done (some b) s) {a} h =
    let who : b ≡ a = ground (arith, h) in (s, ap (λ x. done (some x) s) who, ground (arith, h))

-- A run of the use case that succeeds.
add_user-Joins :
    (env : Env) (to_user from_user : ℕ) (s : State) {a : DiscussionUser} {s' : State}
    → add_user env to_user from_user s ≡ done a s'
    → (any (λ u. u == to_user) env.users ≡ true)
      × Joins env
          (get_permission env s.discussion.project from_user)
          (get_permission env s.discussion.project to_user)
          s
          s'
          a
unfolding add_user create_discussion_user
add_user-Joins env to_user from_user s {a} {s'} h =
    elim (Bool-cases (any (λ u. u == to_user) env.users)) [
      | inl known ↦ elim (Bool-cases (is_added_user to_user s.discussion)) [
        | inl twice ↦ absurd (ground (arith, h, known, twice))
        | inr new ↦
            let ran : answer (create_discussion_user env from_user to_user none s) ≡ done a s' =
              ground (arith, h, known, new) in
            let (t, added, told) =
              answered (create_discussion_user env from_user to_user none s) ran in
            let j =
              if_can-Joins env (get_permission env s.discussion.project from_user)
                (get_permission env s.discussion.project to_user) none s added in
            (
              known,
              record {
                users =
                    j.users
                    ∙ message-users text_added none true t
                    ∙ ap (λ x. x.discussion.added_users) told;
                found = j.found;
                within = j.within;
              },
            )
      ]
      | inr unknown ↦ absurd (ground (arith, h, unknown))
    ]

or_true : {a : Bool} (b : Bool) → a ≡ true → (a || b) ≡ true
or_true b h = rw h refl

permission_user :
    (project user : ℕ) (ps : List Permission) {p : Permission}
    → find_first (λ p. p.user == user && p.project == project) ps ≡ some p
    → (p.user == user) ≡ true
permission_user project user [] h = absurd (ground (arith, h))
permission_user project user (q ∷ ps) {p} h =
    elim (Bool-cases (q.user == user && q.project == project)) [
      | inl match ↦
          let who : q ≡ p = ground (arith, h, match) in
          subst (λ x. (x.user == user) ≡ true) who
            (and_true (q.user == user) (q.project == project) match).0
      | inr differs ↦
          let rest : find_first (λ p. p.user == user && p.project == project) ps ≡ some p =
            ground (arith, h, differs) in
          permission_user project user ps rest
    ]

within_limit :
    (b : Bool) (n limit : ℕ) {n' : ℕ}
    → n' ≡ suc n
    → (b || ltb n limit) ≡ true
    → (b || leb n' limit) ≡ true
within_limit true n limit e h = refl
within_limit false n limit e h = ground (arith, e, ltb→lt n limit h)

row_answer :
    (p : Permission) (role : ℕ) (s : State)
    → answer (create_row p role s) ≢ failed attribute_error s
row_answer p role s h =
    elim (Bool-cases (any (λ a. a.permission.pk == p.pk) s.discussion.added_users)) [
      | inl clash ↦ ground (arith, h, clash)
      | inr free ↦ ground (arith, h, free)
    ]

at_limit :
    (env : Env) (f p : Permission) (s : State)
    → (answer (add_if_can env (some f) (some p) none s) ≡ failed attribute_error s)
      ↔ (can_add_user env f s.discussion ≡ false)
at_limit env f p s = elim (Bool-cases (can_add_user env f s.discussion)) [
  | inl may ↦ rw may ((λ h. absurd (row_answer p p.role s h)), λ e. absurd (ground (arith, e)))
  | inr full ↦ rw full ((λ h. refl), λ e. refl)
]

-- If a user is added, the discussion has one user more, and this user is one of them; unless a manager
-- added them, the limit of agents is kept; and whoever asks to add the same user again is refused, which
-- changes nothing.
pub add_user-joins :
    (env : Env) (to_user from_user other : ℕ) (s : State) {a : DiscussionUser} {s' : State}
    → add_user env to_user from_user s ≡ done a s'
    → (length s'.discussion.added_users ≡ suc (length s.discussion.added_users))
      × (is_added_user to_user s'.discussion ≡ true)
      × ((is_by_manager (get_permission env s.discussion.project from_user)
            || leb (length s'.discussion.added_users) env.agents_limit)
          ≡ true)
      × (add_user env to_user other s' ≡ failed validation_error s')
unfolding add_user
add_user-joins env to_user from_user other s {a} {s'} h =
    let (known, j) = add_user-Joins env to_user from_user s h in
    let added : is_added_user to_user s'.discussion ≡ true =
      subst (λ x. any (λ b. b.permission.user == to_user) x ≡ true) j.users
        (or_true _ (permission_user s.discussion.project to_user env.permissions (sym j.found))) in
    (
      ap length (sym j.users),
      added,
      within_limit (is_by_manager (get_permission env s.discussion.project from_user))
          (length s.discussion.added_users) env.agents_limit (ap length (sym j.users)) j.within,
      rw known (rw added refl),
    )

-- Where the user exists, is not in the discussion yet and belongs to the project, as the one who asks
-- does, the request ends in an AttributeError exactly when the one who asks manages nothing and the
-- limit of agents is reached; nothing is changed then.
pub add_user-at_limit :
    (env : Env) (to_user from_user : ℕ) (s : State) {f p : Permission}
    → any (λ u. u == to_user) env.users ≡ true
    → is_added_user to_user s.discussion ≡ false
    → get_permission env s.discussion.project from_user ≡ some f
    → get_permission env s.discussion.project to_user ≡ some p
    → (add_user env to_user from_user s ≡ failed attribute_error s)
      ↔ ((is_manager f || ltb (length s.discussion.added_users) env.agents_limit) ≡ false)
unfolding add_user create_discussion_user
add_user-at_limit env to_user from_user s {f} {p} known new asks asked =
    rw known (rw new (rw asks (rw asked (at_limit env f p s))))
