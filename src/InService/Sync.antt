-- ===== src/InService/Sync.antt =====
-- `sync_agent_status` makes the In-Service status agree with the agent's open rooms
-- (chats/apps/projects/usecases/status_service.py).
use chats_engine.Prelude.{
  ℕ, ◌+◌, ◌≤◌, ◌<◌, ◌≡◌, refl, ap, ◌∙◌, inl, inr, Bool, true, false, not, ◌&&◌, Option, none, some,
  List, [], ◌∷◌, ◌++◌, map, arith, ltb, ◌==◌, ==_iff, if◌then◌else◌, is_some, find_first, count_if,
  count_if_mono, any, Bool-cases, Option-cases, eq_iff,
}
use chats_engine.Store.{Project, StatusType, CustomStatus, Db}
use chats_engine.InService.{
  is_type, status_name, get_or_create_status_type, is_active_of, is_in_service, is_priority,
  has_priority_status, room_count, deactivate, create_status, end_status, close_status,
  sync_agent_status,
}
use chats_engine.InService.Single.{
  AtMostOne, count_if-append, get_or_create-statuses, has_priority-statuses,
}

-- The type that the status has, and the active statuses of that type.
abbrev pub in_service_type : Project → Db → StatusType
in_service_type project db = (get_or_create_status_type project db).0

abbrev pub in_service_count : ℕ → Project → StatusType → Db → ℕ
in_service_count user project type db = count_if (is_in_service user project.uuid type) db.statuses

find_none-count {ℓ} :
    {A : Type ℓ} (p : A → Bool) (xs : List A) → find_first p xs ≡ none → count_if p xs ≡ 0
find_none-count p [] h = refl
find_none-count p (x ∷ xs) h = ground (arith, find_none-count p xs)

find_some-count {ℓ} :
    {A : Type ℓ} (p : A → Bool) (xs : List A) (a : A)
    → find_first p xs ≡ some a
    → (p a ≡ true) × (0 < count_if p xs)
find_some-count p [] a h = absurd (ground arith)
find_some-count p (x ∷ xs) a h = ground (arith, find_some-count p xs a)

any_none-count {ℓ} :
    {A : Type ℓ} (p : A → Bool) (xs : List A) → any p xs ≡ false → count_if p xs ≡ 0
any_none-count p [] h = refl
any_none-count p (x ∷ xs) h = ground (arith, any_none-count p xs)

find_first-append_none {ℓ} :
    {A : Type ℓ} (p : A → Bool) (xs : List A) (a : A)
    → find_first p xs ≡ none
    → find_first p (xs ++ a ∷ []) ≡ (if p a then some a else none)
find_first-append_none p [] a h = refl
find_first-append_none p (x ∷ xs) a h = ground (arith, find_first-append_none p xs a)

module _ (user project : ℕ) (type : StatusType) where
  in_service-le-active :
      (ss : List CustomStatus)
      → count_if (is_in_service user project type) ss ≤ count_if (is_active_of user project) ss
  in_service-le-active ss = count_if_mono _ _ ss λ s h. ground arith

  count-end_le :
      (now : ℕ) (s : CustomStatus) (ss : List CustomStatus)
      → count_if (is_in_service user project type) (map (end_status now s) ss)
        ≤ count_if (is_in_service user project type) ss
  count-end_le now s [] = omega arith
  count-end_le now s (x ∷ ss) = ground (arith, count-end_le now s ss)

  -- Ending the status that the query finds leaves fewer of its kind.
  count-end_found :
      (now : ℕ) (s : CustomStatus) (ss : List CustomStatus)
      → find_first (is_in_service user project type) ss ≡ some s
      → count_if (is_in_service user project type) (map (end_status now s) ss) + 1
        ≤ count_if (is_in_service user project type) ss
  count-end_found now s [] h = absurd (ground arith)
  count-end_found now s (x ∷ ss) h = elim (Bool-cases (is_in_service user project type x)) [
    | inl hit ↦
        let e : x ≡ s = ground (arith, h, hit) in
        ground (arith, count-end_le now s ss, ==_iff x.uuid s.uuid, e, hit)
    | inr miss ↦ ground (arith, count-end_found now s ss, miss)
  ]

  deactivate-in_service :
      (ss : List CustomStatus)
      → count_if (is_in_service user project type) (map (deactivate user project) ss) ≡ 0
  deactivate-in_service [] = refl
  deactivate-in_service (s ∷ ss) = ground (arith, deactivate-in_service ss)

-- The type has the name and the project that it was asked for, and is found the next time.
in_service_type-project :
    (project : Project) (db : Db) → (in_service_type project db).project ≡ project.uuid
unfolding get_or_create_status_type
in_service_type-project project db =
    elim (Option-cases (find_first (is_type project.uuid) db.status_types)) [
      | inl missing ↦ rw (missing, in_service_type, get_or_create_status_type)
      | inr (t, found) ↦
          rw (found, in_service_type, get_or_create_status_type)
            (ground (arith, find_some-count (is_type project.uuid) db.status_types t found))
    ]

in_service_type-again :
    (project : Project) (db : Db)
    → in_service_type project (get_or_create_status_type project db).1 ≡ in_service_type project db
unfolding get_or_create_status_type
in_service_type-again project db =
    elim (Option-cases (find_first (is_type project.uuid) db.status_types)) [
      | inl missing ↦
          rw (missing, in_service_type, get_or_create_status_type)
            (rw
              (
                find_first-append_none (is_type project.uuid) db.status_types _ missing,
                get_or_create_status_type,
              )
              (ground (arith, eq_iff status_name status_name)))
      | inr (t, found) ↦ rw (found, in_service_type, get_or_create_status_type) (rw found refl)
    ]

-- The body of `sync_agent_status`, over what it has looked up.
module _ (now user : ℕ) (project : Project) (type : StatusType) (db : Db)
    (single : AtMostOne db) where
  abbrev in_service : ℕ
  in_service = in_service_count user project type db

  ended :
      (o : Option CustomStatus)
      → find_first (is_in_service user project.uuid type) db.statuses ≡ o
      → in_service_count user project type (elim o [ none ↦ db | some s ↦ close_status now s db ])
        ≡ 0
  unfolding close_status
  ended none e = find_none-count _ db.statuses e
  ended (some s) e = omega (
    arith,
    count-end_found user project.uuid type now s db.statuses e,
    in_service-le-active user project.uuid type db.statuses,
    single.at user project.uuid,
  )

  created :
      type.project ≡ project.uuid
      → in_service_count user project type (create_status now user type db) ≡ 1
  unfolding create_status
  created e =
      rw
        (
          e,
          count_if-append (is_in_service user project.uuid type)
              (map (deactivate user project.uuid) db.statuses) _,
          deactivate-in_service user project.uuid type db.statuses,
        )
        (ground arith)

  -- The three outcomes.
  settle : Bool → Db
  settle prio =
      if ltb 0 (room_count user project db)
        && not (is_some (find_first (is_in_service user project.uuid type) db.statuses))
        && not prio
      then create_status now user type db
      else if room_count user project db == 0
      then elim (find_first (is_in_service user project.uuid type) db.statuses) [
        | none ↦ db
        | some s ↦ close_status now s db
      ]
      else db

  settle-idle :
      (prio : Bool)
      → room_count user project db ≡ 0
      → in_service_count user project type (settle prio) ≡ 0
  unfolding settle
  settle-idle prio h = rw (h, settle) (ended _ refl)

  settle-serving :
      type.project ≡ project.uuid
      → 0 < room_count user project db
      → in_service_count user project type (settle false) ≡ 1
  unfolding settle
  settle-serving e h =
      elim (Option-cases (find_first (is_in_service user project.uuid type) db.statuses)) [
        | inl absent ↦ rw (absent, settle) (ground (arith, created e, h))
        | inr (s, found) ↦
            let p = find_some-count (is_in_service user project.uuid type) db.statuses s found in
            let q = in_service-le-active user project.uuid type db.statuses in
            let r = single.at user project.uuid in rw (found, settle) (ground (arith, p, q, r, h))
      ]

  settle-priority :
      0 < room_count user project db → in_service_count user project type (settle true) ≡ in_service
  unfolding settle
  settle-priority h = ground (arith, h)

module _ (now user : ℕ) (project : Project) (db : Db) (single : AtMostOne db) where
  abbrev typed : Db
  typed = (get_or_create_status_type project db).1

  abbrev asked : Db
  asked = (has_priority_status user project typed).1

  asked-statuses : asked.statuses ≡ db.statuses
  asked-statuses =
      (has_priority-statuses user project typed).0 ∙ (get_or_create-statuses project db).0

  asked-rooms : asked.rooms ≡ db.rooms
  asked-rooms = (has_priority-statuses user project typed).1 ∙ (get_or_create-statuses project db).1

  asked-AtMostOne : AtMostOne asked
  asked-AtMostOne = record { at = λ u p. rw asked-statuses (single.at u p) }

  has_priority_lem :
      (has_priority_status user project typed).0
      ≡ any (is_priority user project.uuid (in_service_type project db)) db.statuses
  unfolding has_priority_status
  has_priority_lem =
      rw ((get_or_create-statuses project typed).0, (get_or_create-statuses project db).0)
        (rw (in_service_type-again project db) refl)

  sync-settle :
      sync_agent_status now user project db
      ≡ settle now user project
          (in_service_type project db)
          asked
          asked-AtMostOne
          (has_priority_status user project typed).0
  unfolding sync_agent_status settle
  sync-settle = rw (has_priority-statuses user project typed).1 refl

  -- After synchronizing, an agent who serves no active room of the project has no active In-Service
  -- status there. One who serves a room has exactly one, unless another status of theirs is active:
  -- then they have as many as before.
  pub sync_agent_status-agrees :
      in_service_count user project
        (in_service_type project db)
        (sync_agent_status now user project db)
      ≡ (if room_count user project db == 0
          then 0
          else if any (is_priority user project.uuid (in_service_type project db)) db.statuses
          then in_service_count user project (in_service_type project db) db
          else 1)
  sync_agent_status-agrees = elim (Bool-cases (room_count user project db == 0)) [
    | inl idle ↦ rw idle (
        rw sync-settle (
          settle-idle now user project type asked asked-AtMostOne prio
            (rw asked-rooms ((==_iff (room_count user project db) 0).0 idle))))
    | inr busy ↦
        let more : 0 < room_count user project db = ground (arith, busy) in
        elim (Bool-cases (any (is_priority user project.uuid type) db.statuses)) [
          | inl k ↦ rw busy (
              rw k (
                rw sync-settle (
                  rw (has_priority_lem ∙ k) (
                    settle-priority now user project type asked asked-AtMostOne
                      (rw asked-rooms more)
                    ∙ ap (count_if (is_in_service user project.uuid type)) asked-statuses))))
          | inr k ↦ rw busy (
              rw k (
                rw sync-settle (
                  rw (has_priority_lem ∙ k) (
                    settle-serving now user project type asked asked-AtMostOne
                      (in_service_type-project project db) (rw asked-rooms more)))))
        ]
  ]
    where
      type : StatusType
      type = in_service_type project db

      prio : Bool
      prio = (has_priority_status user project typed).0
