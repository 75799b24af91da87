-- ===== src/Bulk/Transfer/Validation.antt =====
-- The validations of `BulkTransferService`
-- (chats/apps/api/v1/rooms/services/bulk_transfer_service.py).
use chats_engine.Prelude.{
  ℕ, ◌+◌, ◌≡◌, refl, ap, sym, ◌∙◌, inl, inr, subst, Bool, true, false, not, ◌&&◌, ◌||◌, Option,
  none, some, List, [], ◌∷◌, ◌++◌, map, arith, is_some, same, same_iff, any, find_first, length,
  append_nil, append_one, Bool-cases,
}
use chats_engine.Store.{Queue, Room, Db, Result, ok}
use chats_engine.Queues.Router.{Turn}
use chats_engine.Bulk.{Outside, Failure, BulkResult, no_result, add_failure}
use chats_engine.Bulk.Transfer.{
  project_uuid, distinct, get_rooms_projects, has_permission, queue_error, first_denied,
  validate_queue, validate_user, cached_after, or_error, check_validations, fail_all, refuse_or,
  transfer,
}

-- The room is in the project of the queue, and the user has a permission there.
abbrev fits_queue : Option Queue → Option ℕ → Bool
fits_queue none project = true
fits_queue (some q) project = same project (some q.sector.project.uuid)

abbrev fits_user : Option ℕ → Db → Option ℕ → Bool
fits_user none db project = true
fits_user (some user) db project = has_permission user project db

abbrev fits : Option ℕ → Option Queue → Db → Room → Bool
fits user queue db r =
    fits_queue queue (project_uuid r.queue) && fits_user user db (project_uuid r.queue)

abbrev projects : List Room → List (Option ℕ)
projects rooms = map (λ r. project_uuid r.queue) rooms

or_true : (b c : Bool) → c ≡ true → b || c ≡ true
or_true true c e = refl
or_true false c e = e

absorbed : (b c : Bool) → c ≡ true → c ≡ b || c
absorbed true c e = e
absorbed false c e = refl

none_of : (rooms : List Room) → any (λ (r : Room). false) rooms ≡ false
none_of [] = refl
none_of (r ∷ rooms) = none_of rooms

any-same :
    (p : Option ℕ → Bool) (a : Option ℕ) (ps : List (Option ℕ))
    → any (same a) ps ≡ true
    → p a ≡ true
    → any p ps ≡ true
any-same p a [] h e = h
any-same p a (x ∷ xs) h e = elim (Bool-cases (same a x)) [
  | inl hit ↦ ap (λ b. b || any p xs) (subst (λ k. p k ≡ true) ((same_iff a x).0 hit) e)
  | inr other ↦
      or_true (p x) (any p xs) (any-same p a xs (sym (ap (λ b. b || any (same a) xs) other) ∙ h) e)
]

any-distinct : (p : Option ℕ → Bool) (ps : List (Option ℕ)) → any p (distinct ps) ≡ any p ps
any-distinct p [] = refl
any-distinct p (x ∷ xs) = elim (Bool-cases (any (same x) xs)) [
  | inl there ↦ rw there (
      any-distinct p xs ∙ elim (Bool-cases (p x)) [
        | inl hit ↦ absorbed (p x) (any p xs) (any-same p x xs there hit)
        | inr misses ↦ sym (ap (λ b. b || any p xs) misses)
      ])
  | inr new ↦ rw new (ap (λ b. p x || b) (any-distinct p xs))
]

find_first-is_some :
    {A : Type 0} (p : A → Bool) (xs : List A) → is_some (find_first p xs) ≡ any p xs
find_first-is_some p [] = refl
find_first-is_some p (x ∷ xs) = ground (arith, find_first-is_some p xs)

any-map :
    (p : Option ℕ → Bool) (rooms : List Room)
    → any p (projects rooms) ≡ any (λ r. p (project_uuid r.queue)) rooms
any-map p [] = refl
any-map p (r ∷ rooms) = ap (λ b. p (project_uuid r.queue) || b) (any-map p rooms)

any_project :
    (p : Option ℕ → Bool) (rooms : List Room)
    → any p (get_rooms_projects [] rooms) ≡ any (λ r. p (project_uuid r.queue)) rooms
unfolding get_rooms_projects
any_project p rooms = any-distinct p (projects rooms) ∙ any-map p rooms

cached_again :
    (rooms : List Room) (l : List (Option ℕ))
    → l ≡ distinct (projects rooms)
    → get_rooms_projects l rooms ≡ distinct (projects rooms)
unfolding get_rooms_projects
cached_again rooms [] e = refl
cached_again rooms (p ∷ ps) e = e

queue_error-is_some :
    (q : Queue) (ps : List (Option ℕ))
    → is_some (queue_error q ps) ≡ any (λ p. not (same p (some q.sector.project.uuid))) ps
queue_error-is_some q ps = ground arith

denied-is_some : (user : ℕ) (p : Option (Option ℕ)) → is_some (first_denied user p) ≡ is_some p
denied-is_some user none = refl
denied-is_some user (some p) = refl

validate_queue-finds :
    (rooms : List Room) (queue : Option Queue)
    → is_some (validate_queue [] rooms queue)
      ≡ any (λ r. not (fits_queue queue (project_uuid r.queue))) rooms
unfolding validate_queue
validate_queue-finds rooms none = sym (none_of rooms)
validate_queue-finds rooms (some q) =
    queue_error-is_some q _ ∙ any_project (λ p. not (fits_queue (some q) p)) rooms

validate_user-finds :
    (cached : List (Option ℕ)) (rooms : List Room) (user : Option ℕ) (db : Db)
    → get_rooms_projects cached rooms ≡ get_rooms_projects [] rooms
    → is_some (validate_user cached rooms user db)
      ≡ any (λ r. not (fits_user user db (project_uuid r.queue))) rooms
unfolding validate_user
validate_user-finds cached rooms none db e = sym (none_of rooms)
validate_user-finds cached rooms (some user) db e =
    let denied = λ (p : Option ℕ). not (fits_user (some user) db p) in
    rw e (
      denied-is_some user _
      ∙ find_first-is_some denied (get_rooms_projects [] rooms)
      ∙ any_project denied rooms)

cached_after-projects :
    {A : Type 0} (rooms : List Room) (o : Option A)
    → get_rooms_projects (cached_after [] rooms o) rooms ≡ get_rooms_projects [] rooms
unfolding get_rooms_projects
cached_after-projects rooms none = refl
cached_after-projects rooms (some a) = cached_again rooms (distinct (projects rooms)) refl

or_error-is_some : (a b : Option Failure) → is_some (or_error a b) ≡ is_some a || is_some b
or_error-is_some none b = refl
or_error-is_some (some e) b = refl

split_fits :
    (user : Option ℕ) (queue : Option Queue) (db : Db) (rooms : List Room)
    → any (λ r. not (fits user queue db r)) rooms
      ≡ any (λ r. not (fits_queue queue (project_uuid r.queue))) rooms
        || any (λ r. not (fits_user user db (project_uuid r.queue))) rooms
split_fits user queue db [] = refl
split_fits user queue db (r ∷ rooms) =
    rw (split_fits user queue db rooms) (
      mixed (fits_queue queue (project_uuid r.queue)) (fits_user user db (project_uuid r.queue)) _
        _)
  where
    mixed : (a b c d : Bool) → not (a && b) || (c || d) ≡ (not a || c) || (not b || d)
    mixed true true c d = refl
    mixed true false true d = refl
    mixed true false false d = refl
    mixed false b c d = refl

-- A service that has validated no rooms before finds an error exactly where some room is outside the
-- project of the given queue, or in a project where the given user has no permission.
check_validations-fits :
    (rooms : List Room) (user : Option ℕ) (queue : Option Queue) (db : Db)
    → is_some (check_validations [] rooms user queue db)
      ≡ any (λ r. not (fits user queue db r)) rooms
unfolding check_validations
check_validations-fits rooms user queue db =
    or_error-is_some (validate_queue [] rooms queue) _
    ∙ rw
        (
          validate_queue-finds rooms queue,
          validate_user-finds (cached_after [] rooms queue) rooms user db
              (cached_after-projects rooms queue),
        )
        (sym (split_fits user queue db rooms))

pub fail_all-fails :
    (e : Failure) (rooms : List Room) (r : BulkResult)
    → let f = fail_all e rooms r in
      (f.success_count ≡ r.success_count)
      × (f.failed_count ≡ r.failed_count + length rooms)
      × (f.errors ≡ r.errors ++ map (λ (x : Room). e) rooms)
      × (f.failed_rooms ≡ r.failed_rooms ++ map (λ (x : Room). x.uuid) rooms)
unfolding add_failure
fail_all-fails e [] r = (refl, omega arith, append_nil r.errors, append_nil r.failed_rooms)
fail_all-fails e (x ∷ rooms) r =
    let (a, b, c, d) = fail_all-fails e rooms (add_failure x.uuid e r) in
    (
      a,
      b ∙ omega arith,
      c ∙ append_one r.errors e (map (λ (x : Room). e) rooms),
      d ∙ append_one r.failed_rooms x.uuid (map (λ (x : Room). x.uuid) rooms),
    )

refused :
    (x : Option Failure) (rooms : List Room) (ran : Result BulkResult × Db) (db : Db)
    → is_some x ≡ true
    → (r : BulkResult) × (e : Failure) × (refuse_or x rooms ran db ≡ (ok r, db))
      × (r.success_count ≡ 0)
      × (r.failed_count ≡ length rooms)
      × (r.errors ≡ map (λ (x : Room). e) rooms)
      × (r.failed_rooms ≡ map (λ (x : Room). x.uuid) rooms)
refused none rooms ran db h = absurd (ground (arith, h))
refused (some e) rooms ran db h =
    let (a, b, c, d) = fail_all-fails e rooms no_result in
    (fail_all e rooms no_result, e, refl, a, b ∙ omega arith, c, d)

-- A transfer of rooms, by a service that has validated none before, where some room is outside the
-- project of the given queue or in a project where the given user has no permission, changes nothing
-- and sends nothing: it returns a result in which every room has failed, in the order of the query,
-- with one and the same error.
pub transfer-refuses :
    (o : Outside) (world : ℕ → Turn) (size : ℕ) (rooms : List Room) (user_request : ℕ)
    (user : Option ℕ) (queue : Option Queue) (db : Db)
    → any (λ r. not (fits user queue db r)) rooms ≡ true
    → (r : BulkResult) × (e : Failure) × (transfer o world size [] rooms user_request user queue db
        ≡ (ok r, db))
      × (r.success_count ≡ 0)
      × (r.failed_count ≡ length rooms)
      × (r.errors ≡ map (λ (x : Room). e) rooms)
      × (r.failed_rooms ≡ map (λ (x : Room). x.uuid) rooms)
unfolding transfer
transfer-refuses o world size rooms user_request user queue db unfit =
    refused (check_validations [] rooms user queue db) rooms _ db
      (check_validations-fits rooms user queue db ∙ unfit)
