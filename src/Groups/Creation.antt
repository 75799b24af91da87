-- ===== src/Groups/Creation.antt =====
-- The use cases that give and take a role in a group, GroupSectorAuthorizationCreationUseCase and
-- GroupSectorAuthorizationDeletionUseCase
-- (chats/apps/sectors/usecases/group_sector_authorization.py).
use chats_engine.Prelude.{
  ℕ, ◌≡◌, refl, subst, inl, inr, Bool, true, false, not, ◌&&◌, ◌||◌, List, ◌∷◌, arith, ◌==◌, any,
  Bool-cases,
}
use chats_engine.Store.{Result, ok, err, Error, value_error}
use chats_engine.Groups.{
  Tables, Authorization, GroupAuthorization, set_all, ◌>>=◌, ◌>>◌, create, sectors_of, queues_of,
  with_permissions, create_authorization, or_raise, get, raise_if, as_value_error,
  is_group_authorization, as_value_error,
}
use chats_engine.Groups.Authorizing.{authorized, in_list, bind_ok, set_all-authorized}

-- Who may manage the sectors, and serve the queues.
abbrev pub manages : ℕ → ℕ → Tables → Bool
manages sector permission s = authorized sector permission s.sector_authorizations

abbrev pub serves : ℕ → ℕ → Tables → Bool
serves queue permission s = authorized queue permission s.queue_authorizations

pub then_ok : {A B : Type 0} (m : Result A) {n : Result B} {b : B} → (m >> n) ≡ ok b → n ≡ ok b
then_ok m h = let (a, ran, rest) = bind_ok m h in rest

value-ok : {A : Type 0} (m : Result A) {a : A} → as_value_error m ≡ ok a → m ≡ ok a
value-ok (ok a) h = h
value-ok (err e) h = absurd (ground (arith, h))

raise-none :
    {B : Type 0} (b : Bool) (e : Error) (n : Result B) {x : B}
    → (raise_if (not b) e >> n) ≡ ok x
    → b ≡ true
raise-none true e n h = refl
raise-none false e n h = absurd (ground (arith, h))

pub raise-clear :
    {B : Type 0} (b : Bool) (e : Error) (n : Result B) {x : B}
    → (raise_if b e >> n) ≡ ok x
    → b ≡ false
raise-clear false e n h = refl
raise-clear true e n h = absurd (ground (arith, h))

-- What a successful run consists of.
create-steps :
    (g p role : ℕ) (s : Tables) {s' : Tables}
    → create g p role s ≡ ok s'
    → ((role == 1 || role == 2) ≡ true)
      × (t : Tables) × (with_permissions g p role s ≡ ok t)
      × (create_authorization g p role t ≡ ok s')
unfolding create
create-steps g p role s h =
    let found_group = then_ok (or_raise (get g s.groups) value_error) h in
    let found = then_ok (or_raise (get p s.permissions) value_error) found_group in
    let rest = then_ok (raise_if (not (role == 1 || role == 2)) value_error) found in
    let (t, given, created) =
      bind_ok (with_permissions g p role s)
        (value-ok (with_permissions g p role s >>= create_authorization g p role) rest) in
    (raise-none (role == 1 || role == 2) value_error _ found, t, given, created)

or_if_not : (x c d : Bool) → c ≡ false → x ≡ (x || (c && d))
or_if_not true c d e = refl
or_if_not false c d e = rw e refl

or_if : (x c d y : Bool) → c ≡ true → y ≡ (x || d) → y ≡ (x || (c && d))
or_if x c d y e h = rw e h

-- `s` with other authorizations.
abbrev pub with_tables :
    Tables → List Authorization → List Authorization → List GroupAuthorization → Tables
with_tables s sectors queues groups = record s {
  sector_authorizations = sectors;
  queue_authorizations = queues;
  group_authorizations = groups;
}

pub record Given (g p role : ℕ) (s s' : Tables) : Type 0 where
  pub on_sectors : List Authorization
  pub on_queues : List Authorization
  pub is_with :
      s'
      ≡ with_tables s on_sectors on_queues
          (record { group_sector = g; permission = p; role = role } ∷ s.group_authorizations)
  pub is_new : any (is_group_authorization g p role) s.group_authorizations ≡ false
  pub manages_with :
      (t p' : ℕ)
      → authorized t p' on_sectors
        ≡ (manages t p' s || (role == 1 && (in_list t (sectors_of s g) && p == p')))
  pub serves_with :
      (t p' : ℕ)
      → authorized t p' on_queues
        ≡ (serves t p' s || (role == 2 && (in_list t (queues_of s (sectors_of s g)) && p == p')))

created_row :
    (g p role : ℕ) (t : Tables) {s' : Tables}
    → create_authorization g p role t ≡ ok s'
    → (any (is_group_authorization g p role) t.group_authorizations ≡ false)
      × (s'
          ≡ with_tables t t.sector_authorizations t.queue_authorizations
              (record { group_sector = g; permission = p; role = role } ∷ t.group_authorizations))
created_row g p role t h =
    elim (Bool-cases (any (is_group_authorization g p role) t.group_authorizations)) [
      | inl there ↦ absurd (ground (arith, h, there))
      | inr new ↦ (new, ground (arith, h, new))
    ]

other_role : (a b : Bool) → (a || b) ≡ true → a ≡ false → b ≡ true
other_role true b h e = absurd (ground (arith, e))
other_role false b h e = h

pub not_both : (role : ℕ) → (role == 1) ≡ true → (role == 2) ≡ false
not_both role h = ground (arith, h)

at_managers :
    (g p role : ℕ) (s : Tables) {t : Tables}
    → (role == 1) ≡ true
    → with_permissions g p role s ≡ ok t
    → (rows : List Authorization) × (set_all (sectors_of s g) p s.sector_authorizations ≡ ok rows)
      × (record s { sector_authorizations = rows } ≡ t)
at_managers g p role s {t} manager h =
    let ran : (set_all (sectors_of s g) p s.sector_authorizations >>= λ rows.
    ok (record s { sector_authorizations = rows }))
        ≡ ok t =
      ground (arith, h, manager) in
    let (rows, set, same) = bind_ok (set_all (sectors_of s g) p s.sector_authorizations) ran in
    (rows, set, ground (arith, same))

at_agents :
    (g p role : ℕ) (s : Tables) {t : Tables}
    → (role == 1) ≡ false
    → with_permissions g p role s ≡ ok t
    → (rows : List Authorization) × (set_all (queues_of s (sectors_of s g)) p s.queue_authorizations
        ≡ ok rows)
      × (record s { queue_authorizations = rows } ≡ t)
at_agents g p role s {t} other h =
    let ran : (set_all (queues_of s (sectors_of s g)) p s.queue_authorizations >>= λ rows.
    ok (record s { queue_authorizations = rows }))
        ≡ ok t =
      ground (arith, h, other) in
    let (rows, set, same) =
      bind_ok (set_all (queues_of s (sectors_of s g)) p s.queue_authorizations) ran in
    (rows, set, ground (arith, same))

abbrev Recorded : ℕ → ℕ → ℕ → Tables → Tables → Tables → Type 0
Recorded g p role s s' t =
    (any (is_group_authorization g p role) t.group_authorizations ≡ false)
    → (s'
        ≡ with_tables t t.sector_authorizations t.queue_authorizations
            (record { group_sector = g; permission = p; role = role } ∷ t.group_authorizations))
    → Given g p role s s'

pub create-Given :
    (g p role : ℕ) (s : Tables) {s' : Tables} → create g p role s ≡ ok s' → Given g p role s s'
create-Given g p role s {s'} h =
    let (valid, t, given, created) = create-steps g p role s h in
    let (new, row) = created_row g p role t created in
    elim (Bool-cases (role == 1)) [
      | inl manager ↦
          let (rows, set, same) = at_managers g p role s manager given in
          subst (Recorded g p role s s') same
            (λ new row. record {
              on_sectors = rows;
              on_queues = s.queue_authorizations;
              is_with = row;
              is_new = new;
              manages_with = λ t p'.
                  or_if (manages t p' s) (role == 1) _ _ manager
                    (set_all-authorized (sectors_of s g) p t p' s.sector_authorizations set);
              serves_with = λ t p'. or_if_not (serves t p' s) (role == 2) _ (not_both role manager);
            })
            new row
      | inr other ↦
          let (rows, set, same) = at_agents g p role s other given in
          subst (Recorded g p role s s') same
            (λ new row. record {
              on_sectors = s.sector_authorizations;
              on_queues = rows;
              is_with = row;
              is_new = new;
              manages_with = λ t p'. or_if_not (manages t p' s) (role == 1) _ other;
              serves_with = λ t p'.
                  or_if (serves t p' s) (role == 2) _ _
                    (other_role (role == 1) (role == 2) valid other)
                    (set_all-authorized (queues_of s (sectors_of s g)) p t p' s.queue_authorizations
                      set);
            })
            new row
    ]
