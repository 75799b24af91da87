-- ===== src/Groups/RoundTrip.antt =====
-- Giving a role in a group and taking it again
-- (chats/apps/sectors/usecases/group_sector_authorization.py).
use chats_engine.Prelude.{
  ℕ, ◌≡◌, refl, ap, sym, ◌∙◌, subst, inl, inr, Bool, true, false, not, ◌&&◌, ◌||◌, List, [], ◌∷◌,
  arith, ◌==◌, any, select, Bool-cases,
}
use chats_engine.Store.{ok}
use chats_engine.Groups.{
  Tables, GroupAuthorization, create, delete, sectors_of, queues_of, is_group_authorization,
}
use chats_engine.Groups.Authorizing.{in_list, delete_all-authorized, and_none}
use chats_engine.Groups.Creation.{manages, serves, create-Given, with_tables, not_both}

same_or_not : (x d : Bool) → ((x || d) && not d) ≡ (x && not d)
same_or_not true d = refl
same_or_not false true = refl
same_or_not false false = refl

unknown_kept :
    (f : GroupAuthorization → Bool) (rows : List GroupAuthorization)
    → any f rows ≡ false
    → select (λ x. not (f x)) rows ≡ rows
unknown_kept f [] h = refl
unknown_kept f (a ∷ rows) h = elim (Bool-cases (f a)) [
  | inl found ↦ absurd (ground (arith, h, found))
  | inr lost ↦
      let rest : any f rows ≡ false = ground (arith, h, lost) in
      rw lost (ap (λ x. a ∷ x) (unknown_kept f rows rest))
]

delete-manages :
    (a : GroupAuthorization) (s : Tables) (t p' : ℕ)
    → manages t p' (delete a s) ≡ (
        manages t p' s
        && not (a.role == 1 && (in_list t (sectors_of s a.group_sector) && a.permission == p')))
unfolding delete
delete-manages a s t p' = elim (Bool-cases (a.role == 1)) [
  | inl manager ↦ rw manager (
      delete_all-authorized (sectors_of s a.group_sector) a.permission t p' s.sector_authorizations)
  | inr other ↦ elim (Bool-cases (a.role == 2)) [
    | inl agent ↦ rw other (rw agent (and_none (manages t p' s)))
    | inr unset ↦ rw other (rw unset (and_none (manages t p' s)))
  ]
]

delete-serves :
    (a : GroupAuthorization) (s : Tables) (t p' : ℕ)
    → serves t p' (delete a s) ≡ (
        serves t p' s
        && not (
            a.role == 2
            && (in_list t (queues_of s (sectors_of s a.group_sector)) && a.permission == p')))
unfolding delete
delete-serves a s t p' = elim (Bool-cases (a.role == 1)) [
  | inl manager ↦ rw manager (rw (not_both a.role manager) (and_none (serves t p' s)))
  | inr other ↦ elim (Bool-cases (a.role == 2)) [
    | inl agent ↦ rw other (
        rw agent (
          delete_all-authorized (queues_of s (sectors_of s a.group_sector)) a.permission t p'
            s.queue_authorizations))
    | inr unset ↦ rw other (rw unset (and_none (serves t p' s)))
  ]
]

delete-groups :
    (a : GroupAuthorization) (s : Tables)
    → (delete a s).group_authorizations
      ≡ select
          (λ x. not (is_group_authorization a.group_sector a.permission a.role x))
          s.group_authorizations
unfolding delete
delete-groups a s = elim (Bool-cases (a.role == 1)) [
  | inl manager ↦ rw manager refl
  | inr other ↦ elim (Bool-cases (a.role == 2)) [
    | inl agent ↦ rw other (rw agent refl)
    | inr unset ↦ rw other (rw unset refl)
  ]
]

own_removed :
    (f : GroupAuthorization → Bool) (a : GroupAuthorization) (rows : List GroupAuthorization)
    → f a ≡ true
    → any f rows ≡ false
    → select (λ x. not (f x)) (a ∷ rows) ≡ rows
own_removed f a rows own new = rw own (unknown_kept f rows new)

own_row :
    (g p role : ℕ)
    → is_group_authorization g p role (record { group_sector = g; permission = p; role = role })
      ≡ true
own_row g p role = ground arith

abbrev covers_sector : ℕ → ℕ → ℕ → ℕ → ℕ → Tables → Bool
covers_sector g p role t p' s = role == 1 && (in_list t (sectors_of s g) && p == p')

abbrev covers_queue : ℕ → ℕ → ℕ → ℕ → ℕ → Tables → Bool
covers_queue g p role q p' s = role == 2 && (in_list q (queues_of s (sectors_of s g)) && p == p')

abbrev Undone : ℕ → ℕ → ℕ → ℕ → ℕ → Tables → Tables → Type 0
Undone g p role t p' s s' =
    (manages t p' (delete (record { group_sector = g; permission = p; role = role }) s')
      ≡ (manages t p' s && not (covers_sector g p role t p' s)))
    × (serves t p' (delete (record { group_sector = g; permission = p; role = role }) s')
        ≡ (serves t p' s && not (covers_queue g p role t p' s)))
    × ((delete (record { group_sector = g; permission = p; role = role }) s').group_authorizations
        ≡ s.group_authorizations)

-- If a role in a group is given to a permission that does not have it, then taking it again leaves
-- the table of the roles in groups as it was, and a permission manages a sector (serves a queue)
-- exactly when it did so before, save that the one concerned no longer manages the sectors of the
-- group, if the role is that of a manager (serves their queues, if it is that of an agent), not even
-- those it was authorized for on its own account.
pub create-delete :
    (g p role : ℕ) (s : Tables) {s' : Tables} (t p' : ℕ)
    → create g p role s ≡ ok s'
    → (manages t p' (delete (record { group_sector = g; permission = p; role = role }) s')
        ≡ (manages t p' s && not (role == 1 && (in_list t (sectors_of s g) && p == p'))))
      × (serves t p' (delete (record { group_sector = g; permission = p; role = role }) s') ≡ (
          serves t p' s
          && not (role == 2 && (in_list t (queues_of s (sectors_of s g)) && p == p'))))
      × ((delete (record { group_sector = g; permission = p; role = role }) s').group_authorizations
          ≡ s.group_authorizations)
unfolding sectors_of queues_of
create-delete g p role s t p' h =
    let k = create-Given g p role s h in
    let a : GroupAuthorization = record { group_sector = g; permission = p; role = role } in
    let u = with_tables s k.on_sectors k.on_queues (a ∷ s.group_authorizations) in
    subst (Undone g p role t p' s) (sym k.is_with) (
      delete-manages a u t p'
          ∙ ap (λ x. x && not (covers_sector g p role t p' s)) (k.manages_with t p')
          ∙ same_or_not (manages t p' s) (covers_sector g p role t p' s),
      delete-serves a u t p'
          ∙ ap (λ x. x && not (covers_queue g p role t p' s)) (k.serves_with t p')
          ∙ same_or_not (serves t p' s) (covers_queue g p role t p' s),
      delete-groups a u
          ∙ own_removed (is_group_authorization g p role) a s.group_authorizations
              (own_row g p role) k.is_new,
    )
