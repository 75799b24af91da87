-- ===== src/Groups/Queues.antt =====
-- The authorizations on queues that an update of an agent, a new queue and a new sector of a group
-- leave (chats/apps/sectors/usecases/group_sector_authorization.py).
use chats_engine.Prelude.{
  ℕ, ◌≡◌, refl, ap, sym, ◌∙◌, subst, Bool, true, false, not, ◌&&◌, ◌||◌, List, [], ◌∷◌, arith, ◌==◌,
  ==_iff, any,
}
use chats_engine.Store.{Result, ok, err, value_error, does_not_exist}
use chats_engine.Groups.{
  Tables, Authorization, OfProject, QueueRow, sectors_of, queues_of, get, or_raise, raise_if,
  permissions_of, is_member, set_each,
}
use chats_engine.Groups.Serving.{
  among, enable, disable, update_agent, same_project, add_sector, get_sector, set_groups, groups_of,
  create_for_queue,
}
use chats_engine.Groups.Authorizing.{
  authorized, in_list, held, bind_ok, enable-held, disable-held, set_each-authorized, any-select,
  or_none_of, or_each,
}
use chats_engine.Groups.Creation.{manages, serves, then_ok, raise-clear}

in_list-among :
    (x : ℕ) (allowed asked : List ℕ)
    → in_list x (among allowed asked) ≡ (in_list x asked && in_list x allowed)
in_list-among x allowed asked =
    any-select (λ y. y == x) (λ y. any (λ z. z == y) allowed) (in_list x allowed) asked
      (λ y e. ap (λ z. in_list z allowed) ((==_iff y x).0 e))

abbrev queue_authorizations_of : Result Tables → List Authorization
queue_authorizations_of (ok s) = s.queue_authorizations
queue_authorizations_of (err e) = []

-- If an update of an agent succeeds, a permission has an authorization on a queue afterwards exactly
-- when it had one before, or is the one that is updated and the queue is enabled and in a sector of
-- the group, unless it is the one that is updated and the queue is disabled and in a sector of the
-- group; a queue that is both is disabled.
pub update_agent-held :
    (group permission : ℕ) (enabled disabled : List ℕ) (s : Tables) {s' : Tables} (q p' : ℕ)
    → update_agent group permission enabled disabled s ≡ ok s'
    → held q p' s'.queue_authorizations ≡ (
        (held q p' s.queue_authorizations
          || ((in_list q enabled && in_list q (queues_of s (sectors_of s group)))
              && permission == p'))
        && not (
            (in_list q disabled && in_list q (queues_of s (sectors_of s group)))
            && permission == p'))
unfolding update_agent
update_agent-held group permission enabled disabled s {s'} q p' h =
    let (g, found, with_permission) = bind_ok (or_raise (get group s.groups) value_error) h in
    let (p, there, checked) =
      bind_ok (or_raise (get permission s.permissions) value_error) with_permission in
    let allowed = queues_of s (sectors_of s group) in
    let updated : disable (among allowed disabled) permission
          (enable (among allowed enabled) permission s.queue_authorizations)
        ≡ s'.queue_authorizations =
      ap queue_authorizations_of (then_ok (same_project g p) checked) in
    ap (held q p') (sym updated)
    ∙ disable-held (among allowed disabled) permission q p'
        (enable (among allowed enabled) permission s.queue_authorizations)
    ∙ ap (λ x. x && not (in_list q (among allowed disabled) && permission == p'))
        (enable-held (among allowed enabled) permission q p' s.queue_authorizations)
    ∙ ap
        (λ x.
          (held q p' s.queue_authorizations || (x && permission == p'))
          && not (in_list q (among allowed disabled) && permission == p'))
        (in_list-among q allowed enabled)
    ∙ ap
        (λ x.
          (held q p' s.queue_authorizations
            || ((in_list q enabled && in_list q allowed) && permission == p'))
          && not (x && permission == p'))
        (in_list-among q allowed disabled)

set_groups-authorized :
    (s : Tables) (gs : List ℕ) (t t' p' : ℕ) (rows : List Authorization) {more : List Authorization}
    → set_groups s gs t rows ≡ ok more
    → authorized t' p' more
      ≡ (authorized t' p' rows || (t == t' && any (λ g. in_list p' (permissions_of s g 2)) gs))
unfolding set_groups
set_groups-authorized s [] t t' p' rows {more} h =
    let same_rows : rows ≡ more = ground (arith, h) in
    ap (authorized t' p') (sym same_rows) ∙ or_none_of (authorized t' p' rows) (t == t')
set_groups-authorized s (g ∷ gs) t t' p' rows h =
    let (next, one, others) = bind_ok (set_each (permissions_of s g 2) t rows) h in
    set_groups-authorized s gs t t' p' next others
    ∙ ap (λ x. x || (t == t' && any (λ g. in_list p' (permissions_of s g 2)) gs))
        (set_each-authorized (permissions_of s g 2) t t' p' rows one)
    ∙ or_each (authorized t' p' rows) (in_list p' (permissions_of s g 2))
        (any (λ g. in_list p' (permissions_of s g 2)) gs) (t == t')

-- If the authorizations of a new queue are created, a permission serves a queue afterwards exactly when
-- it did so before, or the queue is the new one and the permission has the role of an agent in a group
-- of its sector.
pub create_for_queue-serves :
    (queue : QueueRow) (s : Tables) {s' : Tables} (q p : ℕ)
    → create_for_queue queue s ≡ ok s'
    → serves q p s' ≡ (
        serves q p s
        || (queue.uuid == q
            && any (λ g. in_list p (permissions_of s g 2)) (groups_of s queue.sector)))
unfolding create_for_queue
create_for_queue-serves queue s {s'} q p h =
    let gs = groups_of s queue.sector in
    let (rows, set, same) = bind_ok (set_groups s gs queue.uuid s.queue_authorizations) h in
    let updated : rows ≡ s'.queue_authorizations = ap queue_authorizations_of same in
    ap (authorized q p) (sym updated)
    ∙ set_groups-authorized s gs queue.uuid q p s.queue_authorizations set

neither : (a b : Bool) → (a || b) ≡ false → (a ≡ false) × (b ≡ false)
neither true b h = absurd (ground (arith, h))
neither false b h = (refl, h)

and_false : (a : Bool) {x : Bool} → x ≡ false → ((a && false) || x) ≡ false
and_false true h = h
and_false false h = h

in_no_group :
    (g sector : ℕ) (rows : List (ℕ × ℕ))
    → any (λ m. m.1 == sector) rows ≡ false
    → any (λ m. m.0 == g && m.1 == sector) rows ≡ false
in_no_group g sector [] h = refl
in_no_group g sector (m ∷ rows) h =
    let (one, rest) = neither (m.1 == sector) (any (λ m. m.1 == sector) rows) h in
    rw one (and_false (m.0 == g) (in_no_group g sector rows rest))

own_only : (a b x : Bool) → b ≡ true → x ≡ false → ((a && b) || x) ≡ a
own_only true true x on off = refl
own_only true false x on off = absurd (ground (arith, on))
own_only false b x on off = off

abbrev tables_of : Tables → Result Tables → Tables
tables_of s (ok t) = t
tables_of s (err e) = s

abbrev Added : ℕ → OfProject → Tables → ℕ → ℕ → ℕ → Tables → Type 0
Added sector group s t p g s' =
    (is_member s g sector ≡ false)
    × (is_member s' g sector ≡ (group.uuid == g))
    × (manages t p s'
        ≡ (manages t p s || (sector == t && in_list p (permissions_of s group.uuid 1))))
    × (s'.queue_authorizations ≡ s.queue_authorizations)

-- If a sector is added to a group, it was in no group, and is in this one alone afterwards; a permission
-- manages a sector exactly when it did so before, or the sector is the one added and the permission is a
-- manager of the group; and no authorization on a queue has changed, the agents of the group get none.
pub add_sector-manages :
    (sector : ℕ) (group : OfProject) (s : Tables) {s' : Tables} (t p g : ℕ)
    → add_sector sector group s ≡ ok s'
    → (is_member s g sector ≡ false)
      × (is_member s' g sector ≡ (group.uuid == g))
      × (manages t p s'
          ≡ (manages t p s || (sector == t && in_list p (permissions_of s group.uuid 1))))
      × (s'.queue_authorizations ≡ s.queue_authorizations)
unfolding add_sector
add_sector-manages sector group s {s'} t p g h =
    let checked = then_ok (or_raise (get_sector sector group.project s.sectors) does_not_exist) h in
    let ran = then_ok (raise_if (any (λ m. m.1 == sector) s.members) value_error) checked in
    let own = then_ok (raise_if (is_member s group.uuid sector) value_error) ran in
    let (rows, set, same) =
      bind_ok (set_each (permissions_of s group.uuid 1) sector s.sector_authorizations) own in
    let clear : any (λ m. m.1 == sector) s.members ≡ false =
      raise-clear (any (λ m. m.1 == sector) s.members) value_error _ checked in
    let before : is_member s g sector ≡ false = in_no_group g sector s.members clear in
    subst (Added sector group s t p g) (ap (tables_of s) same) (
      before,
      own_only (group.uuid == g) (sector == sector) (is_member s g sector)
          ((==_iff sector sector).1 refl) before,
      set_each-authorized (permissions_of s group.uuid 1) sector t p s.sector_authorizations set,
      refl,
    )
