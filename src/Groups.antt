-- ===== src/Groups.antt =====
-- chats/apps/sectors/usecases/group_sector_authorization.py: who may serve the queues, and manage the
-- sectors, of a group of sectors. Every use case runs in a transaction, so an error leaves the tables
-- as they were. Permissions, sectors and groups are those that are not deleted; of queues and of the
-- sectors of a group the filter is written out. The use cases on queues and sectors are in Serving.
pub mod Serving
pub mod Authorizing
pub mod Creation
pub mod RoundTrip
pub mod Queues
mod Examples
use chats_engine.Prelude.{
  ℕ, Bool, true, false, not, ◌&&◌, ◌||◌, Option, none, some, List, [], ◌∷◌, ◌==◌, if◌then◌else◌,
  any, select, find_first,
}
use chats_engine.Store.{Error, integrity_error, does_not_exist, value_error, Result, ok, err}

-- chats/apps/sectors/models.py, SectorAuthorization, and chats/apps/queues/models.py,
-- QueueAuthorization, which have the same columns and the same constraint.
pub record Authorization : Type 0 where
  pub target : ℕ
  pub permission : ℕ
  pub role : ℕ
  pub is_deleted : Bool

pub record SectorRow : Type 0 where
  pub uuid : ℕ
  pub project : ℕ
  pub is_deleted : Bool

pub record QueueRow : Type 0 where
  pub uuid : ℕ
  pub sector : ℕ
  pub is_deleted : Bool

-- A group, or a permission, of a project.
pub record OfProject : Type 0 where
  pub uuid : ℕ
  pub project : ℕ

-- chats/apps/sectors/models.py, GroupSectorAuthorization. ROLE_MANAGER is 1, ROLE_AGENT is 2.
pub record GroupAuthorization : Type 0 where
  pub group_sector : ℕ
  pub permission : ℕ
  pub role : ℕ

-- `members` is SectorGroupSector: pairs of a group and a sector.
pub record Tables : Type 0 where
  pub groups : List OfProject
  pub permissions : List OfProject
  pub sectors : List SectorRow
  pub queues : List QueueRow
  pub members : List (ℕ × ℕ)
  pub group_authorizations : List GroupAuthorization
  pub sector_authorizations : List Authorization
  pub queue_authorizations : List Authorization

infixl 5 ◌>>=◌ ◌>>◌
abbrev pub ◌>>=◌ : {A B : Type 0} → Result A → (A → Result B) → Result B
ok a >>= f = f a
err e >>= f = err e

abbrev pub ◌>>◌ : {A B : Type 0} → Result A → Result B → Result B
m >> k = m >>= λ _. k

abbrev pub raise_if : Bool → Error → Result (Unit {0})
raise_if true e = err e
raise_if false e = ok tt

-- `except Exception as e: raise ValueError(str(e))`
abbrev pub as_value_error : {A : Type 0} → Result A → Result A
as_value_error (ok a) = ok a
as_value_error (err e) = err value_error

abbrev pub or_raise : {A : Type 0} → Option A → Error → Result A
or_raise none e = err e
or_raise (some a) e = ok a

abbrev pub get : ℕ → List OfProject → Option OfProject
get uuid rows = find_first (λ x. x.uuid == uuid) rows

-- The authorization of that permission on that target, that is not deleted.
abbrev pub is_of : ℕ → ℕ → Authorization → Bool
is_of target permission a = (a.target == target && a.permission == permission) && not a.is_deleted

abbrev pub has_role : ℕ → ℕ → ℕ → Authorization → Bool
has_role target permission role a = is_of target permission a && a.role == role

-- `set_user_authorization`, under the unique constraint.
pub set_user_authorization : ℕ → ℕ → ℕ → List Authorization → Result (List Authorization)
set_user_authorization target permission role rows =
    if any (has_role target permission role) rows
    then ok rows
    else if any (is_of target permission) rows
    then err integrity_error
    else ok (
        record { target = target; permission = permission; role = role; is_deleted = false } ∷ rows)

-- `authorizations.filter(permission=permission, role=1).delete()` of a target.
pub delete_authorizations : ℕ → ℕ → List Authorization → List Authorization
delete_authorizations target permission rows =
    select (λ a. not (has_role target permission 1 a)) rows

-- Over targets, for one permission.
pub set_all : List ℕ → ℕ → List Authorization → Result (List Authorization)
set_all [] permission rows = ok rows
set_all (t ∷ ts) permission rows = do
  more ← set_user_authorization t permission 1 rows
  set_all ts permission more

pub delete_all : List ℕ → ℕ → List Authorization → List Authorization
delete_all [] permission rows = rows
delete_all (t ∷ ts) permission rows =
    delete_all ts permission (delete_authorizations t permission rows)

-- Over permissions, for one target.
pub set_each : List ℕ → ℕ → List Authorization → Result (List Authorization)
set_each [] target rows = ok rows
set_each (p ∷ ps) target rows = do
  more ← set_user_authorization target p 1 rows
  set_each ps target more

pub delete_each : List ℕ → List ℕ → List Authorization → List Authorization
delete_each [] targets rows = rows
delete_each (p ∷ ps) targets rows = delete_each ps targets (delete_all targets p rows)

abbrev keys_of : {A : Type 0} → (A → ℕ) → List A → List ℕ
keys_of key [] = []
keys_of key (x ∷ xs) = key x ∷ keys_of key xs

abbrev pub is_member : Tables → ℕ → ℕ → Bool
is_member s group sector = any (λ m. m.0 == group && m.1 == sector) s.members

-- `group_sector.sectors.filter(is_deleted=False)`
pub sectors_of : Tables → ℕ → List ℕ
sectors_of s group =
    keys_of (λ x. x.uuid) (select (λ x. is_member s group x.uuid && not x.is_deleted) s.sectors)

-- The queues of sectors, that are not deleted.
pub queues_of : Tables → List ℕ → List ℕ
queues_of s sectors =
    keys_of (λ x. x.uuid)
      (select (λ x. any (λ c. c == x.sector) sectors && not x.is_deleted) s.queues)

-- The permissions with that role in the group.
abbrev pub permissions_of : Tables → ℕ → ℕ → List ℕ
permissions_of s group role =
    keys_of (λ a. a.permission)
      (select (λ a. a.group_sector == group && a.role == role) s.group_authorizations)

abbrev pub is_group_authorization : ℕ → ℕ → ℕ → GroupAuthorization → Bool
is_group_authorization group permission role a =
    (a.group_sector == group && a.permission == permission) && a.role == role

-- `_create_sector_permissions` and `_create_queue_permissions`
abbrev pub with_permissions : ℕ → ℕ → ℕ → Tables → Result Tables
with_permissions group permission role s =
    if role == 1
    then (do
      rows ← set_all (sectors_of s group) permission s.sector_authorizations
      ok (record s { sector_authorizations = rows }))
    else (do
      rows ← set_all (queues_of s (sectors_of s group)) permission s.queue_authorizations
      ok (record s { queue_authorizations = rows }))

abbrev pub create_authorization : ℕ → ℕ → ℕ → Tables → Result Tables
create_authorization group permission role s =
    if any (is_group_authorization group permission role) s.group_authorizations
    then err integrity_error
    else ok (record s {
      group_authorizations =
          record { group_sector = group; permission = permission; role = role }
          ∷ s.group_authorizations;
    })

-- GroupSectorAuthorizationCreationUseCase(group, permission, role).execute()
pub create : ℕ → ℕ → ℕ → Tables → Result Tables
create group permission role s = do
  or_raise (get group s.groups) value_error
  or_raise (get permission s.permissions) value_error
  raise_if (not (role == 1 || role == 2)) value_error
  as_value_error
      (with_permissions group permission role s >>= create_authorization group permission role)

-- GroupSectorAuthorizationDeletionUseCase(authorization).execute()
abbrev without_permissions : GroupAuthorization → Tables → Tables
without_permissions a s =
    if a.role == 1
    then record s {
      sector_authorizations =
          delete_all (sectors_of s a.group_sector) a.permission s.sector_authorizations;
    }
    else if a.role == 2
    then record s {
      queue_authorizations =
          delete_all (queues_of s (sectors_of s a.group_sector)) a.permission
            s.queue_authorizations;
    }
    else s

pub delete : GroupAuthorization → Tables → Tables
delete a s =
    let t = without_permissions a s in
    record t {
      group_authorizations =
          select (λ x. not (is_group_authorization a.group_sector a.permission a.role x))
            t.group_authorizations;
    }
