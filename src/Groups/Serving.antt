-- ===== src/Groups/Serving.antt =====
-- chats/apps/sectors/usecases/group_sector_authorization.py: the use cases that give the authorizations
-- of a group on a new queue and a new sector, take them with a sector, and set those of an agent.
use chats_engine.Prelude.{
  ℕ, false, not, ◌&&◌, Option, List, [], ◌∷◌, ◌==◌, if◌then◌else◌, any, select, find_first,
}
use chats_engine.Store.{does_not_exist, value_error, Result, ok}
use chats_engine.Groups.{
  Authorization, SectorRow, QueueRow, OfProject, Tables, ◌>>=◌, ◌>>◌, raise_if, or_raise, get,
  is_of, set_each, delete_each, is_member, sectors_of, queues_of, permissions_of, keys_of,
}

-- QueueGroupSectorAuthorizationCreationUseCase(queue).execute(), over the groups of its sector.
unfoldable pub set_groups : Tables → List ℕ → ℕ → List Authorization → Result (List Authorization)
set_groups s [] queue rows = ok rows
set_groups s (g ∷ gs) queue rows = do
  more ← set_each (permissions_of s g 2) queue rows
  set_groups s gs queue more

abbrev pub groups_of : Tables → ℕ → List ℕ
groups_of s sector = keys_of (λ m. m.0) (select (λ m. m.1 == sector) s.members)

unfoldable pub create_for_queue : QueueRow → Tables → Result Tables
create_for_queue q s = do
  rows ← set_groups s (groups_of s q.sector) q.uuid s.queue_authorizations
  ok (record s { queue_authorizations = rows })

-- `Sector.objects.get(uuid=sector, project=group.project)`
abbrev pub get_sector : ℕ → ℕ → List SectorRow → Option SectorRow
get_sector sector project rows =
    find_first (λ x. (x.uuid == sector && x.project == project) && not x.is_deleted) rows

-- AddSectorToGroupSectorUseCase(sector, group).execute(). The first check excludes the rows of
-- SectorGroupSector with the key of the group, which are none, so it finds the group's own as well.
unfoldable pub add_sector : ℕ → OfProject → Tables → Result Tables
add_sector sector group s = do
  or_raise (get_sector sector group.project s.sectors) does_not_exist
  raise_if (any (λ m. m.1 == sector) s.members) value_error
  raise_if (is_member s group.uuid sector) value_error
  rows ← set_each (permissions_of s group.uuid 1) sector s.sector_authorizations
  ok (record s { members = (group.uuid, sector) ∷ s.members; sector_authorizations = rows })

-- RemoveSectorFromGroupSectorUseCase(sector, group).execute()
unfoldable pub remove_sector : ℕ → OfProject → Tables → Result Tables
remove_sector sector group s = do
  or_raise (get_sector sector group.project s.sectors) does_not_exist
  raise_if (not (is_member s group.uuid sector)) value_error
  ok (record s {
    sector_authorizations =
        delete_each (permissions_of s group.uuid 1) (sector ∷ []) s.sector_authorizations;
    queue_authorizations =
        delete_each (permissions_of s group.uuid 2) (queues_of s (sector ∷ []))
          s.queue_authorizations;
    members = select (λ m. not (m.0 == group.uuid && m.1 == sector)) s.members;
  })

-- `set & allowed`
abbrev pub among : List ℕ → List ℕ → List ℕ
among allowed asked = select (λ x. any (λ y. y == x) allowed) asked

-- `bulk_create(..., ignore_conflicts=True)` for the queues that have no authorization yet.
unfoldable pub enable : List ℕ → ℕ → List Authorization → List Authorization
enable [] permission rows = rows
enable (q ∷ qs) permission rows = enable qs permission (
    if any (is_of q permission) rows
    then rows
    else record { target = q; permission = permission; role = 1; is_deleted = false } ∷ rows)

-- `QueueAuthorization.objects.filter(permission=permission, queue__uuid__in=queues).delete()`
unfoldable pub disable : List ℕ → ℕ → List Authorization → List Authorization
disable queues permission rows =
    select
      (λ a.
        not ((any (λ q. q == a.target) queues && a.permission == permission) && not a.is_deleted))
      rows

abbrev pub same_project : OfProject → OfProject → Result (Unit {0})
same_project group permission = raise_if (not (permission.project == group.project)) value_error

-- UpdateAgentQueueAuthorizationsUseCase(group, permission, enabled, disabled).execute()
unfoldable pub update_agent : ℕ → ℕ → List ℕ → List ℕ → Tables → Result Tables
update_agent group permission enabled disabled s = do
  g ← or_raise (get group s.groups) value_error
  p ← or_raise (get permission s.permissions) value_error
  same_project g p
  ok (
      let allowed = queues_of s (sectors_of s group) in
      record s {
        queue_authorizations =
            disable (among allowed disabled) permission
              (enable (among allowed enabled) permission s.queue_authorizations);
      })
