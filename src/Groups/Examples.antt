-- ===== src/Groups/Examples.antt =====
-- Tests of the use cases on groups of sectors, and their theorems at a small group.
use chats_engine.Prelude.{ℕ, ◌≡◌, refl, false, not, ◌&&◌, ◌||◌, [], ◌∷◌, ◌==◌, any}
use chats_engine.Store.{ok, err, value_error}
use chats_engine.Groups.{
  Tables, Authorization, OfProject, QueueRow, sectors_of, queues_of, create, delete, permissions_of,
  is_member, set_all, set_each, set_user_authorization, delete_each, delete_all,
  delete_authorizations,
}
use chats_engine.Groups.Serving.{
  add_sector, remove_sector, update_agent, create_for_queue, groups_of, set_groups, enable, disable,
}
use chats_engine.Groups.Authorizing.{in_list, held}
use chats_engine.Groups.Creation.{manages, serves}
use chats_engine.Groups.RoundTrip.{create-delete}
use chats_engine.Groups.Queues.{update_agent-held, create_for_queue-serves, add_sector-manages}

-- Group 1 has the sector 10; 5 has no role in it, 6 is an agent and 8 a manager.
abbrev group : OfProject
group = record { uuid = 1; project = 7 }

abbrev role_1 : ℕ → ℕ → Authorization
role_1 t p = record { target = t; permission = p; role = 1; is_deleted = false }

abbrev tables : Tables
tables = record {
  groups = group ∷ [];
  permissions =
      record { uuid = 5; project = 7 }
      ∷ record { uuid = 6; project = 7 }
      ∷ record { uuid = 8; project = 7 }
      ∷ [];
  sectors =
      record { uuid = 10; project = 7; is_deleted = false }
      ∷ record { uuid = 11; project = 7; is_deleted = false }
      ∷ [];
  queues =
      record { uuid = 100; sector = 10; is_deleted = false }
      ∷ record { uuid = 101; sector = 11; is_deleted = false }
      ∷ [];
  members = (1, 10) ∷ [];
  group_authorizations =
      record { group_sector = 1; permission = 6; role = 2 }
      ∷ record { group_sector = 1; permission = 8; role = 1 }
      ∷ [];
  sector_authorizations = role_1 10 8 ∷ [];
  queue_authorizations = role_1 100 6 ∷ [];
}

abbrev given : Tables
given = record tables {
  sector_authorizations = role_1 10 5 ∷ role_1 10 8 ∷ [];
  group_authorizations =
      record { group_sector = 1; permission = 5; role = 1 } ∷ tables.group_authorizations;
}

-- 5 becomes a manager of the group, which has one sector.
created : create 1 5 1 tables ≡ ok given
unfolding create sectors_of set_all set_user_authorization
created = refl

-- Nobody gets a role in a group twice, nor one that is not a role.
created_twice : create 1 6 2 tables ≡ err value_error
unfolding create sectors_of queues_of set_all set_user_authorization
created_twice = refl

no_role : create 1 5 3 tables ≡ err value_error
unfolding create
no_role = refl

create-delete_example :
    (manages 10 5 (delete (record { group_sector = 1; permission = 5; role = 1 }) given)
      ≡ (manages 10 5 tables && not (1 == 1 && (in_list 10 (sectors_of tables 1) && 5 == 5))))
    × (serves 10 5 (delete (record { group_sector = 1; permission = 5; role = 1 }) given) ≡ (
        serves 10 5 tables
        && not (1 == 2 && (in_list 10 (queues_of tables (sectors_of tables 1)) && 5 == 5))))
    × ((delete (record { group_sector = 1; permission = 5; role = 1 }) given).group_authorizations
        ≡ tables.group_authorizations)
create-delete_example = create-delete 1 5 1 tables 10 5 created

-- 101 is not a queue of the group, so 5 does not get it.
updated :
    update_agent 1 5 (100 ∷ 101 ∷ []) [] tables
    ≡ ok (record tables { queue_authorizations = role_1 100 5 ∷ tables.queue_authorizations })
unfolding update_agent sectors_of queues_of enable disable
updated = refl

update_agent-held_example : held 100 5 (role_1 100 5 ∷ tables.queue_authorizations) ≡ (
    (held 100 5 tables.queue_authorizations
      || ((in_list 100 (100 ∷ 101 ∷ []) && in_list 100 (queues_of tables (sectors_of tables 1)))
          && 5 == 5))
    && not ((in_list 100 [] && in_list 100 (queues_of tables (sectors_of tables 1))) && 5 == 5))
update_agent-held_example = update_agent-held 1 5 (100 ∷ 101 ∷ []) [] tables 100 5 updated

-- A new queue of the sector 10 is served by the agent of its group.
abbrev new_queue : QueueRow
new_queue = record { uuid = 102; sector = 10; is_deleted = false }

served :
    create_for_queue new_queue tables
    ≡ ok (record tables { queue_authorizations = role_1 102 6 ∷ tables.queue_authorizations })
unfolding create_for_queue set_groups set_each set_user_authorization
served = refl

create_for_queue-serves_example :
    serves 102 6
      (record tables { queue_authorizations = role_1 102 6 ∷ tables.queue_authorizations })
    ≡ (serves 102 6 tables
        || (102 == 102 && any (λ g. in_list 6 (permissions_of tables g 2)) (groups_of tables 10)))
create_for_queue-serves_example = create_for_queue-serves new_queue tables 102 6 served

-- The manager gets the new sector, the agent does not get its queue 101.
abbrev extended : Tables
extended = record tables {
  members = (1, 11) ∷ tables.members;
  sector_authorizations = role_1 11 8 ∷ tables.sector_authorizations;
}

added : add_sector 11 group tables ≡ ok extended
unfolding add_sector set_each set_user_authorization
added = refl

no_agent : serves 101 6 extended ≡ false
no_agent = refl

-- The sector is in a group already, though it is the one that it is added to.
added_twice : add_sector 10 group tables ≡ err value_error
unfolding add_sector
added_twice = refl

-- Removing the sector from the group gives back the tables.
removed : remove_sector 11 group extended ≡ ok tables
unfolding remove_sector queues_of delete_each delete_all delete_authorizations
removed = refl

add_sector-manages_example :
    (is_member tables 1 11 ≡ false)
    × (is_member extended 1 11 ≡ (1 == 1))
    × (manages 11 8 extended
        ≡ (manages 11 8 tables || (11 == 11 && in_list 8 (permissions_of tables 1 1))))
    × (extended.queue_authorizations ≡ tables.queue_authorizations)
add_sector-manages_example = add_sector-manages 11 group tables 11 8 1 added
