-- ===== src/Store/Samples.antt =====
-- Small tables for the tests.
use chats_engine.Prelude.{ℕ, true, false, Option, none, some, [], ◌∷◌}
use chats_engine.Store.{online, Project, Sector, Queue, QueueAuthorization, Permission, Room, Db}

abbrev pub project : Project
project = record { uuid = 1; queue_priority = true; general_routing = false }

abbrev pub sector : Sector
sector = record {
  uuid = 10;
  project = project;
  rooms_limit = 2;
  group_rooms_limit = none;
  is_csat_enabled = true;
  automatic_message = true;
  inactivity_timeout = some record {
    is_message_timeout_enabled = true;
    message_timeout_time = some 5;
    message_timeout_text = some "Are you there?";
    is_close_room_enabled = true;
    close_room_timeout_time = some 10;
    close_room_message_text = some "Bye.";
  };
}

abbrev pub queue : Queue
queue = record { uuid = 100; sector = sector }

abbrev pub agent : ℕ → ℕ → Permission
agent uuid user = record {
  uuid = uuid;
  user = user;
  project = 1;
  status = online;
  last_seen = none;
  custom_rooms_limit = none;
  is_custom_limit_active = false;
  is_deleted = false;
}

abbrev allowed : ℕ → QueueAuthorization
allowed permission = record { queue = 100; permission = permission; role = 1; is_deleted = false }

-- An open room of the queue.
abbrev pub room : ℕ → Option ℕ → Room
room uuid user = record {
  uuid = uuid;
  created_on = uuid;
  user = user;
  contact = some uuid;
  queue = some queue;
  is_whatsapp = false;
  ticket_uuid = none;
  ended_at = none;
  ended_by = "";
  closed_by = none;
  is_active = true;
  is_waiting = false;
  is_inactive = false;
  automatic_closed = false;
  first_user_assigned_at = none;
  user_assigned_at = none;
  added_to_queue_at = some uuid;
  unread_messages_count = 0;
  last_unread_message_at = none;
  last_interaction = none;
  last_message = none;
  last_message_user = none;
  last_message_contact = none;
}

abbrev pub ended : Room → Room
ended r = record r { is_active = false }

-- Agents 7 and 8; rooms 50 (agent 7), 51 (agent 8), 52 and 53 (waiting), 54 (closed).
abbrev pub db : Db
db = record {
  rooms =
      room 50 (some 7)
      ∷ room 51 (some 8)
      ∷ room 53 none
      ∷ room 52 none
      ∷ ended (room 54 (some 7))
      ∷ [];
  room_tags = (50, 3) ∷ (51, 3) ∷ [];
  pins = record { room = 50; user = 7; project = 1 } ∷ [];
  permissions = agent 20 7 ∷ agent 21 8 ∷ [];
  authorizations = allowed 20 ∷ allowed 21 ∷ [];
  status_types = [];
  statuses = [];
  metrics = [];
  notes = record { uuid = 60; room = 50; is_deletable = true } ∷ [];
  transfers = [];
  next_id = 1000;
  outbox = [];
}
