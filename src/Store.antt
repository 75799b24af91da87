-- ===== src/Store.antt =====
-- The tables that the room, queue and project models of chats/apps share, as one value.
-- Users, contacts, messages and rows are named by numbers, an instant is a number of microseconds.
-- Rows of projects, sectors and queues change in no operation here, so a foreign key to one is the
-- row itself. `transfers` is the column `full_transfer_history` of all rooms, the newest first.
-- `outbox` lists what is sent to other systems, the newest first.
pub mod Tables
pub mod Samples
pub mod Action
use chats_engine.Prelude.{ℕ, String, Bool, Option, List}
use chats_engine.Prelude.Int.{ℤ}

-- ProjectPermission.STATUS_CHOICES
pub data Presence : Type 0 where
  online offline away busy : Presence

-- chats/apps/projects/models/models.py, Project. `queue_priority` is
-- `room_routing_type == QUEUE_PRIORITY`, `general_routing` is `routing_option == "general"`.
pub record Project : Type 0 where
  pub uuid : ℕ
  pub queue_priority : Bool
  pub general_routing : Bool

-- The JSON field `Sector.inactivity_timeout`. Its serializer admits times from 1 up.
pub record InactivityTimeout : Type 0 where
  pub is_message_timeout_enabled : Bool
  pub message_timeout_time : Option ℕ
  pub message_timeout_text : Option String
  pub is_close_room_enabled : Bool
  pub close_room_timeout_time : Option ℕ
  pub close_room_message_text : Option String

-- chats/apps/sectors/models.py, Sector. `group_rooms_limit` is the limit of the first group of the
-- sector that is not deleted; `automatic_message` says that the automatic message is active and has
-- a text.
pub record Sector : Type 0 where
  pub uuid : ℕ
  pub project : Project
  pub rooms_limit : ℕ
  pub group_rooms_limit : Option ℕ
  pub is_csat_enabled : Bool
  pub automatic_message : Bool
  pub inactivity_timeout : Option InactivityTimeout

-- chats/apps/queues/models.py, Queue.
pub record Queue : Type 0 where
  pub uuid : ℕ
  pub sector : Sector

-- chats/apps/queues/models.py, QueueAuthorization. ROLE_AGENT is 1.
pub record QueueAuthorization : Type 0 where
  pub queue : ℕ
  pub permission : ℕ
  pub role : ℕ
  pub is_deleted : Bool

-- chats/apps/projects/models/models.py, ProjectPermission, of a user.
pub record Permission : Type 0 where
  pub uuid : ℕ
  pub user : ℕ
  pub project : ℕ
  pub status : Presence
  pub last_seen : Option ℕ
  pub custom_rooms_limit : Option ℕ
  pub is_custom_limit_active : Bool
  pub is_deleted : Bool

-- chats/apps/projects/models/models.py, CustomStatusType.
pub record StatusType : Type 0 where
  pub uuid : ℕ
  pub name : String
  pub project : ℕ

-- chats/apps/projects/models/models.py, CustomStatus.
pub record CustomStatus : Type 0 where
  pub uuid : ℕ
  pub user : ℕ
  pub status_type : StatusType
  pub is_active : Bool
  pub break_time : ℕ
  pub project : ℕ
  pub created_on : ℕ

-- chats/apps/rooms/models.py, Room. `is_whatsapp` is `urn.startswith("whatsapp")`.
pub record Room : Type 0 where
  pub uuid : ℕ
  pub created_on : ℕ
  pub user : Option ℕ
  pub contact : Option ℕ
  pub queue : Option Queue
  pub is_whatsapp : Bool
  pub ticket_uuid : Option ℕ
  pub ended_at : Option ℕ
  pub ended_by : String
  pub closed_by : Option ℕ
  pub is_active : Bool
  pub is_waiting : Bool
  pub is_inactive : Bool
  pub automatic_closed : Bool
  pub first_user_assigned_at : Option ℕ
  pub user_assigned_at : Option ℕ
  pub added_to_queue_at : Option ℕ
  pub unread_messages_count : ℕ
  pub last_unread_message_at : Option ℕ
  pub last_interaction : Option ℕ
  pub last_message : Option ℕ
  pub last_message_user : Option ℕ
  pub last_message_contact : Option ℕ

-- chats/apps/rooms/models.py, RoomPin.
pub record RoomPin : Type 0 where
  pub room : ℕ
  pub user : ℕ
  pub project : ℕ

-- chats/apps/dashboard/models.py, RoomMetrics: what routing adds to.
pub record RoomMetrics : Type 0 where
  pub room : ℕ
  pub waiting_time : ℤ
  pub queued_count : ℕ

-- chats/apps/rooms/models.py, RoomNote: an internal note of a room.
pub record RoomNote : Type 0 where
  pub uuid : ℕ
  pub room : ℕ
  pub is_deletable : Bool

-- What `get_data_from_object` (chats/apps/rooms/utils.py) writes of a user, a queue or `None`.
pub data Party : Type 0 where
  nobody : Party
  user_data queue_data : ℕ → Party

-- The JSON that `create_transfer_json` (chats/apps/rooms/utils.py) makes.
pub record Transfer : Type 0 where
  pub action : String
  pub from_ : Party
  pub to : Party
  pub requested_by : Option Party

-- What the operations send out.
pub data Effect : Type 0 where
  queue_event permission_event : ℕ → ℕ → String → Effect
  status_logged : ℕ → ℕ → String → Option String → Effect
  ticket_assignee : ℕ → Option ℕ → ℕ → Effect
  ticketer_changed : ℕ → ℕ → Effect
  feedback : ℕ → String → Effect
  automatic_message : ℕ → Effect
  csat_flow metrics_task routing_task : ℕ → Effect

pub record Db : Type 0 where
  pub rooms : List Room
  pub room_tags : List (ℕ × ℕ)
  pub pins : List RoomPin
  pub permissions : List Permission
  pub authorizations : List QueueAuthorization
  pub status_types : List StatusType
  pub statuses : List CustomStatus
  pub metrics : List RoomMetrics
  pub notes : List RoomNote
  pub transfers : List (ℕ × Transfer)
  pub next_id : ℕ
  pub outbox : List Effect

-- Exceptions. The last five are of other systems, of Python's division and
-- of the REST framework.
pub data Error : Type 0 where
  closed_room integrity_error attribute_error does_not_exist : Error
  permission_denied max_pin_limit room_not_active value_error : Error
  flows_ticketer_not_found flows_change_ticketer_error connection_error : Error
  zero_division_error api_exception : Error

pub data Result {ℓ} (A : Type ℓ) : Type ℓ where
  ok : A → Result A
  err : Error → Result A
