-- ===== src/Inactivity.antt =====
-- chats/apps/rooms/usecases/inactivity.py, InactivityService, with the messages that it writes
-- (`Message.save` in chats/apps/msgs/models.py) and `Room.is_24h_valid` and
-- `Room.update_last_message` (chats/apps/rooms/models.py). An entry of the 24h cache is taken to be
-- held until it is cleared, and only a true entry counts, as in the code.
pub mod Service
pub mod Caps
pub mod Warned
pub mod Closures
pub mod Reset
mod Examples
use chats_engine.Prelude.{
  ℕ, suc, ◌+◌, ◌-◌, ◌*◌, String, Bool, true, false, not, ◌&&◌, ◌||◌, Option, none, some, List, [],
  ◌∷◌, map, leb, ltb, ◌==◌, if◌then◌else◌, is_some, same, any, select, str_eq,
}
use chats_engine.Store.{
  InactivityTimeout, Sector, Queue, Permission, Room, Effect, queue_event, permission_event,
  metrics_task, Db, Error, closed_room, permission_denied, Result, ok, err,
}
use chats_engine.Store.Tables.{find_room, send, send_if}
use chats_engine.InService.{find_permission, second}
use chats_engine.Rooms.{Instance, load, close}

-- AutomaticMessageType
pub data MessageType : Type 0 where
  inactive_warning inactive_close : MessageType

-- Message, with the type of its AutomaticMessage.
pub record Message : Type 0 where
  pub uuid : ℕ
  pub room : ℕ
  pub user : Option ℕ
  pub contact : Option ℕ
  pub text : String
  pub created_on : ℕ
  pub message_type : Option MessageType

pub record State : Type 0 where
  pub db : Db
  pub messages : List Message
  pub valid_24h : List ℕ

abbrev pub day : ℕ
day = 86400 * second

-- `Room.is_24h_valid`
pub is_24h_valid : ℕ → Room → State → Bool × State
is_24h_valid now r s =
    if not r.is_whatsapp || any (λ u. u == r.uuid) s.valid_24h
    then (true, s)
    else if any (λ m. m.room == r.uuid && leb now (m.created_on + day) && same m.contact r.contact)
        s.messages
    then (true, record s { valid_24h = r.uuid ∷ s.valid_24h })
    else if ltb now (r.created_on + day)
    then (true, record s { valid_24h = r.uuid ∷ s.valid_24h })
    else (false, s)

-- `Message.objects.create`
abbrev new_message : ℕ → Room → Option ℕ → String → Option MessageType → State → Message
new_message now r user text type s = record {
  uuid = s.db.next_id;
  room = r.uuid;
  user = user;
  contact = none;
  text = text;
  created_on = now;
  message_type = type;
}

abbrev add_message : Message → State → State
add_message m s = record s {
  db = record (s.db) { next_id = suc s.db.next_id };
  messages = m ∷ s.messages;
  valid_24h = select (λ u. not (u == m.room)) s.valid_24h;
}

pub create_message :
    ℕ → Room → Option ℕ → String → Option MessageType → State → Result Message × State
create_message now r user text type s =
    if not r.is_active
    then (err closed_room, s)
    else let (valid, s') = is_24h_valid now r s in
      if not valid && is_some user then (err permission_denied, s') else (
        ok (new_message now r user text type s'),
        add_message (new_message now r user text type s') s',
      )

-- `Room.objects.filter(pk=uuid).update(...)`
abbrev pub update_rows : (Room → Bool) → (Room → Room) → State → State
update_rows p f s = record s {
  db = record (s.db) { rooms = map (λ r. if p r then f r else r) s.db.rooms };
}

-- `room.update_last_message(message=message, user=user, update_last_interaction=False)`
abbrev update_last_message : ℕ → Option ℕ → ℕ → State → State
update_last_message room user message s =
    update_rows (λ r. r.uuid == room)
      (λ r. record r {
        last_message = some message;
        last_message_user = user;
        last_message_contact = none;
      })
      s

-- `_send_silent_automatic_message`, of which an exception undoes the transaction.
abbrev pub after_create : Room → Option ℕ → State → Result Message × State → Bool × State
after_create r user before (ok m, s) = (true, update_last_message r.uuid user m.uuid s)
after_create r user before (err e, s) = (false, before)

pub send_silent : ℕ → Room → String → Option ℕ → MessageType → State → Bool × State
send_silent now r text user type s =
    if str_eq text ""
    then (false, s)
    else after_create r user s (create_message now r user text (some type) s)

abbrev pub config_of : Room → Option InactivityTimeout
config_of r = elim r.queue [ none ↦ none | some q ↦ q.sector.inactivity_timeout ]

abbrev pub or_zero : Option ℕ → ℕ
or_zero none = 0
or_zero (some n) = n

abbrev pub or_empty : Option String → String
or_empty none = ""
or_empty (some t) = t

abbrev has_warning : Option InactivityTimeout → Bool
has_warning none = false
has_warning (some c) = c.is_message_timeout_enabled

abbrev has_closure : Option InactivityTimeout → Bool
has_closure none = false
has_closure (some c) = c.is_close_room_enabled

-- `_eligible_warn_queryset` and `_eligible_close_queryset`
abbrev is_served : Room → Bool
is_served r = r.is_active && not r.is_waiting && is_some r.user && is_some r.last_message_user

abbrev pub eligible_warn : Room → Bool
eligible_warn r = is_served r && not r.is_inactive && has_warning (config_of r)

abbrev pub eligible_close : Room → Bool
eligible_close r = is_served r && r.is_inactive && has_closure (config_of r)

abbrev warn_timeout : Option InactivityTimeout → ℕ
warn_timeout none = 0
warn_timeout (some c) = or_zero c.message_timeout_time

abbrev close_timeout : Option InactivityTimeout → ℕ
close_timeout none = 0
close_timeout (some c) = or_zero c.close_room_timeout_time

-- `(now - room.last_interaction).total_seconds() >= timeout`
abbrev elapsed_at_least : ℕ → ℕ → Room → Bool
elapsed_at_least now timeout r = elim r.last_interaction [
  | none ↦ false
  | some t ↦ leb (t + timeout * second) now
]

abbrev pub due_for_warning : ℕ → Room → Bool
due_for_warning now r =
    ltb 0 (warn_timeout (config_of r)) && elapsed_at_least now (warn_timeout (config_of r)) r

abbrev pub due_for_closure : ℕ → Room → Bool
due_for_closure now r =
    ltb 0 (warn_timeout (config_of r))
    && ltb 0 (close_timeout (config_of r))
    && elapsed_at_least now (warn_timeout (config_of r) + close_timeout (config_of r)) r
