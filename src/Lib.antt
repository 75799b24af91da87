-- ===== src/Lib.antt =====
-- A verification library for Chats Engine, the service behind Weni's human support chats: contacts
-- write to rooms, which wait in the queues of a sector and are served by agents.
--
-- The parts, and how they interact. A room is created for a contact (Resolve decides whom it goes
-- to), is saved and closed (Rooms), which keeps the agents' In-Service status (InService); a room
-- that waits is given to an agent who is available (Queues) when its queue is routed (Queues.Router),
-- in a task under a lock (RouteTasks). A room whose contact is silent is warned, and then closed
-- (Inactivity). Managers transfer, take and close many rooms at once (Bulk), with the same save and
-- close, and each batch ends by routing the queues it has touched; deleting a queue or a sector (Deletion)
-- transfers or closes its rooms in this way first. Before all that, the sector's working hours admit the room
-- (WorkingHours). Who may serve a queue follows from roles in groups of sectors (Groups). Agents discuss a room among themselves (Discussions). The tables that these parts share are one value, `Db` in Store; an operation is a
-- function from it to a new one, with a `Result` where it raises.
--
--   Prelude       shared types and lemmas: lists, Boolean tests and integers over native numbers
--   Store         chats/apps/{projects,sectors,queues,rooms,dashboard}/models: rows and tables
--   InService     chats/apps/projects/usecases/status_service.py, and CustomStatus.save
--   Rooms         chats/apps/rooms/models.py: Room.save, close, pin and unpin, and the history of transfers
--   Bulk          chats/apps/api/v1/rooms/services: bulk_transfer_service.py (Bulk.Transfer),
--                 bulk_take_service.py (Bulk.Take), bulk_close_service.py (Bulk.Close), and
--                 chats/apps/rooms/flows_ticketer_service.py; their loops in Bulk.Loop
--   Deletion      chats/apps/api/v1/{queues,sectors}/viewsets.py: destroy
--   Groups        chats/apps/sectors/usecases/group_sector_authorization.py, over tables of its own
--   Discussions   chats/apps/discussions: models, usecases and permissions, over a table of its own
--   Queues        chats/apps/queues/models.py and usecases/can_agent_receive_room.py
--   Queues.Router chats/apps/queues/services.py
--   Resolve       chats/apps/rooms/usecases/resolve_room_user.py and chats/apps/queues/utils.py
--   RouteTasks    chats/apps/queues/tasks.py
--   Inactivity    chats/apps/rooms/usecases/inactivity.py, with chats/apps/msgs/models.py, Message.save
--   WorkingHours  chats/apps/sectors/utils.py
--   OnlineTime    chats/apps/api/v1/external/agents/calculator.py
--   Phone         chats/core/phone.py
--
-- Parameters stand for what is not in the repository: feature flags (`Env`), other systems and what
-- sending to them raises (`Outside`, `Celery`), random choices and the clock (`Turn`), the database's
-- case-insensitive comparison and time zones, the cache and the parser of times. Users and rows are named by numbers, an instant is a number of microseconds. A loop is a
-- recursion on the list that it goes through; the indices of the batches are counted with the length
-- of the list as fuel (Bulk.Batches). What other processes write is a function applied between the
-- turns of the routing loop and of the bulk loops; each other operation is one step. `Store.Action`
-- is the state with exceptions in which the bulk services are written.
--
-- Not modelled: serializers, other views and websocket consumers, requests to other services and their
-- retries, indexing and logging, the texts of other messages, and the tables that no part above reads.
-- What ending an agent's service and starting the CSAT flow raise is part of `close`; the task by which
-- `room_assigned` logs a status is taken to be sent.
-- The effects that operations have on other systems are the entries of `Db.outbox`.
mod Prelude
pub mod Phone
pub mod OnlineTime
pub mod WorkingHours
pub mod Store
pub mod InService
pub mod Rooms
pub mod Queues
pub mod Resolve
pub mod RouteTasks
pub mod Inactivity
pub mod Bulk
pub mod Deletion
pub mod Groups
pub mod Discussions
