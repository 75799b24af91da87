-- ===== src/Bulk/Frame.antt =====
-- What the steps of the bulk services leave alone (chats/apps/api/v1/rooms/services).
use chats_engine.Prelude.{
  ℕ, String, ◌≡◌, refl, ap, ◌∙◌, Bool, true, false, not, ◌&&◌, ◌==◌, Option, none, some,
  if◌then◌else◌, is_some,
}
use chats_engine.Store.{
  Queue, Permission, Room, Effect, automatic_message, Db, Error, Result, ok, err,
}
use chats_engine.Store.Action.{Action, Done, pure, when, attempt, or_raise, ◌>>=◌, ◌>>◌, bind}
use chats_engine.InService.{find_permission}
use chats_engine.Bulk.{
  Outside, deliver, deliver_or, change_ticketer_of, change_ticketer_for_room, to_queue,
  notify_queue, to_user, to_permission, notify_user, or_own, ticket_of, update_ticket, automatic_of,
  send_automatic_message,
}

-- Nothing changes but what is sent.
abbrev Sends : {A : Type 0} → Action A → Type 0
Sends m = (db : Db) → (m db).1 ≡ record db { outbox = (m db).1.outbox }

pure-Sends : {A : Type 0} (a : A) → Sends (pure a)
pure-Sends a db = refl

bound-Sends :
    {A B : Type 0} (f : A → Action B) (before : Db) (x : Result A × Db)
    → ((a : A) → Sends (f a))
    → x.1 ≡ record before { outbox = x.1.outbox }
    → (bind x f).1 ≡ record before { outbox = (bind x f).1.outbox }
bound-Sends f before (ok a, db) g e =
    g a db ∙ ap (λ (d : Db). record d { outbox = (f a db).1.outbox }) e
bound-Sends f before (err x, db) g e = e

>>=-Sends :
    {A B : Type 0} (m : Action A) (f : A → Action B)
    → Sends m
    → ((a : A) → Sends (f a))
    → Sends (m >>= f)
>>=-Sends m f s g db = bound-Sends f db (m db) g (s db)

pub sends_too :
    (a b c : Db)
    → b ≡ record a { outbox = b.outbox }
    → c ≡ record b { outbox = c.outbox }
    → c ≡ record a { outbox = c.outbox }
sends_too a b c p q = q ∙ ap (λ (d : Db). record d { outbox = c.outbox }) p

attempt-Sends : (m : Action Done) → Sends m → Sends (attempt m)
attempt-Sends m s = s

pub when-Sends : (b : Bool) (m : Action Done) → Sends m → Sends (when b m)
when-Sends true m s db = s db
when-Sends false m s db = refl

or_raise-Sends : {A : Type 0} (o : Option A) (e : Error) → Sends (or_raise o e)
or_raise-Sends none e db = refl
or_raise-Sends (some a) e db = refl

if-Sends : {A : Type 0} (b : Bool) (m n : Action A) → Sends m → Sends n → Sends (if b then m else n)
if-Sends true m n s t = s
if-Sends false m n s t = t

module _ (o : Outside) where
  delivered-Sends : (x : Option Error) (e : Effect) → Sends (deliver_or o x e)
  delivered-Sends none e db = refl
  delivered-Sends (some x) e db = refl

  pub deliver-Sends : (e : Effect) → Sends (deliver o e)
  deliver-Sends e db = delivered-Sends (o.fails e db) e db

  change_ticketer_of-Sends :
      (t : Option ℕ) (q : Option Queue) (sector : ℕ) → Sends (change_ticketer_of o t q sector)
  change_ticketer_of-Sends none q sector db = refl
  change_ticketer_of-Sends (some t) none sector db = refl
  change_ticketer_of-Sends (some t) (some q) sector db =
      if-Sends (q.sector.uuid == sector) _ _ (pure-Sends tt)
        (if-Sends (not (o.is_feature_active q.sector.project.uuid)) _ _ (pure-Sends tt) (
          >>=-Sends _ _ (or_raise-Sends (o.get_ticketer_by_sector q.sector.project.uuid sector) _)
            (λ ticketer. deliver-Sends _)))
        db

  pub change_ticketer_for_room-Sends :
      (r : Room) (sector : ℕ) → Sends (change_ticketer_for_room o r sector)
  unfolding change_ticketer_for_room
  change_ticketer_for_room-Sends r sector =
      if-Sends (not o.use_weni_flows) _ _ (pure-Sends tt)
        (change_ticketer_of-Sends r.ticket_uuid r.queue sector)

  to_queue-Sends : (room : ℕ) (event : String) (q : Option Queue) → Sends (to_queue o room event q)
  to_queue-Sends room event none db = refl
  to_queue-Sends room event (some q) db = deliver-Sends _ db

  pub notify_queue-Sends : (r : Room) (event : String) → Sends (notify_queue o r event)
  unfolding notify_queue
  notify_queue-Sends r event = to_queue-Sends r.uuid event r.queue

  to_permission-Sends :
      (room : ℕ) (event : String) (p : Option Permission) → Sends (to_permission o room event p)
  to_permission-Sends room event none db = refl
  to_permission-Sends room event (some p) db = deliver-Sends _ db

  to_user-Sends :
      (room : ℕ) (event : String) (user : Option ℕ) (q : Option Queue)
      → Sends (to_user o room event user q)
  to_user-Sends room event none none db = refl
  to_user-Sends room event (some u) none db = refl
  to_user-Sends room event none (some q) db = refl
  to_user-Sends room event (some u) (some q) db =
      to_permission-Sends room event (find_permission u q.sector.project.uuid db.permissions) db

  pub notify_user-Sends :
      (r : Room) (event : String) (user : Option ℕ) → Sends (notify_user o r event user)
  unfolding notify_user
  notify_user-Sends r event user = to_user-Sends r.uuid event (or_own user r.user) r.queue

  ticket_of-Sends : (t u : Option ℕ) (room : ℕ) → Sends (ticket_of o t u room)
  ticket_of-Sends none u room db = refl
  ticket_of-Sends (some t) none room db = refl
  ticket_of-Sends (some t) (some u) room db = deliver-Sends _ db

  pub update_ticket-Sends : (r : Room) → Sends (update_ticket o r)
  unfolding update_ticket
  update_ticket-Sends r = ticket_of-Sends r.ticket_uuid r.user r.uuid

  automatic_of-Sends : (q : Option Queue) (r : Room) → Sends (automatic_of o q r)
  automatic_of-Sends none r db = refl
  automatic_of-Sends (some q) r db =
      when-Sends q.sector.automatic_message (deliver o (automatic_message r.uuid))
        (deliver-Sends (automatic_message r.uuid)) db

  pub send_automatic_message-Sends : (r : Room) → Sends (send_automatic_message o r)
  unfolding send_automatic_message
  send_automatic_message-Sends r =
      if-Sends (is_some r.user && is_some r.user_assigned_at) _ _ (automatic_of-Sends r.queue r)
        (pure-Sends tt)

-- The rooms stay as they are.
abbrev pub Keeps : {A : Type 0} → Action A → Type 0
Keeps m = (db : Db) → (m db).1.rooms ≡ db.rooms

pub Sends-Keeps : {A : Type 0} (m : Action A) → Sends m → Keeps m
Sends-Keeps m s db = ap (λ (d : Db). d.rooms) (s db)

bound-Keeps :
    {A B : Type 0} (f : A → Action B) (x : Result A × Db)
    → ((a : A) → Keeps (f a))
    → (bind x f).1.rooms ≡ x.1.rooms
bound-Keeps f (ok a, db) g = g a db
bound-Keeps f (err e, db) g = refl

>>=-Keeps :
    {A B : Type 0} (m : Action A) (f : A → Action B)
    → Keeps m
    → ((a : A) → Keeps (f a))
    → Keeps (m >>= f)
>>=-Keeps m f s g db = bound-Keeps f (m db) g ∙ s db

-- What holds of the value, where there is one.
abbrev pub Good {ℓ} : {A : Type 0} → (A → Type ℓ) → Result A → Type ℓ
Good P (ok a) = P a
Good P (err e) = Unit

-- The rooms stay, and the value is as `P` says.
pub record Steps {A : Type 0} (P : A → Type 0) (m : Action A) : Type 0 where
  pub at : (db : Db) → ((m db).1.rooms ≡ db.rooms) × Good P (m db).0

bound-Steps :
    {A B : Type 0} (Q : A → Type 0) (P : B → Type 0) (f : A → Action B) (x : Result A × Db)
    → Good Q x.0
    → ((a : A) → Q a → Steps P (f a))
    → ((bind x f).1.rooms ≡ x.1.rooms) × Good P (bind x f).0
bound-Steps Q P f (ok a, db) h g = (g a h).at db
bound-Steps Q P f (err e, db) h g = (refl, tt)

pub >>=-Steps :
    {A B : Type 0} (Q : A → Type 0) (P : B → Type 0) (m : Action A) (f : A → Action B)
    → Steps Q m
    → ((a : A) → Q a → Steps P (f a))
    → Steps P (m >>= f)
>>=-Steps Q P m f s g = record {
  at = λ db.
      let (kept, good) = s.at db in
      let (then_kept, then_good) = bound-Steps Q P f (m db) good g in (then_kept ∙ kept, then_good);
}

bound-then :
    {B : Type 0} (P : B → Type 0) (k : Action B) (x : Result Done × Db)
    → Steps P k
    → ((bind x (λ _. k)).1.rooms ≡ x.1.rooms) × Good P (bind x (λ _. k)).0
bound-then P k (ok a, db) g = g.at db
bound-then P k (err e, db) g = (refl, tt)

-- A step without a value of interest, and what follows it.
pub >>-Steps :
    {B : Type 0} (P : B → Type 0) (m : Action Done) (k : Action B)
    → Keeps m
    → Steps P k
    → Steps P (m >> k)
>>-Steps P m k s g = record {
  at = λ db. let (kept, good) = bound-then P k (m db) g in (kept ∙ s db, good);
}

pub sent-Steps :
    {B : Type 0} (P : B → Type 0) (m : Action Done) (k : Action B)
    → Sends m
    → Steps P k
    → Steps P (m >> k)
sent-Steps P m k s g = >>-Steps P m k (Sends-Keeps m s) g

pub pure-Steps : {A : Type 0} (P : A → Type 0) (a : A) → P a → Steps P (pure a)
pure-Steps P a p = record { at = λ db. (refl, p) }
