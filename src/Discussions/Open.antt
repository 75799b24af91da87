-- ===== src/Discussions/Open.antt =====
-- What holds of the table of discussions over every history of requests
-- (chats/apps/discussions/models/discussion.py and usecases).
use chats_engine.Prelude.{
  ℕ, ◌≡◌, ◌≤◌, ◌+◌, refl, sym, subst, inl, inr, Bool, true, false, ◌&&◌, Option, none, some, List,
  [], ◌∷◌, ◌++◌, arith, ◌==◌, if◌then◌else◌, any, Bool-cases, All, ==_iff,
}
use chats_engine.Discussions.{
  Discussion, DiscussionUser, State, Outcome, done, failed, Env, Request, Table,
  create_discussion_user, create, execute, opened, stored, is_open, create_discussion_message,
  new_discussion, text_created,
}
use chats_engine.Discussions.Acting.{
  state_of, waits, Acts, Kept, Kept-Acts, Kept-user, Kept-message, Kept-trans,
}

abbrev pub open_in : ℕ → List Discussion → ℕ
open_in room [] = 0
open_in room (d ∷ ds) = (if is_open room d then 1 else 0) + open_in room ds

-- The actions are on a discussion that is read from the table, and stored in it.
pub data Step (env : Env) (t : Table) : Table → Type 0 where
  creates : (r : Request) (user : ℕ) → Step env t (create env r user t).1
  acts :
      (before after : List Discussion) (s s' : State)
      → t.discussions ≡ before ++ s.discussion ∷ after
      → Acts env s s'
      → Step env t (record { discussions = before ++ s'.discussion ∷ after; sent = s'.sent })

pub data Reach (env : Env) : Table → Type 0 where
  here : Reach env (record { discussions = []; sent = [] })
  next : {t t' : Table} → Reach env t → Step env t t' → Reach env t'

abbrev Waiting : List Discussion → Type 0
Waiting ds = All (λ d. d.is_queued ≡ waits d) ds

record Fine (ds : List Discussion) : Type 0 where
  waiting : Waiting ds
  one_open : (room : ℕ) → open_in room ds ≤ 1

at_most_one : (b : Bool) → (if b then 1 else 0) ≤ 1
at_most_one true = ground arith
at_most_one false = ground arith

if_implies : (a b : Bool) → (a ≡ true → b ≡ true) → (if a then 1 else 0) ≤ (if b then 1 else 0)
if_implies true b k = rw (k refl) (ground arith)
if_implies false true k = ground arith
if_implies false false k = ground arith

was_open : (a x : Bool) (b : Bool) → (b ≡ false → a ≡ false) → (x && a) ≡ true → (x && b) ≡ true
was_open true true true k h = refl
was_open true true false k h = absurd (ground (arith, k refl))
was_open false true b k h = absurd (ground (arith, h))
was_open a false b k h = h

Kept-open :
    (room : ℕ) (d d' : Discussion)
    → Kept d d'
    → (if is_open room d' then 1 else 0) ≤ (if is_open room d then 1 else 0)
Kept-open room d d' k = if_implies (is_open room d') (is_open room d) (λ e.
    was_open d'.is_active (d.room == room) d.is_active k.stays_closed
      (subst (λ x. (x == room && d'.is_active) ≡ true) k.same_room e))

replaced-open :
    (room : ℕ) (before after : List Discussion) (d d' : Discussion)
    → Kept d d'
    → open_in room (before ++ d' ∷ after) ≤ open_in room (before ++ d ∷ after)
replaced-open room [] after d d' k = ground (arith, Kept-open room d d' k)
replaced-open room (e ∷ before) after d d' k =
    ground (arith, replaced-open room before after d d' k)

replaced-Waiting :
    (before after : List Discussion) (d d' : Discussion)
    → Kept d d'
    → Waiting (before ++ d ∷ after)
    → Waiting (before ++ d' ∷ after)
replaced-Waiting [] after d d' k h = (k.keeps_waiting h.0, h.1)
replaced-Waiting (e ∷ before) after d d' k h = (h.0, replaced-Waiting before after d d' k h.1)

none_open : (room : ℕ) (ds : List Discussion) → any (is_open room) ds ≡ false → open_in room ds ≡ 0
none_open room [] h = refl
none_open room (d ∷ ds) h = elim (Bool-cases (is_open room d)) [
  | inl yes_open ↦ absurd (ground (arith, h, yes_open))
  | inr shut ↦
      let rest : any (is_open room) ds ≡ false = ground (arith, h, shut) in
      let ended : open_in room ds ≡ 0 = none_open room ds rest in rw shut (ground (arith, ended))
]

added-one :
    (room : ℕ) (d : Discussion) (ds : List Discussion)
    → any (is_open d.room) ds ≡ false
    → open_in room ds ≤ 1
    → open_in room (d ∷ ds) ≤ 1
added-one room d ds free h = elim (Bool-cases (d.room == room)) [
  | inl same ↦
      let none_there : open_in d.room ds ≡ 0 = none_open d.room ds free in
      let none_here : open_in room ds ≡ 0 =
        subst (λ x. open_in x ds ≡ 0) ((==_iff d.room room).0 same) none_there in
      ground (arith, at_most_one (is_open room d), none_here)
  | inr other ↦ rw other (ground (arith, h))
]

stored_first :
    (o : Outcome (Option DiscussionUser)) (t : Table)
    → (state_of o).discussion ∷ t.discussions ≡ (stored o t).1.discussions
stored_first (done a s) t = refl
stored_first (failed e s) t = refl

stored-Fine :
    (env : Env) (r : Request) (user : ℕ) (t : Table)
    → any (is_open r.room) t.discussions ≡ false
    → Fine t.discussions
    → Fine
        (stored (create_discussion_user env user user (some 0) (opened r user t)) t).1.discussions
stored-Fine env r user t free f =
    let first : State = record { discussion = new_discussion r user; sent = t.sent } in
    let second = create_discussion_message text_created none false first in
    let o = create_discussion_user env user user (some 0) (opened r user t) in
    let k = Kept-trans (Kept-message text_created none false first) (
      Kept-trans (Kept-message r.initial_message (some user) false second)
        (Kept-user env user user (some 0) (opened r user t))) in
    let d = (state_of o).discussion in
    subst Fine (stored_first o t) (record {
      waiting = (k.keeps_waiting refl, f.waiting);
      one_open = λ room.
          added-one room d t.discussions
            (subst (λ x. any (is_open x) t.discussions ≡ false) (sym k.same_room) free)
            (f.one_open room);
    })

create-Fine :
    (env : Env) (r : Request) (user : ℕ) (t : Table)
    → Fine t.discussions
    → Fine (create env r user t).1.discussions
unfolding create execute
create-Fine env r user t f = elim (Bool-cases (any (is_open r.room) t.discussions)) [
  | inl busy ↦ rw busy f
  | inr free ↦ elim (Bool-cases (r.queue_project == r.room_project)) [
    | inl same ↦ rw free (rw same (stored-Fine env r user t free f))
    | inr other ↦ rw free (rw other f)
  ]
]

Step-Fine : {env : Env} {t t' : Table} → Step env t t' → Fine t.discussions → Fine t'.discussions
Step-Fine {env} {t} (creates r user) f = create-Fine env r user t f
Step-Fine (acts before after s s' from act) f =
    let old : Fine (before ++ s.discussion ∷ after) = subst Fine from f in
    let k = Kept-Acts act in
    record {
      waiting = replaced-Waiting before after s.discussion s'.discussion k old.waiting;
      one_open = λ room.
          ground (
            arith,
            replaced-open room before after s.discussion s'.discussion k,
            old.one_open room,
          );
    }

reached-Fine : {env : Env} {t : Table} → Reach env t → Fine t.discussions
reached-Fine here = record { waiting = tt; one_open = λ room. ground arith }
reached-Fine (next r step) = Step-Fine step (reached-Fine r)

-- However discussions are created, written in, joined and closed, a room has at most one that is
-- active, and a discussion is queued exactly while fewer than two users have been added to it.
pub Reach-one_open :
    {env : Env} {t : Table}
    → Reach env t
    → All (λ d. d.is_queued ≡ waits d) t.discussions × ((room : ℕ) → open_in room t.discussions ≤ 1)
Reach-one_open reach = let f = reached-Fine reach in (f.waiting, f.one_open)
