-- ===== src/OnlineTime/Intervals.antt =====
-- The online time is the sum, over the changes, of the time to the next one where the agent was
-- online (chats/apps/api/v1/external/agents/calculator.py).
use chats_engine.Prelude.{
  ℕ, ◌≡◌, refl, ap, sym, ◌∙◌, Bool, true, false, Option, none, some, List, [], ◌∷◌, ◌++◌,
  if◌then◌else◌, Bool-cases, inl, inr,
}
use chats_engine.Prelude.Int.{ℤ, pos, sub_ℕ, ◌+ℤ◌, int_laws}
use chats_engine.OnlineTime.{
  StatusChange, is_online, Tally, round, rounds, finish, calculate_online_time,
}

-- When a stretch ends: at the first of the later changes, or at `until`.
abbrev pub next : ℕ → List StatusChange → ℕ
next until [] = until
next until (e ∷ es) = e.timestamp

-- The time online up to `until`, each change's stretch taken by itself.
abbrev time_online : ℕ → List StatusChange → ℤ
time_online until [] = pos 0
time_online until (e ∷ es) =
    (if is_online e.status then sub_ℕ (next until es) e.timestamp else pos 0)
    +ℤ time_online until es

-- What the loop has not added yet of the stretch that it is in.
abbrev pending : ℕ → Option ℕ → List StatusChange → ℤ
pending until none es = pos 0
pending until (some start) es = sub_ℕ (next until es) start

add_zero : (a : ℤ) → a +ℤ pos 0 +ℤ pos 0 ≡ a
add_zero a = omega int_laws

zero_mid : (a b : ℤ) → a +ℤ pos 0 +ℤ (pos 0 +ℤ b) ≡ a +ℤ pos 0 +ℤ b
zero_mid a b = omega int_laws

move_right : (a b c : ℤ) → a +ℤ pos 0 +ℤ (b +ℤ c) ≡ a +ℤ b +ℤ c
move_right a b c = omega int_laws

join : (a c : ℤ) (s t u : ℕ) → a +ℤ sub_ℕ t s +ℤ (sub_ℕ u t +ℤ c) ≡ a +ℤ sub_ℕ u s +ℤ c
join a c s t u = omega int_laws

stop_here : (a b : ℤ) → a +ℤ b +ℤ pos 0 ≡ a +ℤ b
stop_here a b = omega int_laws

regroup : (a b c : ℤ) → a +ℤ b +ℤ (pos 0 +ℤ c) ≡ a +ℤ b +ℤ pos 0 +ℤ c
regroup a b c = omega int_laws

zero_left : (a : ℤ) → pos 0 +ℤ pos 0 +ℤ a ≡ a
zero_left a = omega int_laws

module _ (until : ℕ) where
  rounds-sum :
      (total : ℤ) (start : Option ℕ) (es : List StatusChange)
      → finish true until (rounds (total, start) es)
        ≡ total +ℤ pending until start es +ℤ time_online until es
  unfolding rounds
  rounds-sum total none [] = sym (add_zero total)
  rounds-sum total (some s) [] = sym (stop_here total (sub_ℕ until s))
  rounds-sum total none (e ∷ es) = elim (Bool-cases (is_online e.status)) [
    | inl on ↦ rw on (rounds-sum total (some e.timestamp) es ∙ sym (move_right total _ _))
    | inr off ↦ rw off (rounds-sum total none es ∙ sym (zero_mid total _))
  ]
  rounds-sum total (some s) (e ∷ es) = elim (Bool-cases (is_online e.status)) [
    | inl on ↦ rw on (rounds-sum total (some s) es ∙ sym (join total _ s e.timestamp _))
    | inr off ↦ rw off (rounds-sum (total +ℤ sub_ℕ e.timestamp s) none es ∙ sym (regroup total _ _))
  ]

-- With the last stretch closed at `now`, the result is the sum, over the changes, of the time from
-- an online one to the change after it, or to `now`.
pub calculate_online_time-sum :
    (events : List StatusChange) (now : ℕ)
    → calculate_online_time events true now ≡ time_online now events
unfolding calculate_online_time
calculate_online_time-sum [] now = refl
calculate_online_time-sum (e ∷ es) now = rounds-sum now (pos 0) none (e ∷ es) ∙ zero_left _

rounds-append :
    (t : Tally) (es : List StatusChange) (e : StatusChange)
    → rounds t (es ++ e ∷ []) ≡ round (rounds t es) e
unfolding rounds
rounds-append t [] e = refl
rounds-append t (x ∷ es) e = rounds-append (round t x) es e

finish-offline :
    (close : Bool) (now : ℕ) (t : Tally) (e : StatusChange)
    → is_online e.status ≡ false
    → finish close now (round t e) ≡ finish true e.timestamp t
finish-offline close now (total, none) e off = rw off
finish-offline close now (total, some s) e off = rw off

nonempty :
    (close : Bool) (now : ℕ) (es : List StatusChange)
    → calculate_online_time es close now ≡ finish close now (rounds (pos 0, none) es)
unfolding calculate_online_time
nonempty close now [] = refl
nonempty close now (e ∷ es) = refl

-- Where the last change takes the agent offline, the result is the time online up to that change,
-- whatever the flag and the clock say.
calculate_online_time-offline :
    (events : List StatusChange) (last : StatusChange) (close : Bool) (now : ℕ)
    → is_online last.status ≡ false
    → calculate_online_time (events ++ last ∷ []) close now ≡ time_online last.timestamp events
calculate_online_time-offline events last close now off =
    nonempty close now (events ++ last ∷ [])
    ∙ ap (finish close now) (rounds-append (pos 0, none) events last)
    ∙ finish-offline close now _ last off
    ∙ sym (nonempty true last.timestamp events)
    ∙ calculate_online_time-sum events last.timestamp
