-- ===== src/Queues/Router/Waiting.antt =====
-- Rooms that a query finds, in any order (for chats/apps/queues/services.py).
use chats_engine.Prelude.{
  ℕ, ◌≡◌, refl, sym, subst, ◌∙◌, inl, inr, Bool, true, false, ◌||◌, none, some, List, [], ◌∷◌, ◌==◌,
  ==_iff, count_if, any, select, Bool-cases, arith,
}
use chats_engine.Store.{Room}
use chats_engine.Store.Tables.{find_room, Distinct}
use chats_engine.Queues.{order_by, insert_by}
use chats_engine.Queues.Least.{Among, first, later}

any-insert_by :
    {A : Type 0} (f : A → Bool) (key : A → ℕ) (x : A) (xs : List A)
    → any f (insert_by key x xs) ≡ (f x || any f xs)
any-insert_by f key x [] = refl
any-insert_by f key x (y ∷ ys) = ground (arith, any-insert_by f key x ys)

pub any-order_by :
    {A : Type 0} (f : A → Bool) (key : A → ℕ) (xs : List A) → any f (order_by key xs) ≡ any f xs
any-order_by f key [] = refl
any-order_by f key (x ∷ xs) =
    ground (arith, any-insert_by f key x (order_by key xs), any-order_by f key xs)

pub any-select :
    {A : Type 0} (f p : A → Bool) {a : A} (xs : List A)
    → Among a xs
    → p a ≡ true
    → f a ≡ true
    → any f (select p xs) ≡ true
any-select f p [] m h k = elim m [ ]
any-select f p (x ∷ xs) first h k = rw h (rw k refl)
any-select f p (x ∷ xs) (later m) h k = ground (arith, any-select f p xs m h k)

pub find_room-Among :
    (u : ℕ) (r : Room) (rooms : List Room)
    → find_room u rooms ≡ some r
    → Among r rooms × ((r.uuid == u) ≡ true)
unfolding find_room
find_room-Among u r [] e = absurd (ground (arith, e))
find_room-Among u r (x ∷ xs) e = elim (Bool-cases (x.uuid == u)) [
  | inl hit ↦
      let is : x ≡ r = ground (arith, hit, e) in
      (subst (λ y. Among r (y ∷ xs)) (sym is) first, subst (λ y. (y.uuid == u) ≡ true) is hit)
  | inr miss ↦ let k = find_room-Among u r xs (ground (arith, miss, e)) in (later k.0, k.1)
]

-- No room that is found passes the test, so none is counted.
pub none_counted :
    (p : Room → Bool) (rooms : List Room)
    → Distinct rooms
    → ((u : ℕ) (r : Room) → find_room u rooms ≡ some r → p r ≡ false)
    → count_if p rooms ≡ 0
unfolding find_room
none_counted p [] d h = refl
none_counted p (x ∷ xs) d h =
    let here : p x ≡ false = h x.uuid x (ground arith) in
    rw here (omega (arith, none_counted p xs d.1 (λ u r e. h u r (tail u r e))))
  where
    tail : (u : ℕ) (r : Room) → find_room u xs ≡ some r → find_room u (x ∷ xs) ≡ some r
    tail u r e = elim (Bool-cases (x.uuid == u)) [
      | inl hit ↦
          absurd
            (nowhere (sym (subst (λ k. find_room k xs ≡ none) ((==_iff x.uuid u).0 hit) d.0) ∙ e))
      | inr miss ↦ rw miss e
    ]
      where
        nowhere : ¬ (none ≡ some r)
        nowhere e = ground (arith, e)
