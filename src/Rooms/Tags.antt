-- ===== src/Rooms/Tags.antt =====
-- The tags of a room that is closed: `Room._handle_close_tags` (chats/apps/rooms/models.py).
use chats_engine.Prelude.{
  ℕ, ◌≡◌, refl, ap, sym, subst, ◌∙◌, ◌⊎◌, inl, inr, Bool, true, false, not, ◌&&◌, ◌||◌, List, [],
  ◌∷◌, arith, ◌==◌, ==_iff, if◌then◌else◌, select, Bool-cases,
}
use chats_engine.Rooms.{add_tags, has_tag, handle_close_tags, contains}

at_eq : {a b : ℕ} → (a == b) ≡ true → a ≡ b
at_eq {a} {b} e = (==_iff a b).0 e

-- A test of two numbers has the same value at numbers equal to them.
moved : {a r b t : ℕ} {v : Bool} (P : ℕ → ℕ → Bool) → P a b ≡ v → a ≡ r → b ≡ t → P r t ≡ v
moved {a} {r} {b} {t} {v} P h at_r at_t =
    subst (λ x. P r x ≡ v) at_t (subst (λ x. P x b ≡ v) at_r h)

-- Adding what is there already changes nothing.
or_known :
    (held s t rest : Bool)
    → (s ≡ true → t ≡ true → held ≡ true)
    → (held || (s && rest)) ≡ (held || (s && (t || rest)))
or_known true s t rest k = refl
or_known false false t rest k = refl
or_known false true false rest k = refl
or_known false true true rest k = subst (λ h. (h || rest) ≡ (h || true)) (sym (k refl refl)) refl

-- Keeping an element that passes, or dropping one that does not.
kept_there :
    (h k rest q : Bool)
    → (h ≡ true → k ≡ true → q ≡ true)
    → ((h && k) || (rest && q)) ≡ (((h && k) || rest) && q)
kept_there true true rest q f = rw (f refl refl) refl
kept_there true false rest q f = refl
kept_there false k rest q f = refl

dropped_there :
    (h k rest q : Bool)
    → (h ≡ true → k ≡ true → q ≡ false)
    → (rest && q) ≡ (((h && k) || rest) && q)
dropped_there true true rest q f = rw (f refl refl) (ground arith)
dropped_there true false rest q f = refl
dropped_there false k rest q f = refl

only_there :
    (held there new : Bool)
    → ((held || (there && new)) && (not there || new)) ≡ (if there then new else held)
only_there held true new = ground arith
only_there held false new = ground arith

module _ (room : ℕ) where
  has-add_tags :
      (r tag : ℕ) (new : List ℕ) (tags : List (ℕ × ℕ))
      → has_tag r (add_tags room new tags) tag
        ≡ (has_tag r tags tag || (r == room && contains new tag))
  unfolding add_tags
  has-add_tags r tag [] tags = ground arith
  has-add_tags r tag (t ∷ ts) tags =
      has-add_tags r tag ts (if has_tag room tags t then tags else (room, t) ∷ tags)
      ∙ added (Bool-cases (has_tag room tags t))
    where
      added :
          ((has_tag room tags t ≡ true) ⊎ (has_tag room tags t ≡ false))
          → (has_tag r (if has_tag room tags t then tags else (room, t) ∷ tags) tag
              || (r == room && contains ts tag))
            ≡ (has_tag r tags tag || (r == room && contains (t ∷ ts) tag))
      added (inl old) = rw old (
          or_known (has_tag r tags tag) (r == room) (t == tag) (contains ts tag)
            (λ a b. moved (λ x y. has_tag x tags y) old (sym (at_eq a)) (at_eq b)))
      added (inr new) = rw new (ground arith)

  has-kept :
      (r tag : ℕ) (new : List ℕ) (tags : List (ℕ × ℕ))
      → has_tag r (select (λ t. not (t.0 == room) || contains new t.1) tags) tag
        ≡ (has_tag r tags tag && (not (r == room) || contains new tag))
  has-kept r tag new [] = refl
  has-kept r tag new ((a, b) ∷ tags) = elim (Bool-cases (not (a == room) || contains new b)) [
    | inl e ↦ rw e (
        ap (λ x. (a == r && b == tag) || x) (has-kept r tag new tags)
        ∙ kept_there (a == r) (b == tag) (has_tag r tags tag) (not (r == room) || contains new tag)
            (λ p q. moved (λ x y. not (x == room) || contains new y) e (at_eq p) (at_eq q)))
    | inr e ↦ rw e (
        has-kept r tag new tags
        ∙ dropped_there (a == r) (b == tag) (has_tag r tags tag)
            (not (r == room) || contains new tag)
            (λ p q. moved (λ x y. not (x == room) || contains new y) e (at_eq p) (at_eq q)))
  ]

  -- The tags of a room that is closed become exactly the given ones, and no other room's change.
  pub has-handle_close_tags :
      (r tag : ℕ) (new : List ℕ) (tags : List (ℕ × ℕ))
      → has_tag r (handle_close_tags room new tags) tag
        ≡ (if r == room then contains new tag else has_tag r tags tag)
  unfolding handle_close_tags
  has-handle_close_tags r tag new tags =
      has-kept r tag new (add_tags room new tags)
      ∙ ap (λ b. b && (not (r == room) || contains new tag)) (has-add_tags r tag new tags)
      ∙ only_there (has_tag r tags tag) (r == room) (contains new tag)
