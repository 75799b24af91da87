-- ===== src/Queues/Least.antt =====
-- The agents with the smallest number, and those of a list in an order (for
-- chats/apps/queues/models.py).
use chats_engine.Prelude.{
  zero, ℕ, suc, ◌≤◌, ◌<◌, ◌≡◌, refl, sym, subst, ◌⊎◌, inl, inr, Bool, true, false, ◌||◌, some, List,
  [], ◌∷◌, leb, ltb, ◌==◌, ==_iff, min, if◌then◌else◌, is_some, length, get_elem?, any, select, All,
  Bool-cases, arith,
}
use chats_engine.Store.{Permission}
use chats_engine.Queues.{order_by, insert_by, least, eligible}

-- An element of a list.
pub data Among {ℓ} {A : Type ℓ} (a : A) : List A → Type ℓ where
  first : {xs : List A} → Among a (a ∷ xs)
  later : {x : A} {xs : List A} → Among a xs → Among a (x ∷ xs)

module _ {ℓ} {A : Type ℓ} where
  All-Among {κ} : (P : A → Type κ) {a : A} (xs : List A) → All P xs → Among a xs → P a
  All-Among P [] h m = elim m [ ]
  All-Among P (x ∷ xs) h first = h.0
  All-Among P (x ∷ xs) h (later m) = All-Among P xs h.1 m

  Among-none : {a : A} → ¬ Among a []
  Among-none m = elim m [ ]

  Among-cons : {a x : A} {xs : List A} → Among a (x ∷ xs) → (x ≡ a) ⊎ Among a xs
  Among-cons first = inl refl
  Among-cons (later m) = inr m

  pub get_elem?-Among : {a : A} (xs : List A) (i : ℕ) → get_elem? xs i ≡ some a → Among a xs
  get_elem?-Among [] i e = absurd (ground (arith, e))
  get_elem?-Among {a} (x ∷ xs) zero e = subst (λ y. Among a (y ∷ xs)) (ground (arith, e)) first
  get_elem?-Among (x ∷ xs) (suc i) e = later (get_elem?-Among xs i e)

  pub select-Among :
      {a : A} (p : A → Bool) (xs : List A) → Among a (select p xs) → Among a xs × (p a ≡ true)
  select-Among p [] m = absurd (Among-none m)
  select-Among {a} p (x ∷ xs) m = elim (Bool-cases (p x)) [
    | inl hit ↦
        elim (Among-cons
          (subst (λ b. Among a (if b then x ∷ select p xs else select p xs)) hit m)) [
            | inl e ↦ (subst (λ y. Among a (y ∷ xs)) (sym e) first, subst (λ y. p y ≡ true) e hit)
            | inr n ↦ (later (select-Among p xs n).0, (select-Among p xs n).1)
          ]
    | inr miss ↦
        let n =
          select-Among p xs
            (subst (λ b. Among a (if b then x ∷ select p xs else select p xs)) miss m) in
        (later n.0, n.1)
  ]

  pub get_elem?-is_some : (xs : List A) (i : ℕ) → i < length xs → is_some (get_elem? xs i) ≡ true
  get_elem?-is_some [] i h = absurd (omega (arith, h))
  get_elem?-is_some (x ∷ xs) zero h = refl
  get_elem?-is_some (x ∷ xs) (suc i) h = get_elem?-is_some xs i (omega (arith, h))

insert_by-Among :
    (key : Permission → ℕ) (p : Permission) {a : Permission} (xs : List Permission)
    → Among a (insert_by key p xs)
    → Among a (p ∷ xs)
insert_by-Among key p [] m = m
insert_by-Among key p {a} (x ∷ xs) m = elim (Bool-cases (leb (key p) (key x))) [
  | inl le ↦ subst (λ b. Among a (if b then p ∷ x ∷ xs else x ∷ insert_by key p xs)) le m
  | inr gt ↦
      elim (Among-cons
        (subst (λ b. Among a (if b then p ∷ x ∷ xs else x ∷ insert_by key p xs)) gt m)) [
          | inl e ↦ later (subst (λ y. Among a (y ∷ xs)) (sym e) first)
          | inr n ↦ elim (Among-cons (insert_by-Among key p xs n)) [
            | inl e ↦ subst (λ y. Among a (y ∷ x ∷ xs)) (sym e) first
            | inr k ↦ later (later k)
          ]
        ]
]

pub order_by-Among :
    (key : Permission → ℕ) {a : Permission} (xs : List Permission)
    → Among a (order_by key xs)
    → Among a xs
order_by-Among key [] m = m
order_by-Among key {a} (x ∷ xs) m = elim (Among-cons (insert_by-Among key x (order_by key xs) m)) [
  | inl e ↦ subst (λ y. Among a (y ∷ xs)) (sym e) first
  | inr n ↦ later (order_by-Among key xs n)
]

insert_by-length :
    (key : Permission → ℕ) (p : Permission) (xs : List Permission)
    → length (insert_by key p xs) ≡ suc (length xs)
insert_by-length key p [] = refl
insert_by-length key p (x ∷ xs) = ground (arith, insert_by-length key p xs)

pub order_by-length :
    (key : Permission → ℕ) (xs : List Permission) → length (order_by key xs) ≡ length xs
order_by-length key [] = refl
order_by-length key (x ∷ xs) =
    omega (arith, insert_by-length key x (order_by key xs), order_by-length key xs)

least_le :
    (key : Permission → ℕ) (p : Permission) (ps : List Permission)
    → All (λ x. least key p ps ≤ key x) (p ∷ ps)
least_le key p [] = (omega arith, tt)
least_le key p (x ∷ xs) = (omega arith, below (x ∷ xs) (λ m. omega arith) (least_le key x xs))
  where
    below :
        (ys : List Permission)
        → ((k : ℕ) → min (key p) (least key x xs) ≤ least key x xs)
        → All (λ y. least key x xs ≤ key y) ys
        → All (λ y. min (key p) (least key x xs) ≤ key y) ys
    below [] f h = tt
    below (y ∷ ys) f h = (omega (arith, f 0, h.0), below ys f h.1)

min-cases : (a b : ℕ) → (min a b ≡ a) ⊎ (min a b ≡ b)
min-cases a b = elim (Bool-cases (leb a b)) [
  | inl e ↦ inl (ground (arith, e))
  | inr e ↦ inr (ground (arith, e))
]

any-weaken : (a : Bool) {b : Bool} → b ≡ true → (a || b) ≡ true
any-weaken true e = refl
any-weaken false e = e

==-refl : (a : ℕ) → (a == a) ≡ true
==-refl a = (==_iff a a).1 refl

-- The smallest number is that of one of them.
least-any :
    (key : Permission → ℕ) (p : Permission) (ps : List Permission)
    → any (λ x. key x == least key p ps) (p ∷ ps) ≡ true
least-any key p [] = ground arith
least-any key p (x ∷ xs) = elim (min-cases (key p) (least key x xs)) [
  | inl e ↦
      subst (λ m. (key p == m || any (λ y. key y == m) (x ∷ xs)) ≡ true) (sym e)
        (rw (==-refl (key p)) refl)
  | inr e ↦
      subst (λ m. (key p == m || any (λ y. key y == m) (x ∷ xs)) ≡ true) (sym e)
        (any-weaken (key p == least key x xs) (least-any key x xs))
]

-- The eligible agents have the smallest number, and there are some where there are agents.
pub eligible-least :
    (key : Permission → ℕ) (ps : List Permission) {a : Permission}
    → Among a (eligible key ps)
    → Among a ps × All (λ x. key a ≤ key x) ps
eligible-least key [] m = absurd (Among-none m)
eligible-least key (p ∷ ps) {a} m =
    let (n, e) = select-Among (λ x. key x == least key p ps) (p ∷ ps) m in
    (n, subst (λ k. All (λ x. k ≤ key x) (p ∷ ps)) (sym ((==_iff _ _).0 e)) (least_le key p ps))

select-length :
    {A : Type 0} (p : A → Bool) (xs : List A) → any p xs ≡ true → 0 < length (select p xs)
select-length p [] h = absurd (ground (arith, h))
select-length p (x ∷ xs) h = elim (Bool-cases (p x)) [
  | inl e ↦ rw e (omega arith)
  | inr e ↦ rw e (select-length p xs (subst (λ b. (b || any p xs) ≡ true) e h))
]

pub eligible-length :
    (key : Permission → ℕ) (p : Permission) (ps : List Permission)
    → 0 < length (eligible key (p ∷ ps))
eligible-length key p ps =
    select-length (λ x. key x == least key p ps) (p ∷ ps) (least-any key p ps)

pub eligible-some :
    (key : Permission → ℕ) (ps : List Permission)
    → ltb 0 (length (eligible key ps)) ≡ ltb 0 (length ps)
eligible-some key [] = refl
eligible-some key (p ∷ ps) = ground (arith, eligible-length key p ps)

pub select-some :
    {A : Type 0} (p : A → Bool) (xs : List A) → ltb 0 (length (select p xs)) ≡ any p xs
select-some p [] = refl
select-some p (x ∷ xs) = ground (arith, select-some p xs)

All-insert_by {κ} :
    (P : Permission → Type κ) (key : Permission → ℕ) (p : Permission) (xs : List Permission)
    → All P (insert_by key p xs)
    → P p × All P xs
All-insert_by P key p [] h = h
All-insert_by P key p (x ∷ xs) h = elim (Bool-cases (leb (key p) (key x))) [
  | inl le ↦ subst (λ b. All P (if b then p ∷ x ∷ xs else x ∷ insert_by key p xs)) le h
  | inr gt ↦
      let k = subst (λ b. All P (if b then p ∷ x ∷ xs else x ∷ insert_by key p xs)) gt h in
      let r = All-insert_by P key p xs k.1 in (r.0, (k.0, r.1))
]

pub All-order_by {κ} :
    (P : Permission → Type κ) (key : Permission → ℕ) (xs : List Permission)
    → All P (order_by key xs)
    → All P xs
All-order_by P key [] h = tt
All-order_by P key (x ∷ xs) h =
    let r = All-insert_by P key x (order_by key xs) h in (r.0, All-order_by P key xs r.1)

pub All-select_imp {κ} :
    (P : Permission → Type κ) (f : Permission → Bool) (xs : List Permission)
    → All P (select f xs)
    → All (λ x. f x ≡ true → P x) xs
All-select_imp P f [] h = tt
All-select_imp P f (x ∷ xs) h = elim (Bool-cases (f x)) [
  | inl e ↦
      let k = subst (λ b. All P (if b then x ∷ select f xs else select f xs)) e h in
      (λ y. k.0, All-select_imp P f xs k.1)
  | inr e ↦
      let k = subst (λ b. All P (if b then x ∷ select f xs else select f xs)) e h in
      (λ y. absurd (ground (arith, e, y)), All-select_imp P f xs k)
]
