-- ===== src/Groups/Authorizing.antt =====
-- What setting and deleting authorizations does to who is authorized where
-- (chats/apps/sectors/usecases/group_sector_authorization.py).
use chats_engine.Prelude.{
  ℕ, ◌≡◌, refl, ap, sym, ◌∙◌, subst, inl, inr, Bool, true, false, not, ◌&&◌, ◌||◌, List, [], ◌∷◌,
  arith, ◌==◌, ==_iff, if◌then◌else◌, any, select, Bool-cases, and_true,
}
use chats_engine.Store.{Result, ok, err}
use chats_engine.Groups.{
  Authorization, is_of, has_role, set_user_authorization, delete_authorizations, set_all,
  delete_all, set_each, ◌>>=◌,
}
use chats_engine.Groups.Serving.{enable, disable}

abbrev pub authorized : ℕ → ℕ → List Authorization → Bool
authorized target permission rows = any (has_role target permission 1) rows

abbrev pub in_list : ℕ → List ℕ → Bool
in_list x xs = any (λ y. y == x) xs

both_at :
    {t t' p p' : ℕ} {v : Bool} (P : ℕ → ℕ → Bool)
    → P t p ≡ v
    → (t == t' && p == p') ≡ true
    → P t' p' ≡ v
both_at {t} {t'} {p} {p'} {v} P h e =
    let (a, b) = and_true (t == t') (p == p') e in
    subst (λ x. P x p' ≡ v) ((==_iff t t').0 a) (subst (λ x. P t x ≡ v) ((==_iff p p').0 b) h)

or_known : (a b : Bool) → (b ≡ true → a ≡ true) → a ≡ a || b
or_known true b k = refl
or_known false true k = k refl
or_known false false k = refl

added_front : (a b x : Bool) → (((a && b) && true) && true || x) ≡ (x || (a && b))
added_front true true true = refl
added_front true true false = refl
added_front true false true = refl
added_front true false false = refl
added_front false b true = refl
added_front false b false = refl

set-authorized :
    (t p t' p' : ℕ) (rows : List Authorization) {more : List Authorization}
    → set_user_authorization t p 1 rows ≡ ok more
    → authorized t' p' more ≡ (authorized t' p' rows || (t == t' && p == p'))
unfolding set_user_authorization
set-authorized t p t' p' rows {more} h = elim (Bool-cases (any (has_role t p 1) rows)) [
  | inl there ↦
      let same_rows : rows ≡ more = ground (arith, h, there) in
      subst (λ x. authorized t' p' x ≡ (authorized t' p' rows || (t == t' && p == p'))) same_rows
        (or_known (authorized t' p' rows) (t == t' && p == p')
          (λ e. both_at (λ x y. authorized x y rows) there e))
  | inr new ↦ elim (Bool-cases (any (is_of t p) rows)) [
    | inl clash ↦ absurd (ground (arith, h, new, clash))
    | inr free ↦
        let added : record { target = t; permission = p; role = 1; is_deleted = false } ∷ rows
            ≡ more =
          ground (arith, h, new, free) in
        subst (λ x. authorized t' p' x ≡ (authorized t' p' rows || (t == t' && p == p'))) added
          (added_front (t == t') (p == p') (authorized t' p' rows))
  ]
]

pub any-select :
    {A : Type 0} (f g : A → Bool) (e : Bool) (rows : List A)
    → ((a : A) → f a ≡ true → g a ≡ e)
    → any f (select g rows) ≡ (any f rows && e)
any-select f g e [] k = refl
any-select f g e (a ∷ rows) k =
    let rest = any-select f g e rows k in
    elim (Bool-cases (f a)) [
      | inl found ↦ elim (Bool-cases e) [
        | inl on ↦ ground (arith, rest, found, on, k a found)
        | inr off ↦ ground (arith, rest, found, off, k a found)
      ]
      | inr lost ↦ elim (Bool-cases (g a)) [
        | inl kept ↦ ground (arith, rest, lost, kept)
        | inr out ↦ ground (arith, rest, lost, out)
      ]
    ]

same_row :
    (t p t' p' : ℕ) (a : Authorization)
    → has_role t' p' 1 a ≡ true
    → has_role t p 1 a ≡ (t == t' && p == p')
same_row t p t' p' a h = ground (arith, h)

deleted-authorized :
    (t p t' p' : ℕ) (rows : List Authorization)
    → authorized t' p' (delete_authorizations t p rows)
      ≡ (authorized t' p' rows && not (t == t' && p == p'))
unfolding delete_authorizations
deleted-authorized t p t' p' rows =
    any-select (has_role t' p' 1) (λ a. not (has_role t p 1 a)) (not (t == t' && p == p')) rows
      (λ a e. ap not (same_row t p t' p' a e))

or_none : (x : Bool) → x ≡ (x || false)
or_none true = refl
or_none false = refl

pub and_none : (x : Bool) → x ≡ (x && true)
and_none true = refl
and_none false = refl

pub bind_ok :
    {A B : Type 0} (m : Result A) {f : A → Result B} {b : B}
    → (m >>= f) ≡ ok b
    → (a : A) × (m ≡ ok a) × (f a ≡ ok b)
bind_ok (ok a) h = (a, refl, h)
bind_ok (err e) h = absurd (ground (arith, h))

pub or_none_of : (x b : Bool) → x ≡ (x || (b && false))
or_none_of true b = refl
or_none_of false true = refl
or_none_of false false = refl

or_step : (x a l b : Bool) → ((x || (a && b)) || (l && b)) ≡ (x || ((a || l) && b))
or_step true a l b = refl
or_step false true l true = refl
or_step false true true false = refl
or_step false true false false = refl
or_step false false l b = refl

and_step : (x a l b : Bool) → ((x && not (a && b)) && not (l && b)) ≡ (x && not ((a || l) && b))
and_step false a l b = refl
and_step true true l true = refl
and_step true true true false = refl
and_step true true false false = refl
and_step true false l b = refl

pub set_all-authorized :
    (ts : List ℕ) (p t' p' : ℕ) (rows : List Authorization) {more : List Authorization}
    → set_all ts p rows ≡ ok more
    → authorized t' p' more ≡ (authorized t' p' rows || (in_list t' ts && p == p'))
unfolding set_all
set_all-authorized [] p t' p' rows {more} h =
    let same_rows : rows ≡ more = ground (arith, h) in
    ap (authorized t' p') (sym same_rows) ∙ or_none (authorized t' p' rows)
set_all-authorized (t ∷ ts) p t' p' rows h =
    let (next, one, others) = bind_ok (set_user_authorization t p 1 rows) h in
    set_all-authorized ts p t' p' next others
    ∙ ap (λ x. x || (in_list t' ts && p == p')) (set-authorized t p t' p' rows one)
    ∙ or_step (authorized t' p' rows) (t == t') (in_list t' ts) (p == p')

pub delete_all-authorized :
    (ts : List ℕ) (p t' p' : ℕ) (rows : List Authorization)
    → authorized t' p' (delete_all ts p rows)
      ≡ (authorized t' p' rows && not (in_list t' ts && p == p'))
unfolding delete_all
delete_all-authorized [] p t' p' rows = and_none (authorized t' p' rows)
delete_all-authorized (t ∷ ts) p t' p' rows =
    delete_all-authorized ts p t' p' (delete_authorizations t p rows)
    ∙ ap (λ x. x && not (in_list t' ts && p == p')) (deleted-authorized t p t' p' rows)
    ∙ and_step (authorized t' p' rows) (t == t') (in_list t' ts) (p == p')

pub or_each : (x a l b : Bool) → ((x || (b && a)) || (b && l)) ≡ (x || (b && (a || l)))
or_each true a l b = refl
or_each false true l true = refl
or_each false false l true = refl
or_each false a l false = refl

pub set_each-authorized :
    (ps : List ℕ) (t t' p' : ℕ) (rows : List Authorization) {more : List Authorization}
    → set_each ps t rows ≡ ok more
    → authorized t' p' more ≡ (authorized t' p' rows || (t == t' && in_list p' ps))
unfolding set_each
set_each-authorized [] t t' p' rows {more} h =
    let same_rows : rows ≡ more = ground (arith, h) in
    ap (authorized t' p') (sym same_rows) ∙ or_none_of (authorized t' p' rows) (t == t')
set_each-authorized (p ∷ ps) t t' p' rows h =
    let (next, one, others) = bind_ok (set_user_authorization t p 1 rows) h in
    set_each-authorized ps t t' p' next others
    ∙ ap (λ x. x || (t == t' && in_list p' ps)) (set-authorized t p t' p' rows one)
    ∙ or_each (authorized t' p' rows) (p == p') (in_list p' ps) (t == t')

-- An authorization of any role.
abbrev pub held : ℕ → ℕ → List Authorization → Bool
held target permission rows = any (is_of target permission) rows

abbrev if_free : ℕ → ℕ → List Authorization → List Authorization
if_free q p rows =
    if any (is_of q p) rows
    then rows
    else record { target = q; permission = p; role = 1; is_deleted = false } ∷ rows

front_held : (a b x : Bool) → (((a && b) && true) || x) ≡ (x || (a && b))
front_held true true true = refl
front_held true true false = refl
front_held true false true = refl
front_held true false false = refl
front_held false b true = refl
front_held false b false = refl

if_free-held :
    (q p q' p' : ℕ) (rows : List Authorization)
    → held q' p' (if_free q p rows) ≡ (held q' p' rows || (q == q' && p == p'))
if_free-held q p q' p' rows = elim (Bool-cases (any (is_of q p) rows)) [
  | inl there ↦ rw there (
      or_known (held q' p' rows) (q == q' && p == p') (λ e. both_at (λ x y. held x y rows) there e))
  | inr free ↦ rw free (front_held (q == q') (p == p') (held q' p' rows))
]

pub enable-held :
    (qs : List ℕ) (p q' p' : ℕ) (rows : List Authorization)
    → held q' p' (enable qs p rows) ≡ (held q' p' rows || (in_list q' qs && p == p'))
unfolding enable
enable-held [] p q' p' rows = or_none (held q' p' rows)
enable-held (q ∷ qs) p q' p' rows =
    enable-held qs p q' p' (if_free q p rows)
    ∙ ap (λ x. x || (in_list q' qs && p == p')) (if_free-held q p q' p' rows)
    ∙ or_step (held q' p' rows) (q == q') (in_list q' qs) (p == p')

equal_swap : (a b : ℕ) → (a == b) ≡ (b == a)
equal_swap a b = ground arith

last_true : (x y z : Bool) → z ≡ true → ((x && y) && z) ≡ (x && y)
last_true x y false e = absurd (ground (arith, e))
last_true true true true e = refl
last_true true false true e = refl
last_true false y true e = refl

disabled_row :
    (qs : List ℕ) (p q' p' : ℕ) (a : Authorization)
    → is_of q' p' a ≡ true
    → ((in_list a.target qs && a.permission == p) && not a.is_deleted) ≡ (in_list q' qs && p == p')
disabled_row qs p q' p' a h =
    let (same, kept) = and_true (a.target == q' && a.permission == p') (not a.is_deleted) h in
    let (here, whose) = and_true (a.target == q') (a.permission == p') same in
    last_true (in_list a.target qs) (a.permission == p) (not a.is_deleted) kept
    ∙ ap (λ x. in_list x qs && a.permission == p) ((==_iff a.target q').0 here)
    ∙ ap (λ x. in_list q' qs && x == p) ((==_iff a.permission p').0 whose)
    ∙ ap (λ x. in_list q' qs && x) (equal_swap p' p)

pub disable-held :
    (qs : List ℕ) (p q' p' : ℕ) (rows : List Authorization)
    → held q' p' (disable qs p rows) ≡ (held q' p' rows && not (in_list q' qs && p == p'))
unfolding disable
disable-held qs p q' p' rows =
    any-select (is_of q' p')
      (λ a. not ((any (λ q. q == a.target) qs && a.permission == p) && not a.is_deleted))
      (not (in_list q' qs && p == p')) rows (λ a e. ap not (disabled_row qs p q' p' a e))
