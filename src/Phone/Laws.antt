-- ===== src/Phone/Laws.antt =====
-- Search terms with and without the ninth digit or the country code (chats/core/phone.py).
use chats_engine.Prelude.{
  ℕ, zero, suc, ◌-◌, ◌≤◌, ◌≡◌, refl, ◌⊎◌, inl, inr, Bool, true, false, ◌||◌, Option, none, some, [],
  ◌∷◌, ◌++◌, arith, length, take, drop, select, get_elem?, length-drop, length-take,
}
use chats_engine.Phone.{
  Text, Filter, passes, starts_with, br_country_code, whatsapp_scheme, is_digit, split_base,
  parse_digits, parse_br_phone_digits, phone_urn_q, build_urn_lookup_q,
}

starts_with_self : (s : Text) → starts_with s s ≡ true
starts_with_self [] = refl
starts_with_self (c ∷ s) = ground (arith, starts_with_self s)

or_true : (a b : Bool) → (a || b) ≡ true → (a ≡ true) ⊎ (b ≡ true)
or_true true b h = inl refl
or_true false b h = inr h

get_elem?-starts_with :
    (p s : Text) (i : ℕ) {c : ℕ}
    → starts_with p s ≡ true
    → get_elem? p i ≡ some c
    → get_elem? s i ≡ some c
get_elem?-starts_with [] s i h e = absurd (ground arith)
get_elem?-starts_with (x ∷ p) [] i h e = absurd (ground arith)
get_elem?-starts_with (x ∷ p) (y ∷ s) zero h e = ground arith
get_elem?-starts_with (x ∷ p) (y ∷ s) (suc i) h e = get_elem?-starts_with p s i (ground arith) e

-- What the last eight items and the others measure, in a number long enough.
split_lengths :
    (digits : Text)
    → 8 ≤ length digits
    → (length (drop (length digits - 8) digits) ≡ 8)
      × (length (take (length digits - 8) digits) ≡ length digits - 8)
split_lengths digits h = (
  omega (arith, length-drop (length digits - 8) digits),
  omega (arith, length-take (length digits - 8) digits),
)

split_base-shape :
    (digits ddd base8 : Text)
    → split_base digits ≡ some (ddd, base8)
    → (length base8 ≡ 8) × ((length ddd ≡ 0) ⊎ (length ddd ≡ 2))
unfolding split_base
split_base-shape digits ddd base8 h =
    ground (arith, split_lengths digits, length-take 2 (take (length digits - 8) digits))

parse_digits-shape :
    (digits ddd base8 : Text)
    → parse_digits digits ≡ some (ddd, base8)
    → (length base8 ≡ 8) × ((length ddd ≡ 0) ⊎ (length ddd ≡ 2))
unfolding parse_digits
parse_digits-shape digits ddd base8 h =
    ground (arith, split_base-shape (drop 2 digits) ddd base8, split_base-shape digits ddd base8)

module _ (a b : ℕ) (base : Text) (eight : length base ≡ 8) where
  split_area : split_base (a ∷ b ∷ base) ≡ some (a ∷ b ∷ [], base)
  unfolding split_base
  split_area = rw eight

  split_area_nine : split_base (a ∷ b ∷ b'9' ∷ base) ≡ some (a ∷ b ∷ [], base)
  unfolding split_base
  split_area_nine = rw eight

  parse_area : parse_digits (a ∷ b ∷ base) ≡ some (a ∷ b ∷ [], base)
  unfolding parse_digits
  parse_area = rw eight (ground (arith, split_area))

  parse_area_nine : parse_digits (a ∷ b ∷ b'9' ∷ base) ≡ some (a ∷ b ∷ [], base)
  unfolding parse_digits
  parse_area_nine = rw eight (ground (arith, split_area_nine))

  parse_country : parse_digits (b'5' ∷ b'5' ∷ a ∷ b ∷ base) ≡ some (a ∷ b ∷ [], base)
  unfolding parse_digits
  parse_country = rw eight

  parse_country_nine : parse_digits (b'5' ∷ b'5' ∷ a ∷ b ∷ b'9' ∷ base) ≡ some (a ∷ b ∷ [], base)
  unfolding parse_digits
  parse_country_nine = rw eight

-- The four ways to write one mobile number.
pub data Writes (a b : ℕ) (base digits : Text) : Type 0 where
  area : digits ≡ a ∷ b ∷ base → Writes a b base digits
  area_nine : digits ≡ a ∷ b ∷ b'9' ∷ base → Writes a b base digits
  country : digits ≡ b'5' ∷ b'5' ∷ a ∷ b ∷ base → Writes a b base digits
  country_nine : digits ≡ b'5' ∷ b'5' ∷ a ∷ b ∷ b'9' ∷ base → Writes a b base digits

module _ (other_digit : ℕ → Bool) (term : Text) (a b : ℕ) (base : Text) where
  abbrev digits_of : Text
  digits_of = select (is_digit other_digit) term

  -- A term whose digits, whatever stands between them, write an area code and eight digits in
  -- one of the four ways is parsed into that area code and those eight digits.
  pub parse-Writes :
      length base ≡ 8
      → Writes a b base digits_of
      → parse_br_phone_digits other_digit term ≡ some (a ∷ b ∷ [], base)
  unfolding parse_br_phone_digits
  parse-Writes eight (area e) = rw e (parse_area a b base eight)
  parse-Writes eight (area_nine e) = rw e (parse_area_nine a b base eight)
  parse-Writes eight (country e) = rw e (parse_country a b base eight)
  parse-Writes eight (country_nine e) = rw e (parse_country_nine a b base eight)

abbrev pub urn_without_nine : ℕ → ℕ → Text → Text
urn_without_nine a b base = whatsapp_scheme ++ br_country_code ++ (a ∷ b ∷ []) ++ base

abbrev pub urn_with_nine : ℕ → ℕ → Text → Text
urn_with_nine a b base = whatsapp_scheme ++ br_country_code ++ (a ∷ b ∷ []) ++ b'9' ∷ base

-- Whether a term's phone filter, if it has one, lets a stored URN through.
abbrev pub finds : (Bool → Text → Text → Text → Bool) → Option Filter → Text → Bool
finds match_other none urn = false
finds match_other (some q) urn = passes match_other q urn

module _ (match_other : Bool → Text → Text → Text → Bool) (other_digit : ℕ → Bool) where
  -- A term that writes a mobile number in one of the four ways finds the contact, whether the
  -- stored URN has the ninth digit or not.
  pub phone_urn_q-finds :
      (term : Text) (a b : ℕ) (base : Text)
      → length base ≡ 8
      → Writes a b base (select (is_digit other_digit) term)
      → (finds match_other (phone_urn_q other_digit term) (urn_without_nine a b base) ≡ true)
        × (finds match_other (phone_urn_q other_digit term) (urn_with_nine a b base) ≡ true)
  unfolding phone_urn_q
  phone_urn_q-finds term a b base eight w =
      rw (parse-Writes other_digit term a b base eight w)
        (ground (arith, starts_with_self base), ground (arith, starts_with_self base))

  finds_area :
      (term urn : Text) (a b : ℕ) (base : Text)
      → parse_br_phone_digits other_digit term ≡ some (a ∷ b ∷ [], base)
      → finds match_other (phone_urn_q other_digit term) urn ≡ true
      → (get_elem? urn 11 ≡ some a) × (get_elem? urn 12 ≡ some b)
  unfolding phone_urn_q
  finds_area term urn a b base e h =
      let p = urn_without_nine a b base in
      let q = urn_with_nine a b base in
      elim (or_true (starts_with p urn) (starts_with q urn) (rw e at h)) [
        | inl h ↦ (get_elem?-starts_with p urn 11 h refl, get_elem?-starts_with p urn 12 h refl)
        | inr h ↦ (get_elem?-starts_with q urn 11 h refl, get_elem?-starts_with q urn 12 h refl)
      ]

  -- Two terms that are parsed with area codes and that both find one stored URN have the same
  -- area code: a search never reaches a number of another area.
  phone_urn_q-area :
      (term term' urn : Text) (a b c d : ℕ) (base base' : Text)
      → parse_br_phone_digits other_digit term ≡ some (a ∷ b ∷ [], base)
      → parse_br_phone_digits other_digit term' ≡ some (c ∷ d ∷ [], base')
      → finds match_other (phone_urn_q other_digit term) urn ≡ true
      → finds match_other (phone_urn_q other_digit term') urn ≡ true
      → (a ≡ c) × (b ≡ d)
  phone_urn_q-area term term' urn a b c d base base' e e' h h' =
      let p = finds_area term urn a b base e h in
      let q = finds_area term' urn c d base' e' h' in (cc (p.0, q.0), cc (p.1, q.1))

  -- The whole filter keeps what the plain lookup of the term finds.
  build_urn_lookup_q-other :
      (term lookup urn : Text) (use_unaccent enabled : Bool)
      → match_other use_unaccent lookup term urn ≡ true
      → passes match_other (build_urn_lookup_q other_digit term lookup use_unaccent enabled) urn
        ≡ true
  unfolding build_urn_lookup_q
  build_urn_lookup_q-other term lookup urn use_unaccent enabled h = ground arith

-- The parts of a term that is parsed: eight digits, behind no area code or one of two digits.
parse-shape :
    (other_digit : ℕ → Bool) (term ddd base8 : Text)
    → parse_br_phone_digits other_digit term ≡ some (ddd, base8)
    → (length base8 ≡ 8) × ((length ddd ≡ 0) ⊎ (length ddd ≡ 2))
unfolding parse_br_phone_digits
parse-shape other_digit term ddd base8 h =
    parse_digits-shape (select (is_digit other_digit) term) ddd base8 h
