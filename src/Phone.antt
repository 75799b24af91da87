-- ===== src/Phone.antt =====
-- chats/core/phone.py: the search terms for Brazilian mobile numbers and the URN filters.
-- A text is the list of its code points. Python's `\D` keeps every Unicode decimal digit:
-- `other_digit` stands for those beyond ASCII.
pub mod Laws
mod Examples
use chats_engine.Prelude.{
  ℕ, zero, suc, ◌-◌, Bool, true, false, not, ◌&&◌, ◌||◌, Option, none, some, List, [], ◌∷◌, ◌++◌,
  ltb, leb, ◌==◌, if◌then◌else◌, length, take, drop, select,
}

abbrev pub Text : Type 0
Text = List ℕ

-- _BR_PHONE_MIN_DIGITS, _BR_PHONE_MAX_DIGITS
abbrev br_phone_min_digits : ℕ
br_phone_min_digits = 8

abbrev br_phone_max_digits : ℕ
br_phone_max_digits = 13

-- _BR_COUNTRY_CODE
abbrev pub br_country_code : Text
br_country_code = b'5' ∷ b'5' ∷ []

-- _WHATSAPP_SCHEME
abbrev pub whatsapp_scheme : Text
whatsapp_scheme = b'w' ∷ b'h' ∷ b'a' ∷ b't' ∷ b's' ∷ b'a' ∷ b'p' ∷ b'p' ∷ b':' ∷ []

-- `text.startswith(prefix)`
abbrev pub starts_with : Text → Text → Bool
starts_with [] text = true
starts_with (c ∷ prefix) [] = false
starts_with (c ∷ prefix) (d ∷ text) = c == d && starts_with prefix text

-- The last `n` items, `text[-n:]`, and the others, `text[:-n]`.
abbrev last_n : ℕ → Text → Text
last_n n text = drop (length text - n) text

abbrev but_last_n : ℕ → Text → Text
but_last_n n text = take (length text - n) text

-- `text.endswith(suffix)`
abbrev ends_with : Text → Text → Bool
ends_with suffix text =
    leb (length suffix) (length text) && starts_with suffix (last_n (length suffix) text)

pub is_digit : (ℕ → Bool) → ℕ → Bool
is_digit other_digit c = leb b'0' c && leb c b'9' || other_digit c

-- `len(digits) in (12, 13)`
abbrev has_country_length : ℕ → Bool
has_country_length n = n == 12 || n == 13

-- The area code and the eight digits, of a number without its country code.
split_base : Text → Option (Text × Text)
split_base digits =
    let n = length digits in
    if not (n == 8 || n == 9 || n == 10 || n == 11)
    then none
    else let base8 = last_n 8 digits in
      let rest = but_last_n 8 digits in
      let ddd = (if leb 2 (length rest) then take 2 rest else []) in some (ddd, base8)

-- What follows `re.sub`.
parse_digits : Text → Option (Text × Text)
unfolding split_base
parse_digits digits =
    let n = length digits in
    if ltb n br_phone_min_digits || ltb br_phone_max_digits n
    then none
    else if starts_with br_country_code digits && has_country_length n
    then split_base (drop 2 digits)
    else if has_country_length n
    then none
    else split_base digits

pub parse_br_phone_digits : (ℕ → Bool) → Text → Option (Text × Text)
unfolding parse_digits is_digit
parse_br_phone_digits other_digit term = parse_digits (select (is_digit other_digit) term)

-- A Django filter on one text field. `other` is a lookup by name, after `__unaccent` or not.
pub data Filter : Type 0 where
  startswith endswith : Text → Filter
  other : Bool → Text → Text → Filter
  either both : Filter → Filter → Filter

urn_filter : Text × Text → Filter
urn_filter ([], base8) = both (startswith (whatsapp_scheme ++ br_country_code)) (endswith base8)
urn_filter (ddd, base8) =
    either (startswith (whatsapp_scheme ++ br_country_code ++ ddd ++ base8))
      (startswith (whatsapp_scheme ++ br_country_code ++ ddd ++ b'9' ∷ base8))

abbrev filter_of : Option (Text × Text) → Option Filter
filter_of none = none
filter_of (some parsed) = some (urn_filter parsed)

pub phone_urn_q : (ℕ → Bool) → Text → Option Filter
unfolding urn_filter
phone_urn_q other_digit term = filter_of (parse_br_phone_digits other_digit term)

-- `phone_q | default_q if phone_q else default_q`
abbrev with_default : Option Filter → Filter → Filter
with_default none default_q = default_q
with_default (some phone_q) default_q = either phone_q default_q

pub build_urn_lookup_q : (ℕ → Bool) → Text → Text → Bool → Bool → Filter
build_urn_lookup_q other_digit term lookup use_unaccent ninth_digit_enabled =
    with_default (if ninth_digit_enabled then phone_urn_q other_digit term else none)
      (other use_unaccent lookup term)

-- Whether a stored URN passes a filter. `match_other unaccent lookup term urn` is the database's.
abbrev pub passes : (Bool → Text → Text → Text → Bool) → Filter → Text → Bool
passes match_other (startswith prefix) urn = starts_with prefix urn
passes match_other (endswith suffix) urn = ends_with suffix urn
passes match_other (other unaccent lookup term) urn = match_other unaccent lookup term urn
passes match_other (either p q) urn = passes match_other p urn || passes match_other q urn
passes match_other (both p q) urn = passes match_other p urn && passes match_other q urn
