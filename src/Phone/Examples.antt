-- ===== src/Phone/Examples.antt =====
-- Tests of chats/core/phone.py, and its theorems at the number of the module's own example.
use chats_engine.Prelude.{ℕ, ◌≡◌, refl, Bool, true, false, none, some, [], ◌∷◌}
use chats_engine.Phone.{Text, parse_br_phone_digits, phone_urn_q}
use chats_engine.Phone.Laws.{
  Writes, area_nine, parse-Writes, phone_urn_q-finds, finds, urn_without_nine, urn_with_nine,
}

abbrev no_other : ℕ → Bool
no_other c = false

abbrev no_lookup : Bool → Text → Text → Text → Bool
no_lookup unaccent lookup term urn = false

-- 92126050
abbrev base : Text
base = b'9' ∷ b'2' ∷ b'1' ∷ b'2' ∷ b'6' ∷ b'0' ∷ b'5' ∷ b'0' ∷ []

-- (84) 9 92126050
abbrev local_term : Text
local_term = b'(' ∷ b'8' ∷ b'4' ∷ b')' ∷ b' ' ∷ b'9' ∷ b' ' ∷ base

-- +55 84 92126050
abbrev country_term : Text
country_term = b'+' ∷ b'5' ∷ b'5' ∷ b' ' ∷ b'8' ∷ b'4' ∷ b' ' ∷ base

parse_foreign : parse_br_phone_digits no_other (b'1' ∷ b'2' ∷ b'8' ∷ b'4' ∷ base) ≡ none
unfolding parse_br_phone_digits
parse_foreign = refl

parse_local : parse_br_phone_digits no_other local_term ≡ some (b'8' ∷ b'4' ∷ [], base)
unfolding parse_br_phone_digits
parse_local = refl

parse_country_term : parse_br_phone_digits no_other country_term ≡ some (b'8' ∷ b'4' ∷ [], base)
unfolding parse_br_phone_digits
parse_country_term = refl

local-Writes : Writes b'8' b'4' base (b'8' ∷ b'4' ∷ b'9' ∷ base)
local-Writes = area_nine refl

parse-Writes_example : parse_br_phone_digits no_other local_term ≡ some (b'8' ∷ b'4' ∷ [], base)
unfolding parse_br_phone_digits
parse-Writes_example = parse-Writes no_other local_term b'8' b'4' base refl local-Writes

phone_urn_q-finds_example :
    (finds no_lookup (phone_urn_q no_other local_term) (urn_without_nine b'8' b'4' base) ≡ true)
    × (finds no_lookup (phone_urn_q no_other local_term) (urn_with_nine b'8' b'4' base) ≡ true)
unfolding parse_br_phone_digits
phone_urn_q-finds_example =
    phone_urn_q-finds no_lookup no_other local_term b'8' b'4' base refl local-Writes

abbrev natal : Text
natal = b'8' ∷ b'4' ∷ []
