-- ===== src/Phone.antt =====
-- Phone numbers (src/lib/phone.ts). A text is the list of its character codes.
pub mod Normal
use lumigift_lumigift.Common.{
  is_digit, ℕ, ◌+◌, Bool, true, false, ◌&&◌, ◌||◌, not, List, [], ◌∷◌, ◌++◌, Option, none, some,
  String, ltb, leb, ◌==◌, if◌then◌else◌, length, drop, filter, all, Result, ok, err,
}

-- `s.startsWith(p)`
abbrev pub starts_with : List ℕ → List ℕ → Bool
starts_with s [] = true
starts_with [] (p ∷ ps) = false
starts_with (c ∷ s) (p ∷ ps) = (c == p) && starts_with s ps

abbrev pub nigeria : List ℕ
nigeria = b'2' ∷ b'3' ∷ b'4' ∷ []

abbrev pub zero_prefix : List ℕ
zero_prefix = b'0' ∷ []

abbrev pub plus_prefix : List ℕ
plus_prefix = b'+' ∷ []

-- `/^\+[1-9]\d{9,14}$/.test(e164)`
abbrev pub is_e164 : List ℕ → Bool
is_e164 (p ∷ d ∷ ds) =
    (p == b'+')
    && leb b'1' d
    && leb d b'9'
    && all is_digit ds
    && leb 9 (length ds)
    && leb (length ds) 14
is_e164 _ = false

-- `/^[789]/.test(subscriber)`
abbrev is_mobile : List ℕ → Bool
is_mobile [] = false
is_mobile (d ∷ ds) = (d == b'7') || (d == b'8') || (d == b'9')

-- The four branches that build the candidate, or none for `return null`.
abbrev candidate : List ℕ → List ℕ → Option (List ℕ)
candidate raw digits =
    if starts_with digits nigeria && (length digits == 13)
    then some (b'+' ∷ digits)
    else if starts_with digits zero_prefix && (length digits == 11)
    then some (b'+' ∷ (nigeria ++ drop 1 digits))
    else if (length digits == 10) && not (starts_with digits zero_prefix)
    then some (b'+' ∷ (nigeria ++ digits))
    else if starts_with raw plus_prefix && leb 10 (length digits) && leb (length digits) 15
    then some (b'+' ∷ digits)
    else none

-- The two checks on the candidate.
abbrev checked : List ℕ → Option (List ℕ)
checked e164 =
    if not (is_e164 e164)
    then none
    else if not (starts_with e164 (b'+' ∷ nigeria))
    then some e164
    else if not (length (drop 4 e164) == 10)
    then none
    else if not (is_mobile (drop 4 e164))
    then none
    else some e164

-- `normalizePhone`
unfoldable pub normalize_phone : List ℕ → Option (List ℕ)
normalize_phone raw = elim (candidate raw (filter is_digit raw)) [
  | none ↦ none
  | some e164 ↦ checked e164
]

pub data CollisionError : Type 0 where
  phone_hash_collision : CollisionError

-- `detectPhoneHashCollision`, over the number of users with the hash.
unfoldable pub detect_phone_hash_collision : ℕ → Result CollisionError Bool
detect_phone_hash_collision count =
    if ltb 1 count then err phone_hash_collision else ok (count == 1)
