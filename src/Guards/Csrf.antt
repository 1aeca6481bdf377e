-- ===== src/Guards/Csrf.antt =====
-- CSRF tokens (src/lib/csrf.ts). A text is the list of its character codes; the HMAC under the
-- secret is an argument, none where the secret is not configured.
pub mod Tokens
pub mod Admission
use lumigift_lumigift.Common.{
  ℕ, zero, suc, ◌+◌, ◌-◌, ◌*◌, Bool, true, false, not, ◌&&◌, ◌||◌, List, [], ◌∷◌, ◌++◌, Option,
  none, some, ltb, leb, ◌==◌, if◌then◌else◌, length, is_digit, read_digits, decimal,
}

abbrev pub Text : Type 0
Text = List ℕ

abbrev pub token_ttl_ms : ℕ
token_ttl_ms = 24 * 60 * 60 * 1000

abbrev pub dot : ℕ
dot = b'.'

-- `generateCsrfToken`, with the nonce that is drawn.
unfoldable pub generate_csrf_token : (Text → Text) → ℕ → Text → Text
generate_csrf_token hmac now nonce =
    let signed : Text = nonce ++ dot ∷ decimal now in signed ++ dot ∷ hmac signed

prepend : ℕ → List Text → List Text
prepend c [] = []
prepend c (p ∷ ps) = (c ∷ p) ∷ ps

-- `split`, at a single character.
unfoldable pub split_on : ℕ → Text → List Text
unfolding prepend
split_on sep [] = [] ∷ []
split_on sep (c ∷ s) = let rest = split_on sep s in if c == sep then [] ∷ rest else prepend c rest

-- The white space that `parseInt` skips.
abbrev is_space : ℕ → Bool
is_space c =
    (leb 9 c && leb c 13)
    || (c == 32)
    || (c == 160)
    || (c == 5760)
    || (leb 8192 c && leb c 8202)
    || (c == 8232)
    || (c == 8233)
    || (c == 8239)
    || (c == 8287)
    || (c == 12288)
    || (c == 65279)

pub trim_start : Text → Text
trim_start [] = []
trim_start (c ∷ s) = if is_space c then trim_start s else c ∷ s

unsigned : Bool → Text → Option (Bool × ℕ)
unsigned negative [] = none
unsigned negative (c ∷ s) = if is_digit c then some (negative, read_digits (c ∷ s) 0) else none

signed_number : Text → Option (Bool × ℕ)
unfolding unsigned
signed_number [] = none
signed_number (c ∷ s) =
    if c == b'-'
    then unsigned true s
    else if c == b'+'
    then unsigned false s
    else unsigned false (c ∷ s)

-- `parseInt(s, 10)`: whether it is negative, and its magnitude; none for `NaN`.
unfoldable pub parse_int : Text → Option (Bool × ℕ)
unfolding trim_start signed_number
parse_int s = signed_number (trim_start s)

-- `isNaN(issued) || Date.now() - issued > TOKEN_TTL_MS`
unfoldable pub is_stale : ℕ → Option (Bool × ℕ) → Bool
is_stale now none = true
is_stale now (some (negative, n)) = ltb token_ttl_ms (if negative then now + n else now - n)

-- `padEnd(n, "\0")`
unfoldable pub pad_end : ℕ → Text → Text
pad_end zero s = s
pad_end (suc n) [] = 0 ∷ pad_end n []
pad_end (suc n) (c ∷ s) = c ∷ pad_end n s

-- `timingSafeEqual` on buffers of one length, and false where the lengths differ.
unfoldable pub same_text : Text → Text → Bool
same_text [] [] = true
same_text [] (d ∷ t) = false
same_text (c ∷ s) [] = false
same_text (c ∷ s) (d ∷ t) = (c == d) && same_text s t

unfoldable pub verify_hmac : Option (Text → Text) → Text → Text → Bool
unfolding pad_end same_text
verify_hmac none signed provided = false
verify_hmac (some hmac) signed provided =
    let expected : Text = hmac signed in same_text (pad_end (length expected) provided) expected

unfoldable pub verify_parts : Option (Text → Text) → ℕ → List Text → Bool
unfolding verify_hmac is_stale parse_int
verify_parts hmac now (nonce ∷ timestamp ∷ provided ∷ []) =
    if is_stale now (parse_int timestamp)
    then false
    else verify_hmac hmac (nonce ++ dot ∷ timestamp) provided
verify_parts hmac now _ = false

-- `verifyCsrfToken`
unfoldable pub verify_csrf_token : Option (Text → Text) → ℕ → Text → Bool
unfolding verify_parts split_on
verify_csrf_token hmac now token = verify_parts hmac now (split_on dot token)

-- The method in upper case.
pub data Method : Type 0 where
  get head options post put patch delete other : Method

abbrev pub is_mutation : Method → Bool
is_mutation post = true
is_mutation put = true
is_mutation patch = true
is_mutation delete = true
is_mutation _ = false

pub record Request : Type 0 where
  pub method : Method
  pub header_token : Option Text
  pub cookie_token : Option Text

-- What `withCsrf` does: it calls the handler, or answers 403 with a code.
pub data Verdict : Type 0 where
  pass csrf_missing csrf_invalid : Verdict

-- A header or a cookie that passes a JavaScript test: neither missing nor empty.
abbrev pub given : Option Text → Option Text
given none = none
given (some []) = none
given (some (c ∷ s)) = some (c ∷ s)

unfoldable pub compare_tokens : Option (Text → Text) → ℕ → Option Text → Option Text → Verdict
compare_tokens hmac now none cookie = csrf_missing
compare_tokens hmac now (some h) none = csrf_missing
compare_tokens hmac now (some h) (some c) =
    if same_text h c && verify_csrf_token hmac now h then pass else csrf_invalid

-- `withCsrf`
unfoldable pub with_csrf : Option (Text → Text) → ℕ → Request → Verdict
unfolding compare_tokens
with_csrf hmac now req =
    if is_mutation req.method
    then compare_tokens hmac now (given req.header_token) (given req.cookie_token)
    else pass

-- A handler behind the guard; a refused request changes nothing.
abbrev pub guarded : {W : Type 0} → Verdict → (W → W × ℕ) → W → W × ℕ
guarded pass handler w = handler w
guarded _ handler w = (w, 403)
