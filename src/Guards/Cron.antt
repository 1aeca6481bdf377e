-- ===== src/Guards/Cron.antt =====
-- The guard of the cron endpoints (src/lib/cron-auth.ts): a bearer token and an HMAC of the current
-- minute. HMAC-SHA256 is an argument, over the secret and the text that is signed.
pub mod Windows
use lumigift_lumigift.Common.{
  ℕ, ◌-◌, ◌/◌, String, Bool, true, false, not, List, [], ◌∷◌, Option, none, some, truthy, any, ◌==◌,
  ◌===◌, if◌then◌else◌, decimal,
}
use Prim.Native.String.{◌++◌ as concat}
use lumigift_lumigift.Guards.Csrf.{Text, given, same_text}

abbrev pub window_seconds : ℕ
window_seconds = 60

-- `Math.floor(Date.now() / 1000)`
abbrev pub seconds_of : ℕ → ℕ
seconds_of now_ms = now_ms / 1000

-- The window before, as it is printed.
abbrev pub previous_window : ℕ → Text
previous_window w = if w == 0 then b'-' ∷ b'1' ∷ [] else decimal (w - 1)

-- The current window and, for clock skew, the one before.
abbrev pub windows : ℕ → List Text
windows now_ms = let w = seconds_of now_ms / window_seconds in decimal w ∷ previous_window w ∷ []

abbrev pub check_hmac : (String → Text → Text) → ℕ → String → Option Text → Option ℕ
check_hmac hmac now_ms secret none = some 401
check_hmac hmac now_ms secret (some signature) =
    if any (λ w. same_text signature (hmac secret w)) (windows now_ms) then none else some 401

abbrev pub check_bearer : (String → Text → Text) → ℕ → String → String → Option Text → Option ℕ
check_bearer hmac now_ms secret authorization signature =
    if authorization === concat "Bearer " secret
    then check_hmac hmac now_ms secret (given signature)
    else some 401

-- A missing `Authorization` header is `null`, which equals no text.
abbrev pub check_header :
    (String → Text → Text) → ℕ → String → Option String → Option Text → Option ℕ
check_header hmac now_ms secret none signature = some 401
check_header hmac now_ms secret (some a) signature = check_bearer hmac now_ms secret a signature

abbrev pub check_secret :
    (String → Text → Text) → ℕ → Option String → Option String → Option Text → Option ℕ
check_secret hmac now_ms none authorization signature = some 500
check_secret hmac now_ms (some secret) authorization signature =
    check_header hmac now_ms secret authorization signature

-- `verifyCronAuth`: none lets the request through, or the status of the answer.
unfoldable pub verify_cron_auth :
    (String → Text → Text) → ℕ → Option String → Option String → Option Text → Option ℕ
verify_cron_auth hmac now_ms cron_secret authorization signature =
    check_secret hmac now_ms (truthy cron_secret) authorization signature
