-- ===== src/Tests/Cookies.antt =====
-- Cookies of a session, and origins.
use lumigift_lumigift.Common.{
  ℕ, ◌≡◌, ◌⊎◌, ◌↔◌, refl, String, true, false, List, [], ◌∷◌, Option, none, some, ◌===◌,
  if◌then◌else◌,
}
use lumigift_lumigift.Tokens.{find_token}
use lumigift_lumigift.Tokens.Unique.{IsUnique}
use lumigift_lumigift.AuthSession.{Jwt, decode_jwt, sign_out}
use lumigift_lumigift.AuthSession.Stale.{CookieRequest, AllAnswers, signed_out_is_served}
use lumigift_lumigift.AuthSession.Secrets.{IsGood, decode_jwt_iff}
use lumigift_lumigift.Guards.Csrf.{Text}
use lumigift_lumigift.Guards.Cors.{with_cors, is_origin_allowed, ends_with, refusal}
use lumigift_lumigift.Guards.Cors.Origins.{IsAllowed, with_cors_lem}
use lumigift_lumigift.Guards.Csrf.{same_text}
use lumigift_lumigift.Tests.Sessions.{healthy, drawing, one_row, calls}

abbrev cookie : Jwt
cookie = record {
  id = "u1";
  phone = some "+2348012345678";
  access_token_expires = 6000;
  refresh_token = "t1";
  error = none;
}

-- A request before the cookie runs out, and one after it, with other calls before that.
abbrev requests : List CookieRequest
requests =
    record { before = []; db = healthy; draw = drawing "r8" "t8" 5500 }
    ∷ record { before = calls; db = healthy; draw = drawing "r9" "t9" 7000 }
    ∷ []

signed_out_is_served_example : AllAnswers requests cookie (sign_out true 5000 cookie one_row).0
unfolding IsUnique find_token
signed_out_is_served_example =
    signed_out_is_served 5000 cookie
      (record {
        id = "r1";
        user_id = "u1";
        token = "t1";
        expires_at = 9000;
        revoked_at = none;
        replaced_by = none;
      })
      one_row requests (refl, tt) refl

-- A cookie is a secret and a time.
abbrev Sealed : Type 0
Sealed = String × ℕ

abbrev old_cookie : Sealed
old_cookie = ("old", 1000)

abbrev open_with : String → Option Sealed
open_with secret = if secret === "old" then some old_cookie else none

decode_jwt_iff_example :
    (decode_jwt open_with (λ c. c.1) (some 500) 1400 "new" (some "old") ≡ some old_cookie)
    ↔ IsGood open_with (λ c. c.1) 500 1400 "new" (some "old") old_cookie
decode_jwt_iff_example = decode_jwt_iff open_with (λ c. c.1) 500 1400 "new" (some "old") old_cookie

decode_old : decode_jwt open_with (λ c. c.1) (some 500) 1400 "new" (some "old") ≡ some old_cookie
unfolding decode_jwt
decode_old = refl

-- "*.a.b" lets "xa.b" through.
abbrev setting : List Text
setting = (b'*' ∷ b'.' ∷ b'a' ∷ b'.' ∷ b'b' ∷ []) ∷ []

abbrev outsider : Text
outsider = b'x' ∷ b'a' ∷ b'.' ∷ b'b' ∷ []

outsider_allowed : is_origin_allowed setting (some outsider) ≡ true
unfolding is_origin_allowed ends_with same_text
outsider_allowed = refl

-- A handler that counts its calls.
abbrev counted : ℕ → ℕ × ℕ
counted n = (7, 200)

with_cors_lem_example :
    (IsAllowed setting (some outsider)
      × (with_cors setting false (some outsider) counted 6
          ≡ (7, record { status = 200; allow_origin = some outsider })))
    ⊎ ((IsAllowed setting (some outsider) → ⊥)
        × (with_cors setting false (some outsider) counted 6 ≡ (6, refusal)))
with_cors_lem_example = with_cors_lem setting false (some outsider) counted 6
