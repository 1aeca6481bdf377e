-- ===== src/Tests/Guards.antt =====
-- Tokens, signatures and passwords.
use lumigift_lumigift.Common.{
  ℕ, ◌-◌, ◌≡◌, ◌↔◌, ◌⊎◌, refl, subst, String, true, List, [], ◌∷◌, none, some, leb, arith, decimal,
  read_digits,
}
use lumigift_lumigift.Common.Dict.{get, set}
use lumigift_lumigift.Gift.Service.{get_gift_by_id, cancel_gift, soft_delete_gift}
use lumigift_lumigift.Gift.Status.{locked}
use lumigift_lumigift.Gift.Defs.{Env}
use lumigift_lumigift.Guards.Csrf.{
  Text, token_ttl_ms, generate_csrf_token, verify_csrf_token, delete, with_csrf, same_text,
}
use lumigift_lumigift.Guards.Csrf.Tokens.{IsHex, verify_csrf_token-generate_csrf_token}
use lumigift_lumigift.Guards.Csrf.Admission.{Admitted}
use lumigift_lumigift.Guards.Cron.{verify_cron_auth}
use lumigift_lumigift.Guards.Cron.Windows.{IsTrusted, verify_cron_auth_iff}
use lumigift_lumigift.Cancellation.{delete_gift, delete_route}
use lumigift_lumigift.Cancellation.Access.{Cancels, delete_route_changes}
use lumigift_lumigift.Otp.{store_otp, verify_otp}
use lumigift_lumigift.Otp.Guesses.{is_compared, is_success, tally}
use lumigift_lumigift.Tests.Samples.{world_in}
use lumigift_lumigift.Tests.KeyStore.{key_store, no_keys}

-- A hash of one hexadecimal digit.
abbrev pub short_hash : Text → Text
short_hash [] = b'0' ∷ []
short_hash (c ∷ m) = b'a' ∷ []

short_hash-IsHex : (m : Text) → IsHex (short_hash m)
short_hash-IsHex [] = refl
short_hash-IsHex (c ∷ m) = refl

short_hash-only : (key : Text → Text) → some short_hash ≡ some key → (m : Text) → IsHex (key m)
short_hash-only key e m =
    let same : short_hash ≡ key = cc in subst (λ k. IsHex (k m)) same (short_hash-IsHex m)

abbrev nonce : Text
nonce = b'7' ∷ b'f' ∷ []

abbrev pub token : Text
token = b'7' ∷ b'f' ∷ b'.' ∷ b'2' ∷ b'0' ∷ b'.' ∷ b'a' ∷ []

token_lem : token ≡ generate_csrf_token short_hash 20 nonce
unfolding generate_csrf_token decimal
token_lem = refl

verify_csrf_token-generate_csrf_token_example :
    verify_csrf_token (some short_hash) 3000 (generate_csrf_token short_hash 20 nonce)
    ≡ leb (3000 - 20) token_ttl_ms
verify_csrf_token-generate_csrf_token_example =
    verify_csrf_token-generate_csrf_token short_hash 20 3000 nonce refl short_hash-IsHex

-- The signature of the minute before the current one.
abbrev sign : String → Text → Text
sign secret w = w

verify_cron_auth_iff_example :
    (verify_cron_auth sign 185000 (some "s") (some "Bearer s") (some (b'2' ∷ [])) ≡ none)
    ↔ IsTrusted sign 185000 (some "s") (some "Bearer s") (some (b'2' ∷ []))
verify_cron_auth_iff_example =
    verify_cron_auth_iff sign 185000 (some "s") (some "Bearer s") (some (b'2' ∷ [])) (omega arith)

cron_accepted : verify_cron_auth sign 185000 (some "s") (some "Bearer s") (some (b'2' ∷ [])) ≡ none
unfolding verify_cron_auth same_text decimal
cron_accepted = refl

abbrev early : Env
early = record { now = 3000; db_up = true }

delete_route_changes_example :
    ((delete_route
        (some short_hash)
        (some token)
        (some token)
        early
        (some "u1")
        (some "g1")
        true
        (world_in locked)).0
      ≡ world_in locked)
    ⊎ (Admitted
          (some short_hash)
          3000
          (record { method = delete; header_token = some token; cookie_token = some token })
        × Cancels early (some "u1") (some "g1") true (world_in locked))
delete_route_changes_example =
    delete_route_changes (some short_hash) (some token) (some token) early (some "u1") (some "g1")
      true (world_in locked) short_hash-only

cancelled_answer :
    (delete_route
      (some short_hash)
      (some token)
      (some token)
      early
      (some "u1")
      (some "g1")
      true
      (world_in locked)).1
    ≡ 200
unfolding delete_route with_csrf same_text verify_csrf_token read_digits delete_gift get_gift_by_id
    get cancel_gift soft_delete_gift set
cancelled_answer = refl

-- Four wrong guesses, the password, and a guess that comes too late.
abbrev guesses : List (ℕ × String)
guesses =
    (10, "000000")
    ∷ (10, "111111")
    ∷ (12, "222222")
    ∷ (13, "333333")
    ∷ (20, "123456")
    ∷ (21, "123456")
    ∷ []

five_compared :
    tally key_store "+2348012345678" "123456" is_compared guesses
      (store_otp key_store 5 "+2348012345678" "123456" no_keys)
    ≡ 5
unfolding tally store_otp verify_otp
five_compared = refl

one_succeeded :
    tally key_store "+2348012345678" "123456" is_success guesses
      (store_otp key_store 5 "+2348012345678" "123456" no_keys)
    ≡ 1
unfolding tally store_otp verify_otp
one_succeeded = refl
