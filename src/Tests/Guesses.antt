-- ===== src/Tests/Guesses.antt =====
-- Wrong passwords for a sample account.
use lumigift_lumigift.Common.{◌≡◌, ◌≤◌, ◌<◌, refl, arith, List, [], ◌∷◌, none, some}
use lumigift_lumigift.Takeover.{suspended, Holder, Desk, VerifyRequest, find_holder}
use lumigift_lumigift.Takeover.Flagging.{
  all_up, IsGuess, guessed, failures, IsFlagged, third_failure_flags,
}
use lumigift_lumigift.Tests.KeyStore.{key_store, no_keys}
use lumigift_lumigift.Tests.Guards.{token}
use lumigift_lumigift.Tests.Claims.{hmac, passes}

abbrev guess : VerifyRequest key_store hmac
guess = record {
  now = 3;
  header_token = some token;
  cookie_token = some token;
  body = some ("+2348012345678", "000000");
  up = all_up;
}

abbrev holder : Holder
holder = record {
  id = "u7";
  phone = "+2348012345678";
  account_status = suspended;
  last_login_country = none;
  last_login_at = none;
}

abbrev desk : Desk key_store hmac
desk = record { keys = no_keys; watch = record { failed = []; holders = holder ∷ []; alerts = [] } }

abbrev guesses : List (VerifyRequest key_store hmac)
guesses = guess ∷ guess ∷ guess ∷ []

guess-IsGuess : IsGuess key_store hmac "+2348012345678" 0 guess
guess-IsGuess = record {
  otp = "000000";
  body = refl;
  admitted = passes;
  up = refl;
  begun = omega arith;
  not_over = omega arith;
}

third_failure_flags_example :
    (failures key_store hmac guesses desk < 3
      → (guessed key_store hmac guesses desk).watch.holders ≡ holder ∷ [])
    × (3 ≤ failures key_store hmac guesses desk
        → IsFlagged key_store hmac "+2348012345678" "u7" (guessed key_store hmac guesses desk))
unfolding find_holder
third_failure_flags_example =
    third_failure_flags key_store hmac "+2348012345678" 0 holder guesses desk
      (guess-IsGuess, (guess-IsGuess, (guess-IsGuess, tt))) refl refl
