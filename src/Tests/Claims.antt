-- ===== src/Tests/Claims.antt =====
-- Claims of a sample gift by a recipient and by strangers.
use lumigift_lumigift.Common.{
  read_digits, ◌≤◌, ◌≡◌, All, refl, arith, String, Bool, true, false, List, [], ◌∷◌, Option, none,
  some, ◌===◌,
}
use lumigift_lumigift.Common.Dict
use lumigift_lumigift.Gift.Status.{unlocked, locked}
use lumigift_lumigift.Gift.Defs.{Gift}
use lumigift_lumigift.Claim.{state, new_job}
use lumigift_lumigift.Invitations.{Invitation, accepted}
use lumigift_lumigift.Guards.Csrf.{
  Text, post, pass, with_csrf, verify_csrf_token, split_on, parse_int, is_stale, pad_end,
}
use lumigift_lumigift.ClaimRoute.{ClaimRequest, Site, challenge}
use lumigift_lumigift.ClaimRoute.InFlight.{
  Move, begins, goes_on, Ordered, Run, count_carrying, move_all, challenge_in_flight,
}
use lumigift_lumigift.Tests.KeyStore.{key_store, no_keys}
use lumigift_lumigift.Tests.Samples.{world_in}
use lumigift_lumigift.Tests.Guards.{short_hash, token}

-- A signature is the key itself.
abbrev pub signs : String → String → String → Bool
signs key nonce signature = key === signature

abbrev pub hmac : Option (Text → Text)
hmac = some short_hash

abbrev pub claim_by : Option String → ClaimRequest
claim_by phone = record {
  now = 3000;
  header_token = some token;
  cookie_token = some token;
  session = some (record { phone = phone });
  body =
      some (record {
        gift_id = "g1";
        recipient_stellar_key = "GKEY";
        nonce = "n1";
        signature = "GKEY";
      });
  lookup_up = true;
  update_up = true;
  account_valid = true;
  chain = state false;
  queue = new_job;
}

abbrev pub invitation : Invitation
invitation = record {
  id = "i1";
  gift_id = "g1";
  recipient_phone_hash = "ab12";
  recipient_phone = "+2348012345678";
  token = "t1";
  status = accepted;
  expires_at = 9000;
}

abbrev pub quiet : Site key_store signs hmac
quiet = record { keys = no_keys; invitations = invitation ∷ []; world = world_in unlocked }

abbrev too_early : Site key_store signs hmac
too_early = record { keys = no_keys; invitations = invitation ∷ []; world = world_in locked }

-- With its challenge.
abbrev issued : Site key_store signs hmac → Site key_store signs hmac
issued s = (challenge key_store signs hmac 2000 (some "g1") "n1" s).0

pub passes :
    with_csrf hmac 3000
      (record { method = post; header_token = some token; cookie_token = some token })
    ≡ pass
unfolding with_csrf verify_csrf_token split_on parse_int is_stale pad_end read_digits
passes = refl

-- Two strangers read the challenge before either deletes it, and a third comes too late.
abbrev overlapping : List Move
overlapping =
    begins (claim_by none)
    ∷ begins (claim_by (some "+2340000000000"))
    ∷ goes_on 3000 1
    ∷ goes_on 3500 0
    ∷ begins (claim_by none)
    ∷ []

abbrev waiting : Run key_store signs hmac
waiting = record { flights = []; site = issued quiet; passed = [] }

challenge_in_flight_example :
    let passed = (move_all key_store signs hmac 2 overlapping waiting).passed in
    (count_carrying "g1" "n1" passed ≤ 2)
    × All (λ i. signs i.recipient_stellar_key i.nonce i.signature ≡ true) passed
unfolding Ordered
challenge_in_flight_example =
    challenge_in_flight key_store signs hmac 2 "g1" "n1" 2 overlapping (issued quiet)
      (omega arith, (omega arith, (omega arith, (omega arith, (omega arith, tt)))))
