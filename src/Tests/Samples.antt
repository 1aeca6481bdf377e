-- ===== src/Tests/Samples.antt =====
-- Sample data for the tests.
use lumigift_lumigift.Common.{
  String, ◌≡◌, ◌≢◌, ◌===◌, eq_iff, arith, true, false, [], ◌∷◌, none, some,
}
use lumigift_lumigift.Gift.Status.{GiftStatus}
use lumigift_lumigift.Gift.Defs.{Gift, World, Env, birthday}
use lumigift_lumigift.Claim.{Attempt}

abbrev pub noon : Env
noon = record { now = 5000; db_up = true }

abbrev pub outage : Env
outage = record { now = 6000; db_up = false }

abbrev pub gift_in : GiftStatus → Gift
gift_in status = record {
  id = "g1";
  sender_id = "u1";
  recipient_phone_hash = "ab12";
  recipient_name = "Ada";
  recipient_email = none;
  amount_ngn = 20000;
  amount_usdc = "12.5000000";
  message = none;
  voice_note_url = none;
  media_url = none;
  unlock_at = 4000;
  status = status;
  occasion = birthday;
  notify_at = none;
  contract_id = some "C1";
  stellar_tx_hash = none;
  claim_tx_hash = none;
  created_at = 1000;
  updated_at = 1000;
  deleted_at = none;
}

abbrev pub world_in : GiftStatus → World
world_in status = record { gifts = ("g1", gift_in status) ∷ []; audit = []; outgoing = [] }

abbrev pub paying : Attempt
paying = record { env = noon; account_valid = true; payment = some "tx1" }

abbrev pub paying_later : Attempt
paying_later = record { env = outage; account_valid = true; payment = some "tx2" }

-- Two texts that the test tells apart are different.
pub differ : (a b : String) → (a === b) ≡ false → a ≢ b
differ a b h e = ground (arith, eq_iff a b)
