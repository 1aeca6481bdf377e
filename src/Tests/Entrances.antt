-- ===== src/Tests/Entrances.antt =====
-- Requests, phone numbers and rates.
use lumigift_lumigift.Common.{ℕ, String, false, ◌≡◌, ◌⊎◌, refl, List, [], ◌∷◌, ◌++◌, some}
use lumigift_lumigift.Common.Dict.{get}
use lumigift_lumigift.Gift.Status.{pending_payment, cancelled}
use lumigift_lumigift.Gift.Defs.{Gift}
use lumigift_lumigift.EventIndexer.{gift_created}
use lumigift_lumigift.ExchangeRate.{valid, CachedRate}
use lumigift_lumigift.Payments.{Body, event, success}
use lumigift_lumigift.Phone.{nigeria, normalize_phone}
use lumigift_lumigift.Phone.Normal.{normalize_phone_spellings}
use lumigift_lumigift.System.{Request, paystack, callback, unlocks, events, serve_all}
use lumigift_lumigift.System.Stuck.{serve_all-pending}
use lumigift_lumigift.Tests.Samples.{noon, outage, gift_in, world_in}

abbrev charge : String → Body
charge raw = event (record { event = "charge.success"; reference = "r1"; gift_id = some "g1" })

-- A charge that Paystack reports twice, a callback, the unlock job and an event of the contract.
abbrev day : List Request
day =
    paystack (λ raw. "sig") charge noon false (some "sig") "{}"
    ∷ paystack (λ raw. "sig") charge outage false (some "sig") "{}"
    ∷ callback noon (some "g1") (some success) valid
    ∷ unlocks noon ("g1" ∷ [])
    ∷ events noon
        (record { kind = gift_created; contract_id = "C1"; tx_hash = "tx4"; gift_id = "g1" } ∷ [])
        (record { processed = 0; skipped = 0 })
    ∷ []

serve_all-pending_example :
    (h : Gift) × (get "g1" (serve_all day (world_in pending_payment)).gifts ≡ some h)
    × ((h.status ≡ pending_payment) ⊎ (h.status ≡ cancelled))
unfolding get
serve_all-pending_example =
    serve_all-pending day "g1" (gift_in pending_payment) (world_in pending_payment) refl refl

abbrev local_number : List ℕ
local_number = b'0' ∷ b'8' ∷ b'0' ∷ b'1' ∷ b'2' ∷ b'3' ∷ b'4' ∷ b'5' ∷ b'6' ∷ b'7' ∷ b'8' ∷ []

abbrev subscriber : List ℕ
subscriber = b'8' ∷ b'0' ∷ b'1' ∷ b'2' ∷ b'3' ∷ b'4' ∷ b'5' ∷ b'6' ∷ b'7' ∷ b'8' ∷ []

abbrev full_number : List ℕ
full_number = b'+' ∷ (nigeria ++ subscriber)

normalize_phone_spellings_example :
    (normalize_phone full_number ≡ some full_number)
    × (normalize_phone (nigeria ++ subscriber) ≡ some full_number)
    × (normalize_phone local_number ≡ some full_number)
    × (normalize_phone subscriber ≡ some full_number)
normalize_phone_spellings_example =
    normalize_phone_spellings subscriber (record { ten = refl; digits = refl; network = refl })

abbrev cached : CachedRate
cached = record { rate = 1580; timestamp = 1000 }
