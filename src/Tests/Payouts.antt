-- ===== src/Tests/Payouts.antt =====
-- The claim worker and the expiry job on sample gifts.
use lumigift_lumigift.Common.{
  ◌≤◌, ◌⊎◌, Bool, false, arith, ◌+◌, true, ◌≡◌, refl, List, [], ◌∷◌, ◌++◌, none, some,
}
use lumigift_lumigift.Common.Dict.{get, set}
use lumigift_lumigift.Gift.Status.{unlocked, claimed, cancelled, locked, is_valid_transition}
use lumigift_lumigift.Gift.Defs.{Gift, Env, Error, usdc_payment}
use lumigift_lumigift.Gift.Service.{get_gift_by_id, cancel_gift, soft_delete_gift}
use lumigift_lumigift.Claim.{attempts}
use lumigift_lumigift.Claim.Worker.{payments, Unclaimable, attempts_pay_once, attempts_pay_each}
use lumigift_lumigift.Scheduler.{ExpiryRow, process_expiries}
use lumigift_lumigift.Scheduler.Expiry.{refunds, count_rows, process_expiries-payments}
use lumigift_lumigift.Cancellation.Refunds.{refunds_sent}
use lumigift_lumigift.Cancellation.{cancel_and_refund}
use lumigift_lumigift.Cancellation.InFlight.{
  Move, begins, goes_on, move_one, move_all, deletions_in_flight,
}
use lumigift_lumigift.Tests.Samples.{noon, gift_in, world_in, paying, paying_later}

-- A queue that tries again after every error.
abbrev pub always : Error → Bool
always e = true

attempts_pay_once_example :
    let w' = attempts always "g1" "GKEY" (paying ∷ paying_later ∷ []) (world_in unlocked) in
    (w'.outgoing ≡ [] ++ usdc_payment "GKEY" "12.5000000" ∷ [])
    × ((h : Gift) × (get_gift_by_id "g1" w' ≡ some h)
        × (h.status ≡ claimed)
        × (h.claim_tx_hash ≡ some "tx1"))
unfolding get_gift_by_id get
attempts_pay_once_example =
    attempts_pay_once always "g1" "GKEY" "tx1" paying (paying_later ∷ []) (gift_in unlocked)
      (world_in unlocked) refl refl refl refl

-- A gift that was cancelled after its claim was enqueued is paid by both attempts.
attempts_pay_each_example :
    (payments
        (attempts always "g1" "GKEY" (paying ∷ paying_later ∷ []) (world_in cancelled)).outgoing
      ≡ 0 + 2)
    × Unclaimable "g1"
        (attempts always "g1" "GKEY" (paying ∷ paying_later ∷ []) (world_in cancelled))
unfolding get_gift_by_id get is_valid_transition
attempts_pay_each_example =
    attempts_pay_each always "g1" "GKEY" (paying ∷ paying_later ∷ []) (world_in cancelled)
      (λ s. refl) (gift_in cancelled, refl, refl, refl)
      ((refl, ("tx1", refl)), ((refl, ("tx2", refl)), tt))

-- A row that only the database has, and one that the map has too.
abbrev rows : List ExpiryRow
rows =
    record {
      id = "g7";
      amount_usdc = "3.0000000";
      sender_phone = none;
      sender_stellar_key = some "GSENDER";
      refund_sent = true;
      sms_sent = true;
    }
    ∷ record {
      id = "g1";
      amount_usdc = "12.5000000";
      sender_phone = some "+2348012345678";
      sender_stellar_key = some "GSENDER";
      refund_sent = true;
      sms_sent = true;
    }
    ∷ []

process_expiries-payments_example :
    ((process_expiries noon rows (world_in locked)).0.gifts ≡ (world_in locked).gifts)
    × (payments (process_expiries noon rows (world_in locked)).0.outgoing
        ≡ 0 + count_rows (refunds (world_in locked).gifts) rows)
process_expiries-payments_example = process_expiries-payments noon rows (world_in locked)

-- One of the two rows is refunded.
refunds-rows : count_rows (refunds (world_in locked).gifts) rows ≡ 1
unfolding get
refunds-rows = refl

abbrev early : Env
early = record { now = 2000; db_up = true }

-- The sender deletes a gift twice at the same time, after a deletion that Paystack did not take.
abbrev deletions : List Move
deletions =
    begins early "u1"
    ∷ goes_on early 0 false
    ∷ begins early "u1"
    ∷ begins early "u1"
    ∷ goes_on early 1 true
    ∷ goes_on early 0 true
    ∷ []

deletions_in_flight_example :
    let w' = (move_all 2 "g1" deletions ([], world_in locked)).1 in
    (w' ≡ world_in locked)
    ⊎ ((get_gift_by_id "g1" w' ≡ none)
        × (refunds_sent (world_in locked).outgoing + 1 ≤ refunds_sent w'.outgoing)
        × (refunds_sent w'.outgoing ≤ refunds_sent (world_in locked).outgoing + 2))
unfolding get
deletions_in_flight_example =
    deletions_in_flight 2 "g1" deletions (world_in locked) (λ g at. ground arith)

-- Each of the two is refunded.
refunded_twice : refunds_sent (move_all 2 "g1" deletions ([], world_in locked)).1.outgoing ≡ 2
unfolding move_all move_one get_gift_by_id get set cancel_and_refund cancel_gift soft_delete_gift
refunded_twice = refl
