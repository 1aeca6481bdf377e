-- ===== src/Tests/Gifts.antt =====
-- The state machine and the gift service on sample gifts.
use lumigift_lumigift.Common.{
  ℕ, true, false, not, ◌&&◌, ◌≤◌, ◌≡◌, ◌⊎◌, refl, List, [], ◌∷◌, some, ok, err, length,
  if◌then◌else◌,
}
use lumigift_lumigift.Common.Dict.{get, set}
use lumigift_lumigift.Gift.Status.{
  draft, pending_payment, funded, locked, unlocked, claimed, expired, cancelled,
  is_valid_transition,
}
use lumigift_lumigift.Gift.Status.Chains.{Chain, here, next, chain_bounds}
use lumigift_lumigift.Gift.Defs.{Gift, Env, invalid_transition, database_error}
use lumigift_lumigift.Gift.Service.{update_gift_status}
use lumigift_lumigift.Gift.Evolution.{
  Call, update, update_idempotent, store_claim, soft_delete, restore, run, Evolves, run-Evolves,
}
use lumigift_lumigift.Gift.Updates.{is_audited, update_gift_status_branches}
use lumigift_lumigift.Tests.Samples.{noon, outage, gift_in, world_in}

-- From `pending_payment` straight to `locked` is refused; to `funded` is not.
locked-refused : is_valid_transition pending_payment locked ≡ false
unfolding is_valid_transition
locked-refused = refl

-- While the database is down a claim throws, and the status is `claimed` all the same.
claim_in_outage :
    ((update_gift_status outage "g1" claimed (world_in unlocked)).1 ≡ err database_error)
    × (get "g1" (update_gift_status outage "g1" claimed (world_in unlocked)).0.gifts
        ≡ some (record (gift_in unlocked) { status = claimed; updated_at = 6000 }))
unfolding update_gift_status get set is_valid_transition
claim_in_outage = (refl, refl)

abbrev history : List (Env × Call)
history =
    (noon, update "g1" funded)
    ∷ (outage, update_idempotent "g1" cancelled)
    ∷ (noon, soft_delete "g1")
    ∷ (noon, store_claim "g1" "tx9")
    ∷ (noon, restore "g1")
    ∷ (noon, update "g1" expired)
    ∷ []

run-Evolves_example :
    (h : Gift) × (get "g1" (run history (world_in pending_payment)).gifts ≡ some h)
    × Evolves (gift_in pending_payment) h
unfolding get
run-Evolves_example =
    run-Evolves history (world_in pending_payment) "g1" (gift_in pending_payment) refl

abbrev claimed_now : Gift
claimed_now = record (gift_in unlocked) { status = claimed; updated_at = 6000 }

update_gift_status_branches_example :
    ((is_valid_transition unlocked claimed ≡ false)
      × (update_gift_status outage "g1" claimed (world_in unlocked)
          ≡ (world_in unlocked, err (invalid_transition unlocked claimed))))
    ⊎ ((is_valid_transition unlocked claimed ≡ true)
        × ((update_gift_status outage "g1" claimed (world_in unlocked)).0.gifts
            ≡ set "g1" claimed_now (world_in unlocked).gifts)
        × ((update_gift_status outage "g1" claimed (world_in unlocked)).1 ≡ (
            if is_audited claimed && not outage.db_up
            then err database_error
            else ok (some claimed_now)))
        × (length (update_gift_status outage "g1" claimed (world_in unlocked)).0.audit
            ≡ (if is_audited claimed && outage.db_up then 1 else 0)))
unfolding get
update_gift_status_branches_example =
    update_gift_status_branches outage "g1" claimed (world_in unlocked) (gift_in unlocked) refl

abbrev whole_way : Chain draft claimed 5
unfolding is_valid_transition
whole_way =
    next {t = unlocked}
      (next {t = locked}
        (next {t = funded} (next {t = pending_payment} (next {t = draft} here refl) refl) refl)
        refl)
      refl

chain_bounds_example :
    let n : ℕ = 5 in (n ≤ 5) × (draft ≡ claimed → n ≡ 0) × (claimed ≡ expired → n ≡ 0)
chain_bounds_example = chain_bounds draft claimed 5 whole_way
