-- ===== src/Tests/Collections.antt =====
-- Group gifts, the event indexer and the rate limiter on sample data.
use lumigift_lumigift.Common.{◌+◌, ◌≤◌, ◌<◌, ◌≡◌, refl, inl, List, [], ◌∷◌, none, some, arith}
use lumigift_lumigift.Common.Dict.{Dict, get, set}
use lumigift_lumigift.Gift.Status.{unlocked}
use lumigift_lumigift.GroupGift.{
  success, GroupContribution, GroupGift, opened, funded, CreateGroupGiftInput, find_contribution,
  mark, confirmed, create_group_gift, initiate_contribution, confirm_contribution,
}
use lumigift_lumigift.GroupGift.Totals.{
  success_total, counted, confirmed_balance, Call, perform, create, initiate, confirm, run,
  no_groups, run-no_groups-AllSound,
}
use lumigift_lumigift.EventIndexer.{EscrowEvent, gift_created, gift_claimed, apply_event}
use lumigift_lumigift.EventIndexer.Replay.{apply_event_twice}
use lumigift_lumigift.RateLimit.{Entry}
use lumigift_lumigift.RateLimit.Window.{passed, min_of, passed_in_window}
use lumigift_lumigift.Tests.Samples.{noon, outage, world_in, differ}

abbrev contribution : GroupContribution
contribution = record {
  id = "c1";
  group_gift_id = "gg1";
  contributor_name = "Bola";
  contributor_phone = none;
  amount_ngn = 400;
  payment_reference = "lumigift_grp_c1";
  status = success;
  created_at = 20;
}

abbrev wedding : GroupGift
wedding = record {
  id = "gg1";
  creator_id = "u1";
  recipient_phone = "+2348012345678";
  recipient_name = "Ada";
  target_amount_ngn = 1000;
  collected_amount_ngn = 400;
  message = none;
  unlock_at = 9000;
  deadline = 8000;
  status = opened;
  contributions = contribution ∷ [];
  share_token = "t1";
  contract_id = none;
  stellar_tx_hash = none;
  created_at = 10;
  updated_at = 30;
}

-- Confirmed a second time, a contribution of 400 naira leaves 800 collected.
confirmed_balance_example :
    ((confirmed 40 "lumigift_grp_c1" contribution wedding).collected_amount_ngn ≡ 400 + 400)
    × ((confirmed 40 "lumigift_grp_c1" contribution wedding).collected_amount_ngn
        ≡ success_total (confirmed 40 "lumigift_grp_c1" contribution wedding).contributions
          + counted contribution)
unfolding find_contribution
confirmed_balance_example = confirmed_balance 40 "lumigift_grp_c1" contribution wedding refl refl

abbrev plan : CreateGroupGiftInput
plan = record {
  recipient_phone = "+2348012345678";
  recipient_name = "Ada";
  target_amount_ngn = 1000;
  message = none;
  unlock_at = 9000;
  deadline = 8000;
}

abbrev group_calls : List Call
group_calls =
    create 10 "gg1" "t1" "u1" plan
    ∷ initiate 20 "c1" (some "url") "gg1"
        (record { contributor_name = "Bola"; contributor_phone = none; amount_ngn = 400 })
    ∷ confirm 30 "gg1" "lumigift_grp_c1"
    ∷ []

run-no_groups-AllSound_example :
    (wedding.status ≡ opened → wedding.collected_amount_ngn < wedding.target_amount_ngn)
    × (wedding.status ≡ funded → wedding.target_amount_ngn ≤ wedding.collected_amount_ngn)
    × (success_total wedding.contributions ≤ wedding.collected_amount_ngn)
unfolding run perform create_group_gift initiate_contribution confirm_contribution no_groups
    find_contribution mark get set
run-no_groups-AllSound_example =
    run-no_groups-AllSound group_calls "gg1" wedding (omega arith, (tt, (tt, tt))) refl

abbrev chain_event : EscrowEvent
chain_event = record { kind = gift_claimed; contract_id = "C1"; tx_hash = "tx5"; gift_id = "g1" }

apply_event_twice_example :
    (apply_event noon chain_event (apply_event outage chain_event (world_in unlocked)).0).0
    ≡ (apply_event outage chain_event (world_in unlocked)).0
unfolding get
apply_event_twice_example =
    apply_event_twice outage noon chain_event (world_in unlocked) (differ "g1" "" refl)
      (λ g at. ground arith)

abbrev funding_event : EscrowEvent
funding_event = record { kind = gift_created; contract_id = "C1"; tx_hash = "tx4"; gift_id = "g1" }

passed_in_window_example : passed "10.0.0.1" 2 1000 (50 ∷ 60 ∷ 70 ∷ []) [] ≡ min_of 2 3
unfolding get
passed_in_window_example =
    passed_in_window "10.0.0.1" 2 1000 50 (60 ∷ 70 ∷ []) [] (omega arith) (inl refl)
      (omega arith, (omega arith, tt))

abbrev two_clients : Dict Entry
two_clients =
    ("10.0.0.1", record { count = 2; reset_at = 900 })
    ∷ ("10.0.0.2", record { count = 1; reset_at = 950 })
    ∷ []
