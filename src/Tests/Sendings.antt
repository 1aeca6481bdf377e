-- ===== src/Tests/Sendings.antt =====
-- Creating and listing gifts on sample data.
use lumigift_lumigift.Common.{
  ◌*◌, Bool, ltb, ◌&&◌, ℕ, ◌+◌, ◌-◌, ◌≤◌, ◌<◌, ◌≡◌, ◌↔◌, ◌⊎◌, refl, String, true, false, List, [],
  ◌∷◌, none, some, err, length, arith,
}
use lumigift_lumigift.Common.Dict.{set, values}
use lumigift_lumigift.Fraud.{Counts, check_gift_for_fraud, high, medium}
use lumigift_lumigift.Phone.{detect_phone_hash_collision}
use lumigift_lumigift.Fraud.Rules.{Suspicious, check_gift_for_fraud_lem}
use lumigift_lumigift.Gift.Status.{locked, claimed, expired}
use lumigift_lumigift.Gift.Defs.{Gift, Error}
use lumigift_lumigift.Gift.Create.{
  CreateGiftInput, Settings, Answers, sent_since, new_gift, create_gift, start_gift,
}
use lumigift_lumigift.Gift.Sending.{create_gift_branches}
use lumigift_lumigift.Gift.DailyLimit.{Creation}
use lumigift_lumigift.Gift.InFlight.{
  Move, begins, goes_on, move_one, move_all, calls_in_flight_limit,
}
use lumigift_lumigift.Gift.Pages.{
  any_status, only_pending, only, passes, get_gifts_by_sender, get_gifts_by_sender_page,
}
use lumigift_lumigift.Gift.Walk.{walk, walk_lem}
use lumigift_lumigift.Gift.Listing.{IsNewestFirst, count_gifts, is_uncounted}
use lumigift_lumigift.Gift.OffsetPages.{pages_up_to, get_gifts_by_sender_page_lem}
use lumigift_lumigift.Tests.Samples.{noon, gift_in, world_in, differ}

abbrev busy : Counts
busy = record { to_recipient = 1; last_day = 4; last_minutes = 3 }

check_gift_for_fraud_lem_example :
    let r = check_gift_for_fraud 5000 0 600000 busy in
    let age : ℕ = 5000 - 0 in
    ((r.flagged ≡ true) ↔ ((500000 < 600000) ⊎ Suspicious age busy))
    × ((r.severity ≡ high) ↔ Suspicious age busy)
    × ((r.severity ≡ medium) ↔ ((500000 < 600000) × (Suspicious age busy → ⊥)))
    × (length r.reasons ≤ 4)
check_gift_for_fraud_lem_example = check_gift_for_fraud_lem 5000 0 600000 busy

abbrev settings : Settings
settings = record {
  daily_limit_ngn = 1000000;
  hash_phone = λ phone. phone;
  strip_html_tags = λ message. message;
}

abbrev order : CreateGiftInput
order = record {
  recipient_phone = "+2348012345678";
  recipient_name = "Ada";
  recipient_email = some "ada@example.org";
  amount_ngn = 600000;
  message = some "Happy birthday";
  voice_note_url = none;
  unlock_at = 9000;
  occasion = none;
  notify_at = none;
  payment_provider = "paystack";
}

abbrev answers : Answers
answers = record {
  amount_usdc = some "375.0000000";
  users_with_hash = some 0;
  fraud_counts = some busy;
  flags_taken = 4;
  rate_locked = true;
  invitation_made = true;
  payment_url = some "https://pay";
}

abbrev stored_gift : Gift
stored_gift = new_gift settings 5000 "g2" "u1" order "375.0000000"

create_gift_branches_example :
    let (w', r) =
      create_gift settings noon 0 answers "g2" "u1" order false none (world_in locked) in
    ((w' ≡ world_in locked) × ((e : Error) × (r ≡ err e)))
    ⊎ ((sent_since 0 "u1" (world_in locked).gifts + 600000 ≤ 1000000)
        × ((usdc : String) × (some "375.0000000" ≡ some usdc)
            × (w'.gifts
                ≡ set "g2" (new_gift settings 5000 "g2" "u1" order usdc) (world_in locked).gifts)))
create_gift_branches_example =
    create_gift_branches settings noon 0 answers "g2" "u1" order false none (world_in locked)

sent_before : sent_since 0 "u1" (world_in locked).gifts ≡ 20000
unfolding sent_since values
sent_before = refl

abbrev creation : String → Creation
creation id = record {
  env = noon;
  answers = answers;
  id = id;
  sender_id = "u1";
  input = order;
  registered = false;
  sender_created_at = none;
}

-- Two calls of 600,000 naira that overlap, with a limit of a million.
abbrev calls : List Move
calls = begins (creation "g2") ∷ begins (creation "g3") ∷ goes_on 1 ∷ goes_on 0 ∷ []

calls_in_flight_limit_example :
    sent_since 0 "u1" (move_all 2 settings 0 calls ([], world_in locked)).1.gifts ≤ 2 * 1000000
calls_in_flight_limit_example =
    calls_in_flight_limit 2 settings 0 calls "u1" (world_in locked) (omega arith)
      (omega (arith, sent_before))

-- Both are stored, and the limit is exceeded.
limit_exceeded :
    sent_since 0 "u1" (move_all 2 settings 0 calls ([], world_in locked)).1.gifts ≡ 1220000
unfolding sent_since values move_all move_one start_gift new_gift set detect_phone_hash_collision
    check_gift_for_fraud
limit_exceeded = refl

abbrev named : String → ℕ → Gift
named id created_at = record (gift_in locked) { id = id; created_at = created_at }

abbrev three : List Gift
three = named "a" 30 ∷ named "b" 20 ∷ named "c" 10 ∷ []

walk_lem_example : walk 3 three 2 none ≡ three
walk_lem_example =
    walk_lem three 2 3 (omega arith)
      ((differ "b" "a" refl, (differ "c" "a" refl, tt)), ((differ "c" "b" refl, tt), (tt, tt)))
      (differ "a" "" refl, (differ "b" "" refl, (differ "c" "" refl, tt))) (omega arith)

abbrev is_large : Gift → Bool
is_large g = ltb 15000 g.amount_ngn

get_gifts_by_sender_page_lem_example :
    let r = get_gifts_by_sender_page "u1" 1 500 only_pending (world_in locked) in
    let gs = pages_up_to r.total_pages "u1" 500 only_pending (world_in locked) in
    IsNewestFirst gs
    × (count_gifts is_large gs
        ≡ count_gifts
            (λ g. passes only_pending g.status && is_large g)
            (get_gifts_by_sender "u1" (world_in locked)))
    × (length gs ≡ r.total)
    × (length r.data_ ≤ r.limit)
    × (1 ≤ r.limit)
    × (r.limit ≤ 100)
    × (r.counts.all ≡ (get_gifts_by_sender_page "u1" 1 500 any_status (world_in locked)).total)
    × (r.counts.pending
        ≡ (get_gifts_by_sender_page "u1" 1 500 only_pending (world_in locked)).total)
    × (r.counts.claimed
        ≡ (get_gifts_by_sender_page "u1" 1 500 (only claimed) (world_in locked)).total)
    × (r.counts.expired
        ≡ (get_gifts_by_sender_page "u1" 1 500 (only expired) (world_in locked)).total)
    × (r.counts.all
        ≡ r.counts.pending
          + r.counts.claimed
          + r.counts.expired
          + count_gifts (λ g. is_uncounted g.status) (get_gifts_by_sender "u1" (world_in locked)))
get_gifts_by_sender_page_lem_example =
    get_gifts_by_sender_page_lem "u1" 1 500 only_pending is_large (world_in locked)
