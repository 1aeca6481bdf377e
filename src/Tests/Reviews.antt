-- ===== src/Tests/Reviews.antt =====
-- Flags of sample gifts.
use lumigift_lumigift.Common.{
  ℕ, ◌≡◌, refl, String, Bool, not, ◌&&◌, List, [], ◌∷◌, none, ltb, ◌===◌, map,
}
use lumigift_lumigift.Fraud.{Severity, low, medium, high}
use lumigift_lumigift.Fraud.Flags.{
  Review, approved, FraudFlag, is_open, insert_flag, order_flags, get_unreviewed_fraud_flags,
  mark_fraud_flag_reviewed, is_gift_flagged,
}
use lumigift_lumigift.Fraud.Flags.Queue.{count_flags, HasHighLast, review_queue_lem}

abbrev flag : String → Severity → ℕ → FraudFlag
flag id severity created_at = record {
  id = id;
  gift_id = "g1";
  user_id = "u1";
  flag_type = "rapid_gifts";
  reason = "";
  severity = severity;
  review = none;
  created_at = created_at;
}

abbrev flags : List FraudFlag
flags = flag "f1" high 9000 ∷ flag "f2" low 1000 ∷ flag "f3" medium 2000 ∷ []

abbrev approval : Review
approval = record { reviewed_by = "u9"; action = approved; notes = none; reviewed_at = 9500 }

-- The oldest flag of low severity stands before the newest one of high severity.
queue-flags : map (λ f. f.id) (get_unreviewed_fraud_flags flags) ≡ "f3" ∷ "f2" ∷ "f1" ∷ []
unfolding order_flags insert_flag
queue-flags = refl

review_queue_lem_example :
    ((p : FraudFlag → Bool)
      → count_flags p (get_unreviewed_fraud_flags flags)
        ≡ count_flags (λ f. p f && is_open f) flags)
    × ((gift_id : String)
        → is_gift_flagged gift_id flags
          ≡ ltb 0 (count_flags (λ f. f.gift_id === gift_id) (get_unreviewed_fraud_flags flags)))
    × ((p : FraudFlag → Bool)
        → count_flags p (get_unreviewed_fraud_flags (mark_fraud_flag_reviewed "f3" approval flags))
          ≡ count_flags (λ f. p f && not (f.id === "f3")) (get_unreviewed_fraud_flags flags))
    × HasHighLast (get_unreviewed_fraud_flags flags)
review_queue_lem_example = review_queue_lem flags "f3" approval
