-- ===== src/Fraud/Flags.antt =====
-- The flags that wait for a review (src/server/services/fraud.service.ts), over the rows of
-- `fraud_flags`, and the administrator's routes src/app/api/v1/admin/fraud-flags.
pub mod Queue
use lumigift_lumigift.Common.{
  ℕ, String, Bool, true, false, not, ◌&&◌, ◌||◌, List, [], ◌∷◌, ◌++◌, map, Option, none, some, any,
  filter, ltb, ◌==◌, ◌===◌, if◌then◌else◌,
}
use lumigift_lumigift.Fraud.{Severity, low, medium, high}
use lumigift_lumigift.Admin.{with_admin}

pub data ReviewAction : Type 0 where
  approved rejected : ReviewAction

-- What a review writes.
pub record Review : Type 0 where
  pub reviewed_by : String
  pub action : ReviewAction
  pub notes : Option String
  pub reviewed_at : ℕ

-- A row; the metadata is left out.
pub record FraudFlag : Type 0 where
  pub id : String
  pub gift_id : String
  pub user_id : String
  pub flag_type : String
  pub reason : String
  pub severity : Severity
  pub review : Option Review
  pub created_at : ℕ

abbrev pub is_open : FraudFlag → Bool
is_open f = elim f.review [ none ↦ true | some r ↦ false ]

-- `createFraudFlag`, with the id and the time that the database gives; none where the INSERT throws.
unfoldable pub create_fraud_flag :
    Bool
    → String
    → ℕ
    → String
    → String
    → String
    → String
    → Severity
    → List FraudFlag
    → Option (List FraudFlag)
create_fraud_flag db_up id now gift_id user_id flag_type reason severity rows =
    if not db_up || any (λ f. f.id === id) rows
    then none
    else some (
        rows
        ++ record {
          id = id;
          gift_id = gift_id;
          user_id = user_id;
          flag_type = flag_type;
          reason = reason;
          severity = severity;
          review = none;
          created_at = now;
        }
          ∷ [])

-- The column is a TEXT: its order is that of the words.
abbrev pub rank : Severity → ℕ
rank high = 0
rank low = 1
rank medium = 2

-- `ORDER BY severity DESC, created_at DESC`
abbrev pub comes_after : FraudFlag → FraudFlag → Bool
comes_after f g =
    ltb (rank f.severity) (rank g.severity)
    || ((rank f.severity == rank g.severity) && ltb f.created_at g.created_at)

unfoldable pub insert_flag : FraudFlag → List FraudFlag → List FraudFlag
insert_flag f [] = f ∷ []
insert_flag f (g ∷ gs) =
    let rest = insert_flag f gs in if comes_after f g then g ∷ rest else f ∷ g ∷ gs

unfoldable pub order_flags : List FraudFlag → List FraudFlag
order_flags [] = []
order_flags (f ∷ fs) = insert_flag f (order_flags fs)

-- `getUnreviewedFraudFlags`
abbrev pub get_unreviewed_fraud_flags : List FraudFlag → List FraudFlag
get_unreviewed_fraud_flags rows = order_flags (filter is_open rows)

-- `markFraudFlagReviewed`
abbrev pub mark_fraud_flag_reviewed : String → Review → List FraudFlag → List FraudFlag
mark_fraud_flag_reviewed id r = map (λ f. if f.id === id then record f { review = some r } else f)

-- `isGiftFlagged`
abbrev pub is_gift_flagged : String → List FraudFlag → Bool
is_gift_flagged gift_id = any (λ f. (f.gift_id === gift_id) && is_open f)

-- The body of a review: it is no JSON, the schema refuses it, or what it says.
pub data ReviewBody : Type 0 where
  unreadable refused : ReviewBody
  given : ReviewAction → Option String → ReviewBody

abbrev pub reviewer : Option String → String
reviewer none = "unknown"
reviewer (some id) = id

unfoldable pub review_with :
    Bool → ℕ → String → Option String → ReviewBody → List FraudFlag → List FraudFlag × ℕ
review_with db_up now id user_id unreadable rows = (rows, 500)
review_with db_up now id user_id refused rows = (rows, 400)
review_with db_up now id user_id (given action notes) rows = if not db_up then (rows, 500) else (
  mark_fraud_flag_reviewed id
      (record { reviewed_by = reviewer user_id; action = action; notes = notes; reviewed_at = now })
      rows,
  200,
)

-- PATCH, with the session's user: the role and the id.
unfoldable pub review_route :
    Bool
    → ℕ
    → String
    → Option (Option String)
    → Option String
    → ReviewBody
    → List FraudFlag
    → List FraudFlag × ℕ
review_route db_up now id role user_id body =
    with_admin role (review_with db_up now id user_id body)
