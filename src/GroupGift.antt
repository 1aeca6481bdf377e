-- ===== src/GroupGift.antt =====
-- Group gifts (src/server/services/group-gift.service.ts): many contributors pay towards one gift,
-- which is open until its target is reached or its deadline has passed.
pub mod Totals
use lumigift_lumigift.Common.{
  ℕ, ◌+◌, ◌*◌, String, Bool, true, false, ◌&&◌, not, List, [], ◌∷◌, ◌++◌, Option, none, some,
  Result, ok, err, Action, ltb, leb, ◌==◌, ◌===◌, if◌then◌else◌, filter,
}
use lumigift_lumigift.Common.Dict.{Dict, get, set, values}
use Prim.Native.String.{◌++◌ as concat}

pub data ContributionStatus : Type 0 where
  pending success failed : ContributionStatus

pub record GroupContribution : Type 0 where
  pub id : String
  pub group_gift_id : String
  pub contributor_name : String
  pub contributor_phone : Option String
  pub amount_ngn : ℕ
  pub payment_reference : String
  pub status : ContributionStatus
  pub created_at : ℕ

pub data GroupGiftStatus : Type 0 where
  opened funded locked expired cancelled : GroupGiftStatus

pub record GroupGift : Type 0 where
  pub id : String
  pub creator_id : String
  pub recipient_phone : String
  pub recipient_name : String
  pub target_amount_ngn : ℕ
  pub collected_amount_ngn : ℕ
  pub message : Option String
  pub unlock_at : ℕ
  pub deadline : ℕ
  pub status : GroupGiftStatus
  pub contributions : List GroupContribution
  pub share_token : String
  pub contract_id : Option String
  pub stellar_tx_hash : Option String
  pub created_at : ℕ
  pub updated_at : ℕ

-- The two maps of the module, and the payment sessions asked of Paystack (reference, kobo).
pub record Groups : Type 0 where
  pub group_gifts : Dict GroupGift
  pub token_index : Dict String
  pub sessions : List (String × ℕ)

pub data Error : Type 0 where
  group_not_found not_accepting deadline_passed contribution_not_found : Error
  payment_unavailable : Error

pub record CreateGroupGiftInput : Type 0 where
  pub recipient_phone : String
  pub recipient_name : String
  pub target_amount_ngn : ℕ
  pub message : Option String
  pub unlock_at : ℕ
  pub deadline : ℕ

pub record ContributeInput : Type 0 where
  pub contributor_name : String
  pub contributor_phone : Option String
  pub amount_ngn : ℕ

-- `createGroupGift`, with the id and the share token that are drawn.
unfoldable pub create_group_gift :
    ℕ → String → String → String → CreateGroupGiftInput → Groups → Groups × GroupGift
create_group_gift now id share_token creator_id input s =
    let gift : GroupGift = record {
      id = id;
      creator_id = creator_id;
      recipient_phone = input.recipient_phone;
      recipient_name = input.recipient_name;
      target_amount_ngn = input.target_amount_ngn;
      collected_amount_ngn = 0;
      message = input.message;
      unlock_at = input.unlock_at;
      deadline = input.deadline;
      status = opened;
      contributions = [];
      share_token = share_token;
      contract_id = none;
      stellar_tx_hash = none;
      created_at = now;
      updated_at = now;
    } in
    (
      record s {
        group_gifts = set id gift s.group_gifts;
        token_index = set share_token id s.token_index;
      },
      gift,
    )

unfoldable pub get_group_gift_by_token : String → Groups → Option GroupGift
get_group_gift_by_token token s = elim (get token s.token_index) [
  | none ↦ none
  | some id ↦ if id === "" then none else get id s.group_gifts
]

abbrev pub is_open : GroupGiftStatus → Bool
is_open opened = true
is_open _ = false

-- The gift object is shared with the map, so a change of it is a change of the map.
abbrev pub store : String → GroupGift → Groups → Groups
store id gift s = record s { group_gifts = set id gift s.group_gifts }

pub ngn_to_kobo : ℕ → ℕ
ngn_to_kobo ngn = ngn * 100

abbrev pub reference_of : String → String
reference_of id = concat "lumigift_grp_" id

unfoldable pub pending_contribution : ℕ → String → String → ContributeInput → GroupContribution
pending_contribution now id group_gift_id input = record {
  id = id;
  group_gift_id = group_gift_id;
  contributor_name = input.contributor_name;
  contributor_phone = input.contributor_phone;
  amount_ngn = input.amount_ngn;
  payment_reference = reference_of id;
  status = pending;
  created_at = now;
}

-- The gift with the new contribution pushed.
unfoldable pub pushed : ℕ → String → String → ContributeInput → GroupGift → GroupGift
unfolding pending_contribution
pushed now cid id input gift = record gift {
  contributions = gift.contributions ++ pending_contribution now cid id input ∷ [];
  updated_at = now;
}

-- `initiateContribution` on the gift that was found. `pay` is Paystack's answer: the URL, or none
-- where the request throws, which comes after the contribution has been pushed.
initiate_found :
    ℕ
    → String
    → Option String
    → String
    → ContributeInput
    → GroupGift
    → Action Groups Error (GroupContribution × String)
unfolding pushed ngn_to_kobo
initiate_found now cid pay id input gift s =
    if not (is_open gift.status)
    then (s, err not_accepting)
    else if ltb gift.deadline now
    then (store id (record gift { status = expired; updated_at = now }) s, err deadline_passed)
    else (let s' : Groups = store id (pushed now cid id input gift) s in
        let session : String × ℕ = (reference_of cid, ngn_to_kobo input.amount_ngn) in
        elim pay [
          | none ↦ (s', err payment_unavailable)
          | some url ↦ (
            record s' { sessions = s'.sessions ++ session ∷ [] },
            ok (pending_contribution now cid id input, url),
          )
        ])

unfoldable pub initiate_contribution :
    ℕ
    → String
    → Option String
    → String
    → ContributeInput
    → Action Groups Error (GroupContribution × String)
unfolding initiate_found
initiate_contribution now contribution_id pay id input s = elim (get id s.group_gifts) [
  | none ↦ (s, err group_not_found)
  | some gift ↦ initiate_found now contribution_id pay id input gift s
]

-- `contributions.find((c) => c.paymentReference === reference)`
unfoldable pub find_contribution : String → List GroupContribution → Option GroupContribution
find_contribution reference [] = none
find_contribution reference (c ∷ cs) =
    if c.payment_reference === reference then some c else find_contribution reference cs

-- The list after the contribution that `find` returns has got a new status.
unfoldable pub mark : ContributionStatus → String → List GroupContribution → List GroupContribution
mark status reference [] = []
mark status reference (c ∷ cs) =
    if c.payment_reference === reference
    then record c { status = status } ∷ cs
    else c ∷ mark status reference cs

-- The gift after `confirmContribution`.
unfoldable pub confirmed : ℕ → String → GroupContribution → GroupGift → GroupGift
confirmed now reference c gift =
    let collected = gift.collected_amount_ngn + c.amount_ngn in
    record gift {
      contributions = mark success reference gift.contributions;
      collected_amount_ngn = collected;
      updated_at = now;
      status = if leb gift.target_amount_ngn collected then funded else gift.status;
    }

confirm_found : ℕ → String → String → GroupGift → Action Groups Error GroupGift
unfolding confirmed
confirm_found now id reference gift s = elim (find_contribution reference gift.contributions) [
  | none ↦ (s, err contribution_not_found)
  | some c ↦ let gift' = confirmed now reference c gift in (store id gift' s, ok gift')
]

unfoldable pub confirm_contribution : ℕ → String → String → Action Groups Error GroupGift
unfolding confirm_found
confirm_contribution now id reference s = elim (get id s.group_gifts) [
  | none ↦ (s, err group_not_found)
  | some gift ↦ confirm_found now id reference gift s
]

fail_found : ℕ → String → String → GroupGift → Groups → Groups
fail_found now id reference gift s = elim (find_contribution reference gift.contributions) [
  | none ↦ s
  | some c ↦
      store id
        (record gift { contributions = mark failed reference gift.contributions; updated_at = now })
        s
]

-- `failContribution`
unfoldable pub fail_contribution : ℕ → String → String → Groups → Groups
unfolding fail_found
fail_contribution now id reference s = elim (get id s.group_gifts) [
  | none ↦ s
  | some gift ↦ fail_found now id reference gift s
]

-- `getGroupGiftsByCreator`
unfoldable pub get_group_gifts_by_creator : String → Groups → List GroupGift
get_group_gifts_by_creator creator_id s =
    filter (λ g. g.creator_id === creator_id) (values s.group_gifts)
