-- ===== src/Gift/Pages.antt =====
-- The listings of src/server/services/gift.service.ts: by sender, by recipient, by status, the two
-- paginations and the platform's statistics.
use lumigift_lumigift.Common.{
  ℕ, ◌+◌, ◌-◌, ◌*◌, ◌/◌, String, Bool, true, ◌&&◌, ◌||◌, List, [], ◌∷◌, Option, none, some, Result,
  ok, err, if◌then◌else◌, ltb, leb, ◌==◌, ◌===◌, any, filter, length, take, drop, sum_by,
}
use lumigift_lumigift.Common.Dict.{values}
use lumigift_lumigift.Gift.Status.{
  GiftStatus, pending_payment, funded, locked, unlocked, claimed, expired, is_status,
}
use lumigift_lumigift.Gift.Defs.{Gift, World, is_active}

-- `[...gifts.values()].filter((g) => ... && !g.deletedAt)`
unfoldable pub select : (Gift → Bool) → World → List Gift
select p w = filter (λ g. p g && is_active g) (values w.gifts)

abbrev pub get_gifts_by_sender : String → World → List Gift
get_gifts_by_sender sender_id = select (λ g. g.sender_id === sender_id)

-- The hash of the phone number is an argument.
abbrev pub get_gifts_by_recipient : (String → String) → String → World → List Gift
get_gifts_by_recipient hash_phone phone = select (λ g. g.recipient_phone_hash === hash_phone phone)

abbrev pub get_gifts_by_status : GiftStatus → World → List Gift
get_gifts_by_status status = select (λ g. is_status g.status status)

abbrev pub get_all_gifts : World → List Gift
get_all_gifts = select (λ g. true)

abbrev pub is_successful : GiftStatus → Bool
is_successful s =
    is_status s funded || is_status s locked || is_status s unlocked || is_status s claimed

pub record PlatformStats : Type 0 where
  pub total_gifts_sent : ℕ
  pub total_value_ngn : ℕ

unfoldable pub get_platform_stats : World → PlatformStats
get_platform_stats w =
    let successful_gifts = filter (λ g. is_successful g.status) (get_all_gifts w) in
    record {
      total_gifts_sent = length successful_gifts;
      total_value_ngn = sum_by (λ g. g.amount_ngn) successful_gifts;
    }

-- `.sort((a, b) => b.createdAt - a.createdAt)`: the newest first, stable.
unfoldable pub insert_gift : Gift → List Gift → List Gift
insert_gift g [] = g ∷ []
insert_gift g (h ∷ hs) = if ltb g.created_at h.created_at then h ∷ insert_gift g hs else g ∷ h ∷ hs

unfoldable pub newest_first : List Gift → List Gift
newest_first [] = []
newest_first (g ∷ gs) = insert_gift g (newest_first gs)

-- `findIndex(...) + 1`, which is 0 where there is none.
unfoldable pub after_id : String → List Gift → ℕ
after_id c [] = 0
after_id c (g ∷ gs) =
    let rest = after_id c gs in if g.id === c then 1 else if rest == 0 then 0 else rest + 1

abbrev pub start_index : Option String → List Gift → ℕ
start_index none gs = 0
start_index (some c) gs = if c === "" then 0 else after_id c gs

-- The id of the last gift of a page.
unfoldable pub last_id : List Gift → Option String
last_id [] = none
last_id (g ∷ []) = some g.id
last_id (g ∷ h ∷ hs) = last_id (h ∷ hs)

pub record GiftPage : Type 0 where
  pub gifts : List Gift
  pub total : ℕ
  pub next_cursor : Option String

-- The `TypeError` of the id of the last gift of an empty page.
pub data PageError : Type 0 where
  no_last_gift : PageError

-- The result with its cursor, which is set where more gifts follow.
unfoldable pub finish_page : ℕ → Bool → List Gift → Result PageError GiftPage
finish_page total more page =
    if more
    then elim (last_id page) [
      | none ↦ err no_last_gift
      | some id ↦ ok (record { gifts = page; total = total; next_cursor = some id })
    ]
    else ok (record { gifts = page; total = total; next_cursor = none })

abbrev pub page_at : ℕ → List Gift → ℕ → Result PageError GiftPage
page_at start all limit =
    finish_page (length all) (ltb (start + limit) (length all)) (take limit (drop start all))

-- `getGiftsBySenderPaginated` on the sorted gifts of the sender.
abbrev pub page_of : List Gift → Option String → ℕ → Result PageError GiftPage
page_of all cursor limit = page_at (start_index cursor all) all limit

abbrev pub get_gifts_by_sender_paginated :
    String → Option String → ℕ → World → Result PageError GiftPage
get_gifts_by_sender_paginated sender_id cursor limit w =
    page_of (newest_first (get_gifts_by_sender sender_id w)) cursor limit

abbrev pub is_pending : GiftStatus → Bool
is_pending s =
    is_status s pending_payment || is_status s funded || is_status s locked || is_status s unlocked

-- The filter of a page: the word `all` or none, the word `pending`, or a status.
pub data StatusFilter : Type 0 where
  any_status only_pending : StatusFilter
  only : GiftStatus → StatusFilter

abbrev pub passes : StatusFilter → GiftStatus → Bool
passes any_status s = true
passes only_pending s = is_pending s
passes (only t) s = is_status s t

pub record PageCounts : Type 0 where
  pub all : ℕ
  pub pending : ℕ
  pub claimed : ℕ
  pub expired : ℕ

pub record GiftPageOffset : Type 0 where
  pub data_ : List Gift
  pub total : ℕ
  pub page : ℕ
  pub limit : ℕ
  pub total_pages : ℕ
  pub counts : PageCounts

abbrev pub max_of : ℕ → ℕ → ℕ
max_of a b = if leb a b then b else a

abbrev pub safe_limit_of : ℕ → ℕ
safe_limit_of limit = let l = max_of 1 limit in if leb 100 l then 100 else l

-- `Math.ceil(total / limit) || 1`
abbrev pub pages_of : ℕ → ℕ → ℕ
pages_of total limit = max_of 1 ((total + (limit - 1)) / limit)

-- The statuses of the counter, which the source lists apart from those of the filter.
abbrev pub counted_pending : List GiftStatus
counted_pending = pending_payment ∷ funded ∷ locked ∷ unlocked ∷ []

abbrev pub counts_of : List Gift → PageCounts
counts_of gs = record {
  all = length gs;
  pending = length (filter (λ g. any (is_status g.status) counted_pending) gs);
  claimed = length (filter (λ g. is_status g.status claimed) gs);
  expired = length (filter (λ g. is_status g.status expired) gs);
}

-- `getGiftsBySenderPage`
unfoldable pub get_gifts_by_sender_page : String → ℕ → ℕ → StatusFilter → World → GiftPageOffset
get_gifts_by_sender_page sender_id page limit status w =
    let safe_page = max_of 1 page in
    let safe_limit = safe_limit_of limit in
    let all_gifts = get_gifts_by_sender sender_id w in
    let filtered = filter (λ g. passes status g.status) (newest_first all_gifts) in
    record {
      data_ = take safe_limit (drop ((safe_page - 1) * safe_limit) filtered);
      total = length filtered;
      page = safe_page;
      limit = safe_limit;
      total_pages = pages_of (length filtered) safe_limit;
      counts = counts_of all_gifts;
    }
