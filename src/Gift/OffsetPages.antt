-- ===== src/Gift/OffsetPages.antt =====
-- The offset pages of a listing (getGiftsBySenderPage of src/server/services/gift.service.ts).
use lumigift_lumigift.Common.{
  ℕ, zero, suc, ◌+◌, ◌-◌, ◌*◌, ◌/◌, ◌≤◌, ◌≡◌, refl, ◌∙◌, ap, sym, String, Bool, ◌&&◌, List, [], ◌∷◌,
  ◌++◌, filter, any, length, take, drop, All, arith, Bool-cases, inl, inr, length-take-le,
}
use native.Mathlib.Nat.{suc-mul, lt-div-mul-add, mul-le-mul_right}
use lumigift_lumigift.Gift.Status.{claimed, expired, is_status}
use lumigift_lumigift.Gift.Defs.{Gift, World}
use lumigift_lumigift.Gift.Pages.{
  get_gifts_by_sender, newest_first, is_pending, StatusFilter, any_status, only_pending, only,
  passes, counted_pending, max_of, safe_limit_of, pages_of, get_gifts_by_sender_page,
}
use lumigift_lumigift.Gift.Walk.{take-all}
use lumigift_lumigift.Gift.Listing.{
  IsNewestFirst, count_gifts, newest_first_lem, is_uncounted, split_counts, count_gifts-all,
}

-- The gifts of the first pages, one after the other.
unfoldable pub pages_up_to : ℕ → String → ℕ → StatusFilter → World → List Gift
pages_up_to zero sender_id limit status w = []
pages_up_to (suc n) sender_id limit status w =
    pages_up_to n sender_id limit status w
    ++ (get_gifts_by_sender_page sender_id (suc n) limit status w).data_

take-nil : (n : ℕ) → take {A = Gift} n [] ≡ []
take-nil zero = refl
take-nil (suc n) = refl

take-add : (m n : ℕ) (xs : List Gift) → take m xs ++ take n (drop m xs) ≡ take (m + n) xs
take-add zero n xs = ap (λ k. take k xs) (omega arith)
take-add (suc m) n [] = take-nil n ∙ sym (take-nil (suc m + n))
take-add (suc m) n (x ∷ xs) =
    let one_more : suc (m + n) ≡ suc m + n = omega arith in
    ap (λ t. x ∷ t) (take-add m n xs) ∙ ap (λ k. take k (x ∷ xs)) one_more

listed : String → StatusFilter → World → List Gift
listed sender_id status w =
    filter (λ g. passes status g.status) (newest_first (get_gifts_by_sender sender_id w))

pages_up_to-take :
    (n : ℕ) (sender_id : String) (limit : ℕ) (status : StatusFilter) (w : World)
    → pages_up_to n sender_id limit status w
      ≡ take (n * safe_limit_of limit) (listed sender_id status w)
unfolding pages_up_to listed get_gifts_by_sender_page
pages_up_to-take zero sender_id limit status w =
    let nothing : 0 ≡ 0 * safe_limit_of limit = omega arith in
    ap (λ k. take k (listed sender_id status w)) nothing
pages_up_to-take (suc n) sender_id limit status w =
    let size = safe_limit_of limit in
    let xs = listed sender_id status w in
    let start : max_of 1 (suc n) - 1 ≡ n = ground arith in
    ap (λ t. t ++ take size (drop ((max_of 1 (suc n) - 1) * size) xs))
      (pages_up_to-take n sender_id limit status w)
    ∙ ap (λ k. take (n * size) xs ++ take size (drop (k * size) xs)) start
    ∙ take-add (n * size) size xs
    ∙ ap (λ k. take k xs) (sym (suc-mul n size))

enough_pages : (total limit : ℕ) → 1 ≤ limit → total ≤ pages_of total limit * limit
enough_pages total limit h =
    let some_pages = (total + (limit - 1)) / limit in
    let grown : some_pages * limit ≤ pages_of total limit * limit =
      mul-le-mul_right limit (ground arith) in
    omega (arith, h, grown, lt-div-mul-add {a = total + (limit - 1)} {b = limit} (omega (arith, h)))

-- A test keeps the order.
older-All :
    (g : Gift) (gs : List Gift) → IsNewestFirst (g ∷ gs) → All (λ h. h.created_at ≤ g.created_at) gs
older-All g [] s = tt
older-All g (h ∷ hs) (le, s) = (le, weaken hs (older-All h hs s))
  where
    weaken :
        (ks : List Gift)
        → All (λ k. k.created_at ≤ h.created_at) ks
        → All (λ k. k.created_at ≤ g.created_at) ks
    weaken [] a = tt
    weaken (k ∷ ks) (b, bs) = (omega (arith, b, le), weaken ks bs)

newest_tail : (g : Gift) (gs : List Gift) → IsNewestFirst (g ∷ gs) → IsNewestFirst gs
newest_tail g [] s = tt
newest_tail g (h ∷ hs) (le, s) = s

newest_cons :
    (g : Gift) (gs : List Gift)
    → All (λ h. h.created_at ≤ g.created_at) gs
    → IsNewestFirst gs
    → IsNewestFirst (g ∷ gs)
newest_cons g [] a s = tt
newest_cons g (h ∷ hs) (le, a) s = (le, s)

filter-All : (P : Gift → Type 0) (p : Gift → Bool) (gs : List Gift) → All P gs → All P (filter p gs)
filter-All P p [] a = tt
filter-All P p (g ∷ gs) (h, a) = elim (Bool-cases (p g)) [
  | inl passed ↦ rw passed (h, filter-All P p gs a)
  | inr failed ↦ rw failed (filter-All P p gs a)
]

filter-IsNewestFirst :
    (p : Gift → Bool) (gs : List Gift) → IsNewestFirst gs → IsNewestFirst (filter p gs)
filter-IsNewestFirst p [] s = tt
filter-IsNewestFirst p (g ∷ gs) s = elim (Bool-cases (p g)) [
  | inl passed ↦ rw passed (
      newest_cons g (filter p gs)
        (filter-All (λ h. h.created_at ≤ g.created_at) p gs (older-All g gs s))
        (filter-IsNewestFirst p gs (newest_tail g gs s)))
  | inr failed ↦ rw failed (filter-IsNewestFirst p gs (newest_tail g gs s))
]

count_gifts-filter :
    (p q : Gift → Bool) (gs : List Gift)
    → count_gifts p (filter q gs) ≡ count_gifts (λ g. q g && p g) gs
count_gifts-filter p q [] = refl
count_gifts-filter p q (g ∷ gs) = ground (arith, count_gifts-filter p q gs)

count_gifts-pending :
    (gs : List Gift)
    → count_gifts (λ g. is_pending g.status) gs
      ≡ count_gifts (λ g. any (is_status g.status) counted_pending) gs
count_gifts-pending [] = refl
count_gifts-pending (g ∷ gs) = ground (arith, count_gifts-pending gs)

all_pages :
    (sender_id : String) (limit : ℕ) (status : StatusFilter) (w : World)
    → pages_up_to
        (get_gifts_by_sender_page sender_id 1 limit status w).total_pages
        sender_id
        limit
        status
        w
      ≡ listed sender_id status w
unfolding get_gifts_by_sender_page listed
all_pages sender_id limit status w =
    let xs = listed sender_id status w in
    pages_up_to-take (pages_of (length xs) (safe_limit_of limit)) sender_id limit status w
    ∙ take-all (pages_of (length xs) (safe_limit_of limit) * safe_limit_of limit) xs
        (enough_pages (length xs) (safe_limit_of limit) (ground arith))

total_of :
    (sender_id : String) (page limit : ℕ) (f : StatusFilter) (w : World)
    → (get_gifts_by_sender_page sender_id page limit f w).total
      ≡ count_gifts (λ g. passes f g.status) (get_gifts_by_sender sender_id w)
unfolding get_gifts_by_sender_page
total_of sender_id page limit f w =
    (newest_first_lem (get_gifts_by_sender sender_id w)).1 (λ g. passes f g.status)

-- The pages of a listing, as many as it says there are, make up the sender's gifts that pass the
-- filter: one after the other they are the newest first, and for every test they have as many gifts
-- that pass it as the sender has among those that pass the filter; their number is the total. No page
-- has more gifts than the limit, which is from 1 to 100 whatever is asked for. Each counter, whatever
-- the filter, is the total of the listing that it stands for; and what the counters of pending,
-- claimed and expired gifts leave of all are the drafts and the cancelled gifts.
pub get_gifts_by_sender_page_lem :
    (sender_id : String) (page limit : ℕ) (status : StatusFilter) (p : Gift → Bool) (w : World)
    → let r = get_gifts_by_sender_page sender_id page limit status w in
      let gs = pages_up_to r.total_pages sender_id limit status w in
      IsNewestFirst gs
      × (count_gifts p gs
          ≡ count_gifts (λ g. passes status g.status && p g) (get_gifts_by_sender sender_id w))
      × (length gs ≡ r.total)
      × (length r.data_ ≤ r.limit)
      × (1 ≤ r.limit)
      × (r.limit ≤ 100)
      × (r.counts.all ≡ (get_gifts_by_sender_page sender_id page limit any_status w).total)
      × (r.counts.pending ≡ (get_gifts_by_sender_page sender_id page limit only_pending w).total)
      × (r.counts.claimed ≡ (get_gifts_by_sender_page sender_id page limit (only claimed) w).total)
      × (r.counts.expired ≡ (get_gifts_by_sender_page sender_id page limit (only expired) w).total)
      × (r.counts.all
          ≡ r.counts.pending
            + r.counts.claimed
            + r.counts.expired
            + count_gifts (λ g. is_uncounted g.status) (get_gifts_by_sender sender_id w))
unfolding get_gifts_by_sender_page listed
get_gifts_by_sender_page_lem sender_id page limit status p w =
    let sent = get_gifts_by_sender sender_id w in
    let (sorted, kept) = newest_first_lem sent in
    rw (all_pages sender_id limit status w) (
      filter-IsNewestFirst (λ g. passes status g.status) (newest_first sent) sorted,
      count_gifts-filter p (λ g. passes status g.status) (newest_first sent)
          ∙ kept (λ g. passes status g.status && p g),
      refl,
      length-take-le (safe_limit_of limit) _,
      ground arith,
      ground arith,
      sym (total_of sender_id page limit any_status w ∙ count_gifts-all sent),
      sym (total_of sender_id page limit only_pending w ∙ count_gifts-pending sent),
      sym (total_of sender_id page limit (only claimed) w),
      sym (total_of sender_id page limit (only expired) w),
      split_counts sent,
    )
