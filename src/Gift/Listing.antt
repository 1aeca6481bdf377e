-- ===== src/Gift/Listing.antt =====
-- The order of a listing (src/server/services/gift.service.ts), and what its counters count.
use lumigift_lumigift.Common.{
  ℕ, suc, ◌+◌, ◌≤◌, ◌≡◌, refl, ap, subst, Bool, true, List, [], ◌∷◌, ◌||◌, any, filter, length,
  if◌then◌else◌, ltb, arith, Bool-cases, inl, inr,
}
use lumigift_lumigift.Gift.Status.{GiftStatus, draft, claimed, expired, cancelled, is_status}
use lumigift_lumigift.Gift.Defs.{Gift}
use lumigift_lumigift.Gift.Pages.{counted_pending, insert_gift, newest_first}

-- Each gift is at least as new as the one after it.
abbrev pub IsNewestFirst : List Gift → Type 0
IsNewestFirst [] = Unit
IsNewestFirst (g ∷ []) = Unit
IsNewestFirst (g ∷ h ∷ hs) = (h.created_at ≤ g.created_at) × IsNewestFirst (h ∷ hs)

insert_gift-IsNewestFirst :
    (g : Gift) (gs : List Gift) → IsNewestFirst gs → IsNewestFirst (insert_gift g gs)
unfolding insert_gift
insert_gift-IsNewestFirst g [] s = tt
insert_gift-IsNewestFirst g (h ∷ []) s = ground arith
insert_gift-IsNewestFirst g (h ∷ k ∷ ks) (hk, s) =
    let ih = insert_gift-IsNewestFirst g (k ∷ ks) s in
    elim (Bool-cases (ltb g.created_at h.created_at)) [
      | inl older ↦ elim (Bool-cases (ltb g.created_at k.created_at)) [
        | inl oldest ↦ rw (older, oldest) (hk, moved ih oldest)
        | inr between ↦ rw (older, between) (ground arith, moved ih between)
      ]
      | inr newer ↦ rw newer (ground arith, (hk, s))
    ]
  where
    moved :
        {b : Bool}
        → IsNewestFirst (insert_gift g (k ∷ ks))
        → ltb g.created_at k.created_at ≡ b
        → IsNewestFirst (if b then k ∷ insert_gift g ks else g ∷ k ∷ ks)
    moved h e = subst (λ b. IsNewestFirst (if b then k ∷ insert_gift g ks else g ∷ k ∷ ks)) e h

newest_first-IsNewestFirst : (gs : List Gift) → IsNewestFirst (newest_first gs)
unfolding newest_first
newest_first-IsNewestFirst [] = tt
newest_first-IsNewestFirst (g ∷ gs) =
    insert_gift-IsNewestFirst g (newest_first gs) (newest_first-IsNewestFirst gs)

-- The number of gifts of a list for which a test holds.
abbrev pub count_gifts : (Gift → Bool) → List Gift → ℕ
count_gifts p gs = length (filter p gs)

count_gifts-insert_gift :
    (p : Gift → Bool) (g : Gift) (gs : List Gift)
    → count_gifts p (insert_gift g gs) ≡ count_gifts p (g ∷ gs)
unfolding insert_gift
count_gifts-insert_gift p g [] = refl
count_gifts-insert_gift p g (h ∷ hs) = ground (arith, count_gifts-insert_gift p g hs)

count_gifts-newest_first :
    (p : Gift → Bool) (gs : List Gift) → count_gifts p (newest_first gs) ≡ count_gifts p gs
unfolding newest_first
count_gifts-newest_first p [] = refl
count_gifts-newest_first p (g ∷ gs) =
    ground (arith, count_gifts-insert_gift p g (newest_first gs), count_gifts-newest_first p gs)

-- Sorting puts the newest gifts first and keeps, for every test, the number of gifts that pass it.
pub newest_first_lem :
    (gs : List Gift)
    → IsNewestFirst (newest_first gs)
      × ((p : Gift → Bool) → count_gifts p (newest_first gs) ≡ count_gifts p gs)
newest_first_lem gs = (newest_first-IsNewestFirst gs, λ p. count_gifts-newest_first p gs)

-- The statuses that no counter counts.
abbrev pub is_uncounted : GiftStatus → Bool
is_uncounted s = is_status s draft || is_status s cancelled

pub split_counts :
    (gs : List Gift)
    → length gs
      ≡ count_gifts (λ g. any (is_status g.status) counted_pending) gs
        + count_gifts (λ g. is_status g.status claimed) gs
        + count_gifts (λ g. is_status g.status expired) gs
        + count_gifts (λ g. is_uncounted g.status) gs
split_counts [] = omega arith
split_counts (g ∷ gs) = ground (arith, split_counts gs)

pub count_gifts-all : (gs : List Gift) → count_gifts (λ g. true) gs ≡ length gs
count_gifts-all [] = refl
count_gifts-all (g ∷ gs) = ap suc (count_gifts-all gs)
