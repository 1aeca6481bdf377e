-- ===== src/Cancellation/Refunds.antt =====
-- How often a gift is refunded.
use lumigift_lumigift.Common.{
  ℕ, ◌+◌, ◌≡◌, ◌⊎◌, inl, inr, refl, String, Bool, true, false, List, [], ◌∷◌, ◌++◌, none, some,
  if◌then◌else◌, arith,
}
use Prim.Native.String.{◌++◌ as concat}
use lumigift_lumigift.Common.Dict.{get, set, get-set_self}
use lumigift_lumigift.Gift.Status.{cancelled}
use lumigift_lumigift.Gift.Defs.{Gift, World, Env, Outgoing, refund_request}
use lumigift_lumigift.Gift.Service.{get_gift_by_id, cancel_gift, soft_delete_gift}
use lumigift_lumigift.Cancellation.{cancel_and_refund}

abbrev is_refund : Outgoing → Bool
is_refund (refund_request reference) = true
is_refund _ = false

-- The number of refunds that Paystack answered it has taken. One that it refuses, or whose answer is
-- lost, leaves no entry.
abbrev pub refunds_sent : List Outgoing → ℕ
refunds_sent [] = 0
refunds_sent (o ∷ os) = (if is_refund o then 1 else 0) + refunds_sent os

pub refunds_sent-snoc :
    (os : List Outgoing) (reference : String)
    → refunds_sent (os ++ refund_request reference ∷ []) ≡ refunds_sent os + 1
refunds_sent-snoc [] reference = refl
refunds_sent-snoc (o ∷ os) reference = ground (arith, refunds_sent-snoc os reference)

-- The gift after it was cancelled and deleted.
cancelled_gift : Env → Gift → Gift
cancelled_gift env g = record g {
  status = cancelled;
  updated_at = env.now;
  deleted_at = some env.now;
}

-- What one call does to the gift of an id: nothing, or a refund after which it is gone.
abbrev pub Step : String → World → World → Type 0
Step id w w' =
    (w' ≡ w)
    ⊎ ((refunds_sent w'.outgoing ≡ refunds_sent w.outgoing + 1) × (get_gift_by_id id w' ≡ none))

pub cancel_and_refund-Step :
    (env : Env) (user id : String) (taken : Bool) (g : Gift) (w : World)
    → get id w.gifts ≡ some g
    → g.id ≡ id
    → Step id w (cancel_and_refund env user taken g w).0
unfolding cancel_and_refund cancel_gift soft_delete_gift get_gift_by_id cancelled_gift
cancel_and_refund-Step env user id false g w found keyed = inl refl
cancel_and_refund-Step env user id true g w found keyed =
    let g1 : Gift = record g { status = cancelled; updated_at = env.now } in
    let first = get-set_self id g1 w.gifts in
    let second = get-set_self id (cancelled_gift env g) (set id g1 w.gifts) in
    inr (
      ground (arith, refunds_sent-snoc w.outgoing (concat "lumigift_" g.id), first),
      ground (arith, first, second),
    )
