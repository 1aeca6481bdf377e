-- ===== src/Cancellation/InFlight.antt =====
-- Deletions of one gift that overlap (src/app/api/v1/gifts/[id]/route.ts): a request is in flight from
-- the checks until Paystack has answered, and what follows the answer is one step. Requests without a
-- session, a valid id or a CSRF token end before the gift is looked up, and are left out.
use lumigift_lumigift.Common.{
  ℕ, ◌+◌, ◌≡◌, ◌≤◌, ◌<◌, ◌⊎◌, inl, inr, refl, ap, sym, ◌∙◌, String, Bool, true, false, not, ◌&&◌,
  ◌||◌, List, [], ◌∷◌, Option, none, some, if◌then◌else◌, leb, ltb, ◌===◌, length, All, pick,
  pick-length, pick-All, arith, Bool-cases, Option-cases,
}
use Prim.Native.String.{◌++◌ as concat}
use lumigift_lumigift.Common.Dict.{get, set, get-set_self}
use lumigift_lumigift.Gift.Status.{locked, pending_payment, cancelled, is_status}
use lumigift_lumigift.Gift.Defs.{Gift, World, Env}
use lumigift_lumigift.Gift.Service.{get_gift_by_id, cancel_gift, soft_delete_gift}
use lumigift_lumigift.EventIndexer.Replay.{IsKeyed, get_gift_by_id-get}
use lumigift_lumigift.Cancellation.{cancel_and_refund, delete_found}
use lumigift_lumigift.Cancellation.Refunds.{refunds_sent, refunds_sent-snoc, cancel_and_refund-Step}

-- The checks of a gift that is found.
abbrev pub may_cancel : Env → String → Gift → Bool
may_cancel env user g =
    (g.sender_id === user)
    && (is_status g.status locked || is_status g.status pending_payment)
    && not (leb g.unlock_at env.now)

-- The handler goes on with the refund exactly after these checks; otherwise it changes nothing.
pub delete_found-may_cancel :
    (env : Env) (user : String) (taken : Bool) (g : Gift) (w : World)
    → ((may_cancel env user g ≡ true)
        × (delete_found env user taken g w ≡ cancel_and_refund env user taken g w))
      ⊎ ((may_cancel env user g ≡ false) × ((delete_found env user taken g w).0 ≡ w))
unfolding delete_found
delete_found-may_cancel env user taken g w = elim (Bool-cases (g.sender_id === user)) [
  | inr foreign ↦ rw foreign (inr (refl, refl))
  | inl own ↦ elim (Bool-cases (is_status g.status locked || is_status g.status pending_payment)) [
    | inr refused ↦ rw (own, refused) (inr (refl, refl))
    | inl ready ↦ elim (Bool-cases (leb g.unlock_at env.now)) [
      | inl late ↦ rw (own, ready, late) (inr (refl, refl))
      | inr early ↦ rw (own, ready, early) (inl (refl, refl))
    ]
  ]
]

-- A request in flight: its user, and the gift that it found.
abbrev pub Flights : Type 0
Flights = List (String × Gift)

-- A request begins, or the one at a place hears from Paystack, which took the refund or not.
pub data Move : Type 0 where
  begins : Env → String → Move
  goes_on : Env → ℕ → Bool → Move

abbrev pub begin_with : ℕ → Env → String → Option Gift → Flights × World → Flights × World
begin_with k env user none (fs, w) = (fs, w)
begin_with k env user (some g) (fs, w) =
    if ltb (length fs) k && may_cancel env user g then ((user, g) ∷ fs, w) else (fs, w)

abbrev pub go_on :
    Env → Bool → Option ((String × Gift) × Flights) → Flights × World → Flights × World
go_on env taken none x = x
go_on env taken (some ((user, g), others)) (fs, w) =
    (others, (cancel_and_refund env user taken g w).0)

-- Not more than so many requests are in flight at a time; one that would be more does not begin.
unfoldable pub move_one : ℕ → String → Move → Flights × World → Flights × World
move_one k id (begins env user) (fs, w) = begin_with k env user (get_gift_by_id id w) (fs, w)
move_one k id (goes_on env n taken) (fs, w) = go_on env taken (pick n fs) (fs, w)

unfoldable pub move_all : ℕ → String → List Move → Flights × World → Flights × World
move_all k id [] x = x
move_all k id (m ∷ ms) x = move_all k id ms (move_one k id m x)

Found : String → World → String × Gift → Type 0
Found id w (user, g) = (get id w.gifts ≡ some g) × (g.id ≡ id)

-- Nothing has changed, or the gift is gone and there were refunds.
IsAlive : ℕ → String → World → Flights × World → Type 0
IsAlive k id w0 (fs, w) = (w ≡ w0) × (length fs ≤ k) × All (Found id w0) fs

IsGone : ℕ → String → World → Flights × World → Type 0
IsGone k id w0 (fs, w) =
    (get_gift_by_id id w ≡ none)
    × (refunds_sent w.outgoing + length fs ≤ refunds_sent w0.outgoing + k)
    × (refunds_sent w0.outgoing + 1 ≤ refunds_sent w.outgoing)
    × All (λ f. f.1.id ≡ id) fs

All-map :
    {A : Type 0} (P Q : A → Type 0) (xs : List A) → ((x : A) → P x → Q x) → All P xs → All Q xs
All-map P Q [] f h = tt
All-map P Q (x ∷ xs) f (h, hs) = (f x h, All-map P Q xs f hs)

-- A refund of a gift that is gone already.
refund-gone :
    (env : Env) (user id : String) (taken : Bool) (g : Gift) (w : World)
    → get_gift_by_id id w ≡ none
    → g.id ≡ id
    → ((cancel_and_refund env user taken g w).0 ≡ w)
      ⊎ ((refunds_sent (cancel_and_refund env user taken g w).0.outgoing
            ≡ refunds_sent w.outgoing + 1)
          × (get_gift_by_id id (cancel_and_refund env user taken g w).0 ≡ none))
unfolding cancel_and_refund cancel_gift soft_delete_gift get_gift_by_id
refund-gone env user id false g w gone keyed = inl refl
refund-gone env user id true g w gone keyed = elim (Option-cases (get id w.gifts)) [
  | inl missing ↦ inr (
    ground (arith, refunds_sent-snoc w.outgoing (concat "lumigift_" g.id), missing, keyed),
    ground (arith, missing, keyed),
  )
  | inr (h, at) ↦
      let h1 : Gift = record h { status = cancelled; updated_at = env.now } in
      let h2 : Gift = record h1 { deleted_at = some env.now } in
      let first = get-set_self id h1 w.gifts in
      let second = get-set_self id h2 (set id h1 w.gifts) in
      inr (
        ground (arith, refunds_sent-snoc w.outgoing (concat "lumigift_" g.id), first, at, keyed),
        ground (arith, first, second, at, keyed),
      )
]

begin_with-full :
    (k : ℕ) (env : Env) (user : String) (g : Gift) (fs : Flights) (w : World)
    → (begin_with k env user (some g) (fs, w) ≡ (fs, w))
      ⊎ ((length fs < k) × (begin_with k env user (some g) (fs, w) ≡ ((user, g) ∷ fs, w)))
begin_with-full k env user g fs w = elim (Bool-cases (ltb (length fs) k && may_cancel env user g)) [
  | inl pushed ↦ rw pushed (inr (ground arith, refl))
  | inr refused ↦ rw refused (inl refl)
]

move-IsAlive :
    (k : ℕ) (id : String) (m : Move) (w0 : World) (x : Flights × World)
    → IsKeyed id w0
    → IsAlive k id w0 x
    → IsAlive k id w0 (move_one k id m x) ⊎ IsGone k id w0 (move_one k id m x)
unfolding move_one IsAlive IsGone Found
move-IsAlive k id (begins env user) w0 (fs, w) keyed (same, few, each) =
    elim (Option-cases (get_gift_by_id id w)) [
      | inl missing ↦ rw missing (inl (same, few, each))
      | inr (g, at) ↦ elim (begin_with-full k env user g fs w) [
        | inl kept ↦ rw (at, kept) (inl (same, few, each))
        | inr (room, pushed) ↦
            let found = ap (λ v. get id v.gifts) (sym same) ∙ get_gift_by_id-get id w g at in
            rw (at, pushed) (inl (same, omega (arith, room), ((found, keyed g found), each)))
      ]
    ]
move-IsAlive k id (goes_on env n taken) w0 (fs, w) keyed (same, few, each) =
    elim (Option-cases (pick n fs)) [
      | inl missing ↦ rw missing (inl (same, few, each))
      | inr (((user, g), others), at) ↦
          let ((found, own), rest) = pick-All (Found id w0) n fs (user, g) others at each in
          let shorter = pick-length n fs (user, g) others at in
          rw at
            (elim (cancel_and_refund-Step env user id taken g w
              (ap (λ v. get id v.gifts) same ∙ found) own) [
                | inl kept ↦ inl (kept ∙ same, omega (arith, few, shorter), rest)
                | inr (refunded, gone) ↦
                    let before = ap (λ v. refunds_sent v.outgoing) same in
                    inr (
                      gone,
                      omega (arith, refunded, before, few, shorter),
                      omega (arith, refunded, before),
                      All-map (Found id w0) (λ f. f.1.id ≡ id) others (λ f h. h.1) rest,
                    )
              ])
    ]

move-IsGone :
    (k : ℕ) (id : String) (m : Move) (w0 : World) (x : Flights × World)
    → IsGone k id w0 x
    → IsGone k id w0 (move_one k id m x)
unfolding move_one IsGone
move-IsGone k id (begins env user) w0 (fs, w) (gone, most, least, each) =
    rw gone (gone, most, least, each)
move-IsGone k id (goes_on env n taken) w0 (fs, w) (gone, most, least, each) =
    elim (Option-cases (pick n fs)) [
      | inl missing ↦ rw missing (gone, most, least, each)
      | inr (((user, g), others), at) ↦
          let (own, rest) = pick-All (λ f. f.1.id ≡ id) n fs (user, g) others at each in
          let shorter = pick-length n fs (user, g) others at in
          rw at (elim (refund-gone env user id taken g w gone own) [
            | inl kept ↦
                let before = ap (λ v. refunds_sent v.outgoing) kept in
                (
                  ap (get_gift_by_id id) kept ∙ gone,
                  omega (arith, before, most, shorter),
                  omega (arith, before, least),
                  rest,
                )
            | inr (refunded, gone') ↦ (
              gone',
              omega (arith, refunded, most, shorter),
              omega (arith, refunded, least),
              rest,
            )
          ])
    ]

moves-IsGone :
    (k : ℕ) (id : String) (ms : List Move) (w0 : World) (x : Flights × World)
    → IsGone k id w0 x
    → IsGone k id w0 (move_all k id ms x)
unfolding move_all
moves-IsGone k id [] w0 x h = h
moves-IsGone k id (m ∷ ms) w0 x h =
    moves-IsGone k id ms w0 (move_one k id m x) (move-IsGone k id m w0 x h)

moves-IsAlive :
    (k : ℕ) (id : String) (ms : List Move) (w0 : World) (x : Flights × World)
    → IsKeyed id w0
    → IsAlive k id w0 x
    → IsAlive k id w0 (move_all k id ms x) ⊎ IsGone k id w0 (move_all k id ms x)
unfolding move_all
moves-IsAlive k id [] w0 x keyed h = inl h
moves-IsAlive k id (m ∷ ms) w0 x keyed h = elim (move-IsAlive k id m w0 x keyed h) [
  | inl alive ↦ moves-IsAlive k id ms w0 (move_one k id m x) keyed alive
  | inr gone ↦ inr (moves-IsGone k id ms w0 (move_one k id m x) gone)
]

-- However often a gift is deleted, by whomever and however the requests overlap, either nothing at all
-- has changed, or the gift can no longer be found and Paystack has taken a refund of it, at least once
-- and at most as often as there are requests in flight at a time; so exactly once where each request
-- ends before the next begins. A refund counts where Paystack answers that it took it. The gift, if
-- there is one, is stored under its own id.
pub deletions_in_flight :
    (k : ℕ) (id : String) (ms : List Move) (w : World)
    → IsKeyed id w
    → let w' = (move_all k id ms ([], w)).1 in
      (w' ≡ w)
      ⊎ ((get_gift_by_id id w' ≡ none)
          × (refunds_sent w.outgoing + 1 ≤ refunds_sent w'.outgoing)
          × (refunds_sent w'.outgoing ≤ refunds_sent w.outgoing + k))
unfolding IsAlive IsGone
deletions_in_flight k id ms w keyed =
    elim (moves-IsAlive k id ms w ([], w) keyed (refl, omega arith, tt)) [
      | inl (same, few, each) ↦ inl same
      | inr (gone, most, least, each) ↦ inr (gone, least, omega (arith, most))
    ]
