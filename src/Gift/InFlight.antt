-- ===== src/Gift/InFlight.antt =====
-- The daily limit over calls that overlap.
use lumigift_lumigift.Common.{
  ℕ, ◌+◌, ◌≤◌, ◌≡◌, inl, inr, String, ◌&&◌, List, [], ◌∷◌, Option, none, some, if◌then◌else◌, ◌===◌,
  length, arith, not, false, sum_by, All, pick, pick-sum_by, pick-length, pick-All, ltb, ◌*◌, ◌<◌,
  subst, Option-cases, Bool-cases, eq_iff,
}
use lumigift_lumigift.Gift.Defs.{World}
use lumigift_lumigift.Gift.Create.{Settings, sent_since, new_gift, start_gift, over_limit}
use lumigift_lumigift.Gift.Sending.{start_gift_branches}
use native.Mathlib.Nat.{suc-mul, mul-le-mul_right}
use lumigift_lumigift.Gift.DailyLimit.{Creation, sent_since-set}

-- The calls as they overlap: each checks the limit when it begins, and is in flight until it goes on,
-- at any later time, with the rest. A call begins only where fewer than so many are in flight.
pub data Move : Type 0 where
  begins : Creation → Move
  goes_on : ℕ → Move

abbrev pub start_one : Settings → Creation → World → World
start_one s c w =
    (start_gift s c.env c.answers c.id c.sender_id c.input c.registered c.sender_created_at w).0

abbrev pub go_on :
    Settings → Option (Creation × List Creation) → List Creation × World → List Creation × World
go_on s none (cs, w) = (cs, w)
go_on s (some (c, others)) (cs, w) = (others, start_one s c w)

unfoldable pub move_one : ℕ → Settings → ℕ → Move → List Creation × World → List Creation × World
move_one k s start (begins c) (cs, w) =
    if ltb (length cs) k && not (over_limit s start c.sender_id c.input.amount_ngn w)
    then (c ∷ cs, w)
    else (cs, w)
move_one k s start (goes_on n) (cs, w) = go_on s (pick n cs) (cs, w)

unfoldable pub move_all :
    ℕ → Settings → ℕ → List Move → List Creation × World → List Creation × World
move_all k s start [] x = x
move_all k s start (m ∷ ms) x = move_all k s start ms (move_one k s start m x)

abbrev claimed_by : String → Creation → ℕ
claimed_by sender_id c = if c.sender_id === sender_id then c.input.amount_ngn else 0

abbrev Fits : ℕ → String → Creation → Type 0
Fits limit sender_id c = claimed_by sender_id c ≤ limit

-- What is sent and what is in flight.
record IsBounded (k limit start : ℕ) (sender_id : String) (x : List Creation × World) : Type 0 where
  pub few : length x.0 ≤ k
  pub each : All (Fits limit sender_id) x.0
  pub total : sent_since start sender_id x.1.gifts + sum_by (claimed_by sender_id) x.0 ≤ k * limit

sum_by-Fits :
    (limit : ℕ) (sender_id : String) (cs : List Creation)
    → All (Fits limit sender_id) cs
    → sum_by (claimed_by sender_id) cs ≤ length cs * limit
sum_by-Fits limit sender_id [] h = omega arith
sum_by-Fits limit sender_id (c ∷ cs) (h, hs) =
    rw (suc-mul (length cs) limit) (omega (arith, h, sum_by-Fits limit sender_id cs hs))

start_one-sent :
    (s : Settings) (start : ℕ) (c : Creation) (sender_id : String) (w : World)
    → sent_since start sender_id (start_one s c w).gifts
      ≤ sent_since start sender_id w.gifts + claimed_by sender_id c
unfolding new_gift
start_one-sent s start c sender_id w =
    elim (start_gift_branches s c.env c.answers c.id c.sender_id c.input c.registered
      c.sender_created_at w) [
        | inl same ↦ rw same (omega arith)
        | inr (usdc, written) ↦ rw written (
            ground (
              arith,
              sent_since-set start sender_id c.id
                  (new_gift s c.env.now c.id c.sender_id c.input usdc) w.gifts,
            ))
      ]

begins-IsBounded :
    (k : ℕ) (s : Settings) (start : ℕ) (sender_id : String) (c : Creation) (cs : List Creation)
    (w : World)
    → IsBounded k s.daily_limit_ngn start sender_id (cs, w)
    → length cs < k
    → over_limit s start c.sender_id c.input.amount_ngn w ≡ false
    → IsBounded k s.daily_limit_ngn start sender_id (c ∷ cs, w)
begins-IsBounded k s start sender_id c cs w b room within =
    elim (Bool-cases (c.sender_id === sender_id)) [
      | inr other ↦ record {
        few = omega (arith, room);
        each = (ground (arith, other), b.each);
        total = ground (arith, other, b.total);
      }
      | inl own ↦
          let same = (eq_iff c.sender_id sender_id).0 own in
          let fits : sent_since start sender_id w.gifts + c.input.amount_ngn ≤ s.daily_limit_ngn =
            subst (λ u. sent_since start u w.gifts + c.input.amount_ngn ≤ s.daily_limit_ngn) same
              (ground (arith, within)) in
          let others = sum_by-Fits s.daily_limit_ngn sender_id cs b.each in
          let grown : length cs * s.daily_limit_ngn + s.daily_limit_ngn ≤ k * s.daily_limit_ngn =
            rw⁻¹ (suc-mul (length cs) s.daily_limit_ngn)
              (mul-le-mul_right s.daily_limit_ngn (omega (arith, room))) in
          record {
            few = omega (arith, room);
            each = (ground (arith, fits), b.each);
            total = ground (arith, own, fits, others, grown);
          }
    ]

move_one-IsBounded :
    (k : ℕ) (s : Settings) (start : ℕ) (sender_id : String) (m : Move) (x : List Creation × World)
    → IsBounded k s.daily_limit_ngn start sender_id x
    → IsBounded k s.daily_limit_ngn start sender_id (move_one k s start m x)
unfolding move_one
move_one-IsBounded k s start sender_id (begins c) (cs, w) b =
    elim (Bool-cases (ltb (length cs) k)) [
      | inr full ↦ rw full b
      | inl room ↦ elim (Bool-cases (over_limit s start c.sender_id c.input.amount_ngn w)) [
        | inl over ↦ rw (room, over) b
        | inr within ↦
            rw (room, within)
              (begins-IsBounded k s start sender_id c cs w b (ground (arith, room)) within)
      ]
    ]
move_one-IsBounded k s start sender_id (goes_on n) (cs, w) b = elim (Option-cases (pick n cs)) [
  | inl missing ↦ rw missing b
  | inr ((c, others), at) ↦ rw at (record {
    few = omega (arith, b.few, pick-length n cs c others at);
    each = (pick-All (Fits s.daily_limit_ngn sender_id) n cs c others at b.each).1;
    total = omega (
      arith,
      b.total,
      start_one-sent s start c sender_id w,
      pick-sum_by (claimed_by sender_id) n cs c others at,
    );
  })
]

move_all-IsBounded :
    (k : ℕ) (s : Settings) (start : ℕ) (sender_id : String) (ms : List Move)
    (x : List Creation × World)
    → IsBounded k s.daily_limit_ngn start sender_id x
    → IsBounded k s.daily_limit_ngn start sender_id (move_all k s start ms x)
unfolding move_all
move_all-IsBounded k s start sender_id [] x b = b
move_all-IsBounded k s start sender_id (m ∷ ms) x b =
    move_all-IsBounded k s start sender_id ms (move_one k s start m x)
      (move_one-IsBounded k s start sender_id m x b)

-- The calls of one day, for any senders and whatever fails in them, bring what a sender has sent since
-- the start of the day to at most as many times the limit as there are calls in flight at a time,
-- where a call is in flight from its check of the limit until it stores its gift; so to the limit
-- itself where each call ends before the next begins. The sender was within the limit before.
pub calls_in_flight_limit :
    (k : ℕ) (s : Settings) (start : ℕ) (ms : List Move) (sender_id : String) (w : World)
    → 1 ≤ k
    → sent_since start sender_id w.gifts ≤ s.daily_limit_ngn
    → sent_since start sender_id (move_all k s start ms ([], w)).1.gifts ≤ k * s.daily_limit_ngn
calls_in_flight_limit k s start ms sender_id w some_call within =
    let one_limit : 1 * s.daily_limit_ngn ≤ k * s.daily_limit_ngn =
      mul-le-mul_right s.daily_limit_ngn some_call in
    let b =
      move_all-IsBounded k s start sender_id ms ([], w)
        (record { few = omega arith; each = tt; total = omega (arith, within, one_limit) }) in
    omega (arith, b.total)
