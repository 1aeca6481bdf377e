-- ===== src/Gift/Status/Chains.antt =====
-- Sequences of transitions that the state machine accepts.
use lumigift_lumigift.Common.{
  ℕ, zero, suc, ◌+◌, ◌≤◌, ◌≡◌, refl, ◌⊎◌, inl, inr, ◌≢◌, ◌↔◌, ap, true, arith,
}
use lumigift_lumigift.Gift.Status.{
  GiftStatus, draft, pending_payment, funded, locked, unlocked, claimed, expired, cancelled,
  is_valid_transition,
}

-- n accepted transitions from one status to another.
pub data Chain (s : GiftStatus) : GiftStatus → ℕ → Type 0 where
  here : Chain s s zero
  next :
      {t u : GiftStatus} {n : ℕ} → Chain s t n → is_valid_transition t u ≡ true → Chain s u (suc n)

abbrev pub stage : GiftStatus → ℕ
stage draft = 0
stage pending_payment = 1
stage funded = 2
stage locked = 3
stage unlocked = 4
stage claimed = 5
stage expired = 5
stage cancelled = 5

stage-valid : (s t : GiftStatus) → is_valid_transition s t ≡ true → stage s + 1 ≤ stage t
unfolding is_valid_transition
stage-valid s t h = ground arith

pub ne-expired : (s t : GiftStatus) → is_valid_transition s t ≡ true → t ≢ expired
unfolding is_valid_transition
ne-expired s t h e = ground arith

stage-chain : {s t : GiftStatus} {n : ℕ} → Chain s t n → stage s + n ≤ stage t
stage-chain here = omega arith
stage-chain (next {t} {u} c v) = omega (arith, stage-chain c, stage-valid t u v)

stage-le : (s : GiftStatus) → stage s ≤ 5
stage-le s = ground arith

pub chain_from-expired : {s t : GiftStatus} {n : ℕ} → Chain s t n → t ≡ expired → n ≡ 0
chain_from-expired here e = refl
chain_from-expired (next {t} {u} c v) e = absurd (ne-expired t u v e)

-- From any status at most five transitions are accepted in a row; a status that is left is never
-- entered again; and `expired` is entered by none: a chain that ends there is empty.
pub chain_bounds :
    (s t : GiftStatus) (n : ℕ) → Chain s t n → (n ≤ 5) × (s ≡ t → n ≡ 0) × (t ≡ expired → n ≡ 0)
chain_bounds s t n c = (
  omega (arith, stage-chain c, stage-le t),
  λ e. omega (arith, stage-chain c, ap stage e),
  chain_from-expired c,
)

-- Once a gift is claimed, cancelled or expired no transition is accepted; from any other status
-- cancelling is, and besides it exactly one transition.
pub transitions_by_status :
    (s t : GiftStatus)
    → (is_valid_transition s t ≡ true)
      ↔ ((stage s + 1 ≤ 5) × ((t ≡ cancelled) ⊎ ((stage t ≡ stage s + 1) × (t ≢ expired))))
unfolding is_valid_transition
transitions_by_status s t = (λ h. forth s t h, λ h. back s t h)
  where
    forth :
        (s t : GiftStatus)
        → is_valid_transition s t ≡ true
        → (stage s + 1 ≤ 5) × ((t ≡ cancelled) ⊎ ((stage t ≡ stage s + 1) × (t ≢ expired)))
    forth s t h = ground arith

    back :
        (s t : GiftStatus)
        → (stage s + 1 ≤ 5) × ((t ≡ cancelled) ⊎ ((stage t ≡ stage s + 1) × (t ≢ expired)))
        → is_valid_transition s t ≡ true
    back s t h = ground arith

pub append : {s t u : GiftStatus} {m n : ℕ} → Chain s t m → Chain t u n → (k : ℕ) × Chain s u k
append {m} c here = (m, c)
append c (next d v) = let (k, cd) = append c d in (suc k, next cd v)

pub chain_to-expired : {s t : GiftStatus} {n : ℕ} → Chain s t n → t ≡ expired → s ≡ expired
chain_to-expired here e = e
chain_to-expired (next {t} {u} c v) e = absurd (ne-expired t u v e)

claimed_final : (s t : GiftStatus) → is_valid_transition s t ≡ true → s ≢ claimed
unfolding is_valid_transition
claimed_final s t h e = ground arith

pub chain_from-claimed : {s t : GiftStatus} {n : ℕ} → Chain s t n → s ≡ claimed → t ≡ claimed
chain_from-claimed here e = e
chain_from-claimed (next {t} {u} c v) e = absurd (claimed_final t u v (chain_from-claimed c e))

cancelled_final : (s t : GiftStatus) → is_valid_transition s t ≡ true → s ≢ cancelled
unfolding is_valid_transition
cancelled_final s t h e = ground arith

pub chain_from-cancelled : {s t : GiftStatus} {n : ℕ} → Chain s t n → s ≡ cancelled → t ≡ cancelled
chain_from-cancelled here e = e
chain_from-cancelled (next {t} {u} c v) e =
    absurd (cancelled_final t u v (chain_from-cancelled c e))

-- How a status may move: along accepted transitions, or to `cancelled`.
abbrev pub Moves : GiftStatus → GiftStatus → Type 0
Moves s t = ((n : ℕ) × Chain s t n) ⊎ (t ≡ cancelled)

pub Moves-trans : {s t u : GiftStatus} → Moves s t → Moves t u → Moves s u
Moves-trans (inl (m, c)) (inl (n, d)) = inl (append c d)
Moves-trans (inr e) (inl (n, d)) = inr (chain_from-cancelled d e)
Moves-trans _ (inr e) = inr e
