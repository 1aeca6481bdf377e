-- ===== src/Gift/Status.antt =====
-- The gift state machine (src/server/services/gift-state-machine.ts) and the status type of
-- src/types/index.ts.
pub mod Chains
use lumigift_lumigift.Common.{String, ℕ, ◌≡◌, ◌↔◌, Bool, true, List, [], ◌∷◌, arith, any, ◌==◌}

pub data GiftStatus : Type 0 where
  draft pending_payment funded locked unlocked claimed expired cancelled : GiftStatus

-- Two statuses are compared as strings; each status has a tag of its own.
abbrev tag : GiftStatus → ℕ
tag draft = 0
tag pending_payment = 1
tag funded = 2
tag locked = 3
tag unlocked = 4
tag claimed = 5
tag expired = 6
tag cancelled = 7

abbrev pub is_status : GiftStatus → GiftStatus → Bool
is_status a b = tag a == tag b

pub is_status_iff : (a b : GiftStatus) → (is_status a b ≡ true) ↔ (a ≡ b)
is_status_iff a b = (forth a b, λ e. back e)
  where
    forth : (a b : GiftStatus) → is_status a b ≡ true → a ≡ b
    forth a b h = ground arith

    back : {a b : GiftStatus} → a ≡ b → is_status a b ≡ true
    back e = ground arith

-- `TRANSITIONS`
transitions : GiftStatus → List GiftStatus
transitions pending_payment = funded ∷ cancelled ∷ []
transitions funded = locked ∷ cancelled ∷ []
transitions locked = unlocked ∷ cancelled ∷ []
transitions unlocked = claimed ∷ cancelled ∷ []
transitions claimed = []
transitions cancelled = []
transitions draft = pending_payment ∷ cancelled ∷ []
transitions expired = []

-- `isValidTransition`
unfoldable pub is_valid_transition : GiftStatus → GiftStatus → Bool
unfolding transitions
is_valid_transition current next = any (λ s. is_status s next) (transitions current)

-- The status as the source spells it, for audit metadata.
abbrev pub status_name : GiftStatus → String
status_name draft = "draft"
status_name pending_payment = "pending_payment"
status_name funded = "funded"
status_name locked = "locked"
status_name unlocked = "unlocked"
status_name claimed = "claimed"
status_name expired = "expired"
status_name cancelled = "cancelled"
