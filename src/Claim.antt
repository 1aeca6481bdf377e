-- ===== src/Claim.antt =====
-- Claiming a gift: the claim service (src/server/services/claim.service.ts) and the worker of the
-- Stellar transaction queue (src/lib/queues/stellar-tx.queue.ts). What Stellar, the escrow contract
-- and the queue answer is an argument.
pub mod Worker
use lumigift_lumigift.Common.{
  truthy, ℕ, zero, suc, String, Bool, true, false, not, List, [], ◌∷◌, ◌++◌, Option, none, some,
  Result, ok, err, Action, ◌>>=◌, ◌>>◌, continue, return, throw, require, if◌then◌else◌,
}
use Prim.Native.String.{◌++◌ as concat}
use lumigift_lumigift.Gift.Status.{GiftStatus, unlocked, claimed, is_status}
use lumigift_lumigift.Gift.Defs.{
  Gift, World, Env, Error, not_unlocked, invalid_account, already_claimed, escrow_error,
  queue_unavailable, claim_job, gift_not_found, payment_unavailable, Outgoing, claim_email,
  usdc_payment, send,
}
use lumigift_lumigift.Gift.Service.{get_gift_by_id, update_gift_status, store_claim_tx_hash}

-- What `escrow.getState()` does: it returns a state, throws an `EscrowContractError`, or fails
-- otherwise, which is logged and passed over.
pub data ChainAnswer : Type 0 where
  state : Bool → ChainAnswer
  contract_error : ChainAnswer
  unavailable : ChainAnswer

abbrev check_chain : Option String → ChainAnswer → Action World Error (Unit {0})
check_chain none answer = return tt
check_chain (some c) (state done) = require (not done) already_claimed
check_chain (some c) contract_error = throw escrow_error
check_chain (some c) unavailable = return tt

abbrev email_claim : Option String → Action World Error (Unit {0})
email_claim none = return tt
email_claim (some address) = send (claim_email address)

abbrev pub job_id : String → String
job_id gift_id = concat "claim:" gift_id

-- What the queue answers to `add`: it takes the job; it knows one of this id already, waiting, running
-- or kept after it ended, and adds none; or the call fails.
pub data QueueAnswer : Type 0 where
  new_job : QueueAnswer
  known_job : QueueAnswer
  unreachable : QueueAnswer

-- `enqueueClaim`
abbrev enqueue_claim : QueueAnswer → String → String → Action World Error String
enqueue_claim new_job gift_id key = do send (claim_job gift_id key); return (job_id gift_id)
enqueue_claim known_job gift_id key = return (job_id gift_id)
enqueue_claim unreachable gift_id key = throw queue_unavailable

-- `claimGift`; the result is the id of the job. What is sent by email is in the
-- background, and an error of it is logged.
unfoldable pub claim_gift :
    Bool → ChainAnswer → QueueAnswer → String → Gift → Action World Error String
claim_gift account_valid answer queue key gift = do
  require (is_status gift.status unlocked) not_unlocked
  require account_valid invalid_account
  check_chain (truthy gift.contract_id) answer
  id ← enqueue_claim queue gift.id key
  email_claim (truthy gift.recipient_email)
  return id

-- What the services answer in one attempt of the job: whether the recipient's account is valid, and
-- the transaction hash of the payment, or none where the payment fails.
pub record Attempt : Type 0 where
  pub env : Env
  pub account_valid : Bool
  pub payment : Option String

-- `sendUsdcPayment`
abbrev send_usdc_payment : Option String → String → String → Action World Error String
send_usdc_payment none key amount = throw payment_unavailable
send_usdc_payment (some tx) key amount = do send (usdc_payment key amount); return tx

pay_out : Attempt → String → String → Gift → Action World Error (Unit {0})
pay_out a gift_id key gift = do
  require a.account_valid invalid_account
  tx ← send_usdc_payment a.payment key gift.amount_usdc
  store_claim_tx_hash a.env gift_id tx
  update_gift_status a.env gift_id claimed
  return tt

process_found : Attempt → String → String → Option Gift → Action World Error (Unit {0})
unfolding pay_out
process_found a gift_id key none = throw gift_not_found
process_found a gift_id key (some gift) =
    if is_status gift.status claimed then return tt else pay_out a gift_id key gift

-- The worker's processor of a claim job.
unfoldable pub process_claim : Attempt → String → String → Action World Error (Unit {0})
unfolding process_found
process_claim a gift_id key w = process_found a gift_id key (get_gift_by_id gift_id w) w

-- What the queue does after an error is an argument: whether it goes on to the next attempt. The code
-- marks the error of an invalid account as unrecoverable.
abbrev pub conclude : (Error → Bool) → World × Result Error (Unit {0}) → (World → World) → World
conclude retries (w, ok done) next = w
conclude retries (w, err e) next = if retries e then next w else w

-- The attempts that the queue makes until one succeeds or is not tried again.
unfoldable pub attempts : (Error → Bool) → String → String → List Attempt → World → World
attempts retries gift_id key [] w = w
attempts retries gift_id key (a ∷ later) w =
    conclude retries (process_claim a gift_id key w) (attempts retries gift_id key later)
