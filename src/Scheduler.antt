-- ===== src/Scheduler.antt =====
-- The unlock and expiry jobs (src/server/services/scheduler.service.ts). The rows that the queries
-- select from the database are arguments; `updateGiftStatus` works on the in-memory map.
pub mod Expiry
use lumigift_lumigift.Common.{
  truthy, ℕ, suc, ◌+◌, String, Bool, true, false, ◌&&◌, List, [], ◌∷◌, ◌++◌, Option, none, some,
  Result, ok, err, Action, ◌>>=◌, ◌>>◌, continue, return, throw, require, if◌then◌else◌, length,
}
use lumigift_lumigift.Gift.Status.{GiftStatus, unlocked, expired}
use lumigift_lumigift.Gift.Defs.{
  World, Env, Error, payment_unavailable, database_error, Outgoing, expired_sms, usdc_payment, send,
}
use lumigift_lumigift.Gift.Service.{update_gift_status}

-- The loop of `processUnlocks`, over the ids that were selected; an error ends it.
unfoldable pub unlock_each : Env → List String → Action World Error (Unit {0})
unlock_each env [] = return tt
unlock_each env (id ∷ ids) = do update_gift_status env id unlocked; unlock_each env ids

-- `processUnlocks`
unfoldable pub process_unlocks : Env → List String → Action World Error ℕ
unfolding unlock_each
process_unlocks env ids = do unlock_each env ids; return (length ids)

-- A selected row, with what Stellar and the SMS service answer for it.
pub record ExpiryRow : Type 0 where
  pub id : String
  pub amount_usdc : String
  pub sender_phone : Option String
  pub sender_stellar_key : Option String
  pub refund_sent : Bool
  pub sms_sent : Bool

abbrev pub refund : ExpiryRow → Option String → Action World Error (Unit {0})
refund row none = return tt
refund row (some key) = do
  require row.refund_sent payment_unavailable
  send (usdc_payment key row.amount_usdc)

abbrev pub notify : ExpiryRow → Option String → Action World Error (Unit {0})
notify row none = return tt
notify row (some phone) = do require row.sms_sent database_error; send (expired_sms phone)

-- The body of the `try` in `processExpiries`.
unfoldable pub expire_row : Env → ExpiryRow → Action World Error (Unit {0})
expire_row env row = do
  update_gift_status env row.id expired
  refund row (truthy row.sender_stellar_key)
  notify row (truthy row.sender_phone)

abbrev pub count_ok : World × Result Error (Unit {0}) → ℕ → ℕ
count_ok (w, ok r) n = n + 1
count_ok (w, err e) n = n

-- `processExpiries`: an error is caught for each row, and the row is not counted.
unfoldable pub expire_each : Env → List ExpiryRow → World → ℕ → World × ℕ
expire_each env [] w n = (w, n)
expire_each env (row ∷ rows) w n =
    let r = expire_row env row w in expire_each env rows r.0 (count_ok r n)

unfoldable pub process_expiries : Env → List ExpiryRow → World → World × ℕ
unfolding expire_each
process_expiries env rows w = expire_each env rows w 0
