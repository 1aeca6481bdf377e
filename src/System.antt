-- ===== src/System.antt =====
-- Everything that reacts to the outside on its own: the payment routes, the scheduled unlock and
-- expiry jobs, and the event indexer, as requests that the process serves one after another.
pub mod Stuck
use lumigift_lumigift.Common.{String, Bool, List, [], ◌∷◌, Option}
use lumigift_lumigift.Gift.Defs.{World, Env}
use lumigift_lumigift.EventIndexer.{EscrowEvent, Counts, apply_all}
use lumigift_lumigift.Scheduler.{ExpiryRow, process_unlocks, process_expiries}
use lumigift_lumigift.ExchangeRate.{SlippageResult}
use lumigift_lumigift.Payments.{
  Body, Verified, StripeEvent, MarkAnswer, paystack_webhook, paystack_callback, stripe_webhook,
}

pub data Request : Type 0 where
  paystack :
      (hmac : String → String) (parse : String → Body) (env : Env) (seen : Bool)
      (signature : Option String) (raw_body : String)
      → Request
  callback : (env : Env) (id : Option String) → Option Verified → SlippageResult → Request
  stripe :
      (env : Env) (sig : Option String) (configured : Bool)
      → Option StripeEvent
      → (seen : Bool) → MarkAnswer
      → Request
  unlocks : (env : Env) (ids : List String) → Request
  expiries : (env : Env) (rows : List ExpiryRow) → Request
  events : (env : Env) (es : List EscrowEvent) (c : Counts) → Request

pub serve : Request → World → World
serve (paystack hmac parse env seen sig raw) w = (paystack_webhook hmac parse env seen sig raw w).0
serve (callback env id answer slippage) w = (paystack_callback env id answer slippage w).0
serve (stripe env sig configured e seen m) w = (stripe_webhook env sig configured e seen m w).0
serve (unlocks env ids) w = (process_unlocks env ids w).0
serve (expiries env rows) w = (process_expiries env rows w).0
serve (events env es c) w = (apply_all env es w c).0

pub serve_all : List Request → World → World
serve_all [] w = w
serve_all (r ∷ rs) w = serve_all rs (serve r w)
