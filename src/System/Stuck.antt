-- ===== src/System/Stuck.antt =====
-- A gift that waits for its payment, under any requests.
use lumigift_lumigift.Common.{String, ◌≡◌, sym, subst, ◌⊎◌, inl, List, [], ◌∷◌, some}
use lumigift_lumigift.Common.Dict.{get}
use lumigift_lumigift.Gift.Status.{pending_payment, cancelled}
use lumigift_lumigift.Gift.Defs.{Gift, World}
use lumigift_lumigift.Scheduler.{process_unlocks, unlock_each}
use lumigift_lumigift.Scheduler.Expiry.{process_expiries-payments}
use lumigift_lumigift.Payments.Routes.{paystack-Waits, callback-Waits, stripe-Waits}
use lumigift_lumigift.Payments.Pending.{Waits, continue-Waits, apply_all-Waits, unlock_each-Waits}
use lumigift_lumigift.System.{
  Request, paystack, callback, stripe, unlocks, expiries, events, serve, serve_all,
}

serve-Waits :
    (r : Request) (id : String) (w : World) → Waits id w.gifts → Waits id (serve r w).gifts
unfolding serve process_unlocks
serve-Waits (paystack hmac parse env seen sig raw) id w h =
    paystack-Waits hmac parse env seen sig raw id w h
serve-Waits (callback env k answer slippage) id w h = callback-Waits env k answer slippage id w h
serve-Waits (stripe env sig configured e seen m) id w h =
    stripe-Waits env sig configured e seen m id w h
serve-Waits (unlocks env ids) id w h =
    continue-Waits id (unlock_each env ids w) _ (unlock_each-Waits env ids id w h) (λ r v hv. hv)
serve-Waits (expiries env rows) id w h =
    subst (Waits id) (sym (process_expiries-payments env rows w).0) h
serve-Waits (events env es c) id w h = apply_all-Waits env es id w c h

serve_all-Waits :
    (rs : List Request) (id : String) (w : World)
    → Waits id w.gifts
    → Waits id (serve_all rs w).gifts
unfolding serve_all
serve_all-Waits [] id w h = h
serve_all-Waits (r ∷ rs) id w h = serve_all-Waits rs id (serve r w) (serve-Waits r id w h)

-- No confirmed payment gets a gift past `pending_payment`: whatever Paystack, Stripe, the scheduler
-- and the contract's events report, in any order and number, a gift that waits for its payment still
-- waits, or is cancelled. No request asks for the status `funded`, and no other one but `cancelled`
-- is accepted.
pub serve_all-pending :
    (rs : List Request) (id : String) (g : Gift) (w : World)
    → get id w.gifts ≡ some g
    → g.status ≡ pending_payment
    → (h : Gift) × (get id (serve_all rs w).gifts ≡ some h)
      × ((h.status ≡ pending_payment) ⊎ (h.status ≡ cancelled))
serve_all-pending rs id g w found waits = serve_all-Waits rs id w (g, found, inl waits)
