-- ===== src/Payments/Pending.antt =====
-- What the payment routes, the scheduled jobs and the event indexer can do to a gift that waits for
-- its payment.
use lumigift_lumigift.Common.{
  String, true, ◌≡◌, ◌≢◌, sym, subst, ◌⊎◌, inl, inr, List, [], ◌∷◌, Option, none, some, Result, ok,
  err, Action, continue, arith, ◌===◌, eq_iff, Bool-cases, Option-cases,
}
use lumigift_lumigift.Common.Dict.{Dict, get, set, get-set}
use lumigift_lumigift.Gift.Status.{
  GiftStatus, pending_payment, funded, unlocked, cancelled, is_valid_transition, is_status,
}
use lumigift_lumigift.Gift.Defs.{Gift, World, Env, Error}
use lumigift_lumigift.Gift.Service.{update_gift_status, update_gift_status_idempotent}
use lumigift_lumigift.Gift.Evolution.{catch-gifts}
use lumigift_lumigift.Gift.Updates.{update_gift_status_branches}
use lumigift_lumigift.EventIndexer.{
  EscrowEvent, event_status, event_gift, apply_event, apply_all, Counts,
}
use lumigift_lumigift.EventIndexer.Replay.{apply-found, apply-same, apply-missing}
use lumigift_lumigift.Scheduler.{unlock_each}
use lumigift_lumigift.Payments.{update_if}

-- The gift of an id waits for its payment, or has been cancelled.
abbrev pub Waits : String → Dict Gift → Type 0
Waits id d =
    (g : Gift) × (get id d ≡ some g) × ((g.status ≡ pending_payment) ⊎ (g.status ≡ cancelled))

from_waiting :
    (s t : GiftStatus)
    → (s ≡ pending_payment) ⊎ (s ≡ cancelled)
    → is_valid_transition s t ≡ true
    → t ≢ funded
    → t ≡ cancelled
unfolding is_valid_transition
from_waiting s t h v ne = ground arith

set-Waits :
    (k id : String) (x x' : Gift) (d : Dict Gift)
    → get k d ≡ some x
    → ((x.status ≡ pending_payment) ⊎ (x.status ≡ cancelled) → x'.status ≡ cancelled)
    → Waits id d
    → Waits id (set k x' d)
set-Waits k id x x' d at cancels (g, found, waits) = elim (Bool-cases (k === id)) [
  | inl same ↦
      let e : k ≡ id = (eq_iff k id).0 same in
      let x≡g : x ≡ g = ground arith in
      (
        x',
        ground (arith, get-set k id x' d),
        inr (
            cancels
              (subst (λ y. (y.status ≡ pending_payment) ⊎ (y.status ≡ cancelled)) (sym x≡g) waits)),
      )
  | inr other ↦ (g, ground (arith, get-set k id x' d), waits)
]

pub update-Waits :
    (env : Env) (k id : String) (s : GiftStatus) (w : World)
    → s ≢ funded
    → Waits id w.gifts
    → Waits id (update_gift_status env k s w).0.gifts
unfolding update_gift_status
update-Waits env k id s w ne h = elim (Option-cases (get k w.gifts)) [
  | inl missing ↦ rw (missing, update_gift_status) h
  | inr (x, at) ↦ elim (update_gift_status_branches env k s w x at) [
    | inl (refused, e) ↦ subst (λ r. Waits id r.0.gifts) (sym e) h
    | inr (valid, written, _, _) ↦ subst (Waits id) (sym written) (
        set-Waits k id x (record x { status = s; updated_at = env.now }) w.gifts at
          (λ waits. from_waiting x.status s waits valid ne) h)
  ]
]

idempotent-Waits :
    (env : Env) (k id : String) (s : GiftStatus) (w : World)
    → s ≢ funded
    → Waits id w.gifts
    → Waits id (update_gift_status_idempotent env k s w).0.gifts
idempotent-Waits env k id s w ne h = elim (catch-gifts env k s w) [
  | inl e ↦ subst (λ v. Waits id v.gifts) (sym e) h
  | inr e ↦ subst (λ v. Waits id v.gifts) (sym e) (update-Waits env k id s w ne h)
]

-- Going on with an action that keeps the gift waiting.
pub continue-Waits :
    {A B : Type 0} (id : String) (r : World × Result Error A) (k : A → Action World Error B)
    → Waits id r.0.gifts
    → ((a : A) (w : World) → Waits id w.gifts → Waits id (k a w).0.gifts)
    → Waits id (continue r k).0.gifts
continue-Waits id (w, ok a) k h next = next a w h
continue-Waits id (w, err e) k h next = h

event_status-ne : (e : EscrowEvent) → event_status e.kind ≢ funded
event_status-ne e h = ground arith

apply_event-Waits :
    (env : Env) (e : EscrowEvent) (id : String) (w : World)
    → Waits id w.gifts
    → Waits id (apply_event env e w).0.gifts
apply_event-Waits env e id w h = elim (Option-cases (event_gift e w)) [
  | inl missing ↦ kept (apply-missing env e w missing)
  | inr (g, at) ↦ elim (Bool-cases (is_status g.status (event_status e.kind))) [
    | inl same ↦ kept (apply-same env e w g at same)
    | inr other ↦
        subst (λ v. Waits id v.gifts) (sym (apply-found env e w g at other))
          (idempotent-Waits env g.id id (event_status e.kind) w (event_status-ne e) h)
  ]
]
  where
    kept : (apply_event env e w).0 ≡ w → Waits id (apply_event env e w).0.gifts
    kept same = subst (λ v. Waits id v.gifts) (sym same) h

pub apply_all-Waits :
    (env : Env) (es : List EscrowEvent) (id : String) (w : World) (c : Counts)
    → Waits id w.gifts
    → Waits id (apply_all env es w c).0.gifts
unfolding apply_all
apply_all-Waits env [] id w c h = h
apply_all-Waits env (e ∷ es) id w c h =
    apply_all-Waits env es id _ _ (apply_event-Waits env e id w h)

pub unlock_each-Waits :
    (env : Env) (ids : List String) (id : String) (w : World)
    → Waits id w.gifts
    → Waits id (unlock_each env ids w).0.gifts
unfolding unlock_each
unlock_each-Waits env [] id w h = h
unlock_each-Waits env (k ∷ ks) id w h =
    continue-Waits id (update_gift_status env k unlocked w) _
      (update-Waits env k id unlocked w (λ e. cc) h) (λ r v hv. unlock_each-Waits env ks id v hv)

pub update_if-Waits :
    (env : Env) (k : Option String) (id : String) (s : GiftStatus) (w : World)
    → s ≢ funded
    → Waits id w.gifts
    → Waits id (update_if env k s w).0.gifts
update_if-Waits env none id s w ne h = h
update_if-Waits env (some k) id s w ne h = elim (Bool-cases (k === "")) [
  | inl empty ↦ rw empty h
  | inr named ↦ rw named (
      continue-Waits id (update_gift_status env k s w) _ (update-Waits env k id s w ne h)
        (λ r v hv. hv))
]
