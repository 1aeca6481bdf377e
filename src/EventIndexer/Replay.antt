-- ===== src/EventIndexer/Replay.antt =====
-- Replaying contract events.
use lumigift_lumigift.Common.{
  ◌+◌, String, Bool, true, false, ◌≡◌, ◌≢◌, refl, sym, ap, ◌∙◌, ◌⊎◌, inl, inr, List, [], ◌∷◌, none,
  some, length, arith, eq_iff, Option-cases, Bool-cases,
}
use lumigift_lumigift.Common.Dict.{get}
use lumigift_lumigift.Gift.Status.{GiftStatus, is_status}
use lumigift_lumigift.Gift.Defs.{Gift, World, Env}
use lumigift_lumigift.Gift.Service.{get_gift_by_id, update_gift_status_idempotent}
use lumigift_lumigift.Gift.Evolution.{run, perform, update_idempotent, run-Evolves}
use lumigift_lumigift.Gift.Updates.{update_idempotent_twice}
use lumigift_lumigift.EventIndexer.{
  EscrowEvent, event_status, event_gift, apply_event, apply_all, Counts, count,
}

count_total :
    (b : Bool) (c : Counts)
    → (count b c).processed + (count b c).skipped ≡ c.processed + c.skipped + 1
unfolding count
count_total b c = ground arith

-- Each event is counted once, as processed or as skipped.
pub apply_all-counts :
    (env : Env) (es : List EscrowEvent) (w : World) (c : Counts)
    → let c' = (apply_all env es w c).1 in
      c'.processed + c'.skipped ≡ c.processed + c.skipped + length es
unfolding apply_all
apply_all-counts env [] w c = omega arith
apply_all-counts env (e ∷ es) w c = omega (
  arith,
  apply_all-counts env es (apply_event env e w).0 (count (apply_event env e w).1 c),
  count_total (apply_event env e w).1 c,
)

-- The gift of an id is stored under that id.
abbrev pub IsKeyed : String → World → Type 0
IsKeyed id w = (g : Gift) → get id w.gifts ≡ some g → g.id ≡ id

-- Whether an event is skipped does not depend on the time or on the database.
abbrev Applies : EscrowEvent → World → Type 0
Applies e w =
    ((v : Env) → (apply_event v e w).0 ≡ w)
    ⊎ (((v : Env)
          → (apply_event v e w).0
            ≡ (update_gift_status_idempotent v e.gift_id (event_status e.kind) w).0)
        × ((g : Gift) × (get e.gift_id w.gifts ≡ some g)))

event_gift_of_named :
    (e : EscrowEvent) (w : World) → e.gift_id ≢ "" → event_gift e w ≡ get_gift_by_id e.gift_id w
event_gift_of_named e w named = ground (arith, eq_iff e.gift_id "")

pub get_gift_by_id-get :
    (id : String) (w : World) (g : Gift) → get_gift_by_id id w ≡ some g → get id w.gifts ≡ some g
unfolding get_gift_by_id
get_gift_by_id-get id w g h = ground arith

pub apply-found :
    (v : Env) (e : EscrowEvent) (w : World) (g : Gift)
    → event_gift e w ≡ some g
    → is_status g.status (event_status e.kind) ≡ false
    → (apply_event v e w).0 ≡ (update_gift_status_idempotent v g.id (event_status e.kind) w).0
unfolding apply_event
apply-found v e w g at other = rw (at, apply_event) (rw other refl)

pub apply-same :
    (v : Env) (e : EscrowEvent) (w : World) (g : Gift)
    → event_gift e w ≡ some g
    → is_status g.status (event_status e.kind) ≡ true
    → (apply_event v e w).0 ≡ w
unfolding apply_event
apply-same v e w g at same = rw (at, apply_event) (rw same refl)

pub apply-missing :
    (v : Env) (e : EscrowEvent) (w : World) → event_gift e w ≡ none → (apply_event v e w).0 ≡ w
unfolding apply_event
apply-missing v e w at = rw (at, apply_event) refl

apply_cases : (e : EscrowEvent) (w : World) → e.gift_id ≢ "" → IsKeyed e.gift_id w → Applies e w
apply_cases e w named keyed = elim (Option-cases (event_gift e w)) [
  | inl missing ↦ inl (λ v. apply-missing v e w missing)
  | inr (g, at) ↦ elim (Bool-cases (is_status g.status (event_status e.kind))) [
    | inl same ↦ inl (λ v. apply-same v e w g at same)
    | inr other ↦
        let found : get e.gift_id w.gifts ≡ some g =
          get_gift_by_id-get e.gift_id w g (sym (event_gift_of_named e w named) ∙ at) in
        inr (
          (λ v.
              apply-found v e w g at other
              ∙ ap (λ k. (update_gift_status_idempotent v k (event_status e.kind) w).0)
                  (keyed g found)),
          (g, found),
        )
  ]
]

-- An update keeps a stored gift under its id.
idempotent-IsKeyed :
    (v : Env) (id : String) (s : GiftStatus) (w : World) (g : Gift)
    → get id w.gifts ≡ some g
    → IsKeyed id w
    → IsKeyed id (update_gift_status_idempotent v id s w).0
unfolding run perform
idempotent-IsKeyed v id s w g found keyed h at =
    let (g', at', e) = run-Evolves ((v, update_idempotent id s) ∷ []) w id g found in
    let same : g' ≡ h = ground (arith, at, at') in rw (← same) (sym e.same.id ∙ keyed g found)

-- Replaying an event right after it was applied, with no other change of the store in between,
-- changes nothing more, at whatever times the two are applied: for an event that names a gift id,
-- over a store that keeps that gift under its own id.
pub apply_event_twice :
    (env env' : Env) (e : EscrowEvent) (w : World)
    → e.gift_id ≢ ""
    → IsKeyed e.gift_id w
    → (apply_event env' e (apply_event env e w).0).0 ≡ (apply_event env e w).0
apply_event_twice env env' e w named keyed = elim (apply_cases e w named keyed) [
  | inl skipped ↦
      ap (λ v. (apply_event env' e v).0) (skipped env) ∙ skipped env' ∙ sym (skipped env)
  | inr (updated, (g, found)) ↦
      rw (updated env)
        (elim (apply_cases e (after env) named
          (idempotent-IsKeyed env e.gift_id _ w g found keyed)) [
            | inl skipped ↦ skipped env'
            | inr (again, _) ↦ again env' ∙ update_idempotent_twice env env' e.gift_id _ w
          ])
]
  where
    after : Env → World
    after v = (update_gift_status_idempotent v e.gift_id (event_status e.kind) w).0
