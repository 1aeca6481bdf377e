-- ===== src/Gift/Evolution.antt =====
-- What the operations of the gift service do to a gift that is in the store.
use lumigift_lumigift.Common.{
  String, true, ◌≡◌, refl, ◌⊎◌, inl, inr, List, [], ◌∷◌, some, arith, eq_iff, Bool-cases,
  Option-cases, ◌===◌, sym, subst, ap,
}
use lumigift_lumigift.Common.Dict.{Dict, get, set, get-set, get-set_self}
use lumigift_lumigift.Gift.Status.{GiftStatus, is_valid_transition}
use lumigift_lumigift.Gift.Status.Chains.{here, next, Moves, Moves-trans}
use lumigift_lumigift.Gift.Defs.{Gift, World, Env}
use lumigift_lumigift.Gift.Service.{
  modify, update_gift_status, update_gift_status_idempotent, cancel_gift, store_claim_tx_hash,
  soft_delete_gift, restore_gift,
}

-- The calls that change one gift.
pub data Call : Type 0 where
  update : String → GiftStatus → Call
  update_idempotent : String → GiftStatus → Call
  cancel : String → Call
  store_claim : String → String → Call
  soft_delete : String → Call
  restore : String → Call

abbrev pub target : Call → String
target (update id status) = id
target (update_idempotent id status) = id
target (cancel id) = id
target (store_claim id tx) = id
target (soft_delete id) = id
target (restore id) = id

unfoldable pub perform : Env × Call → World → World
unfolding update_gift_status update_gift_status_idempotent cancel_gift store_claim_tx_hash
    soft_delete_gift restore_gift
perform (env, update id status) w = (update_gift_status env id status w).0
perform (env, update_idempotent id status) w = (update_gift_status_idempotent env id status w).0
perform (env, cancel id) w = (cancel_gift env id w).0
perform (env, store_claim id tx) w = (store_claim_tx_hash env id tx w).0
perform (env, soft_delete id) w = (soft_delete_gift env id w).0
perform (env, restore id) w = (restore_gift env id w).0

unfoldable pub run : List (Env × Call) → World → World
run [] w = w
run (c ∷ cs) w = run cs (perform c w)

-- What these operations keep of a gift: its id, its parties, its amounts, its unlock time and its
-- creation time.
pub record SameTerms (g h : Gift) : Type 0 where
  pub id : g.id ≡ h.id
  pub sender : g.sender_id ≡ h.sender_id
  pub recipient : g.recipient_phone_hash ≡ h.recipient_phone_hash
  pub amount : g.amount_ngn ≡ h.amount_ngn
  pub usdc : g.amount_usdc ≡ h.amount_usdc
  pub unlock : g.unlock_at ≡ h.unlock_at
  pub created : g.created_at ≡ h.created_at

-- The later state of a gift.
pub record Evolves (g h : Gift) : Type 0 where
  pub same : SameTerms g h
  pub moves : Moves g.status h.status

Evolves-refl : (g : Gift) → Evolves g g
Evolves-refl g = record { same = ground arith; moves = inl (0, here) }

SameTerms-trans : {g h k : Gift} → SameTerms g h → SameTerms h k → SameTerms g k
SameTerms-trans a b = ground arith

Evolves-trans : {g h k : Gift} → Evolves g h → Evolves h k → Evolves g k
Evolves-trans a b = record {
  same = SameTerms-trans a.same b.same;
  moves = Moves-trans a.moves b.moves;
}

-- In the store d the gift g has become one that evolved from it.
abbrev Kept : Gift → String → Dict Gift → Type 0
Kept g id d = (h : Gift) × (get id d ≡ some h) × Evolves g h

set-Kept :
    (k id : String) (x x' g : Gift) (d : Dict Gift)
    → get k d ≡ some x
    → Evolves x x'
    → get id d ≡ some g
    → Kept g id (set k x' d)
set-Kept k id x x' g d hx e hg = elim (Bool-cases (k === id)) [
  | inl same ↦
      let k≡id : k ≡ id = (eq_iff k id).0 same in
      let x≡g : x ≡ g = ground (arith, hx, hg) in
      (x', rw k≡id (get-set_self id x' d), subst (λ z. Evolves z x') x≡g e)
  | inr other ↦ (g, ground (arith, get-set k id x' d), Evolves-refl g)
]

-- The store after an operation on the gift under k: as it was, or with an evolved gift there.
abbrev Changes : String → Dict Gift → Dict Gift → Type 0
Changes k d d' =
    (d' ≡ d) ⊎ ((x : Gift) × (x' : Gift) × (get k d ≡ some x) × Evolves x x' × (d' ≡ set k x' d))

Changes-Kept :
    (k id : String) (g : Gift) (d d' : Dict Gift)
    → Changes k d d'
    → get id d ≡ some g
    → Kept g id d'
Changes-Kept k id g d d' (inl same) hg = (g, rw same hg, Evolves-refl g)
Changes-Kept k id g d d' (inr (x, x', hx, e, same)) hg =
    subst (Kept g id) (sym same) (set-Kept k id x x' g d hx e hg)

update_with : Env → GiftStatus → Gift → Gift
update_with env status x = record x { status = status; updated_at = env.now }

update_with-Evolves :
    (env : Env) (status : GiftStatus) (x : Gift)
    → is_valid_transition x.status status ≡ true
    → Evolves x (update_with env status x)
unfolding update_with
update_with-Evolves env status x valid = record {
  same = ground arith;
  moves = inl (1, next here valid);
}

update-Changes :
    (env : Env) (k : String) (status : GiftStatus) (w : World)
    → Changes k w.gifts (update_gift_status env k status w).0.gifts
unfolding update_gift_status update_with
update-Changes env k status w = elim (Option-cases (get k w.gifts)) [
  | inl missing ↦ inl (rw (missing, update_gift_status) refl)
  | inr (x, found) ↦ elim (Bool-cases (is_valid_transition x.status status)) [
    | inl valid ↦
        inr
          (x, update_with env status x, found, update_with-Evolves env status x valid, ground arith)
    | inr refused ↦ inl (ground arith)
  ]
]

pub catch-gifts :
    (env : Env) (k : String) (status : GiftStatus) (w : World)
    → ((update_gift_status_idempotent env k status w).0 ≡ w)
      ⊎ ((update_gift_status_idempotent env k status w).0 ≡ (update_gift_status env k status w).0)
unfolding update_gift_status_idempotent
catch-gifts env k status w = ground arith

modify-Changes :
    (change : Gift → Gift) (k : String) (w : World)
    → ((x : Gift) → Evolves x (change x))
    → Changes k w.gifts (modify change k w).0.gifts
modify-Changes change k w e = elim (Option-cases (get k w.gifts)) [
  | inl missing ↦ inl (rw (missing, modify) refl)
  | inr (x, found) ↦ inr (x, change x, found, e x, rw (found, modify) refl)
]

perform-Changes :
    (env : Env) (c : Call) (w : World) → Changes (target c) w.gifts (perform (env, c) w).gifts
unfolding perform
perform-Changes env (update k status) w = update-Changes env k status w
perform-Changes env (update_idempotent k status) w = elim (catch-gifts env k status w) [
  | inl e ↦ inl (ap (λ v. v.gifts) e)
  | inr e ↦ rw e (update-Changes env k status w)
]
perform-Changes env (cancel k) w =
    modify-Changes _ k w (λ x. record { same = ground arith; moves = inr refl })
perform-Changes env (store_claim k tx) w =
    modify-Changes _ k w (λ x. record { same = ground arith; moves = inl (0, here) })
perform-Changes env (soft_delete k) w =
    modify-Changes _ k w (λ x. record { same = ground arith; moves = inl (0, here) })
perform-Changes env (restore k) w =
    modify-Changes _ k w (λ x. record { same = ground arith; moves = inl (0, here) })

run-Kept :
    (cs : List (Env × Call)) (w : World) (id : String) (g : Gift)
    → get id w.gifts ≡ some g
    → Kept g id (run cs w).gifts
unfolding run
run-Kept [] w id g h = (g, h, Evolves-refl g)
run-Kept ((env, c) ∷ cs) w id g h =
    let (g', h', e) =
      Changes-Kept (target c) id g w.gifts (perform (env, c) w).gifts (perform-Changes env c w) h in
    let (g'', h'', e') = run-Kept cs (perform (env, c) w) id g' h' in (g'', h'', Evolves-trans e e')

-- After any calls of the six operations that change one gift (the two status updates, cancelling,
-- storing a transaction hash, soft deletion and restoring), failing ones included, a gift of the store
-- is still there under its id, with the same id, sender, recipient hash, amounts, unlock time and
-- creation time, and its status has moved along accepted transitions or is cancelled. The removal of
-- a gift by an administrator is not one of these calls.
pub run-Evolves :
    (cs : List (Env × Call)) (w : World) (id : String) (g : Gift)
    → get id w.gifts ≡ some g
    → (h : Gift) × (get id (run cs w).gifts ≡ some h) × Evolves g h
run-Evolves cs w id g found = run-Kept cs w id g found
