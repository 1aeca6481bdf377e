-- ===== src/Claim/Worker.antt =====
-- What the worker pays, over the attempts of a job.
use lumigift_lumigift.Common.{
  ℕ, ◌+◌, String, Bool, true, false, ◌≡◌, refl, ap, ◌∙◌, List, [], ◌∷◌, ◌++◌, Option, some, Result,
  ok, err, arith, length, if◌then◌else◌, All, Bool-cases, ◌⊎◌, inl, inr, continue, return,
}
use lumigift_lumigift.Common.Dict.{get, set, get-set_self}
use lumigift_lumigift.Gift.Status.{GiftStatus, unlocked, claimed, is_status, is_valid_transition}
use lumigift_lumigift.Gift.Defs.{
  Gift, World, Env, Error, invalid_transition, Outgoing, usdc_payment, is_active,
}
use lumigift_lumigift.Gift.Service.{get_gift_by_id, update_gift_status, store_claim_tx_hash}
use lumigift_lumigift.Claim.{Attempt, process_claim, attempts, conclude}

abbrev is_payment : Outgoing → Bool
is_payment (usdc_payment key amount) = true
is_payment _ = false

-- The number of USDC payments that were sent.
abbrev pub payments : List Outgoing → ℕ
payments [] = 0
payments (o ∷ os) = (if is_payment o then 1 else 0) + payments os

pub payments-append : (xs ys : List Outgoing) → payments (xs ++ ys) ≡ payments xs + payments ys
payments-append [] ys = omega arith
payments-append (x ∷ xs) ys = ground (arith, payments-append xs ys)

-- The gift with the claim's transaction hash.
paid : Env → String → Gift → Gift
paid env tx g = record g { claim_tx_hash = some tx; updated_at = env.now }

-- The world after a payment whose claim was refused.
refused_world : Env → String → String → String → Gift → World → World
refused_world env tx id key g w = record w {
  gifts = set id (paid env tx g) w.gifts;
  outgoing = w.outgoing ++ usdc_payment key g.amount_usdc ∷ [];
}

pay_refused :
    (a : Attempt) (tx id key : String) (g : Gift) (w : World)
    → get_gift_by_id id w ≡ some g
    → a.account_valid ≡ true
    → a.payment ≡ some tx
    → is_status g.status claimed ≡ false
    → is_valid_transition g.status claimed ≡ false
    → process_claim a id key w
      ≡ (refused_world a.env tx id key g w, err (invalid_transition g.status claimed))
unfolding process_claim get_gift_by_id store_claim_tx_hash update_gift_status refused_world paid
pay_refused a tx id key g w found valid pays other refused =
    ground (arith, get-set_self id (paid a.env tx g) w.gifts)

-- A gift that is in the store, is not deleted, and can not become claimed from its status.
abbrev pub Unclaimable : String → World → Type 0
Unclaimable id w =
    (g : Gift) × (get_gift_by_id id w ≡ some g)
    × (is_status g.status claimed ≡ false)
    × (is_valid_transition g.status claimed ≡ false)

-- An attempt that Stellar takes: the account is valid and the payment goes through.
abbrev pub Pays : Attempt → Type 0
Pays a = (a.account_valid ≡ true) × ((tx : String) × (a.payment ≡ some tx))

refused-Unclaimable :
    (e : Env) (tx id key : String) (g : Gift) (w : World)
    → get_gift_by_id id w ≡ some g
    → is_status g.status claimed ≡ false
    → is_valid_transition g.status claimed ≡ false
    → Unclaimable id (refused_world e tx id key g w)
unfolding get_gift_by_id refused_world paid
refused-Unclaimable e tx id key g w found other refused =
    (paid e tx g, ground (arith, get-set_self id (paid e tx g) w.gifts), other, refused)

payments-refused :
    (e : Env) (tx id key : String) (g : Gift) (w : World)
    → payments (refused_world e tx id key g w).outgoing ≡ payments w.outgoing + 1
unfolding refused_world
payments-refused e tx id key g w =
    omega (arith, payments-append w.outgoing (usdc_payment key g.amount_usdc ∷ []))

attempts-next :
    (retries : Error → Bool) (id key : String) (a : Attempt) (later : List Attempt) (w w' : World)
    (s : GiftStatus)
    → process_claim a id key w ≡ (w', err (invalid_transition s claimed))
    → retries (invalid_transition s claimed) ≡ true
    → attempts retries id key (a ∷ later) w ≡ attempts retries id key later w'
unfolding attempts
attempts-next retries id key a later w w' s e again =
    ap (λ r. conclude retries r (attempts retries id key later)) e ∙ rw again refl

-- Where the queue tries again after a refused transition: for a gift that can not become claimed,
-- such as one cancelled after its claim was enqueued, every attempt of the job that Stellar takes
-- sends one more payment and leaves the gift unclaimed.
pub attempts_pay_each :
    (retries : Error → Bool) (id key : String) (as' : List Attempt) (w : World)
    → ((s : GiftStatus) → retries (invalid_transition s claimed) ≡ true)
    → Unclaimable id w
    → All Pays as'
    → (payments (attempts retries id key as' w).outgoing ≡ payments w.outgoing + length as')
      × Unclaimable id (attempts retries id key as' w)
unfolding attempts
attempts_pay_each retries id key [] w again u h = (omega arith, u)
attempts_pay_each retries id key (a ∷ later) w again (g, found, other, refused)
      ((valid, (tx, pays)), h) =
    let w' = refused_world a.env tx id key g w in
    let step =
      attempts-next retries id key a later w w' g.status
        (pay_refused a tx id key g w found valid pays other refused) (again g.status) in
    let (count, u) =
      attempts_pay_each retries id key later w' again
        (refused-Unclaimable a.env tx id key g w found other refused) h in
    rw step (omega (arith, count, payments-refused a.env tx id key g w), u)

-- The gift after a claim that goes through.
claimed_gift : Env → String → Gift → Gift
claimed_gift env tx g = record g { claim_tx_hash = some tx; status = claimed; updated_at = env.now }

-- Up to the last step an accepted claim does what a refused one does.
pay_updates :
    (a : Attempt) (tx id key : String) (g : Gift) (w : World)
    → get_gift_by_id id w ≡ some g
    → g.status ≡ unlocked
    → a.account_valid ≡ true
    → a.payment ≡ some tx
    → process_claim a id key w
      ≡ continue
          (update_gift_status a.env id claimed (refused_world a.env tx id key g w))
          (λ r. return tt)
unfolding process_claim get_gift_by_id store_claim_tx_hash refused_world paid
pay_updates a tx id key g w found ready valid pays = ground arith

continue-world :
    (r : World × Result Error (Option Gift)) → (continue {B = Unit {0}} r (λ x. return tt)).0 ≡ r.0
continue-world (w, ok x) = refl
continue-world (w, err e) = refl

update_accepted :
    (e : Env) (id : String) (g : Gift) (w : World)
    → get id w.gifts ≡ some g
    → g.status ≡ unlocked
    → ((update_gift_status e id claimed w).0.gifts
        ≡ set id (record g { status = claimed; updated_at = e.now }) w.gifts)
      × ((update_gift_status e id claimed w).0.outgoing ≡ w.outgoing)
unfolding update_gift_status is_valid_transition
update_accepted e id g w found ready = ground arith

get_gift_by_id-gifts :
    (id : String) (g : Gift) (w : World)
    → get id w.gifts ≡ some g
    → is_active g ≡ true
    → get_gift_by_id id w ≡ some g
unfolding get_gift_by_id
get_gift_by_id-gifts id g w found active = rw (found, get_gift_by_id) (rw active refl)

get_gift_by_id-active :
    (id : String) (g : Gift) (w : World) → get_gift_by_id id w ≡ some g → is_active g ≡ true
unfolding get_gift_by_id
get_gift_by_id-active id g w found = ground arith

pay_accepted :
    (a : Attempt) (tx id key : String) (g : Gift) (w : World)
    → get_gift_by_id id w ≡ some g
    → g.status ≡ unlocked
    → a.account_valid ≡ true
    → a.payment ≡ some tx
    → ((process_claim a id key w).0.outgoing ≡ w.outgoing ++ usdc_payment key g.amount_usdc ∷ [])
      × (get_gift_by_id id (process_claim a id key w).0 ≡ some (claimed_gift a.env tx g))
unfolding paid claimed_gift refused_world
pay_accepted a tx id key g w found ready valid pays =
    let w1 = refused_world a.env tx id key g w in
    let (gifts, sent) =
      update_accepted a.env id (paid a.env tx g) w1 (get-set_self id (paid a.env tx g) w.gifts)
        ready in
    let world : (process_claim a id key w).0 ≡ (update_gift_status a.env id claimed w1).0 =
      ap (λ r. r.0) (pay_updates a tx id key g w found ready valid pays) ∙ continue-world _ in
    rw world (
      sent,
      get_gift_by_id-gifts id (claimed_gift a.env tx g) _
          (ap (get id) gifts ∙ get-set_self id (claimed_gift a.env tx g) w1.gifts)
          (get_gift_by_id-active id g w found),
    )

claimed_skipped :
    (a : Attempt) (id key : String) (g : Gift) (w : World)
    → get_gift_by_id id w ≡ some g
    → g.status ≡ claimed
    → process_claim a id key w ≡ (w, ok tt)
unfolding process_claim
claimed_skipped a id key g w found done = ground arith

attempts_of_claimed :
    (retries : Error → Bool) (id key : String) (as' : List Attempt) (g : Gift) (w : World)
    → get_gift_by_id id w ≡ some g
    → g.status ≡ claimed
    → attempts retries id key as' w ≡ w
unfolding attempts
attempts_of_claimed retries id key [] g w found done = refl
attempts_of_claimed retries id key (a ∷ later) g w found done =
    ap (λ r. conclude retries r (attempts retries id key later))
      (claimed_skipped a id key g w found done)

conclude-cases :
    (retries : Error → Bool) (r : World × Result Error (Unit {0})) (next : World → World)
    → (conclude retries r next ≡ r.0) ⊎ (conclude retries r next ≡ next r.0)
conclude-cases retries (w, ok done) next = inl refl
conclude-cases retries (w, err e) next = elim (Bool-cases (retries e)) [
  | inl again ↦ inr (rw again refl)
  | inr final ↦ inl (rw final refl)
]

attempts-head :
    (retries : Error → Bool) (id key : String) (a : Attempt) (later : List Attempt) (w : World)
    → (attempts retries id key (a ∷ later) w ≡ (process_claim a id key w).0)
      ⊎ (attempts retries id key (a ∷ later) w
          ≡ attempts retries id key later (process_claim a id key w).0)
unfolding attempts
attempts-head retries id key a later w =
    conclude-cases retries (process_claim a id key w) (attempts retries id key later)

-- An unlocked gift is paid out once: when the first attempt is one that Stellar takes, the job sends
-- exactly one payment, of the gift's amount, and leaves the gift claimed with that transaction's
-- hash, whatever the later attempts are, after whichever errors the queue tries again, and whether
-- or not the audit row is accepted.
pub attempts_pay_once :
    (retries : Error → Bool) (id key tx : String) (a : Attempt) (later : List Attempt) (g : Gift)
    (w : World)
    → get_gift_by_id id w ≡ some g
    → g.status ≡ unlocked
    → a.account_valid ≡ true
    → a.payment ≡ some tx
    → let w' = attempts retries id key (a ∷ later) w in
      (w'.outgoing ≡ w.outgoing ++ usdc_payment key g.amount_usdc ∷ [])
      × ((h : Gift) × (get_gift_by_id id w' ≡ some h)
          × (h.status ≡ claimed)
          × (h.claim_tx_hash ≡ some tx))
unfolding claimed_gift
attempts_pay_once retries id key tx a later g w found ready valid pays =
    let (sent, at) = pay_accepted a tx id key g w found ready valid pays in
    let w' = (process_claim a id key w).0 in
    let same : attempts retries id key (a ∷ later) w ≡ w' =
      elim (attempts-head retries id key a later w) [
        | inl e ↦ e
        | inr e ↦ e ∙ attempts_of_claimed retries id key later (claimed_gift a.env tx g) w' at refl
      ] in
    rw same (sent, (claimed_gift a.env tx g, at, refl, refl))
