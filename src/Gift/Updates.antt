-- ===== src/Gift/Updates.antt =====
-- The status updates of the gift service, branch by branch, and what a history of calls cannot do.
use lumigift_lumigift.Common.{
  String, Bool, true, false, ◌≡◌, refl, ◌⊎◌, inl, inr, List, [], ◌∷◌, ◌++◌, none, some, not, ◌&&◌,
  ◌||◌, length, length-append, ◌+◌, ok, err, arith, if◌then◌else◌, Bool-cases, Option-cases, sym,
  ◌∙◌, ap,
}
use lumigift_lumigift.Common.Dict.{get, set, get-set_self}
use lumigift_lumigift.Gift.Status.{
  GiftStatus, funded, claimed, cancelled, is_status, is_status_iff, is_valid_transition,
}
use lumigift_lumigift.Gift.Defs.{
  Gift, AuditLogEntry, World, Env, invalid_transition, database_error,
}
use lumigift_lumigift.Gift.Service.{update_gift_status, update_gift_status_idempotent}

length-snoc : (xs : List AuditLogEntry) (x : AuditLogEntry) → length (xs ++ x ∷ []) ≡ length xs + 1
length-snoc xs x = omega (arith, length-append xs (x ∷ []))

-- The statuses whose changes are logged.
abbrev pub is_audited : GiftStatus → Bool
is_audited s = is_status s funded || is_status s claimed || is_status s cancelled

-- An update of a stored gift: a refused transition throws and changes nothing. An accepted one
-- changes the status and the update time of that gift in the store, whatever the database does. For
-- an audited status one row more is logged and the gift is returned if the database is up, and the
-- call throws with no row more if it is down; for another status no row is logged and the gift is
-- returned.
pub update_gift_status_branches :
    (env : Env) (id : String) (s : GiftStatus) (w : World) (g : Gift)
    → get id w.gifts ≡ some g
    → let g' : Gift = record g { status = s; updated_at = env.now } in
      ((is_valid_transition g.status s ≡ false)
        × (update_gift_status env id s w ≡ (w, err (invalid_transition g.status s))))
      ⊎ ((is_valid_transition g.status s ≡ true)
          × ((update_gift_status env id s w).0.gifts ≡ set id g' w.gifts)
          × ((update_gift_status env id s w).1
              ≡ (if is_audited s && not env.db_up then err database_error else ok (some g')))
          × ((length (update_gift_status env id s w).0.audit
              ≡ (if is_audited s && env.db_up then length w.audit + 1 else length w.audit))))
unfolding update_gift_status
update_gift_status_branches env id s w g found =
    elim (Bool-cases (is_valid_transition g.status s)) [
      | inl valid ↦ inr (valid, ground arith, ground arith, grind (arith, length-snoc))
      | inr refused ↦ inl (refused, ground arith)
    ]

-- With the gift in the target status already, the idempotent update does nothing.
idempotent_noop :
    (env : Env) (id : String) (s : GiftStatus) (w : World) (g : Gift)
    → get id w.gifts ≡ some g
    → is_status g.status s ≡ true
    → (update_gift_status_idempotent env id s w).0 ≡ w
unfolding update_gift_status_idempotent
idempotent_noop env id s w g found same = rw (found, update_gift_status_idempotent) (rw same refl)

-- Otherwise it leaves the world that the plain update leaves.
idempotent_updates :
    (env : Env) (id : String) (s : GiftStatus) (w : World) (g : Gift)
    → get id w.gifts ≡ some g
    → is_status g.status s ≡ false
    → (update_gift_status_idempotent env id s w).0 ≡ (update_gift_status env id s w).0
unfolding update_gift_status_idempotent
idempotent_updates env id s w g found other = ground arith

pub idempotent_refused :
    (env : Env) (id : String) (s : GiftStatus) (w : World) (g : Gift)
    → get id w.gifts ≡ some g
    → is_status g.status s ≡ false
    → is_valid_transition g.status s ≡ false
    → (update_gift_status_idempotent env id s w).0 ≡ w
idempotent_refused env id s w g found other refused =
    elim (update_gift_status_branches env id s w g found) [
      | inl (_, e) ↦ idempotent_updates env id s w g found other ∙ ap (λ r. r.0) e
      | inr (valid, _, _, _) ↦ cc
    ]

idempotent_missing :
    (env : Env) (id : String) (s : GiftStatus) (w : World)
    → get id w.gifts ≡ none
    → (update_gift_status_idempotent env id s w).0 ≡ w
unfolding update_gift_status_idempotent
idempotent_missing env id s w missing = rw (missing, update_gift_status_idempotent) refl

-- A second identical update is without effect, at whatever time and whether or not the database
-- takes its audit rows, and also when the first one was refused or its audit row was lost.
pub update_idempotent_twice :
    (env env' : Env) (id : String) (s : GiftStatus) (w : World)
    → (update_gift_status_idempotent env' id s (update_gift_status_idempotent env id s w).0).0
      ≡ (update_gift_status_idempotent env id s w).0
update_idempotent_twice env env' id s w = elim (Option-cases (get id w.gifts)) [
  | inl missing ↦ unchanged (λ v. idempotent_missing v id s w missing)
  | inr (g, found) ↦ elim (Bool-cases (is_status g.status s)) [
    | inl same ↦ unchanged (λ v. idempotent_noop v id s w g found same)
    | inr other ↦ elim (update_gift_status_branches env id s w g found) [
      | inl (refused, _) ↦ unchanged (λ v. idempotent_refused v id s w g found other refused)
      | inr (_, written, _, _) ↦
          idempotent_noop env' id s _ (record g { status = s; updated_at = env.now })
            (ap (λ v. get id v.gifts) (idempotent_updates env id s w g found other)
              ∙ ap (get id) written
              ∙ get-set_self id _ w.gifts)
            ((is_status_iff s s).1 refl)
    ]
  ]
]
  where
    unchanged :
        ((v : Env) → (update_gift_status_idempotent v id s w).0 ≡ w)
        → (update_gift_status_idempotent env' id s (update_gift_status_idempotent env id s w).0).0
          ≡ (update_gift_status_idempotent env id s w).0
    unchanged e =
        ap (λ v. (update_gift_status_idempotent env' id s v).0) (e env) ∙ e env' ∙ sym (e env)
