-- ===== src/Tests/Office.antt =====
-- Requests of the administrator.
use lumigift_lumigift.Common.{
  ◌≡◌, ◌⊎◌, refl, sym, ap, ◌∙◌, inl, inr, [], ◌∷◌, some, ◌===◌, Bool-cases, eq_iff, arith,
}
use lumigift_lumigift.Common.Dict.{get}
use lumigift_lumigift.Gift.Status.{cancelled}
use lumigift_lumigift.Gift.Defs.{Gift}
use lumigift_lumigift.RateLimit.{rate_limit}
use lumigift_lumigift.Admin.{Office, restore, hard_delete, deed_route, require_admin}
use lumigift_lumigift.Admin.Deeds.{HasKeysOnce}
use lumigift_lumigift.Admin.Deleted.{IsStore, IsLogged, deed_route-IsLogged}
use lumigift_lumigift.Tests.Samples.{noon, gift_in}

abbrev removed : Gift
removed = record (gift_in cancelled) { deleted_at = some 4500 }

abbrev office : Office
office = record {
  world = record { gifts = ("g1", removed) ∷ []; audit = []; outgoing = [] };
  audit_log = [];
  limits = [];
}

office-IsStore : IsStore office.world
unfolding get HasKeysOnce
office-IsStore = (
  λ k g found. elim (Bool-cases ("g1" === k)) [
    | inl here ↦
        let same : removed ≡ g = ground arith in ap (λ x. x.id) (sym same) ∙ (eq_iff "g1" k).0 here
    | inr there ↦ absurd (ground arith)
  ],
  (refl, tt),
)

deed_route-IsLogged_example :
    let o' = (deed_route noon "e1" ("boss" ∷ "" ∷ []) restore (some "boss") (some "g1") office).0 in
    ((o'.world ≡ office.world) × (o'.audit_log ≡ office.audit_log))
    ⊎ IsLogged noon "e1" ("boss" ∷ "" ∷ []) restore (some "boss") (some "g1") office o'
deed_route-IsLogged_example =
    deed_route-IsLogged noon "e1" ("boss" ∷ "" ∷ []) restore (some "boss") (some "g1") office
      office-IsStore

restored :
    (deed_route noon "e1" ("boss" ∷ "" ∷ []) restore (some "boss") (some "g1") office).1 ≡ 200
unfolding deed_route require_admin rate_limit get
restored = refl

hidden : (deed_route noon "e1" ("" ∷ []) hard_delete (some "") (some "g1") office).1 ≡ 403
unfolding deed_route require_admin
hidden = refl
