-- ===== src/Admin.antt =====
-- The administrator's requests: the guard of src/server/middleware/admin.ts, `withAdmin` of
-- src/server/middleware/index.ts, the services admin.service.ts and admin-gift.service.ts, and the
-- routes that change gifts. The session, the schema of the id and the drawn ids are arguments.
pub mod Deeds
pub mod Deleted
use lumigift_lumigift.Common.{
  ℕ, ◌+◌, String, Bool, true, false, not, ◌&&◌, ◌||◌, List, [], ◌∷◌, ◌++◌, Option, none, some,
  Result, ok, err, Action, any, filter, leb, ◌===◌, if◌then◌else◌,
}
use Prim.Native.String.{◌++◌ as concat}
use lumigift_lumigift.Common.Dict.{Dict, get, delete}
use lumigift_lumigift.Gift.Status.{GiftStatus, expired, cancelled, is_status}
use lumigift_lumigift.Gift.Defs.{Gift, World, Env, Error}
use lumigift_lumigift.Gift.Service.{get_gift_by_id, update_gift_status, restore_gift}
use lumigift_lumigift.Gift.Pages.{get_all_gifts}
use lumigift_lumigift.RateLimit.{Entry, rate_limit}

pub record AuditEntry : Type 0 where
  pub id : String
  pub admin_id : String
  pub action : String
  pub target_id : String
  pub created_at : ℕ

-- The gifts, `auditLog`, and the map of the rate limiter.
pub record Office : Type 0 where
  pub world : World
  pub audit_log : List AuditEntry
  pub limits : Dict Entry

-- `logAdminAction`, with the id that is drawn.
abbrev pub entry_of : Env → String → String → String → String → AuditEntry
entry_of env id admin_id action target_id = record {
  id = id;
  admin_id = admin_id;
  action = action;
  target_id = target_id;
  created_at = env.now;
}

abbrev pub log_admin_action : Env → String → String → String → String → Office → Office
log_admin_action env id admin_id action target_id o = record o {
  audit_log = o.audit_log ++ entry_of env id admin_id action target_id ∷ [];
}

-- `requireAdmin`: the user of the session, among the pieces of ADMIN_USER_IDS between commas; or the
-- status of the answer.
unfoldable pub require_admin : List String → Option String → Result ℕ String
require_admin pieces none = err 401
require_admin pieces (some user_id) =
    if any (λ a. a === user_id) (filter (λ a. not (a === "")) pieces) then ok user_id else err 403

-- `adminGetGift`
abbrev pub admin_get_gift : String → World → Option Gift
admin_get_gift id w = get id w.gifts

-- What is done with a soft-deleted gift, and the name that it is logged under.
pub data Deed : Type 0 where
  restore hard_delete : Deed

abbrev pub deed_name : Deed → String
deed_name restore = "restore_gift"
deed_name hard_delete = "hard_delete_gift"

abbrev pub deed_limit : Deed → ℕ
deed_limit restore = 60
deed_limit hard_delete = 10

unfoldable pub do_deed : Env → Deed → Gift → World → World
do_deed env restore gift w = (restore_gift env gift.id w).0
do_deed env hard_delete gift w = record w { gifts = delete gift.id w.gifts }

-- For the time at which the gift was deleted, if it was.
abbrev pub deed_on : Env → String → Deed → String → Gift → Option ℕ → Office → Office × ℕ
deed_on env draw deed admin_id gift none o = (o, 409)
deed_on env draw deed admin_id gift (some t) o = (
  log_admin_action env draw admin_id (deed_name deed) gift.id
      (record o { world = do_deed env deed gift o.world }),
  200,
)

abbrev pub deed_found : Env → String → Deed → String → Option Gift → Office → Office × ℕ
deed_found env draw deed admin_id none o = (o, 404)
deed_found env draw deed admin_id (some gift) o =
    deed_on env draw deed admin_id gift gift.deleted_at o

abbrev pub deed_asked : Env → String → Deed → String → Option String → Office → Office × ℕ
deed_asked env draw deed admin_id none o = (o, 400)
deed_asked env draw deed admin_id (some id) o =
    deed_found env draw deed admin_id (admin_get_gift id o.world) o

-- For the answer of the rate limiter.
abbrev pub deed_limited :
    Env → String → Deed → Option String → String → Dict Entry × Bool → Office → Office × ℕ
deed_limited env draw deed id admin_id (limits, false) o = (record o { limits = limits }, 429)
deed_limited env draw deed id admin_id (limits, true) o =
    deed_asked env draw deed admin_id id (record o { limits = limits })

abbrev pub deed_admitted :
    Env → String → Deed → Option String → Result ℕ String → Office → Office × ℕ
deed_admitted env draw deed id (err status) o = (o, status)
deed_admitted env draw deed id (ok admin_id) o =
    deed_limited env draw deed id admin_id
      (rate_limit env.now (concat "admin:" admin_id) (deed_limit deed) 60000 o.limits) o

-- POST and DELETE of .../admin/gifts/[id]/restore, for the id that passes the schema.
unfoldable pub deed_route :
    Env → String → List String → Deed → Option String → Option String → Office → Office × ℕ
unfolding require_admin
deed_route env draw pieces deed session id o =
    deed_admitted env draw deed id (require_admin pieces session) o

-- `withAdmin`: the role of the user of the session, where there is one.
abbrev pub with_admin : {W : Type 0} → Option (Option String) → (W → W × ℕ) → W → W × ℕ
with_admin none handler w = (w, 401)
with_admin (some none) handler w = (w, 403)
with_admin (some (some role)) handler w = if role === "admin" then handler w else (w, 403)

-- `adminExpireGift`
abbrev pub admin_expire_gift : Env → String → Action World Error (Option Gift)
admin_expire_gift env id = update_gift_status env id expired

-- `adminRefundGift`: no refund is asked for.
abbrev pub admin_refund_gift : Env → String → Action World Error (Option Gift)
admin_refund_gift env id w = elim (get_gift_by_id id w) [
  | none ↦ (w, ok none)
  | some gift ↦ update_gift_status env id cancelled w
]

-- The answer of the routes that expire and refund, behind `withErrorHandler`.
abbrev pub found_or_not : World × Result Error (Option Gift) → World × ℕ
found_or_not (w, ok none) = (w, 404)
found_or_not (w, ok (some gift)) = (w, 200)
found_or_not (w, err e) = (w, 500)

unfoldable pub expire_route : Env → Option (Option String) → String → World → World × ℕ
expire_route env role id = with_admin role (λ w. found_or_not (admin_expire_gift env id w))

unfoldable pub refund_route : Env → Option (Option String) → String → World → World × ℕ
refund_route env role id = with_admin role (λ w. found_or_not (admin_refund_gift env id w))

-- The filters of `adminGetAllGifts`.
pub record Filters : Type 0 where
  pub status : Option GiftStatus
  pub user_id : Option String
  pub from : Option ℕ
  pub to : Option ℕ

abbrev pub keep_if {ℓ} : {A : Type ℓ} → Option A → (A → Gift → Bool) → List Gift → List Gift
keep_if none test gs = gs
keep_if (some a) test gs = filter (test a) gs

unfoldable pub admin_get_all_gifts : Filters → World → List Gift
admin_get_all_gifts f w =
    keep_if f.to (λ t g. leb g.created_at t)
      (keep_if f.from (λ t g. leb t g.created_at)
        (keep_if f.user_id (λ u g. (u === "") || (g.sender_id === u))
          (keep_if f.status (λ s g. is_status g.status s) (get_all_gifts w))))
