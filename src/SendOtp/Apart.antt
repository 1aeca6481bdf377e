-- ===== src/SendOtp/Apart.antt =====
-- The keys that sending a password uses are different.
use lumigift_lumigift.Common.{
  ℕ, ◌≡◌, ◌≢◌, refl, ap, sym, ◌∙◌, subst, String, Bool, true, false, List, [], ◌∷◌, ◌++◌, arith,
}
use Prim.Native.String.{◌++◌ as concat}
use text.Mathlib.TextLemmas.{append_cancel_left}
use lumigift_lumigift.Otp.{otp_key, attempts_key}
use lumigift_lumigift.Phone.{starts_with}
use lumigift_lumigift.UserDeletion.{codes}
use lumigift_lumigift.UserDeletion.Constraint.{codes-append}
use lumigift_lumigift.SendOtp.{phone_limit_key, ip_limit_key}

-- Keys whose texts begin in different ways are different.
apart_by :
    (p : List ℕ) (a b x y : String)
    → starts_with (codes (concat a x)) p ≡ true
    → starts_with (codes (concat b y)) p ≡ false
    → concat a x ≢ concat b y
apart_by p a b x y h h' e =
    let moved = subst (λ k. starts_with (codes k) p ≡ true) e h in ground (arith, moved, h')

begins :
    (p : List ℕ) (a x : String) (v : Bool)
    → starts_with (codes a ++ codes x) p ≡ v
    → starts_with (codes (concat a x)) p ≡ v
begins p a x v h = ap (λ l. starts_with l p) (codes-append a x) ∙ h

-- `rl:otp:p`
abbrev phone_prefix : List ℕ
phone_prefix = b'r' ∷ b'l' ∷ b':' ∷ b'o' ∷ b't' ∷ b'p' ∷ b':' ∷ b'p' ∷ []

pub ip-phone : (ip phone : String) → ip_limit_key ip ≢ phone_limit_key phone
unfolding codes
ip-phone ip phone e =
    apart_by phone_prefix "rl:otp:phone:" "rl:otp:ip:" phone ip
      (begins phone_prefix "rl:otp:phone:" phone true refl)
      (begins phone_prefix "rl:otp:ip:" ip false refl) (sym e)

pub otp-phone : (other phone : String) → otp_key other ≢ phone_limit_key phone
unfolding codes
otp-phone other phone e =
    apart_by phone_prefix "rl:otp:phone:" "otp:" phone other
      (begins phone_prefix "rl:otp:phone:" phone true refl)
      (begins phone_prefix "otp:" other false refl) (sym e)

pub attempts-phone : (other phone : String) → attempts_key other ≢ phone_limit_key phone
unfolding codes
attempts-phone other phone e =
    apart_by phone_prefix "rl:otp:phone:" "otp:attempts:" phone other
      (begins phone_prefix "rl:otp:phone:" phone true refl)
      (begins phone_prefix "otp:attempts:" other false refl) (sym e)

pub other_phone :
    (other phone : String) → other ≢ phone → phone_limit_key other ≢ phone_limit_key phone
other_phone other phone ne e = ne (append_cancel_left "rl:otp:phone:" other phone e)
