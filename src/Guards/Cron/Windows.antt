-- ===== src/Guards/Cron/Windows.antt =====
-- How long a signature is good for.
use lumigift_lumigift.Common.{
  ℕ, ◌+◌, ◌-◌, ◌*◌, ◌/◌, ◌≤◌, ◌<◌, ◌≡◌, ◌↔◌, inl, inr, refl, ap, sym, ◌∙◌, String, Bool, true, ◌||◌,
  Option, none, some, truthy, any, ◌==◌, ◌===◌, if◌then◌else◌, decimal, arith, eq_iff, eq_refl,
  Bool-cases, subst,
}
use Prim.Native.String.{◌++◌ as concat}
use lumigift_lumigift.Guards.Csrf.{Text, given, same_text}
use lumigift_lumigift.Guards.Csrf.Tokens.{same_text→≡, same_text_refl}
use lumigift_lumigift.Guards.Cron.{
  previous_window, windows, check_hmac, check_header, check_secret, verify_cron_auth,
}

-- The text is the HMAC of a window that began less than two minutes ago.
abbrev pub IsRecent : (Text → Text) → ℕ → Text → Type 0
IsRecent sign now_ms text =
    (w : ℕ) × (text ≡ sign (decimal w)) × (60 * w ≤ now_ms / 1000) × (now_ms / 1000 < 60 * w + 120)

previous_window-decimal : (w : ℕ) → 1 ≤ w → previous_window w ≡ decimal (w - 1)
previous_window-decimal w h = ground arith

any_of_two :
    (sign : Text → Text) (now_ms : ℕ) (text : Text)
    → 60000 ≤ now_ms
    → let w = now_ms / 1000 / 60 in
      any (λ v. same_text text (sign v)) (windows now_ms)
      ≡ (same_text text (sign (decimal w)) || same_text text (sign (decimal (w - 1))))
any_of_two sign now_ms text late =
    rw (previous_window-decimal (now_ms / 1000 / 60) (omega (arith, late))) (ground arith)

same_text-sign :
    (sign : Text → Text) (v w : ℕ) (text : Text)
    → text ≡ sign (decimal v)
    → v ≡ w
    → same_text text (sign (decimal w)) ≡ true
same_text-sign sign v w text e same =
    subst (λ t. same_text text t ≡ true) (e ∙ ap (λ u. sign (decimal u)) same) (same_text_refl text)

IsRecent-any :
    (sign : Text → Text) (now_ms : ℕ) (text : Text)
    → 60000 ≤ now_ms
    → (any (λ v. same_text text (sign v)) (windows now_ms) ≡ true) ↔ IsRecent sign now_ms text
IsRecent-any sign now_ms text late = (
  λ h. forth (sym (any_of_two sign now_ms text late) ∙ h),
  λ r. any_of_two sign now_ms text late ∙ back r,
)
  where
    w : ℕ
    w = now_ms / 1000 / 60

    forth :
        (same_text text (sign (decimal w)) || same_text text (sign (decimal (w - 1)))) ≡ true
        → IsRecent sign now_ms text
    forth h = elim (Bool-cases (same_text text (sign (decimal w)))) [
      | inl current ↦ (w, same_text→≡ text (sign (decimal w)) current, omega arith, omega arith)
      | inr older ↦ (
        w - 1,
        same_text→≡ text (sign (decimal (w - 1))) (ground arith),
        omega arith,
        omega (arith, late),
      )
    ]

    back :
        IsRecent sign now_ms text
        → (same_text text (sign (decimal w)) || same_text text (sign (decimal (w - 1)))) ≡ true
    back (v, e, from, until) = elim (Bool-cases (v == w)) [
      | inl current ↦ ground (arith, same_text-sign sign v w text e)
      | inr older ↦ ground (arith, same_text-sign sign v (w - 1) text e)
    ]

-- What a request must carry.
pub record IsTrusted (hmac : String → Text → Text) (now_ms : ℕ)
    (cron_secret authorization : Option String) (signature : Option Text) : Type 0 where
  pub secret : String
  pub text : Text
  pub configured : truthy cron_secret ≡ some secret
  pub bearer : authorization ≡ some (concat "Bearer " secret)
  pub carried : given signature ≡ some text
  pub recent : IsRecent (hmac secret) now_ms text

check_hmac_iff :
    (hmac : String → Text → Text) (now_ms : ℕ) (secret : String) (signature : Option Text)
    → 60000 ≤ now_ms
    → (check_hmac hmac now_ms secret signature ≡ none)
      ↔ ((text : Text) × (signature ≡ some text) × IsRecent (hmac secret) now_ms text)
check_hmac_iff hmac now_ms secret none late = (λ h. cc, λ (t, e, r). cc)
check_hmac_iff hmac now_ms secret (some text) late = (forth, back)
  where
    matches : Bool
    matches = any (λ w. same_text text (hmac secret w)) (windows now_ms)

    answer : Bool → Option ℕ
    answer b = if b then none else some 401

    chosen : (b : Bool) → answer b ≡ none → b ≡ true
    chosen b h = ground arith

    forth :
        check_hmac hmac now_ms secret (some text) ≡ none
        → (t : Text) × (some text ≡ some t) × IsRecent (hmac secret) now_ms t
    forth h = (text, refl, (IsRecent-any (hmac secret) now_ms text late).0 (chosen matches h))

    back :
        ((t : Text) × (some text ≡ some t) × IsRecent (hmac secret) now_ms t)
        → check_hmac hmac now_ms secret (some text) ≡ none
    back (t, e, r) =
        let same : t ≡ text = cc in
        let accepted : matches ≡ true =
          (IsRecent-any (hmac secret) now_ms text late).1
            (subst (IsRecent (hmac secret) now_ms) same r) in
        ap answer accepted

check_header-bearer :
    (hmac : String → Text → Text) (now_ms : ℕ) (secret : String) (authorization : Option String)
    (signature : Option Text)
    → check_header hmac now_ms secret authorization signature ≡ none
    → (authorization ≡ some (concat "Bearer " secret))
      × (check_hmac hmac now_ms secret (given signature) ≡ none)
check_header-bearer hmac now_ms secret none signature h = cc
check_header-bearer hmac now_ms secret (some a) signature h =
    elim (Bool-cases (a === concat "Bearer " secret)) [
      | inl right ↦
          (ap some ((eq_iff a (concat "Bearer " secret)).0 right), sym (rw right refl) ∙ h)
      | inr wrong ↦ absurd (ground arith)
    ]

bearer-check_header :
    (hmac : String → Text → Text) (now_ms : ℕ) (secret : String) (signature : Option Text)
    → check_header hmac now_ms secret (some (concat "Bearer " secret)) signature
      ≡ check_hmac hmac now_ms secret (given signature)
bearer-check_header hmac now_ms secret signature = rw (eq_refl (concat "Bearer " secret)) refl

check_secret-IsTrusted :
    (hmac : String → Text → Text) (now_ms : ℕ) (cron_secret authorization : Option String)
    (signature : Option Text) (o : Option String)
    → 60000 ≤ now_ms
    → truthy cron_secret ≡ o
    → check_secret hmac now_ms o authorization signature ≡ none
    → IsTrusted hmac now_ms cron_secret authorization signature
check_secret-IsTrusted hmac now_ms cron_secret authorization signature none late e h = cc
check_secret-IsTrusted hmac now_ms cron_secret authorization signature (some secret) late e h =
    let (bearer, checked) = check_header-bearer hmac now_ms secret authorization signature h in
    let (text, carried, recent) =
      (check_hmac_iff hmac now_ms secret (given signature) late).0 checked in
    record {
      secret = secret;
      text = text;
      configured = e;
      bearer = bearer;
      carried = carried;
      recent = recent;
    }

-- A cron request is let through exactly when the secret is configured, the bearer token is right,
-- and the signature is the HMAC under it of a minute that has begun and began less than two minutes
-- ago. The clock is past the first minute of 1970.
pub verify_cron_auth_iff :
    (hmac : String → Text → Text) (now_ms : ℕ) (cron_secret authorization : Option String)
    (signature : Option Text)
    → 60000 ≤ now_ms
    → (verify_cron_auth hmac now_ms cron_secret authorization signature ≡ none)
      ↔ IsTrusted hmac now_ms cron_secret authorization signature
unfolding verify_cron_auth
verify_cron_auth_iff hmac now_ms cron_secret authorization signature late = (
  check_secret-IsTrusted hmac now_ms cron_secret authorization signature (truthy cron_secret) late
      refl,
  λ t.
      ap (λ o. check_secret hmac now_ms o authorization signature) t.configured
      ∙ ap (λ a. check_header hmac now_ms t.secret a signature) t.bearer
      ∙ bearer-check_header hmac now_ms t.secret signature
      ∙ (check_hmac_iff hmac now_ms t.secret (given signature) late).1
          (t.text, t.carried, t.recent),
)
