-- ===== src/Guards/Cors/Origins.antt =====
-- Which origins are let through.
use lumigift_lumigift.Common.{
  ℕ, ◌≡◌, ◌≢◌, ◌⊎◌, inl, inr, refl, ap, sym, ◌∙◌, Bool, true, false, List, [], ◌∷◌, ◌++◌, Option,
  none, some, any, drop, arith, Bool-cases, if◌then◌else◌,
}
use lumigift_lumigift.Phone.{starts_with}
use lumigift_lumigift.Guards.Csrf.{Text, same_text}
use lumigift_lumigift.Guards.Csrf.Tokens.{same_text→≡, same_text_refl}
use lumigift_lumigift.Guards.Cors.{
  ends_with, wildcard, admits, is_origin_allowed, refusal, with_origin, with_cors,
}

-- An entry is the origin, or `*.` and an end of it.
unfoldable pub Admits : Text → Text → Type 0
Admits origin entry =
    (entry ≡ origin)
    ⊎ ((pattern : Text) × (start : Text) × (entry ≡ wildcard ++ pattern)
        × (origin ≡ start ++ pattern))

unfoldable pub AdmitsSome : Text → List Text → Type 0
AdmitsSome origin [] = ⊥
AdmitsSome origin (entry ∷ entries) = Admits origin entry ⊎ AdmitsSome origin entries

-- The origins that the setting lets through.
unfoldable pub IsAllowed : List Text → Option Text → Type 0
IsAllowed entries none = ⊥
IsAllowed entries (some origin) = (origin ≢ []) × AdmitsSome origin entries

ends_with-splits :
    (s pattern : Text) → ends_with s pattern ≡ true → (start : Text) × (s ≡ start ++ pattern)
unfolding ends_with
ends_with-splits [] pattern h = ([], same_text→≡ [] pattern h)
ends_with-splits (c ∷ s) pattern h = elim (Bool-cases (same_text (c ∷ s) pattern)) [
  | inl same ↦ ([], same_text→≡ (c ∷ s) pattern same)
  | inr other ↦
      let later : ends_with s pattern ≡ true = sym (rw other refl) ∙ h in
      let (start, e) = ends_with-splits s pattern later in (c ∷ start, ap (λ x. c ∷ x) e)
]

ends_with_refl : (pattern : Text) → ends_with pattern pattern ≡ true
unfolding ends_with
ends_with_refl [] = same_text_refl []
ends_with_refl (c ∷ s) = rw (same_text_refl (c ∷ s)) refl

ends_with-append : (start pattern : Text) → ends_with (start ++ pattern) pattern ≡ true
unfolding ends_with
ends_with-append [] pattern = ends_with_refl pattern
ends_with-append (c ∷ start) pattern = ground (arith, ends_with-append start pattern)

starts_with-wildcard :
    (entry : Text) → starts_with entry wildcard ≡ true → entry ≡ wildcard ++ drop 2 entry
starts_with-wildcard [] h = absurd (ground arith)
starts_with-wildcard (c ∷ []) h = absurd (ground arith)
starts_with-wildcard (c ∷ d ∷ entry) h = ground arith

admits-Admits : (origin entry : Text) → admits origin entry ≡ true → Admits origin entry
unfolding Admits
admits-Admits origin entry h = elim (Bool-cases (same_text entry origin)) [
  | inl same ↦ inl (same_text→≡ entry origin same)
  | inr other ↦
      let (start, e) = ends_with-splits origin (drop 2 entry) (ground arith) in
      inr (drop 2 entry, start, starts_with-wildcard entry (ground arith), e)
]

Admits-admits : (origin entry : Text) → Admits origin entry → admits origin entry ≡ true
unfolding Admits
Admits-admits origin entry (inl e) = rw (e, same_text_refl origin) refl
Admits-admits origin entry (inr (pattern, start, e, e')) =
    rw (e, e') (ground (arith, ends_with-append start pattern))

any-AdmitsSome :
    (origin : Text) (entries : List Text)
    → any (admits origin) entries ≡ true
    → AdmitsSome origin entries
unfolding AdmitsSome
any-AdmitsSome origin [] h = ground arith
any-AdmitsSome origin (entry ∷ entries) h = elim (Bool-cases (admits origin entry)) [
  | inl this ↦ inl (admits-Admits origin entry this)
  | inr other ↦ inr (any-AdmitsSome origin entries (sym (rw other refl) ∙ h))
]

AdmitsSome-any :
    (origin : Text) (entries : List Text)
    → AdmitsSome origin entries
    → any (admits origin) entries ≡ true
unfolding AdmitsSome
AdmitsSome-any origin [] w = absurd w
AdmitsSome-any origin (entry ∷ entries) (inl this) = rw (Admits-admits origin entry this) refl
AdmitsSome-any origin (entry ∷ entries) (inr later) =
    ground (arith, AdmitsSome-any origin entries later)

is_origin_allowed-IsAllowed :
    (entries : List Text) (origin : Option Text)
    → is_origin_allowed entries origin ≡ true
    → IsAllowed entries origin
unfolding is_origin_allowed IsAllowed
is_origin_allowed-IsAllowed entries none h = ground arith
is_origin_allowed-IsAllowed entries (some []) h = absurd (ground arith)
is_origin_allowed-IsAllowed entries (some (c ∷ o)) h =
    (λ e. ground arith, any-AdmitsSome (c ∷ o) entries h)

IsAllowed-is_origin_allowed :
    (entries : List Text) (origin : Option Text)
    → IsAllowed entries origin
    → is_origin_allowed entries origin ≡ true
unfolding is_origin_allowed IsAllowed
IsAllowed-is_origin_allowed entries none w = absurd w
IsAllowed-is_origin_allowed entries (some []) (ne, w) = absurd (ne refl)
IsAllowed-is_origin_allowed entries (some (c ∷ o)) (ne, w) = AdmitsSome-any (c ∷ o) entries w

-- The guard lets a request through exactly if its origin is one that the setting allows: the origin is
-- not empty, and is an entry itself or ends with what follows the `*.` of an entry, with nothing said
-- of the character before that end. A preflight is then answered with 204, any other request by the
-- handler, either with the origin in the answer; every other request is answered with 403, with no origin, and changes
-- nothing.
pub with_cors_lem :
    {W : Type 0} (entries : List Text) (is_options : Bool) (origin : Option Text)
    (handler : W → W × ℕ) (w : W)
    → (IsAllowed entries origin
        × (with_cors entries is_options origin handler w ≡ (
            if is_options
            then (w, record { status = 204; allow_origin = origin })
            else with_origin origin (handler w))))
      ⊎ ((IsAllowed entries origin → ⊥)
          × (with_cors entries is_options origin handler w ≡ (w, refusal)))
unfolding with_cors
with_cors_lem entries is_options origin handler w =
    elim (Bool-cases (is_origin_allowed entries origin)) [
      | inl allowed ↦ inl (is_origin_allowed-IsAllowed entries origin allowed, rw allowed refl)
      | inr refused ↦
          inr (λ a. refute (IsAllowed-is_origin_allowed entries origin a) refused, rw refused refl)
    ]
  where
    refute : {b : Bool} → b ≡ true → b ≡ false → ⊥
    refute e f = ground arith
