-- ===== src/AuthSession/Secrets.antt =====
-- Which cookies are decoded while the secret is changed.
use lumigift_lumigift.Common.{
  ℕ, ◌+◌, ◌-◌, ◌≡◌, ◌≤◌, ◌⊎◌, ◌↔◌, inl, inr, refl, ap, sym, ◌∙◌, String, false, Option, none, some,
  ltb, ◌≢◌, ◌===◌, eq_iff, arith, Bool-cases, Option-cases,
}
use lumigift_lumigift.AuthSession.{decode_jwt}

-- A token under the secret, or one under the previous secret that is not older than the grace.
unfoldable pub IsGood :
    {A : Type 0} → (String → Option A) → (A → ℕ) → ℕ → ℕ → String → Option String → A → Type 0
IsGood lib issued grace now secret previous token =
    (lib secret ≡ some token)
    ⊎ ((lib secret ≡ none)
        × ((old : String) × (previous ≡ some old)
            × (old ≢ "")
            × (lib old ≡ some token)
            × (now ≤ issued token + grace)))

refused : {A : Type 0} (token : A) (o : Option A) → o ≡ none → o ≡ some token → ⊥
refused token o e h = let both : none ≡ some token = sym e ∙ h in cc

not_empty : (s : String) → s ≢ "" → (s === "") ≡ false
not_empty s ne = elim (Bool-cases (s === "")) [
  | inr given ↦ given
  | inl empty ↦ absurd (ne ((eq_iff s "").0 empty))
]

module _ {A : Type 0} (lib : String → Option A) (issued : A → ℕ) (grace now : ℕ) where
  decode_jwt-IsGood :
      (secret : String) (previous : Option String) (token : A)
      → decode_jwt lib issued (some grace) now secret previous ≡ some token
      → IsGood lib issued grace now secret previous token
  unfolding decode_jwt IsGood
  decode_jwt-IsGood secret none token h = elim (Option-cases (lib secret)) [
    | inr (t, e) ↦ inl (e ∙ (sym (rw e refl) ∙ h))
    | inl e ↦
        absurd (refused token (decode_jwt lib issued (some grace) now secret none) (rw e refl) h)
  ]
  decode_jwt-IsGood secret (some old) token h = elim (Option-cases (lib secret)) [
    | inr (t, e) ↦ inl (e ∙ (sym (rw e refl) ∙ h))
    | inl e ↦ elim (Bool-cases (old === "")) [
      | inl empty ↦ absurd (
          refused token (decode_jwt lib issued (some grace) now secret (some old))
            (rw (e, empty) refl) h)
      | inr given ↦ elim (Option-cases (lib old)) [
        | inl e' ↦ absurd (
            refused token (decode_jwt lib issued (some grace) now secret (some old))
              (rw (e, given, e') refl) h)
        | inr (t, e') ↦ elim (Bool-cases (ltb grace (now - issued t))) [
          | inl late ↦ absurd (
              refused token (decode_jwt lib issued (some grace) now secret (some old))
                (rw (e, given, e', late) refl) h)
          | inr timely ↦
              let same : some t ≡ some token = sym (rw (e, given, e', timely) refl) ∙ h in
              let this : t ≡ token = cc in
              let at : issued t ≡ issued token = ap issued this in
              inr (
                e,
                (
                  old,
                  refl,
                  (λ w. ground (arith, given, (eq_iff old "").1 w)),
                  e' ∙ same,
                  ground (arith, at),
                ),
              )
        ]
      ]
    ]
  ]

  IsGood-decode_jwt :
      (secret : String) (previous : Option String) (token : A)
      → IsGood lib issued grace now secret previous token
      → decode_jwt lib issued (some grace) now secret previous ≡ some token
  unfolding decode_jwt IsGood
  IsGood-decode_jwt secret previous token (inl e) = rw e refl
  IsGood-decode_jwt secret previous token (inr (e, (old, p, ne, e', timely))) =
      let not_late : ltb grace (now - issued token) ≡ false = ground (arith, timely) in
      let given : (old === "") ≡ false = not_empty old ne in rw (e, p, given, e', not_late) refl

  -- A cookie is decoded exactly if it is one under the secret, or if it is not and is one under the
  -- previous secret, where there is one that is not empty, and was issued no longer ago than the
  -- grace.
  pub decode_jwt_iff :
      (secret : String) (previous : Option String) (token : A)
      → (decode_jwt lib issued (some grace) now secret previous ≡ some token)
        ↔ IsGood lib issued grace now secret previous token
  decode_jwt_iff secret previous token =
      (decode_jwt-IsGood secret previous token, IsGood-decode_jwt secret previous token)
