-- ===== src/Phone/Normal.antt =====
-- What `normalizePhone` returns.
use lumigift_lumigift.Common.{
  is_digit, ℕ, ◌≤◌, ◌≡◌, ◌≢◌, refl, ap, sym, subst, ◌∙◌, inl, inr, true, List, [], ◌∷◌, ◌++◌, none,
  some, arith, length, filter, all, All, Option-cases,
}
use lumigift_lumigift.Phone.{nigeria, is_e164, is_mobile, candidate, checked, normalize_phone}

-- A number in E.164 form: a plus, a digit that is not 0, and 9 to 14 more digits.
pub data IsE164 : List ℕ → Type 0 where
  number :
      (d : ℕ) (ds : List ℕ)
      → b'1' ≤ d
      → d ≤ b'9'
      → All (λ c. (b'0' ≤ c) × (c ≤ b'9')) ds
      → 9 ≤ length ds
      → length ds ≤ 14
      → IsE164 (b'+' ∷ d ∷ ds)

all-digits : (ds : List ℕ) → all is_digit ds ≡ true → All (λ c. (b'0' ≤ c) × (c ≤ b'9')) ds
all-digits [] h = tt
all-digits (d ∷ ds) h = (ground arith, all-digits ds (ground arith))

is_e164-IsE164 : (s : List ℕ) → is_e164 s ≡ true → IsE164 s
is_e164-IsE164 [] h = cc
is_e164-IsE164 (p ∷ []) h = cc
is_e164-IsE164 (p ∷ d ∷ ds) h =
    let e : p ≡ b'+' = ground arith in
    rw e (
      number d ds (ground arith) (ground arith) (all-digits ds (ground arith)) (ground arith)
        (ground arith))

checked-e164 : (s e : List ℕ) → checked s ≡ some e → (s ≡ e) × (is_e164 s ≡ true)
checked-e164 s e h = ground arith

none-ne-some : {A : Type 0} {a : A} → some a ≢ none
none-ne-some e = cc

-- A returned number is the candidate, and passed the checks.
normalize_phone-candidate :
    (raw e : List ℕ)
    → normalize_phone raw ≡ some e
    → (candidate raw (filter is_digit raw) ≡ some e) × (checked e ≡ some e)
unfolding normalize_phone
normalize_phone-candidate raw e h = elim (Option-cases (candidate raw (filter is_digit raw))) [
  | inl missing ↦ absurd (none-ne-some (sym (rw (missing, normalize_phone) at h)))
  | inr (c, found) ↦
      let passed : checked c ≡ some e = rw (found, normalize_phone) at h in
      let same : c ≡ e = (checked-e164 c e passed).0 in (found ∙ ap some same, rw same at passed)
]

-- Every number that is returned is in E.164 form.
pub normalize_phone-IsE164 : (raw e : List ℕ) → normalize_phone raw ≡ some e → IsE164 e
normalize_phone-IsE164 raw e h =
    is_e164-IsE164 e (checked-e164 e e (normalize_phone-candidate raw e h).1).1

filter-digits : (ds : List ℕ) → all is_digit ds ≡ true → filter is_digit ds ≡ ds
filter-digits [] h = refl
filter-digits (d ∷ ds) h = ground (arith, filter-digits ds)

candidate-length :
    (raw digits e : List ℕ) → candidate raw digits ≡ some e → is_e164 e ≡ true → length e ≢ 11
candidate-length raw [] e h v l = ground arith
candidate-length raw (d ∷ ds) e h v l = ground arith

candidate-plain :
    (d : ℕ) (ds : List ℕ)
    → is_e164 (b'+' ∷ d ∷ ds) ≡ true
    → length ds ≢ 9
    → candidate (b'+' ∷ d ∷ ds) (d ∷ ds) ≡ some (b'+' ∷ d ∷ ds)
candidate-plain d ds v l = ground arith

e164-digits :
    (d : ℕ) (ds : List ℕ)
    → is_e164 (b'+' ∷ d ∷ ds) ≡ true
    → filter is_digit (b'+' ∷ d ∷ ds) ≡ d ∷ ds
e164-digits d ds v = ground (arith, filter-digits ds)

-- A normal form from its candidate.
normalize_phone-of :
    (raw digits e : List ℕ)
    → filter is_digit raw ≡ digits
    → candidate raw digits ≡ some e
    → normalize_phone raw ≡ checked e
unfolding normalize_phone
normalize_phone-of raw digits e f c = rw (ap (candidate raw) f ∙ c, normalize_phone) refl

idempotent_from :
    (e : List ℕ)
    → checked e ≡ some e
    → is_e164 e ≡ true
    → length e ≢ 11
    → normalize_phone e ≡ some e
idempotent_from [] c v l = cc
idempotent_from (p ∷ []) c v l = cc
idempotent_from (p ∷ d ∷ ds) c v l =
    let plus : p ≡ b'+' = ground arith in
    let v' : is_e164 (b'+' ∷ d ∷ ds) ≡ true = subst (λ q. is_e164 (q ∷ d ∷ ds) ≡ true) plus v in
    let c' : checked (b'+' ∷ d ∷ ds) ≡ some (b'+' ∷ d ∷ ds) =
      subst (λ q. checked (q ∷ d ∷ ds) ≡ some (q ∷ d ∷ ds)) plus c in
    subst (λ q. normalize_phone (q ∷ d ∷ ds) ≡ some (q ∷ d ∷ ds)) (sym plus)
      (normalize_phone-of _ (d ∷ ds) _ (e164-digits d ds v')
          (candidate-plain d ds v' (ground arith))
        ∙ c')

-- Normalising a number that was returned gives it back.
pub normalize_phone_idempotent :
    (raw e : List ℕ) → normalize_phone raw ≡ some e → normalize_phone e ≡ some e
normalize_phone_idempotent raw e h =
    let (found, passed) = normalize_phone-candidate raw e h in
    let valid = (checked-e164 e e passed).1 in
    idempotent_from e passed valid (candidate-length raw (filter is_digit raw) e found valid)

-- A Nigerian mobile number, as its ten digits after the country code.
pub record IsMobile (s : List ℕ) : Type 0 where
  pub ten : length s ≡ 10
  pub digits : all is_digit s ≡ true
  pub network : is_mobile s ≡ true

passed : (s : List ℕ) → IsMobile s → checked (b'+' ∷ (nigeria ++ s)) ≡ some (b'+' ∷ (nigeria ++ s))
passed s m = ground (arith, m.ten, m.digits, m.network)

-- The four spellings of a Nigerian mobile number have one normal form: ten digits, of a prefix that is
-- accepted as mobile, are read as +234 and these digits, whether +234, 234, 0 or nothing stands before
-- them.
pub normalize_phone_spellings :
    (s : List ℕ)
    → IsMobile s
    → let e = b'+' ∷ (nigeria ++ s) in
      (normalize_phone e ≡ some e)
      × (normalize_phone (nigeria ++ s) ≡ some e)
      × (normalize_phone (b'0' ∷ s) ≡ some e)
      × (normalize_phone s ≡ some e)
normalize_phone_spellings [] m = absurd (omega (arith, m.ten))
normalize_phone_spellings (d ∷ ds) m = (
  normalize_phone-of _ (nigeria ++ s) e (ap (λ t. nigeria ++ t) f) (ground (arith, m.ten)) ∙ c,
  normalize_phone-of _ (nigeria ++ s) e (ap (λ t. nigeria ++ t) f) (ground (arith, m.ten)) ∙ c,
  normalize_phone-of _ (b'0' ∷ s) e (ap (λ t. b'0' ∷ t) f) (ground (arith, m.ten)) ∙ c,
  normalize_phone-of _ s e f (ground (arith, m.ten, m.network)) ∙ c,
)
  where
    s : List ℕ
    s = d ∷ ds

    e : List ℕ
    e = b'+' ∷ (nigeria ++ s)

    f : filter is_digit s ≡ s
    f = filter-digits s m.digits

    c : checked e ≡ some e
    c = passed s m

ten_digits-candidate :
    (c : ℕ) (ds e : List ℕ)
    → length (c ∷ ds) ≡ 10
    → candidate (b'+' ∷ c ∷ ds) (c ∷ ds) ≡ some e
    → is_e164 e ≡ true
    → e ≡ b'+' ∷ (nigeria ++ c ∷ ds)
ten_digits-candidate c ds e l h v = ground arith

-- A number with a plus and exactly ten digits is never passed through: where it is accepted at all,
-- it is turned into a Nigerian number.
pub ten_digits_rewritten :
    (ds e : List ℕ)
    → all is_digit ds ≡ true
    → length ds ≡ 10
    → normalize_phone (b'+' ∷ ds) ≡ some e
    → (e ≡ b'+' ∷ (nigeria ++ ds)) × (e ≢ b'+' ∷ ds)
ten_digits_rewritten [] e d l h = absurd (omega arith)
ten_digits_rewritten (c ∷ ds) e d l h =
    let (found, passed) = normalize_phone-candidate (b'+' ∷ c ∷ ds) e h in
    let valid : is_e164 e ≡ true = (checked-e164 e e passed).1 in
    let built : candidate (b'+' ∷ c ∷ ds) (c ∷ ds) ≡ some e =
      ap (candidate (b'+' ∷ c ∷ ds)) (sym (filter-digits (c ∷ ds) d)) ∙ found in
    (
      ten_digits-candidate c ds e l built valid,
      λ same.
          candidate-length (b'+' ∷ c ∷ ds) (c ∷ ds) e built valid (ap length same ∙ omega arith),
    )
