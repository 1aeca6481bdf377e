-- ===== src/Guards/Csrf/Admission.antt =====
-- Which requests `withCsrf` lets through to a handler.
use lumigift_lumigift.Common.{
  ℕ, ◌≡◌, refl, ap, sym, inl, inr, true, false, ◌&&◌, List, [], ◌∷◌, Option, none, some, arith,
  Bool-cases,
}
use lumigift_lumigift.Guards.Csrf.{
  Text, is_mutation, Request, pass, given, same_text, verify_hmac, verify_parts, dot, split_on,
  verify_csrf_token, compare_tokens, with_csrf,
}
use lumigift_lumigift.Guards.Csrf.Tokens.{
  IsHex, IsAuthentic, same_text→≡, verify_csrf_token-IsAuthentic,
}

-- A request that carries one token, authentic under the configured secret, in its header and in its
-- cookie.
pub record Admitted (hmac : Option (Text → Text)) (now : ℕ) (req : Request) : Type 0 where
  pub token : Text
  pub key : Text → Text
  pub configured : hmac ≡ some key
  pub in_header : req.header_token ≡ some token
  pub in_cookie : req.cookie_token ≡ some token
  pub authentic : IsAuthentic key now token

given-some : (o : Option Text) (t : Text) → given o ≡ some t → o ≡ some t
given-some none t h = h
given-some (some []) t h = cc
given-some (some (c ∷ s)) t h = h

compare_tokens-pass :
    (hmac : Option (Text → Text)) (now : ℕ) (header cookie : Option Text)
    → compare_tokens hmac now header cookie ≡ pass
    → (t : Text) × (header ≡ some t) × (cookie ≡ some t) × (verify_csrf_token hmac now t ≡ true)
unfolding compare_tokens
compare_tokens-pass hmac now none cookie h = cc
compare_tokens-pass hmac now (some t) none h = cc
compare_tokens-pass hmac now (some t) (some u) h =
    elim (Bool-cases (same_text t u && verify_csrf_token hmac now t)) [
      | inl accepted ↦
          let same : t ≡ u = same_text→≡ t u (ground arith) in
          (t, refl, ap some (sym same), ground arith)
      | inr refused ↦ absurd (ground arith)
    ]

verify_parts-unconfigured : (now : ℕ) (ps : List Text) → verify_parts none now ps ≡ false
unfolding verify_parts verify_hmac
verify_parts-unconfigured now [] = refl
verify_parts-unconfigured now (a ∷ []) = refl
verify_parts-unconfigured now (a ∷ b ∷ []) = refl
verify_parts-unconfigured now (a ∷ b ∷ c ∷ []) = ground arith
verify_parts-unconfigured now (a ∷ b ∷ c ∷ d ∷ ps) = refl

unconfigured : (now : ℕ) (t : Text) → verify_csrf_token none now t ≡ false
unfolding verify_csrf_token
unconfigured now t = verify_parts-unconfigured now (split_on dot t)

with_key :
    (hmac : Option (Text → Text)) (now : ℕ) (t : Text)
    → verify_csrf_token hmac now t ≡ true
    → (key : Text → Text) × (hmac ≡ some key) × (verify_csrf_token (some key) now t ≡ true)
with_key none now t h = absurd (ground (arith, unconfigured now t))
with_key (some key) now t h = (key, refl, h)

pub with_csrf-Admitted :
    (hmac : Option (Text → Text)) (now : ℕ) (req : Request)
    → ((key : Text → Text) → hmac ≡ some key → (m : Text) → IsHex (key m))
    → is_mutation req.method ≡ true
    → with_csrf hmac now req ≡ pass
    → Admitted hmac now req
unfolding with_csrf
with_csrf-Admitted hmac now req hex mutation h =
    let compared : compare_tokens hmac now (given req.header_token) (given req.cookie_token)
        ≡ pass =
      ground arith in
    let (t, header, cookie, verified) =
      compare_tokens-pass hmac now (given req.header_token) (given req.cookie_token) compared in
    let (key, configured, authentic) = with_key hmac now t verified in
    record {
      token = t;
      key = key;
      configured = configured;
      in_header = given-some req.header_token t header;
      in_cookie = given-some req.cookie_token t cookie;
      authentic = verify_csrf_token-IsAuthentic key now t (hex key configured) authentic;
    }
