-- ===== src/Guards/Csrf/Tokens.antt =====
-- Which tokens are accepted.
use lumigift_lumigift.Common.{
  ℕ, ◌-◌, ◌≡◌, ◌≢◌, refl, ap, sym, ◌∙◌, subst, inl, inr, Bool, true, false, not, ◌&&◌, ◌||◌, List,
  [], ◌∷◌, ◌++◌, some, leb, ◌==◌, length, all, arith, Bool-cases, is_digit, read_digits, decimal,
  read_digits-decimal, all-decimal, decimal-ne-nil,
}
use mathlib.Core.List.{append_assoc}
use lumigift_lumigift.Guards.Csrf.{
  Text, dot, token_ttl_ms, generate_csrf_token, split_on, parse_int, is_stale, pad_end, same_text,
  verify_hmac, verify_parts, verify_csrf_token,
}

-- A text of lower-case hexadecimal digits.
abbrev is_hex : ℕ → Bool
is_hex c = is_digit c || (leb b'a' c && leb c b'f')

abbrev pub IsHex : Text → Type 0
IsHex s = all is_hex s ≡ true

abbrev is_plain : ℕ → Bool
is_plain c = not (c == dot)

hex-plain : (s : Text) → IsHex s → all is_plain s ≡ true
hex-plain [] h = refl
hex-plain (c ∷ s) h = ground (arith, hex-plain s)

digits-plain : (s : Text) → all is_digit s ≡ true → all is_plain s ≡ true
digits-plain [] h = refl
digits-plain (c ∷ s) h = ground (arith, digits-plain s)

split_on-plain : (s : Text) → all is_plain s ≡ true → split_on dot s ≡ s ∷ []
unfolding split_on
split_on-plain [] h = refl
split_on-plain (c ∷ s) h = ground (arith, split_on-plain s)

split_on-append :
    (s t : Text) → all is_plain s ≡ true → split_on dot (s ++ dot ∷ t) ≡ s ∷ split_on dot t
unfolding split_on
split_on-append [] t h = ground arith
split_on-append (c ∷ s) t h = ground (arith, split_on-append s t)

join : List Text → Text
join [] = []
join (p ∷ []) = p
join (p ∷ q ∷ ps) = p ++ dot ∷ join (q ∷ ps)

split_on-cons : (s : Text) → (p : Text) × ((ps : List Text) × (split_on dot s ≡ p ∷ ps))
unfolding split_on
split_on-cons [] = ([], ([], refl))
split_on-cons (c ∷ s) = elim (Bool-cases (c == dot)) [
  | inl cut ↦ ([], (split_on dot s, ground arith))
  | inr plain ↦ let (p, (ps, e)) = split_on-cons s in (c ∷ p, (ps, ground arith))
]

join-prepend : (c : ℕ) (p : Text) (ps : List Text) → join ((c ∷ p) ∷ ps) ≡ c ∷ join (p ∷ ps)
unfolding join
join-prepend c p [] = refl
join-prepend c p (q ∷ ps) = refl

join-split_on : (s : Text) → join (split_on dot s) ≡ s
unfolding split_on join
join-split_on [] = refl
join-split_on (c ∷ s) =
    let (p, (ps, e)) = split_on-cons s in
    let ih = join-split_on s in
    elim (Bool-cases (c == dot)) [
      | inl cut ↦ ground (arith, e, ih)
      | inr plain ↦ ground (arith, e, ih, join-prepend c p ps)
    ]

pub same_text→≡ : (s t : Text) → same_text s t ≡ true → s ≡ t
unfolding same_text
same_text→≡ [] [] h = refl
same_text→≡ [] (d ∷ t) h = cc
same_text→≡ (c ∷ s) [] h = cc
same_text→≡ (c ∷ s) (d ∷ t) h = ground (arith, same_text→≡ s t)

pub same_text_refl : (s : Text) → same_text s s ≡ true
unfolding same_text
same_text_refl [] = refl
same_text_refl (c ∷ s) = ground (arith, same_text_refl s)

-- A padded text that is a hexadecimal one was not padded.
pad_end-hex : (p e : Text) → IsHex e → pad_end (length e) p ≡ e → p ≡ e
unfolding pad_end
pad_end-hex p [] h same = same
pad_end-hex [] (d ∷ e) h same = ground arith
pad_end-hex (c ∷ p) (d ∷ e) h same = ground (arith, pad_end-hex p e)

pad_end-length : (e : Text) → pad_end (length e) e ≡ e
unfolding pad_end
pad_end-length [] = refl
pad_end-length (c ∷ e) = ap (λ t. c ∷ t) (pad_end-length e)

parse_int-digits :
    (c : ℕ) (s : Text)
    → all is_digit (c ∷ s) ≡ true
    → parse_int (c ∷ s) ≡ some (false, read_digits (c ∷ s) 0)
unfolding parse_int
parse_int-digits c s h = ground arith

parse_int-read :
    (t : Text) (n : ℕ)
    → all is_digit t ≡ true
    → t ≢ []
    → read_digits t 0 ≡ n
    → parse_int t ≡ some (false, n)
parse_int-read [] n d filled h = absurd (filled refl)
parse_int-read (c ∷ t) n d filled h = parse_int-digits c t d ∙ ap (λ m. some (false, m)) h

parse_int-decimal : (n : ℕ) → parse_int (decimal n) ≡ some (false, n)
parse_int-decimal n =
    parse_int-read (decimal n) n (all-decimal n) (decimal-ne-nil n) (read_digits-decimal n)

-- A token that is generated is accepted until 24 hours have passed, and no longer: the timestamp
-- that was printed is the one that is read back. Nonces and HMACs are hexadecimal.
pub verify_csrf_token-generate_csrf_token :
    (hmac : Text → Text) (issued now : ℕ) (nonce : Text)
    → IsHex nonce
    → ((m : Text) → IsHex (hmac m))
    → verify_csrf_token (some hmac) now (generate_csrf_token hmac issued nonce)
      ≡ leb (now - issued) token_ttl_ms
unfolding verify_csrf_token generate_csrf_token verify_parts verify_hmac is_stale
verify_csrf_token-generate_csrf_token hmac issued now nonce hn hh =
    let signed : Text = nonce ++ dot ∷ decimal issued in
    let parts : split_on dot (generate_csrf_token hmac issued nonce)
        ≡ nonce ∷ decimal issued ∷ hmac signed ∷ [] =
      ap (split_on dot) (append_assoc nonce (dot ∷ decimal issued) (dot ∷ hmac signed))
      ∙ split_on-append nonce (decimal issued ++ dot ∷ hmac signed) (hex-plain nonce hn)
      ∙ ap (λ t. nonce ∷ t)
          (split_on-append (decimal issued) (hmac signed)
              (digits-plain (decimal issued) (all-decimal issued))
            ∙ ap (λ t. decimal issued ∷ t)
                (split_on-plain (hmac signed) (hex-plain (hmac signed) (hh signed)))) in
    let same : same_text (pad_end (length (hmac signed)) (hmac signed)) (hmac signed) ≡ true =
      rw (pad_end-length (hmac signed)) (same_text_refl (hmac signed)) in
    rw parts (ground (arith, parse_int-decimal issued, same))

-- What an accepted token is: a nonce, a timestamp that is not stale, and the HMAC of the two.
pub record IsAuthentic (hmac : Text → Text) (now : ℕ) (token : Text) : Type 0 where
  pub nonce : Text
  pub timestamp : Text
  pub recent : is_stale now (parse_int timestamp) ≡ false
  pub signed : token ≡ (nonce ++ (dot ∷ timestamp)) ++ (dot ∷ hmac (nonce ++ (dot ∷ timestamp)))

verify_hmac→≡ :
    (hmac : Text → Text) (m provided : Text)
    → IsHex (hmac m)
    → verify_hmac (some hmac) m provided ≡ true
    → provided ≡ hmac m
unfolding verify_hmac
verify_hmac→≡ hmac m provided hex h = pad_end-hex provided (hmac m) hex (same_text→≡ _ (hmac m) h)

verify_parts-IsAuthentic :
    (hmac : Text → Text) (now : ℕ) (ps : List Text)
    → ((m : Text) → IsHex (hmac m))
    → verify_parts (some hmac) now ps ≡ true
    → IsAuthentic hmac now (join ps)
unfolding verify_parts join
verify_parts-IsAuthentic hmac now [] hh h = cc
verify_parts-IsAuthentic hmac now (a ∷ []) hh h = cc
verify_parts-IsAuthentic hmac now (a ∷ b ∷ []) hh h = cc
verify_parts-IsAuthentic hmac now (a ∷ b ∷ c ∷ d ∷ ps) hh h = cc
verify_parts-IsAuthentic hmac now (a ∷ b ∷ c ∷ []) hh h =
    elim (Bool-cases (is_stale now (parse_int b))) [
      | inl stale ↦ absurd (ground arith)
      | inr fresh ↦
          let checked : verify_hmac (some hmac) (a ++ (dot ∷ b)) c ≡ true = ground arith in
          record {
            nonce = a;
            timestamp = b;
            recent = fresh;
            signed =
                ap (λ t. a ++ (dot ∷ (b ++ (dot ∷ t))))
                  (verify_hmac→≡ hmac (a ++ (dot ∷ b)) c (hh _) checked)
                ∙ sym (append_assoc a (dot ∷ b) (dot ∷ hmac (a ++ (dot ∷ b))));
          }
    ]

pub verify_csrf_token-IsAuthentic :
    (hmac : Text → Text) (now : ℕ) (token : Text)
    → ((m : Text) → IsHex (hmac m))
    → verify_csrf_token (some hmac) now token ≡ true
    → IsAuthentic hmac now token
unfolding verify_csrf_token
verify_csrf_token-IsAuthentic hmac now token hh h =
    subst (IsAuthentic hmac now) (join-split_on token)
      (verify_parts-IsAuthentic hmac now (split_on dot token) hh h)
