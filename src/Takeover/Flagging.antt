-- ===== src/Takeover/Flagging.antt =====
-- Which accounts wrong passwords mark.
use lumigift_lumigift.Common.{
  ℕ, suc, ◌+◌, ◌*◌, ◌≡◌, ◌≤◌, ◌<◌, ◌⊎◌, inl, inr, refl, ap, sym, ◌∙◌, String, Bool, true, false,
  not, List, [], ◌∷◌, ◌++◌, filter, length, all, All, Option, none, some, leb, ◌==◌, ◌===◌,
  if◌then◌else◌, arith, eq_refl, Bool-cases,
}
use lumigift_lumigift.Redis.{Redis}
use lumigift_lumigift.Otp.{Outcome, result_of, verify_otp}
use lumigift_lumigift.Guards.Csrf.{Text, post, pass, with_csrf}
use lumigift_lumigift.Takeover.{
  flagged, Holder, FailedAttempt, Watch, Up, day, is_recent, find_holder, flag_holder,
  insert_failed, recent_failures, raise_alert, track_failed_otp, Desk, VerifyRequest, verified,
  verify_otp_handler, verify_otp_route,
}

-- Every statement goes through.
abbrev pub all_up : Up
all_up = record { inserts = true; counts = true; selects = true; updates = true; alerts = true }

count-append :
    (p : FailedAttempt → Bool) (fs : List FailedAttempt) (f : FailedAttempt)
    → length (filter p (fs ++ f ∷ [])) ≡ length (filter p fs) + (if p f then 1 else 0)
count-append p [] f = ground arith
count-append p (g ∷ fs) f = ground (arith, count-append p fs f)

-- Within a day from a time there are so many recent failures of the phone.
HasFailures : String → ℕ → ℕ → Watch → Type 0
HasFailures phone from n w =
    (now : ℕ) → from ≤ now → now < from + day → recent_failures now phone w ≡ n

insert_failed-HasFailures :
    (phone : String) (from n now : ℕ) (w : Watch)
    → from ≤ now
    → HasFailures phone from n w
    → HasFailures phone from (suc n) (insert_failed now phone w)
unfolding HasFailures
insert_failed-HasFailures phone from n now w le h t le' lt =
    count-append (is_recent t phone) w.failed (record { phone = phone; attempted_at = now })
    ∙ ground (arith, h t le' lt, eq_refl phone, le)

find_holder-flag_holder :
    (phone : String) (h : Holder) (hs : List Holder)
    → find_holder phone hs ≡ some h
    → find_holder phone (flag_holder h.id hs) ≡ some (record h { account_status = flagged })
unfolding find_holder
find_holder-flag_holder phone h [] e = let wrong : none ≡ some h = e in absurd cc
find_holder-flag_holder phone h (g ∷ hs) e = elim (Bool-cases (g.phone === phone)) [
  | inl this ↦
      let chosen : some g ≡ some h = sym (rw this refl) ∙ e in
      let same : g ≡ h = cc in rw⁻¹ same (rw (eq_refl g.id, this) refl)
  | inr other ↦
      let rest = find_holder-flag_holder phone h hs (sym (rw other refl) ∙ e) in
      elim (Bool-cases (g.id === h.id)) [
        | inl clash ↦ rw (clash, other) rest
        | inr apart ↦ rw (apart, other) rest
      ]
]

-- A failure that is tracked.
track-few :
    (now n : ℕ) (phone : String) (w : Watch)
    → recent_failures now phone (insert_failed now phone w) ≡ n
    → n < 3
    → (track_failed_otp all_up now phone w).0 ≡ insert_failed now phone w
unfolding track_failed_otp
track-few now n phone w e few =
    let under : leb 3 (recent_failures now phone (insert_failed now phone w)) ≡ false =
      ground (arith, e, few) in
    rw under refl

track-many :
    (now n : ℕ) (phone : String) (h : Holder) (w : Watch)
    → recent_failures now phone (insert_failed now phone w) ≡ n
    → 3 ≤ n
    → find_holder phone w.holders ≡ some h
    → ((track_failed_otp all_up now phone w).0.failed ≡ (insert_failed now phone w).failed)
      × ((track_failed_otp all_up now phone w).0.holders ≡ flag_holder h.id w.holders)
unfolding track_failed_otp raise_alert
track-many now n phone h w e many found =
    let over : leb 3 (recent_failures now phone (insert_failed now phone w)) ≡ true =
      ground (arith, e, many) in
    rw (over, found) (refl, refl)

-- Whether a failure flags the account of the phone.
Tracks : String → ℕ → Holder → Watch → Watch → Type 0
Tracks phone k h w w' =
    ((k < 3) × (w'.holders ≡ w.holders)) ⊎ ((3 ≤ k) × (w'.holders ≡ flag_holder h.id w.holders))

tracked :
    (phone : String) (from k now : ℕ) (h : Holder) (w : Watch)
    → from ≤ now
    → now < from + day
    → HasFailures phone from k w
    → find_holder phone w.holders ≡ some h
    → let w' = (track_failed_otp all_up now phone w).0 in
      HasFailures phone from (suc k) w' × Tracks phone (suc k) h w w'
unfolding HasFailures Tracks
tracked phone from k now h w begun not_over has found =
    let more = insert_failed-HasFailures phone from k now w begun has in
    elim (Bool-cases (leb 3 (suc k))) [
      | inr few ↦
          let e = track-few now (suc k) phone w (more now begun not_over) (ground (arith, few)) in
          rw e (more, inl (ground (arith, few), refl))
      | inl many ↦
          let at_least : 3 ≤ suc k = ground (arith, many) in
          let (e, e') = track-many now (suc k) phone h w (more now begun not_over) at_least found in
          (
            λ t le lt. ap (λ fs. length (filter (is_recent t phone) fs)) e ∙ more t le lt,
            inr (at_least, e'),
          )
    ]

module _ (r : Redis) (hmac : Option (Text → Text)) where
  -- A guess for the phone that reaches the handler, with the database up, within a day from a time.
  pub record IsGuess (phone : String) (from : ℕ) (q : VerifyRequest r hmac) : Type 0 where
    pub otp : String
    pub body : q.body ≡ some (phone, otp)
    pub admitted :
        with_csrf hmac
          (1000 * q.now)
          (record { method = post; header_token = q.header_token; cookie_token = q.cookie_token })
        ≡ pass
    pub up : q.up ≡ all_up
    pub begun : from ≤ q.now
    pub not_over : q.now < from + day

  -- The state after the requests, and how many were not answered with 200.
  unfoldable pub guessed : List (VerifyRequest r hmac) → Desk r hmac → Desk r hmac
  guessed [] d = d
  guessed (q ∷ qs) d = guessed qs (verify_otp_route r hmac q d).0

  unfoldable pub failures : List (VerifyRequest r hmac) → Desk r hmac → ℕ
  failures [] d = 0
  failures (q ∷ qs) d =
      let (d', status) = verify_otp_route r hmac q d in
      (if status == 200 then 0 else 1) + failures qs d'

  Watches : ℕ → String → Desk r hmac → Desk r hmac × ℕ → Type 0
  Watches now phone d (d', status) =
      (((status == 200) ≡ true) × (d'.watch ≡ d.watch))
      ⊎ (((status == 200) ≡ false) × (d'.watch ≡ (track_failed_otp all_up now phone d.watch).0))

  verified-Watches :
      (q : VerifyRequest r hmac) (phone : String) (a : Redis.State r × Outcome) (d : Desk r hmac)
      → q.up ≡ all_up
      → Watches q.now phone d (verified r hmac q phone a d)
  unfolding Watches
  verified-Watches q phone (keys', outcome) d up =
      elim (Bool-cases (result_of outcome).is_success) [
        | inl right ↦ rw right (inl (refl, refl))
        | inr wrong ↦ elim (Bool-cases (result_of outcome).locked) [
          | inl locked ↦ rw (wrong, locked, up) (inr (refl, refl))
          | inr free ↦ rw (wrong, free, up) (inr (refl, refl))
        ]
      ]

  guess-Watches :
      (q : VerifyRequest r hmac) (phone : String) (from : ℕ) (d : Desk r hmac)
      → IsGuess phone from q
      → Watches q.now phone d (verify_otp_route r hmac q d)
  unfolding verify_otp_route verify_otp_handler
  guess-Watches q phone from d g =
      rw (g.admitted, g.body)
        (verified-Watches q phone (verify_otp r q.now phone g.otp d.keys) d g.up)

  -- The account of the phone is flagged.
  abbrev pub IsFlagged : String → String → Desk r hmac → Type 0
  IsFlagged phone id d =
      (h : Holder) × (find_holder phone d.watch.holders ≡ some h)
      × (h.id ≡ id)
      × (h.account_status ≡ flagged)

  flags_from :
      (phone : String) (from k : ℕ) (h : Holder) (qs : List (VerifyRequest r hmac))
      (d : Desk r hmac)
      → All (IsGuess phone from) qs
      → HasFailures phone from k d.watch
      → find_holder phone d.watch.holders ≡ some h
      → (3 ≤ k → h.account_status ≡ flagged)
      → (k + failures qs d < 3 → (guessed qs d).watch.holders ≡ d.watch.holders)
        × (3 ≤ k + failures qs d → IsFlagged phone h.id (guessed qs d))
  unfolding guessed failures Watches HasFailures Tracks
  flags_from phone from k h [] d gs has found three =
      (λ few. refl, λ many. (h, found, refl, three (omega (arith, many))))
  flags_from phone from k h (q ∷ qs) d (g, gs) has found three =
      let a = verify_otp_route r hmac q d in
      elim (guess-Watches q phone from d g) [
        | inl (right, same) ↦
            let (few, many) =
              flags_from phone from k h qs a.0 gs
                (λ t le lt. ap (recent_failures t phone) same ∙ has t le lt)
                (ap (λ w. find_holder phone w.holders) same ∙ found) three in
            rw right (
              λ lt. few (omega (arith, lt)) ∙ ap (λ w. w.holders) same,
              λ le. many (omega (arith, le)),
            )
        | inr (wrong, same) ↦
            let (more, tracks) =
              tracked phone from k q.now h d.watch g.begun g.not_over has found in
            let more' : HasFailures phone from (suc k) a.0.watch =
              λ t le lt. ap (recent_failures t phone) same ∙ more t le lt in
            elim tracks [
              | inl (under, kept) ↦
                  let kept' = ap (λ w. w.holders) same ∙ kept in
                  let (few, many) =
                    flags_from phone from (suc k) h qs a.0 gs more'
                      (ap (find_holder phone) kept' ∙ found)
                      (λ le. absurd (omega (arith, le, under))) in
                  rw wrong (λ lt. few (omega (arith, lt)) ∙ kept', λ le. many (omega (arith, le)))
              | inr (over, marked) ↦
                  let marked' = ap (λ w. w.holders) same ∙ marked in
                  let found' =
                    ap (find_holder phone) marked'
                    ∙ find_holder-flag_holder phone h d.watch.holders found in
                  let (few, many) =
                    flags_from phone from (suc k) (record h { account_status = flagged }) qs a.0 gs
                      more' found' (λ le. refl) in
                  rw wrong (λ lt. absurd (omega (arith, lt, over)), λ le. many (omega (arith, le)))
            ]
      ]

  no-failures :
      (phone : String) (now : ℕ) (fs : List FailedAttempt)
      → all (λ f. not (f.phone === phone)) fs ≡ true
      → length (filter (is_recent now phone) fs) ≡ 0
  no-failures phone now [] h = refl
  no-failures phone now (f ∷ fs) h = ground (arith, no-failures phone now fs)

  -- Three wrong guesses flag an account: of the guesses for a phone number within a day, the ones that
  -- are not answered with 200 leave the accounts alone while they are fewer than three, and from the
  -- third on the account of the phone is flagged, whatever its status was; a suspended account no
  -- longer is one. Nothing is known of who guesses. The guesses pass the guard, the database is up,
  -- and there was no failure of the phone before.
  pub third_failure_flags :
      (phone : String) (from : ℕ) (h : Holder) (qs : List (VerifyRequest r hmac)) (d : Desk r hmac)
      → All (IsGuess phone from) qs
      → all (λ f. not (f.phone === phone)) d.watch.failed ≡ true
      → find_holder phone d.watch.holders ≡ some h
      → (failures qs d < 3 → (guessed qs d).watch.holders ≡ d.watch.holders)
        × (3 ≤ failures qs d → IsFlagged phone h.id (guessed qs d))
  unfolding HasFailures
  third_failure_flags phone from h qs d gs none_before found =
      let (few, many) =
        flags_from phone from 0 h qs d gs
          (λ t le lt. no-failures phone t d.watch.failed none_before) found
          (λ le. absurd (omega (arith, le))) in
      (λ lt. few (omega (arith, lt)), λ le. many (omega (arith, le)))
