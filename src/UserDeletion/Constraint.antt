-- ===== src/UserDeletion/Constraint.antt =====
-- Why the row of a user cannot be erased.
use lumigift_lumigift.Common.{
  ℕ, ◌≡◌, refl, ap, ◌∙◌, inl, inr, String, Bool, true, false, not, ◌&&◌, List, [], ◌∷◌, ◌++◌,
  Option, Result, ok, err, any, ◌===◌, arith, Bool-cases,
}
use Prim.Native.Char.{code}
use Prim.Native.String.append
use Prim.Native.String.{[] as empty, ◌∷◌ as ◌∷ₛ◌, ◌++◌ as concat}
use lumigift_lumigift.Phone.{is_e164}
use lumigift_lumigift.UserDeletion.{
  codes, User, Tables, Database, DeletionError, statement_failed, check_violation, settle_deletion,
  insert_request, anonymize_gifts, delete_devices, delete_invitations, anonymous_user,
  anonymize_user, erase, delete_user_data,
}

pub codes-append : (s t : String) → codes (concat s t) ≡ codes s ++ codes t
unfolding codes
codes-append empty t = ap codes (append.nil t)
codes-append (c ∷ₛ s) t = ap codes (append.cons c s t) ∙ ap (λ l. code c ∷ l) (codes-append s t)

deleted-not_e164 : (s : String) → is_e164 (codes (concat "deleted-" s)) ≡ false
unfolding codes
deleted-not_e164 s = ap is_e164 (codes-append "deleted-" s)

-- No new row of the user meets the constraint.
any-violation :
    (now : ℕ) (user : String) (us : List User)
    → any (λ u. u.id === user) us ≡ true
    → any (λ u. (u.id === user) && not (is_e164 (codes (anonymous_user now u).phone))) us ≡ true
unfolding anonymous_user
any-violation now user [] h = absurd (ground arith)
any-violation now user (u ∷ us) h =
    let bad : is_e164 (codes (concat "deleted-" u.id)) ≡ false = deleted-not_e164 u.id in
    elim (Bool-cases (u.id === user)) [
      | inl here ↦ rw (here, bad) refl
      | inr there ↦ rw there (any-violation now user us (ground arith))
    ]

anonymize_user-violation :
    (goes : Bool) (now : ℕ) (user : String) (t : Tables)
    → any (λ u. u.id === user) t.users ≡ true
    → anonymize_user goes now user t ≡ (t, err check_violation)
unfolding anonymize_user
anonymize_user-violation goes now user t h = rw (any-violation now user t.users h) refl

-- The first statement that does not go through, or the UPDATE of the row.
erase-refused :
    (db : Database) (now : ℕ) (request_id user : String) (ip : Option String) (t : Tables)
    → any (λ u. u.id === user) t.users ≡ true
    → (e : DeletionError) × ((erase db now request_id user ip t).1 ≡ err e)
unfolding erase
erase-refused db now request_id user ip t h =
    let reached =
      delete_invitations user
        (delete_devices user (anonymize_gifts now user (insert_request request_id user ip t))) in
    elim (Bool-cases db.inserts) [
      | inr a ↦ (statement_failed, rw a refl)
      | inl a ↦ elim (Bool-cases db.updates_gifts) [
        | inr b ↦ (statement_failed, rw (a, b) refl)
        | inl b ↦ elim (Bool-cases db.deletes_devices) [
          | inr c ↦ (statement_failed, rw (a, b, c) refl)
          | inl c ↦ elim (Bool-cases db.deletes_invitations) [
            | inr d ↦ (statement_failed, rw (a, b, c, d) refl)
            | inl d ↦ (
              check_violation,
              rw (a, b, c, d, anonymize_user-violation db.updates_user now user reached h) refl,
            )
          ]
        ]
      ]
    ]

settle_deletion-err :
    (db : Database) (user : String) (ip : Option String) (t : Tables)
    (r : Tables × Result DeletionError String) (e : DeletionError)
    → r.1 ≡ err e
    → settle_deletion db user ip t r ≡ (t, err e)
settle_deletion-err db user ip t (t', ok request_id) e h = cc
settle_deletion-err db user ip t (t', err e') e h = ap (λ x. (t, x)) h

-- A user who has a row in `users` cannot be erased: whatever the database does with the statements,
-- the function throws and every table is as before, because the text that is written into `phone`
-- violates the constraint of the column.
pub delete_user_data-refused :
    (db : Database) (now : ℕ) (request_id user : String) (ip : Option String) (t : Tables)
    → any (λ u. u.id === user) t.users ≡ true
    → (e : DeletionError) × (delete_user_data db now request_id user ip t ≡ (t, err e))
unfolding delete_user_data
delete_user_data-refused db now request_id user ip t h =
    elim (Bool-cases (db.connects && db.begins)) [
      | inr refused ↦ (statement_failed, rw refused refl)
      | inl started ↦
          let (e, failed) = erase-refused db now request_id user ip t h in
          (e, rw started (settle_deletion-err db user ip t _ e failed))
    ]
