-- ===== src/Tests/KeyStore.antt =====
-- A store of keys that answers as Redis does.
use lumigift_lumigift.Common.{
  ℕ, suc, ◌+◌, ◌-◌, ◌≤◌, ◌<◌, ◌≡◌, ◌≢◌, refl, String, Bool, true, Option, none, some, ltb, ◌==◌,
  ◌===◌, if◌then◌else◌, arith, eq_iff, eq_refl,
}
use lumigift_lumigift.Redis.{Redis}

pub record Entry : Type 0 where
  pub text : Option String
  pub amount : ℕ
  pub expires : Option ℕ

abbrev pub Keys : Type 0
Keys = String → Entry

abbrev pub empty : Entry
empty = record { text = none; amount = 0; expires = none }

abbrev pub no_keys : Keys
no_keys k = empty

abbrev pub alive : ℕ → Entry → Bool
alive t e = elim e.expires [ none ↦ true | some x ↦ ltb t x ]

abbrev pub put : String → Entry → Keys → Keys
put k e s j = if k === j then e else s j

abbrev pub get : ℕ → String → Keys → Option String
get t k s = if alive t (s k) then (s k).text else none

abbrev pub number : ℕ → String → Keys → ℕ
number t k s = if alive t (s k) then (s k).amount else 0

abbrev pub incremented : ℕ → Entry → Entry
incremented n e =
    if n == 0
    then record { text = none; amount = 1; expires = none }
    else record e { amount = n + 1 }

-- EXPIRE does nothing where there is no key.
abbrev pub extended : ℕ → ℕ → Entry → Entry
extended t n e = if alive t e then record e { expires = some (t + n) } else e

abbrev pub time_left : ℕ → Option ℕ → ℕ
time_left t none = 0
time_left t (some x) = x - t

pub put_same : (k : String) (e : Entry) (s : Keys) → put k e s k ≡ e
put_same k e s = ground (arith, eq_refl k)

pub put_other : (k j : String) (e : Entry) (s : Keys) → k ≢ j → put k e s j ≡ s j
put_other k j e s h = ground (arith, eq_iff k j)

pub get-time_left :
    (t t' : ℕ) (e : Entry)
    → 0 < time_left t e.expires
    → t + time_left t e.expires ≤ t'
    → (if alive t' e then e.text else none) ≡ none
get-time_left t t' e p h = ground arith

pub amount-incremented_new :
    (t' n : ℕ) (e : Entry)
    → n ≡ 0
    → (if alive t' (incremented n e) then (incremented n e).amount else 0) ≡ 1
amount-incremented_new t' n e h = ground arith

pub amount-incremented_old :
    (t t' n : ℕ) (e : Entry)
    → (if alive t e then e.amount else 0) ≡ suc n
    → (if alive t' e then e.amount else 0) ≡ suc n
    → (let e' = incremented (if alive t e then e.amount else 0) e in
        if alive t' e' then e'.amount else 0)
      ≡ suc (suc n)
amount-incremented_old t t' n e h h' = ground arith

pub amount-extended :
    (t t' n : ℕ) (e : Entry)
    → t ≤ t'
    → t' < t + n
    → (if alive t' (extended t n e) then (extended t n e).amount else 0)
      ≡ (if alive t e then e.amount else 0)
amount-extended t t' n e h l = ground arith

abbrev pub key_store : Redis
key_store = record {
  State = Keys;
  get = get;
  number = number;
  set_ex = λ t k v n. put k (record { text = some v; amount = 0; expires = some (t + n) });
  del = λ t k. put k empty;
  incr = λ t k s. put k (incremented (number t k s) (s k)) s;
  incr_reply = λ t k s. number t k s + 1;
  expire = λ t k n s. put k (extended t n (s k)) s;
  ttl = λ t k s. time_left t (s k).expires;
  get-set_ex = λ t t' n k v s h. rw (put_same k _ s) refl;
  get-del = λ t t' k s h. rw (put_same k _ s) refl;
  number-del = λ t t' k s h. rw (put_same k _ s) refl;
  get-ttl = λ t t' k s p h. get-time_left t t' (s k) p h;
  incr_reply-number = λ t k s. refl;
  number-incr_new = λ t t' k s h e.
      rw (put_same k (incremented (number t k s) (s k)) s)
        (amount-incremented_new t' (number t k s) (s k) e);
  number-incr_old = λ t t' n k s h e e'.
      rw (put_same k (incremented (number t k s) (s k)) s)
        (amount-incremented_old t t' n (s k) e e');
  number-expire =
      λ t t' n k s h l. rw (put_same k (extended t n (s k)) s) (amount-extended t t' n (s k) h l);
  get-set_ex_ne = λ t t' n j k v s h ne. rw (put_other j k _ s ne) refl;
  get-del_ne = λ t t' j k s h ne. rw (put_other j k _ s ne) refl;
  get-incr_ne = λ t t' j k s h ne. rw (put_other j k _ s ne) refl;
  get-expire_ne = λ t t' n j k s h ne. rw (put_other j k _ s ne) refl;
  number-set_ex_ne = λ t t' n j k v s h ne. rw (put_other j k _ s ne) refl;
  number-del_ne = λ t t' j k s h ne. rw (put_other j k _ s ne) refl;
  number-incr_ne = λ t t' j k s h ne. rw (put_other j k _ s ne) refl;
  number-expire_ne = λ t t' n j k s h ne. rw (put_other j k _ s ne) refl;
}
