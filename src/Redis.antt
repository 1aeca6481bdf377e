-- ===== src/Redis.antt =====
-- What the code relies on of Redis: the commands it sends, at times in seconds, and what their
-- documentation says of them. A key holds a text or, where only INCR writes it, a number.
use lumigift_lumigift.Common.{
  ℕ, suc, ◌+◌, ◌≤◌, ◌<◌, ◌≡◌, ◌≢◌, String, Option, none, some, ltb, if◌then◌else◌,
}

pub record Redis : Type 1 where
  pub State : Type 0
  -- GET, and the number that a counter holds, 0 where there is no such key.
  pub get : ℕ → String → State → Option String
  pub number : ℕ → String → State → ℕ
  -- SET with EX, DEL, INCR with its reply, EXPIRE, and TTL with 0 for its negative replies.
  pub set_ex : ℕ → String → String → ℕ → State → State
  pub del : ℕ → String → State → State
  pub incr : ℕ → String → State → State
  pub incr_reply : ℕ → String → State → ℕ
  pub expire : ℕ → String → ℕ → State → State
  pub ttl : ℕ → String → State → ℕ
  -- A text is there until it expires.
  pub get-set_ex :
      (t t' n : ℕ) (k v : String) (s : State)
      → t ≤ t'
      → get t' k (set_ex t k v n s) ≡ (if ltb t' (t + n) then some v else none)
  pub get-del : (t t' : ℕ) (k : String) (s : State) → t ≤ t' → get t' k (del t k s) ≡ none
  pub number-del : (t t' : ℕ) (k : String) (s : State) → t ≤ t' → number t' k (del t k s) ≡ 0
  -- A positive TTL is the time after which the key is gone.
  pub get-ttl :
      (t t' : ℕ) (k : String) (s : State) → 0 < ttl t k s → t + ttl t k s ≤ t' → get t' k s ≡ none
  -- INCR creates a counter that does not expire, or keeps the time to live of the one that is there.
  pub incr_reply-number : (t : ℕ) (k : String) (s : State) → incr_reply t k s ≡ number t k s + 1
  pub number-incr_new :
      (t t' : ℕ) (k : String) (s : State) → t ≤ t' → number t k s ≡ 0 → number t' k (incr t k s) ≡ 1
  pub number-incr_old :
      (t t' n : ℕ) (k : String) (s : State)
      → t ≤ t'
      → number t k s ≡ suc n
      → number t' k s ≡ suc n
      → number t' k (incr t k s) ≡ suc (suc n)
  -- EXPIRE keeps the number until the new time to live is over.
  pub number-expire :
      (t t' n : ℕ) (k : String) (s : State)
      → t ≤ t'
      → t' < t + n
      → number t' k (expire t k n s) ≡ number t k s
  -- A command on one key leaves the others alone.
  pub get-set_ex_ne :
      (t t' n : ℕ) (j k v : String) (s : State)
      → t ≤ t'
      → j ≢ k
      → get t' k (set_ex t j v n s) ≡ get t' k s
  pub get-del_ne :
      (t t' : ℕ) (j k : String) (s : State) → t ≤ t' → j ≢ k → get t' k (del t j s) ≡ get t' k s
  pub get-incr_ne :
      (t t' : ℕ) (j k : String) (s : State) → t ≤ t' → j ≢ k → get t' k (incr t j s) ≡ get t' k s
  pub get-expire_ne :
      (t t' n : ℕ) (j k : String) (s : State)
      → t ≤ t'
      → j ≢ k
      → get t' k (expire t j n s) ≡ get t' k s
  pub number-set_ex_ne :
      (t t' n : ℕ) (j k v : String) (s : State)
      → t ≤ t'
      → j ≢ k
      → number t' k (set_ex t j v n s) ≡ number t' k s
  pub number-del_ne :
      (t t' : ℕ) (j k : String) (s : State)
      → t ≤ t'
      → j ≢ k
      → number t' k (del t j s) ≡ number t' k s
  pub number-incr_ne :
      (t t' : ℕ) (j k : String) (s : State)
      → t ≤ t'
      → j ≢ k
      → number t' k (incr t j s) ≡ number t' k s
  pub number-expire_ne :
      (t t' n : ℕ) (j k : String) (s : State)
      → t ≤ t'
      → j ≢ k
      → number t' k (expire t j n s) ≡ number t' k s
