-- ===== src/Common/Results.antt =====
-- Results of code that may throw, and code that changes a state before it returns or throws: what
-- was written before a `throw` stays written.
use mathlib.Core.Bool.{Bool, true, false}

pub data Result (E A : Type 0) : Type 0 where
  ok : A → Result E A
  err : E → Result E A

-- An action over the state W: the state afterwards, with a result or an error.
abbrev pub Action : Type 0 → Type 0 → Type 0 → Type 0
Action W E A = W → W × Result E A

abbrev pub continue : {W E A B : Type 0} → W × Result E A → (A → Action W E B) → W × Result E B
continue (w, ok a) k = k a w
continue (w, err e) k = (w, err e)

infixl 5 ◌>>=◌ ◌>>◌
abbrev pub ◌>>=◌ : {W E A B : Type 0} → Action W E A → (A → Action W E B) → Action W E B
◌>>=◌ m k w = continue (m w) k

abbrev pub ◌>>◌ : {W E A B : Type 0} → Action W E A → Action W E B → Action W E B
m >> k = m >>= λ _. k

abbrev pub return : {W E A : Type 0} → A → Action W E A
return a w = (w, ok a)

abbrev pub throw : {W E A : Type 0} → E → Action W E A
throw e w = (w, err e)

-- `throw` unless the test holds.
abbrev pub require : {W E : Type 0} → Bool → E → Action W E (Unit {0})
require true e w = (w, ok tt)
require false e w = (w, err e)
