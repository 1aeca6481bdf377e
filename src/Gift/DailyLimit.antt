-- ===== src/Gift/DailyLimit.antt =====
-- What a new gift adds to what its sender has sent in a day, and the calls of createGift that go
-- through.
use lumigift_lumigift.Common.{
  ℕ, ◌+◌, ◌≤◌, ◌≡◌, inl, inr, String, Bool, ◌&&◌, [], ◌∷◌, Option, if◌then◌else◌, leb, ◌===◌, arith,
  Bool-cases,
}
use lumigift_lumigift.Common.Dict.{Dict, set, values}
use lumigift_lumigift.Gift.Defs.{Gift, Env}
use lumigift_lumigift.Gift.Create.{CreateGiftInput, Answers, sent_since}

abbrev amount_from : ℕ → String → Gift → ℕ
amount_from start sender_id g =
    if (g.sender_id === sender_id) && leb start g.created_at then g.amount_ngn else 0

sent_since-cons :
    (start : ℕ) (sender_id k : String) (g : Gift) (d : Dict Gift)
    → sent_since start sender_id ((k, g) ∷ d)
      ≡ amount_from start sender_id g + sent_since start sender_id d
unfolding sent_since values
sent_since-cons start sender_id k g d = ground arith

pub sent_since-set :
    (start : ℕ) (sender_id k : String) (g : Gift) (d : Dict Gift)
    → sent_since start sender_id (set k g d)
      ≤ sent_since start sender_id d + amount_from start sender_id g
unfolding set
sent_since-set start sender_id k g [] = omega (arith, sent_since-cons start sender_id k g [])
sent_since-set start sender_id k g ((j, x) ∷ d) = elim (Bool-cases (j === k)) [
  | inl same ↦
      rw same (
        omega (arith, sent_since-cons start sender_id j g d, sent_since-cons start sender_id j x d))
  | inr other ↦ rw other (
      omega (
        arith,
        sent_since-set start sender_id k g d,
        sent_since-cons start sender_id j x d,
        sent_since-cons start sender_id j x (set k g d),
      ))
]

-- One call of `createGift`.
pub record Creation : Type 0 where
  pub env : Env
  pub answers : Answers
  pub id : String
  pub sender_id : String
  pub input : CreateGiftInput
  pub registered : Bool
  pub sender_created_at : Option ℕ
