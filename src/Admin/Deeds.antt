-- ===== src/Admin/Deeds.antt =====
-- What restoring and removing do to the map of gifts.
use lumigift_lumigift.Common.{
  ◌≡◌, ◌≢◌, refl, inl, inr, subst, String, [], ◌∷◌, Option, none, some, ◌===◌, arith, eq_iff,
  Bool-cases, Option-cases,
}
use lumigift_lumigift.Common.Dict.{Dict, get, delete, get-set_self, get-set_ne}
use lumigift_lumigift.Gift.Defs.{Gift, World, Env}
use lumigift_lumigift.Gift.Service.{modify, restore_gift}
use lumigift_lumigift.Admin.{Deed, restore, hard_delete, do_deed}

get-delete_ne : (k j : String) (m : Dict Gift) → k ≢ j → get j (delete k m) ≡ get j m
unfolding get delete
get-delete_ne k j [] h = refl
get-delete_ne k j ((i, g) ∷ m) h = ground (arith, eq_iff i k, eq_iff i j, get-delete_ne k j m h)

modify_other :
    (change : Gift → Gift) (id j : String) (w : World)
    → id ≢ j
    → get j (modify change id w).0.gifts ≡ get j w.gifts
modify_other change id j w h = elim (Option-cases (get id w.gifts)) [
  | inl missing ↦ rw (modify, missing) refl
  | inr (g, found) ↦ rw (modify, found) (get-set_ne id j (change g) w.gifts h)
]

modify_self :
    (change : Gift → Gift) (id : String) (g : Gift) (w : World)
    → get id w.gifts ≡ some g
    → get id (modify change id w).0.gifts ≡ some (change g)
modify_self change id g w found = rw (modify, found) (get-set_self id (change g) w.gifts)

pub do_deed_other :
    (env : Env) (deed : Deed) (gift : Gift) (w : World) (j : String)
    → gift.id ≢ j
    → get j (do_deed env deed gift w).gifts ≡ get j w.gifts
unfolding do_deed restore_gift
do_deed_other env restore gift w j h =
    modify_other (λ g. record g { deleted_at = none; updated_at = env.now }) gift.id j w h
do_deed_other env hard_delete gift w j h = get-delete_ne gift.id j w.gifts h

-- The keys of a JavaScript map are distinct.
unfoldable pub HasKeysOnce : Dict Gift → Type 0
HasKeysOnce [] = Unit
HasKeysOnce ((k, g) ∷ m) = (get k m ≡ none) × HasKeysOnce m

get-delete : (k : String) (m : Dict Gift) → HasKeysOnce m → get k (delete k m) ≡ none
unfolding get delete HasKeysOnce
get-delete k [] once = refl
get-delete k ((i, g) ∷ m) (absent, once) = elim (Bool-cases (i === k)) [
  | inl here ↦ rw here (subst (λ j. get j m ≡ none) ((eq_iff i k).0 here) absent)
  | inr there ↦ ground (arith, get-delete k m once)
]

-- The gift after it was restored, and where it was removed.
abbrev pub after_deed : Env → Deed → Gift → Option Gift
after_deed env restore gift = some (record gift { deleted_at = none; updated_at = env.now })
after_deed env hard_delete gift = none

pub do_deed_self :
    (env : Env) (deed : Deed) (gift : Gift) (w : World)
    → HasKeysOnce w.gifts
    → get gift.id w.gifts ≡ some gift
    → get gift.id (do_deed env deed gift w).gifts ≡ after_deed env deed gift
unfolding do_deed restore_gift
do_deed_self env restore gift w once found =
    modify_self (λ g. record g { deleted_at = none; updated_at = env.now }) gift.id gift w found
do_deed_self env hard_delete gift w once found = get-delete gift.id w.gifts once
