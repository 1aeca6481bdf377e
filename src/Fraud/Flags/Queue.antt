-- ===== src/Fraud/Flags/Queue.antt =====
-- The order and the contents of the queue of flags.
use lumigift_lumigift.Common.{
  ℕ, ◌≡◌, inl, inr, refl, ◌∙◌, ap, sym, subst, String, Bool, true, false, not, ◌&&◌, List, [], ◌∷◌,
  all, filter, length, if◌then◌else◌, ltb, ◌===◌, arith, Bool-cases,
}
use lumigift_lumigift.Fraud.{Severity, low, medium, high, is_high}
use lumigift_lumigift.Fraud.Flags.{
  Review, FraudFlag, is_open, rank, comes_after, insert_flag, order_flags,
  get_unreviewed_fraud_flags, mark_fraud_flag_reviewed, is_gift_flagged,
}

-- No flag stands before one that it comes after.
abbrev pub IsInOrder : List FraudFlag → Type 0
IsInOrder [] = Unit
IsInOrder (f ∷ []) = Unit
IsInOrder (f ∷ g ∷ gs) = (comes_after f g ≡ false) × IsInOrder (g ∷ gs)

-- After a flag of high severity there are only such flags.
abbrev pub HasHighLast : List FraudFlag → Type 0
HasHighLast [] = Unit
HasHighLast (f ∷ fs) =
    (is_high f.severity ≡ true → all (λ g. is_high g.severity) fs ≡ true) × HasHighLast fs

comes_after_asym : (f g : FraudFlag) → comes_after f g ≡ true → comes_after g f ≡ false
comes_after_asym f g h = ground (arith, h)

insert_flag-IsInOrder :
    (f : FraudFlag) (gs : List FraudFlag) → IsInOrder gs → IsInOrder (insert_flag f gs)
unfolding insert_flag
insert_flag-IsInOrder f [] s = tt
insert_flag-IsInOrder f (g ∷ []) s = elim (Bool-cases (comes_after f g)) [
  | inl after ↦ rw after (comes_after_asym f g after, tt)
  | inr before ↦ rw before (before, tt)
]
insert_flag-IsInOrder f (g ∷ k ∷ ks) (gk, s) =
    let ih = insert_flag-IsInOrder f (k ∷ ks) s in
    elim (Bool-cases (comes_after f g)) [
      | inl after ↦ elim (Bool-cases (comes_after f k)) [
        | inl last ↦ rw (after, last) (gk, moved ih last)
        | inr between ↦ rw (after, between) (comes_after_asym f g after, moved ih between)
      ]
      | inr before ↦ rw before (before, (gk, s))
    ]
  where
    moved :
        {b : Bool}
        → IsInOrder (insert_flag f (k ∷ ks))
        → comes_after f k ≡ b
        → IsInOrder (if b then k ∷ insert_flag f ks else f ∷ k ∷ ks)
    moved h e = subst (λ b. IsInOrder (if b then k ∷ insert_flag f ks else f ∷ k ∷ ks)) e h

order_flags-IsInOrder : (fs : List FraudFlag) → IsInOrder (order_flags fs)
unfolding order_flags
order_flags-IsInOrder [] = tt
order_flags-IsInOrder (f ∷ fs) = insert_flag-IsInOrder f (order_flags fs) (order_flags-IsInOrder fs)

high-next :
    (f g : FraudFlag)
    → comes_after f g ≡ false
    → is_high f.severity ≡ true
    → is_high g.severity ≡ true
high-next f g h e = by_severity f.severity g.severity (ground (arith, h)) e
  where
    by_severity :
        (s t : Severity) → ltb (rank s) (rank t) ≡ false → is_high s ≡ true → is_high t ≡ true
    by_severity high high h e = refl
    by_severity high low h e = ground arith
    by_severity high medium h e = ground arith
    by_severity low t h e = absurd (ground arith)
    by_severity medium t h e = absurd (ground arith)

IsInOrder-HasHighLast : (fs : List FraudFlag) → IsInOrder fs → HasHighLast fs
IsInOrder-HasHighLast [] s = tt
IsInOrder-HasHighLast (f ∷ []) s = (λ h. refl, tt)
IsInOrder-HasHighLast (f ∷ g ∷ gs) (fg, s) =
    let (onward, rest) = IsInOrder-HasHighLast (g ∷ gs) s in
    (λ h. let next = high-next f g fg h in ground (arith, onward next), (onward, rest))

-- The number of flags for which a test holds.
abbrev pub count_flags : (FraudFlag → Bool) → List FraudFlag → ℕ
count_flags p fs = length (filter p fs)

count_flags-insert_flag :
    (p : FraudFlag → Bool) (f : FraudFlag) (gs : List FraudFlag)
    → count_flags p (insert_flag f gs) ≡ count_flags p (f ∷ gs)
unfolding insert_flag
count_flags-insert_flag p f [] = refl
count_flags-insert_flag p f (g ∷ gs) = ground (arith, count_flags-insert_flag p f gs)

count_flags-order_flags :
    (p : FraudFlag → Bool) (fs : List FraudFlag) → count_flags p (order_flags fs) ≡ count_flags p fs
unfolding order_flags
count_flags-order_flags p [] = refl
count_flags-order_flags p (f ∷ fs) =
    ground (arith, count_flags-insert_flag p f (order_flags fs), count_flags-order_flags p fs)

count_flags-open :
    (p : FraudFlag → Bool) (rows : List FraudFlag)
    → count_flags p (filter is_open rows) ≡ count_flags (λ f. p f && is_open f) rows
count_flags-open p [] = refl
count_flags-open p (f ∷ rows) = ground (arith, count_flags-open p rows)

count_flags-marked :
    (p : FraudFlag → Bool) (id : String) (r : Review) (rows : List FraudFlag)
    → count_flags (λ f. p f && is_open f) (mark_fraud_flag_reviewed id r rows)
      ≡ count_flags (λ f. (p f && not (f.id === id)) && is_open f) rows
count_flags-marked p id r [] = refl
count_flags-marked p id r (f ∷ rows) =
    let rest = count_flags-marked p id r rows in
    elim (Bool-cases (f.id === id)) [
      | inl this ↦ rw this (ground (arith, rest))
      | inr other ↦ rw other (ground (arith, rest))
    ]

is_gift_flagged-counts :
    (gift_id : String) (rows : List FraudFlag)
    → is_gift_flagged gift_id rows
      ≡ ltb 0 (count_flags (λ f. (f.gift_id === gift_id) && is_open f) rows)
is_gift_flagged-counts gift_id [] = ground arith
is_gift_flagged-counts gift_id (f ∷ rows) = ground (arith, is_gift_flagged-counts gift_id rows)

-- The queue that the administrator sees: for every test it has as many flags that pass it as there are
-- rows that do and are not reviewed; a gift is flagged exactly if the queue has a flag of it; a review
-- takes the flags with its id off the queue and no others; and the flags of high severity come last,
-- since the column is ordered by its words.
pub review_queue_lem :
    (rows : List FraudFlag) (id : String) (r : Review)
    → ((p : FraudFlag → Bool)
        → count_flags p (get_unreviewed_fraud_flags rows)
          ≡ count_flags (λ f. p f && is_open f) rows)
      × ((gift_id : String)
          → is_gift_flagged gift_id rows
            ≡ ltb 0 (count_flags (λ f. f.gift_id === gift_id) (get_unreviewed_fraud_flags rows)))
      × ((p : FraudFlag → Bool)
          → count_flags p (get_unreviewed_fraud_flags (mark_fraud_flag_reviewed id r rows))
            ≡ count_flags (λ f. p f && not (f.id === id)) (get_unreviewed_fraud_flags rows))
      × HasHighLast (get_unreviewed_fraud_flags rows)
review_queue_lem rows id r = (
  counted rows,
  λ gift_id.
      is_gift_flagged-counts gift_id rows
      ∙ ap (ltb 0) (sym (counted rows (λ f. f.gift_id === gift_id))),
  λ p.
      counted (mark_fraud_flag_reviewed id r rows) p
      ∙ count_flags-marked p id r rows
      ∙ sym (counted rows (λ f. p f && not (f.id === id))),
  IsInOrder-HasHighLast _ (order_flags-IsInOrder (filter is_open rows)),
)
  where
    counted :
        (rows : List FraudFlag) (p : FraudFlag → Bool)
        → count_flags p (get_unreviewed_fraud_flags rows) ≡ count_flags (λ f. p f && is_open f) rows
    counted rows p = count_flags-order_flags p (filter is_open rows) ∙ count_flags-open p rows
