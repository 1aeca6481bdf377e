-- ===== src/Gift/Walk.antt =====
-- Following the cursors of the paginated listing.
use lumigift_lumigift.Common.{
  ℕ, zero, suc, ◌+◌, ◌≤◌, ◌<◌, ◌≡◌, ◌≢◌, refl, ap, sym, subst, ◌∙◌, String, true, false, List, [],
  ◌∷◌, ◌++◌, Option, none, some, Result, ok, err, ltb, length, take, drop, All, arith, Bool-cases,
  eq_iff, eq_refl, inl, inr, length-append, take-append-drop,
}
use mathlib.Core.List.{append-nil, append_assoc}
use lumigift_lumigift.Gift.Defs.{Gift}
use lumigift_lumigift.Gift.Pages.{
  after_id, start_index, last_id, GiftPage, PageError, finish_page, page_at, page_of,
}

-- A client's list after a page, with the way to go on.
abbrev follow : Result PageError GiftPage → (Option String → List Gift) → List Gift
follow (err e) next = []
follow (ok p) next = p.gifts ++ elim p.next_cursor [ none ↦ [] | some id ↦ next (some id) ]

-- The gifts that a client gets by following the cursors for up to n pages.
unfoldable pub walk : ℕ → List Gift → ℕ → Option String → List Gift
walk zero all limit cursor = []
walk (suc n) all limit cursor = follow (page_of all cursor limit) (walk n all limit)

-- No two gifts have the same id.
abbrev pub IsDistinct : List Gift → Type 0
IsDistinct [] = Unit
IsDistinct (g ∷ gs) = All (λ h. h.id ≢ g.id) gs × IsDistinct gs

All-at :
    (P : Gift → Type 0) (ps : List Gift) (g : Gift) (qs : List Gift) → All P (ps ++ g ∷ qs) → P g
All-at P [] g qs (h, hs) = h
All-at P (p ∷ ps) g qs (h, hs) = All-at P ps g qs hs

after_id-at :
    (ps : List Gift) (g : Gift) (qs : List Gift)
    → IsDistinct (ps ++ g ∷ qs)
    → after_id g.id (ps ++ g ∷ qs) ≡ length ps + 1
unfolding after_id
after_id-at [] g qs h = ground (arith, eq_refl g.id)
after_id-at (p ∷ ps) g qs (other, h) =
    ground (arith, eq_iff p.id g.id, All-at (λ x. x.id ≢ p.id) ps g qs other, after_id-at ps g qs h)

last_id-snoc : (zs : List Gift) (g : Gift) → last_id (zs ++ g ∷ []) ≡ some g.id
unfolding last_id
last_id-snoc [] g = refl
last_id-snoc (z ∷ []) g = refl
last_id-snoc (z ∷ y ∷ zs) g = last_id-snoc (y ∷ zs) g

-- A page that is full has a last gift.
take-snoc :
    (n : ℕ) (ys : List Gift)
    → 1 ≤ n
    → n ≤ length ys
    → (zs : List Gift) × ((g : Gift) × (take n ys ≡ zs ++ g ∷ []))
take-snoc zero ys h l = absurd (omega (arith, h))
take-snoc (suc n) [] h l = absurd (omega (arith, l))
take-snoc (suc zero) (y ∷ ys) h l = ([], (y, refl))
take-snoc (suc (suc n)) (y ∷ ys) h l =
    let (zs, (g, e)) = take-snoc (suc n) ys (omega arith) (omega (arith, l)) in
    (y ∷ zs, (g, ap (λ t. y ∷ t) e))

pub take-all : (n : ℕ) (ys : List Gift) → length ys ≤ n → take n ys ≡ ys
take-all zero [] h = refl
take-all zero (y ∷ ys) h = absurd (omega (arith, h))
take-all (suc n) [] h = refl
take-all (suc n) (y ∷ ys) h = ap (λ t. y ∷ t) (take-all n ys (omega (arith, h)))

length-drop : (n : ℕ) (ys : List Gift) → 1 ≤ n → 1 ≤ length ys → length (drop n ys) < length ys
length-drop zero ys h l = absurd (omega (arith, h))
length-drop (suc n) [] h l = absurd (omega (arith, l))
length-drop (suc zero) (y ∷ ys) h l = omega arith
length-drop (suc (suc n)) (y ∷ []) h l = omega arith
length-drop (suc (suc n)) (y ∷ z ∷ ys) h l =
    omega (arith, length-drop (suc n) (z ∷ ys) (omega arith) (omega arith))

drop-append : (xs ys : List Gift) → drop (length xs) (xs ++ ys) ≡ ys
drop-append [] ys = refl
drop-append (x ∷ xs) ys = drop-append xs ys

finish_page-last :
    (n : ℕ) (page : List Gift)
    → finish_page n false page ≡ ok (record { gifts = page; total = n; next_cursor = none })
unfolding finish_page
finish_page-last n page = refl

finish_page-more :
    (n : ℕ) (page : List Gift) (id : String)
    → last_id page ≡ some id
    → finish_page n true page ≡ ok (record { gifts = page; total = n; next_cursor = some id })
unfolding finish_page
finish_page-more n page id h = ground arith

page_of-last :
    (xs ys : List Gift) (c : Option String) (limit : ℕ)
    → start_index c (xs ++ ys) ≡ length xs
    → length ys ≤ limit
    → page_of (xs ++ ys) c limit
      ≡ ok (record { gifts = ys; total = length (xs ++ ys); next_cursor = none })
page_of-last xs ys c limit at short =
    let all_taken : ltb (length xs + limit) (length (xs ++ ys)) ≡ false =
      ground (arith, length-append xs ys) in
    ap (λ i. page_at i (xs ++ ys) limit) at
    ∙ ap (λ b. finish_page (length (xs ++ ys)) b (take limit (drop (length xs) (xs ++ ys))))
        all_taken
    ∙ ap (λ t. finish_page (length (xs ++ ys)) false t)
        (ap (take limit) (drop-append xs ys) ∙ take-all limit ys short)
    ∙ finish_page-last (length (xs ++ ys)) ys

page_of-more :
    (xs ys zs : List Gift) (g : Gift) (c : Option String) (limit : ℕ)
    → start_index c (xs ++ ys) ≡ length xs
    → limit < length ys
    → take limit ys ≡ zs ++ g ∷ []
    → page_of (xs ++ ys) c limit
      ≡ ok (record { gifts = take limit ys; total = length (xs ++ ys); next_cursor = some g.id })
page_of-more xs ys zs g c limit at long e =
    let more : ltb (length xs + limit) (length (xs ++ ys)) ≡ true =
      ground (arith, length-append xs ys) in
    ap (λ i. page_at i (xs ++ ys) limit) at
    ∙ ap (λ b. finish_page (length (xs ++ ys)) b (take limit (drop (length xs) (xs ++ ys)))) more
    ∙ ap (λ t. finish_page (length (xs ++ ys)) true (take limit t)) (drop-append xs ys)
    ∙ finish_page-more (length (xs ++ ys)) (take limit ys) g.id (ap last_id e ∙ last_id-snoc zs g)

walk-from :
    (n : ℕ) (xs ys : List Gift) (c : Option String) (limit : ℕ)
    → 1 ≤ limit
    → IsDistinct (xs ++ ys)
    → All (λ g. g.id ≢ "") (xs ++ ys)
    → start_index c (xs ++ ys) ≡ length xs
    → length ys ≤ n
    → walk n (xs ++ ys) limit c ≡ ys
unfolding walk
walk-from zero xs [] c limit h d named at l = refl
walk-from zero xs (y ∷ ys) c limit h d named at l = absurd (omega (arith, l))
walk-from (suc n) xs ys c limit h d named at l = elim (Bool-cases (ltb limit (length ys))) [
  | inl long ↦
      let (zs, (g, e)) = take-snoc limit ys h (ground arith) in
      let page = page_of-more xs ys zs g c limit at (ground arith) e in
      let split : xs ++ ys ≡ (xs ++ take limit ys) ++ drop limit ys =
        ap (λ t. xs ++ t) (sym (take-append-drop limit ys))
        ∙ sym (append_assoc xs (take limit ys) (drop limit ys)) in
      let middle : xs ++ ys ≡ (xs ++ zs) ++ g ∷ drop limit ys =
        ap (λ t. xs ++ t)
          (sym (take-append-drop limit ys)
            ∙ ap (λ t. t ++ drop limit ys) e
            ∙ append_assoc zs (g ∷ []) (drop limit ys))
        ∙ sym (append_assoc xs zs (g ∷ drop limit ys)) in
      let size : length (xs ++ take limit ys) ≡ length (xs ++ zs) + 1 = omega (
        arith,
        length-append xs (take limit ys),
        ap (λ t. length t) e,
        length-append zs (g ∷ []),
        length-append xs zs,
      ) in
      let spelled : g.id ≢ "" =
        All-at (λ x. x.id ≢ "") (xs ++ zs) g (drop limit ys)
          (subst (All (λ x. x.id ≢ "")) middle named) in
      let found : after_id g.id (xs ++ ys) ≡ length (xs ++ zs) + 1 =
        ap (after_id g.id) middle
        ∙ after_id-at (xs ++ zs) g (drop limit ys) (subst IsDistinct middle d) in
      let next : start_index (some g.id) (xs ++ ys) ≡ length (xs ++ take limit ys) =
        ground (arith, eq_iff g.id "", spelled, found, size) in
      let later : walk n (xs ++ ys) limit (some g.id) ≡ drop limit ys =
        subst (λ a. walk n a limit (some g.id) ≡ drop limit ys) (sym split)
          (walk-from n (xs ++ take limit ys) (drop limit ys) (some g.id) limit h
            (subst IsDistinct split d) (subst (All (λ x. x.id ≢ "")) split named)
            (ap (start_index (some g.id)) (sym split) ∙ next)
            (omega (arith, l, length-drop limit ys h (ground arith)))) in
      rw page (ap (λ t. take limit ys ++ t) later ∙ take-append-drop limit ys)
  | inr short ↦ rw (page_of-last xs ys c limit at (ground arith)) (append-nil ys)
]

-- Following the cursors gives every gift of the sorted list once, in its order, in as many pages as
-- there are gifts at most, where a page has room for a gift and no two gifts share an id or have an
-- empty one.
pub walk_lem :
    (all : List Gift) (limit n : ℕ)
    → 1 ≤ limit
    → IsDistinct all
    → All (λ g. g.id ≢ "") all
    → length all ≤ n
    → walk n all limit none ≡ all
walk_lem all limit n h d named l = walk-from n [] all none limit h d named refl l
