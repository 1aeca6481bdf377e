-- ===== src/GroupGift/Totals.antt =====
-- The money collected for a group gift, over any history of calls.
use lumigift_lumigift.Common.{
  ℕ, ◌+◌, ◌≤◌, ◌<◌, String, Bool, true, false, ◌≡◌, ◌≢◌, refl, ◌⊎◌, inl, inr, List, [], ◌∷◌, ◌++◌,
  Option, some, arith, ltb, ◌===◌, if◌then◌else◌, Option-cases, Bool-cases,
}
use lumigift_lumigift.Common.Dict.{get, set, get-set}
use lumigift_lumigift.GroupGift.{
  ContributionStatus, success, failed, GroupContribution, GroupGift, opened, funded, expired,
  Groups, CreateGroupGiftInput, ContributeInput, create_group_gift, initiate_contribution,
  find_contribution, mark, pushed, pending_contribution, confirmed, confirm_contribution,
  fail_contribution, is_open,
}

abbrev pub is_success : ContributionStatus → Bool
is_success success = true
is_success _ = false

-- The total of the contributions whose payment succeeded.
abbrev pub success_total : List GroupContribution → ℕ
success_total [] = 0
success_total (c ∷ cs) = (if is_success c.status then c.amount_ngn else 0) + success_total cs

success_total-append :
    (cs ds : List GroupContribution)
    → success_total (cs ++ ds) ≡ success_total cs + success_total ds
success_total-append [] ds = omega arith
success_total-append (c ∷ cs) ds = ground (arith, success_total-append cs ds)

abbrev pub counted : GroupContribution → ℕ
counted c = if is_success c.status then c.amount_ngn else 0

success_total-mark :
    (reference : String) (cs : List GroupContribution) (c : GroupContribution)
    → find_contribution reference cs ≡ some c
    → success_total (mark success reference cs) + counted c ≡ success_total cs + c.amount_ngn
unfolding find_contribution mark
success_total-mark reference [] c h = cc
success_total-mark reference (d ∷ cs) c h = elim (Bool-cases (d.payment_reference === reference)) [
  | inl hit ↦ ground arith
  | inr miss ↦ ground (arith, success_total-mark reference cs c)
]

success_total-fail :
    (reference : String) (cs : List GroupContribution)
    → success_total (mark failed reference cs) ≤ success_total cs
unfolding mark
success_total-fail reference [] = omega arith
success_total-fail reference (d ∷ cs) = ground (arith, success_total-fail reference cs)

-- Confirming a payment adds its amount to what is collected. Where the books were balanced they stay
-- so if the contribution was not yet a success; if it was, the gift holds that amount too much.
pub confirmed_balance :
    (now : ℕ) (reference : String) (c : GroupContribution) (g : GroupGift)
    → find_contribution reference g.contributions ≡ some c
    → g.collected_amount_ngn ≡ success_total g.contributions
    → let g' : GroupGift = confirmed now reference c g in
      (g'.collected_amount_ngn ≡ g.collected_amount_ngn + c.amount_ngn)
      × (g'.collected_amount_ngn ≡ success_total g'.contributions + counted c)
unfolding confirmed
confirmed_balance now reference c g found balanced =
    ground (arith, success_total-mark reference g.contributions c found)

-- What holds of every group gift of the store.
pub record IsSound (g : GroupGift) : Type 0 where
  pub open_below : g.status ≡ opened → g.collected_amount_ngn < g.target_amount_ngn
  pub funded_above : g.status ≡ funded → g.target_amount_ngn ≤ g.collected_amount_ngn
  pub paid : success_total g.contributions ≤ g.collected_amount_ngn

abbrev pub AllSound : Groups → Type 0
AllSound s = (id : String) (g : GroupGift) → get id s.group_gifts ≡ some g → IsSound g

-- What an operation on the group gift of an id does to the map: nothing, or a sound write.
abbrev Writes : String → Groups → Groups → Type 0
Writes id s s' =
    (s'.group_gifts ≡ s.group_gifts)
    ⊎ ((g : GroupGift) × IsSound g × (s'.group_gifts ≡ set id g s.group_gifts))

Writes-AllSound : (id : String) (s s' : Groups) → Writes id s s' → AllSound s → AllSound s'
Writes-AllSound id s s' (inl same) all k h at = all k h (rw same at at)
Writes-AllSound id s s' (inr (g, sound, written)) all k h at =
    ground (arith, get-set id k g s.group_gifts, all k h)

pub data Call : Type 0 where
  create : (now : ℕ) (id token creator : String) → CreateGroupGiftInput → Call
  initiate :
      (now : ℕ) (contribution : String) → Option String → (id : String) → ContributeInput → Call
  confirm : (now : ℕ) (id reference : String) → Call
  fail : (now : ℕ) (id reference : String) → Call

unfoldable pub perform : Call → Groups → Groups
perform (create now id token creator input) s = (create_group_gift now id token creator input s).0
perform (initiate now cid pay id input) s = (initiate_contribution now cid pay id input s).0
perform (confirm now id reference) s = (confirm_contribution now id reference s).0
perform (fail now id reference) s = fail_contribution now id reference s

-- The schema of a new group gift asks for a target of at least 500.
abbrev pub IsAdmissible : Call → Type 0
IsAdmissible (create now id token creator input) = 500 ≤ input.target_amount_ngn
IsAdmissible _ = Unit

confirmed-IsSound :
    (now : ℕ) (reference : String) (c : GroupContribution) (g : GroupGift)
    → find_contribution reference g.contributions ≡ some c
    → IsSound g
    → IsSound (confirmed now reference c g)
unfolding confirmed
confirmed-IsSound now reference c g found v =
    ground (arith, success_total-mark reference g.contributions c found)

failed-IsSound :
    (now : ℕ) (reference : String) (g : GroupGift)
    → IsSound g
    → IsSound (record g { contributions = mark failed reference g.contributions; updated_at = now })
failed-IsSound now reference g v = ground (arith, success_total-fail reference g.contributions)

pushed-IsSound :
    (now : ℕ) (cid id : String) (input : ContributeInput) (g : GroupGift)
    → IsSound g
    → IsSound (pushed now cid id input g)
unfolding pushed
pushed-IsSound now cid id input g v =
    ground
      (arith, success_total-append g.contributions (pending_contribution now cid id input ∷ []))

create-Writes :
    (now : ℕ) (id token creator : String) (input : CreateGroupGiftInput) (s : Groups)
    → 500 ≤ input.target_amount_ngn
    → Writes id s (create_group_gift now id token creator input s).0
unfolding create_group_gift
create-Writes now id token creator input s h = inr (_, ground arith, refl)

initiate-Writes :
    (now : ℕ) (cid : String) (pay : Option String) (id : String) (input : ContributeInput)
    (s : Groups)
    → AllSound s
    → Writes id s (initiate_contribution now cid pay id input s).0
unfolding initiate_contribution
initiate-Writes now cid pay id input s all = elim (Option-cases (get id s.group_gifts)) [
  | inl missing ↦ inl (ground arith)
  | inr (g, found) ↦ elim (Bool-cases (is_open g.status)) [
    | inl accepting ↦ elim (Bool-cases (ltb g.deadline now)) [
      | inl late ↦ inr (
        record g { status = expired; updated_at = now },
        ground (arith, all id g found),
        ground arith,
      )
      | inr early ↦ inr (
        pushed now cid id input g,
        pushed-IsSound now cid id input g (all id g found),
        ground arith,
      )
    ]
    | inr refused ↦ inl (ground arith)
  ]
]

confirm-Writes :
    (now : ℕ) (id reference : String) (s : Groups)
    → AllSound s
    → Writes id s (confirm_contribution now id reference s).0
unfolding confirm_contribution
confirm-Writes now id reference s all = elim (Option-cases (get id s.group_gifts)) [
  | inl missing ↦ inl (ground arith)
  | inr (g, found) ↦ elim (Option-cases (find_contribution reference g.contributions)) [
    | inl unknown ↦ inl (ground arith)
    | inr (c, known) ↦ inr (
      confirmed now reference c g,
      confirmed-IsSound now reference c g known (all id g found),
      ground arith,
    )
  ]
]

fail-Writes :
    (now : ℕ) (id reference : String) (s : Groups)
    → AllSound s
    → Writes id s (fail_contribution now id reference s)
unfolding fail_contribution
fail-Writes now id reference s all = elim (Option-cases (get id s.group_gifts)) [
  | inl missing ↦ inl (ground arith)
  | inr (g, found) ↦ elim (Option-cases (find_contribution reference g.contributions)) [
    | inl unknown ↦ inl (ground arith)
    | inr (c, known) ↦ inr (
      record g { contributions = mark failed reference g.contributions; updated_at = now },
      failed-IsSound now reference g (all id g found),
      ground arith,
    )
  ]
]

perform-AllSound : (c : Call) (s : Groups) → IsAdmissible c → AllSound s → AllSound (perform c s)
unfolding perform
perform-AllSound (create now id token creator input) s h all =
    Writes-AllSound id s (perform (create now id token creator input) s)
      (create-Writes now id token creator input s h) all
perform-AllSound (initiate now cid pay id input) s h all =
    Writes-AllSound id s (perform (initiate now cid pay id input) s)
      (initiate-Writes now cid pay id input s all) all
perform-AllSound (confirm now id reference) s h all =
    Writes-AllSound id s (perform (confirm now id reference) s)
      (confirm-Writes now id reference s all) all
perform-AllSound (fail now id reference) s h all =
    Writes-AllSound id s (perform (fail now id reference) s) (fail-Writes now id reference s all)
      all

unfoldable pub run : List Call → Groups → Groups
run [] s = s
run (c ∷ cs) s = run cs (perform c s)

abbrev pub AllAdmissible : List Call → Type 0
AllAdmissible [] = Unit
AllAdmissible (c ∷ cs) = IsAdmissible c × AllAdmissible cs

run-AllSound : (cs : List Call) (s : Groups) → AllAdmissible cs → AllSound s → AllSound (run cs s)
unfolding run
run-AllSound [] s h all = all
run-AllSound (c ∷ cs) s (h, hs) all = run-AllSound cs (perform c s) hs (perform-AllSound c s h all)

unfoldable pub no_groups : Groups
no_groups = record { group_gifts = []; token_index = []; sessions = [] }

none_stored : (k : String) (g : GroupGift) → get k no_groups.group_gifts ≢ some g
unfolding no_groups get
none_stored k g e = cc

-- After any calls, failing ones included, in which each new group gift has a target of at least 500:
-- an open group gift has collected less than its target, a funded one at least its target, and what
-- is collected is at least the total of the contributions that are a success.
pub run-no_groups-AllSound :
    (cs : List Call) (id : String) (g : GroupGift)
    → AllAdmissible cs
    → get id (run cs no_groups).group_gifts ≡ some g
    → (g.status ≡ opened → g.collected_amount_ngn < g.target_amount_ngn)
      × (g.status ≡ funded → g.target_amount_ngn ≤ g.collected_amount_ngn)
      × (success_total g.contributions ≤ g.collected_amount_ngn)
run-no_groups-AllSound cs id g h at =
    let v = run-AllSound cs no_groups h (λ k x e. absurd (none_stored k x e)) id g at in
    (v.open_below, v.funded_above, v.paid)
