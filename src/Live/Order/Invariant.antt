-- ===== src/Live/Order/Invariant.antt =====
-- A session in rank order stays in rank order when the updated slots are merged in.
use rwkv_srs.Base.{
  ℕ, true, false, not, List, some, length, ◌≡◌, refl, sym, ◌∙◌, ap, if◌then◌else◌, arith, ◌<◌,
}
use rwkv_srs.Features.{FloatOps}
use rwkv_srs.Live.{LivePredictionSessionState, candidate_at}
use rwkv_srs.Live.Order.{
  live_from, is_live, is_marked, advance_update_mark, mark_updated, rebuild_order,
  merge_updated_order,
}
use rwkv_srs.Live.Order.Marks.{AllBelow, MarksOk, mark_updated-elem}
use rwkv_srs.Live.Order.Merge.{bit, count-live_from, keep-Ascending, keep_eq, merge-updated_entries}
use rwkv_srs.Live.Rank.{compare_slots, rank_key, applicable_target}
use rwkv_srs.Live.Rank.Laws.{compare_slots-IsOrder, compare_slots-eq}
use rwkv_srs.Map.{get}
use rwkv_srs.Sorting.{sort_by, merge_by, keep, count, elem}
use rwkv_srs.Sorting.Counts.{
  count-sort_by, count-merge_by, count-keep, TellsApart, Ascending-eq_of_count,
}
use rwkv_srs.Sorting.Laws.{Ascending, sort_by-Ascending, merge_by-Ascending}

-- The slots are in the order that a full sort gives.
abbrev pub IsRanked : FloatOps → LivePredictionSessionState → Type 0
IsRanked fl s = s.ordered_slots ≡ (rebuild_order fl s).ordered_slots

-- Every live slot is the one that the map gives for its card.
abbrev pub IsNamed : LivePredictionSessionState → Type 0
IsNamed s =
    (slot : ℕ)
    → is_live s slot ≡ true
    → get (candidate_at s slot).card_id s.slot_by_card_id ≡ some slot

-- The slots of an update are in range, and none stands twice.
abbrev pub AreSlots : LivePredictionSessionState → List ℕ → Type 0
AreSlots s slots =
    AllBelow (length s.update_marks) slots × ((v : ℕ) → count v slots ≡ bit (elem v slots))

-- `s` comes from `old` by a change of the updated slots.
pub record ChangedAt (fl : FloatOps) (old s : LivePredictionSessionState) (updated : List ℕ)
    : Type 0 where
  pub same_order : s.ordered_slots ≡ old.ordered_slots
  pub same_live : (v : ℕ) → elem v updated ≡ false → is_live s v ≡ is_live old v
  pub same_rank :
      (a b : ℕ)
      → elem a updated ≡ false
      → elem b updated ≡ false
      → compare_slots fl s a b ≡ compare_slots fl old a b

IsNamed-injective :
    (s : LivePredictionSessionState) (a b : ℕ)
    → IsNamed s
    → is_live s a ≡ true
    → is_live s b ≡ true
    → (candidate_at s a).card_id ≡ (candidate_at s b).card_id
    → a ≡ b
IsNamed-injective s a b named la lb e = let at_a = named a la in let at_b = named b lb in cc

-- In rank order each live slot stands once, and no other slot.
pub IsRanked-count :
    (fl : FloatOps) (s : LivePredictionSessionState) (v : ℕ)
    → IsRanked fl s
    → count v s.ordered_slots ≡ bit (is_live s v)
unfolding rebuild_order
IsRanked-count fl s v ranked = rw ranked (
    count-sort_by (compare_slots fl s) v (live_from 0 s.statuses)
    ∙ count-live_from v v 0 s.statuses (omega arith))

module _ (fl : FloatOps) (old s : LivePredictionSessionState) (updated : List ℕ)
    (ranked : IsRanked fl old) (changed : ChangedAt fl old s updated) where
  -- The slots that the merge keeps, and the ones that it puts between them.
  abbrev remaining : List ℕ
  remaining = keep (λ v. not (elem v updated)) s.ordered_slots

  abbrev moved : List ℕ
  moved = sort_by (compare_slots fl s) (keep (is_live s) updated)

  old_slots : s.ordered_slots ≡ sort_by (compare_slots fl old) (live_from 0 old.statuses)
  unfolding rebuild_order
  old_slots = changed.same_order ∙ ranked

  remaining-Ascending : Ascending (compare_slots fl s) remaining
  remaining-Ascending =
      keep-Ascending (compare_slots fl old) (compare_slots fl s) (λ v. not (elem v updated))
        (λ a b h g. changed.same_rank a b (ground arith) (ground arith)) s.ordered_slots
        (rw old_slots (sort_by-Ascending (compare_slots-IsOrder fl old) (live_from 0 old.statuses)))

  count-old : (v : ℕ) → count v s.ordered_slots ≡ bit (is_live old v)
  count-old v = rw (changed.same_order) (IsRanked-count fl old v ranked)

  count-remaining : (v : ℕ) → count v remaining ≡ (if elem v updated then 0 else bit (is_live s v))
  count-remaining v = ground (
    arith,
    count-keep (λ w. not (elem w updated)) v s.ordered_slots,
    count-old v,
    changed.same_live v,
  )

  merged-count :
      ((v : ℕ) → count v updated ≡ bit (elem v updated))
      → (v : ℕ)
      → count v (merge_by (compare_slots fl s) (λ y. y) remaining moved) ≡ bit (is_live s v)
  merged-count once v = ground (
    arith,
    count-merge_by (compare_slots fl s) v remaining moved,
    count-remaining v,
    count-sort_by (compare_slots fl s) v (keep (is_live s) updated),
    count-keep (is_live s) v updated,
    once v,
  )

  is_live-positive : (v : ℕ) → 0 < bit (is_live s v) → is_live s v ≡ true
  is_live-positive v h = ground arith

  merged-TellsApart :
      IsNamed s
      → ((v : ℕ) → count v updated ≡ bit (elem v updated))
      → TellsApart (compare_slots fl s) (merge_by (compare_slots fl s) (λ y. y) remaining moved)
  merged-TellsApart named once a b ha hb same =
      IsNamed-injective s a b named (is_live-positive a (rw (merged-count once a) at ha))
        (is_live-positive b (rw (merged-count once b) at hb)) (compare_slots-eq fl s a b same)

  merged-sort_by :
      IsNamed s
      → ((v : ℕ) → count v updated ≡ bit (elem v updated))
      → merge_by (compare_slots fl s) (λ y. y) remaining moved
        ≡ sort_by (compare_slots fl s) (live_from 0 s.statuses)
  merged-sort_by named once =
      let o = compare_slots-IsOrder fl s in
      Ascending-eq_of_count (compare_slots fl s) o
        (merge_by (compare_slots fl s) (λ y. y) remaining moved)
        (sort_by (compare_slots fl s) (live_from 0 s.statuses))
        (merge_by-Ascending o remaining moved remaining-Ascending
          (sort_by-Ascending o (keep (is_live s) updated)))
        (sort_by-Ascending o (live_from 0 s.statuses))
        (λ v. merged-count once v ∙ sym (full-count v)) (merged-TellsApart named once)
    where
      full-count :
          (v : ℕ)
          → count v (sort_by (compare_slots fl s) (live_from 0 s.statuses)) ≡ bit (is_live s v)
      full-count v =
          count-sort_by (compare_slots fl s) v (live_from 0 s.statuses)
          ∙ count-live_from v v 0 s.statuses (omega arith)

  compare_slots-mark_updated : compare_slots fl (mark_updated s updated) ≡ compare_slots fl s
  unfolding mark_updated advance_update_mark compare_slots rank_key applicable_target
  compare_slots-mark_updated = refl

  remaining-mark_updated :
      MarksOk s
      → AllBelow (length s.update_marks) updated
      → keep (λ v. not (is_marked (mark_updated s updated) v)) s.ordered_slots ≡ remaining
  remaining-mark_updated marks below =
      keep_eq (λ v. not (is_marked (mark_updated s updated) v)) (λ v. not (elem v updated))
        s.ordered_slots (λ v. ap not (mark_updated-elem s updated v marks below))

  -- When the slots of an old session are in rank order and a session comes from it by a change of
  -- some slots, in range and none twice, then over old marks and a map that names the live slots the
  -- merge of these slots gives the order that the full sort gives.
  pub merge_updated_order-rebuild_order :
      MarksOk s
      → AreSlots s updated
      → IsNamed s
      → (merge_updated_order fl s updated).ordered_slots ≡ (rebuild_order fl s).ordered_slots
  unfolding merge_updated_order rebuild_order mark_updated advance_update_mark
  merge_updated_order-rebuild_order marks (below, once) named =
      let kept = remaining-mark_updated marks below in
      merge-updated_entries fl (mark_updated s updated)
        (keep (λ v. not (is_marked (mark_updated s updated) v)) s.ordered_slots) updated
      ∙ rw (compare_slots-mark_updated, kept) (merged-sort_by named once)
