-- ===== src/Live/Order.antt =====
-- How live_session.rs keeps its slots in rank order: the full sort, and the merge of the slots that
-- an update moved.
pub mod Marks
pub mod Merge
pub mod Invariant
use rwkv_srs.Base.{
  ℕ, zero, suc, ◌+◌, ◌*◌, ◌%◌, ◌^◌, ◌==◌, leb, Bool, true, false, not, ◌||◌, List, [], ◌∷◌, length,
  set, get_or, map, if◌then◌else◌,
}
use rwkv_srs.Features.{FloatOps}
use rwkv_srs.Live.{LivePredictionSessionState, CandidateStatus, RankEntry, status_at}
use rwkv_srs.Live.Rank.{
  compare_slots, compare_slot_to_rank_entry, rank_entry, compare_entries, calculate_eligibility,
}
use rwkv_srs.Live.Status.{is_removed}
use rwkv_srs.Sorting.{sort_by, merge_by, keep}

-- The slots from a first one on, a given number of them.
unfoldable pub slots_from : ℕ → ℕ → List ℕ
slots_from first zero = []
slots_from first (suc n) = first ∷ slots_from (suc first) n

-- 0..self.candidates.len()
abbrev pub all_slots : LivePredictionSessionState → List ℕ
all_slots s = slots_from 0 (length s.candidates)

-- The slots of the statuses that are not Removed, counted from a first slot.
unfoldable pub live_from : ℕ → List CandidateStatus → List ℕ
live_from slot [] = []
live_from slot (status ∷ rest) = elim (is_removed status) [
  | true ↦ live_from (suc slot) rest
  | false ↦ slot ∷ live_from (suc slot) rest
]

-- The marks of a generation that wrapped around to 0 are cleared, since 0 is the mark of a slot
-- that was never marked.
unfoldable pub advance_update_mark : LivePredictionSessionState → LivePredictionSessionState
advance_update_mark s =
    let next = (s.update_mark_generation + 1) % 2 ^ 64 in
    record s {
      update_marks = if next == 0 then map (λ _. 0) s.update_marks else s.update_marks;
      update_mark_generation = if next == 0 then 1 else next;
    }

unfoldable pub mark_all : List ℕ → ℕ → List ℕ → List ℕ
mark_all [] generation marks = marks
mark_all (slot ∷ rest) generation marks = mark_all rest generation (set marks slot generation)

-- The marks that a merge puts on the updated slots.
unfoldable pub mark_updated : LivePredictionSessionState → List ℕ → LivePredictionSessionState
unfolding advance_update_mark mark_all
mark_updated s updated_slots =
    let advanced = advance_update_mark s in
    record advanced {
      update_marks = mark_all updated_slots advanced.update_mark_generation advanced.update_marks;
    }

-- `update_marks[slot] == update_mark_generation`
abbrev pub is_marked : LivePredictionSessionState → ℕ → Bool
is_marked s slot = get_or s.update_marks slot 0 == s.update_mark_generation

abbrev pub is_live : LivePredictionSessionState → ℕ → Bool
is_live s slot = not (is_removed (status_at s slot))

module _ (fl : FloatOps) where
  -- The loop over the slots of recompute_all_eligibilities.
  unfoldable pub recompute_eligibilities :
      List ℕ → LivePredictionSessionState → LivePredictionSessionState
  unfolding calculate_eligibility
  recompute_eligibilities [] s = s
  recompute_eligibilities (slot ∷ rest) s =
      recompute_eligibilities rest
        (record s { eligibilities = set s.eligibilities slot (calculate_eligibility fl s slot) })

  unfoldable pub recompute_all_eligibilities :
      LivePredictionSessionState → LivePredictionSessionState
  unfolding recompute_eligibilities slots_from
  recompute_all_eligibilities s = recompute_eligibilities (all_slots s) s

  unfoldable pub rebuild_order : LivePredictionSessionState → LivePredictionSessionState
  unfolding sort_by compare_slots live_from
  rebuild_order s = record s {
    ordered_slots = sort_by (compare_slots fl s) (live_from 0 s.statuses);
  }

  -- The sorted entries of the updated slots, and their merge into the other slots.
  unfoldable pub updated_entries : LivePredictionSessionState → List ℕ → List RankEntry
  unfolding sort_by compare_entries rank_entry keep
  updated_entries s updated_slots =
      sort_by (compare_entries fl s) (map (rank_entry fl s) (keep (is_live s) updated_slots))

  unfoldable pub merge_updated_order :
      LivePredictionSessionState → List ℕ → LivePredictionSessionState
  unfolding mark_updated keep updated_entries merge_by compare_slot_to_rank_entry
  merge_updated_order s updated_slots =
      let marked = mark_updated s updated_slots in
      let remaining = keep (λ slot. not (is_marked marked slot)) marked.ordered_slots in
      record marked {
        ordered_slots =
            merge_by (compare_slot_to_rank_entry fl marked) (λ entry. entry.slot) remaining
              (updated_entries marked updated_slots);
      }

  -- PARTIAL_REFRESH_REBUILD: from 19 of 20 updated slots on a full sort is faster. The Boolean tells
  -- whether it was done.
  unfoldable pub update_order_after_refresh :
      LivePredictionSessionState → List ℕ → Bool → LivePredictionSessionState × Bool
  unfolding rebuild_order merge_updated_order
  update_order_after_refresh s updated_slots force_rebuild =
      let is_empty = length s.ordered_slots == 0 in
      let too_many = leb (length s.ordered_slots * 19) (length updated_slots * 20) in
      if force_rebuild || (is_empty || too_many)
      then (rebuild_order s, true)
      else (merge_updated_order s updated_slots, false)
