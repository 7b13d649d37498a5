-- ===== src/Live/Select.antt =====
-- Which slots a refresh predicts again: select_refresh_membership of live_session.rs.
pub mod Loop
pub mod Lists
pub mod Membership
pub mod Spec
use rwkv_srs.Base.{
  true, false, [], ◌∷◌, zero, none, some, ℕ, ℤ, List, length, Bool, ◌++◌, set, leb, ◌&&◌, not,
}
use rwkv_srs.Live.{LivePredictionSessionState, status_at}
use rwkv_srs.Live.Order.{advance_update_mark, slots_from, is_marked, all_slots}
use rwkv_srs.Live.Status.{is_pending, is_included}
use rwkv_srs.Map.{get}
use rwkv_srs.Sorting.{keep, elem}

-- The slots of the cards that are named.
unfoldable pub named_slots : LivePredictionSessionState → List ℤ → List ℕ
unfolding get
named_slots s [] = []
named_slots s (card_id ∷ rest) = elim (get card_id s.slot_by_card_id) [
  | none ↦ named_slots s rest
  | some slot ↦ slot ∷ named_slots s rest
]

-- A slot is selected, and marked with the generation.
unfoldable pub select_slot : LivePredictionSessionState → ℕ → LivePredictionSessionState
select_slot s slot = record s {
  selected_scratch = s.selected_scratch ++ slot ∷ [];
  update_marks = set s.update_marks slot s.update_mark_generation;
}

-- A loop over slots that stops at the refresh limit and selects the slots that pass.
unfoldable pub select_loop :
    (LivePredictionSessionState → ℕ → Bool)
    → List ℕ
    → LivePredictionSessionState
    → LivePredictionSessionState
unfolding select_slot
select_loop admits [] s = s
select_loop admits (slot ∷ rest) s = elim (leb s.refresh_limit (length s.selected_scratch)) [
  | true ↦ s
  | false ↦ elim (admits s slot) [
    | true ↦ select_loop admits rest (select_slot s slot)
    | false ↦ select_loop admits rest s
  ]
]

-- The conditions of the two loops, without the excluded slots and with them.
abbrev pub is_pending_at : LivePredictionSessionState → ℕ → Bool
is_pending_at s slot = is_pending (status_at s slot)

abbrev pub may_join : LivePredictionSessionState → ℕ → Bool
may_join s slot = is_included (status_at s slot) && not (is_marked s slot)

unfoldable pub collect_transport : LivePredictionSessionState → LivePredictionSessionState
unfolding keep slots_from
collect_transport s = record s { transport_slots = keep (is_marked s) (all_slots s) }

unfoldable pub select_refresh_membership_unexcluded :
    LivePredictionSessionState → LivePredictionSessionState
unfolding advance_update_mark select_loop slots_from collect_transport
select_refresh_membership_unexcluded s =
    let cleared = advance_update_mark (record s { selected_scratch = [] }) in
    let pending = select_loop is_pending_at (all_slots cleared) cleared in
    collect_transport (select_loop may_join pending.ordered_slots pending)

unfoldable pub select_refresh_membership :
    LivePredictionSessionState → List ℤ → LivePredictionSessionState
unfolding select_refresh_membership_unexcluded advance_update_mark select_loop slots_from
    collect_transport named_slots elem
select_refresh_membership s [] = select_refresh_membership_unexcluded s
select_refresh_membership s (card_id ∷ cards) =
    let cleared = advance_update_mark (record s { selected_scratch = [] }) in
    let excluded_slots = named_slots cleared (card_id ∷ cards) in
    let pending =
      select_loop (λ t slot. is_pending_at t slot && not (elem slot excluded_slots))
        (all_slots cleared) cleared in
    collect_transport (
      select_loop (λ t slot. may_join t slot && not (elem slot excluded_slots))
        pending.ordered_slots pending)

-- commit_refresh_debug swaps the scratch vectors with those of the last refresh.
unfoldable pub commit_refresh_debug : LivePredictionSessionState → LivePredictionSessionState
commit_refresh_debug s = record s {
  selected_scratch = s.last_membership_slots;
  last_membership_slots = s.selected_scratch;
  transport_slots = s.last_transport_slots;
  last_transport_slots = s.transport_slots;
}
