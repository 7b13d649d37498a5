-- ===== src/Live/Session/Names.antt =====
-- The map of a session after a card is dropped.
use rwkv_srs.Base.{
  ap, false, true, ℤ, ℕ, ◌≡◌, some, ◌<◌, ◌==◌, length, ℤ-discrete, ◌≢◌, sym, ◌∙◌, arith,
}
use rwkv_srs.Live.{LivePredictionSessionState, candidate_at}
use rwkv_srs.Live.Order.{is_live}
use rwkv_srs.Live.Session.{IsIndexed}
use rwkv_srs.Live.Session.Columns.{live-lt}
use rwkv_srs.Map.{get, remove}
use rwkv_srs.Map.Laws.{get-remove_self, none-ne-some, get-remove_ne}

apart : (a b : ℕ) → a ≢ b → (a == b) ≡ false
apart a b h = ground arith

module _ (s : LivePredictionSessionState) (i : IsIndexed s) where
  -- A slot that the map names is in range.
  pub named-lt :
      (card_id : ℤ) (slot : ℕ)
      → get card_id s.slot_by_card_id ≡ some slot
      → slot < length s.statuses
  named-lt card_id slot h = live-lt slot s.statuses (i.names_live card_id slot h).0

  pub named-marks :
      (card_id : ℤ) (slot : ℕ)
      → get card_id s.slot_by_card_id ≡ some slot
      → slot < length s.update_marks
  named-marks card_id slot h =
      ground (arith, named-lt card_id slot h, i.lengths.status_length, i.lengths.marks_length)

  -- Another live slot holds another card.
  pub other_card :
      (card_id : ℤ) (slot v : ℕ)
      → get card_id s.slot_by_card_id ≡ some slot
      → is_live s v ≡ true
      → (slot == v) ≡ false
      → (candidate_at s v).card_id ≢ card_id
  other_card card_id slot v h live other same =
      let at_v = i.named v live in
      let meets : some slot ≡ some v =
        sym h ∙ ap (λ c. get c s.slot_by_card_id) (sym same) ∙ at_v in
      ground arith

  -- A card that is still named after another was dropped is named by another slot.
  pub still_named :
      (card_id : ℤ) (slot : ℕ)
      → get card_id s.slot_by_card_id ≡ some slot
      → (other : ℤ) (v : ℕ) → get other (remove card_id s.slot_by_card_id) ≡ some v
      → (get other s.slot_by_card_id ≡ some v) × ((slot == v) ≡ false)
  still_named card_id slot h other v g = elim (ℤ-discrete other card_id) [
    | yes same ↦
        let gone = get-remove_self card_id s.slot_by_card_id i.sorted in
        let g' : get card_id (remove card_id s.slot_by_card_id) ≡ some v = rw same at g in
        absurd (none-ne-some v (sym gone ∙ g'))
    | no different ↦
        let kept : get other s.slot_by_card_id ≡ some v =
          sym (get-remove_ne other card_id s.slot_by_card_id different) ∙ g in
        let at_v = i.names_live other v kept in
        let at_slot = i.names_live card_id slot h in
        (
          kept,
          apart slot v (λ e.
              different (sym at_v.1 ∙ ap (λ w. (candidate_at s w).card_id) (sym e) ∙ at_slot.1)),
        )
  ]
