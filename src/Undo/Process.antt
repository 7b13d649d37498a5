-- ===== src/Undo/Process.antt =====
-- Processing a review changes the state at the identities of the review at most.
use rwkv_srs.Base.{true, List, inl, inr, Bool-cases, unwrap_or}
use rwkv_srs.Map.{Map, has}
use rwkv_srs.Map.Touch.{Touches, Touches-insert, Hits}
use rwkv_srs.Review.{F64, F32}
use rwkv_srs.Features.{FloatOps}
use rwkv_srs.Rng.{Rng}
use rwkv_srs.State.{FeatureState, ReviewIds, Submodule, card, note, deck, preset}
use rwkv_srs.State.Vector.{remember}
use rwkv_srs.State.Record.{
  record_recurrent_ids, add_elapsed, start_day, admit_card, mark_card, record_processed_values,
  accumulate,
}
use rwkv_srs.State.Direct.{id_of}
use rwkv_srs.Undo.Touch.{Identities, StateTouches}

-- The identities of a review are among those that may be touched.
pub record Covers (k : Identities) (ids : ReviewIds) : Type 0 where
  pub on_cards : Hits ids.0 k.cards
  pub on_notes : Hits ids.1 k.notes
  pub on_decks : Hits ids.2 k.decks
  pub on_presets : Hits ids.3 k.presets

module _ (k : Identities) (s0 : FeatureState) (ids : ReviewIds) (c : Covers k ids) where
  pub remember-StateTouches :
      (sub : Submodule) (encoding : List F32) (rng : Rng) (s : FeatureState)
      → StateTouches k s0 s
      → StateTouches k s0 (remember true sub (id_of sub ids) encoding rng s)
  remember-StateTouches card e r s p =
      assumption (Touches-insert k.cards ids.0 e c.on_cards p.encoded_cards)
  remember-StateTouches note e r s p =
      assumption (Touches-insert k.notes ids.1 e c.on_notes p.encoded_notes)
  remember-StateTouches deck e r s p =
      assumption (Touches-insert k.decks ids.2 e c.on_decks p.encoded_decks)
  remember-StateTouches preset e r s p =
      assumption (Touches-insert k.presets ids.3 e c.on_presets p.encoded_presets)

  pub record_recurrent_ids-StateTouches :
      (s : FeatureState) → StateTouches k s0 s → StateTouches k s0 (record_recurrent_ids s ids)
  unfolding record_recurrent_ids
  record_recurrent_ids-StateTouches s p = assumption (
    Touches-insert k.cards ids.0 tt c.on_cards p.card_keys,
    Touches-insert k.notes ids.1 tt c.on_notes p.note_keys,
    Touches-insert k.decks ids.2 tt c.on_decks p.deck_keys,
    Touches-insert k.presets ids.3 tt c.on_presets p.preset_keys,
  )

  module _ (fl : FloatOps) where
    accumulate-Touches :
        (v : F64) (m n : Map F64)
        → Touches k.cards m n
        → Touches k.cards m (accumulate fl ids.0 v n)
    unfolding accumulate
    accumulate-Touches v m n p = Touches-insert k.cards ids.0 _ c.on_cards p

    add_elapsed-StateTouches :
        (s : FeatureState) (days seconds day_offset : F64)
        → StateTouches k s0 s
        → StateTouches k s0 (add_elapsed fl s ids.0 days seconds day_offset)
    unfolding add_elapsed
    add_elapsed-StateTouches s days seconds day_offset p =
        assumption
          (accumulate-Touches days _ _ p.day_sums, accumulate-Touches seconds _ _ p.second_sums)

    start_day-StateTouches :
        (s : FeatureState) (day_offset : F64)
        → StateTouches k s0 s
        → StateTouches k s0 (start_day fl s day_offset)
    unfolding start_day
    start_day-StateTouches s day_offset p = elim (Bool-cases (fl.feq day_offset s.today)) [
      | inl e ↦ rw (e, start_day) (assumption p)
      | inr e ↦ rw (e, start_day) (assumption p)
    ]

    admit_card-StateTouches :
        (s : FeatureState) (day_offset : F64)
        → StateTouches k s0 s
        → StateTouches k s0 (admit_card fl s ids.0 day_offset)
    unfolding admit_card
    admit_card-StateTouches s day_offset p = elim (Bool-cases (has ids.0 s.card_set)) [
      | inl e ↦ rw (e, admit_card) p
      | inr e ↦
          rw (e, admit_card)
            (assumption (
              Touches-insert k.cards ids.0 tt c.on_cards p.card_set,
              Touches-insert k.cards ids.0
                  (fl.sub day_offset (unwrap_or s.first_day_offset day_offset)) c.on_cards
                  p.first_days,
            ))
    ]

    mark_card-StateTouches :
        (s : FeatureState) (day_offset : F64)
        → StateTouches k s0 s
        → StateTouches k s0 (mark_card fl s ids.0 day_offset)
    unfolding mark_card
    mark_card-StateTouches s day_offset p = assumption (
      Touches-insert k.cards ids.0 s.i c.on_cards p.last_i,
      Touches-insert k.cards ids.0 s.card_count c.on_cards p.last_new_cards,
    )

    -- Recording the review of a covered card.
    pub record_processed_values-StateTouches :
        (s : FeatureState) (days seconds day_offset : F64)
        → StateTouches k s0 s
        → StateTouches k s0 (record_processed_values fl s ids.0 days seconds day_offset)
    unfolding record_processed_values
    record_processed_values-StateTouches s days seconds day_offset p =
        mark_card-StateTouches _ day_offset (
          admit_card-StateTouches _ day_offset (
            start_day-StateTouches _ day_offset
              (add_elapsed-StateTouches s days seconds day_offset p)))
