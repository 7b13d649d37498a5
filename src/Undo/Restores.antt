-- ===== src/Undo/Restores.antt =====
-- The batch journal gives back the state that it was captured from.
use rwkv_srs.Base.{◌++◌, ◌≡◌, refl, append-nil}
use rwkv_srs.Map.Touch.{restore-capture_map_entries}
use rwkv_srs.State.{FeatureState, card, note, deck, preset}
use rwkv_srs.Undo.{restore_encodings}
use rwkv_srs.Undo.Batch.{
  BatchIdentitySets, keys, capture_encodings, capture_identities, restore_deterministic,
}
use rwkv_srs.Undo.Touch.{
  IsSortedState, Identities, StateTouches, restore-capture_set_entries, restore_cards-eq,
  restore_encodings-eq,
}

abbrev pub identities : BatchIdentitySets → Identities
identities b = record {
  cards = keys b.card_ids;
  notes = keys b.note_ids;
  decks = keys b.deck_ids;
  presets = keys b.preset_ids;
}

module _ (b : BatchIdentitySets) (s t : FeatureState) (h : IsSortedState s)
    (p : StateTouches (identities b) s t) where
  restored_encodings :
      restore_encodings t.id_encodings (
        capture_encodings s.id_encodings card (keys b.card_ids)
        ++ (capture_encodings s.id_encodings note (keys b.note_ids)
            ++ (capture_encodings s.id_encodings deck (keys b.deck_ids)
                ++ capture_encodings s.id_encodings preset (keys b.preset_ids))))
      ≡ s.id_encodings
  restored_encodings =
      rw
        (
          restore_encodings-eq card,
          restore_encodings-eq note,
          restore_encodings-eq deck,
          ← append-nil (capture_encodings s.id_encodings preset (keys b.preset_ids)),
          restore_encodings-eq preset,
          restore-capture_map_entries (keys b.card_ids) s.id_encodings.of_card
              t.id_encodings.of_card h.encoded_cards p.encoded_cards,
          restore-capture_map_entries (keys b.note_ids) s.id_encodings.of_note
              t.id_encodings.of_note h.encoded_notes p.encoded_notes,
          restore-capture_map_entries (keys b.deck_ids) s.id_encodings.of_deck
              t.id_encodings.of_deck h.encoded_decks p.encoded_decks,
          restore-capture_map_entries (keys b.preset_ids) s.id_encodings.of_preset
              t.id_encodings.of_preset h.encoded_presets p.encoded_presets,
        )
        (unfold restore_encodings in refl)

  -- Where the maps of `s` are sorted, and `t` differs from it in its maps at the identities of the
  -- batch at most, the journal that was captured from `s` turns `t` into `s`, in every field.
  pub restore-capture_identities : restore_deterministic (capture_identities s b) t ≡ s
  unfolding restore_deterministic capture_identities
  restore-capture_identities = rw (
    restore_cards-eq (keys b.card_ids) s,
    restored_encodings,
    restore-capture_set_entries (keys b.card_ids) s.card_set t.card_set h.card_set p.card_set,
    restore-capture_map_entries (keys b.card_ids) s.last_new_cards t.last_new_cards h.last_new_cards
        p.last_new_cards,
    restore-capture_map_entries (keys b.card_ids) s.last_i t.last_i h.last_i p.last_i,
    restore-capture_map_entries (keys b.card_ids) s.card2first_day_offset t.card2first_day_offset
        h.first_days p.first_days,
    restore-capture_map_entries (keys b.card_ids) s.card2elapsed_days_cumulative
        t.card2elapsed_days_cumulative h.day_sums p.day_sums,
    restore-capture_map_entries (keys b.card_ids) s.card2elapsed_seconds_cumulative
        t.card2elapsed_seconds_cumulative h.second_sums p.second_sums,
    restore-capture_set_entries (keys b.card_ids) s.recurrent_state_keys.card_states
        t.recurrent_state_keys.card_states h.card_keys p.card_keys,
    restore-capture_set_entries (keys b.note_ids) s.recurrent_state_keys.note_states
        t.recurrent_state_keys.note_states h.note_keys p.note_keys,
    restore-capture_set_entries (keys b.deck_ids) s.recurrent_state_keys.deck_states
        t.recurrent_state_keys.deck_states h.deck_keys p.deck_keys,
    restore-capture_set_entries (keys b.preset_ids) s.recurrent_state_keys.preset_states
        t.recurrent_state_keys.preset_states h.preset_keys p.preset_keys,
  )
