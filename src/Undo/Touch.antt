-- ===== src/Undo/Touch.antt =====
-- States that differ at the identities of a batch at most, and the journals that undo the difference.
use rwkv_srs.Base.{ℤ, Option, none, some, is_some, List, [], ◌∷◌, ◌++◌, ◌≡◌, refl, ◌∙◌}
use rwkv_srs.Map.{Set, get, has, IsSorted}
use rwkv_srs.Map.Touch.{
  Touches, Touches-refl, restore_map_entry, capture_map_entries, restore_map_entries,
  restore-capture_map_entries,
}
use rwkv_srs.State.{
  FeatureState, Submodule, card, note, deck, preset, IdEncodings, encodings, put_encodings,
}
use rwkv_srs.Undo.{
  restore_set_entry, capture_set_entries, restore_set_entries, restore_encodings,
  IdEncodingUndoEntry,
}
use rwkv_srs.Undo.Batch.{
  capture_card, capture_cards, capture_encodings, restore_card, restore_cards,
}

-- Every map of the state keeps its keys in order.
pub record IsSortedState (s : FeatureState) : Type 0 where
  pub card_set : IsSorted s.card_set
  pub last_new_cards : IsSorted s.last_new_cards
  pub last_i : IsSorted s.last_i
  pub first_days : IsSorted s.card2first_day_offset
  pub day_sums : IsSorted s.card2elapsed_days_cumulative
  pub second_sums : IsSorted s.card2elapsed_seconds_cumulative
  pub encoded_cards : IsSorted s.id_encodings.of_card
  pub encoded_notes : IsSorted s.id_encodings.of_note
  pub encoded_decks : IsSorted s.id_encodings.of_deck
  pub encoded_presets : IsSorted s.id_encodings.of_preset
  pub card_keys : IsSorted s.recurrent_state_keys.card_states
  pub note_keys : IsSorted s.recurrent_state_keys.note_states
  pub deck_keys : IsSorted s.recurrent_state_keys.deck_states
  pub preset_keys : IsSorted s.recurrent_state_keys.preset_states

-- The identities that a change may touch.
pub record Identities : Type 0 where
  pub cards : List ℤ
  pub notes : List ℤ
  pub decks : List ℤ
  pub presets : List ℤ

-- The maps of `t` are sorted and differ from those of `s` at the identities `k` at most.
pub record StateTouches (k : Identities) (s t : FeatureState) : Type 0 where
  pub card_set : Touches k.cards s.card_set t.card_set
  pub last_new_cards : Touches k.cards s.last_new_cards t.last_new_cards
  pub last_i : Touches k.cards s.last_i t.last_i
  pub first_days : Touches k.cards s.card2first_day_offset t.card2first_day_offset
  pub day_sums : Touches k.cards s.card2elapsed_days_cumulative t.card2elapsed_days_cumulative
  pub second_sums :
      Touches k.cards s.card2elapsed_seconds_cumulative t.card2elapsed_seconds_cumulative
  pub encoded_cards : Touches k.cards s.id_encodings.of_card t.id_encodings.of_card
  pub encoded_notes : Touches k.notes s.id_encodings.of_note t.id_encodings.of_note
  pub encoded_decks : Touches k.decks s.id_encodings.of_deck t.id_encodings.of_deck
  pub encoded_presets : Touches k.presets s.id_encodings.of_preset t.id_encodings.of_preset
  pub card_keys :
      Touches k.cards s.recurrent_state_keys.card_states t.recurrent_state_keys.card_states
  pub note_keys :
      Touches k.notes s.recurrent_state_keys.note_states t.recurrent_state_keys.note_states
  pub deck_keys :
      Touches k.decks s.recurrent_state_keys.deck_states t.recurrent_state_keys.deck_states
  pub preset_keys :
      Touches k.presets s.recurrent_state_keys.preset_states t.recurrent_state_keys.preset_states

pub StateTouches-refl : (k : Identities) (s : FeatureState) → IsSortedState s → StateTouches k s s
StateTouches-refl k s h = record {
  card_set = Touches-refl k.cards _ h.card_set;
  last_new_cards = Touches-refl k.cards _ h.last_new_cards;
  last_i = Touches-refl k.cards _ h.last_i;
  first_days = Touches-refl k.cards _ h.first_days;
  day_sums = Touches-refl k.cards _ h.day_sums;
  second_sums = Touches-refl k.cards _ h.second_sums;
  encoded_cards = Touches-refl k.cards _ h.encoded_cards;
  encoded_notes = Touches-refl k.notes _ h.encoded_notes;
  encoded_decks = Touches-refl k.decks _ h.encoded_decks;
  encoded_presets = Touches-refl k.presets _ h.encoded_presets;
  card_keys = Touches-refl k.cards _ h.card_keys;
  note_keys = Touches-refl k.notes _ h.note_keys;
  deck_keys = Touches-refl k.decks _ h.deck_keys;
  preset_keys = Touches-refl k.presets _ h.preset_keys;
}

-- A set is put back as the map to the unit type that it is.
restore_set_entry-get :
    (s t : Set) (k : ℤ) → restore_set_entry t k (has k s) ≡ restore_map_entry t k (get k s)
unfolding has restore_set_entry restore_map_entry
restore_set_entry-get s t k = go (get k s)
  where
    go : (o : Option (Unit {0})) → restore_set_entry t k (is_some o) ≡ restore_map_entry t k o
    go none = refl
    go (some tt) = refl

restore_set_entries-eq :
    (ks : List ℤ) (s t : Set)
    → restore_set_entries t (capture_set_entries s ks)
      ≡ restore_map_entries t (capture_map_entries s ks)
unfolding restore_set_entries capture_set_entries restore_map_entries capture_map_entries
restore_set_entries-eq [] s t = refl
restore_set_entries-eq (k ∷ ks) s t =
    restore_set_entries-eq ks s _ ∙ rw (restore_set_entry-get s t k)

pub restore-capture_set_entries :
    (ks : List ℤ) (s t : Set)
    → IsSorted s
    → Touches ks s t
    → restore_set_entries t (capture_set_entries s ks) ≡ s
restore-capture_set_entries ks s t h p =
    restore_set_entries-eq ks s t ∙ restore-capture_map_entries ks s t h p

-- The journal of the cards works on the six maps of a card at once.
pub restore_cards-eq :
    (ks : List ℤ) (s t : FeatureState)
    → restore_cards t (capture_cards s ks) ≡ record t {
      card_set = restore_set_entries t.card_set (capture_set_entries s.card_set ks);
      last_new_cards =
          restore_map_entries t.last_new_cards (capture_map_entries s.last_new_cards ks);
      last_i = restore_map_entries t.last_i (capture_map_entries s.last_i ks);
      card2first_day_offset =
          restore_map_entries t.card2first_day_offset
            (capture_map_entries s.card2first_day_offset ks);
      card2elapsed_days_cumulative =
          restore_map_entries t.card2elapsed_days_cumulative
            (capture_map_entries s.card2elapsed_days_cumulative ks);
      card2elapsed_seconds_cumulative =
          restore_map_entries t.card2elapsed_seconds_cumulative
            (capture_map_entries s.card2elapsed_seconds_cumulative ks);
    }
unfolding restore_cards capture_cards restore_set_entries capture_set_entries restore_map_entries
    capture_map_entries
restore_cards-eq [] s t = refl
restore_cards-eq (k ∷ ks) s t = restore_cards-eq ks s (restore_card t (capture_card s k))

-- The journal of one submodule works on its map alone.
pub restore_encodings-eq :
    (sub : Submodule) (ks : List ℤ) (e f : IdEncodings) (rest : List IdEncodingUndoEntry)
    → restore_encodings f (capture_encodings e sub ks ++ rest)
      ≡ restore_encodings
          (put_encodings sub
            (restore_map_entries (encodings sub f) (capture_map_entries (encodings sub e) ks))
            f)
          rest
unfolding restore_encodings capture_encodings restore_map_entries capture_map_entries
restore_encodings-eq card [] e f rest = refl
restore_encodings-eq note [] e f rest = refl
restore_encodings-eq deck [] e f rest = refl
restore_encodings-eq preset [] e f rest = refl
restore_encodings-eq card (k ∷ ks) e f rest = restore_encodings-eq card ks e _ rest
restore_encodings-eq note (k ∷ ks) e f rest = restore_encodings-eq note ks e _ rest
restore_encodings-eq deck (k ∷ ks) e f rest = restore_encodings-eq deck ks e _ rest
restore_encodings-eq preset (k ∷ ks) e f rest = restore_encodings-eq preset ks e _ rest
