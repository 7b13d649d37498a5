-- ===== src/Undo/Batch.antt =====
-- `BatchUndoFrame`: one journal for a batch of rows, with every identity once
-- (rust/rwkv-srs-cpu/src/model/undo.rs).
use rwkv_srs.Base.{ℕ, ℤ, Bool, Option, List, [], ◌∷◌, ◌++◌}
use rwkv_srs.Map.{Set, get, has, set_insert}
use rwkv_srs.Map.Touch.{restore_map_entry, capture_map_entries, restore_map_entries}
use rwkv_srs.Review.{F64}
use rwkv_srs.Rng.{Rng}
use rwkv_srs.State.{
  FeatureState, ReviewIds, Submodule, card, note, deck, preset, IdEncodings, encodings,
}
use rwkv_srs.Undo.{
  Rnn, restore_set_entry, capture_set_entries, restore_set_entries, IdEncodingUndoEntry,
  restore_encodings,
}

pub record BatchIdentitySets : Type 0 where
  pub card_ids : Set
  pub note_ids : Set
  pub deck_ids : Set
  pub preset_ids : Set

unfoldable pub insert_ids : BatchIdentitySets → List ReviewIds → BatchIdentitySets
insert_ids b [] = b
insert_ids b (ids ∷ rest) =
    insert_ids
      (record {
        card_ids = set_insert ids.0 b.card_ids;
        note_ids = set_insert ids.1 b.note_ids;
        deck_ids = set_insert ids.2 b.deck_ids;
        preset_ids = set_insert ids.3 b.preset_ids;
      })
      rest

unfoldable pub from_ids : List ReviewIds → BatchIdentitySets
unfolding insert_ids
from_ids ids =
    insert_ids (record { card_ids = []; note_ids = []; deck_ids = []; preset_ids = [] }) ids

-- The iteration over a set.
unfoldable pub keys : Set → List ℤ
keys [] = []
keys ((k, _) ∷ s) = k ∷ keys s

pub record BatchCardUndoEntry : Type 0 where
  pub card_id : ℤ
  pub card_set_contains : Bool
  pub last_new_cards : Option ℕ
  pub last_i : Option ℤ
  pub card2first_day_offset : Option F64
  pub card2elapsed_days_cumulative : Option F64
  pub card2elapsed_seconds_cumulative : Option F64

pub record BatchRecurrentKeyUndoFrame : Type 0 where
  pub card_states : List (ℤ × Bool)
  pub note_states : List (ℤ × Bool)
  pub deck_states : List (ℤ × Bool)
  pub preset_states : List (ℤ × Bool)
  pub global_state_present : Bool

pub record BatchDeterministicUndoFrame : Type 0 where
  pub first_day_offset : Option F64
  pub prev_day_offset : Option F64
  pub card_count : ℕ
  pub i : ℤ
  pub today : F64
  pub today_reviews : ℤ
  pub today_new_cards : ℤ
  pub cards : List BatchCardUndoEntry
  pub id_encodings : List IdEncodingUndoEntry
  pub recurrent_keys : BatchRecurrentKeyUndoFrame
  pub id_rng : Rng

unfoldable pub capture_card : FeatureState → ℤ → BatchCardUndoEntry
capture_card s id = record {
  card_id = id;
  card_set_contains = has id s.card_set;
  last_new_cards = get id s.last_new_cards;
  last_i = get id s.last_i;
  card2first_day_offset = get id s.card2first_day_offset;
  card2elapsed_days_cumulative = get id s.card2elapsed_days_cumulative;
  card2elapsed_seconds_cumulative = get id s.card2elapsed_seconds_cumulative;
}

unfoldable pub capture_cards : FeatureState → List ℤ → List BatchCardUndoEntry
unfolding capture_card
capture_cards s [] = []
capture_cards s (k ∷ ks) = capture_card s k ∷ capture_cards s ks

unfoldable pub capture_encodings : IdEncodings → Submodule → List ℤ → List IdEncodingUndoEntry
capture_encodings e sub [] = []
capture_encodings e sub (k ∷ ks) =
    record { submodule = sub; id = k; previous = get k (encodings sub e) }
    ∷ capture_encodings e sub ks

unfoldable pub capture_identities : FeatureState → BatchIdentitySets → BatchDeterministicUndoFrame
unfolding capture_cards capture_encodings keys capture_set_entries
capture_identities s b =
    let e = s.id_encodings in
    let k = s.recurrent_state_keys in
    record {
      first_day_offset = s.first_day_offset;
      prev_day_offset = s.prev_day_offset;
      card_count = s.card_count;
      i = s.i;
      today = s.today;
      today_reviews = s.today_reviews;
      today_new_cards = s.today_new_cards;
      cards = capture_cards s (keys b.card_ids);
      id_encodings =
          capture_encodings e card (keys b.card_ids)
          ++ (capture_encodings e note (keys b.note_ids)
              ++ (capture_encodings e deck (keys b.deck_ids)
                  ++ capture_encodings e preset (keys b.preset_ids)));
      recurrent_keys = record {
        card_states = capture_set_entries k.card_states (keys b.card_ids);
        note_states = capture_set_entries k.note_states (keys b.note_ids);
        deck_states = capture_set_entries k.deck_states (keys b.deck_ids);
        preset_states = capture_set_entries k.preset_states (keys b.preset_ids);
        global_state_present = k.global_state;
      };
      id_rng = s.id_rng;
    }

unfoldable pub restore_card : FeatureState → BatchCardUndoEntry → FeatureState
restore_card s entry = record s {
  card_set = restore_set_entry s.card_set entry.card_id entry.card_set_contains;
  last_new_cards = restore_map_entry s.last_new_cards entry.card_id entry.last_new_cards;
  last_i = restore_map_entry s.last_i entry.card_id entry.last_i;
  card2first_day_offset =
      restore_map_entry s.card2first_day_offset entry.card_id entry.card2first_day_offset;
  card2elapsed_days_cumulative =
      restore_map_entry s.card2elapsed_days_cumulative entry.card_id
        entry.card2elapsed_days_cumulative;
  card2elapsed_seconds_cumulative =
      restore_map_entry s.card2elapsed_seconds_cumulative entry.card_id
        entry.card2elapsed_seconds_cumulative;
}

unfoldable pub restore_cards : FeatureState → List BatchCardUndoEntry → FeatureState
unfolding restore_card
restore_cards s [] = s
restore_cards s (entry ∷ rest) = restore_cards (restore_card s entry) rest

unfoldable pub restore_deterministic : BatchDeterministicUndoFrame → FeatureState → FeatureState
restore_deterministic f s =
    let scalars = record s {
      first_day_offset = f.first_day_offset;
      prev_day_offset = f.prev_day_offset;
      card_count = f.card_count;
      i = f.i;
      today = f.today;
      today_reviews = f.today_reviews;
      today_new_cards = f.today_new_cards;
    } in
    let carded = restore_cards scalars f.cards in
    let k = s.recurrent_state_keys in
    record carded {
      id_encodings = restore_encodings s.id_encodings f.id_encodings;
      id_rng = f.id_rng;
      recurrent_state_keys = record {
        card_states = restore_set_entries k.card_states f.recurrent_keys.card_states;
        note_states = restore_set_entries k.note_states f.recurrent_keys.note_states;
        deck_states = restore_set_entries k.deck_states f.recurrent_keys.deck_states;
        preset_states = restore_set_entries k.preset_states f.recurrent_keys.preset_states;
        global_state = f.recurrent_keys.global_state_present;
      };
    }

-- `BatchDeterministicUndoFrame::capture`
unfoldable pub capture_deterministic : FeatureState → List ReviewIds → BatchDeterministicUndoFrame
capture_deterministic s ids = capture_identities s (from_ids ids)

pub record BatchRecurrentUndoFrame (M : Type 0) : Type 0 where
  pub card_states : List (ℤ × Option M)
  pub note_states : List (ℤ × Option M)
  pub deck_states : List (ℤ × Option M)
  pub preset_states : List (ℤ × Option M)
  pub global_state : Option M

module _ {M : Type 0} where
  unfoldable pub capture_recurrent_identities :
      Rnn M → BatchIdentitySets → BatchRecurrentUndoFrame M
  unfolding keys
  capture_recurrent_identities rnn b = record {
    card_states = capture_map_entries rnn.card_states (keys b.card_ids);
    note_states = capture_map_entries rnn.note_states (keys b.note_ids);
    deck_states = capture_map_entries rnn.deck_states (keys b.deck_ids);
    preset_states = capture_map_entries rnn.preset_states (keys b.preset_ids);
    global_state = rnn.global_state;
  }

  -- The rows of the batch enter through their identities alone.
  unfoldable pub restore_recurrent : BatchRecurrentUndoFrame M → Rnn M → Rnn M
  restore_recurrent f rnn = record {
    card_states = restore_map_entries rnn.card_states f.card_states;
    note_states = restore_map_entries rnn.note_states f.note_states;
    deck_states = restore_map_entries rnn.deck_states f.deck_states;
    preset_states = restore_map_entries rnn.preset_states f.preset_states;
    global_state = f.global_state;
  }
