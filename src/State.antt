-- ===== src/State.antt =====
-- The feature state of the runtime: `FeatureState` and its neighbours of
-- rust/rwkv-srs-cpu/src/state.rs, and the identity submodules of id_encoding.rs.
pub mod Rows
pub mod Vector
pub mod Record
pub mod Direct
pub mod Predict
pub mod Panics
pub mod Encodings
use Prim.Native.String.{String}
use text.Mathlib.Text.{◌==◌ as str_eq}
use rwkv_srs.Base.{
  ℕ, ℤ, pos, negsuc, ◌+ℤ◌, ◌-ℤ◌, wrap_i64, i64_of_bits, ltb, pos_part, neg_part, Bool, true, false,
  Option, none, some, List, [], ◌∷◌, Result, ok, err, ◌>>=◌, ok_or, unwrap_or, if◌then◌else◌,
}
use rwkv_srs.Map.{Map, Set, get, insert}
use rwkv_srs.Review.{MaybeId, present, missing, F64, F32, ReviewInput}
use rwkv_srs.Features.{FloatOps, zero_f64, one_f64, minus_one_f64, id_placeholder}
use rwkv_srs.Rng.{Rng, seed_from_u64}

-- ID_SUBMODULES, with the width of each.
pub data Submodule : Type 0 where
  card note deck preset : Submodule

abbrev pub submodule_name : Submodule → String
submodule_name card = "card_id"
submodule_name note = "note_id"
submodule_name deck = "deck_id"
submodule_name preset = "preset_id"

abbrev pub id_submodules : List (Submodule × ℕ)
id_submodules = (card, 12) ∷ (note, 12) ∷ (deck, 8) ∷ (preset, 8) ∷ []

-- `IdEncodings`: the map of each submodule. All four are there from the start, and no code adds or
-- removes one.
pub record IdEncodings : Type 0 where
  pub of_card : Map (List F32)
  pub of_note : Map (List F32)
  pub of_deck : Map (List F32)
  pub of_preset : Map (List F32)

abbrev pub encodings : Submodule → IdEncodings → Map (List F32)
encodings card e = e.of_card
encodings note e = e.of_note
encodings deck e = e.of_deck
encodings preset e = e.of_preset

abbrev pub put_encodings : Submodule → Map (List F32) → IdEncodings → IdEncodings
put_encodings card m e = record e { of_card = m }
put_encodings note m e = record e { of_note = m }
put_encodings deck m e = record e { of_deck = m }
put_encodings preset m e = record e { of_preset = m }

abbrev pub empty_id_encodings : IdEncodings
empty_id_encodings = record { of_card = []; of_note = []; of_deck = []; of_preset = [] }

pub data RowValue : Type 0 where
  boolean : Bool → RowValue
  float : F64 → RowValue
  int : ℤ → RowValue

pub data StateError : Type 0 where
  not_numeric not_an_integer missing_field : String → StateError
  no_rating no_duration no_state : StateError
  no_encoding : Submodule → ℤ → StateError
  pair_width predict_width : ℕ → StateError
  panicked : StateError

unfoldable pub is_panicked : StateError → Bool
is_panicked panicked = true
is_panicked (not_numeric field) = false
is_panicked (not_an_integer field) = false
is_panicked (missing_field field) = false
is_panicked no_rating = false
is_panicked no_duration = false
is_panicked no_state = false
is_panicked (no_encoding sub id) = false
is_panicked (pair_width n) = false
is_panicked (predict_width n) = false

-- A panic, as opposed to a result or an error.
unfoldable pub is_panic {ℓ} : {A : Type ℓ} → Result StateError A → Bool
unfolding is_panicked
is_panic (ok a) = false
is_panic (err e) = is_panicked e

-- A prepared row, by field name.
abbrev pub PreparedRow : Type 0
PreparedRow = List (String × RowValue)

unfoldable pub row_get : String → PreparedRow → Option RowValue
row_get k [] = none
row_get k ((j, v) ∷ row) = if str_eq j k then some v else row_get k row

unfoldable pub row_insert : String → RowValue → PreparedRow → PreparedRow
row_insert k v [] = (k, v) ∷ []
row_insert k v ((j, w) ∷ row) = if str_eq j k then (k, v) ∷ row else (j, w) ∷ row_insert k v row

-- A chain of `row.insert` calls.
unfoldable pub insert_all : List (String × RowValue) → PreparedRow → PreparedRow
unfolding row_insert
insert_all [] row = row
insert_all ((k, v) ∷ rest) row = insert_all rest (row_insert k v row)

pub record RecurrentStateKeys : Type 0 where
  pub card_states : Set
  pub note_states : Set
  pub deck_states : Set
  pub preset_states : Set
  pub global_state : Bool

pub record FeatureState : Type 0 where
  pub first_day_offset : Option F64
  pub prev_day_offset : Option F64
  pub card_set : Set
  pub card_count : ℕ
  pub last_new_cards : Map ℕ
  pub i : ℤ
  pub last_i : Map ℤ
  pub today : F64
  pub today_reviews : ℤ
  pub today_new_cards : ℤ
  pub card2first_day_offset : Map F64
  pub card2elapsed_days_cumulative : Map F64
  pub card2elapsed_seconds_cumulative : Map F64
  pub id_encodings : IdEncodings
  pub recurrent_state_keys : RecurrentStateKeys
  pub id_rng : Rng

abbrev pub no_keys : RecurrentStateKeys
no_keys = record {
  card_states = [];
  note_states = [];
  deck_states = [];
  preset_states = [];
  global_state = false;
}

unfoldable pub with_torch_seed : ℕ → FeatureState
with_torch_seed seed = record {
  first_day_offset = none;
  prev_day_offset = none;
  card_set = [];
  card_count = 0;
  last_new_cards = [];
  i = pos 0;
  last_i = [];
  today = minus_one_f64;
  today_reviews = pos 0;
  today_new_cards = pos 0;
  card2first_day_offset = [];
  card2elapsed_days_cumulative = [];
  card2elapsed_seconds_cumulative = [];
  id_encodings = empty_id_encodings;
  recurrent_state_keys = no_keys;
  id_rng = seed_from_u64 seed;
}

-- Card, note, deck and preset.
abbrev pub ReviewIds : Type 0
ReviewIds = ℤ × ℤ × ℤ × ℤ

-- The identifier, or a placeholder with the flag 1.0.
unfoldable pub normalize_id : MaybeId → Option ℤ → ℤ × F64
normalize_id (present id) note_card_id = (id, zero_f64)
normalize_id missing note_card_id =
    (wrap_i64 (id_placeholder +ℤ unwrap_or note_card_id (pos 0)), one_f64)

unfoldable pub normalized_review_ids : ReviewInput → ReviewIds
unfolding normalize_id
normalized_review_ids input = (
  input.card_id,
  (normalize_id input.note_id (some input.card_id)).0,
  (normalize_id input.deck_id none).0,
  (normalize_id input.preset_id none).0,
)

-- `value.max(0)` on `i64`
unfoldable pub max_zero : ℤ → ℤ
max_zero (pos n) = pos n
max_zero (negsuc n) = pos 0

-- `self.card_count as i64 - *last as i64`, and `self.i - *last - 1`
unfoldable pub count_since : ℕ → ℕ → ℤ
count_since now last = wrap_i64 (i64_of_bits now -ℤ i64_of_bits last)

unfoldable pub reviews_since : ℤ → ℤ → ℤ
reviews_since now last = max_zero (wrap_i64 (wrap_i64 (now -ℤ last) -ℤ pos 1))

-- `x += 1` on an `i64`
unfoldable pub increment : ℤ → ℤ
increment z = wrap_i64 (z +ℤ pos 1)
