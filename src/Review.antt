-- ===== src/Review.antt =====
-- The rows that the runtime takes: `MaybeId` and `ReviewInput` of rust/rwkv-srs-cpu/src/state.rs.
use rwkv_srs.Base.{ℕ, ◌/◌, ◌%◌, ◌^◌, ℤ, IsI64, Option, Bool, true, not, ◌==◌, ◌≡◌}
use rwkv_srs.Bytes.{IsU64}

-- An `f64` is its 64-bit pattern, an `f32` its 32-bit pattern.
abbrev pub F64 : Type 0
F64 = ℕ

abbrev pub F32 : Type 0
F32 = ℕ

-- `f64::is_finite`: the exponent is not all ones.
unfoldable pub is_finite : F64 → Bool
is_finite w = not (w / 2 ^ 52 % 2048 == 2047)

pub data MaybeId : Type 0 where
  present : ℤ → MaybeId
  missing : MaybeId

pub record ReviewInput : Type 0 where
  pub review_id : ℤ
  pub card_id : ℤ
  pub note_id : MaybeId
  pub deck_id : MaybeId
  pub preset_id : MaybeId
  pub day_offset : F64
  pub elapsed_days : F64
  pub elapsed_seconds : F64
  pub rating : Option ℤ
  pub duration : Option F64
  pub state : Option F64

-- A finite `f64`, as a bit pattern.
pub record IsFinite (w : F64) : Type 0 where
  pub fits : IsU64 w
  pub finite : is_finite w ≡ true

abbrev pub IdFits : MaybeId → Type 0
IdFits (present id) = IsI64 id
IdFits missing = Unit

-- What every row shares: integers that fit and finite numbers.
pub record IsRow (r : ReviewInput) : Type 0 where
  pub review : IsI64 r.review_id
  pub card : IsI64 r.card_id
  pub note : IdFits r.note_id
  pub deck : IdFits r.deck_id
  pub preset : IdFits r.preset_id
  pub day : IsFinite r.day_offset
  pub days : IsFinite r.elapsed_days
  pub seconds : IsFinite r.elapsed_seconds
