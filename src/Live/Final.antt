-- ===== src/Live/Final.antt =====
-- What a refresh hands back: final_selection_by and next_boundary of live_session.rs.
pub mod Boundary
use rwkv_srs.Base.{
  [], ◌∷◌, zero, suc, none, some, true, false, ◌>>=◌, ℕ, ℤ, Option, List, ◌^◌, if◌then◌else◌, Bool,
  not, ◌+◌, ltb, length, ◌||◌, ◌++◌,
}
use rwkv_srs.Features.{FloatOps, one_f64}
use rwkv_srs.Floats.{le_f64, next_up, min_f64, clamp_f64, lt_f64}
use rwkv_srs.Live.{LivePredictionSessionState, eligible_at, prediction_at, status_at, candidate_at}
use rwkv_srs.Live.Rank.{applicable_target}
use rwkv_srs.Live.Status.{is_included, prediction_is_usable}
use rwkv_srs.Review.{F64, is_finite}

pub record LiveSelectionValue : Type 0 where
  pub card_id : ℤ
  pub retrievability : F64
  pub target_retrievability : F64

pub record FinalSelection : Type 0 where
  pub eligible_count : ℕ
  pub active_count : ℕ
  pub selected : List LiveSelectionValue
  pub next_retention_extra : Option F64

-- As many rounds as there are patterns of 64 bits: the loop visits no pattern twice.
abbrev pub boundary_rounds : ℕ
boundary_rounds = 2 ^ 64

module _ (fl : FloatOps) where
  open fl use {add, sub}

  -- `prediction >= (target + required).clamp(0.0, 1.0)`
  unfoldable pub falls_short : F64 → F64 → F64 → Bool
  falls_short prediction target required =
      le_f64 (clamp_f64 (add target required) 0 one_f64) prediction

  -- The loop of next_boundary; `none` means that the rounds ran out.
  unfoldable pub raise_required : F64 → F64 → ℕ → F64 → Option F64
  raise_required prediction target zero required = none
  raise_required prediction target (suc rounds) required =
      elim (falls_short prediction target required) [
        | true ↦ raise_required prediction target rounds (next_up required)
        | false ↦ some required
      ]

  -- Where the loop starts.
  unfoldable pub first_required : F64 → F64 → F64
  first_required prediction target =
      let required = sub (next_up prediction) target in
      if le_f64 required (sub prediction target) then next_up required else required

  -- The least retention that would make the slot eligible; the outer `none` is for the rounds.
  unfoldable pub next_boundary : LivePredictionSessionState → ℕ → Option (Option F64)
  next_boundary s slot =
      let prediction = prediction_at s slot in
      let target = applicable_target s slot in
      if not (prediction_is_usable (status_at s slot))
      then some none
      else (if not (is_finite prediction) || (not (is_finite target) || le_f64 one_f64 prediction)
          then some none
          else (elim (raise_required prediction target boundary_rounds
              (first_required prediction target)) [
                | none ↦ none
                | some required ↦
                    some (if lt_f64 s.retention_extra required then some required else none)
              ]))

  -- `Some(match next { Some(current) => current.min(boundary), None => boundary })`
  abbrev pub least_boundary : Option F64 → Option F64 → Option F64
  least_boundary current none = current
  least_boundary none (some boundary) = some boundary
  least_boundary (some current) (some boundary) = some (min_f64 current boundary)

  -- One round of the loop over the ordered slots.
  unfoldable pub final_step :
      LivePredictionSessionState → ℕ → ℕ → FinalSelection → Option FinalSelection
  final_step s select_limit slot acc = elim (eligible_at s slot) [
    | true ↦ some (record {
      eligible_count = acc.eligible_count + 1;
      active_count = acc.active_count + 1;
      selected =
          if ltb (length acc.selected) select_limit
          then acc.selected
            ++ (record {
              card_id = (candidate_at s slot).card_id;
              retrievability = prediction_at s slot;
              target_retrievability = applicable_target s slot;
            })
              ∷ []
          else acc.selected;
      next_retention_extra = acc.next_retention_extra;
    })
    | false ↦ elim (next_boundary s slot) [
      | none ↦ none
      | some boundary ↦ some (record acc {
        active_count = acc.active_count + 1;
        next_retention_extra = least_boundary acc.next_retention_extra boundary;
      })
    ]
  ]

  unfoldable pub final_loop :
      LivePredictionSessionState
      → ℕ
      → (ℕ → ℤ → Bool)
      → List ℕ
      → FinalSelection
      → Option FinalSelection
  final_loop s select_limit is_left_out [] acc = some acc
  final_loop s select_limit is_left_out (slot ∷ rest) acc =
      elim (not (is_included (status_at s slot))
        || is_left_out slot (candidate_at s slot).card_id) [
          | true ↦ final_loop s select_limit is_left_out rest acc
          | false ↦ elim (final_step s select_limit slot acc) [
            | none ↦ none
            | some next ↦ final_loop s select_limit is_left_out rest next
          ]
        ]

  unfoldable pub final_selection_by :
      LivePredictionSessionState → ℕ → (ℕ → ℤ → Bool) → Option FinalSelection
  final_selection_by s select_limit is_left_out =
      final_loop s select_limit is_left_out s.ordered_slots (record {
        eligible_count = 0;
        active_count = 0;
        selected = [];
        next_retention_extra = none;
      })
