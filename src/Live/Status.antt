-- ===== src/Live/Status.antt =====
-- LiveOrder, LivePredictionMode and CandidateStatus of live_session.rs: their names and the moves
-- of a candidate's status.
pub mod Names
use Prim.Native.String.{String}
use text.Mathlib.Text.{◌==◌ as str_eq}
use rwkv_srs.Base.{Bool, true, false, Result, ok, err, if◌then◌else◌}
use rwkv_srs.Live.{
  LiveOrder, retrievability_ascending, retrievability_descending, relative_overdueness, random,
  LivePredictionMode, oracle, fast, gpu, CandidateStatus, active, excluded, pending_refresh,
  excluded_pending_refresh, removed, LiveError, unknown_name,
}

unfoldable pub order_name : LiveOrder → String
order_name retrievability_ascending = "retrievability_ascending"
order_name retrievability_descending = "retrievability_descending"
order_name relative_overdueness = "relative_overdueness"
order_name random = "random"

unfoldable pub parse_order : String → Result LiveError LiveOrder
parse_order value =
    if str_eq value "retrievability_ascending"
    then ok retrievability_ascending
    else (if str_eq value "retrievability_descending"
        then ok retrievability_descending
        else (if str_eq value "relative_overdueness"
            then ok relative_overdueness
            else (if str_eq value "random" then ok random else err unknown_name)))

unfoldable pub mode_name : LivePredictionMode → String
mode_name oracle = "oracle"
mode_name fast = "fast"
mode_name gpu = "gpu"

unfoldable pub parse_mode : String → Result LiveError LivePredictionMode
parse_mode value =
    if str_eq value "oracle"
    then ok oracle
    else (if str_eq value "fast"
        then ok fast
        else (if str_eq value "gpu" then ok gpu else err unknown_name))

unfoldable pub status_name : CandidateStatus → String
status_name active = "active"
status_name excluded = "excluded"
status_name pending_refresh = "pending_refresh"
status_name excluded_pending_refresh = "excluded_pending_refresh"
status_name removed = "removed"

abbrev pub is_included : CandidateStatus → Bool
is_included active = true
is_included pending_refresh = true
is_included _ = false

abbrev pub is_excluded : CandidateStatus → Bool
is_excluded excluded = true
is_excluded excluded_pending_refresh = true
is_excluded _ = false

abbrev pub prediction_is_usable : CandidateStatus → Bool
prediction_is_usable active = true
prediction_is_usable excluded = true
prediction_is_usable _ = false

-- `status == CandidateStatus::Removed`, and `== CandidateStatus::PendingRefresh`
abbrev pub is_removed : CandidateStatus → Bool
is_removed removed = true
is_removed _ = false

abbrev pub is_pending : CandidateStatus → Bool
is_pending pending_refresh = true
is_pending _ = false

-- CandidateStatus::excluded, included and refreshed
abbrev pub to_excluded : CandidateStatus → CandidateStatus
to_excluded active = excluded
to_excluded pending_refresh = excluded_pending_refresh
to_excluded other = other

abbrev pub to_included : CandidateStatus → CandidateStatus
to_included excluded = active
to_included excluded_pending_refresh = pending_refresh
to_included other = other

abbrev pub to_refreshed : CandidateStatus → CandidateStatus
to_refreshed pending_refresh = active
to_refreshed excluded_pending_refresh = excluded
to_refreshed other = other
