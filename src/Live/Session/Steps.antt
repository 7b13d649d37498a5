-- ===== src/Live/Session/Steps.antt =====
-- The runs of a live session: the methods that change its candidates, in any order.
use rwkv_srs.Base.{ℤ, Option, List, ◌≢◌, err, ℕ, Bool, ◌≡◌, some}
use rwkv_srs.Features.{FloatOps}
use rwkv_srs.Live.{
  LivePredictionSessionState, LiveCandidateSeedNative, panicked, LivePredictionMode,
}
use rwkv_srs.Live.Edit.{
  exclude_card, include_card, remove_card, upsert_candidates, set_retention_extra, apply_answer,
  set_mode,
}
use rwkv_srs.Live.Session.{IsSession}
use rwkv_srs.Live.Session.Answer.{apply_answer-IsSession}
use rwkv_srs.Live.Session.Edits.{
  exclude_card-IsSession, include_card-IsSession, remove_card-IsSession,
}
use rwkv_srs.Live.Session.Retention.{set_retention_extra-IsSession, set_mode-IsSession}
use rwkv_srs.Live.Session.Upsert.{upsert_candidates-IsSession}
use rwkv_srs.Live.Undo.{LiveIndexUndoFrame}
use rwkv_srs.Map.{get}
use rwkv_srs.Review.{F64, ReviewInput}

-- One call of a method on a session. An answer is applied to the slot of a named card.
pub data Step (fl : FloatOps)
    : LivePredictionSessionState → LivePredictionSessionState → Type 0 where
  exclude :
      (s : LivePredictionSessionState) (card_id : ℤ) (undo : Option LiveIndexUndoFrame)
      → Step fl s (exclude_card s card_id undo).1.0
  include :
      (s : LivePredictionSessionState) (card_id : ℤ) (undo : Option LiveIndexUndoFrame)
      → Step fl s (include_card s card_id undo).1.0
  remove :
      (s : LivePredictionSessionState) (card_id : ℤ) (undo : Option LiveIndexUndoFrame)
      → Step fl s (remove_card fl s card_id undo).1.0
  upsert :
      (s : LivePredictionSessionState) (seeds : List LiveCandidateSeedNative)
      (undo : Option LiveIndexUndoFrame)
      → (upsert_candidates fl s seeds undo).0 ≢ err panicked
      → Step fl s (upsert_candidates fl s seeds undo).1.0
  retention :
      (s : LivePredictionSessionState) (extra : F64) (undo : Option LiveIndexUndoFrame)
      → Step fl s (set_retention_extra fl s extra undo).1.0
  answer :
      (s t : LivePredictionSessionState) (slot : ℕ) (input : ReviewInput) (requeue : Bool)
      (card_id : ℤ)
      → get card_id s.slot_by_card_id ≡ some slot
      → apply_answer fl s slot input requeue ≡ some t
      → Step fl s t
  prediction_mode :
      (s : LivePredictionSessionState) (mode : LivePredictionMode) → Step fl s (set_mode s mode).1

pub data Reach (fl : FloatOps) (s : LivePredictionSessionState)
    : LivePredictionSessionState → Type 0 where
  here : Reach fl s s
  next : {t u : LivePredictionSessionState} → Reach fl s t → Step fl t u → Reach fl s u

Step-IsSession :
    (fl : FloatOps) {s t : LivePredictionSessionState}
    → Step fl s t
    → IsSession fl s
    → IsSession fl t
Step-IsSession fl (exclude s card_id undo) h = exclude_card-IsSession fl s h card_id undo
Step-IsSession fl (include s card_id undo) h = include_card-IsSession fl s h card_id undo
Step-IsSession fl (remove s card_id undo) h = remove_card-IsSession fl s h card_id undo
Step-IsSession fl (upsert s seeds undo runs) h = upsert_candidates-IsSession fl s seeds undo h runs
Step-IsSession fl (retention s extra undo) h = set_retention_extra-IsSession fl s extra undo h
Step-IsSession fl (answer s t slot input requeue card_id at e) h =
    apply_answer-IsSession fl s t slot input requeue card_id h at e
Step-IsSession fl (prediction_mode s mode) h = set_mode-IsSession fl s mode h

-- From a session in good order every sequence of exclusions, inclusions, removals, upserts that do
-- not panic, answers to named cards, new retentions and new modes leads to a session in good order:
-- all vectors of one length, marks no newer than the generation, a sorted map that names exactly the
-- live slots, and the slots as a full sort has them.
pub Reach-IsSession :
    (fl : FloatOps) {s t : LivePredictionSessionState}
    → IsSession fl s
    → Reach fl s t
    → IsSession fl t
Reach-IsSession fl h here = h
Reach-IsSession fl h (next r step) = Step-IsSession fl step (Reach-IsSession fl h r)
