-- ===== src/Live/Session/Append.antt =====
-- A value at a new slot keeps the index.
use rwkv_srs.Base.{
  [], ◌∷◌, zero, suc, ◌++◌, ℕ, List, length, get_or, ◌<◌, arith, ◌≡◌, refl, length-append, true,
  ◌⊎◌, false, ap, ℤ, some, none, not, ◌≢◌, sym, ℤ-discrete, inl, ◌∙◌, inr,
}
use rwkv_srs.Live.{
  removed, no_candidate, LivePredictionSessionState, LiveCandidateValue, candidate_at,
  LiveCandidate,
}
use rwkv_srs.Live.Order.{is_live}
use rwkv_srs.Live.Order.Invariant.{IsNamed}
use rwkv_srs.Live.Order.Marks.{AllAtMost, MarksOk}
use rwkv_srs.Live.Session.{IsIndexed, SameLengths, NamesLive}
use rwkv_srs.Live.Session.Columns.{live-lt}
use rwkv_srs.Live.Slots.{append_value}
use rwkv_srs.Live.Status.{is_removed}
use rwkv_srs.Map.{get, IsSorted}
use rwkv_srs.Map.Laws.{insert-IsSorted, get-insert_ne, get-insert_self, none-ne-some}
use rwkv_srs.State.Encodings.{some-injective}

get_or-append_old {ℓ} :
    {A : Type ℓ} (xs : List A) (y d : A) (v : ℕ)
    → v < length xs
    → get_or (xs ++ y ∷ []) v d ≡ get_or xs v d
get_or-append_old [] y d v h = elim h [ ]
get_or-append_old (x ∷ xs) y d zero h = refl
get_or-append_old (x ∷ xs) y d (suc v) h = get_or-append_old xs y d v (omega arith)

get_or-append_new {ℓ} :
    {A : Type ℓ} (xs : List A) (y d : A) → get_or (xs ++ y ∷ []) (length xs) d ≡ y
get_or-append_new [] y d = refl
get_or-append_new (x ∷ xs) y d = get_or-append_new xs y d

get_or-append_above {ℓ} :
    {A : Type ℓ} (xs : List A) (y d : A) (v : ℕ) → length xs < v → get_or (xs ++ y ∷ []) v d ≡ d
get_or-append_above [] y d zero h = elim h [ ]
get_or-append_above [] y d (suc v) h = refl
get_or-append_above (x ∷ xs) y d zero h = elim h [ ]
get_or-append_above (x ∷ xs) y d (suc v) h = get_or-append_above xs y d v (omega arith)

AllAtMost-append : (g : ℕ) (marks : List ℕ) → AllAtMost g marks → AllAtMost g (marks ++ 0 ∷ [])
AllAtMost-append g [] a = (omega arith, tt)
AllAtMost-append g (x ∷ marks) (h, a) = (h, AllAtMost-append g marks a)

length-append_one {ℓ κ} :
    {A : Type ℓ} {B : Type κ} (xs : List A) (ys : List B) (x : A) (y : B)
    → length xs ≡ length ys
    → length (xs ++ x ∷ []) ≡ length (ys ++ y ∷ [])
length-append_one xs ys x y h = ground (arith, length-append xs (x ∷ []), length-append ys (y ∷ []))

module _ (s : LivePredictionSessionState) (v : LiveCandidateValue) (i : IsIndexed s) where
  live_lt : (slot : ℕ) → is_live s slot ≡ true → slot < length s.statuses
  live_lt slot h = live-lt slot s.statuses h

  live-append_value :
      (slot : ℕ)
      → is_live (append_value s v) slot ≡ true
      → (is_live s slot ≡ true) × (slot < length s.statuses) ⊎ (slot ≡ length s.statuses)
  unfolding append_value
  live-append_value slot h = ground (
    arith,
    get_or-append_old s.statuses v.status removed slot,
    get_or-append_above s.statuses v.status removed slot,
  )

  old_live : (slot : ℕ) → is_live s slot ≡ true → is_live (append_value s v) slot ≡ true
  unfolding append_value
  old_live slot h =
      ground (arith, live_lt slot h, get_or-append_old s.statuses v.status removed slot)

  new_live : is_removed v.status ≡ false → is_live (append_value s v) (length s.candidates) ≡ true
  unfolding append_value
  new_live h =
      rw (← i.lengths.status_length, get_or-append_new s.statuses v.status removed) (ap not h)

  old_card :
      (slot : ℕ)
      → slot < length s.statuses
      → candidate_at (append_value s v) slot ≡ candidate_at s slot
  unfolding append_value
  old_card slot h =
      get_or-append_old s.candidates v.candidate no_candidate slot
        (ground (arith, i.lengths.status_length))

  new_card : candidate_at (append_value s v) (length s.candidates) ≡ v.candidate
  unfolding append_value
  new_card = get_or-append_new s.candidates v.candidate no_candidate

  get-append_value :
      (card_id : ℤ)
      → card_id ≢ v.candidate.card_id
      → get card_id (append_value s v).slot_by_card_id ≡ get card_id s.slot_by_card_id
  unfolding append_value
  get-append_value card_id h =
      get-insert_ne card_id v.candidate.card_id (length s.candidates) s.slot_by_card_id h

  get-append_value_new :
      get v.candidate.card_id (append_value s v).slot_by_card_id ≡ some (length s.candidates)
  unfolding append_value
  get-append_value_new = get-insert_self v.candidate.card_id (length s.candidates) s.slot_by_card_id

  append_value-MarksOk : MarksOk (append_value s v)
  unfolding append_value
  append_value-MarksOk =
      (AllAtMost-append s.update_mark_generation s.update_marks i.marks.0, i.marks.1)

  append_value-IsSorted : IsSorted (append_value s v).slot_by_card_id
  unfolding append_value
  append_value-IsSorted =
      insert-IsSorted v.candidate.card_id (length s.candidates) s.slot_by_card_id i.sorted

  append_value-lengths : SameLengths (append_value s v)
  unfolding append_value
  append_value-lengths = record {
    predictions_length =
        length-append_one s.predictions s.candidates v.prediction v.candidate
          i.lengths.predictions_length;
    normal_length =
        length-append_one s.normal_targets s.candidates v.normal_target v.candidate
          i.lengths.normal_length;
    intraday_length =
        length-append_one s.intraday_targets s.candidates v.intraday_target v.candidate
          i.lengths.intraday_length;
    tie_length =
        length-append_one s.tie_breakers s.candidates v.tie_breaker v.candidate
          i.lengths.tie_length;
    random_length =
        length-append_one s.random_keys s.candidates v.random_key v.candidate
          i.lengths.random_length;
    status_length =
        length-append_one s.statuses s.candidates v.status v.candidate i.lengths.status_length;
    eligible_length =
        length-append_one s.eligibilities s.candidates v.eligible v.candidate
          i.lengths.eligible_length;
    marks_length =
        length-append_one s.update_marks s.candidates 0 v.candidate i.lengths.marks_length;
  }

  module _ (fresh : get v.candidate.card_id s.slot_by_card_id ≡ none)
      (stays : is_removed v.status ≡ false) where
    not_new :
        (slot : ℕ) → is_live s slot ≡ true → (candidate_at s slot).card_id ≢ v.candidate.card_id
    not_new slot live same = none-ne-some slot (sym fresh ∙ rw (← same) (i.named slot live))

    append_value-IsNamed : IsNamed (append_value s v)
    append_value-IsNamed slot live = elim (live-append_value slot live) [
      | inl (was, below) ↦
          rw (old_card slot below)
            (get-append_value (candidate_at s slot).card_id (not_new slot was) ∙ i.named slot was)
      | inr e ↦
          let at : slot ≡ length s.candidates = e ∙ i.lengths.status_length in
          rw (at, new_card) get-append_value_new
    ]

    append_value-NamesLive : NamesLive (append_value s v)
    append_value-NamesLive card_id slot g = elim (ℤ-discrete card_id v.candidate.card_id) [
      | yes same ↦
          let here : some (length s.candidates) ≡ some slot =
            sym get-append_value_new ∙ rw same at g in
          let at : length s.candidates ≡ slot = some-injective here in
          rw (← at) (new_live stays, ap (λ (c : LiveCandidate). c.card_id) new_card ∙ sym same)
      | no other ↦
          let old = i.names_live card_id slot (sym (get-append_value card_id other) ∙ g) in
          (
            old_live slot old.0,
            ap (λ (c : LiveCandidate). c.card_id) (old_card slot (live_lt slot old.0)) ∙ old.1,
          )
    ]

    pub append_value-IsIndexed : IsIndexed (append_value s v)
    append_value-IsIndexed = record {
      lengths = append_value-lengths;
      marks = append_value-MarksOk;
      sorted = append_value-IsSorted;
      named = append_value-IsNamed;
      names_live = append_value-NamesLive;
    }
