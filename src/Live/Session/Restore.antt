-- ===== src/Live/Session/Restore.antt =====
-- A value written over the slot of its own card keeps the index.
use rwkv_srs.Base.{
  [], ◌∷◌, zero, suc, List, ℤ, ℕ, ◌<◌, length, ◌≡◌, get_elem?, some, get_or, false, arith, refl,
  sym, true, length-set, ℤ-discrete, ap, ◌∙◌, not,
}
use rwkv_srs.Live.{
  no_candidate, removed, LivePredictionSessionState, LiveCandidateValue, candidate_at,
}
use rwkv_srs.Live.Order.{is_live}
use rwkv_srs.Live.Session.{IsIndexed}
use rwkv_srs.Live.Session.Columns.{get_or-set_self, card_id-set, get_or-set_other}
use rwkv_srs.Live.Session.Names.{named-lt}
use rwkv_srs.Live.Session.Written.{kept-IsIndexed, Written}
use rwkv_srs.Live.Slots.{rename_slot, restore_value}
use rwkv_srs.Live.Status.{is_removed}
use rwkv_srs.Map.{Map, get, IsSorted, insert, remove}
use rwkv_srs.Map.Laws.{
  ext, insert-IsSorted, remove-IsSorted, get-insert_self, get-insert_ne, get-remove_ne,
}

get_elem?-get_or {ℓ} :
    {A : Type ℓ} (xs : List A) (i : ℕ) (d : A)
    → i < length xs
    → get_elem? xs i ≡ some (get_or xs i d)
get_elem?-get_or [] i d h = elim h [ ]
get_elem?-get_or (x ∷ xs) zero d h = refl
get_elem?-get_or (x ∷ xs) (suc i) d h = get_elem?-get_or xs i d (omega arith)

-- Taking a key out and putting its value back changes nothing.
insert-remove :
    (k : ℤ) (v : ℕ) (m : Map ℕ) → IsSorted m → get k m ≡ some v → insert k v (remove k m) ≡ m
insert-remove k v m s h =
    ext (insert k v (remove k m)) m (insert-IsSorted k v (remove k m) (remove-IsSorted k m s)) s
      λ j. elim (ℤ-discrete j k) [
        | yes same ↦ rw same (get-insert_self k v (remove k m) ∙ sym h)
        | no other ↦ get-insert_ne j k v (remove k m) other ∙ get-remove_ne j k m other
      ]

module _ (s : LivePredictionSessionState) (slot : ℕ) (v : LiveCandidateValue) (i : IsIndexed s)
    (at : get v.candidate.card_id s.slot_by_card_id ≡ some slot)
    (stays : is_removed v.status ≡ false) where
  same_card : (candidate_at s slot).card_id ≡ v.candidate.card_id
  same_card = (i.names_live v.candidate.card_id slot at).1

  in_range : slot < length s.candidates
  in_range = ground (arith, named-lt s i v.candidate.card_id slot at, i.lengths.status_length)

  rename_slot-names : (rename_slot s slot v).slot_by_card_id ≡ s.slot_by_card_id
  unfolding rename_slot
  rename_slot-names =
      rw (stays, get_elem?-get_or s.candidates slot no_candidate in_range, same_card, rename_slot)
        (insert-remove v.candidate.card_id slot s.slot_by_card_id i.sorted at)

  restore_value-Written : Written s (restore_value s slot v) slot
  unfolding restore_value rename_slot
  restore_value-Written =
      let l = i.lengths in
      let back = sym (length-set s.candidates slot v.candidate) in
      record {
        lengths = record {
          predictions_length =
              length-set s.predictions slot v.prediction ∙ l.predictions_length ∙ back;
          normal_length = length-set s.normal_targets slot v.normal_target ∙ l.normal_length ∙ back;
          intraday_length =
              length-set s.intraday_targets slot v.intraday_target ∙ l.intraday_length ∙ back;
          tie_length = length-set s.tie_breakers slot v.tie_breaker ∙ l.tie_length ∙ back;
          random_length = length-set s.random_keys slot v.random_key ∙ l.random_length ∙ back;
          status_length = length-set s.statuses slot v.status ∙ l.status_length ∙ back;
          eligible_length = length-set s.eligibilities slot v.eligible ∙ l.eligible_length ∙ back;
          marks_length = l.marks_length ∙ back;
        };
        same_marks = refl;
        same_generation = refl;
        same_slots = refl;
        same_ranking = refl;
        same_cards = λ w. card_id-set slot w s.candidates v.candidate no_candidate (sym same_card);
        same_status = λ w h.
            ap (λ st. not (is_removed st)) (get_or-set_other s.statuses slot w v.status removed h);
        same_columns = λ w h. record {
          same_eligible = get_or-set_other s.eligibilities slot w v.eligible false h;
          same_prediction = get_or-set_other s.predictions slot w v.prediction 0 h;
          same_random = get_or-set_other s.random_keys slot w v.random_key 0 h;
          same_normal = get_or-set_other s.normal_targets slot w v.normal_target 0 h;
          same_intraday = get_or-set_other s.intraday_targets slot w v.intraday_target 0 h;
          same_tie = get_or-set_other s.tie_breakers slot w v.tie_breaker 0 h;
          same_candidate = get_or-set_other s.candidates slot w v.candidate no_candidate h;
        };
      }

  restore_value-live : is_live (restore_value s slot v) slot ≡ true
  unfolding restore_value rename_slot
  restore_value-live =
      rw
        (get_or-set_self s.statuses slot v.status removed
          (named-lt s i v.candidate.card_id slot at))
        (ap not stays)

  restore_value-names : (restore_value s slot v).slot_by_card_id ≡ s.slot_by_card_id
  unfolding restore_value
  restore_value-names = rename_slot-names

  pub restore_value-IsIndexed : IsIndexed (restore_value s slot v)
  restore_value-IsIndexed =
      kept-IsIndexed s (restore_value s slot v) slot restore_value-Written i restore_value-names
        (i.names_live v.candidate.card_id slot at).0 restore_value-live
