-- ===== src/Undo/Recurrent.antt =====
-- The journal of a batch covers the identities of its rows, and undoes what `store_review_states`
-- (rust/rwkv-srs-cpu/src/model.rs) writes to the recurrent states of the rows that were processed.
use rwkv_srs.Undo.Restores.{identities}
use rwkv_srs.Undo.Process.{Covers}
use rwkv_srs.Map.Touch.{Touches, Touches-insert, Touches-refl, Hits, restore-capture_map_entries}
use rwkv_srs.State.{ReviewIds}
use rwkv_srs.Map.{insert, IsSorted, Set, set_insert}
use rwkv_srs.Undo.{Rnn, insert}
use rwkv_srs.Undo.Touch.{Identities}
use rwkv_srs.Undo.Batch.{
  from_ids, restore_recurrent, insert_ids, keys, capture_recurrent_identities, BatchIdentitySets,
}
use rwkv_srs.Base.{
  ◌≡◌, refl, sym, ◌∙◌, ℤ, List, [], ◌∷◌, ◌++◌, map, inl, inr, some, compare_ℤ_cases,
}

-- The set of a batch holds each of its identities.
pub keys-insert_self : (k : ℤ) (s : Set) → Hits k (keys (set_insert k s))
unfolding keys insert
keys-insert_self k [] = inl refl
keys-insert_self k ((j, u) ∷ s) = elim (compare_ℤ_cases k j) [
  | inl (e, h) ↦ rw (e, insert) (inl refl)
  | inr (inl (e, h)) ↦ rw (e, insert) (inl refl)
  | inr (inr (e, h)) ↦ rw (e, insert) (inr (keys-insert_self k s))
]

pub keys-insert-Hits : (k j : ℤ) (s : Set) → Hits j (keys s) → Hits j (keys (set_insert k s))
unfolding keys insert
keys-insert-Hits k j [] h = inr h
keys-insert-Hits k j ((i, u) ∷ s) (inl here) = elim (compare_ℤ_cases k i) [
  | inl (e, _) ↦ rw (e, insert) (inr (inl here))
  | inr (inl (e, same)) ↦ rw (e, insert) (inl (here ∙ sym same))
  | inr (inr (e, _)) ↦ rw (e, insert) (inl here)
]
keys-insert-Hits k j ((i, u) ∷ s) (inr there) = elim (compare_ℤ_cases k i) [
  | inl (e, _) ↦ rw (e, insert) (inr (inr there))
  | inr (inl (e, same)) ↦ rw (e, insert) (inr there)
  | inr (inr (e, _)) ↦ rw (e, insert) (inr (keys-insert-Hits k j s there))
]

pub insert_ids-Covers :
    (rest : List ReviewIds) (b : BatchIdentitySets) (ids : ReviewIds)
    → Covers (identities b) ids
    → Covers (identities (insert_ids b rest)) ids
unfolding insert_ids
insert_ids-Covers [] b ids c = c
insert_ids-Covers (next ∷ rest) b ids c = insert_ids-Covers rest _ ids (record {
  on_cards = keys-insert-Hits next.0 ids.0 b.card_ids c.on_cards;
  on_notes = keys-insert-Hits next.1 ids.1 b.note_ids c.on_notes;
  on_decks = keys-insert-Hits next.2 ids.2 b.deck_ids c.on_decks;
  on_presets = keys-insert-Hits next.3 ids.3 b.preset_ids c.on_presets;
})

-- The states of the five modules after a review: card, note, deck, preset and global.
abbrev pub ReviewStates : Type 0 → Type 0
ReviewStates M = M × M × M × M × M

module _ {M : Type 0} where
  unfoldable pub store_review_states : Rnn M → ReviewIds → ReviewStates M → Rnn M
  store_review_states rnn ids states = record {
    card_states = insert ids.0 states.0 rnn.card_states;
    note_states = insert ids.1 states.1 rnn.note_states;
    deck_states = insert ids.2 states.2 rnn.deck_states;
    preset_states = insert ids.3 states.3 rnn.preset_states;
    global_state = some states.4;
  }

  -- The rows of a batch, one after the other.
  unfoldable pub store_all : Rnn M → List (ReviewIds × ReviewStates M) → Rnn M
  unfolding store_review_states
  store_all rnn [] = rnn
  store_all rnn ((ids, states) ∷ rows) = store_all (store_review_states rnn ids states) rows

  pub record IsSortedRnn (rnn : Rnn M) : Type 0 where
    pub cards : IsSorted rnn.card_states
    pub notes : IsSorted rnn.note_states
    pub decks : IsSorted rnn.deck_states
    pub presets : IsSorted rnn.preset_states

  record RnnTouches (k : Identities) (a b : Rnn M) : Type 0 where
    pub card_touch : Touches k.cards a.card_states b.card_states
    pub note_touch : Touches k.notes a.note_states b.note_states
    pub deck_touch : Touches k.decks a.deck_states b.deck_states
    pub preset_touch : Touches k.presets a.preset_states b.preset_states

  abbrev AllStored : Identities → List (ReviewIds × ReviewStates M) → Type 0
  AllStored k [] = Unit
  AllStored k ((ids, _) ∷ rows) = Covers k ids × AllStored k rows

  insert_ids-AllStored :
      (rows : List (ReviewIds × ReviewStates M)) (rest : List ReviewIds) (b : BatchIdentitySets)
      → AllStored (identities (insert_ids b (map (λ row. row.0) rows ++ rest))) rows
  unfolding insert_ids
  insert_ids-AllStored [] rest b = tt
  insert_ids-AllStored ((ids, states) ∷ rows) rest b = (
    insert_ids-Covers (map (λ row. row.0) rows ++ rest) _ ids (record {
      on_cards = keys-insert_self ids.0 b.card_ids;
      on_notes = keys-insert_self ids.1 b.note_ids;
      on_decks = keys-insert_self ids.2 b.deck_ids;
      on_presets = keys-insert_self ids.3 b.preset_ids;
    }),
    insert_ids-AllStored rows rest _,
  )

  store_all-RnnTouches :
      (k : Identities) (a : Rnn M) (rows : List (ReviewIds × ReviewStates M)) (b : Rnn M)
      → AllStored k rows
      → RnnTouches k a b
      → RnnTouches k a (store_all b rows)
  unfolding store_all store_review_states
  store_all-RnnTouches k a [] b c p = p
  store_all-RnnTouches k a ((ids, states) ∷ rows) b (c, cs) p =
      store_all-RnnTouches k a rows (store_review_states b ids states) cs (record {
        card_touch = Touches-insert k.cards ids.0 states.0 c.on_cards p.card_touch;
        note_touch = Touches-insert k.notes ids.1 states.1 c.on_notes p.note_touch;
        deck_touch = Touches-insert k.decks ids.2 states.2 c.on_decks p.deck_touch;
        preset_touch = Touches-insert k.presets ids.3 states.3 c.on_presets p.preset_touch;
      })

  restore-RnnTouches :
      (b : BatchIdentitySets) (a c : Rnn M)
      → IsSortedRnn a
      → RnnTouches (identities b) a c
      → restore_recurrent (capture_recurrent_identities a b) c ≡ a
  unfolding restore_recurrent capture_recurrent_identities
  restore-RnnTouches b a c h p = rw (
    restore-capture_map_entries (keys b.card_ids) a.card_states c.card_states h.cards p.card_touch,
    restore-capture_map_entries (keys b.note_ids) a.note_states c.note_states h.notes p.note_touch,
    restore-capture_map_entries (keys b.deck_ids) a.deck_states c.deck_states h.decks p.deck_touch,
    restore-capture_map_entries (keys b.preset_ids) a.preset_states c.preset_states h.presets
        p.preset_touch,
  )

  -- A batch that stores the states of its first rows and then fails: the journal captured over the
  -- identities of all its rows gives back the recurrent states from before, which are sorted maps.
  pub restore-store_all :
      (rnn : Rnn M) (rows : List (ReviewIds × ReviewStates M)) (rest : List ReviewIds)
      → IsSortedRnn rnn
      → restore_recurrent
          (capture_recurrent_identities rnn (from_ids (map (λ row. row.0) rows ++ rest)))
          (store_all rnn rows)
        ≡ rnn
  unfolding from_ids
  restore-store_all rnn rows rest h =
      restore-RnnTouches (from_ids (map (λ row. row.0) rows ++ rest)) rnn (store_all rnn rows) h (
        store_all-RnnTouches _ rnn rows rnn (insert_ids-AllStored rows rest _) (record {
          card_touch = Touches-refl _ _ h.cards;
          note_touch = Touches-refl _ _ h.notes;
          deck_touch = Touches-refl _ _ h.decks;
          preset_touch = Touches-refl _ _ h.presets;
        }))
