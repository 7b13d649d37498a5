-- ===== src/Live/Order/Merge.antt =====
-- The merge of the updated slots gives the list that the full sort gives.
use rwkv_srs.Base.{
  ℕ, zero, suc, ◌+◌, ◌<◌, inl, inr, Ordering, Bool, true, false, not, List, [], ◌∷◌, get_or, map,
  ◌≡◌, refl, ap, arith, Bool-cases, fun_ext,
}
use rwkv_srs.Features.{FloatOps}
use rwkv_srs.Live.{LivePredictionSessionState, CandidateStatus, removed}
use rwkv_srs.Live.Order.{live_from, is_live, updated_entries}
use rwkv_srs.Live.Rank.{
  compare_slots, compare_slot_to_rank_entry, rank_entry, compare_entries, compare_key_to_rank_entry,
}
use rwkv_srs.Live.Status.{is_removed}
use rwkv_srs.Sorting.{sort_by, insert_by, merge_by, keep, count}
use rwkv_srs.Sorting.Laws.{AllAtLeast, Ascending}

abbrev pub bit : Bool → ℕ
bit true = 1
bit false = 0

count-live_from_below :
    (v first : ℕ) (statuses : List CandidateStatus)
    → v < first
    → count v (live_from first statuses) ≡ 0
unfolding count live_from
count-live_from_below v first [] h = refl
count-live_from_below v first (st ∷ rest) h =
    ground (arith, count-live_from_below v (suc first) rest)

-- Each slot that is not removed stands once among the live slots.
pub count-live_from :
    (k v first : ℕ) (statuses : List CandidateStatus)
    → v ≡ first + k
    → count v (live_from first statuses) ≡ bit (not (is_removed (get_or statuses k removed)))
unfolding count live_from
count-live_from k v first [] e = refl
count-live_from zero v first (st ∷ rest) e =
    ground (arith, count-live_from_below v (suc first) rest)
count-live_from (suc k) v first (st ∷ rest) e = ground (arith, count-live_from k v (suc first) rest)

-- A list without the elements that fail a test stays ascending, also under another comparison
-- that agrees on the elements that pass.
module _ (old new : ℕ → ℕ → Ordering) (test : ℕ → Bool)
    (agree : (a b : ℕ) → test a ≡ true → test b ≡ true → new a b ≡ old a b) where
  keep-AllAtLeast :
      (x : ℕ) (l : List ℕ) → test x ≡ true → AllAtLeast old x l → AllAtLeast new x (keep test l)
  unfolding keep
  keep-AllAtLeast x [] h a = tt
  keep-AllAtLeast x (y ∷ l) h (g, a) = elim (Bool-cases (test y)) [
    | inl e ↦ rw (AllAtLeast, e) (rw (agree x y h e) g, keep-AllAtLeast x l h a)
    | inr e ↦ rw (AllAtLeast, e) (keep-AllAtLeast x l h a)
  ]

  pub keep-Ascending : (l : List ℕ) → Ascending old l → Ascending new (keep test l)
  unfolding keep
  keep-Ascending [] a = tt
  keep-Ascending (y ∷ l) (g, a) = elim (Bool-cases (test y)) [
    | inl e ↦ rw (Ascending, e) (keep-AllAtLeast y l e g, keep-Ascending l a)
    | inr e ↦ rw (Ascending, e) (keep-Ascending l a)
  ]

pub keep_eq : (f g : ℕ → Bool) (l : List ℕ) → ((x : ℕ) → f x ≡ g x) → keep f l ≡ keep g l
keep_eq f g l h = ap (λ t. keep t l) (fun_ext h)

module _ (fl : FloatOps) (s : LivePredictionSessionState) where
  -- Sorting entries is sorting their slots.
  insert_by-rank_entry :
      (x : ℕ) (l : List ℕ)
      → insert_by (compare_entries fl s) (rank_entry fl s x) (map (rank_entry fl s) l)
        ≡ map (rank_entry fl s) (insert_by (compare_slots fl s) x l)
  unfolding insert_by compare_entries compare_slots rank_entry compare_key_to_rank_entry
  insert_by-rank_entry x [] = refl
  insert_by-rank_entry x (y ∷ l) = ground (arith, insert_by-rank_entry x l)

  sort_by-rank_entry :
      (l : List ℕ)
      → sort_by (compare_entries fl s) (map (rank_entry fl s) l)
        ≡ map (rank_entry fl s) (sort_by (compare_slots fl s) l)
  unfolding sort_by
  sort_by-rank_entry [] = refl
  sort_by-rank_entry (x ∷ l) =
      rw (sort_by-rank_entry l) (insert_by-rank_entry x (sort_by (compare_slots fl s) l))

  merge_by-rank_entry :
      (l r : List ℕ)
      → merge_by (compare_slot_to_rank_entry fl s) (λ entry. entry.slot) l (map (rank_entry fl s) r)
        ≡ merge_by (compare_slots fl s) (λ y. y) l r
  unfolding merge_by compare_slot_to_rank_entry compare_slots rank_entry compare_key_to_rank_entry
  merge_by-rank_entry [] [] = refl
  merge_by-rank_entry [] (y ∷ r) = ap (λ l. y ∷ l) (merge_by-rank_entry [] r)
  merge_by-rank_entry (x ∷ l) [] = refl
  merge_by-rank_entry (x ∷ l) (y ∷ r) =
      ground (arith, merge_by-rank_entry l (y ∷ r), merge_by-rank_entry (x ∷ l) r)

  pub merge-updated_entries :
      (l r : List ℕ)
      → merge_by (compare_slot_to_rank_entry fl s) (λ entry. entry.slot) l (updated_entries fl s r)
        ≡ merge_by
            (compare_slots fl s)
            (λ y. y)
            l
            (sort_by (compare_slots fl s) (keep (is_live s) r))
  unfolding updated_entries
  merge-updated_entries l r =
      rw (sort_by-rank_entry (keep (is_live s) r))
        (merge_by-rank_entry l (sort_by (compare_slots fl s) (keep (is_live s) r)))
