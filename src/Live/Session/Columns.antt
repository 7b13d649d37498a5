-- ===== src/Live/Session/Columns.antt =====
-- Writes into the vectors of a session: what is read after them, and which slots stay live.
use rwkv_srs.Base.{
  ℕ, zero, suc, [], ◌∷◌, not, true, false, refl, arith, List, ◌==◌, ◌<◌, set, get_or, length, ◌≡◌,
}
use rwkv_srs.Live.{CandidateStatus, removed, LiveCandidate}
use rwkv_srs.Live.Order.{live_from}
use rwkv_srs.Live.Status.{is_removed}

pub get_or-set_other {ℓ} :
    {A : Type ℓ} (xs : List A) (i j : ℕ) (v d : A)
    → (i == j) ≡ false
    → get_or (set xs i v) j d ≡ get_or xs j d
get_or-set_other [] i j v d h = refl
get_or-set_other (x ∷ xs) zero zero v d h = ground arith
get_or-set_other (x ∷ xs) zero (suc j) v d h = refl
get_or-set_other (x ∷ xs) (suc i) zero v d h = refl
get_or-set_other (x ∷ xs) (suc i) (suc j) v d h = get_or-set_other xs i j v d (ground arith)

-- A status for one that is as removed changes no live slot.
pub live_from-set :
    (first slot : ℕ) (statuses : List CandidateStatus) (st : CandidateStatus)
    → is_removed st ≡ is_removed (get_or statuses slot removed)
    → live_from first (set statuses slot st) ≡ live_from first statuses
unfolding live_from
live_from-set first slot [] st h = refl
live_from-set first zero (x ∷ rest) st h = rw (h, live_from)
live_from-set first (suc slot) (x ∷ rest) st h =
    ground (arith, live_from-set (suc first) slot rest st h)

pub is_removed-set :
    (slot v : ℕ) (statuses : List CandidateStatus) (st : CandidateStatus)
    → is_removed st ≡ is_removed (get_or statuses slot removed)
    → is_removed (get_or (set statuses slot st) v removed) ≡ is_removed (get_or statuses v removed)
is_removed-set slot v [] st h = refl
is_removed-set zero zero (x ∷ rest) st h = h
is_removed-set zero (suc v) (x ∷ rest) st h = refl
is_removed-set (suc slot) zero (x ∷ rest) st h = refl
is_removed-set (suc slot) (suc v) (x ∷ rest) st h = is_removed-set slot v rest st h

-- A live slot is in range.
pub live-lt :
    (slot : ℕ) (statuses : List CandidateStatus)
    → not (is_removed (get_or statuses slot removed)) ≡ true
    → slot < length statuses
live-lt slot [] h = ground arith
live-lt zero (x ∷ rest) h = omega arith
live-lt (suc slot) (x ∷ rest) h = let below = live-lt slot rest h in omega arith

-- A slot whose status is set to Removed is not live, in range or not.
pub is_removed-set_self :
    (slot : ℕ) (statuses : List CandidateStatus)
    → is_removed (get_or (set statuses slot removed) slot removed) ≡ true
is_removed-set_self slot [] = refl
is_removed-set_self zero (x ∷ rest) = refl
is_removed-set_self (suc slot) (x ∷ rest) = is_removed-set_self slot rest

pub get_or-set_self {ℓ} :
    {A : Type ℓ} (xs : List A) (i : ℕ) (v d : A) → i < length xs → get_or (set xs i v) i d ≡ v
get_or-set_self [] i v d h = elim h [ ]
get_or-set_self (x ∷ xs) zero v d h = refl
get_or-set_self (x ∷ xs) (suc i) v d h = get_or-set_self xs i v d (omega arith)

-- A candidate written over one of the same card changes no card.
pub card_id-set :
    (slot v : ℕ) (candidates : List LiveCandidate) (c d : LiveCandidate)
    → c.card_id ≡ (get_or candidates slot d).card_id
    → (get_or (set candidates slot c) v d).card_id ≡ (get_or candidates v d).card_id
card_id-set slot v [] c d h = refl
card_id-set zero zero (x ∷ rest) c d h = h
card_id-set zero (suc v) (x ∷ rest) c d h = refl
card_id-set (suc slot) zero (x ∷ rest) c d h = refl
card_id-set (suc slot) (suc v) (x ∷ rest) c d h = card_id-set slot v rest c d h
