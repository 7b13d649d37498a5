-- ===== src/Rng/RoundTrip.antt =====
-- The generator is read back from its serialized form, and some states that are accepted cannot draw.
use Prim.Native.Nat.{bit_or}
use rwkv_srs.Base.{
  ℕ, zero, suc, ◌+◌, ◌-◌, ◌*◌, ◌/◌, ◌%◌, ◌^◌, ◌<◌, ◌≤◌, List, [], ◌∷◌, ◌++◌, length, take, drop,
  get_elem?, replicate, none, ok, ltb, lt→ltb, ◌==◌, Bool, true, false, ◌≡◌, ◌≢◌, refl, arith,
  length-append, ◌&&◌,
}
use rwkv_srs.Bytes.{le_bytes}
use rwkv_srs.Bytes.Laws.{length-le_bytes, of_le_bytes-le_bytes, drop-append, take-append}
use rwkv_srs.Rng.{Rng, draw, random_u32}
use rwkv_srs.Rng.Safe.{AllU32, IsWords}
use rwkv_srs.Rng.Torch.{words_of, narrow, from_torch_rng_state, bytes_of, to_torch_rng_state_bytes}

abbrev AllU64 : List ℕ → Type 0
AllU64 [] = Unit
AllU64 (w ∷ ws) = (w < 2 ^ 64) × AllU64 ws

words_of-bytes_of : (ws : List ℕ) → AllU64 ws → words_of (length ws) (bytes_of ws) ≡ ws
unfolding words_of bytes_of
words_of-bytes_of [] h = refl
words_of-bytes_of (w ∷ ws) (p, h) =
    rw (front, of_le_bytes-le_bytes 8 w p, back, words_of-bytes_of ws h)
  where
    front : take 8 (le_bytes 8 w ++ bytes_of ws) ≡ le_bytes 8 w
    front = rw length-le_bytes at (take-append (le_bytes 8 w) (bytes_of ws))

    back : drop 8 (le_bytes 8 w ++ bytes_of ws) ≡ bytes_of ws
    back = rw length-le_bytes at (drop-append (le_bytes 8 w) (bytes_of ws))

words_of-bytes_of-length :
    (n : ℕ) (ws : List ℕ) → length ws ≡ n → AllU64 ws → words_of n (bytes_of ws) ≡ ws
words_of-bytes_of-length n ws e h = rw (← e) (words_of-bytes_of ws h)

length-bytes_of : (ws : List ℕ) → length (bytes_of ws) ≡ 8 * length ws
unfolding bytes_of
length-bytes_of [] = omega arith
length-bytes_of (w ∷ ws) =
    omega
      (arith, length-append (le_bytes 8 w) (bytes_of ws), length-le_bytes 8 w, length-bytes_of ws)

narrow-AllU32 : (ws : List ℕ) (i : ℕ) → AllU32 ws → narrow i ws ≡ ok ws
unfolding narrow
narrow-AllU32 [] i h = refl
narrow-AllU32 (w ∷ ws) i (p, h) = rw (lt→ltb _ _ p, narrow-AllU32 ws (i + 1) h)

wide : (ws : List ℕ) → AllU32 ws → AllU64 (ws ++ replicate 5 0)
wide [] h = omega arith
wide (w ∷ ws) (p, h) = (omega arith, wide ws h)

-- What `from_torch_rng_state` accepts: the counters at most 624.
pub record IsStored (r : Rng) : Type 0 where
  pub seed_fits : r.seed < 2 ^ 64
  pub left_fits : r.left ≤ 624
  pub next_fits : r.next ≤ 624
  pub array : IsWords r.state

all_left : ℕ → Bool
all_left zero = true
all_left (suc n) = (bit_or (2 ^ 32) n == 2 ^ 32 + n) && all_left n

all_left_sound : (n i : ℕ) → all_left n ≡ true → i < n → bit_or (2 ^ 32) i ≡ 2 ^ 32 + i
unfolding all_left
all_left_sound zero i h lt = absurd (omega arith)
all_left_sound (suc n) i h lt = ground (arith, all_left_sound n i)

bit_or_left : (left : ℕ) → left ≤ 624 → bit_or (2 ^ 32) left ≡ 2 ^ 32 + left
unfolding all_left
bit_or_left left h = all_left_sound 625 left refl (omega arith)

abbrev values : Rng → List ℕ
values r = r.seed ∷ bit_or (2 ^ 32) r.left ∷ r.next ∷ (r.state ++ replicate 5 0)

pub length-to_torch_rng_state_bytes :
    (r : Rng) → IsStored r → length (to_torch_rng_state_bytes r) ≡ 5056
unfolding to_torch_rng_state_bytes
length-to_torch_rng_state_bytes r h =
    omega (arith, length-bytes_of (values r), length-append r.state (replicate 5 0), h.array.size)

-- A generator whose counters and words are in range is read back from its own bytes, field for field.
pub from-to_torch_rng_state :
    (r : Rng) → IsStored r → from_torch_rng_state (to_torch_rng_state_bytes r) ≡ ok r
unfolding from_torch_rng_state to_torch_rng_state_bytes
from-to_torch_rng_state r h =
    rw
      (size, read, head, low, left_ok, next_ok, middle, narrow-AllU32 r.state 0 h.array.words, tail)
  where
    count : length (values r) ≡ 632
    count = omega (arith, length-append r.state (replicate 5 0), h.array.size)

    size : (length (bytes_of (values r)) == 5056) ≡ true
    size = ground (arith, length-bytes_of (values r), count)

    read : words_of 632 (bytes_of (values r)) ≡ values r
    read = words_of-bytes_of-length 632 (values r) count (
      h.seed_fits,
      (
        omega (arith, bit_or_left r.left h.left_fits, h.left_fits),
        (omega (arith, h.next_fits), wide r.state h.array.words),
      ),
    )

    head : (bit_or (2 ^ 32) r.left / 2 ^ 32 == 1) ≡ true
    head = ground (arith, bit_or_left r.left h.left_fits, h.left_fits)

    low : bit_or (2 ^ 32) r.left % 2 ^ 32 ≡ r.left
    low = omega (arith, bit_or_left r.left h.left_fits, h.left_fits)

    left_ok : ltb 624 r.left ≡ false
    left_ok = ground (arith, h.left_fits)

    next_ok : ltb 624 r.next ≡ false
    next_ok = ground (arith, h.next_fits)

    middle : take 624 (r.state ++ replicate 5 0) ≡ r.state
    middle = rw h.array.size at (take-append r.state (replicate 5 0))

    tail : drop 624 (r.state ++ replicate 5 0) ≡ replicate 5 0
    tail = rw h.array.size at (drop-append r.state (replicate 5 0))

get_elem?_end : (ws : List ℕ) → get_elem? ws (length ws) ≡ none
get_elem?_end [] = refl
get_elem?_end (w ∷ ws) = get_elem?_end ws

-- A generator with counters in range whose position is 624, and which does not refill at once because its count of
-- words left is not 1, is accepted by `from_torch_rng_state`; its next draw then reads the state array
-- out of bounds and panics.
pub from_torch_rng_state-panics :
    (r : Rng)
    → IsStored r
    → r.next ≡ 624
    → r.left ≢ 1
    → (from_torch_rng_state (to_torch_rng_state_bytes r) ≡ ok r) × (random_u32 r ≡ none)
unfolding random_u32
from_torch_rng_state-panics r h e ne = (from-to_torch_rng_state r h, rw (more, at_end, random_u32))
  where
    more : ((r.left + 2 ^ 64 - 1) % 2 ^ 64 == 0) ≡ false
    more = ground (arith, h.left_fits)

    past : get_elem? r.state r.next ≡ none
    past = rw (e, ← h.array.size) (get_elem?_end r.state)

    at_end : draw (record r { left = (r.left + 2 ^ 64 - 1) % 2 ^ 64 }) ≡ none
    at_end = rw (past, draw)
