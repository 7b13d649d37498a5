-- ===== src/Rng.antt =====
-- The identity-encoding generator, `TorchMt19937` of rust/rwkv-srs-cpu/src/id_encoding.rs. `usize`
-- has 64 bits; arithmetic wraps around as in the release profiles; `none` is a panic.
pub mod Bits
pub mod Safe
pub mod Torch
pub mod RoundTrip
use Prim.Native.Nat.{bit_and, bit_or, bit_xor}
use rwkv_srs.Base.{
  ℕ, zero, suc, ◌+◌, ◌-◌, ◌*◌, ◌/◌, ◌%◌, ◌^◌, List, [], ◌∷◌, Option, none, some, length, get_elem?,
  set, ◌==◌, if◌then◌else◌,
}
use rwkv_srs.Review.{F32}

abbrev pub state_n : ℕ
state_n = 624

abbrev pub state_m : ℕ
state_m = 397

pub record Rng : Type 0 where
  pub seed : ℕ
  pub left : ℕ
  pub next : ℕ
  pub state : List ℕ

abbrev pub id_split : ℕ
id_split = 4

-- The words after the first, from index `j` on, where `prev` is the word before.
seed_words : ℕ → ℕ → ℕ → List ℕ
seed_words zero j prev = []
seed_words (suc n) j prev =
    let w = (1812433253 * bit_xor prev (prev / 2 ^ 30) % 2 ^ 32 + j) % 2 ^ 32 in
    w ∷ seed_words n (j + 1) w

unfoldable pub seed_from_u64 : ℕ → Rng
unfolding seed_words
seed_from_u64 seed = record {
  seed = seed;
  left = 1;
  next = 0;
  state = (seed % 2 ^ 32) ∷ seed_words 623 1 (seed % 2 ^ 32);
}

-- UMASK and LMASK
unfoldable pub mix_bits : ℕ → ℕ → ℕ
mix_bits u v = bit_or (bit_and u 0x8000_0000) (bit_and v 0x7fff_ffff)

unfoldable pub twist : ℕ → ℕ → ℕ
unfolding mix_bits
twist u v = bit_xor (mix_bits u v / 2) (if bit_and v 1 == 0 then 0 else 0x9908_b0df)

-- `state[i] = state[source] ^ twist(state[i], state[follow])`, where an index may be out of bounds.
unfoldable pub twist_at : List ℕ → ℕ → ℕ → ℕ → Option (List ℕ)
unfolding twist
twist_at state i source follow = elim (get_elem? state source) [
  | none ↦ none
  | some s ↦ elim (get_elem? state i) [
    | none ↦ none
    | some u ↦ elim (get_elem? state follow) [
      | none ↦ none
      | some v ↦ some (set state i (bit_xor s (twist u v)))
    ]
  ]
]

-- A loop of `next_state` with `rounds` rounds to go, at index `i`.
unfoldable pub twist_run : (ℕ → ℕ) → ℕ → ℕ → List ℕ → Option (List ℕ)
unfolding twist_at
twist_run source zero i state = some state
twist_run source (suc rounds) i state = elim (twist_at state i (source i) (i + 1)) [
  | none ↦ none
  | some state' ↦ twist_run source rounds (i + 1) state'
]

unfoldable pub next_state : Rng → Option Rng
unfolding twist_run
next_state r = elim (twist_run (λ i. i + state_m) (state_n - state_m) 0 r.state) [
  | none ↦ none
  | some low ↦ elim (twist_run (λ i. i + state_m - state_n) (state_m - 1) (state_n - state_m) low) [
    | none ↦ none
    | some high ↦ elim (twist_at high (state_n - 1) (state_m - 1) 0) [
      | none ↦ none
      | some last ↦ some (record r { left = state_n; next = 0; state = last })
    ]
  ]
]

-- The four tempering steps on a `u32`.
unfoldable pub temper : ℕ → ℕ
temper y0 =
    let y1 = bit_xor y0 (y0 / 2 ^ 11) in
    let y2 = bit_xor y1 (bit_and (y1 * 2 ^ 7 % 2 ^ 32) 0x9d2c_5680) in
    let y3 = bit_xor y2 (bit_and (y2 * 2 ^ 15 % 2 ^ 32) 0xefc6_0000) in bit_xor y3 (y3 / 2 ^ 18)

-- `self.state[self.next]`, then the increment.
unfoldable pub draw : Rng → Option (ℕ × Rng)
unfolding temper
draw r = elim (get_elem? r.state r.next) [
  | none ↦ none
  | some y ↦ some (temper y, record r { next = r.next + 1 })
]

unfoldable pub random_u32 : Rng → Option (ℕ × Rng)
unfolding draw next_state
random_u32 r =
    let left = (r.left + 2 ^ 64 - 1) % 2 ^ 64 in
    if left == 0
    then elim (next_state (record r { left = left })) [ none ↦ none | some r' ↦ draw r' ]
    else draw (record r { left = left })

-- `k as f32 - ID_CENTER` for k below 4: -1.5, -0.5, 0.5, 1.5.
unfoldable pub centred : ℕ → F32
centred k =
    if k == 0
    then 0xbfc0_0000
    else if k == 1
    then 0xbf00_0000
    else if k == 2
    then 0x3f00_0000
    else 0x3fc0_0000

unfoldable pub id_encoding : Rng → ℕ → Option (List F32 × Rng)
unfolding random_u32 centred
id_encoding r zero = some ([], r)
id_encoding r (suc dim) = elim (random_u32 r) [
  | none ↦ none
  | some (y, r') ↦ elim (id_encoding r' dim) [
    | none ↦ none
    | some (ys, r'') ↦ some (centred (y % id_split) ∷ ys, r'')
  ]
]

-- The generator that `id_encoding` leaves behind where it panics: earlier draws are made, and in the
-- last one `left` is one less and the read is out of bounds. The refill reads inside of the 624 words
-- of the source's array.
unfoldable pub unwound : Rng → ℕ → Rng
unfolding random_u32
unwound r zero = r
unwound r (suc dim) = elim (random_u32 r) [
  | none ↦ record r { left = (r.left + 2 ^ 64 - 1) % 2 ^ 64 }
  | some (y, r') ↦ unwound r' dim
]
