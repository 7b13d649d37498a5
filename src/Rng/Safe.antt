-- ===== src/Rng/Safe.antt =====
-- No draw of a generator in order is out of bounds, and every draw keeps it in order.
use rwkv_srs.Review.{F32}
use Prim.Native.Nat.{bit_and, bit_xor}
use native.Mathlib.Decide.{ℕ_discrete}
use rwkv_srs.Base.{
  ℕ, zero, suc, ◌+◌, ◌-◌, ◌^◌, ◌<◌, ◌≤◌, List, [], ◌∷◌, some, length, get_elem?, set, length-set,
  ◌==◌, if◌then◌else◌, ◌≡◌, ◌⊎◌, refl, arith, Option, inr, ap, ◌%◌, ◌≢◌, ◌/◌, inl, false, ◌*◌,
}
use rwkv_srs.Rng.{
  Rng, mix_bits, twist, twist_at, twist_run, next_state, seed_from_u64, temper, seed_words,
  id_encoding, draw, random_u32, F32, centred,
}
use rwkv_srs.Rng.Bits.{bit_xor-lt, bit_or-lt, bit_and-lt}

abbrev pub AllU32 : List ℕ → Type 0
AllU32 [] = Unit
AllU32 (w ∷ ws) = (w < 2 ^ 32) × AllU32 ws

-- The state array: 624 words of 32 bits.
pub record IsWords (ws : List ℕ) : Type 0 where
  pub size : length ws ≡ 624
  pub words : AllU32 ws

-- Either the next draw refills the array, or the words that are left are still in it.
pub record IsReady (r : Rng) : Type 0 where
  pub array : IsWords r.state
  pub some_left : 1 ≤ r.left
  pub bounded : r.left ≤ 624
  pub in_range : (r.left ≡ 1) ⊎ (r.next + r.left ≤ 625)

get_elem?-AllU32 :
    (ws : List ℕ) (i : ℕ)
    → AllU32 ws
    → i < length ws
    → (w : ℕ) × (get_elem? ws i ≡ some w) × (w < 2 ^ 32)
get_elem?-AllU32 [] i a h = elim h [ ]
get_elem?-AllU32 (w ∷ ws) zero (p, a) h = (w, refl, p)
get_elem?-AllU32 (w ∷ ws) (suc i) (p, a) h = get_elem?-AllU32 ws i a (omega arith)

set-AllU32 : (ws : List ℕ) (i w : ℕ) → AllU32 ws → w < 2 ^ 32 → AllU32 (set ws i w)
set-AllU32 [] i w a h = tt
set-AllU32 (v ∷ ws) zero w (p, a) h = (h, a)
set-AllU32 (v ∷ ws) (suc i) w (p, a) h = (p, set-AllU32 ws i w a h)

pub twist-lt : (u v : ℕ) → u < 2 ^ 32 → v < 2 ^ 32 → twist u v < 2 ^ 32
unfolding twist
twist-lt u v p q = bit_xor-lt 32 _ _ (omega (arith, mixed)) constant
  where
    mixed : mix_bits u v < 2 ^ 32
    mixed =
        bit_or-lt 32 _ _ (bit_and-lt 32 u 0x8000_0000 p (omega arith))
          (bit_and-lt 32 v 0x7fff_ffff q (omega arith))

    constant : (if bit_and v 1 == 0 then 0 else 0x9908_b0df) < 2 ^ 32
    constant = ground arith

twist_at-IsWords :
    (ws : List ℕ) (i source follow : ℕ)
    → IsWords ws
    → i < 624
    → source < 624
    → follow < 624
    → (vs : List ℕ) × (twist_at ws i source follow ≡ some vs) × IsWords vs
unfolding twist_at
twist_at-IsWords ws i source follow h p q r =
    let (s, e, a) = get_elem?-AllU32 ws source h.words (omega arith) in
    let (u, f, b) = get_elem?-AllU32 ws i h.words (omega arith) in
    let (v, g, c) = get_elem?-AllU32 ws follow h.words (omega arith) in
    (
      set ws i (bit_xor s (twist u v)),
      rw (e, f, g, twist_at),
      record {
        size = omega (arith, length-set ws i (bit_xor s (twist u v)));
        words = set-AllU32 ws i _ h.words (bit_xor-lt 32 s _ a (twist-lt u v b c));
      },
    )

twist_run-IsWords :
    (source : ℕ → ℕ) (rounds i : ℕ) (ws : List ℕ)
    → ((j : ℕ) → i ≤ j → j < i + rounds → source j < 624)
    → i + rounds ≤ 623
    → IsWords ws
    → (vs : List ℕ) × (twist_run source rounds i ws ≡ some vs) × IsWords vs
unfolding twist_run
twist_run-IsWords source zero i ws inside fits h = (ws, refl, h)
twist_run-IsWords source (suc rounds) i ws inside fits h =
    let (vs, e, k) =
      twist_at-IsWords ws i (source i) (i + 1) h (omega arith)
        (inside i (omega arith) (omega arith)) (omega arith) in
    let (us, f, l) =
      twist_run-IsWords source rounds (i + 1) vs (λ j p q. inside j (omega arith) (omega arith))
        (omega arith) k in
    (us, rw (e, f, twist_run), l)

-- The refill never reads out of bounds, and gives 624 words of 32 bits again.
pub next_state-IsWords :
    (r : Rng)
    → IsWords r.state
    → (ws : List ℕ) × (next_state r ≡ some (record r { left = 624; next = 0; state = ws }))
      × IsWords ws
unfolding next_state
next_state-IsWords r h =
    let (low, e, a) =
      twist_run-IsWords (λ i. i + 397) 227 0 r.state (λ j p q. omega arith) (omega arith) h in
    let (high, f, b) =
      twist_run-IsWords (λ i. i + 397 - 624) 396 227 low (λ j p q. omega arith) (omega arith) a in
    let (last, g, c) =
      twist_at-IsWords high 623 396 0 b (omega arith) (omega arith) (omega arith) in
    (last, rw (e, f, g, next_state), c)

temper-lt : (y : ℕ) → y < 2 ^ 32 → temper y < 2 ^ 32
unfolding temper
temper-lt y0 h0 = bit_xor-lt 32 _ _ h3 (omega (arith, h3))
  where
    y1 : ℕ
    y1 = bit_xor y0 (y0 / 2 ^ 11)

    h1 : y1 < 2 ^ 32
    h1 = bit_xor-lt 32 _ _ h0 (omega arith)

    y2 : ℕ
    y2 = bit_xor y1 (bit_and (y1 * 2 ^ 7 % 2 ^ 32) 0x9d2c_5680)

    h2 : y2 < 2 ^ 32
    h2 = bit_xor-lt 32 _ _ h1 (bit_and-lt 32 _ _ (omega arith) (omega arith))

    h3 : bit_xor y2 (bit_and (y2 * 2 ^ 15 % 2 ^ 32) 0xefc6_0000) < 2 ^ 32
    h3 = bit_xor-lt 32 _ _ h2 (bit_and-lt 32 _ _ (omega arith) (omega arith))

draw_lem :
    (r : Rng)
    → IsWords r.state
    → r.next < 624
    → (y : ℕ) × (draw r ≡ some (y, record r { next = r.next + 1 })) × (y < 2 ^ 32)
unfolding draw
draw_lem r h p =
    let (y, e, a) = get_elem?-AllU32 r.state r.next h.words (omega (arith, h.size)) in
    (temper y, rw (e, draw), temper-lt y a)

-- What a draw gives: a word of 32 bits and a generator in order.
abbrev pub Draws : Option (ℕ × Rng) → Type 0
Draws o = (y : ℕ) × (r : Rng) × (o ≡ some (y, r)) × (y < 2 ^ 32) × IsReady r

first_in_range : 0 < 624
first_in_range = omega arith

random_u32_refill : (r : Rng) → IsReady r → r.left ≡ 1 → Draws (random_u32 r)
unfolding random_u32
random_u32_refill r h e =
    let (ws, f, a) = next_state-IsWords (record r { left = 0 }) h.array in
    let (y, g, b) = draw_lem (record r { left = 624; next = 0; state = ws }) a first_in_range in
    (
      y,
      record r { left = 624; next = 1; state = ws },
      rw (e, f, g, random_u32),
      b,
      record {
        array = a;
        some_left = omega arith;
        bounded = omega arith;
        in_range = inr (omega arith);
      },
    )

random_u32_rest : (r : Rng) → IsReady r → r.left ≢ 1 → Draws (random_u32 r)
unfolding random_u32
random_u32_rest r h ne =
    let (y, g, b) = draw_lem (record r { left = r.left - 1 }) h.array (omega (arith, h)) in
    (
      y,
      record r { left = r.left - 1; next = r.next + 1 },
      rw (fewer, positive, g, random_u32),
      b,
      record {
        array = h.array;
        some_left = omega (arith, h);
        bounded = omega (arith, h);
        in_range = inr (omega (arith, h));
      },
    )
  where
    fewer : (r.left + 2 ^ 64 - 1) % 2 ^ 64 ≡ r.left - 1
    fewer = omega (arith, h.some_left, h.bounded)

    positive : (r.left - 1 == 0) ≡ false
    positive = ground (arith, h.some_left)

-- A draw from a generator in order does not panic, gives a 32-bit word, and leaves the generator in
-- order.
pub random_u32-IsReady : (r : Rng) → IsReady r → Draws (random_u32 r)
random_u32-IsReady r h = elim (ℕ_discrete r.left 1) [
  | yes e ↦ random_u32_refill r h e
  | no ne ↦ random_u32_rest r h ne
]

-- From a generator in order, an identity encoding of any width is drawn without a panic, has that
-- width, and leaves the generator in order.
pub id_encoding-IsReady :
    (dim : ℕ) (r : Rng)
    → IsReady r
    → (ys : List F32) × (r' : Rng) × (id_encoding r dim ≡ some (ys, r'))
      × (length ys ≡ dim)
      × IsReady r'
unfolding id_encoding
id_encoding-IsReady zero r h = ([], r, refl, refl, h)
id_encoding-IsReady (suc dim) r h =
    let (y, r1, e, b, h1) = random_u32-IsReady r h in
    let (ys, r2, f, n, h2) = id_encoding-IsReady dim r1 h1 in
    (centred (y % 4) ∷ ys, r2, rw (e, f, id_encoding), ap suc n, h2)

seed_words-AllU32 :
    (n j prev : ℕ) → AllU32 (seed_words n j prev) × (length (seed_words n j prev) ≡ n)
unfolding seed_words
seed_words-AllU32 zero j prev = (tt, refl)
seed_words-AllU32 (suc n) j prev =
    let (a, e) = seed_words-AllU32 n (j + 1) _ in ((omega arith, a), ap suc e)

-- Every seed starts a generator in order.
pub seed_from_u64-IsReady : (seed : ℕ) → IsReady (seed_from_u64 seed)
unfolding seed_from_u64
seed_from_u64-IsReady seed =
    let (a, e) = seed_words-AllU32 623 1 (seed % 2 ^ 32) in
    record {
      array = record { size = omega (arith, e); words = (omega arith, a) };
      some_left = omega arith;
      bounded = omega arith;
      in_range = inl refl;
    }
