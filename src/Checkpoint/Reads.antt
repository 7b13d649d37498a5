-- ===== src/Checkpoint/Reads.antt =====
-- What a reader of checkpoint_bin.rs takes from the bytes that a writer of it appends.
use rwkv_srs.Base.{
  ℕ, zero, suc, ◌+◌, ◌-◌, ◌*◌, ◌^◌, ◌<◌, ◌≤◌, ℤ, bits_of_i64, bits_of_i64-lt, i64_of_bits,
  i64_of_bits-bits_of_i64, IsI64, List, [], ◌∷◌, ◌++◌, length, Option, none, some, Result, ok,
  subst, ◌≡◌, refl, ap, ◌∙◌, append-nil, append_assoc, length-append, length-take, length-drop,
  take-append-drop, take, drop, ltb, Bool-cases, inl, inr, if◌then◌else◌, arith,
}
use rwkv_srs.Bytes.{le_bytes, of_le_bytes}
use rwkv_srs.Bytes.Laws.{length-le_bytes, of_le_bytes-le_bytes}
use rwkv_srs.Checkpoint.Reader.{
  Read, at, ◌>>=◌, done, lift, CheckpointError, split_at, bin_read_exact, bin_read_u8, bin_read_u32,
  bin_read_usize, bin_read_i64, bin_read_f64, bin_read_f32, bin_read_option_f64, read_chunks,
  bin_read_exact_vec, bin_read_bytes, read_chunk_bytes, bin_vec_with_capacity, isize_max,
}
use rwkv_srs.Checkpoint.Writer.{
  bin_write_u8, bin_write_u32, bin_write_u64, bin_write_i64, bin_write_f64, bin_write_f32,
  bin_write_option_f64, bin_write_bytes, is_nan_f32,
}
use rwkv_srs.Floats.{is_nan}
use rwkv_srs.Review.{F64, F32}

-- The read takes these bytes, whatever follows them, and gives the value. Positions fit 64 bits.
pub record Reads {ℓ} {A : Type ℓ} (read : Read A) (bytes : List ℕ) (a : A) : Type ℓ where
  pub run :
      (p : ℕ) (rest : List ℕ)
      → p + length bytes < 2 ^ 64
      → read (at p (bytes ++ rest)) ≡ ok (a, at (p + length bytes) rest)

pub Reads-bind {ℓ κ} :
    {A : Type ℓ} {B : Type κ} {first : Read A} {bs cs : List ℕ} {a : A} {b : B} (next : A → Read B)
    → Reads first bs a
    → Reads (next a) cs b
    → Reads (first >>= next) (bs ++ cs) b
unfolding ◌>>=◌
Reads-bind {first = first} {bs = bs} {cs = cs} {b = b} next h k = record { run = whole }
  where
    sum : (p : ℕ) → p + length bs + length cs ≡ p + length (bs ++ cs)
    sum p = omega (arith, length-append bs cs)

    whole :
        (p : ℕ) (rest : List ℕ)
        → p + length (bs ++ cs) < 2 ^ 64
        → (first >>= next) (at p ((bs ++ cs) ++ rest)) ≡ ok (b, at (p + length (bs ++ cs)) rest)
    whole p rest fits = rw (
      append_assoc bs cs rest,
      ◌>>=◌,
      h.run p (cs ++ rest) (omega (arith, sum p)),
      k.run (p + length bs) rest (omega (arith, sum p)),
      sum p,
    )

pub Reads-done {ℓ} : {A : Type ℓ} (a : A) → Reads (done a) [] a
unfolding done
Reads-done a = record { run = λ p rest fits. ap (λ n. ok (a, at n rest)) (omega arith) }

-- A first step that reads no bytes.
pub Reads-skip {ℓ κ} :
    {A : Type ℓ} {B : Type κ} {first : Read A} {bs : List ℕ} {a : A} {b : B} (next : A → Read B)
    → Reads first [] a
    → Reads (next a) bs b
    → Reads (first >>= next) bs b
Reads-skip next h k = Reads-bind next h k

-- The last step reads nothing.
pub Reads-last {ℓ κ} :
    {A : Type ℓ} {B : Type κ} {first : Read A} {bs : List ℕ} {a : A} {b : B} (next : A → Read B)
    → Reads first bs a
    → Reads (next a) [] b
    → Reads (first >>= next) bs b
Reads-last {first = first} {bs = bs} {b = b} next h k =
    subst (λ cs. Reads (first >>= next) cs b) (append-nil bs) (Reads-bind next h k)

-- A first step that is no read.
pub Reads-lift {ℓ κ} :
    {A : Type ℓ} {B : Type κ} {r : Result CheckpointError A} {bs : List ℕ} {a : A} {b : B}
    (next : A → Read B)
    → r ≡ ok a
    → Reads (next a) bs b
    → Reads (lift r >>= next) bs b
unfolding lift ◌>>=◌
Reads-lift next e k = record { run = λ p rest fits. rw e (k.run p rest fits) }

-- A last step that is no read.
pub lift-Reads {ℓ} :
    {A : Type ℓ} (r : Result CheckpointError A) (a : A) → r ≡ ok a → Reads (lift r) [] a
unfolding lift done
lift-Reads r a e = rw e (Reads-done a)

split_at-append :
    (front back : List ℕ) → split_at (length front) (front ++ back) ≡ some (front, back)
unfolding split_at
split_at-append [] back = refl
split_at-append (b ∷ front) back = rw (split_at-append front back)

pub bin_read_exact-Reads : (bytes : List ℕ) → Reads (bin_read_exact (length bytes)) bytes bytes
unfolding bin_read_exact
bin_read_exact-Reads bytes = record {
  run = λ p rest fits. rw (bin_read_exact, split_at-append bytes rest);
}

exact_le : (n w : ℕ) → Reads (bin_read_exact n) (le_bytes n w) (le_bytes n w)
exact_le n w =
    subst (λ k. Reads (bin_read_exact k) (le_bytes n w) (le_bytes n w)) (length-le_bytes n w)
      (bin_read_exact-Reads (le_bytes n w))

-- A word of `n` bytes, and what is made of it.
word {ℓ} :
    {A : Type ℓ} (n w : ℕ) (f : ℕ → A)
    → w < 256 ^ n
    → Reads (bin_read_exact n >>= λ bytes. done (f (of_le_bytes bytes))) (le_bytes n w) (f w)
word n w f h = Reads-last _ (exact_le n w) (rw (of_le_bytes-le_bytes n w h) (Reads-done (f w)))

pub u8-Reads : (w : ℕ) → w < 2 ^ 8 → Reads bin_read_u8 (bin_write_u8 w) w
unfolding bin_read_u8 bin_write_u8
u8-Reads w h = word 1 w (λ v. v) (omega arith)

pub u32-Reads : (w : ℕ) → w < 2 ^ 32 → Reads bin_read_u32 (bin_write_u32 w) w
unfolding bin_read_u32 bin_write_u32
u32-Reads w h = word 4 w (λ v. v) (omega arith)

pub usize-Reads : (w : ℕ) → w < 2 ^ 64 → Reads bin_read_usize (bin_write_u64 w) w
unfolding bin_read_usize bin_write_u64
usize-Reads w h = word 8 w (λ v. v) (omega arith)

pub i64-Reads : (z : ℤ) → IsI64 z → Reads bin_read_i64 (bin_write_i64 z) z
unfolding bin_read_i64 bin_write_i64
i64-Reads z h =
    subst (Reads bin_read_i64 (bin_write_i64 z)) (i64_of_bits-bits_of_i64 z h)
      (word 8 (bits_of_i64 z) i64_of_bits (omega (arith, bits_of_i64-lt z)))

-- Every NaN is stored as one pattern.
unfoldable pub canonical_f64 : F64 → F64
canonical_f64 value = if is_nan value then 0x7ff8_0000_0000_0000 else value

unfoldable pub canonical_f32 : F32 → F32
canonical_f32 value = if is_nan_f32 value then 0x7fc0_0000 else value

pub f64-Reads : (w : F64) → w < 2 ^ 64 → Reads bin_read_f64 (bin_write_f64 w) (canonical_f64 w)
unfolding bin_read_f64 bin_write_f64 canonical_f64
f64-Reads w h = elim (Bool-cases (is_nan w)) [
  | inl e ↦ rw e (word 8 0x7ff8_0000_0000_0000 (λ v. v) (omega arith))
  | inr e ↦ rw e (word 8 w (λ v. v) (omega arith))
]

pub f32-Reads : (w : F32) → w < 2 ^ 32 → Reads bin_read_f32 (bin_write_f32 w) (canonical_f32 w)
unfolding bin_read_f32 bin_write_f32 canonical_f32
f32-Reads w h = elim (Bool-cases (is_nan_f32 w)) [
  | inl e ↦ rw e (word 4 0x7fc0_0000 (λ v. v) (omega arith))
  | inr e ↦ rw e (word 4 w (λ v. v) (omega arith))
]

pub canonical_option : Option F64 → Option F64
canonical_option none = none
canonical_option (some w) = some (canonical_f64 w)

abbrev pub OptionFits : Option F64 → Type 0
OptionFits none = Unit
OptionFits (some w) = w < 2 ^ 64

pub option-Reads :
    (o : Option F64)
    → OptionFits o
    → Reads bin_read_option_f64 (bin_write_option_f64 o) (canonical_option o)
unfolding bin_read_option_f64 bin_write_option_f64 canonical_option
option-Reads none h = Reads-last _ (u8-Reads 0 (omega arith)) (Reads-done none)
option-Reads (some w) h =
    Reads-bind _ (u8-Reads 1 (omega arith)) (Reads-last _ (f64-Reads w h) (Reads-done _))

abbrev chunk_len : ℕ → ℕ
chunk_len remaining = if ltb remaining read_chunk_bytes then remaining else read_chunk_bytes

chunk_len_bounds : (n : ℕ) → (0 < chunk_len (suc n)) × (chunk_len (suc n) ≤ suc n)
chunk_len_bounds n = ground arith

take-Reads :
    (k : ℕ) (xs : List ℕ) → k ≤ length xs → Reads (bin_read_exact k) (take k xs) (take k xs)
take-Reads k xs h =
    subst (λ n. Reads (bin_read_exact n) (take k xs) (take k xs)) (omega (arith, length-take k xs))
      (bin_read_exact-Reads (take k xs))

-- One chunk, and then the rest.
next_chunk :
    (rounds k b : ℕ) (bytes front : List ℕ)
    → k ≤ suc (length bytes)
    → Reads
        (read_chunks rounds (length (drop k (b ∷ bytes))) (front ++ take k (b ∷ bytes)))
        (drop k (b ∷ bytes))
        ((front ++ take k (b ∷ bytes)) ++ drop k (b ∷ bytes))
    → Reads
        (bin_read_exact k >>= λ chunk. read_chunks rounds (suc (length bytes) - k) (front ++ chunk))
        (b ∷ bytes)
        (front ++ b ∷ bytes)
next_chunk rounds k b bytes front h later =
    subst (λ bs. Reads read bs (front ++ b ∷ bytes)) (take-append-drop k (b ∷ bytes))
      (Reads-bind _ (take-Reads k (b ∷ bytes) h) (rw (← whole, ← length-drop k (b ∷ bytes)) later))
  where
    read : Read (List ℕ)
    read =
        bin_read_exact k >>= λ chunk. read_chunks rounds (suc (length bytes) - k) (front ++ chunk)

    whole : (front ++ take k (b ∷ bytes)) ++ drop k (b ∷ bytes) ≡ front ++ b ∷ bytes
    whole =
        append_assoc front (take k (b ∷ bytes)) _ ∙ ap (front ++◌) (take-append-drop k (b ∷ bytes))

-- The chunks of a read give all its bytes.
read_chunks-Reads :
    (rounds : ℕ) (bytes front : List ℕ)
    → length bytes ≤ rounds
    → Reads (read_chunks rounds (length bytes) front) bytes (front ++ bytes)
unfolding read_chunks
read_chunks-Reads zero [] front h = rw append-nil (Reads-done front)
read_chunks-Reads zero (b ∷ bytes) front h = absurd (omega arith)
read_chunks-Reads (suc rounds) [] front h = rw append-nil (Reads-done front)
read_chunks-Reads (suc rounds) (b ∷ bytes) front h =
    let k = chunk_len (length (b ∷ bytes)) in
    let (least, most) = chunk_len_bounds (length bytes) in
    next_chunk rounds k b bytes front most (
      read_chunks-Reads rounds (drop k (b ∷ bytes)) (front ++ take k (b ∷ bytes))
        (omega (arith, length-drop k (b ∷ bytes))))

pub exact_vec-Reads : (bytes : List ℕ) → Reads (bin_read_exact_vec (length bytes)) bytes bytes
unfolding bin_read_exact_vec
exact_vec-Reads bytes = read_chunks-Reads (length bytes) bytes [] (omega arith)

pub bytes-Reads :
    (bytes : List ℕ) → length bytes < 2 ^ 64 → Reads bin_read_bytes (bin_write_bytes bytes) bytes
unfolding bin_read_bytes bin_write_bytes
bytes-Reads bytes h = Reads-bind _ (usize-Reads (length bytes) h) (exact_vec-Reads bytes)

-- A vector of a length whose bytes fit is allocated.
pub vec_with_capacity :
    (size len : ℕ) → len * size ≤ isize_max → bin_vec_with_capacity size len ≡ ok tt
unfolding bin_vec_with_capacity
vec_with_capacity size len h = ground arith
