-- ===== src/Checkpoint/RoundTrip/Tensors.antt =====
-- A tensor of a checkpoint is read back from its bytes, with every NaN as one pattern: bin_read_tensor
-- and bin_write_tensor of rust/rwkv-srs-cpu/src/model/checkpoint_bin.rs.
use native.Mathlib.Nat.{mul_assoc}
use rwkv_srs.Checkpoint.Save.States.{write_dims, bin_write_tensor}
use rwkv_srs.Bytes.{le_bytes}
use rwkv_srs.Checkpoint.RoundTrip.Encodings.{AllF32, canonical_values}
use rwkv_srs.Review.{F32}
use rwkv_srs.Checkpoint.Reads.{
  canonical_f32, Reads, Reads-lift, bin_read_exact-Reads, Reads-done, vec_with_capacity, Reads-last,
  Reads-bind, usize-Reads, u8-Reads, Reads-skip, lift-Reads,
}
use rwkv_srs.Checkpoint.Tensor.{checked_mul, TensorOps, checked_product, product, from_vec}
use rwkv_srs.Checkpoint.Restore.States.{
  bin_read_f32_vec_bulk, f32s_of, read_dims, check_equal, bin_read_tensor,
}
use rwkv_srs.Checkpoint.Writer.{write_f32s, bin_write_f32, is_nan_f32, bin_write_u8, bin_write_u64}
use rwkv_srs.Base.{
  [], suc, ok, false, inl, inr, refl, subst, sym, ◌∙◌, ap, List, ℕ, length, ◌∷◌, ◌<◌, ◌≡◌, ◌*◌, ◌^◌,
  arith, ◌≤◌, length-append, ok, take, Bool-cases, ◌++◌, lt→ltb, subst, inl, drop, inr, ◌==◌,
  ==_iff, append-nil, ok-injective, >>=-split, append_assoc, length-map, ok-ne-err,
}
use rwkv_srs.Bytes.Laws.{length-le_bytes, of_le_bytes-le_bytes, take-append, drop-append}
use rwkv_srs.Checkpoint.Reader.{isize_max, bin_read_exact, CheckpointError}

abbrev pub AllDims : List ℕ → Type 0
AllDims [] = Unit
AllDims (d ∷ ds) = (d < 2 ^ 64) × AllDims ds

canonical_f32-lt : (v : F32) → v < 2 ^ 32 → canonical_f32 v < 2 ^ 32
unfolding canonical_f32
canonical_f32-lt v h = ground arith

bin_write_f32-canonical : (v : F32) → bin_write_f32 v ≡ le_bytes 4 (canonical_f32 v)
unfolding bin_write_f32 canonical_f32
bin_write_f32-canonical v = elim (Bool-cases (is_nan_f32 v)) [ inl e ↦ rw e | inr e ↦ rw e ]

pub length-write_f32s : (vs : List F32) → length (write_f32s vs) ≡ length vs * 4
unfolding write_f32s
length-write_f32s [] = omega arith
length-write_f32s (v ∷ vs) = rw bin_write_f32-canonical (
    omega (
      arith,
      length-append (le_bytes 4 (canonical_f32 v)) (write_f32s vs),
      length-le_bytes 4 (canonical_f32 v),
      length-write_f32s vs,
    ))

f32s_of-le_bytes :
    (n w : ℕ) (rest : List ℕ)
    → w < 2 ^ 32
    → f32s_of (suc n) (le_bytes 4 w ++ rest) ≡ w ∷ f32s_of n rest
unfolding f32s_of
f32s_of-le_bytes n w rest h = rw (front, back, of_le_bytes-le_bytes 4 w h)
  where
    front : take 4 (le_bytes 4 w ++ rest) ≡ le_bytes 4 w
    front = rw length-le_bytes at (take-append (le_bytes 4 w) rest)

    back : drop 4 (le_bytes 4 w ++ rest) ≡ rest
    back = rw length-le_bytes at (drop-append (le_bytes 4 w) rest)

write_f32s-cons :
    (v : F32) (vs : List F32) → write_f32s (v ∷ vs) ≡ le_bytes 4 (canonical_f32 v) ++ write_f32s vs
unfolding write_f32s
write_f32s-cons v vs = rw bin_write_f32-canonical

f32s_of-write_f32s :
    (vs : List F32) → AllF32 vs → f32s_of (length vs) (write_f32s vs) ≡ canonical_values vs
unfolding f32s_of
f32s_of-write_f32s [] h = refl
f32s_of-write_f32s (v ∷ vs) (p, h) = rw (
  write_f32s-cons v vs,
  f32s_of-le_bytes (length vs) (canonical_f32 v) (write_f32s vs) (canonical_f32-lt v p),
  f32s_of-write_f32s vs h,
)

checked_mul-fits : (a b : ℕ) → a * b < 2 ^ 64 → checked_mul a b ≡ ok (a * b)
unfolding checked_mul
checked_mul-fits a b h = rw (lt→ltb _ _ h)

exact-Reads : (bytes : List ℕ) (n : ℕ) → length bytes ≡ n → Reads (bin_read_exact n) bytes bytes
exact-Reads bytes n e =
    subst (λ k. Reads (bin_read_exact k) bytes bytes) e (bin_read_exact-Reads bytes)

bulk_nonempty :
    (vs : List F32)
    → AllF32 vs
    → length vs * 4 ≤ isize_max
    → (length vs * 4 == 0) ≡ false
    → Reads (bin_read_f32_vec_bulk (length vs)) (write_f32s vs) (canonical_values vs)
unfolding bin_read_f32_vec_bulk
bulk_nonempty vs h small some_bytes = Reads-lift _ (checked_mul-fits (length vs) 4 (omega arith)) (
    rw some_bytes (
      Reads-lift _ (vec_with_capacity 4 (length vs) small) (
        Reads-last _ (exact-Reads (write_f32s vs) (length vs * 4) (length-write_f32s vs))
          (rw (f32s_of-write_f32s vs h) (Reads-done (canonical_values vs))))))

bulk-Reads :
    (vs : List F32)
    → AllF32 vs
    → length vs * 4 ≤ isize_max
    → Reads (bin_read_f32_vec_bulk (length vs)) (write_f32s vs) (canonical_values vs)
unfolding bin_read_f32_vec_bulk write_f32s
bulk-Reads [] h small = Reads-lift _ (checked_mul-fits 0 4 (omega arith)) (Reads-done [])
bulk-Reads (v ∷ vs) h small = bulk_nonempty (v ∷ vs) h small (ground arith)

read_dims-Reads :
    (dims front : List ℕ)
    → AllDims dims
    → Reads (read_dims (length dims) front) (write_dims dims) (front ++ dims)
unfolding read_dims write_dims
read_dims-Reads [] front h = rw append-nil (Reads-done front)
read_dims-Reads (d ∷ dims) front (p, h) =
    rw (← append_assoc front (d ∷ []) dims)
      (Reads-bind _ (usize-Reads d p) (read_dims-Reads dims (front ++ d ∷ []) h))

pub checked_mul-eq : (a b n : ℕ) → checked_mul a b ≡ ok n → n ≡ a * b
unfolding checked_mul
checked_mul-eq a b n h = ground arith

-- A checked product that succeeds is the product.
pub checked_product-product :
    (dims : List ℕ) (acc n : ℕ) → checked_product acc dims ≡ ok n → acc * product dims ≡ n
unfolding checked_product product
checked_product-product [] acc n h = omega (arith, ok-injective h)
checked_product-product (d ∷ dims) acc n h =
    let (next, first, rest) = >>=-split (checked_mul acc d) _ h in
    sym (mul_assoc acc d (product dims))
    ∙ ap (λ (t : ℕ). t * product dims) (sym (checked_mul-eq acc d next first))
    ∙ checked_product-product dims next n rest

check_equal-Reads : (a b : ℕ) (e : CheckpointError) → a ≡ b → Reads (check_equal a b e) [] tt
unfolding check_equal
check_equal-Reads a b e same = rw ((==_iff a b).1 same) (Reads-done tt)

module _ {T : Type 0} (ops : TensorOps T) where
  -- What a tensor becomes in a checkpoint: its shape, and its values with one NaN.
  pub canonical_tensor : T → T
  canonical_tensor t = ops.tensor_of (canonical_values (ops.to_vec t)) (ops.dims t)

  -- A tensor in memory: as many values as its shape says, which fit an allocation.
  pub record IsStoredTensor (t : T) : Type 0 where
    pub shape : AllDims (ops.dims t)
    pub count : checked_product 1 (ops.dims t) ≡ ok (length (ops.to_vec t))
    pub memory : length (ops.to_vec t) * 4 ≤ isize_max
    pub values : AllF32 (ops.to_vec t)

  pub bin_write_tensor-split :
      (t : T) (rank : ℕ) (bytes : List ℕ)
      → bin_write_tensor ops t rank ≡ ok bytes
      → (length (ops.dims t) ≡ rank)
        × (bytes
            ≡ bin_write_u8 (length (ops.dims t))
              ++ (write_dims (ops.dims t)
                  ++ (bin_write_u64 (length (ops.to_vec t)) ++ write_f32s (ops.to_vec t))))
  unfolding bin_write_tensor
  bin_write_tensor-split t rank bytes w = elim (Bool-cases (length (ops.dims t) == rank)) [
    | inl e ↦ ((==_iff _ _).0 e, sym (ok-injective (rw e at w)))
    | inr e ↦ absurd (ok-ne-err bytes _ (sym (rw e at w)))
  ]

  from_vec-eq :
      (vs : List F32) (dims : List ℕ)
      → length vs ≡ product dims
      → from_vec ops vs dims ≡ ok (ops.tensor_of vs dims)
  unfolding from_vec
  from_vec-eq vs dims h = rw ((==_iff _ _).1 h)

  filled :
      (t : T) → IsStoredTensor t → length (canonical_values (ops.to_vec t)) ≡ product (ops.dims t)
  filled t stored = omega (
    arith,
    length-map (ops.to_vec t) canonical_f32,
    checked_product-product (ops.dims t) 1 _ stored.count,
  )

  pub tensor-Reads :
      (t : T) (rank : ℕ) (bytes : List ℕ)
      → rank < 2 ^ 8
      → IsStoredTensor t
      → bin_write_tensor ops t rank ≡ ok bytes
      → Reads (bin_read_tensor ops rank) bytes (canonical_tensor t)
  unfolding bin_read_tensor canonical_tensor
  tensor-Reads t rank bytes small stored w =
      let (same, whole) = bin_write_tensor-split t rank bytes w in
      let vs = ops.to_vec t in
      let dims = ops.dims t in
      rw whole (
        Reads-bind _ (u8-Reads (length dims) (rw (← same) at small)) (
          Reads-skip _ (check_equal-Reads (length dims) rank _ same) (
            Reads-bind _ (read_dims-Reads dims [] stored.shape) (
              Reads-lift _ stored.count (
                Reads-bind _ (usize-Reads (length vs) (omega (arith, stored.memory))) (
                  Reads-skip _ (check_equal-Reads (length vs) (length vs) _ refl) (
                    Reads-last _ (bulk-Reads vs stored.values stored.memory) (
                      lift-Reads _ _
                        (from_vec-eq (canonical_values vs) dims (filled t stored))))))))))
