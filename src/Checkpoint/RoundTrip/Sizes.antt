-- ===== src/Checkpoint/RoundTrip/Sizes.antt =====
-- The size that the index of a checkpoint gives a recurrent state is the number of its bytes:
-- bin_entity_state_size of rust/rwkv-srs-cpu/src/model/checkpoint_bin.rs.
use rwkv_srs.Checkpoint.RoundTrip.Entities.{
  AllTensors, write_tensors-nil, AreStoredTensors, write_tensors-cons, IsStoredState,
}
use rwkv_srs.Checkpoint.RoundTrip.Tensors.{
  checked_mul-eq, IsStoredTensor, bin_write_tensor-split, checked_product-product,
  length-write_f32s,
}
use rwkv_srs.Checkpoint.Tensor.{checked_add, checked_mul, TensorOps, product, ModuleState}
use rwkv_srs.Checkpoint.Writer.{bin_write_u64, bin_write_u8, write_f32s}
use rwkv_srs.Checkpoint.Save.States.{
  tensor_size, write_dims, bin_tensor_vec_size, add_tensor_sizes, bin_write_tensor,
  bin_entity_state_size, write_tensors, bin_write_entity_state, bin_write_tensor_vec,
}
use rwkv_srs.Base.{
  [], ◌∷◌, ok, refl, length, List, ℕ, arith, ◌≡◌, ◌+◌, ◌*◌, length-append, >>=-split, ok-injective,
  ◌++◌, Bool-cases, ◌==◌, inr, ok-ne-err, sym, inl,
}

pub length-write_u64 : (n : ℕ) → length (bin_write_u64 n) ≡ 8
unfolding bin_write_u64
length-write_u64 n = refl

pub length-write_u8 : (n : ℕ) → length (bin_write_u8 n) ≡ 1
unfolding bin_write_u8
length-write_u8 n = refl

length-write_dims : (dims : List ℕ) → length (write_dims dims) ≡ length dims * 8
unfolding write_dims
length-write_dims [] = omega arith
length-write_dims (d ∷ dims) = omega (
  arith,
  length-append (bin_write_u64 d) (write_dims dims),
  length-write_u64 d,
  length-write_dims dims,
)

pub checked_add-eq : (a b n : ℕ) → checked_add a b ≡ ok n → n ≡ a + b
unfolding checked_add
checked_add-eq a b n h = ground arith

tensor_size-eq :
    (rank values n : ℕ) → tensor_size rank values ≡ ok n → n ≡ 9 + rank * 8 + values * 4
unfolding tensor_size
tensor_size-eq rank values n h =
    let (shape, e1, h1) = >>=-split (checked_mul rank 8) _ h in
    let (tagged, e2, h2) = >>=-split (checked_add 1 shape) _ h1 in
    let (counted, e3, h3) = >>=-split (checked_add tagged 8) _ h2 in
    let (value_bytes, e4, h4) = >>=-split (checked_mul values 4) _ h3 in
    omega (
      arith,
      checked_mul-eq rank 8 shape e1,
      checked_add-eq 1 shape tagged e2,
      checked_add-eq tagged 8 counted e3,
      checked_mul-eq values 4 value_bytes e4,
      checked_add-eq counted value_bytes n h4,
    )

module _ {T : Type 0} (ops : TensorOps T) where
  pub length-tensor :
      (t : T) (rank : ℕ) (bytes : List ℕ)
      → bin_write_tensor ops t rank ≡ ok bytes
      → length bytes ≡ 9 + rank * 8 + length (ops.to_vec t) * 4
  length-tensor t rank bytes w =
      let (same, whole) = bin_write_tensor-split ops t rank bytes w in
      let dims = ops.dims t in
      let vs = ops.to_vec t in
      rw whole (
        omega (
          arith,
          same,
          length-append (bin_write_u8 (length dims))
              (write_dims dims ++ (bin_write_u64 (length vs) ++ write_f32s vs)),
          length-append (write_dims dims) (bin_write_u64 (length vs) ++ write_f32s vs),
          length-append (bin_write_u64 (length vs)) (write_f32s vs),
          length-write_u8 (length dims),
          length-write_dims dims,
          length-write_u64 (length vs),
          length-write_f32s vs,
        ))

  -- A stored tensor has as many values as its shape says.
  pub elements : (t : T) → IsStoredTensor ops t → product (ops.dims t) ≡ length (ops.to_vec t)
  elements t stored = omega (arith, checked_product-product (ops.dims t) 1 _ stored.count)

  add_tensor_sizes-cons :
      (size : ℕ) (t : T) (ts : List T) (rank total : ℕ)
      → add_tensor_sizes ops size (t ∷ ts) rank ≡ ok total
      → (one next : ℕ) × (tensor_size rank (product (ops.dims t)) ≡ ok one)
        × (next ≡ size + one)
        × (add_tensor_sizes ops next ts rank ≡ ok total)
  unfolding add_tensor_sizes
  add_tensor_sizes-cons size t ts rank total h = elim (Bool-cases (length (ops.dims t) == rank)) [
    | inr e ↦ absurd (ok-ne-err total _ (sym (rw e at h)))
    | inl e ↦
        let (one, first, more) =
          >>=-split (tensor_size rank (product (ops.dims t))) _ (rw e at h) in
        let (next, sum, rest) = >>=-split (checked_add size one) _ more in
        (one, next, first, checked_add-eq size one next sum, rest)
  ]

  add_tensor_sizes-nil :
      (size rank total : ℕ) → add_tensor_sizes ops size [] rank ≡ ok total → size ≡ total
  unfolding add_tensor_sizes
  add_tensor_sizes-nil size rank total h = ok-injective h

  add_tensor_sizes-eq :
      (ts : List T) (size rank total : ℕ) (bytes : List ℕ)
      → AllTensors ops ts
      → add_tensor_sizes ops size ts rank ≡ ok total
      → write_tensors ops ts rank ≡ ok bytes
      → total ≡ size + length bytes
  add_tensor_sizes-eq [] size rank total bytes stored h w =
      rw (← write_tensors-nil ops rank bytes w)
        (omega (arith, add_tensor_sizes-nil size rank total h))
  add_tensor_sizes-eq (t ∷ ts) size rank total bytes (p, stored) h w =
      let (one, next, sized, sum, rest_sized) = add_tensor_sizes-cons size t ts rank total h in
      let (first, rest, wrote, wrote_rest, whole) = write_tensors-cons ops t ts rank bytes w in
      rw whole (
        omega (
          arith,
          sum,
          elements t p,
          tensor_size-eq rank (product (ops.dims t)) one sized,
          length-tensor t rank first wrote,
          add_tensor_sizes-eq ts next rank total rest stored rest_sized wrote_rest,
          length-append first rest,
        ))

  vec_size-eq :
      (ts : List T) (rank total : ℕ) (bytes : List ℕ)
      → AreStoredTensors ops ts
      → bin_tensor_vec_size ops ts rank ≡ ok total
      → bin_write_tensor_vec ops ts rank ≡ ok bytes
      → total ≡ length bytes
  unfolding bin_tensor_vec_size bin_write_tensor_vec
  vec_size-eq ts rank total bytes stored h w =
      let (all, wrote, whole) = >>=-split (write_tensors ops ts rank) _ w in
      rw (← ok-injective whole) (
        omega (
          arith,
          add_tensor_sizes-eq ts 8 rank total all stored.each h wrote,
          length-append (bin_write_u64 (length ts)) all,
          length-write_u64 (length ts),
        ))

  -- For a state with as many layers in each of its lists, and tensors whose values are as many as their
  -- shapes say and fit in memory, the computed size is the number of bytes written, where neither the
  -- computation nor the write fails.
  pub bin_entity_state_size-length :
      (s : ModuleState T) (n : ℕ) (bytes : List ℕ)
      → IsStoredState ops s
      → bin_entity_state_size ops s ≡ ok n
      → bin_write_entity_state ops s ≡ ok bytes
      → n ≡ length bytes
  unfolding bin_entity_state_size bin_write_entity_state
  bin_entity_state_size-length s n bytes stored h w =
      let xs = s.time_x_shift_b1c_by_layer in
      let ts = s.time_state_b1hkk_by_layer in
      let cs = s.channel_state_b1c_by_layer in
      let (a, sized_a, h1) = >>=-split (bin_tensor_vec_size ops xs 3) _ h in
      let (b, sized_b, h2) = >>=-split (bin_tensor_vec_size ops ts 5) _ h1 in
      let (c, sized_c, h3) = >>=-split (bin_tensor_vec_size ops cs 3) _ h2 in
      let (both, sum, last) = >>=-split (checked_add a b) _ h3 in
      let (x, wrote_x, w1) = >>=-split (bin_write_tensor_vec ops xs 3) _ w in
      let (t, wrote_t, w2) = >>=-split (bin_write_tensor_vec ops ts 5) _ w1 in
      let (k, wrote_c, whole) = >>=-split (bin_write_tensor_vec ops cs 3) _ w2 in
      rw (← ok-injective whole) (
        omega (
          arith,
          vec_size-eq xs 3 a x stored.time_x sized_a wrote_x,
          vec_size-eq ts 5 b t stored.time_state sized_b wrote_t,
          vec_size-eq cs 3 c k stored.channel sized_c wrote_c,
          checked_add-eq a b both sum,
          checked_add-eq both c n last,
          length-append x (t ++ k),
          length-append t k,
        ))
