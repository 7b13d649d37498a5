-- ===== src/Checkpoint/Flat.antt =====
-- A flat state is written as the tensors that it stands for: bin_write_flat_entity_state of
-- rust/rwkv-srs-cpu/src/model/checkpoint_bin.rs against materialize of model/state.rs.
use rwkv_srs.Checkpoint.RoundTrip.Sizes.{checked_add-eq}
use rwkv_srs.Checkpoint.RoundTrip.Tensors.{checked_mul-eq}
use rwkv_srs.Checkpoint.Reader.{flat_layout}
use rwkv_srs.Checkpoint.Writer.{write_f32s, is_nan_f32, bin_write_u8, bin_write_u64}
use rwkv_srs.Bytes.{get_range}
use rwkv_srs.Checkpoint.Save.States.{
  raw_f32s, bin_write_flat_tensor, any_nan, bin_write_tensor, write_dims, write_layers,
  write_tensors, bin_write_flat_entity_state, bin_write_entity_state,
}
use rwkv_srs.Review.{F32}
use rwkv_srs.Checkpoint.Tensor.{
  TensorOps, product, checked_product, layer_tensors, from_vec, flat_state_layer_elements,
  flat_values, FlatState, from_shared_values, ModuleState, materialize, checked_mul, checked_add,
}
use rwkv_srs.Base.{
  [], ◌∷◌, ◌++◌, zero, suc, ok, some, true, false, inl, inr, refl, sym, ◌∙◌, ap, length, List, ℕ,
  arith, ◌≡◌, ◌+◌, ◌*◌, ◌≤◌, ◌-◌, take, drop, ==_iff, if◌then◌else◌, leb, Bool-cases, length-take,
  length-drop, >>=-split, ltb, ok-ne-err, subst, ok-injective, append_assoc,
}

-- The tensor of a shape and of values that fill it has them.
pub record TensorLaws {T : Type 0} (ops : TensorOps T) : Type 0 where
  pub dims-tensor_of :
      (vs : List F32) (dims : List ℕ)
      → length vs ≡ product dims
      → ops.dims (ops.tensor_of vs dims) ≡ dims
  pub to_vec-tensor_of :
      (vs : List F32) (dims : List ℕ)
      → length vs ≡ product dims
      → ops.to_vec (ops.tensor_of vs dims) ≡ vs

-- Without a NaN the raw bytes are the canonical ones.
raw_f32s-write_f32s : (vs : List F32) → any_nan vs ≡ false → raw_f32s vs ≡ write_f32s vs
unfolding raw_f32s write_f32s any_nan
raw_f32s-write_f32s [] h = refl
raw_f32s-write_f32s (v ∷ vs) h = elim (Bool-cases (is_nan_f32 v)) [
  | inl e ↦ (let bad : true ≡ false = rw e at h in cc)
  | inr e ↦ rw (e, raw_f32s-write_f32s vs (rw e at h))
]

flat_values_bytes :
    (vs : List F32) → (if any_nan vs then write_f32s vs else raw_f32s vs) ≡ write_f32s vs
flat_values_bytes vs = elim (Bool-cases (any_nan vs)) [
  | inl e ↦ rw e
  | inr e ↦ rw e (raw_f32s-write_f32s vs e)
]

-- A slice inside of the values.
slice_ok :
    (values : List F32) (base width : ℕ)
    → base + width ≤ length values
    → get_range values base (base + width) ≡ some (take width (drop base values))
unfolding get_range
slice_ok values base width h =
    let ordered : leb base (base + width) ≡ true = ground arith in
    let inside : leb (base + width) (length values) ≡ true = ground arith in
    let size : base + width - base ≡ width = omega arith in rw (ordered, inside, size)

slice_length :
    (values : List F32) (base width : ℕ)
    → base + width ≤ length values
    → length (take width (drop base values)) ≡ width
slice_length values base width h =
    omega (arith, length-take width (drop base values), length-drop base values)

regroup :
    (u x t c : List ℕ) → u ++ (x ++ (u ++ (t ++ (u ++ c)))) ≡ (u ++ x) ++ ((u ++ t) ++ (u ++ c))
regroup u x t c = simp append_assoc

module _ {T : Type 0} (ops : TensorOps T) (laws : TensorLaws ops) where
  -- One tensor of a layer.
  flat_tensor-eq :
      (dims : List ℕ) (vs : List F32) (width : ℕ)
      → checked_product 1 dims ≡ ok width
      → product dims ≡ width
      → length vs ≡ width
      → (bytes : List ℕ) × (bin_write_flat_tensor dims vs ≡ ok bytes)
        × (bin_write_tensor ops (ops.tensor_of vs dims) (length dims) ≡ ok bytes)
  unfolding bin_write_flat_tensor bin_write_tensor
  flat_tensor-eq dims vs width counted same size =
      let fits : length vs ≡ product dims = size ∙ sym same in
      (
        bin_write_u8 (length dims)
            ++ (write_dims dims ++ (bin_write_u64 (length vs) ++ write_f32s vs)),
        rw (counted, (==_iff width (length vs)).1 (sym size), flat_values_bytes vs),
        rw (
          laws.dims-tensor_of vs dims fits,
          laws.to_vec-tensor_of vs dims fits,
          (==_iff (length dims) (length dims)).1 refl,
        ),
      )

  -- The tensors of one kind in all layers, from a place in each on.
  layers-eq :
      (dims : List ℕ) (width within : ℕ) (values : List F32)
      → checked_product 1 dims ≡ ok width
      → product dims ≡ width
      → within + width ≤ flat_state_layer_elements
      → (left base : ℕ) → base + left * flat_state_layer_elements ≤ length values + within
      → (tensors : List T) × (bytes : List ℕ) × (layer_tensors ops dims width values base left
          ≡ ok tensors)
        × (write_layers dims width values base left ≡ ok bytes)
        × (write_tensors ops tensors (length dims) ≡ ok bytes)
        × (length tensors ≡ left)
  unfolding layer_tensors write_layers write_tensors from_vec
  layers-eq dims width within values counted same narrow zero base h =
      ([], [], refl, refl, refl, refl)
  layers-eq dims width within values counted same narrow (suc left) base h =
      let inside : base + width ≤ length values = omega arith in
      let vs = take width (drop base values) in
      let size = slice_length values base width inside in
      let (first, flat_wrote, wrote) = flat_tensor-eq dims vs width counted same size in
      let (tensors, bytes, made, flat_rest, rest, count) =
        layers-eq dims width within values counted same narrow left
          (base + flat_state_layer_elements) (omega arith) in
      (
        ops.tensor_of vs dims ∷ tensors,
        first ++ bytes,
        rw (
          slice_ok values base width inside,
          (==_iff (length vs) (product dims)).1 (size ∙ sym same),
          made,
        ),
        rw (slice_ok values base width inside, flat_wrote, flat_rest),
        rw (wrote, rest),
        ap suc count,
      )

  -- The values of a state that from_shared_values made.
  shared_inside :
      (values : List F32) (entity layers : ℕ) (f : FlatState)
      → from_shared_values values entity layers ≡ ok f
      → f.offset + f.layers * flat_state_layer_elements ≤ length f.values
  unfolding from_shared_values
  shared_inside values entity layers f h =
      let (size, e1, h1) = >>=-split (checked_mul layers flat_state_layer_elements) _ h in
      let (offset, e2, h2) = >>=-split (checked_mul entity size) _ h1 in
      let (end, e3, h3) = >>=-split (checked_add offset size) _ h2 in
      elim (Bool-cases (ltb (length values) end)) [
        | inl e ↦ absurd (ok-ne-err f flat_layout (sym (rw e at h3)))
        | inr e ↦
            subst
              (λ (g : FlatState). g.offset + g.layers * flat_state_layer_elements ≤ length g.values)
              (ok-injective (rw e at h3))
              (ground (
                arith,
                checked_mul-eq layers flat_state_layer_elements size e1,
                checked_add-eq offset size end e3,
              ))
      ]

  flat_values-ok :
      (f : FlatState)
      → f.offset + f.layers * flat_state_layer_elements ≤ length f.values
      → (vs : List F32) × (flat_values f ≡ ok vs)
        × (length vs ≡ f.layers * flat_state_layer_elements)
  unfolding flat_values
  flat_values-ok f h =
      let width = f.layers * flat_state_layer_elements in
      (
        take width (drop f.offset f.values),
        rw (slice_ok f.values f.offset width h),
        slice_length f.values f.offset width h,
      )

  abbrev pub SameBytes : FlatState → Type 0
  SameBytes f =
      (s : ModuleState T) × (bytes : List ℕ) × (materialize ops f ≡ ok s)
      × (bin_write_flat_entity_state f ≡ ok bytes)
      × (bin_write_entity_state ops s ≡ ok bytes)

  entity_bytes :
      (s : ModuleState T) (n : ℕ) (x t c : List ℕ)
      → length s.time_x_shift_b1c_by_layer ≡ n
      → length s.time_state_b1hkk_by_layer ≡ n
      → length s.channel_state_b1c_by_layer ≡ n
      → write_tensors ops s.time_x_shift_b1c_by_layer 3 ≡ ok x
      → write_tensors ops s.time_state_b1hkk_by_layer 5 ≡ ok t
      → write_tensors ops s.channel_state_b1c_by_layer 3 ≡ ok c
      → bin_write_entity_state ops s
        ≡ ok ((bin_write_u64 n ++ x) ++ ((bin_write_u64 n ++ t) ++ (bin_write_u64 n ++ c)))
  unfolding bin_write_entity_state
  entity_bytes s n x t c nx nt nc wrote_x wrote_t wrote_c =
      rw (wrote_x, wrote_t, wrote_c)
        (λ i. ok (
          (bin_write_u64 (nx i) ++ x)
          ++ ((bin_write_u64 (nt i) ++ t) ++ (bin_write_u64 (nc i) ++ c))))

  -- A flat state inside of its arena turns into tensors without an error, and both are written without
  -- an error, as the same bytes.
  pub bin_write_flat_entity_state-materialize :
      (values : List F32) (entity layers : ℕ) (f : FlatState)
      → from_shared_values values entity layers ≡ ok f
      → SameBytes f
  unfolding bin_write_flat_entity_state materialize
  bin_write_flat_entity_state-materialize values entity layers f made =
      let inside = shared_inside values entity layers f made in
      let (vs, read, size) = flat_values-ok f inside in
      let n = f.layers in
      let (xs, x, made_x, flat_x, wrote_x, count_x) =
        layers-eq (1 ∷ 1 ∷ 128 ∷ []) 128 0 vs refl refl (omega arith) n 0 (omega (arith, size)) in
      let (ts, t, made_t, flat_t, wrote_t, count_t) =
        layers-eq (1 ∷ 1 ∷ 4 ∷ 32 ∷ 32 ∷ []) 4096 128 vs refl refl (omega arith) n 128
          (omega (arith, size)) in
      let (cs, c, made_c, flat_c, wrote_c, count_c) =
        layers-eq (1 ∷ 1 ∷ 128 ∷ []) 128 4224 vs refl refl (omega arith) n 4224
          (omega (arith, size)) in
      (
        record {
          time_x_shift_b1c_by_layer = xs;
          time_state_b1hkk_by_layer = ts;
          channel_state_b1c_by_layer = cs;
        },
        (bin_write_u64 n ++ x) ++ ((bin_write_u64 n ++ t) ++ (bin_write_u64 n ++ c)),
        rw (read, made_x, made_t, made_c),
        rw
            (
              read,
              (==_iff (length vs) (n * flat_state_layer_elements)).1 size,
              flat_x,
              flat_t,
              flat_c,
            )
            (ap ok (regroup (bin_write_u64 n) x t c)),
        entity_bytes _ n x t c count_x count_t count_c wrote_x wrote_t wrote_c,
      )
