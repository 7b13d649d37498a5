-- ===== src/Checkpoint/Expected/Encodings.antt =====
-- The encodings of a checkpoint have the size that is expected of them: for
-- expected_checkpoint_bin_size of rust/rwkv-srs-cpu/src/model/checkpoint_bin.rs.
use rwkv_srs.Checkpoint.Expected.Sections.{parts_bytes, length-write_i64, part_bytes}
use rwkv_srs.Checkpoint.RoundTrip.Tensors.{length-write_f32s}
use rwkv_srs.State.{IdEncodings, Submodule, encodings}
use rwkv_srs.Checkpoint.RoundTrip.Sizes.{length-write_u64}
use rwkv_srs.Review.{F32}
use rwkv_srs.Map.{Map}
use rwkv_srs.Checkpoint.Writer.{bin_write_i64, bin_write_u64, bin_write_bytes, write_f32s}
use rwkv_srs.Checkpoint.Save.{write_encodings, write_submodules, submodule_bytes}
use rwkv_srs.Checkpoint.Expected.{
  Cardinalities, encoding_parts, Submodule, count_of, submodule_bytes,
}
use rwkv_srs.Base.{
  ℕ, ◌+◌, ◌*◌, List, [], ◌∷◌, ◌++◌, length, ok, refl, ◌≡◌, arith, length-append, ok-injective,
  >>=-split, suc, Bool-cases, ◌==◌, inr, inl, ok-ne-err, sym, ==_iff,
}

-- One entry more.
pub mul_suc : (n k : ℕ) → suc n * k ≡ k + n * k
mul_suc n k = omega arith

length-write_encodings :
    (dim : ℕ) (m : Map (List F32)) (bytes : List ℕ)
    → write_encodings dim m ≡ ok bytes
    → length bytes ≡ length m * (16 + dim * 4)
unfolding write_encodings
length-write_encodings dim [] bytes w = rw (← ok-injective w) (omega arith)
length-write_encodings dim ((id, vs) ∷ m) bytes w = elim (Bool-cases (length vs == dim)) [
  | inr e ↦ absurd (ok-ne-err bytes _ (sym (rw e at w)))
  | inl e ↦
      let (rest, more, whole) = >>=-split (write_encodings dim m) _ (rw e at w) in
      let n = (==_iff (length vs) dim).0 e in
      rw (← ok-injective whole) (
        omega (
          arith,
          n,
          mul_suc (length m) dim,
          length-append (bin_write_i64 id) (bin_write_u64 (length vs) ++ (write_f32s vs ++ rest)),
          length-append (bin_write_u64 (length vs)) (write_f32s vs ++ rest),
          length-append (write_f32s vs) rest,
          length-write_i64 id,
          length-write_u64 (length vs),
          length-write_f32s vs,
          length-write_encodings dim m rest more,
        ))
]

pub length-write_submodules :
    (counts : Cardinalities) (values : IdEncodings) (rest : List (Submodule × ℕ)) (bytes : List ℕ)
    → ((submodule : Submodule) → length (encodings submodule values) ≡ count_of counts submodule)
    → write_submodules values rest ≡ ok bytes
    → length bytes ≡ parts_bytes (encoding_parts counts rest)
unfolding write_submodules parts_bytes part_bytes encoding_parts bin_write_bytes
length-write_submodules counts values [] bytes h w = rw (← ok-injective w) refl
length-write_submodules counts values ((submodule, dim) ∷ rest) bytes h w =
    let name = submodule_bytes submodule in
    let m = encodings submodule values in
    let (entries, e1, w1) = >>=-split (write_encodings dim m) _ w in
    let (later, e2, whole) = >>=-split (write_submodules values rest) _ w1 in
    rw (← ok-injective whole) (
      omega (
        arith,
        length-append (bin_write_u64 (length name) ++ name)
            (bin_write_u64 (length m) ++ (entries ++ later)),
        length-append (bin_write_u64 (length name)) name,
        length-append (bin_write_u64 (length m)) (entries ++ later),
        length-append entries later,
        length-write_u64 (length name),
        length-write_u64 (length m),
        rw (h submodule) at (length-write_encodings dim m entries e1),
        length-write_submodules counts values rest later h e2,
      ))
