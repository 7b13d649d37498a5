-- ===== src/Rng/Torch.antt =====
-- The serialized form of the generator: `from_torch_rng_state` and `to_torch_rng_state_bytes` of
-- rust/rwkv-srs-cpu/src/id_encoding.rs, 632 little-endian words of 64 bits.
use Prim.Native.Nat.{bit_or}
use rwkv_srs.Base.{
  ℕ, zero, suc, ◌+◌, ◌*◌, ◌/◌, ◌%◌, ◌^◌, List, [], ◌∷◌, ◌++◌, length, take, drop, get_or, replicate,
  Result, ok, err, ◌>>=◌, ltb, ◌==◌, not, if◌then◌else◌, Bool, false, ◌||◌,
}
use rwkv_srs.Bytes.{le_bytes, of_le_bytes}
use rwkv_srs.Rng.{Rng, state_n}

abbrev pub torch_len : ℕ
torch_len = 632 * 8

pub data TorchError : Type 0 where
  wrong_length : ℕ → TorchError
  unsupported_header : TorchError
  left_too_large next_too_large : ℕ → TorchError
  word_exceeds : ℕ → TorchError
  nonzero_tail : TorchError

-- `chunks_exact(8)`, each chunk read as a word.
unfoldable pub words_of : ℕ → List ℕ → List ℕ
words_of zero bytes = []
words_of (suc n) bytes = of_le_bytes (take 8 bytes) ∷ words_of n (drop 8 bytes)

-- `u32::try_from` on each word, from index `i` on.
unfoldable pub narrow : ℕ → List ℕ → Result TorchError (List ℕ)
narrow i [] = ok []
narrow i (w ∷ ws) =
    if ltb w (2 ^ 32) then (do rest ← narrow (i + 1) ws; ok (w ∷ rest)) else err (word_exceeds i)

unfoldable pub any_nonzero : List ℕ → Bool
any_nonzero [] = false
any_nonzero (w ∷ ws) = not (w == 0) || any_nonzero ws

unfoldable pub from_torch_rng_state : List ℕ → Result TorchError Rng
unfolding any_nonzero
from_torch_rng_state bytes =
    if not (length bytes == torch_len)
    then err (wrong_length (length bytes))
    else (let values = words_of 632 bytes in
        let packed_left = get_or values 1 0 in
        let left = packed_left % 2 ^ 32 in
        let next = get_or values 2 0 in
        if not (packed_left / 2 ^ 32 == 1)
        then err unsupported_header
        else (if ltb state_n left
            then err (left_too_large left)
            else (if ltb state_n next then err (next_too_large next) else (do
              state ← narrow 0 (take state_n (drop 3 values))
              if any_nonzero (drop (3 + state_n) values)
                  then err nonzero_tail
                  else ok (record {
                    seed = get_or values 0 0;
                    left = left;
                    next = next;
                    state = state;
                  })))))

unfoldable pub bytes_of : List ℕ → List ℕ
bytes_of [] = []
bytes_of (w ∷ ws) = le_bytes 8 w ++ bytes_of ws

-- `(1u64 << 32) | self.left as u64`; the words behind the state stay zero.
unfoldable pub to_torch_rng_state_bytes : Rng → List ℕ
to_torch_rng_state_bytes r =
    bytes_of (r.seed ∷ bit_or (2 ^ 32) r.left ∷ r.next ∷ (r.state ++ replicate 5 0))
