-- ===== src/Bytes.antt =====
-- Little-endian words in a byte slice: `to_le_bytes`, `from_le_bytes` and a checked slice.
pub mod Laws
use rwkv_srs.Base.{
  ℕ, zero, suc, ◌+◌, ◌*◌, ◌/◌, ◌%◌, ◌-◌, ◌^◌, ◌<◌, List, [], ◌∷◌, ◌++◌, Option, none, some, length,
  take, drop, leb, if◌then◌else◌, ◌&&◌,
}

abbrev pub IsByte : ℕ → Type 0
IsByte b = b < 256

abbrev pub IsU64 : ℕ → Type 0
IsU64 w = w < 2 ^ 64

-- The `n` low bytes of a word, lowest first.
unfoldable pub le_bytes : ℕ → ℕ → List ℕ
le_bytes zero w = []
le_bytes (suc n) w = (w % 256) ∷ le_bytes n (w / 256)

unfoldable pub of_le_bytes : List ℕ → ℕ
of_le_bytes [] = 0
of_le_bytes (b ∷ bs) = b + 256 * of_le_bytes bs

-- `bytes.get(start..end)`
unfoldable pub get_range : List ℕ → ℕ → ℕ → Option (List ℕ)
get_range bytes start end =
    if leb start end && leb end (length bytes)
    then some (take (end - start) (drop start bytes))
    else none
