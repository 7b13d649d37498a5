-- ===== src/Bytes/Laws.antt =====
-- A word is read back from its bytes, also in the middle of a longer slice.
use rwkv_srs.Base.{
  ℕ, zero, suc, ◌+◌, ◌/◌, ◌^◌, ◌<◌, List, [], ◌∷◌, ◌++◌, some, length, take, drop, ◌≡◌, refl, ap,
  ◌∙◌, sym, arith, length-append, append_assoc, leb, true, ◌-◌,
}
use rwkv_srs.Bytes.{le_bytes, of_le_bytes, get_range}
use native.Mathlib.Nat.{pow-suc}

pub length-le_bytes : (n w : ℕ) → length (le_bytes n w) ≡ n
unfolding le_bytes
length-le_bytes zero w = refl
length-le_bytes (suc n) w = ap suc (length-le_bytes n (w / 256))

pub of_le_bytes-le_bytes : (n w : ℕ) → w < 256 ^ n → of_le_bytes (le_bytes n w) ≡ w
unfolding le_bytes of_le_bytes
of_le_bytes-le_bytes zero w h = omega arith
of_le_bytes-le_bytes (suc n) w h =
    omega (arith, of_le_bytes-le_bytes n (w / 256) (omega (arith, pow-suc 256 n)))

-- From byte `o` on, the slice reads `bs`.
pub record At (bytes : List ℕ) (o : ℕ) (bs : List ℕ) : Type 0 where
  pub before : List ℕ
  pub whole : bytes ≡ before ++ bs
  pub position : o ≡ length before

pub drop-append : (xs ys : List ℕ) → drop (length xs) (xs ++ ys) ≡ ys
drop-append [] ys = refl
drop-append (x ∷ xs) ys = drop-append xs ys

pub take-append : (xs ys : List ℕ) → take (length xs) (xs ++ ys) ≡ xs
take-append [] ys = refl
take-append (x ∷ xs) ys = ap (x ∷◌) (take-append xs ys)

pub get_range-At :
    (bytes : List ℕ) (o : ℕ) (bs rest : List ℕ)
    → At bytes o (bs ++ rest)
    → get_range bytes o (o + length bs) ≡ some bs
unfolding get_range
get_range-At bytes o bs rest p = rw (ordered, inside, width, at) (ap some (take-append bs rest))
  where
    at : drop o bytes ≡ bs ++ rest
    at = rw (p.whole, p.position) (drop-append p.before (bs ++ rest))

    ordered : leb o (o + length bs) ≡ true
    ordered = ground arith

    inside : leb (o + length bs) (length bytes) ≡ true
    inside =
        rw p.whole
          (ground (arith, p.position, length-append bs rest, length-append p.before (bs ++ rest)))

    width : o + length bs - o ≡ length bs
    width = omega arith

pub At-append :
    (bytes : List ℕ) (o : ℕ) (bs rest : List ℕ)
    → At bytes o (bs ++ rest)
    → At bytes (o + length bs) rest
At-append bytes o bs rest p = record {
  before = p.before ++ bs;
  whole = p.whole ∙ sym (append_assoc p.before bs rest);
  position = omega (arith, p.position, length-append p.before bs);
}

-- A slice holds what it reads from a position on.
pub At-length :
    (bytes : List ℕ) (o : ℕ) (bs : List ℕ) → At bytes o bs → length bytes ≡ o + length bs
At-length bytes o bs p = rw p.whole (omega (arith, p.position, length-append p.before bs))
