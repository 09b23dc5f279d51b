-- ===== src/Wal/Bytes.antt =====
-- The `struct` formats of ryudb/wal.py: little-endian unsigned integers of a fixed number of bytes.
use native.Mathlib.Nat.{div-lt_iff_lt-mul, pow-suc}
use ryu_db.Common.{
  ℕ, zero, suc, ◌+◌, ◌*◌, ◌/◌, ◌%◌, ◌^◌, ◌<◌, ◌≡◌, refl, List, [], ◌∷◌, ◌++◌, arith, ltb, ◌==◌,
  length, take, drop, Result, ok, err, struct_error, if◌then◌else◌, ap, lt→ltb, take-append_left,
  drop-append_left, length-append, sym,
}

abbrev pub Bytes : Type 0
Bytes = List ℕ

unfoldable pub to_le : ℕ → ℕ → Bytes
to_le zero n = []
to_le (suc k) n = (n % 256) ∷ to_le k (n / 256)

unfoldable pub from_le : Bytes → ℕ
from_le [] = 0
from_le (b ∷ bs) = b + 256 * from_le bs

-- `S.pack(n)` for a format of `k` bytes
unfoldable pub pack : ℕ → ℕ → Result Bytes
pack k n = if ltb n (256 ^ k) then ok (to_le k n) else err struct_error

-- `S.unpack(b)`, which wants exactly `k` bytes
unfoldable pub unpack : ℕ → Bytes → Result ℕ
unpack k b = if length b == k then ok (from_le b) else err struct_error

-- `S.unpack_from(payload, pos)` then `pos += S.size`, over the bytes from `pos` on
unfoldable pub unpack_from : ℕ → Bytes → Result (ℕ × Bytes)
unpack_from k rest =
    if ltb (length rest) k then err struct_error else ok (from_le (take k rest), drop k rest)

pub length-to_le : (k n : ℕ) → length (to_le k n) ≡ k
unfolding to_le
length-to_le zero n = refl
length-to_le (suc k) n = ap suc (length-to_le k (n / 256))

pub from_le-to_le : (k n : ℕ) → n < 256 ^ k → from_le (to_le k n) ≡ n
unfolding to_le from_le
from_le-to_le zero n h = omega arith
from_le-to_le (suc k) n h = omega (
  arith,
  from_le-to_le k (n / 256) ((div-lt_iff_lt-mul (omega arith)).1 (rw (← pow-suc 256 k) h)),
)

pub pack_ok : (k n : ℕ) → n < 256 ^ k → pack k n ≡ ok (to_le k n)
unfolding pack
pack_ok k n h = rw (lt→ltb n (256 ^ k) h)

pub pack_inv : (k n : ℕ) {b : Bytes} → pack k n ≡ ok b → (n < 256 ^ k) × (b ≡ to_le k n)
unfolding pack
pack_inv k n h = ground arith

pub unpack_from-to_le :
    (k n : ℕ) (rest : Bytes) → n < 256 ^ k → unpack_from k (to_le k n ++ rest) ≡ ok (n, rest)
unfolding unpack_from
unpack_from-to_le k n rest h = ground (
  arith,
  length-append (to_le k n) rest,
  length-to_le k n,
  take-append_left k (to_le k n) rest (sym (length-to_le k n)),
  drop-append_left k (to_le k n) rest (sym (length-to_le k n)),
  from_le-to_le k n h,
)

pub unpack-to_le : (k n : ℕ) → n < 256 ^ k → unpack k (to_le k n) ≡ ok n
unfolding unpack
unpack-to_le k n h = ground (arith, length-to_le k n, from_le-to_le k n h)
