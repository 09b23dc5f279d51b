-- ===== src/Pgwire/Bytes.antt =====
-- The `struct` formats of ryudb/server/pgwire.py (big-endian, of a fixed number of bytes), Python's
-- slices of bytes, and the texts that end in a zero byte.
use native.Mathlib.Nat.{div-lt_iff_lt-mul, pow-suc}
use ryu_db.Common.{
  ℕ, zero, suc, ◌+◌, ◌-◌, ◌*◌, ◌/◌, ◌%◌, ◌^◌, ◌<◌, ◌≡◌, refl, ap, ◌∙◌, String, Bool, false, ◌||◌,
  List, [], ◌∷◌, ◌++◌, arith, ltb, ◌==◌, length, take, drop, Result, ok, err, struct_error,
  if◌then◌else◌, length-append, take-append_left, drop-append_left, drop-add, length-drop, take_all,
  drop_all, Bool-cases, inl, inr, leb,
}
use ryu_db.Common.Integers.{ℤ, pos, negsuc, diff}
use Prim.Native.Nat.{min}
use ryu_db.Wal.Bytes.{Bytes}

unfoldable pub to_be : ℕ → ℕ → Bytes
to_be zero n = []
to_be (suc k) n = to_be k (n / 256) ++ (n % 256) ∷ []

unfoldable pub from_be : ℕ → Bytes → ℕ
from_be acc [] = acc
from_be acc (b ∷ bs) = from_be (acc * 256 + b) bs

-- `struct.pack(fmt, n)` for an unsigned format of `k` bytes
unfoldable pub pack_be : ℕ → ℕ → Result Bytes
pack_be k n = if ltb n (256 ^ k) then ok (to_be k n) else err struct_error

-- `struct.unpack(fmt, b)`, which wants exactly `k` bytes
unfoldable pub unpack_be : ℕ → Bytes → Result ℕ
unpack_be k b = if length b == k then ok (from_be 0 b) else err struct_error

-- The signed reading of a number of `k` bytes, and its packing.
unfoldable pub signed : ℕ → ℕ → ℤ
signed k n = if ltb (n + n) (256 ^ k) then pos n else diff n (256 ^ k)

unfoldable pub pack_signed : ℕ → ℤ → Result Bytes
pack_signed k (pos n) = if ltb (n + n) (256 ^ k) then ok (to_be k n) else err struct_error
pack_signed k (negsuc n) =
    if ltb (n + n) (256 ^ k) then ok (to_be k (256 ^ k - suc n)) else err struct_error

-- `n` numbers of `k` bytes, one after the other
unfoldable pub split_be : ℕ → ℕ → Bytes → List ℕ
unfolding from_be
split_be k zero b = []
split_be k (suc n) b = from_be 0 (take k b) ∷ split_be k n (drop k b)

-- `list(struct.unpack(">" + fmt * n, b)) if n else []`
unfoldable pub unpack_list : ℕ → ℕ → Bytes → Result (List ℕ)
unfolding split_be
unpack_list k n b =
    if n == 0 then ok [] else if length b == n * k then ok (split_be k n b) else err struct_error

-- An index of a slice: counted from the end when negative, and cut off at the ends.
abbrev pub slice_index : ℕ → ℤ → ℕ
slice_index n (pos i) = min i n
slice_index n (negsuc i) = n - suc i

-- `b[i:j]`
unfoldable pub slice : Bytes → ℤ → ℤ → Bytes
slice b i j =
    let start = slice_index (length b) i in take (slice_index (length b) j - start) (drop start b)

abbrev pub has_nul : Bytes → Bool
has_nul [] = false
has_nul (b ∷ bs) = b == 0 || has_nul bs

-- The two parts of `buf` at its first zero byte, which belongs to neither.
unfoldable pub cut_at_nul : Bytes → Bytes × Bytes
cut_at_nul [] = ([], [])
cut_at_nul (b ∷ bs) =
    let (name, rest) = cut_at_nul bs in if b == 0 then ([], bs) else (b ∷ name, rest)

-- `str.encode` and `bytes.decode(errors="replace")`
pub record Utf8 : Type 0 where
  pub encode : String → Bytes
  pub decode : Bytes → String

unfoldable pub cstring : Utf8 → String → Bytes
cstring u s = u.encode s ++ 0 ∷ []

unfoldable pub cstring_and_rest : Utf8 → Bytes → String × Bytes
unfolding cut_at_nul
cstring_and_rest u buf = let (name, rest) = cut_at_nul buf in (u.decode name, rest)

pub length-to_be : (k n : ℕ) → length (to_be k n) ≡ k
unfolding to_be
length-to_be zero n = refl
length-to_be (suc k) n =
    omega (arith, length-append (to_be k (n / 256)) ((n % 256) ∷ []), length-to_be k (n / 256))

from_be-append : (acc b : ℕ) (bs : Bytes) → from_be acc (bs ++ b ∷ []) ≡ from_be acc bs * 256 + b
unfolding from_be
from_be-append acc b [] = refl
from_be-append acc b (c ∷ bs) = from_be-append (acc * 256 + c) b bs

from_be_nil : (acc : ℕ) → from_be acc [] ≡ acc
unfolding from_be
from_be_nil acc = refl

pub from_be-to_be : (k n : ℕ) → n < 256 ^ k → from_be 0 (to_be k n) ≡ n
unfolding to_be
from_be-to_be zero n h = from_be_nil 0 ∙ omega arith
from_be-to_be (suc k) n h = omega (
  arith,
  from_be-append 0 (n % 256) (to_be k (n / 256)),
  from_be-to_be k (n / 256) ((div-lt_iff_lt-mul (omega arith)).1 (rw (← pow-suc 256 k) h)),
)

pub unpack_be-to_be : (k n : ℕ) → n < 256 ^ k → unpack_be k (to_be k n) ≡ ok n
unfolding unpack_be
unpack_be-to_be k n h = ground (arith, length-to_be k n, from_be-to_be k n h)

pub slice-take-drop : (b : Bytes) (i n : ℕ) → slice b (pos i) (pos (i + n)) ≡ take n (drop i b)
unfolding slice
slice-take-drop b i n = elim (Bool-cases (leb (i + n) (length b))) [
  | inl inside ↦ ground arith
  | inr short ↦ ground (
    arith,
    length-drop i b,
    take_all n (drop i b),
    take_all (length b - i) (drop i b),
    drop_all i b,
    drop_all (length b) b,
  )
]

-- `b` from `off` on is `mid` and then `post`.
module _ (b : Bytes) (off n : ℕ) (mid post : Bytes) (h : drop off b ≡ mid ++ post) where
  pub slice_here : n ≡ length mid → slice b (pos off) (pos (off + n)) ≡ mid
  slice_here e = slice-take-drop b off n ∙ ap (take n) h ∙ take-append_left n mid post e

  pub drop_past : n ≡ length mid → drop (off + n) b ≡ post
  drop_past e = drop-add b off n ∙ ap (drop n) h ∙ drop-append_left n mid post e

pub cut_at_nul_text :
    (name rest : Bytes) → has_nul name ≡ false → cut_at_nul (name ++ 0 ∷ rest) ≡ (name, rest)
unfolding cut_at_nul
cut_at_nul_text [] rest h = refl
cut_at_nul_text (b ∷ bs) rest h = ground (arith, cut_at_nul_text bs rest)
