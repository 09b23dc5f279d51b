-- ===== src/Tests/Codec.antt =====
-- A codec for the tests: a text as the list of its characters' numbers, a frame as the list of its
-- values, and a checksum that depends on each byte and its place.
use Prim.Native.Nat.{Ordering, compare}
use Prim.Native.Char.{Char, char, code, IsScalar, IsLt}
use Prim.Native.String.{[] as empty_text, ◌∷◌ as then_char}
use ryu_db.Common.{
  ℕ, ◌+◌, ◌*◌, String, ◌≡◌, refl, ap, Option, none, some, List, [], ◌∷◌, Result, ok, err,
  struct_error, ◌>>=◌,
}
use ryu_db.Wal.Bytes.{Bytes}
use ryu_db.Wal.Codec.{Serial, IsLossless}

abbrev Both : Ordering → Ordering → Type 0
Both Ordering.lt o = IsLt o
Both Ordering.eq _ = ⊥
Both Ordering.gt _ = ⊥

abbrev Scalar : Ordering → Ordering → Ordering → Type 0
Scalar Ordering.lt _ _ = Unit
Scalar Ordering.eq o p = Both o p
Scalar Ordering.gt o p = Both o p

abbrev below : (o : Ordering) → Option (IsLt o)
below Ordering.lt = some tt
below Ordering.eq = none
below Ordering.gt = none

abbrev both_below : (o p : Ordering) → Option (Both o p)
both_below Ordering.lt p = below p
both_below Ordering.eq p = none
both_below Ordering.gt p = none

abbrev find_scalar : (o p q : Ordering) → Option (Scalar o p q)
find_scalar Ordering.lt p q = some tt
find_scalar Ordering.eq p q = both_below p q
find_scalar Ordering.gt p q = both_below p q

below_true : (o : Ordering) (h : IsLt o) → below o ≡ some h
below_true Ordering.lt h = refl
below_true Ordering.eq h = absurd h
below_true Ordering.gt h = absurd h

both_true : (o p : Ordering) (h : Both o p) → both_below o p ≡ some h
both_true Ordering.lt p h = below_true p h
both_true Ordering.eq p h = absurd h
both_true Ordering.gt p h = absurd h

scalar_true : (o p q : Ordering) (h : Scalar o p q) → find_scalar o p q ≡ some h
scalar_true Ordering.lt p q h = refl
scalar_true Ordering.eq p q h = both_true p q h
scalar_true Ordering.gt p q h = both_true p q h

abbrev char_at : (n : ℕ) → Option (IsScalar n) → Result Char
char_at n none = err struct_error
char_at n (some p) = ok (char n p)

abbrev to_char : ℕ → Result Char
to_char n = char_at n (find_scalar (compare n 55296) (compare 57343 n) (compare n 1114112))

to_char-code : (c : Char) → to_char (code c) ≡ ok c
to_char-code (char n p) =
    ap (char_at n) (scalar_true (compare n 55296) (compare 57343 n) (compare n 1114112) p)

abbrev pub encode : String → Bytes
encode empty_text = []
encode (then_char c t) = code c ∷ encode t

abbrev pub decode : Bytes → Result String
decode [] = ok empty_text
decode (n ∷ ns) = do c ← to_char n; t ← decode ns; ok (then_char c t)

decode-encode : (t : String) → decode (encode t) ≡ ok t
decode-encode empty_text = refl
decode-encode (then_char c t) = rw (to_char-code c, decode-encode t) refl

abbrev checksum : Bytes → ℕ
checksum [] = 7
checksum (b ∷ bs) = b + 31 * checksum bs

abbrev pub codec : Serial (List ℕ)
codec = record {
  encode = encode;
  decode = decode;
  serialize_frame = λ f. f;
  deserialize_frame = ok;
  crc32 = checksum;
}

pub codec-IsLossless : IsLossless codec
codec-IsLossless = record { decode-encode = decode-encode; deserialize-serialize = λ f. refl }
