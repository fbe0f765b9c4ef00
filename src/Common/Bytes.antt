-- ===== src/Common/Bytes.antt =====
-- Byte strings: Go's `string` and `[]byte`, the reads of `io` and `encoding/binary`, and the
-- `indexByte` that each wire protocol of internal/proto declares.
pub mod Safe
pub mod Behind
use Prim.Native.Char.{code}
use Prim.Native.String.{String}
use white_toyota_tacoma.Common.{
  ℕ, zero, suc, ◌+◌, ◌-◌, ◌*◌, ◌/◌, ◌%◌, ◌≤◌, ◌<◌, ◌≡◌, ◌≢◌, ◌↔◌, refl, sym, ap, ◌∙◌, Bool, true,
  false, ◌&&◌, ◌||◌, Option, none, some, List, [], ◌∷◌, ◌++◌, arith, ltb, leb, ◌==◌, if◌then◌else◌,
  length, take, drop, get_elem?, All, length-append, take-length-append, drop-length-append,
  take_all,
}
use white_toyota_tacoma.Common.Result.{Result, ok, err, or_fail, eof, unexpected_eof, panic}

abbrev pub Bytes : Type 0
Bytes = List ℕ

-- The bytes of an ASCII literal.
abbrev pub codes : String → Bytes
codes String.[] = []
codes (String.◌∷◌ c s) = code c ∷ codes s

abbrev pub IsByte : ℕ → Type 0
IsByte b = b < 256

unfoldable pub same : Bytes → Bytes → Bool
same [] [] = true
same (x ∷ xs) (y ∷ ys) = x == y && same xs ys
same _ _ = false

pub same_iff : (a b : Bytes) → (same a b ≡ true) ↔ (a ≡ b)
unfolding same
same_iff (x ∷ a) (y ∷ b) = ground (arith, same_iff a b)
same_iff _ _ = ground arith

pub same_refl : (a : Bytes) → same a a ≡ true
same_refl a = (same_iff a a).1 refl

pub same_comm : (a b : Bytes) → same a b ≡ same b a
unfolding same
same_comm [] [] = refl
same_comm [] (y ∷ b) = refl
same_comm (x ∷ a) [] = refl
same_comm (x ∷ a) (y ∷ b) = ground (arith, same_comm a b)

abbrev pub shift : Option ℕ → Option ℕ
shift none = none
shift (some i) = some (suc i)

-- `none` is Go's -1.
unfoldable pub index_byte : Bytes → ℕ → Option ℕ
index_byte [] b = none
index_byte (v ∷ s) b = let rest = shift (index_byte s b) in if v == b then some 0 else rest

abbrev pub Lacks : ℕ → Bytes → Type 0
Lacks b = All (λ c. c ≢ b)

-- The first `b` behind bytes that lack it stands right behind them.
pub index_byte-append :
    (b : ℕ) (s rest : Bytes) → Lacks b s → index_byte (s ++ b ∷ rest) b ≡ some (length s)
unfolding index_byte
index_byte-append b [] rest h = ground arith
index_byte-append b (c ∷ s) rest h = ground (arith, index_byte-append b s rest h.1)

pub index_byte-lt : (s : Bytes) (b : ℕ) {i : ℕ} → index_byte s b ≡ some i → i < length s
unfolding index_byte
index_byte-lt [] b e = ground arith
index_byte-lt (v ∷ s) b {i = zero} e = ground arith
index_byte-lt (v ∷ s) b {i = suc i} e = ground (arith, index_byte-lt s b {i = i})

-- `s[i]`, `s[i:]` and `s[i:j]`
unfoldable pub byte_at : Bytes → ℕ → Result ℕ
byte_at s i = or_fail (get_elem? s i) panic

unfoldable pub slice_from : Bytes → ℕ → Result Bytes
slice_from s i = if ltb (length s) i then err panic else ok (drop i s)

unfoldable pub slice : Bytes → ℕ → ℕ → Result Bytes
slice s i j =
    if ltb j i then err panic else if ltb (length s) j then err panic else ok (drop i (take j s))

-- `io.ReadFull`: the bytes read and those left.
unfoldable pub read_full : ℕ → Bytes → Result (Bytes × Bytes)
read_full n [] = if n == 0 then ok ([], []) else err eof
read_full n (b ∷ input) =
    if ltb (length (b ∷ input)) n
    then err unexpected_eof
    else ok (take n (b ∷ input), drop n (b ∷ input))

pub read_full-append : (s rest : Bytes) → read_full (length s) (s ++ rest) ≡ ok (s, rest)
unfolding read_full
read_full-append [] [] = refl
read_full-append [] (b ∷ rest) = ground arith
read_full-append (x ∷ s) rest =
    ground (arith, length-append s rest, take-length-append s rest, drop-length-append s rest)

-- `binary.LittleEndian.PutUint32` and `binary.BigEndian.PutUint32`
abbrev pub le32 : ℕ → Bytes
le32 n = n % 256 ∷ n / 256 % 256 ∷ n / 65536 % 256 ∷ n / 16777216 % 256 ∷ []

abbrev pub be32 : ℕ → Bytes
be32 n = n / 16777216 % 256 ∷ n / 65536 % 256 ∷ n / 256 % 256 ∷ n % 256 ∷ []

-- `Uint32` of either order reads four bytes.
unfoldable pub uint32_le : Bytes → Result ℕ
uint32_le (a ∷ b ∷ c ∷ d ∷ _) = ok (a + b * 256 + c * 65536 + d * 16777216)
uint32_le _ = err panic

unfoldable pub uint32_be : Bytes → Result ℕ
uint32_be (a ∷ b ∷ c ∷ d ∷ _) = ok (d + c * 256 + b * 65536 + a * 16777216)
uint32_be _ = err panic

pub uint32_le-le32 : (n : ℕ) (rest : Bytes) → n < 4294967296 → uint32_le (le32 n ++ rest) ≡ ok n
unfolding uint32_le
uint32_le-le32 n rest h = ground arith

pub uint32_be-be32 : (n : ℕ) (rest : Bytes) → n < 4294967296 → uint32_be (be32 n ++ rest) ≡ ok n
unfolding uint32_be
uint32_be-be32 n rest h = ground arith

-- `truncate`, which mysql, postgres and mongodb declare.
unfoldable pub truncate : Bytes → ℕ → Bytes
truncate s n = if leb (length s) n then s else take n s

pub truncate-take : (s : Bytes) (n : ℕ) → truncate s n ≡ take n s
unfolding truncate
truncate-take s n = ground (arith, take_all n s)
