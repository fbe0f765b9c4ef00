-- ===== src/Mongodb/Encode.antt =====
-- `encodeBSON` of internal/proto/mongodb/handler.go. Go leaves open in which order `range` visits a
-- map: here that is what an `Order` makes of the elements.
pub mod Wire
pub mod RoundTrip
use white_toyota_tacoma.Common.{
  ℕ, zero, suc, ◌+◌, ◌-◌, ◌*◌, ◌/◌, ◌%◌, Bool, true, false, List, [], ◌∷◌, ◌++◌, length,
}
use white_toyota_tacoma.Common.Int.{ℤ, pos, negsuc}
use white_toyota_tacoma.Common.Bytes.{Bytes, le32}
use white_toyota_tacoma.Common.Decimal.{itoa}
use white_toyota_tacoma.Common.Result.{Result, ok, err}

mutual
  -- An `interface{}` that is encoded, by its dynamic type.
  pub data Any : Type 0 where
    string : Bytes → Any
    int int32 int64 : ℤ → Any
    bool : Bool → Any
    -- By the bits of the `int32` that Go converts it to.
    float64 : ℕ → Any
    document : Entries → Any
    array : Items → Any
    strings : List Bytes → Any
    ints : List ℤ → Any
    -- Any other, by what `json.Marshal` writes for it.
    other : Bytes → Any

  -- A `map[string]interface{}`, and a `[]interface{}`.
  pub data Entries : Type 0 where
    end : Entries
    entry : Bytes → Any → Entries → Entries

  pub data Items : Type 0 where
    nil : Items
    cons : Any → Items → Items

-- From the elements of a map in the order of its entries to the order in which they are visited.
abbrev pub Order : Type 0
Order = List Bytes → List Bytes

-- `uint32(n)` and `uint64(n)` of a signed number, by the modulus.
abbrev pub bits : ℕ → ℤ → ℕ
bits modulus (pos n) = n % modulus
bits modulus (negsuc n) = modulus - 1 - n % modulus

abbrev pub int32_bytes : ℤ → Bytes
int32_bytes n = le32 (bits 4294967296 n)

-- `binary.LittleEndian.PutUint64`
abbrev pub le64 : ℕ → Bytes
le64 n = le32 (n % 4294967296) ++ le32 (n / 4294967296)

abbrev pub string_bytes : Bytes → Bytes
string_bytes s = le32 ((length s + 1) % 4294967296) ++ (s ++ 0 ∷ [])

abbrev pub bool_byte : Bool → Bytes
bool_byte true = 1 ∷ []
bool_byte false = 0 ∷ []

abbrev pub keyed : ℕ → Bytes → Bytes → Bytes
keyed tag key raw = tag ∷ (key ++ 0 ∷ raw)

abbrev pub concat : List Bytes → Bytes
concat [] = []
concat (s ∷ rest) = s ++ concat rest

-- The length, the elements and the terminator.
unfoldable pub closed : Bytes → Bytes
closed elems = le32 ((4 + length (elems ++ 0 ∷ [])) % 4294967296) ++ (elems ++ 0 ∷ [])

pub minimal_bson : Bytes
minimal_bson = 5 ∷ 0 ∷ 0 ∷ 0 ∷ 0 ∷ []

-- `if err != nil { … = minimalBSON() }`
unfoldable pub or_minimal : Result Bytes → Bytes
or_minimal (ok raw) = raw
or_minimal (err stop) = minimal_bson

-- `subDoc, _ := …`
unfoldable pub or_nil : Result Bytes → Bytes
or_nil (ok raw) = raw
or_nil (err stop) = []

-- The elements of the map that `[]string` and `[]int` are turned into, from the index `i`.
pub string_elements : ℕ → List Bytes → List Bytes
string_elements i [] = []
string_elements i (s ∷ ss) = keyed 0x02 (itoa i) (string_bytes s) ∷ string_elements (suc i) ss

pub int_elements : ℕ → List ℤ → List Bytes
int_elements i [] = []
int_elements i (n ∷ ns) = keyed 0x10 (itoa i) (int32_bytes n) ∷ int_elements (suc i) ns

unfoldable pub visited : Order → List Bytes → Result Bytes
visited order elems = ok (closed (concat (order elems)))

unfoldable pub tag : Any → ℕ
tag (string s) = 0x02
tag (int n) = 0x10
tag (int32 n) = 0x10
tag (int64 n) = 0x12
tag (bool b) = 0x08
tag (float64 n) = 0x10
tag (document doc) = 0x03
tag (array vs) = 0x04
tag (strings ss) = 0x04
tag (ints ns) = 0x04
tag (other raw) = 0x02

unfoldable mutual
  -- The value behind the key.
  pub encoded : Order → Any → Bytes
  encoded order (string s) = string_bytes s
  encoded order (int n) = int32_bytes n
  encoded order (int32 n) = int32_bytes n
  encoded order (int64 n) = le64 (bits 18446744073709551616 n)
  encoded order (bool b) = bool_byte b
  encoded order (float64 n) = le32 n
  encoded order (document doc) = or_minimal (visited order (elements order doc))
  encoded order (array vs) = or_nil (visited order (item_elements order 0 vs))
  encoded order (strings ss) = or_nil (visited order (string_elements 0 ss))
  encoded order (ints ns) = or_nil (visited order (int_elements 0 ns))
  encoded order (other raw) = string_bytes raw

  pub elements : Order → Entries → List Bytes
  elements order end = []
  elements order (entry key v doc) = keyed (tag v) key (encoded order v) ∷ elements order doc

  pub item_elements : Order → ℕ → Items → List Bytes
  item_elements order i nil = []
  item_elements order i (cons v vs) =
      keyed (tag v) (itoa i) (encoded order v) ∷ item_elements order (suc i) vs

-- `encodeBSON`, which never fails.
unfoldable pub encode_bson : Order → Entries → Result Bytes
unfolding visited
encode_bson order doc = visited order (elements order doc)
