-- ===== src/Mongodb/Bson/Fields.antt =====
-- Documents as a client writes them, and what the parser should keep of them.
use white_toyota_tacoma.Common.{
  ℕ, ◌+◌, ◌/◌, ◌%◌, ◌≤◌, ◌<◌, Bool, true, false, List, [], ◌∷◌, ◌++◌, length,
}
use white_toyota_tacoma.Common.Bytes.{Bytes, Lacks, le32}
use white_toyota_tacoma.Mongodb.Bson.{string, int32, int64, boolean, Doc, put, signed}

-- What a client may put under a key.
pub data Field : Type 0 where
  text : Bytes → Field
  number : ℕ → Field
  flag : Bool → Field
  long : ℕ → Field
  -- A nested document or array, by what stands behind its length.
  document array : Bytes → Field

abbrev pub tag : Field → ℕ
tag (text s) = 0x02
tag (number n) = 0x10
tag (flag b) = 0x08
tag (long n) = 0x12
tag (document elems) = 0x03
tag (array elems) = 0x04

abbrev pub encoded : Field → Bytes
encoded (text s) = le32 (length s + 1) ++ (s ++ 0 ∷ [])
encoded (number n) = le32 n
encoded (flag true) = 1 ∷ []
encoded (flag false) = 0 ∷ []
encoded (long n) = le32 (n % 4294967296) ++ le32 (n / 4294967296)
encoded (document elems) = le32 (4 + length elems) ++ elems
encoded (array elems) = le32 (4 + length elems) ++ elems

-- What the parser should do with it: a nested document or array is not kept.
abbrev pub stored : Bytes → Field → Doc → Doc
stored key (text s) doc = put key (string s) doc
stored key (number n) doc = put key (int32 (signed 2147483648 n)) doc
stored key (flag b) doc = put key (boolean b) doc
stored key (long n) doc = put key (int64 (signed 9223372036854775808 n)) doc
stored key (document elems) doc = doc
stored key (array elems) doc = doc

abbrev pub IsNested : Bytes → Type 0
IsNested elems = (1 ≤ length elems) × (length elems < 2147483648)

abbrev pub IsField : Bytes × Field → Type 0
IsField (key, text s) = Lacks 0 key × (length s < 2147483648)
IsField (key, number n) = Lacks 0 key × (n < 4294967296)
IsField (key, flag b) = Lacks 0 key × Unit
IsField (key, long n) = Lacks 0 key × (n < 18446744073709551616)
IsField (key, document elems) = Lacks 0 key × IsNested elems
IsField (key, array elems) = Lacks 0 key × IsNested elems

abbrev pub wire_fields : List (Bytes × Field) → Bytes
wire_fields [] = []
wire_fields ((key, f) ∷ fs) = tag f ∷ (key ++ 0 ∷ (encoded f ++ wire_fields fs))

abbrev pub wire_doc : List (Bytes × Field) → Bytes
wire_doc fs = le32 (5 + length (wire_fields fs)) ++ (wire_fields fs ++ 0 ∷ [])

abbrev pub put_all : List (Bytes × Field) → Doc → Doc
put_all [] doc = doc
put_all ((key, f) ∷ fs) doc = put_all fs (stored key f doc)

pub key-Lacks : (key : Bytes) (f : Field) → IsField (key, f) → Lacks 0 key
key-Lacks key (text s) h = h.0
key-Lacks key (number n) h = h.0
key-Lacks key (flag b) h = h.0
key-Lacks key (long n) h = h.0
key-Lacks key (document elems) h = h.0
key-Lacks key (array elems) h = h.0
