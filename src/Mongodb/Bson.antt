-- ===== src/Mongodb/Bson.antt =====
-- `parseBSONDoc`, `bsonFirstKey` and `extractString` of internal/proto/mongodb/handler.go. Slices
-- and indices that are out of range are faults here, as in Go.
pub mod Steps
pub mod Safety
pub mod Fields
pub mod Wide
pub mod Element
pub mod RoundTrip
pub mod FirstKey
pub mod Lookup
use white_toyota_tacoma.Common.{
  ℕ, zero, suc, ◌+◌, ◌-◌, ◌*◌, ◌/◌, ◌%◌, Bool, true, false, not, ◌||◌, Option, none, some, List, [],
  ◌∷◌, ltb, leb, ◌==◌, if◌then◌else◌, length,
}
use white_toyota_tacoma.Common.Int.{ℤ, pos, negsuc}
use white_toyota_tacoma.Common.Bytes.{
  Bytes, same, index_byte, byte_at, slice, slice_from, uint32_le,
}
use white_toyota_tacoma.Common.Utf8.{CaseTable, to_lower}
use white_toyota_tacoma.Common.Result.{Result, ok, err, ◌>>=◌}

-- The values that the parser keeps.
pub data Value : Type 0 where
  string : Bytes → Value
  int32 : ℤ → Value
  int64 : ℤ → Value
  boolean : Bool → Value

-- A `map[string]interface{}`.
abbrev pub Doc : Type 0
Doc = List (Bytes × Value)

pub put : Bytes → Value → Doc → Doc
put key v [] = (key, v) ∷ []
put key v ((k, w) ∷ doc) = if same k key then (k, v) ∷ doc else (k, w) ∷ put key v doc

pub find : Bytes → Doc → Option Value
find key [] = none
find key ((k, v) ∷ doc) = if same k key then some v else find key doc

unfoldable pub string_of : Option Value → Option Bytes
string_of (some (string s)) = some s
string_of _ = none

-- `extractString`
pub extract_string : Doc → Bytes → Option Bytes
extract_string doc key = string_of (find key doc)

abbrev pub max_bson_doc : ℕ
max_bson_doc = 16 * 1024 * 1024

-- `int32(…)` and `int64(…)` of an unsigned number.
abbrev pub signed : ℕ → ℕ → ℤ
signed half n = if ltb n half then pos n else negsuc (half + half - n - 1)

-- `binary.LittleEndian.Uint64`
uint64_le : Bytes → Result ℕ
uint64_le s = do
  low ← uint32_le s
  rest ← slice_from s 4
  high ← uint32_le rest
  ok (low + high * 4294967296)

-- One element of the loop: the document and the position behind it, or `none` for `break`.
abbrev pub Element : Type 0
Element = Option (Doc × ℕ)

-- A value that is not kept, of `n` bytes.
skip : Bytes → ℕ → ℕ → Doc → Result Element
skip raw n at doc = if ltb (length raw) (at + n) then ok none else ok (some (doc, at + n))

string_body : Bytes → ℕ → Bytes → ℕ → ℕ → Doc → Result Element
string_body raw doc_len key at str_len doc =
    if ltb str_len 1 || (ltb doc_len (at + str_len) || ltb (length raw) (at + str_len))
    then ok none
    else (slice raw at (at + str_len - 1) >>= λ s. ok (some (put key (string s) doc, at + str_len)))

string_value : Bytes → ℕ → Bytes → ℕ → Doc → Result Element
string_value raw doc_len key at doc =
    if ltb doc_len (at + 4) || ltb (length raw) (at + 4) then ok none else (do
      tail ← slice_from raw at
      str_len ← uint32_le tail
      string_body raw doc_len key (at + 4) str_len doc)

int32_value : Bytes → ℕ → Bytes → ℕ → Doc → Result Element
int32_value raw doc_len key at doc =
    if ltb doc_len (at + 4) || ltb (length raw) (at + 4) then ok none else (do
      tail ← slice_from raw at
      n ← uint32_le tail
      ok (some (put key (int32 (signed 2147483648 n)) doc, at + 4)))

pub int64_value : Bytes → ℕ → Bytes → ℕ → Doc → Result Element
int64_value raw doc_len key at doc =
    if ltb doc_len (at + 8) || ltb (length raw) (at + 8) then ok none else (do
      tail ← slice_from raw at
      n ← uint64_le tail
      ok (some (put key (int64 (signed 9223372036854775808 n)) doc, at + 8)))

boolean_value : Bytes → ℕ → Bytes → ℕ → Doc → Result Element
boolean_value raw doc_len key at doc =
    if leb doc_len at || leb (length raw) at
    then ok none
    else (byte_at raw at >>= λ b. ok (some (put key (boolean (not (b == 0))) doc, at + 1)))

nested_body : Bytes → ℕ → ℕ → Doc → Result Element
nested_body raw at sub_len doc =
    if ltb sub_len 5 || ltb (length raw) (at + sub_len)
    then ok none
    else ok (some (doc, at + sub_len))

pub nested_value : Bytes → ℕ → Doc → Result Element
nested_value raw at doc =
    if ltb (length raw) (at + 4)
    then ok none
    else (do tail ← slice_from raw at; sub_len ← uint32_le tail; nested_body raw at sub_len doc)

binary_value : Bytes → ℕ → Doc → Result Element
binary_value raw at doc =
    if ltb (length raw) (at + 4)
    then ok none
    else (do tail ← slice_from raw at; bin_len ← uint32_le tail; skip raw (5 + bin_len) at doc)

-- The switch on the type of the element.
pub value : Bytes → ℕ → ℕ → Bytes → ℕ → Doc → Result Element
value raw doc_len elem_type key at doc =
    if elem_type == 0x02
    then string_value raw doc_len key at doc
    else if elem_type == 0x10
    then int32_value raw doc_len key at doc
    else if elem_type == 0x12
    then int64_value raw doc_len key at doc
    else if elem_type == 0x08
    then boolean_value raw doc_len key at doc
    else if elem_type == 0x01
    then skip raw 8 at doc
    else if elem_type == 0x03 || elem_type == 0x04
    then nested_value raw at doc
    else if elem_type == 0x05
    then binary_value raw at doc
    else if elem_type == 0x07
    then skip raw 12 at doc
    else if elem_type == 0x09
    then skip raw 8 at doc
    else if elem_type == 0x0A
    then ok (some (doc, at))
    else ok none

keyed : Bytes → ℕ → ℕ → ℕ → Option ℕ → Doc → Result Element
keyed raw doc_len elem_type at none doc = ok none
keyed raw doc_len elem_type at (some key_end) doc =
    if leb doc_len (at + key_end)
    then ok none
    else (slice raw at (at + key_end) >>= λ key.
        value raw doc_len elem_type key (at + key_end + 1) doc)

pub element : Bytes → ℕ → ℕ → Doc → Result Element
element raw doc_len at doc = if leb (length raw) at then ok none else (do
  elem_type ← byte_at raw at
  tail ← slice_from raw (at + 1)
  keyed raw doc_len elem_type (at + 1) (index_byte tail 0) doc)

go_on : (ℕ → Doc → Result Doc) → Doc → Element → Result Doc
go_on rest doc none = ok doc
go_on rest doc (some (doc', at)) = rest at doc'

-- The loop, whose rounds are bounded by the fuel.
pub parse_loop : ℕ → Bytes → ℕ → ℕ → Doc → Result Doc
parse_loop zero raw doc_len at doc = ok doc
parse_loop (suc fuel) raw doc_len at doc =
    let rest = parse_loop fuel raw doc_len in
    if ltb at (doc_len - 1) then (element raw doc_len at doc >>= go_on rest doc) else ok doc

-- The document and its length; `none` for `nil, -1`. A round takes a byte at least, so the fuel
-- is enough.
pub parse_bson_doc : Bytes → Result Element
parse_bson_doc raw = if ltb (length raw) 5 then ok none else (do
  doc_len ← uint32_le raw
  if ltb doc_len 5 || (ltb max_bson_doc doc_len || ltb (length raw) doc_len)
      then ok none
      else (parse_loop doc_len raw doc_len 4 [] >>= λ doc. ok (some (doc, doc_len))))

first_key : CaseTable → Bytes → ℕ → Option ℕ → Result Bytes
first_key t raw doc_len none = ok []
first_key t raw doc_len (some end) =
    if leb doc_len (5 + end) then ok [] else (slice raw 5 (5 + end) >>= λ key. ok (to_lower t key))

-- `bsonFirstKey`. Its test `pos >= docLen` at 4 never holds behind the one before it.
pub bson_first_key : CaseTable → Bytes → Result Bytes
bson_first_key t raw = if ltb (length raw) 5 then ok [] else (do
  doc_len ← uint32_le raw
  if ltb doc_len 5 || ltb (length raw) doc_len
      then ok []
      else (slice_from raw 5 >>= λ tail. first_key t raw doc_len (index_byte tail 0)))
