-- ===== src/Mongodb/Encode/RoundTrip.antt =====
-- A document that `encodeBSON` writes is parsed into the values that were put into it.
use mathlib.Core.List.{Permᴰ}
use white_toyota_tacoma.Common.{
  ℕ, ◌+◌, ◌≤◌, ◌≡◌, refl, sym, ap, ◌∙◌, inl, inr, Option, none, some, [], ◌∷◌, ◌++◌, if◌then◌else◌,
  length, length-append, arith, Bool-cases,
}
use white_toyota_tacoma.Common.Int.{ℤ, pos, negsuc}
use white_toyota_tacoma.Common.Bytes.{Bytes, same}
use white_toyota_tacoma.Common.Result.{ok}
use white_toyota_tacoma.Mongodb.Bson as Bson
use white_toyota_tacoma.Mongodb.Bson.{Value, Doc, put, find, signed, max_bson_doc, parse_bson_doc}
use white_toyota_tacoma.Mongodb.Bson.Lookup.{
  kept, or_else-none, last_kept, count, find-put_all_nil, last_kept-Permᴰ,
}
use white_toyota_tacoma.Mongodb.Bson.Fields.{put_all, wire_fields}
use white_toyota_tacoma.Mongodb.Bson.RoundTrip.{parse_bson_doc-wire_doc}
use white_toyota_tacoma.Mongodb.Encode.{
  Any, string, int, int32, int64, bool, float64, document, array, strings, ints, other, Entries,
  end, entry, Order, bits, or_minimal, elements, encode_bson,
}
use white_toyota_tacoma.Mongodb.Encode.Wire.{
  inside, field_of, fields_of, InRange, Fits, AllFit, encode_bson-wire_doc,
}

-- The specification: what a reader should find, and where.
abbrev pub value_of : Any → Option Value
value_of (string s) = some (Bson.string s)
value_of (int n) = some (Bson.int32 n)
value_of (int32 n) = some (Bson.int32 n)
value_of (int64 n) = some (Bson.int64 n)
value_of (bool b) = some (Bson.boolean b)
value_of (float64 n) = some (Bson.int32 (signed 2147483648 n))
value_of (other raw) = some (Bson.string raw)
value_of _ = none

abbrev pub value_at : Bytes → Entries → Option Value
value_at key end = none
value_at key (entry k v doc) = if same k key then value_of v else value_at key doc

-- How often a key stands in a document: in a Go map, once at most.
abbrev pub occurrences : Bytes → Entries → ℕ
occurrences key end = 0
occurrences key (entry k v doc) = (if same k key then 1 else 0) + occurrences key doc

pub signed-bits : (n : ℤ) → InRange 2147483648 n → signed 2147483648 (bits 4294967296 n) ≡ n
signed-bits (pos n) h = ground arith
signed-bits (negsuc n) h = ground arith

signed-bits64 :
    (n : ℤ)
    → InRange 9223372036854775808 n
    → signed 9223372036854775808 (bits 18446744073709551616 n) ≡ n
signed-bits64 (pos n) h = ground arith
signed-bits64 (negsuc n) h = ground arith

kept-field_of : (order : Order) (v : Any) → Fits order v → kept (field_of order v) ≡ value_of v
kept-field_of order (string s) h = refl
kept-field_of order (int n) h = ap (λ k. some (Bson.int32 k)) (signed-bits n h)
kept-field_of order (int32 n) h = ap (λ k. some (Bson.int32 k)) (signed-bits n h)
kept-field_of order (int64 n) h = ap (λ k. some (Bson.int64 k)) (signed-bits64 n h)
kept-field_of order (bool b) h = refl
kept-field_of order (float64 n) h = refl
kept-field_of order (document doc) h = refl
kept-field_of order (array vs) h = refl
kept-field_of order (strings ss) h = refl
kept-field_of order (ints ns) h = refl
kept-field_of order (other raw) h = refl

count-fields_of :
    (order : Order) (key : Bytes) (doc : Entries)
    → count key (fields_of order doc) ≡ occurrences key doc
count-fields_of order key end = refl
count-fields_of order key (entry k v doc) =
    ap (λ n. (if same k key then 1 else 0) + n) (count-fields_of order key doc)

last_kept-absent :
    (order : Order) (key : Bytes) (doc : Entries)
    → occurrences key doc ≡ 0
    → last_kept key (fields_of order doc) ≡ none
last_kept-absent order key end h = refl
last_kept-absent order key (entry k v doc) h = elim (Bool-cases (same k key)) [
  | inl e ↦ absurd (ground arith)
  | inr e ↦ rw e (rw (last_kept-absent order key doc (ground arith)))
]

last_kept-fields_of :
    (order : Order) (key : Bytes) (doc : Entries)
    → AllFit order doc
    → occurrences key doc ≤ 1
    → last_kept key (fields_of order doc) ≡ value_at key doc
last_kept-fields_of order key end h l = refl
last_kept-fields_of order key (entry k v doc) h l = elim (Bool-cases (same k key)) [
  | inl e ↦ rw e (rw (last_kept-absent order key doc (ground arith)) (kept-field_of order v h.0.1))
  | inr e ↦ rw e (or_else-none _ ∙ last_kept-fields_of order key doc h.1 (ground arith))
]

-- A document that `encodeBSON` writes is parsed into the values that were put into it, whatever the
-- order in which Go visits the map: under each key that the map has, a reader finds its string,
-- number or boolean; under the key of a nested document or an array, and under a key that is not
-- there, nothing. The whole length is taken, and what follows is left. The keys have no NUL, a
-- number is one of its type, strings and nested documents have less than 2 GB, and the document
-- has at most 16 MB.
pub parse_bson_doc-encode_bson :
    (order : Order) (doc : Entries) (rest : Bytes)
    → Permᴰ (elements order doc) (order (elements order doc))
    → AllFit order doc
    → 4 + length (inside order (elements order doc)) ≤ max_bson_doc
    → (d : Doc) × (parse_bson_doc (or_minimal (encode_bson order doc) ++ rest)
        ≡ ok (some (d, length (or_minimal (encode_bson order doc)))))
      × ((key : Bytes) → occurrences key doc ≤ 1 → find key d ≡ value_at key doc)
parse_bson_doc-encode_bson order doc rest p h small =
    let (gs, e, q, fields, n) = encode_bson-wire_doc order doc p h (omega (arith, small)) in
    (
      put_all gs [],
      rw e (
          parse_bson_doc-wire_doc gs rest fields (omega (arith, n, small))
          ∙ ap (λ k. ok (some (put_all gs [], k)))
              (omega (arith, length-append (wire_fields gs) (0 ∷ [])))),
      λ key once.
          find-put_all_nil key gs
          ∙ sym (last_kept-Permᴰ key q (omega (arith, count-fields_of order key doc, once)))
          ∙ last_kept-fields_of order key doc h once,
    )
