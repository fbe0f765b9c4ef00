-- ===== src/Mongodb/Bson/FirstKey.antt =====
-- The first key of a document is found.
use white_toyota_tacoma.Common.{
  ℕ, ◌+◌, ◌≤◌, ◌≡◌, sym, ap, ◌∙◌, subst, false, ◌||◌, List, [], ◌∷◌, ◌++◌, ltb, leb, length, arith,
  append_assoc, length-append, le→ltb,
}
use white_toyota_tacoma.Common.Bytes.{Bytes, le32, uint32_le-le32, index_byte-append}
use white_toyota_tacoma.Common.Bytes.Behind.{slice_from-behind, slice-behind}
use white_toyota_tacoma.Common.Utf8.{CaseTable, to_lower}
use white_toyota_tacoma.Common.Result.{ok}
use white_toyota_tacoma.Mongodb.Bson.{bson_first_key, first_key, max_bson_doc}
use white_toyota_tacoma.Mongodb.Bson.Fields.{
  Field, tag, encoded, IsField, wire_fields, wire_doc, key-Lacks,
}

-- `bsonFirstKey` finds the first key of a document, in lower case.
pub bson_first_key-wire_doc :
    (t : CaseTable) (key : Bytes) (f : Field) (fs : List (Bytes × Field)) (rest : Bytes)
    → IsField (key, f)
    → 5 + length (wire_fields ((key, f) ∷ fs)) ≤ max_bson_doc
    → bson_first_key t (wire_doc ((key, f) ∷ fs) ++ rest) ≡ ok (to_lower t key)
unfolding bson_first_key first_key
bson_first_key-wire_doc t key f fs rest h l =
    subst (λ r. bson_first_key t r ≡ ok (to_lower t key)) (sym shape) plain
  where
    n : ℕ
    n = 5 + length (wire_fields ((key, f) ∷ fs))

    more : Bytes
    more = ((encoded f ++ wire_fields fs) ++ 0 ∷ []) ++ rest

    size :
        length (wire_fields ((key, f) ∷ fs))
        ≡ length key + (2 + length (encoded f ++ wire_fields fs))
    size = omega (arith, length-append key (0 ∷ (encoded f ++ wire_fields fs)))

    shape : wire_doc ((key, f) ∷ fs) ++ rest ≡ le32 n ++ tag f ∷ (key ++ 0 ∷ more)
    shape =
        ap (λ u. le32 n ++ tag f ∷ u)
          (ap (λ u. u ++ rest) (append_assoc key (0 ∷ (encoded f ++ wire_fields fs)) (0 ∷ []))
            ∙ append_assoc key (0 ∷ ((encoded f ++ wire_fields fs) ++ 0 ∷ [])) rest)

    tall : ltb (length (le32 n ++ tag f ∷ (key ++ 0 ∷ more))) 5 ≡ false
    tall = le→ltb _ _ (omega (arith, length-append key (0 ∷ more)))

    fits : (ltb n 5 || ltb (length (le32 n ++ tag f ∷ (key ++ 0 ∷ more))) n) ≡ false
    fits = ground (
      arith,
      size,
      length-append key (0 ∷ more),
      length-append ((encoded f ++ wire_fields fs) ++ 0 ∷ []) rest,
      length-append (encoded f ++ wire_fields fs) (0 ∷ []),
    )

    inside : leb n (5 + length key) ≡ false
    inside = ground (arith, size)

    plain : bson_first_key t (le32 n ++ tag f ∷ (key ++ 0 ∷ more)) ≡ ok (to_lower t key)
    plain =
        rw (tall, uint32_le-le32 n (tag f ∷ (key ++ 0 ∷ more)) (omega arith))
          (rw fits (
            rw (slice_from-behind (le32 n ++ tag f ∷ []) (key ++ 0 ∷ more)) (
              rw (index_byte-append 0 key more (key-Lacks key f h))
                (rw (inside, slice-behind (le32 n ++ tag f ∷ []) key (0 ∷ more))))))
