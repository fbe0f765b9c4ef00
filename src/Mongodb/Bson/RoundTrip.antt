-- ===== src/Mongodb/Bson/RoundTrip.antt =====
-- A document is parsed into what was put into it.
use white_toyota_tacoma.Common.{
  ℕ, zero, suc, ◌+◌, ◌-◌, ◌≤◌, ◌<◌, ◌≡◌, refl, sym, ap, ◌∙◌, true, false, ◌||◌, some, List, [], ◌∷◌,
  ◌++◌, ltb, length, All, arith, append_assoc, length-append, le→ltb, lt→ltb,
}
use white_toyota_tacoma.Common.Bytes.{Bytes, le32, uint32_le-le32}
use white_toyota_tacoma.Common.Result.{Result, ok}
use white_toyota_tacoma.Mongodb.Bson.{Doc, max_bson_doc, go_on, parse_loop, parse_bson_doc}
use white_toyota_tacoma.Mongodb.Bson.Fields.{
  Field, tag, encoded, stored, IsField, wire_fields, wire_doc, put_all,
}
use white_toyota_tacoma.Mongodb.Bson.Element.{element-encoded}

-- The bytes of one element.
abbrev pub wire_element : Bytes → Field → Bytes
wire_element key f = tag f ∷ (key ++ 0 ∷ encoded f)

length-wire_element :
    (key : Bytes) (f : Field) → length (wire_element key f) ≡ length key + (2 + length (encoded f))
length-wire_element key f = omega (arith, length-append key (0 ∷ encoded f))

fields-append :
    (key : Bytes) (f : Field) (fs rest : Bytes)
    → tag f ∷ ((key ++ 0 ∷ (encoded f ++ fs)) ++ rest)
      ≡ tag f ∷ (key ++ 0 ∷ (encoded f ++ (fs ++ rest)))
fields-append key f fs rest =
    ap (λ t. tag f ∷ t)
      (append_assoc key (0 ∷ (encoded f ++ fs)) rest
        ∙ ap (λ t. key ++ 0 ∷ t) (append_assoc (encoded f) fs rest))

element-append :
    (key : Bytes) (f : Field) (pre rest : Bytes)
    → (pre ++ wire_element key f) ++ rest ≡ pre ++ tag f ∷ (key ++ 0 ∷ (encoded f ++ rest))
element-append key f pre rest =
    append_assoc pre (wire_element key f) rest
    ∙ ap (λ t. pre ++ tag f ∷ t) (append_assoc key (0 ∷ encoded f) rest)

moved :
    {raw raw' : Bytes} {n n' at at' : ℕ} {r : Result Doc} (fuel : ℕ) (doc : Doc)
    → raw ≡ raw'
    → n ≡ n'
    → at ≡ at'
    → parse_loop fuel raw n at doc ≡ r
    → parse_loop fuel raw' n' at' doc ≡ r
moved fuel doc e f g h = cc

loop-fields :
    (fs : List (Bytes × Field)) (pre rest : Bytes) (fuel : ℕ) (doc : Doc)
    → All IsField fs
    → length (wire_fields fs) < fuel
    → parse_loop fuel
        (pre ++ (wire_fields fs ++ 0 ∷ rest))
        (length pre + length (wire_fields fs) + 1)
        (length pre)
        doc
      ≡ ok (put_all fs doc)
unfolding parse_loop go_on
loop-fields fs pre rest zero doc h l = absurd (omega arith)
loop-fields [] pre rest (suc fuel) doc h l =
    let over : ltb (length pre) (length pre + 0 + 1 - 1) ≡ false = ground arith in rw over
loop-fields ((key, f) ∷ fs) pre rest (suc fuel) doc h l =
    rw (inside, fields-append key f (wire_fields fs) (0 ∷ rest))
      (rw
        (element-encoded (wire_fields fs ++ 0 ∷ rest) key f doc_len doc h.0 pre
          (omega (arith, size)) within)
        (moved fuel (stored key f doc) (element-append key f pre (wire_fields fs ++ 0 ∷ rest)) ends
          place (loop-fields fs next rest fuel (stored key f doc) h.1 (omega (arith, size)))))
  where
    doc_len : ℕ
    doc_len = length pre + length (wire_fields ((key, f) ∷ fs)) + 1

    next : Bytes
    next = pre ++ wire_element key f

    size :
        length (wire_fields ((key, f) ∷ fs))
        ≡ length key + (2 + length (encoded f)) + length (wire_fields fs)
    size = omega (
      arith,
      length-append key (0 ∷ (encoded f ++ wire_fields fs)),
      length-append (encoded f) (wire_fields fs),
    )

    place : length next ≡ length pre + (length key + (2 + length (encoded f)))
    place =
        length-append pre (wire_element key f)
        ∙ ap (λ n. length pre + n) (length-wire_element key f)

    ends : length next + length (wire_fields fs) + 1 ≡ doc_len
    ends = omega (arith, place, size)

    inside : ltb (length pre) (doc_len - 1) ≡ true
    inside = lt→ltb _ _ (omega (arith, size))

    within :
        doc_len ≤ length (pre ++ tag f ∷ (key ++ 0 ∷ (encoded f ++ (wire_fields fs ++ 0 ∷ rest))))
    within = omega (
      arith,
      size,
      length-append pre (tag f ∷ (key ++ 0 ∷ (encoded f ++ (wire_fields fs ++ 0 ∷ rest)))),
      length-append key (0 ∷ (encoded f ++ (wire_fields fs ++ 0 ∷ rest))),
      length-append (encoded f) (wire_fields fs ++ 0 ∷ rest),
      length-append (wire_fields fs) (0 ∷ rest),
    )

-- `parseBSONDoc` keeps every string, number of 32 or 64 bits and boolean of a document, the last one
-- where a key comes twice, passes over nested documents and arrays, and says how many bytes the
-- document has; what follows it is not looked at. The keys have no NUL, and the document has at
-- most 16 MB.
pub parse_bson_doc-wire_doc :
    (fs : List (Bytes × Field)) (rest : Bytes)
    → All IsField fs
    → 5 + length (wire_fields fs) ≤ max_bson_doc
    → parse_bson_doc (wire_doc fs ++ rest) ≡ ok (some (put_all fs [], 5 + length (wire_fields fs)))
unfolding parse_bson_doc
parse_bson_doc-wire_doc fs rest h l =
    let n : ℕ = 5 + length (wire_fields fs) in
    rw (tall, uint32_le-le32 n ((wire_fields fs ++ 0 ∷ []) ++ rest) (omega arith))
      (rw (fits, looped))
  where
    tall : ltb (length (wire_doc fs ++ rest)) 5 ≡ false
    tall = le→ltb _ _ (
        omega (
          arith,
          length-append (wire_fields fs ++ 0 ∷ []) rest,
          length-append (wire_fields fs) (0 ∷ []),
        ))

    fits :
        (ltb (5 + length (wire_fields fs)) 5
          || (ltb max_bson_doc (5 + length (wire_fields fs))
              || ltb (length (wire_doc fs ++ rest)) (5 + length (wire_fields fs))))
        ≡ false
    fits = ground (
      arith,
      length-append (wire_fields fs ++ 0 ∷ []) rest,
      length-append (wire_fields fs) (0 ∷ []),
    )

    looped :
        parse_loop
          (5 + length (wire_fields fs))
          (wire_doc fs ++ rest)
          (5 + length (wire_fields fs))
          4
          []
        ≡ ok (put_all fs [])
    looped =
        moved (5 + length (wire_fields fs)) []
          (ap (λ t. le32 (5 + length (wire_fields fs)) ++ t)
            (sym (append_assoc (wire_fields fs) (0 ∷ []) rest)))
          (omega arith) refl
          (loop-fields fs (le32 (5 + length (wire_fields fs))) rest (5 + length (wire_fields fs)) []
            h (omega arith))
