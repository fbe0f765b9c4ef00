-- ===== src/Mongodb/Sections/Captured.antt =====
-- What `handleOpMsg` finds in a message, and what it loses.
use white_toyota_tacoma.Common.{
  ℕ, zero, suc, ◌+◌, ◌≤◌, ◌≡◌, ◌≢◌, refl, ◌∙◌, subst, true, false, none, some, List, [], ◌∷◌, ◌++◌,
  ltb, ◌==◌, length, All, arith, append_assoc, append-nil, length-append, le→ltb, lt→ltb,
}
use white_toyota_tacoma.Common.Bytes.{Bytes, byte_at, slice_from}
use white_toyota_tacoma.Common.Bytes.Behind.{slice_from-behind, byte_at-behind}
use white_toyota_tacoma.Common.Utf8.{CaseTable, to_lower}
use white_toyota_tacoma.Common.Result.{ok}
use white_toyota_tacoma.Mongodb.Bson.{max_bson_doc}
use white_toyota_tacoma.Mongodb.Bson.Fields.{Field, IsField, wire_fields, wire_doc, put_all}
use white_toyota_tacoma.Mongodb.Bson.RoundTrip.{parse_bson_doc-wire_doc}
use white_toyota_tacoma.Mongodb.Bson.FirstKey.{bson_first_key-wire_doc}
use white_toyota_tacoma.Mongodb.Bson.Safety.{parse_bson_doc_short, bson_first_key_short}
use white_toyota_tacoma.Mongodb.Sections.{Found, parsed, body, section, section_loop, sections}
use white_toyota_tacoma.Mongodb.Sections.Safety.{section_loop_more}

-- The flags, and a body section.
abbrev pub with_flags : ℕ → ℕ → ℕ → ℕ → Bytes → Bytes
with_flags a b c d rest = a ∷ b ∷ c ∷ d ∷ rest

length-wire_doc :
    (fs : List (Bytes × Field)) (rest : Bytes)
    → length (wire_doc fs ++ rest) ≡ 5 + length (wire_fields fs) + length rest
length-wire_doc fs rest =
    omega (
      arith,
      length-append (wire_fields fs ++ 0 ∷ []) rest,
      length-append (wire_fields fs) (0 ∷ []),
    )

module _ (t : CaseTable) (key : Bytes) (f : Field) (fs : List (Bytes × Field))
    (h : All IsField ((key, f) ∷ fs))
    (l : 5 + length (wire_fields ((key, f) ∷ fs)) ≤ max_bson_doc) where
  doc_size : ℕ
  doc_size = 5 + length (wire_fields ((key, f) ∷ fs))

  body-wire_doc :
      (front rest : Bytes) (found : Found)
      → body t (front ++ (wire_doc ((key, f) ∷ fs) ++ rest)) (length front) found
        ≡ ok (
          length front + doc_size,
          record { command = to_lower t key; doc = some (put_all ((key, f) ∷ fs) []) },
        )
  unfolding body parsed doc_size
  body-wire_doc front rest found = rw (slice_from-behind front (wire_doc ((key, f) ∷ fs) ++ rest)) (
      rw (
        bson_first_key-wire_doc t key f fs rest h.0 l,
        parse_bson_doc-wire_doc ((key, f) ∷ fs) rest h l,
      ))

  first-round :
      (fuel a b c d : ℕ) (rest : Bytes) (found : Found)
      → section_loop
          (suc fuel)
          t
          (with_flags a b c d (0 ∷ (wire_doc ((key, f) ∷ fs) ++ rest)))
          4
          found
        ≡ section_loop fuel t
            (with_flags a b c d (0 ∷ (wire_doc ((key, f) ∷ fs) ++ rest)))
            (5 + doc_size)
            (record { command = to_lower t key; doc = some (put_all ((key, f) ∷ fs) []) })
  unfolding section_loop section byte_at
  first-round fuel a b c d rest found =
      let inside : ltb 4 (length (with_flags a b c d (0 ∷ (wire_doc ((key, f) ∷ fs) ++ rest))))
          ≡ true =
        lt→ltb _ _ (omega arith) in
      rw inside (rw (body-wire_doc (with_flags a b c d (0 ∷ [])) rest found))

past :
    (t : CaseTable) (fuel at : ℕ) (payload : Bytes) (found : Found)
    → length payload ≤ at
    → section_loop fuel t payload at found ≡ ok found
unfolding section_loop
past t zero at payload found h = refl
past t (suc fuel) at payload found h = rw (le→ltb at (length payload) h) refl

-- Four bytes behind the last section, the first 0 and the second neither 0 nor 1.
lost :
    (t : CaseTable) (fuel x y z : ℕ) (front : Bytes) (found : Found)
    → x ≢ 0
    → x ≢ 1
    → section_loop (suc (suc fuel)) t (front ++ 0 ∷ x ∷ y ∷ z ∷ []) (length front) found
      ≡ ok (record found { command = [] })
unfolding section_loop section body parsed
lost t fuel x y z front found zero_not one_not =
    rw (inside, byte_at-behind front 0 (x ∷ y ∷ z ∷ []))
      (rw tail (
        rw
          (
            bson_first_key_short t (x ∷ y ∷ z ∷ []) (omega arith),
            parse_bson_doc_short (x ∷ y ∷ z ∷ []) (omega arith),
          )
          (rw (further, kind)
            (rw (no_body, no_sequence)
              (past t fuel _ _ (record found { command = [] }) (omega arith))))))
  where
    raw : Bytes
    raw = front ++ 0 ∷ x ∷ y ∷ z ∷ []

    size : length (front ++ 0 ∷ x ∷ y ∷ z ∷ []) ≡ length front + 4
    size = length-append front (0 ∷ x ∷ y ∷ z ∷ [])

    inside : ltb (length front) (length (front ++ 0 ∷ x ∷ y ∷ z ∷ [])) ≡ true
    inside = lt→ltb _ _ (omega (arith, size))

    further : ltb (length front + 1) (length (front ++ 0 ∷ x ∷ y ∷ z ∷ [])) ≡ true
    further = lt→ltb _ _ (omega (arith, size))

    place : length (front ++ 0 ∷ []) ≡ length front + 1
    place = length-append front (0 ∷ [])

    grouped : (front ++ 0 ∷ []) ++ x ∷ y ∷ z ∷ [] ≡ front ++ 0 ∷ x ∷ y ∷ z ∷ []
    grouped = append_assoc front (0 ∷ []) (x ∷ y ∷ z ∷ [])

    tail : slice_from (front ++ 0 ∷ x ∷ y ∷ z ∷ []) (length front + 1) ≡ ok (x ∷ y ∷ z ∷ [])
    tail = rw grouped at (rw place at (slice_from-behind (front ++ 0 ∷ []) (x ∷ y ∷ z ∷ [])))

    kind : byte_at (front ++ 0 ∷ x ∷ y ∷ z ∷ []) (length front + 1) ≡ ok x
    kind = rw grouped at (rw place at (byte_at-behind (front ++ 0 ∷ []) x (y ∷ z ∷ [])))

    no_body : (x == 0) ≡ false
    no_body = ground arith

    no_sequence : (x == 1) ≡ false
    no_sequence = ground arith

-- In an OP_MSG of one body section `handleOpMsg` finds the document, and takes for the command its
-- first key in lower case. The keys have no NUL and the document at most 16 MB. Where four more
-- bytes follow, such as the checksum that the protocol allows, and the first is 0 and the second
-- neither 0 nor 1, it finds the same document and loses the command: the 0 is taken for a body,
-- whose document is not there, and the `break` leaves only the switch.
pub sections-wire_doc :
    (t : CaseTable) (a b c d : ℕ) (key : Bytes) (f : Field) (fs : List (Bytes × Field)) (x y z : ℕ)
    → All IsField ((key, f) ∷ fs)
    → 5 + length (wire_fields ((key, f) ∷ fs)) ≤ max_bson_doc
    → x ≢ 0
    → x ≢ 1
    → (sections t (with_flags a b c d (0 ∷ wire_doc ((key, f) ∷ fs)))
        ≡ ok (record { command = to_lower t key; doc = some (put_all ((key, f) ∷ fs) []) }))
      × (sections t (with_flags a b c d (0 ∷ (wire_doc ((key, f) ∷ fs) ++ 0 ∷ x ∷ y ∷ z ∷ [])))
          ≡ ok (record { command = []; doc = some (put_all ((key, f) ∷ fs) []) }))
sections-wire_doc t a b c d key f fs x y z h l not_zero not_one = (
  subst (λ w. sections t (with_flags a b c d (0 ∷ w)) ≡ ok found)
      (append-nil (wire_doc ((key, f) ∷ fs))) plain,
  longer,
)
  where
    found : Found
    found = record { command = to_lower t key; doc = some (put_all ((key, f) ∷ fs) []) }

    start : Found
    start = record { command = []; doc = none }

    whole : Bytes → Bytes
    whole rest = with_flags a b c d (0 ∷ (wire_doc ((key, f) ∷ fs) ++ rest))

    plain : sections t (whole []) ≡ ok found
    plain =
        section_loop_more t (whole []) (suc (length (whole []))) (omega arith)
        ∙ first-round t key f fs h l (length (whole [])) a b c d [] start
        ∙ past t (length (whole [])) _ (whole []) found
            (unfold doc_size in omega (arith, length-wire_doc ((key, f) ∷ fs) []))

    front : Bytes
    front = with_flags a b c d (0 ∷ wire_doc ((key, f) ∷ fs))

    place : length front ≡ 5 + doc_size t key f fs h l
    place = unfold doc_size in omega (arith, length-append (wire_fields ((key, f) ∷ fs)) (0 ∷ []))

    longer :
        sections t (whole (0 ∷ x ∷ y ∷ z ∷ []))
        ≡ ok (record { command = []; doc = some (put_all ((key, f) ∷ fs) []) })
    longer =
        section_loop_more t (whole (0 ∷ x ∷ y ∷ z ∷ []))
          (suc (suc (suc (length (whole (0 ∷ x ∷ y ∷ z ∷ [])))))) (omega arith)
        ∙ first-round t key f fs h l (suc (suc (length (whole (0 ∷ x ∷ y ∷ z ∷ []))))) a b c d
            (0 ∷ x ∷ y ∷ z ∷ []) start
        ∙ subst
            (λ i.
              section_loop (suc (suc (length (whole (0 ∷ x ∷ y ∷ z ∷ []))))) t
                (whole (0 ∷ x ∷ y ∷ z ∷ [])) i found
              ≡ ok (record found { command = [] }))
            place (lost t (length (whole (0 ∷ x ∷ y ∷ z ∷ []))) x y z front found not_zero not_one)
