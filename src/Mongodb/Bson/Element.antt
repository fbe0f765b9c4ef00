-- ===== src/Mongodb/Bson/Element.antt =====
-- One element of a document is parsed into what was put into it.
use white_toyota_tacoma.Common.{
  ℕ, ◌+◌, ◌-◌, ◌≤◌, ◌<◌, ◌≡◌, sym, ap, ◌∙◌, subst, true, false, not, ◌||◌, Option, some, [], ◌∷◌,
  ◌++◌, ltb, leb, ◌==◌, length, arith, append_assoc, length-append, le→ltb,
}
use white_toyota_tacoma.Common.Bytes.{
  Bytes, le32, uint32_le-le32, index_byte-append, slice, slice_from,
}
use white_toyota_tacoma.Common.Bytes.Behind.{slice_from-behind, slice-behind, byte_at-behind}
use white_toyota_tacoma.Common.Result.{Result, ok}
use white_toyota_tacoma.Mongodb.Bson.{
  string, int32, boolean, Doc, put, Element, signed, string_body, string_value, int32_value,
  boolean_value, value, keyed, element,
}
use white_toyota_tacoma.Mongodb.Bson.Fields.{
  Field, text, number, flag, long, document, array, tag, encoded, stored, IsField, key-Lacks,
}
use white_toyota_tacoma.Mongodb.Bson.Wide.{long-value, nested-value}

-- The value of a field, at the position behind `pre`.
module _ (pre rest key : Bytes) (doc_len : ℕ) (doc : Doc) where
  text-value :
      (s : Bytes)
      → length s < 2147483648
      → length pre + length (encoded (text s)) ≤ doc_len
      → doc_len ≤ length (pre ++ (encoded (text s) ++ rest))
      → string_value (pre ++ (encoded (text s) ++ rest)) doc_len key (length pre) doc
        ≡ ok (some (put key (string s) doc, length pre + length (encoded (text s))))
  unfolding string_value string_body
  text-value s small fits within =
      let shape : (s ++ 0 ∷ []) ++ rest ≡ s ++ 0 ∷ rest = append_assoc s (0 ∷ []) rest in
      let size : length (s ++ 0 ∷ []) ≡ length s + 1 = length-append s (0 ∷ []) in
      rw
        (
          ltb_false doc_len (length pre + 4) (omega arith),
          ltb_false (length raw) (length pre + 4) (omega arith),
        )
        (rw (slice_from-behind pre (encoded (text s) ++ rest)) (
          rw (uint32_le-le32 (length s + 1) ((s ++ 0 ∷ []) ++ rest) (omega arith)) (
            rw (test shape size, cut shape)
              (ap (λ i. ok (some (put key (string s) doc, i))) (omega (arith, size))))))
    where
      raw : Bytes
      raw = pre ++ (encoded (text s) ++ rest)

      ltb_false : (a b : ℕ) → b ≤ a → ltb a b ≡ false
      ltb_false = le→ltb

      test :
          (s ++ 0 ∷ []) ++ rest ≡ s ++ 0 ∷ rest
          → length (s ++ 0 ∷ []) ≡ length s + 1
          → (ltb (length s + 1) 1
              || (ltb doc_len (length pre + 4 + (length s + 1))
                  || ltb (length raw) (length pre + 4 + (length s + 1))))
            ≡ false
      test shape size = ground arith

      cut :
          (s ++ 0 ∷ []) ++ rest ≡ s ++ 0 ∷ rest
          → slice raw (length pre + 4) (length pre + 4 + (length s + 1) - 1) ≡ ok s
      cut shape =
          let front : Bytes = pre ++ le32 (length s + 1) in
          let n : length front ≡ length pre + 4 = length-append pre (le32 (length s + 1)) in
          let end : length pre + 4 + (length s + 1) - 1 ≡ length pre + 4 + length s = omega arith in
          rw (end, shape)
            (rw n at (
              rw (append_assoc pre (le32 (length s + 1)) (s ++ 0 ∷ rest)) at
                (slice-behind front s (0 ∷ rest))))

  number-value :
      (n : ℕ)
      → n < 4294967296
      → length pre + 4 ≤ doc_len
      → doc_len ≤ length (pre ++ (le32 n ++ rest))
      → int32_value (pre ++ (le32 n ++ rest)) doc_len key (length pre) doc
        ≡ ok (some (put key (int32 (signed 2147483648 n)) doc, length pre + 4))
  unfolding int32_value
  number-value n small fits within =
      rw
        (
          le→ltb doc_len (length pre + 4) (omega arith),
          le→ltb (length (pre ++ (le32 n ++ rest))) (length pre + 4) (omega arith),
        )
        (rw (slice_from-behind pre (le32 n ++ rest)) (rw (uint32_le-le32 n rest small)))

  flag-value :
      (b : ℕ)
      → length pre + 1 ≤ doc_len
      → doc_len ≤ length (pre ++ b ∷ rest)
      → boolean_value (pre ++ b ∷ rest) doc_len key (length pre) doc
        ≡ ok (some (put key (boolean (not (b == 0))) doc, length pre + 1))
  unfolding boolean_value
  flag-value b fits within =
      let test : (leb doc_len (length pre) || leb (length (pre ++ b ∷ rest)) (length pre)) ≡ false =
        ground arith in
      rw test (rw (byte_at-behind pre b rest))

  value-encoded :
      (f : Field)
      → IsField (key, f)
      → length pre + length (encoded f) ≤ doc_len
      → doc_len ≤ length (pre ++ (encoded f ++ rest))
      → value (pre ++ (encoded f ++ rest)) doc_len (tag f) key (length pre) doc
        ≡ ok (some (stored key f doc, length pre + length (encoded f)))
  unfolding value
  value-encoded (text s) h fits within = text-value s h.1 fits within
  value-encoded (number n) h fits within = number-value n h.1 fits within
  value-encoded (flag true) h fits within = flag-value 1 fits within
  value-encoded (flag false) h fits within = flag-value 0 fits within
  value-encoded (long n) h fits within = long-value pre rest key doc_len doc n h.1 fits within
  value-encoded (document elems) h fits within = nested-value pre rest doc elems h.1
  value-encoded (array elems) h fits within = nested-value pre rest doc elems h.1

module _ (rest key : Bytes) (f : Field) (doc_len : ℕ) (doc : Doc) (h : IsField (key, f)) where
  keyed-encoded :
      (front : Bytes)
      → length front + (length key + (1 + length (encoded f))) ≤ doc_len
      → doc_len ≤ length (front ++ (key ++ 0 ∷ (encoded f ++ rest)))
      → keyed
          (front ++ (key ++ 0 ∷ (encoded f ++ rest)))
          doc_len
          (tag f)
          (length front)
          (some (length key))
          doc
        ≡ ok (some (stored key f doc, length front + (length key + (1 + length (encoded f)))))
  unfolding keyed
  keyed-encoded front fits within =
      rw (inside, slice-behind front key (0 ∷ (encoded f ++ rest)))
        (subst
          (λ r.
            value r doc_len (tag f) key (length front + length key + 1) doc
            ≡ ok (some (stored key f doc, end)))
          grouped
          (subst
            (λ i.
              value (pre ++ (encoded f ++ rest)) doc_len (tag f) key i doc
              ≡ ok (some (stored key f doc, end)))
            place
            (value-encoded pre rest key doc_len doc f h (omega (arith, place))
                (subst (λ r. doc_len ≤ length r) (sym grouped) within)
              ∙ ap (λ i. ok (some (stored key f doc, i))) (omega (arith, place)))))
    where
      pre : Bytes
      pre = front ++ (key ++ 0 ∷ [])

      end : ℕ
      end = length front + (length key + (1 + length (encoded f)))

      grouped : pre ++ (encoded f ++ rest) ≡ front ++ (key ++ 0 ∷ (encoded f ++ rest))
      grouped =
          append_assoc front (key ++ 0 ∷ []) (encoded f ++ rest)
          ∙ ap (λ t. front ++ t) (append_assoc key (0 ∷ []) (encoded f ++ rest))

      place : length pre ≡ length front + length key + 1
      place = omega (arith, length-append front (key ++ 0 ∷ []), length-append key (0 ∷ []))

      inside : leb doc_len (length front + length key) ≡ false
      inside = ground arith

  keyed_moved :
      {raw raw' : Bytes} {at at' : ℕ} {r : Result Element} (o : Option ℕ)
      → raw ≡ raw'
      → at ≡ at'
      → keyed raw doc_len (tag f) at o doc ≡ r
      → keyed raw' doc_len (tag f) at' o doc ≡ r
  keyed_moved o e g k = cc

  pub element-encoded :
      (pre : Bytes)
      → length pre + (length key + (2 + length (encoded f))) ≤ doc_len
      → doc_len ≤ length (pre ++ tag f ∷ (key ++ 0 ∷ (encoded f ++ rest)))
      → element (pre ++ tag f ∷ (key ++ 0 ∷ (encoded f ++ rest))) doc_len (length pre) doc
        ≡ ok (some (stored key f doc, length pre + (length key + (2 + length (encoded f)))))
  unfolding element
  element-encoded pre fits within =
      let tail : Bytes = key ++ 0 ∷ (encoded f ++ rest) in
      rw (inside, byte_at-behind pre (tag f) tail)
        (rw behind_tag (
          rw (index_byte-append 0 key (encoded f ++ rest) (key-Lacks key f h)) (
            keyed_moved (some (length key)) grouped place (
              keyed-encoded front (omega (arith, place))
                (subst (λ r. doc_len ≤ length r) (sym grouped) within)
              ∙ ap (λ i. ok (some (stored key f doc, i))) ends))))
    where
      front : Bytes
      front = pre ++ tag f ∷ []

      place : length front ≡ length pre + 1
      place = length-append pre (tag f ∷ [])

      ends :
          length front + (length key + (1 + length (encoded f)))
          ≡ length pre + (length key + (2 + length (encoded f)))
      ends = omega (arith, place)

      grouped :
          front ++ (key ++ 0 ∷ (encoded f ++ rest))
          ≡ pre ++ tag f ∷ (key ++ 0 ∷ (encoded f ++ rest))
      grouped = append_assoc pre (tag f ∷ []) (key ++ 0 ∷ (encoded f ++ rest))

      inside : leb (length (pre ++ tag f ∷ (key ++ 0 ∷ (encoded f ++ rest)))) (length pre) ≡ false
      inside = ground (arith, length-append pre (tag f ∷ (key ++ 0 ∷ (encoded f ++ rest))))

      behind_tag :
          slice_from (pre ++ tag f ∷ (key ++ 0 ∷ (encoded f ++ rest))) (length pre + 1)
          ≡ ok (key ++ 0 ∷ (encoded f ++ rest))
      behind_tag =
          subst (λ r. slice_from r (length pre + 1) ≡ ok (key ++ 0 ∷ (encoded f ++ rest))) grouped
            (subst
              (λ i.
                slice_from (front ++ (key ++ 0 ∷ (encoded f ++ rest))) i
                ≡ ok (key ++ 0 ∷ (encoded f ++ rest)))
              place (slice_from-behind front (key ++ 0 ∷ (encoded f ++ rest))))
