-- ===== src/Mongodb/Bson/Wide.antt =====
-- A 64-bit number is parsed into what was put into it, and a nested document is passed over.
use white_toyota_tacoma.Common.{
  ℕ, ◌+◌, ◌*◌, ◌/◌, ◌%◌, ◌≤◌, ◌<◌, ◌≡◌, ap, false, ◌||◌, some, ◌++◌, ltb, length, arith,
  length-append, le→ltb,
}
use white_toyota_tacoma.Common.Bytes.{Bytes, le32, uint32_le-le32, slice_from}
use white_toyota_tacoma.Common.Bytes.Behind.{slice_from-behind}
use white_toyota_tacoma.Common.Result.{ok}
use white_toyota_tacoma.Mongodb.Bson.{
  int64, Doc, put, signed, uint64_le, int64_value, nested_body, nested_value,
}
use white_toyota_tacoma.Mongodb.Bson.Fields.{long, encoded, IsNested}

uint64_le-append :
    (low high : ℕ) (rest : Bytes)
    → low < 4294967296
    → high < 4294967296
    → uint64_le (le32 low ++ (le32 high ++ rest)) ≡ ok (low + high * 4294967296)
unfolding uint64_le slice_from
uint64_le-append low high rest h l =
    let long_enough : ltb (length (le32 low ++ (le32 high ++ rest))) 4 ≡ false =
      le→ltb _ _ (omega arith) in
    rw (uint32_le-le32 low (le32 high ++ rest) h) (rw long_enough (rw (uint32_le-le32 high rest l)))

module _ (pre rest : Bytes) (doc : Doc) where
  pub nested-value :
      (elems : Bytes)
      → IsNested elems
      → nested_value (pre ++ ((le32 (4 + length elems) ++ elems) ++ rest)) (length pre) doc
        ≡ ok (some (doc, length pre + length (le32 (4 + length elems) ++ elems)))
  unfolding nested_value nested_body
  nested-value elems h =
      let size : length (pre ++ ((le32 (4 + length elems) ++ elems) ++ rest))
          ≡ length pre + (4 + length elems + length rest) =
        omega (
          arith,
          length-append pre ((le32 (4 + length elems) ++ elems) ++ rest),
          length-append elems rest,
        ) in
      rw
        (le→ltb (length (pre ++ ((le32 (4 + length elems) ++ elems) ++ rest))) (length pre + 4)
          (omega (arith, size)))
        (rw (slice_from-behind pre ((le32 (4 + length elems) ++ elems) ++ rest)) (
          rw (uint32_le-le32 (4 + length elems) (elems ++ rest) (omega arith))
            (rw (test size) (ap (λ i. ok (some (doc, i))) (omega arith)))))
    where
      test :
          length (pre ++ ((le32 (4 + length elems) ++ elems) ++ rest))
            ≡ length pre + (4 + length elems + length rest)
          → (ltb (4 + length elems) 5
              || ltb
                  (length (pre ++ ((le32 (4 + length elems) ++ elems) ++ rest)))
                  (length pre + (4 + length elems)))
            ≡ false
      test size = ground arith

module _ (pre rest key : Bytes) (doc_len : ℕ) (doc : Doc) where
  pub long-value :
      (n : ℕ)
      → n < 18446744073709551616
      → length pre + 8 ≤ doc_len
      → doc_len ≤ length (pre ++ (encoded (long n) ++ rest))
      → int64_value (pre ++ (encoded (long n) ++ rest)) doc_len key (length pre) doc
        ≡ ok (some (put key (int64 (signed 9223372036854775808 n)) doc, length pre + 8))
  unfolding int64_value
  long-value n small fits within =
      let same : n % 4294967296 + n / 4294967296 * 4294967296 ≡ n = omega arith in
      rw
        (
          le→ltb doc_len (length pre + 8) (omega arith),
          le→ltb (length (pre ++ (encoded (long n) ++ rest))) (length pre + 8) (omega arith),
        )
        (rw (slice_from-behind pre (encoded (long n) ++ rest)) (
          rw (uint64_le-append (n % 4294967296) (n / 4294967296) rest (omega arith) (omega arith)) (
            ap (λ k. ok (some (put key (int64 (signed 9223372036854775808 k)) doc, length pre + 8)))
              same)))
