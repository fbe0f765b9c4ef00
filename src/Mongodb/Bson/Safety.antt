-- ===== src/Mongodb/Bson/Safety.antt =====
-- No bytes make the parser index or slice out of range, or go on forever.
use white_toyota_tacoma.Common.{
  ℕ, zero, suc, ◌+◌, ◌-◌, ◌≤◌, ◌<◌, ◌≡◌, refl, inl, inr, false, ◌||◌, Option, none, some, [], ltb,
  leb, length, drop, arith, Bool-cases, lt→ltb,
}
use white_toyota_tacoma.Common.Bytes.{Bytes, index_byte}
use white_toyota_tacoma.Common.Bytes.Safe.{slice-eq-ok, slice_from-eq-ok, uint32_le_some}
use white_toyota_tacoma.Common.Utf8.{CaseTable, to_lower}
use white_toyota_tacoma.Common.Result.{Result, ok, err, ◌>>=◌}
use white_toyota_tacoma.Mongodb.Bson.{
  Doc, Element, max_bson_doc, element, go_on, parse_loop, parse_bson_doc, first_key, bson_first_key,
}
use white_toyota_tacoma.Mongodb.Bson.Steps.{Steps, goes, element-Steps}

-- A result that is there, and the same with any more fuel.
abbrev Agree : (ℕ → Doc → Result Doc) → (ℕ → Doc → Result Doc) → ℕ → Doc → Type 0
Agree f g at doc = (d : Doc) × (f at doc ≡ ok d) × (g at doc ≡ ok d)

go_on-Agree :
    (f g : ℕ → Doc → Result Doc) (k : ℕ) (r : Result Element) (doc : Doc)
    → Steps k r
    → ((at : ℕ) (doc : Doc) → k ≤ at → Agree f g at doc)
    → (d : Doc) × ((r >>= go_on f doc) ≡ ok d) × ((r >>= go_on g doc) ≡ ok d)
unfolding go_on
go_on-Agree f g k (err e) doc s h = elim s [ ]
go_on-Agree f g k (ok none) doc s h = (doc, refl, refl)
go_on-Agree f g k (ok (some (d, at))) doc (goes l) h = h at d l

parse_loop-Agree :
    (fuel more : ℕ) (raw : Bytes) (doc_len at : ℕ) (doc : Doc)
    → doc_len ≤ length raw
    → doc_len ≤ fuel + at
    → doc_len ≤ more + at
    → Agree (parse_loop fuel raw doc_len) (parse_loop more raw doc_len) at doc
unfolding parse_loop
parse_loop-Agree zero zero raw doc_len at doc h l m = (doc, refl, refl)
parse_loop-Agree zero (suc more) raw doc_len at doc h l m =
    let over : ltb at (doc_len - 1) ≡ false = ground arith in rw over (doc, refl, refl)
parse_loop-Agree (suc fuel) zero raw doc_len at doc h l m =
    let over : ltb at (doc_len - 1) ≡ false = ground arith in rw over (doc, refl, refl)
parse_loop-Agree (suc fuel) (suc more) raw doc_len at doc h l m =
    elim (Bool-cases (ltb at (doc_len - 1))) [
      | inr over ↦ rw over (doc, refl, refl)
      | inl inside ↦ rw inside (
          go_on-Agree _ _ (suc at) (element raw doc_len at doc) doc
            (element-Steps raw doc_len at doc h)
            λ at' doc' k.
              parse_loop-Agree fuel more raw doc_len at' doc' h (omega arith) (omega arith))
    ]

-- The loop of `parseBSONDoc` gives a document, whatever the bytes, without a fault, and with any
-- fuel from the length of the document it gives the same: the model's fuel is enough.
pub parse_loop_total :
    (raw : Bytes) (doc_len : ℕ) (fuel : ℕ)
    → doc_len ≤ length raw
    → doc_len ≤ fuel
    → (doc : Doc) × (parse_loop fuel raw doc_len 4 [] ≡ ok doc)
      × (parse_loop doc_len raw doc_len 4 [] ≡ ok doc)
parse_loop_total raw doc_len fuel h l =
    parse_loop-Agree fuel doc_len raw doc_len 4 [] h (omega arith) (omega arith)

-- `parseBSONDoc` never indexes or slices out of range: it returns, for any bytes, an error or a
-- document with the length it claims, which is at least 5 and at most that of the bytes and 16 MB.
pub parse_bson_doc_total :
    (raw : Bytes)
    → (r : Element) × (parse_bson_doc raw ≡ ok r)
      × ((doc : Doc) (n : ℕ) → r ≡ some (doc, n) → (5 ≤ n) × (n ≤ length raw) × (n ≤ max_bson_doc))
unfolding parse_bson_doc
parse_bson_doc_total raw = elim (Bool-cases (ltb (length raw) 5)) [
  | inl short ↦ rw short (none, refl, λ doc n e. cc)
  | inr long ↦
      let (n, e) = uint32_le_some raw (ground arith) in
      rw (long, e)
        (elim (Bool-cases (ltb n 5 || (ltb max_bson_doc n || ltb (length raw) n))) [
          | inl bad ↦ rw bad (none, refl, λ doc m f. cc)
          | inr good ↦
              let (doc, p, q) = parse_loop_total raw n n (ground arith) (omega arith) in
              rw (good, p) (some (doc, n), refl, λ d m f. ground arith)
        ])
]

first_key_total :
    (t : CaseTable) (raw : Bytes) (doc_len : ℕ) (o : Option ℕ)
    → doc_len ≤ length raw
    → (key : Bytes) × (first_key t raw doc_len o ≡ ok key)
unfolding first_key
first_key_total t raw doc_len none h = ([], refl)
first_key_total t raw doc_len (some end) h = elim (Bool-cases (leb doc_len (5 + end))) [
  | inl out ↦ rw out ([], refl)
  | inr inside ↦
      rw (inside, slice-eq-ok raw 5 (5 + end) (omega arith) (ground arith)) (to_lower t _, refl)
]

-- Nor does `bsonFirstKey`.
pub bson_first_key_total :
    (t : CaseTable) (raw : Bytes) → (key : Bytes) × (bson_first_key t raw ≡ ok key)
unfolding bson_first_key
bson_first_key_total t raw = elim (Bool-cases (ltb (length raw) 5)) [
  | inl short ↦ rw short ([], refl)
  | inr long ↦
      let (n, e) = uint32_le_some raw (ground arith) in
      rw (long, e)
        (elim (Bool-cases (ltb n 5 || ltb (length raw) n)) [
          | inl bad ↦ rw bad ([], refl)
          | inr good ↦
              rw (good, slice_from-eq-ok raw 5 (ground arith))
                (first_key_total t raw n (index_byte (drop 5 raw) 0) (ground arith))
        ])
]

-- Fewer than five bytes are no document.
pub parse_bson_doc_short : (raw : Bytes) → length raw < 5 → parse_bson_doc raw ≡ ok none
unfolding parse_bson_doc
parse_bson_doc_short raw h = rw (lt→ltb (length raw) 5 h) refl

pub bson_first_key_short :
    (t : CaseTable) (raw : Bytes) → length raw < 5 → bson_first_key t raw ≡ ok []
unfolding bson_first_key
bson_first_key_short t raw h = rw (lt→ltb (length raw) 5 h) refl
