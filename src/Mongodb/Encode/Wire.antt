-- ===== src/Mongodb/Encode/Wire.antt =====
-- What `encodeBSON` writes is a document of the wire, with its entries in the order in which they
-- were visited.
use mathlib.Core.List.{Permᴰ}
use white_toyota_tacoma.Common.{
  ℕ, ◌+◌, ◌%◌, ◌<◌, ◌≡◌, refl, ap, ◌∙◌, subst, true, false, List, [], ◌∷◌, ◌++◌, length, All, arith,
  append_assoc, length-append,
}
use white_toyota_tacoma.Common.Int.{ℤ, pos, negsuc}
use white_toyota_tacoma.Common.Bytes.{Bytes, Lacks, le32}
use white_toyota_tacoma.Mongodb.Bson.Fields as Fields
use white_toyota_tacoma.Mongodb.Bson.Fields.{Field, IsField, wire_fields, wire_doc}
use white_toyota_tacoma.Mongodb.Bson.RoundTrip.{wire_element}
use white_toyota_tacoma.Mongodb.Encode.{
  Any, string, int, int32, int64, bool, float64, document, array, strings, ints, other, Entries,
  end, entry, Order, bits, concat, closed, or_minimal, or_nil, visited, string_elements,
  int_elements, item_elements, tag, encoded, elements, encode_bson,
}

-- The elements and the terminator.
abbrev pub inside : Order → List Bytes → Bytes
inside order elems = concat (order elems) ++ 0 ∷ []

-- What an entry is on the wire.
abbrev pub field_of : Order → Any → Field
field_of order (string s) = Fields.text s
field_of order (int n) = Fields.number (bits 4294967296 n)
field_of order (int32 n) = Fields.number (bits 4294967296 n)
field_of order (int64 n) = Fields.long (bits 18446744073709551616 n)
field_of order (bool b) = Fields.flag b
field_of order (float64 n) = Fields.number n
field_of order (document doc) = Fields.document (inside order (elements order doc))
field_of order (array vs) = Fields.array (inside order (item_elements order 0 vs))
field_of order (strings ss) = Fields.array (inside order (string_elements 0 ss))
field_of order (ints ns) = Fields.array (inside order (int_elements 0 ns))
field_of order (other raw) = Fields.text raw

abbrev pub fields_of : Order → Entries → List (Bytes × Field)
fields_of order end = []
fields_of order (entry key v doc) = (key, field_of order v) ∷ fields_of order doc

-- Values whose lengths and numbers are in range, under keys without a NUL.
abbrev pub InRange : ℕ → ℤ → Type 0
InRange half (pos n) = n < half
InRange half (negsuc n) = n < half

abbrev pub Small : Order → List Bytes → Type 0
Small order elems = length (inside order elems) < 2147483648

abbrev pub Fits : Order → Any → Type 0
Fits order (string s) = length s < 2147483648
Fits order (int n) = InRange 2147483648 n
Fits order (int32 n) = InRange 2147483648 n
Fits order (int64 n) = InRange 9223372036854775808 n
Fits order (bool b) = Unit
Fits order (float64 n) = n < 4294967296
Fits order (document doc) = Small order (elements order doc)
Fits order (array vs) = Small order (item_elements order 0 vs)
Fits order (strings ss) = Small order (string_elements 0 ss)
Fits order (ints ns) = Small order (int_elements 0 ns)
Fits order (other raw) = length raw < 2147483648

abbrev pub AllFit : Order → Entries → Type 0
AllFit order end = Unit
AllFit order (entry key v doc) = (Lacks 0 key × Fits order v) × AllFit order doc

pub bits-lt : (n : ℤ) → bits 4294967296 n < 4294967296
bits-lt (pos n) = omega arith
bits-lt (negsuc n) = omega arith

bits64-lt : (n : ℤ) → bits 18446744073709551616 n < 18446744073709551616
bits64-lt (pos n) = omega arith
bits64-lt (negsuc n) = omega arith

nested :
    (elems : List Bytes) (order : Order) → Small order elems → Fields.IsNested (inside order elems)
nested elems order h = (omega (arith, length-append (concat (order elems)) (0 ∷ [])), h)

Fits-IsField :
    (order : Order) (key : Bytes) (v : Any)
    → Lacks 0 key
    → Fits order v
    → IsField (key, field_of order v)
Fits-IsField order key (string s) l h = (l, h)
Fits-IsField order key (int n) l h = (l, bits-lt n)
Fits-IsField order key (int32 n) l h = (l, bits-lt n)
Fits-IsField order key (int64 n) l h = (l, bits64-lt n)
Fits-IsField order key (bool b) l h = (l, tt)
Fits-IsField order key (float64 n) l h = (l, h)
Fits-IsField order key (document doc) l h = (l, nested (elements order doc) order h)
Fits-IsField order key (array vs) l h = (l, nested (item_elements order 0 vs) order h)
Fits-IsField order key (strings ss) l h = (l, nested (string_elements 0 ss) order h)
Fits-IsField order key (ints ns) l h = (l, nested (int_elements 0 ns) order h)
Fits-IsField order key (other raw) l h = (l, h)

pub AllFit-IsField :
    (order : Order) (doc : Entries) → AllFit order doc → All IsField (fields_of order doc)
AllFit-IsField order end h = tt
AllFit-IsField order (entry key v doc) h =
    (Fits-IsField order key v h.0.0 h.0.1, AllFit-IsField order doc h.1)

-- A length that fits is not cut to 32 bits.
le32-mod : (n : ℕ) (s : Bytes) → n < 4294967296 → le32 (n % 4294967296) ++ s ≡ le32 n ++ s
le32-mod n s h = ap (λ k. le32 k ++ s) (omega arith)

closed_exact :
    (order : Order) (elems : List Bytes)
    → Small order elems
    → closed (concat (order elems)) ≡ le32 (4 + length (inside order elems)) ++ inside order elems
unfolding closed
closed_exact order elems h =
    le32-mod (4 + length (inside order elems)) (inside order elems) (omega arith)

encoded-field_of :
    (order : Order) (v : Any) → Fits order v → encoded order v ≡ Fields.encoded (field_of order v)
unfolding encoded visited or_minimal or_nil
encoded-field_of order (string s) h = le32-mod (length s + 1) (s ++ 0 ∷ []) (omega arith)
encoded-field_of order (int n) h = refl
encoded-field_of order (int32 n) h = refl
encoded-field_of order (int64 n) h = refl
encoded-field_of order (bool true) h = refl
encoded-field_of order (bool false) h = refl
encoded-field_of order (float64 n) h = refl
encoded-field_of order (document doc) h = closed_exact order (elements order doc) h
encoded-field_of order (array vs) h = closed_exact order (item_elements order 0 vs) h
encoded-field_of order (strings ss) h = closed_exact order (string_elements 0 ss) h
encoded-field_of order (ints ns) h = closed_exact order (int_elements 0 ns) h
encoded-field_of order (other raw) h = le32-mod (length raw + 1) (raw ++ 0 ∷ []) (omega arith)

tag-field_of : (order : Order) (v : Any) → tag v ≡ Fields.tag (field_of order v)
unfolding tag
tag-field_of order (string s) = refl
tag-field_of order _ = refl

abbrev wire_elements : List (Bytes × Field) → List Bytes
wire_elements [] = []
wire_elements ((key, f) ∷ fs) = wire_element key f ∷ wire_elements fs

elements-fields_of :
    (order : Order) (doc : Entries)
    → AllFit order doc
    → elements order doc ≡ wire_elements (fields_of order doc)
unfolding elements
elements-fields_of order end h = refl
elements-fields_of order (entry key v doc) h =
    rw (tag-field_of order v, encoded-field_of order v h.0.1, elements-fields_of order doc h.1)

concat-wire_elements : (fs : List (Bytes × Field)) → concat (wire_elements fs) ≡ wire_fields fs
concat-wire_elements [] = refl
concat-wire_elements ((key, f) ∷ fs) =
    ap (λ s. Fields.tag f ∷ s)
      (append_assoc key (0 ∷ Fields.encoded f) (concat (wire_elements fs))
        ∙ ap (λ s. key ++ 0 ∷ (Fields.encoded f ++ s)) (concat-wire_elements fs))

unwired :
    {xs ys : List Bytes}
    → Permᴰ xs ys
    → (fs : List (Bytes × Field)) → xs ≡ wire_elements fs
    → (gs : List (Bytes × Field)) × (ys ≡ wire_elements gs) × Permᴰ fs gs
unwired Permᴰ.nil [] e = ([], refl, Permᴰ.nil)
unwired Permᴰ.nil (x ∷ fs) e = cc
unwired (Permᴰ.cons e p) [] h = cc
unwired (Permᴰ.cons e p) ((key, f) ∷ fs) h =
    let (gs, g, q) = unwired p fs (cc) in ((key, f) ∷ gs, cc, Permᴰ.cons refl q)
unwired (Permᴰ.swap e g) [] h = cc
unwired (Permᴰ.swap e g) ((key, f) ∷ []) h = cc
unwired (Permᴰ.swap e g) ((key, f) ∷ (key', f') ∷ fs) h =
    ((key', f') ∷ (key, f) ∷ fs, cc, Permᴰ.swap refl refl)
unwired (Permᴰ.trans p q) fs h =
    let (gs, g, r) = unwired p fs h in let (ks, k, t) = unwired q gs g in (ks, k, Permᴰ.trans r t)

All-Permᴰ :
    (P : Bytes × Field → Type 0) {fs gs : List (Bytes × Field)} → Permᴰ fs gs → All P fs → All P gs
All-Permᴰ P Permᴰ.nil h = tt
All-Permᴰ P (Permᴰ.cons e p) h = (subst P e h.0, All-Permᴰ P p h.1)
All-Permᴰ P (Permᴰ.swap e f) h = (subst P f h.1.0, (subst P e h.0, h.1.1))
All-Permᴰ P (Permᴰ.trans p q) h = All-Permᴰ P q (All-Permᴰ P p h)

-- The document as a client sees it.
pub encode_bson-wire_doc :
    (order : Order) (doc : Entries)
    → Permᴰ (elements order doc) (order (elements order doc))
    → AllFit order doc
    → Small order (elements order doc)
    → (gs : List (Bytes × Field)) × (or_minimal (encode_bson order doc) ≡ wire_doc gs)
      × Permᴰ (fields_of order doc) gs
      × All IsField gs
      × (length (inside order (elements order doc)) ≡ 1 + length (wire_fields gs))
unfolding encode_bson visited or_minimal
encode_bson-wire_doc order doc p h small =
    let (gs, g, q) = unwired p (fields_of order doc) (elements-fields_of order doc h) in
    let e : concat (order (elements order doc)) ≡ wire_fields gs =
      ap concat g ∙ concat-wire_elements gs in
    let n : length (inside order (elements order doc)) ≡ 1 + length (wire_fields gs) =
      length-append (concat (order (elements order doc))) (0 ∷ []) ∙ rw e (omega arith) in
    (
      gs,
      closed_exact order (elements order doc) small
          ∙ rw (n, e) (ap (λ k. le32 k ++ (wire_fields gs ++ 0 ∷ [])) (omega arith)),
      q,
      All-Permᴰ IsField q (AllFit-IsField order doc h),
      n,
    )

pub length-encode_bson :
    (order : Order) (doc : Entries)
    → Small order (elements order doc)
    → length (or_minimal (encode_bson order doc)) ≡ 4 + length (inside order (elements order doc))
unfolding encode_bson visited or_minimal
length-encode_bson order doc small =
    rw (closed_exact order (elements order doc) small) (omega arith)
