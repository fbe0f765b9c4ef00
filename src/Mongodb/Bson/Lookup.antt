-- ===== src/Mongodb/Bson/Lookup.antt =====
-- What is found under a key of a document, and that it does not depend on the order of the fields.
use mathlib.Core.List.{Permᴰ}
use white_toyota_tacoma.Common.{
  ℕ, ◌+◌, ◌≤◌, ◌≡◌, refl, sym, ap, ◌∙◌, inl, inr, Option, none, some, List, [], ◌∷◌, if◌then◌else◌,
  arith, Bool-cases,
}
use white_toyota_tacoma.Common.Bytes.{Bytes, same, same_iff}
use white_toyota_tacoma.Mongodb.Bson.{
  Value, string, int32, int64, boolean, Doc, put, find, signed, extract_string, string_of,
}
use white_toyota_tacoma.Mongodb.Bson.Fields.{
  Field, text, number, flag, long, document, array, stored, put_all,
}

abbrev pub kept : Field → Option Value
kept (text s) = some (string s)
kept (number n) = some (int32 (signed 2147483648 n))
kept (flag b) = some (boolean b)
kept (long n) = some (int64 (signed 9223372036854775808 n))
kept (document elems) = none
kept (array elems) = none

abbrev pub or_else : Option Value → Option Value → Option Value
or_else none w = w
or_else (some v) w = some v

abbrev pub kept_at : Bytes → Bytes × Field → Option Value
kept_at key p = if same p.0 key then kept p.1 else none

abbrev pub hit : Bytes → Bytes × Field → ℕ
hit key p = if same p.0 key then 1 else 0

-- The value that is stored last under a key, and how often the key stands there.
abbrev pub last_kept : Bytes → List (Bytes × Field) → Option Value
last_kept key [] = none
last_kept key (p ∷ fs) = or_else (last_kept key fs) (kept_at key p)

abbrev pub count : Bytes → List (Bytes × Field) → ℕ
count key [] = 0
count key (p ∷ fs) = hit key p + count key fs

find-put :
    (key k : Bytes) (v : Value) (doc : Doc)
    → find key (put k v doc) ≡ (if same k key then some v else find key doc)
unfolding find put
find-put key k v [] = refl
find-put key k v ((j, w) ∷ doc) =
    ground (arith, same_iff j k, same_iff k key, same_iff j key, find-put key k v doc)

or_else_if :
    (key k : Bytes) (v : Value) (w : Option Value)
    → (if same k key then some v else w) ≡ or_else (if same k key then some v else none) w
or_else_if key k v w = elim (Bool-cases (same k key)) [ inl e ↦ rw e refl | inr e ↦ rw e refl ]

or_else_passed_over :
    (key k : Bytes) (w : Option Value) → w ≡ or_else (if same k key then none else none) w
or_else_passed_over key k w = elim (Bool-cases (same k key)) [
  | inl e ↦ rw e refl
  | inr e ↦ rw e refl
]

find-stored :
    (key k : Bytes) (f : Field) (doc : Doc)
    → find key (stored k f doc) ≡ or_else (kept_at key (k, f)) (find key doc)
find-stored key k (text s) doc = find-put key k _ doc ∙ or_else_if key k _ (find key doc)
find-stored key k (number n) doc = find-put key k _ doc ∙ or_else_if key k _ (find key doc)
find-stored key k (flag b) doc = find-put key k _ doc ∙ or_else_if key k _ (find key doc)
find-stored key k (long n) doc = find-put key k _ doc ∙ or_else_if key k _ (find key doc)
find-stored key k (document elems) doc = or_else_passed_over key k (find key doc)
find-stored key k (array elems) doc = or_else_passed_over key k (find key doc)

or_else_assoc : (a b c : Option Value) → or_else (or_else a b) c ≡ or_else a (or_else b c)
or_else_assoc none b c = refl
or_else_assoc (some v) b c = refl

find-put_all :
    (key : Bytes) (fs : List (Bytes × Field)) (doc : Doc)
    → find key (put_all fs doc) ≡ or_else (last_kept key fs) (find key doc)
find-put_all key [] doc = refl
find-put_all key ((k, f) ∷ fs) doc =
    find-put_all key fs (stored k f doc)
    ∙ ap (or_else (last_kept key fs)) (find-stored key k f doc)
    ∙ sym (or_else_assoc (last_kept key fs) (kept_at key (k, f)) (find key doc))

pub or_else-none : (a : Option Value) → or_else a none ≡ a
or_else-none none = refl
or_else-none (some v) = refl

pub find-put_all_nil :
    (key : Bytes) (fs : List (Bytes × Field)) → find key (put_all fs []) ≡ last_kept key fs
unfolding find
find-put_all_nil key fs = find-put_all key fs [] ∙ or_else-none (last_kept key fs)

count-Permᴰ :
    (key : Bytes) {fs gs : List (Bytes × Field)} → Permᴰ fs gs → count key fs ≡ count key gs
count-Permᴰ key Permᴰ.nil = refl
count-Permᴰ key (Permᴰ.cons e p) = omega (arith, ap (hit key) e, count-Permᴰ key p)
count-Permᴰ key (Permᴰ.swap e f) = omega (arith, ap (hit key) e, ap (hit key) f)
count-Permᴰ key (Permᴰ.trans p q) = count-Permᴰ key p ∙ count-Permᴰ key q

-- A key that is not there has no value.
kept_at_zero : (key : Bytes) (p : Bytes × Field) → hit key p ≡ 0 → kept_at key p ≡ none
kept_at_zero key p h = ground arith

swapped :
    (key : Bytes) (w : Option Value) (p q : Bytes × Field) (n : ℕ)
    → hit key p + (hit key q + n) ≤ 1
    → or_else (or_else w (kept_at key q)) (kept_at key p)
      ≡ or_else (or_else w (kept_at key p)) (kept_at key q)
swapped key (some v) p q n h = refl
swapped key none p q n h = ground (arith, kept_at_zero key p, kept_at_zero key q)

pub last_kept-Permᴰ :
    (key : Bytes) {fs gs : List (Bytes × Field)}
    → Permᴰ fs gs
    → count key fs ≤ 1
    → last_kept key fs ≡ last_kept key gs
last_kept-Permᴰ key Permᴰ.nil h = refl
last_kept-Permᴰ key (Permᴰ.cons e p) h =
    cc (last_kept-Permᴰ key p (omega arith), ap (kept_at key) e)
last_kept-Permᴰ key (Permᴰ.swap {a} {b} {a'} {b'} {l} e f) h =
    swapped key (last_kept key l) a b (count key l) h
    ∙ rw (ap (kept_at key) e, ap (kept_at key) f) refl
last_kept-Permᴰ key (Permᴰ.trans p q) h =
    last_kept-Permᴰ key p h ∙ last_kept-Permᴰ key q (omega (arith, count-Permᴰ key p))

pub extract_string-put_all :
    (key : Bytes) (fs : List (Bytes × Field))
    → extract_string (put_all fs []) key ≡ string_of (last_kept key fs)
unfolding extract_string
extract_string-put_all key fs = ap string_of (find-put_all_nil key fs)
