-- ===== src/Mongodb/Bson/Steps.antt =====
-- An element is parsed without a fault, and moves the parser forward.
use white_toyota_tacoma.Common.{
  ℕ, suc, ◌+◌, ◌-◌, ◌*◌, ◌≤◌, ◌<◌, ◌≡◌, refl, Bool, true, false, ◌||◌, Option, none, some, ltb, leb,
  ◌==◌, if◌then◌else◌, length, drop, arith, length-drop,
}
use white_toyota_tacoma.Common.Bytes.{Bytes, slice_from, uint32_le}
use white_toyota_tacoma.Common.Bytes.Safe.{
  slice-eq-ok, slice_from-eq-ok, byte_at_some, uint32_le_some,
}
use white_toyota_tacoma.Common.Result.{Result, ok, ◌>>=◌}
use white_toyota_tacoma.Mongodb.Bson.{
  Doc, Element, uint64_le, skip, string_body, string_value, int32_value, int64_value, boolean_value,
  nested_body, nested_value, binary_value, value, keyed, element,
}

-- The result of an element: a break, or a position of `k` at least; and no fault.
pub data Steps (k : ℕ) : Result Element → Type 0 where
  breaks : Steps k (ok none)
  goes : {doc : Doc} {at : ℕ} → k ≤ at → Steps k (ok (some (doc, at)))

Steps-mono : {j k : ℕ} {r : Result Element} → j ≤ k → Steps k r → Steps j r
Steps-mono h breaks = breaks
Steps-mono h (goes l) = goes (omega arith)

-- A test that breaks.
guarded :
    (k : ℕ) (b : Bool) {m : Result Element}
    → (b ≡ false → Steps k m)
    → Steps k (if b then ok none else m)
guarded k true h = breaks
guarded k false h = h refl

-- A case of the switch.
case :
    (k : ℕ) (b : Bool) {m n : Result Element} → Steps k m → Steps k n → Steps k (if b then m else n)
case k true h l = h
case k false h l = l

skip-Steps : (raw : Bytes) (n at : ℕ) (doc : Doc) → Steps at (skip raw n at doc)
unfolding skip
skip-Steps raw n at doc = guarded at (ltb (length raw) (at + n)) (λ e. goes (omega arith))

-- The four bytes that a value begins with.
field-Steps :
    (k : ℕ) (raw : Bytes) (at : ℕ) (f : ℕ → Result Element)
    → at + 4 ≤ length raw
    → ((n : ℕ) → Steps k (f n))
    → Steps k (slice_from raw at >>= λ tail. uint32_le tail >>= f)
field-Steps k raw at f h g =
    let (n, e) = uint32_le_some (drop at raw) (omega (arith, length-drop at raw)) in
    rw (slice_from-eq-ok raw at (omega arith)) (rw e (g n))

string_body-Steps :
    (raw : Bytes) (doc_len : ℕ) (key : Bytes) (at n : ℕ) (doc : Doc)
    → Steps at (string_body raw doc_len key at n doc)
unfolding string_body
string_body-Steps raw doc_len key at n doc =
    guarded at (ltb n 1 || (ltb doc_len (at + n) || ltb (length raw) (at + n)))
      (λ e. rw (slice-eq-ok raw at (at + n - 1) (ground arith) (ground arith)) (goes (omega arith)))

string_value-Steps :
    (raw : Bytes) (doc_len : ℕ) (key : Bytes) (at : ℕ) (doc : Doc)
    → Steps at (string_value raw doc_len key at doc)
unfolding string_value
string_value-Steps raw doc_len key at doc =
    guarded at (ltb doc_len (at + 4) || ltb (length raw) (at + 4)) (λ e.
      field-Steps at raw at _ (ground arith)
        (λ n. Steps-mono (omega arith) (string_body-Steps raw doc_len key (at + 4) n doc)))

int32_value-Steps :
    (raw : Bytes) (doc_len : ℕ) (key : Bytes) (at : ℕ) (doc : Doc)
    → Steps at (int32_value raw doc_len key at doc)
unfolding int32_value
int32_value-Steps raw doc_len key at doc =
    guarded at (ltb doc_len (at + 4) || ltb (length raw) (at + 4))
      (λ e. field-Steps at raw at _ (ground arith) (λ n. goes (omega arith)))

uint64_le_some : (s : Bytes) → 8 ≤ length s → (n : ℕ) × (uint64_le s ≡ ok n)
unfolding uint64_le
uint64_le_some s h =
    let (a, e) = uint32_le_some s (omega arith) in
    let (b, f) = uint32_le_some (drop 4 s) (omega (arith, length-drop 4 s)) in
    (a + b * 4294967296, rw e (rw (slice_from-eq-ok s 4 (omega arith)) (rw f refl)))

int64_value-Steps :
    (raw : Bytes) (doc_len : ℕ) (key : Bytes) (at : ℕ) (doc : Doc)
    → Steps at (int64_value raw doc_len key at doc)
unfolding int64_value
int64_value-Steps raw doc_len key at doc =
    guarded at (ltb doc_len (at + 8) || ltb (length raw) (at + 8)) λ e.
      let room : at + 8 ≤ length raw = ground arith in
      let (n, f) = uint64_le_some (drop at raw) (omega (arith, length-drop at raw, room)) in
      rw (slice_from-eq-ok raw at (omega (arith, room))) (rw f (goes (omega arith)))

boolean_value-Steps :
    (raw : Bytes) (doc_len : ℕ) (key : Bytes) (at : ℕ) (doc : Doc)
    → Steps at (boolean_value raw doc_len key at doc)
unfolding boolean_value
boolean_value-Steps raw doc_len key at doc =
    guarded at (leb doc_len at || leb (length raw) at)
      λ e. let (b, f) = byte_at_some raw at (ground arith) in rw f (goes (omega arith))

nested_value-Steps : (raw : Bytes) (at : ℕ) (doc : Doc) → Steps at (nested_value raw at doc)
unfolding nested_value nested_body
nested_value-Steps raw at doc = guarded at (ltb (length raw) (at + 4)) (λ e.
    field-Steps at raw at _ (ground arith)
      (λ n. guarded at (ltb n 5 || ltb (length raw) (at + n)) (λ f. goes (omega arith))))

binary_value-Steps : (raw : Bytes) (at : ℕ) (doc : Doc) → Steps at (binary_value raw at doc)
unfolding binary_value
binary_value-Steps raw at doc =
    guarded at (ltb (length raw) (at + 4))
      (λ e. field-Steps at raw at _ (ground arith) (λ n. skip-Steps raw (5 + n) at doc))

value-Steps :
    (raw : Bytes) (doc_len t : ℕ) (key : Bytes) (at : ℕ) (doc : Doc)
    → Steps at (value raw doc_len t key at doc)
unfolding value
value-Steps raw doc_len t key at doc =
    case at (t == 0x02) (string_value-Steps raw doc_len key at doc) (
      case at (t == 0x10) (int32_value-Steps raw doc_len key at doc) (
        case at (t == 0x12) (int64_value-Steps raw doc_len key at doc) (
          case at (t == 0x08) (boolean_value-Steps raw doc_len key at doc) (
            case at (t == 0x01) (skip-Steps raw 8 at doc) (
              case at (t == 0x03 || t == 0x04) (nested_value-Steps raw at doc) (
                case at (t == 0x05) (binary_value-Steps raw at doc) (
                  case at (t == 0x07) (skip-Steps raw 12 at doc) (
                    case at (t == 0x09) (skip-Steps raw 8 at doc)
                      (case at (t == 0x0A) (goes (omega arith)) breaks)))))))))

keyed-Steps :
    (raw : Bytes) (doc_len t at : ℕ) (o : Option ℕ) (doc : Doc)
    → doc_len ≤ length raw
    → Steps at (keyed raw doc_len t at o doc)
unfolding keyed
keyed-Steps raw doc_len t at none doc h = breaks
keyed-Steps raw doc_len t at (some key_end) doc h = guarded at (leb doc_len (at + key_end)) λ e.
    rw (slice-eq-ok raw at (at + key_end) (omega arith) (ground arith))
      (Steps-mono (omega arith) (value-Steps raw doc_len t _ (at + key_end + 1) doc))

pub element-Steps :
    (raw : Bytes) (doc_len at : ℕ) (doc : Doc)
    → doc_len ≤ length raw
    → Steps (suc at) (element raw doc_len at doc)
unfolding element
element-Steps raw doc_len at doc h = guarded (suc at) (leb (length raw) at) λ e.
    let inside : at < length raw = ground arith in
    let (t, f) = byte_at_some raw at inside in
    rw (f, slice_from-eq-ok raw (at + 1) (omega (arith, inside)))
      (Steps-mono (omega arith) (keyed-Steps raw doc_len t (at + 1) _ doc h))
