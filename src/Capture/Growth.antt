-- ===== src/Capture/Growth.antt =====
-- `sanitizeStr` of internal/capture/store.go cuts a field before it replaces what is not UTF-8, so
-- that what is logged can be longer than the limit.
use white_toyota_tacoma.Common.{
  ℕ, zero, suc, ◌*◌, ◌≤◌, ◌<◌, ◌≡◌, ◌≢◌, ◌⊎◌, refl, ap, some, List, [], ◌∷◌, ◌++◌, length, All,
  arith, le→ltb, replicate,
}
use white_toyota_tacoma.Common.Bytes.{Bytes}
use white_toyota_tacoma.Common.Utf8.{decode_rune, runes, runes_from, encode, encode_rune, map_runes}
use white_toyota_tacoma.Common.Quote.{json_string}
use white_toyota_tacoma.Common.Quote.Reader.{read_string}
use white_toyota_tacoma.Capture.{Event, Store, max_field, drop_control, sanitize_str}
use white_toyota_tacoma.Capture.Readable.{Field, text_of, key_of, log_all, log_all_reads_back}

-- A byte that begins no character of UTF-8.
abbrev pub IsStray : ℕ → Type 0
IsStray b = ((0x80 ≤ b) × (b < 0xc2)) ⊎ (0xf5 ≤ b)

decode_rune-stray : (b : ℕ) (s : Bytes) → IsStray b → decode_rune b s ≡ (0xfffd, 1)
unfolding decode_rune
decode_rune-stray b s h = ground arith

runes_from-stray : (s : Bytes) → All IsStray s → runes_from 0 s ≡ replicate (length s) 0xfffd
unfolding runes_from
runes_from-stray [] h = refl
runes_from-stray (b ∷ s) h =
    rw (decode_rune-stray b s h.0) (ap (◌∷◌ 0xfffd) (runes_from-stray s h.1))

length-encode-replicate :
    (n : ℕ) → length (encode (map_runes drop_control (replicate n 0xfffd))) ≡ 3 * n
unfolding encode map_runes encode_rune
length-encode-replicate zero = refl
length-encode-replicate (suc n) = omega (arith, length-encode-replicate n)

length-sanitize_str_stray :
    (s : Bytes) → All IsStray s → length s ≤ max_field → length (sanitize_str s) ≡ 3 * length s
unfolding sanitize_str runes
length-sanitize_str_stray s h l =
    rw (le→ltb max_field (length s) l)
      (rw (runes_from-stray s h) (length-encode-replicate (length s)))

-- A field of an event that has from 1 to 4096 bytes, none of which begins a character of UTF-8, has
-- three times that length for one who reads the file, up to 12288 bytes: the cut at 4096 bytes is no
-- bound on what is logged. So it is whatever is logged before and after.
pub log_all_stray :
    (es ds : List (Bytes × Event)) (s : Store) (now : Bytes) (e : Event) (f : Field)
    → All IsStray (text_of f e)
    → 1 ≤ length (text_of f e)
    → length (text_of f e) ≤ max_field
    → (before shown behind : Bytes) × ((log_all (es ++ (now, e) ∷ ds) s).file
        ≡ before ++ (key_of f ++ (json_string shown ++ behind)))
      × (read_string (json_string shown ++ behind) ≡ some (shown, behind))
      × (length shown ≡ 3 * length (text_of f e))
log_all_stray es ds s now e f stray some_bytes l =
    let long = length-sanitize_str_stray (text_of f e) stray l in
    let (before, behind, q, r) =
      log_all_reads_back es ds s now e f
        (λ n. ne_nil (sanitize_str (text_of f e)) (omega (arith, long)) n) in
    (before, sanitize_str (text_of f e), behind, q, r, long)
  where
    ne_nil : (t : Bytes) → 1 ≤ length t → t ≢ []
    ne_nil [] h n = absurd (omega arith)
    ne_nil (b ∷ t) h n = cc
