-- ===== src/Capture/Line.antt =====
-- `Log` writes one line of JSON for each event.
use white_toyota_tacoma.Common.{
  ℕ, ◌+◌, ◌≡◌, refl, none, List, [], ◌∷◌, ◌++◌, arith, ◌==◌, if◌then◌else◌, All, All-append,
}
use white_toyota_tacoma.Common.Bytes.{Bytes, codes}
use white_toyota_tacoma.Common.Decimal.{itoa, IsDigit, itoa-IsDigit}
use white_toyota_tacoma.Common.Quote.Graphic.{IsGraphic, json_string-IsGraphic}
use white_toyota_tacoma.Capture.{Event, Store, omit_empty, concat, pieces, marshal, sanitize, log}

omit_empty-IsGraphic : (key s : Bytes) → All IsGraphic key → All IsGraphic (omit_empty key s)
unfolding omit_empty
omit_empty-IsGraphic key [] h = tt
omit_empty-IsGraphic key (b ∷ s) h =
    (omega arith, All-append IsGraphic key _ h (json_string-IsGraphic (b ∷ s)))

itoa-IsGraphic : (n : ℕ) → All IsGraphic (itoa n)
itoa-IsGraphic n = go (itoa n) (itoa-IsDigit n)
  where
    go : (s : Bytes) → All IsDigit s → All IsGraphic s
    go [] h = tt
    go (c ∷ s) h = (omega arith, go s h.1)

concat-IsGraphic : (ss : List Bytes) → All (All IsGraphic) ss → All IsGraphic (concat ss)
unfolding concat
concat-IsGraphic [] h = tt
concat-IsGraphic (s ∷ ss) h = All-append IsGraphic s (concat ss) h.0 (concat-IsGraphic ss h.1)

pieces-IsGraphic : (e : Event) → All (All IsGraphic) (pieces e)
unfolding pieces
pieces-IsGraphic e = (
  omega arith,
  (
    json_string-IsGraphic e.timestamp,
    (
      omega arith,
      (
        json_string-IsGraphic e.protocol,
        (
          omega arith,
          (
            json_string-IsGraphic e.src_ip,
            (
              omega arith,
              (
                itoa-IsGraphic e.src_port,
                (
                  omit_empty-IsGraphic (codes "\"username\":") e.username (omega arith),
                  (
                    omit_empty-IsGraphic (codes "\"password\":") e.password (omega arith),
                    (
                      omit_empty-IsGraphic (codes "\"database\":") e.database (omega arith),
                      (
                        omit_empty-IsGraphic (codes "\"auth_hash\":") e.auth_hash (omega arith),
                        (
                          omit_empty-IsGraphic (codes "\"command\":") e.command (omega arith),
                          (
                            omit_empty-IsGraphic (codes "\"payload\":") e.payload (omega arith),
                            (omega arith, tt),
                          ),
                        ),
                      ),
                    ),
                  ),
                ),
              ),
            ),
          ),
        ),
      ),
    ),
  ),
)

-- The JSON of an event holds no control character, whatever its fields hold.
pub marshal-IsGraphic : (e : Event) → All IsGraphic (marshal e)
unfolding marshal
marshal-IsGraphic e = concat-IsGraphic (pieces e) (pieces-IsGraphic e)

-- The lines of a file are ended by LF.
abbrev pub line_count : Bytes → ℕ
line_count [] = 0
line_count (b ∷ s) = (if b == 10 then 1 else 0) + line_count s

line_count-append : (s t : Bytes) → line_count (s ++ t) ≡ line_count s + line_count t
line_count-append [] t = omega arith
line_count-append (b ∷ s) t = omega (arith, line_count-append s t)

line_count-IsGraphic : (s : Bytes) → All IsGraphic s → line_count s ≡ 0
line_count-IsGraphic [] h = refl
line_count-IsGraphic (b ∷ s) h = ground (arith, line_count-IsGraphic s h.1)

-- Where the file takes the whole write, an event adds one line to it, whatever the event holds,
-- and the webhook is handed that line, if one is set.
pub log_one_line :
    (now : Bytes) (s : Store) (e : Event)
    → (line_count (log now none s e).file ≡ line_count s.file + 1)
      × (line : Bytes) × ((log now none s e).file ≡ s.file ++ line)
      × ((log now none s e).sent ≡ (if s.webhook then s.sent ++ line ∷ [] else s.sent))
unfolding log
log_one_line now s e =
    let m = marshal (sanitize (record e { timestamp = now })) in
    (
      omega (
        arith,
        line_count-append s.file (m ++ 10 ∷ []),
        line_count-append m (10 ∷ []),
        line_count-IsGraphic m (marshal-IsGraphic (sanitize (record e { timestamp = now }))),
      ),
      m ++ 10 ∷ [],
      refl,
      refl,
    )
