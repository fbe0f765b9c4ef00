-- ===== src/Mongodb/Sections.antt =====
-- The loop over sections of `handleOpMsg` in internal/proto/mongodb/handler.go. A `break` inside
-- its switch leaves the switch and not the loop, which then goes on at the next byte.
pub mod Safety
pub mod Captured
use white_toyota_tacoma.Common.{
  ℕ, zero, suc, ◌+◌, Bool, true, false, ◌||◌, Option, none, some, List, [], ◌∷◌, ltb, leb, ◌==◌,
  if◌then◌else◌, length,
}
use white_toyota_tacoma.Common.Bytes.{Bytes, byte_at, slice_from, uint32_le}
use white_toyota_tacoma.Common.Utf8.{CaseTable}
use white_toyota_tacoma.Common.Result.{Result, ok, err, ◌>>=◌}
use white_toyota_tacoma.Mongodb.Bson.{Doc, Element, parse_bson_doc, bson_first_key}

-- `command` and `doc`, which is `nil` at first.
pub record Found : Type 0 where
  pub command : Bytes
  pub doc : Option Doc

-- The position behind a section, and what was found.
abbrev pub Step : Type 0
Step = Result (ℕ × Found)

parsed : Bytes → ℕ → Found → Element → ℕ × Found
parsed command at found none = (at, record found { command = command })
parsed command at found (some (doc, n)) = (at + n, record { command = command; doc = some doc })

-- A body: one document.
body : CaseTable → Bytes → ℕ → Found → Step
body t payload at found = do
  tail ← slice_from payload at
  command ← bson_first_key t tail
  r ← parse_bson_doc tail
  ok (parsed command at found r)

behind_sequence : Bytes → ℕ → ℕ → Found → ℕ × Found
behind_sequence payload at seq_len found =
    if ltb seq_len 4 || ltb (length payload) (at + seq_len)
    then (at, found)
    else (at + seq_len, found)

-- A sequence of documents, which is passed over.
sequence : Bytes → ℕ → Found → Step
sequence payload at found = if ltb (length payload) (at + 4) then ok (at, found) else (do
  tail ← slice_from payload at
  seq_len ← uint32_le tail
  ok (behind_sequence payload at seq_len found))

section : CaseTable → Bytes → ℕ → ℕ → Found → Step
section t payload kind at found =
    if kind == 0
    then body t payload at found
    else if kind == 1
    then sequence payload at found
    else ok (length payload, found)

-- The loop, whose rounds are bounded by the fuel. Its second test, which repeats the first, never
-- breaks.
pub section_loop : ℕ → CaseTable → Bytes → ℕ → Found → Result Found
section_loop zero t payload at found = ok found
section_loop (suc fuel) t payload at found =
    let rest = section_loop fuel t payload in
    if ltb at (length payload)
    then (do
      kind ← byte_at payload at
      step ← section t payload kind (at + 1) found
      rest step.0 step.1)
    else ok found

-- The sections behind the flags. A round takes a byte at least, so the fuel is enough.
pub sections : CaseTable → Bytes → Result Found
sections t payload = section_loop (length payload) t payload 4 (record { command = []; doc = none })
