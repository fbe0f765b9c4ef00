-- ===== src/Mongodb/Sections/Safety.antt =====
-- No payload makes the loop over sections index or slice out of range, or go on forever.
use white_toyota_tacoma.Common.{
  ℕ, zero, suc, ◌+◌, ◌≤◌, ◌≡◌, refl, sym, ◌∙◌, inl, inr, false, ◌||◌, none, some, [], ltb, ◌==◌,
  length, drop, arith, Bool-cases, length-drop,
}
use white_toyota_tacoma.Common.Bytes.{Bytes}
use white_toyota_tacoma.Common.Bytes.Safe.{slice_from-eq-ok, byte_at_some, uint32_le_some}
use white_toyota_tacoma.Common.Utf8.{CaseTable}
use white_toyota_tacoma.Common.Result.{Result, ok, err, ◌>>=◌}
use white_toyota_tacoma.Mongodb.Bson.{Element}
use white_toyota_tacoma.Mongodb.Bson.Safety.{parse_bson_doc_total, bson_first_key_total}
use white_toyota_tacoma.Mongodb.Sections.{
  Found, Step, parsed, body, behind_sequence, sequence, section, section_loop, sections,
}

-- A section that is read to the position `k` or a later one.
data Reads (k : ℕ) : Step → Type 0 where
  reads : {at : ℕ} {found : Found} → k ≤ at → Reads k (ok (at, found))

parsed-Reads :
    (command : Bytes) (at : ℕ) (found : Found) (r : Element)
    → Reads at (ok (parsed command at found r))
unfolding parsed
parsed-Reads command at found none = reads (omega arith)
parsed-Reads command at found (some (doc, n)) = reads (omega arith)

body-Reads :
    (t : CaseTable) (payload : Bytes) (at : ℕ) (found : Found)
    → at ≤ length payload
    → Reads at (body t payload at found)
unfolding body
body-Reads t payload at found h =
    let (command, e) = bson_first_key_total t (drop at payload) in
    let (r, f, _) = parse_bson_doc_total (drop at payload) in
    rw (slice_from-eq-ok payload at h) (rw (e, f) (parsed-Reads command at found r))

sequence-Reads : (payload : Bytes) (at : ℕ) (found : Found) → Reads at (sequence payload at found)
unfolding sequence behind_sequence
sequence-Reads payload at found = elim (Bool-cases (ltb (length payload) (at + 4))) [
  | inl short ↦ rw short (reads (omega arith))
  | inr long ↦
      let (n, e) = uint32_le_some (drop at payload) (ground (arith, length-drop at payload)) in
      rw (long, slice_from-eq-ok payload at (ground arith), e)
        (elim (Bool-cases (ltb n 4 || ltb (length payload) (at + n))) [
          | inl bad ↦ rw bad (reads (omega arith))
          | inr good ↦ rw good (reads (omega arith))
        ])
]

section-Reads :
    (t : CaseTable) (payload : Bytes) (kind at : ℕ) (found : Found)
    → at ≤ length payload
    → Reads at (section t payload kind at found)
unfolding section
section-Reads t payload kind at found h = elim (Bool-cases (kind == 0)) [
  | inl b ↦ rw b (body-Reads t payload at found h)
  | inr b ↦ rw b (elim (Bool-cases (kind == 1)) [
    | inl s ↦ rw s (sequence-Reads payload at found)
    | inr s ↦ rw s (reads h)
  ])
]

abbrev Agree : (ℕ → Found → Result Found) → (ℕ → Found → Result Found) → ℕ → Found → Type 0
Agree f g at found = (r : Found) × (f at found ≡ ok r) × (g at found ≡ ok r)

rest-Agree :
    (f g : ℕ → Found → Result Found) (k : ℕ) (s : Step)
    → Reads k s
    → ((at : ℕ) (found : Found) → k ≤ at → Agree f g at found)
    → (r : Found) × ((s >>= λ p. f p.0 p.1) ≡ ok r) × ((s >>= λ p. g p.0 p.1) ≡ ok r)
rest-Agree f g k (err e) s h = elim s [ ]
rest-Agree f g k (ok (at, found)) (reads l) h = h at found l

section_loop-Agree :
    (fuel more : ℕ) (t : CaseTable) (payload : Bytes) (at : ℕ) (found : Found)
    → length payload ≤ fuel + at
    → length payload ≤ more + at
    → Agree (section_loop fuel t payload) (section_loop more t payload) at found
unfolding section_loop
section_loop-Agree zero zero t payload at found h l = (found, refl, refl)
section_loop-Agree zero (suc more) t payload at found h l =
    let over : ltb at (length payload) ≡ false = ground arith in rw over (found, refl, refl)
section_loop-Agree (suc fuel) zero t payload at found h l =
    let over : ltb at (length payload) ≡ false = ground arith in rw over (found, refl, refl)
section_loop-Agree (suc fuel) (suc more) t payload at found h l =
    elim (Bool-cases (ltb at (length payload))) [
      | inr over ↦ rw over (found, refl, refl)
      | inl inside ↦
          let (kind, e) = byte_at_some payload at (ground arith) in
          rw (inside, e)
            (rest-Agree (section_loop fuel t payload) (section_loop more t payload) (at + 1) _
              (section-Reads t payload kind (at + 1) found (ground arith))
              λ at' found' k.
                section_loop-Agree fuel more t payload at' found' (omega arith) (omega arith))
    ]

-- `handleOpMsg` gets through the sections of any payload: no index and no slice is out of range,
-- and with any fuel from the length of the payload the model finds the same.
pub sections_total :
    (t : CaseTable) (payload : Bytes) (fuel : ℕ)
    → length payload ≤ fuel
    → (found : Found) × (sections t payload ≡ ok found)
      × (section_loop fuel t payload 4 (record { command = []; doc = none }) ≡ ok found)
unfolding sections
sections_total t payload fuel h =
    section_loop-Agree (length payload) fuel t payload 4 (record { command = []; doc = none })
      (omega arith) (omega arith)

-- Fuel from the length of the payload makes no difference.
pub section_loop_more :
    (t : CaseTable) (payload : Bytes) (fuel : ℕ)
    → length payload ≤ fuel
    → sections t payload ≡ section_loop fuel t payload 4 (record { command = []; doc = none })
section_loop_more t payload fuel h =
    let (found, e, f) = sections_total t payload fuel h in e ∙ sym f
