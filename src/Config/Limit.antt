-- ===== src/Config/Limit.antt =====
-- The bound on the file that `Load` reads.
use white_toyota_tacoma.Common.{
  ℕ, ◌+◌, ◌≤◌, ◌==◌, inl, inr, ltb, List, [], ◌∷◌, All, arith, Bool-cases,
}
use white_toyota_tacoma.Config.{Inner, read, total_read}

-- `io.Reader` promises to return at most the length of the buffer.
abbrev pub IsReader : Inner → Type 0
IsReader inner = (len : ℕ) → (inner len).0 ≤ len

read_within :
    (inner : Inner) (len n : ℕ) → IsReader inner → (read inner len n).0.0 + (read inner len n).1 ≤ n
unfolding read
read_within inner len n h = elim (Bool-cases (n == 0)) [
  | inl z ↦ rw z (omega arith)
  | inr z ↦ rw z (elim (Bool-cases (ltb n len)) [
    | inl l ↦ rw l (omega (arith, h n))
    | inr l ↦ rw l (ground (arith, h len))
  ])
]

-- Whatever buffers are offered, a limited reader hands out no more bytes than its limit, as long
-- as the reader below keeps to the length of each buffer.
pub total_read-le :
    (reads : List (ℕ × Inner)) (n : ℕ) → All (λ r. IsReader r.1) reads → total_read reads n ≤ n
unfolding total_read
total_read-le [] n h = omega arith
total_read-le ((len, inner) ∷ reads) n h =
    omega (arith, read_within inner len n h.0, total_read-le reads (read inner len n).1 h.1)
