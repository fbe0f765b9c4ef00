-- ===== src/Redis/Resp/RoundTrip.antt =====
-- The parser reads back what the writers write, and every command read takes bytes away.
use white_toyota_tacoma.Common.{
  ℕ, ◌+◌, ◌≤◌, ◌≡◌, ◌≢◌, refl, sym, ap, some, List, [], ◌∷◌, ◌++◌, length, get_or, arith, All,
  append_assoc, length-append, take-length-append, get_or-length-append, All-append, le→ltb,
  drop-length-cons,
}
use native.Mathlib.Nat.{add-zero}
use white_toyota_tacoma.Common.Int.{pos}
use white_toyota_tacoma.Common.Result.{ok}
use white_toyota_tacoma.Common.Bytes.{Bytes, read_full, Lacks, index_byte-append, read_full-append}
use white_toyota_tacoma.Common.Decimal.{itoa, atoi-itoa, itoa-IsDigit, IsDigit}
use white_toyota_tacoma.Common.Utf8.{CaseTable, to_upper}
use white_toyota_tacoma.Redis.Resp.{
  max_bulk_len, max_args, trim_cr, read_line, read_bulk_body, read_bulk_string, read_bulks, command,
  read_count, read_multi_bulk, read_on, read_command, crlf, write_bulk, write_items, write_array,
}

trim_cr-append : (s : Bytes) → trim_cr (s ++ 13 ∷ []) ≡ s
unfolding trim_cr
trim_cr-append [] = refl
trim_cr-append (c ∷ []) = refl
trim_cr-append (c ∷ d ∷ s) = ap (◌∷◌ c) (trim_cr-append (d ∷ s))

-- A line is read up to its CRLF, however long it is.
Lacks-append : (b : ℕ) (s t : Bytes) → Lacks b s → Lacks b t → Lacks b (s ++ t)
Lacks-append b s t h k = All-append (λ c. c ≢ b) s t h k

pub read_line-append :
    (s rest : Bytes) → Lacks 10 s → read_line (s ++ (crlf ++ rest)) ≡ ok (s, rest)
unfolding read_line
read_line-append s rest h = rw (sym (append_assoc s (13 ∷ []) (10 ∷ rest))) (
    rw (
      index_byte-append 10 (s ++ 13 ∷ []) rest (Lacks-append 10 s (13 ∷ []) h (omega arith)),
      take-length-append (s ++ 13 ∷ []) (10 ∷ rest),
      drop-length-cons (s ++ 13 ∷ []) 10 rest,
      trim_cr-append s,
    ))

IsDigit-Lacks : (s : Bytes) → All IsDigit s → Lacks 10 s
IsDigit-Lacks [] h = tt
IsDigit-Lacks (c ∷ s) h = (omega arith, IsDigit-Lacks s h.1)

read_line-header :
    (c n : ℕ) (rest : Bytes)
    → c ≢ 10
    → read_line (c ∷ (itoa n ++ (crlf ++ rest))) ≡ ok (c ∷ itoa n, rest)
read_line-header c n rest h =
    read_line-append (c ∷ itoa n) rest (h, IsDigit-Lacks (itoa n) (itoa-IsDigit n))

read_bulk_body-append :
    (s rest : Bytes)
    → length s ≤ max_bulk_len
    → read_bulk_body (some (pos (length s))) (s ++ (crlf ++ rest)) ≡ ok (s, rest)
unfolding read_bulk_body
read_bulk_body-append s rest h =
    rw (le→ltb max_bulk_len (length s) h, sym (append_assoc s crlf rest))
      (rw (whole, get_or-length-append s crlf 1 0, at_end, take-length-append s crlf))
  where
    whole : read_full (length s + 2) ((s ++ crlf) ++ rest) ≡ ok (s ++ crlf, rest)
    whole = rw (sym (length-append s crlf)) (read_full-append (s ++ crlf) rest)

    at_end : get_or (s ++ crlf) (length s) 0 ≡ 13
    at_end = rw add-zero at (get_or-length-append s crlf 0 0)

-- `readBulkString` reads back what `WriteBulk` writes, whatever follows it.
pub read_bulk_string-write_bulk :
    (s rest : Bytes)
    → length s ≤ max_bulk_len
    → read_bulk_string (write_bulk s ++ rest) ≡ ok (s, rest)
unfolding read_bulk_string write_bulk
read_bulk_string-write_bulk s rest h =
    rw (shape, read_line-header b'$' (length s) (s ++ (crlf ++ rest)) (omega arith))
      (rw (atoi-itoa (length s) (omega arith)) (read_bulk_body-append s rest h))
  where
    shape :
        b'$' ∷ ((itoa (length s) ++ (crlf ++ (s ++ crlf))) ++ rest)
        ≡ b'$' ∷ (itoa (length s) ++ (crlf ++ (s ++ (crlf ++ rest))))
    shape = simp append_assoc

-- Bulk strings that the parser accepts.
abbrev pub AreBulks : List Bytes → Type 0
AreBulks = All λ s. length s ≤ max_bulk_len

read_bulks-write_items :
    (items : List Bytes) (rest : Bytes)
    → AreBulks items
    → read_bulks (length items) (write_items items ++ rest) ≡ ok (items, rest)
unfolding read_bulks write_items
read_bulks-write_items [] rest h = refl
read_bulks-write_items (item ∷ items) rest h =
    rw (append_assoc (write_bulk item) (write_items items) rest) (
      rw (read_bulk_string-write_bulk item (write_items items ++ rest) h.0)
        (rw (read_bulks-write_items items rest h.1)))

-- `ReadCommand` reads back an array that `WriteArray` writes as the command with those arguments,
-- if there are between 1 and 1024 of them, of at most 16 MB each; what follows is left unread.
pub read_command-write_array :
    (t : CaseTable) (a : Bytes) (args : List Bytes) (rest : Bytes)
    → length (a ∷ args) ≤ max_args
    → AreBulks (a ∷ args)
    → read_command t (write_array (a ∷ args) ++ rest)
      ≡ ok (record { name = to_upper t a; args = a ∷ args }, rest)
unfolding read_command write_array read_on read_multi_bulk read_count command
read_command-write_array t a args rest h k =
    rw
      (
        shape,
        read_line-header b'*' (length (a ∷ args)) (write_items (a ∷ args) ++ rest) (omega arith),
      )
      (rw
        (
          atoi-itoa (length (a ∷ args)) (omega arith),
          le→ltb (length (a ∷ args)) 1 (omega arith),
          le→ltb max_args (length (a ∷ args)) h,
        )
        (rw (read_bulks-write_items (a ∷ args) rest k)))
  where
    shape :
        b'*' ∷ ((itoa (length (a ∷ args)) ++ (crlf ++ write_items (a ∷ args))) ++ rest)
        ≡ b'*' ∷ (itoa (length (a ∷ args)) ++ (crlf ++ (write_items (a ∷ args) ++ rest)))
    shape = simp append_assoc
