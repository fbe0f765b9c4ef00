-- ===== src/Redis/Resp.antt =====
-- internal/proto/redis/resp.go. A reader is the bytes that are still to come.
pub mod RoundTrip
pub mod Progress
use white_toyota_tacoma.Common.{
  ℕ, zero, suc, ◌+◌, ◌*◌, ◌≤◌, Bool, true, false, not, ◌||◌, Option, none, some, List, [], ◌∷◌,
  ◌++◌, ltb, ◌==◌, if◌then◌else◌, length, take, drop, get_or,
}
use white_toyota_tacoma.Common.Int.{ℤ, pos, negsuc}
use white_toyota_tacoma.Common.Result.{
  Result, ok, err, err_proto, eof, ◌>>=◌, ◌>>◌, reject, or_fail,
}
use white_toyota_tacoma.Common.Bytes.{Bytes, codes, index_byte, read_full}
use white_toyota_tacoma.Common.Decimal.{itoa, format_int, atoi}
use white_toyota_tacoma.Common.Utf8.{CaseTable, to_upper, fields}

abbrev pub max_bulk_len : ℕ
max_bulk_len = 16 * 1024 * 1024

abbrev pub max_inline_len : ℕ
max_inline_len = 65536

abbrev pub max_args : ℕ
max_args = 1024

pub record Command : Type 0 where
  pub name : Bytes
  pub args : List Bytes

-- `strings.TrimSuffix(line, "\r")`
trim_cr : Bytes → Bytes
trim_cr [] = []
trim_cr (c ∷ []) = if c == 13 then [] else c ∷ []
trim_cr (c ∷ d ∷ s) = c ∷ trim_cr (d ∷ s)

-- `readLine`; a line with no LF is an error, also where bytes were read.
pub read_line : Bytes → Result (Bytes × Bytes)
unfolding trim_cr
read_line input = do
  i ← or_fail (index_byte input 10) eof
  ok (trim_cr (take i input), drop (i + 1) input)

abbrev first_is : ℕ → Bytes → Bool
first_is c [] = false
first_is c (b ∷ s) = b == c

-- The body of a bulk string behind its header, by the length that was parsed.
read_bulk_body : Option ℤ → Bytes → Result (Bytes × Bytes)
read_bulk_body none input = err err_proto
read_bulk_body (some (negsuc zero)) input = ok ([], input)
read_bulk_body (some (negsuc (suc n))) input = err err_proto
read_bulk_body (some (pos n)) input = do
  reject (ltb max_bulk_len n) err_proto
  (buf, rest) ← read_full (n + 2) input
  reject (not (get_or buf n 0 == 13) || not (get_or buf (n + 1) 0 == 10)) err_proto
  ok (take n buf, rest)

pub read_bulk_string : Bytes → Result (Bytes × Bytes)
read_bulk_string input = do
  (line, rest) ← read_line input
  reject (not (first_is b'$' line)) err_proto
  read_bulk_body (atoi (drop 1 line)) rest

-- The loop over `count` in `readMultiBulk`.
read_bulks : ℕ → Bytes → Result (List Bytes × Bytes)
read_bulks zero input = ok ([], input)
read_bulks (suc count) input = do
  (bulk, rest) ← read_bulk_string input
  (bulks, left) ← read_bulks count rest
  ok (bulk ∷ bulks, left)

-- The command named by the first argument.
command : CaseTable → List Bytes → Result Command
command t [] = err err_proto
command t (a ∷ args) = ok (record { name = to_upper t a; args = a ∷ args })

read_count : CaseTable → Option ℤ → Bytes → Result (Command × Bytes)
read_count t none input = err err_proto
read_count t (some (negsuc n)) input = err err_proto
read_count t (some (pos n)) input = do
  reject (ltb n 1 || ltb max_args n) err_proto
  (args, rest) ← read_bulks n input
  c ← command t args
  ok (c, rest)

pub read_multi_bulk : CaseTable → Bytes → Bytes → Result (Command × Bytes)
read_multi_bulk t input header = read_count t (atoi (drop 1 header)) input

pub read_inline : CaseTable → Bytes → Result Command
read_inline t line = do reject (ltb max_inline_len (length line)) err_proto; command t (fields line)

-- The dispatch on the first byte of the line.
read_on : CaseTable → Bytes → Bytes → Result (Command × Bytes)
read_on t [] rest = err err_proto
read_on t (c ∷ line) rest =
    if c == b'*'
    then read_multi_bulk t rest (c ∷ line)
    else (read_inline t (c ∷ line) >>= λ cmd. ok (cmd, rest))

unfoldable pub read_command : CaseTable → Bytes → Result (Command × Bytes)
unfolding read_line read_on read_multi_bulk read_inline read_count read_bulks read_bulk_string
    read_bulk_body command
read_command t input = do (line, rest) ← read_line input; read_on t line rest

abbrev pub crlf : Bytes
crlf = 13 ∷ 10 ∷ []

unfoldable pub write_simple : Bytes → Bytes
write_simple s = b'+' ∷ (s ++ crlf)

unfoldable pub write_error : Bytes → Bytes
write_error s = codes "-ERR " ++ (s ++ crlf)

unfoldable pub write_int : ℤ → Bytes
unfolding format_int
write_int n = b':' ∷ (format_int n ++ crlf)

unfoldable pub write_bulk : Bytes → Bytes
unfolding itoa
write_bulk s = b'$' ∷ (itoa (length s) ++ (crlf ++ (s ++ crlf)))

unfoldable pub write_null : Bytes
write_null = codes "$-1\r\n"

write_items : List Bytes → Bytes
unfolding write_bulk
write_items [] = []
write_items (item ∷ items) = write_bulk item ++ write_items items

unfoldable pub write_array : List Bytes → Bytes
unfolding itoa write_items
write_array items = b'*' ∷ (itoa (length items) ++ (crlf ++ write_items items))
