-- ===== src/Mysql/Handshake/Safety.antt =====
-- No payload makes `readHandshakeResponse` index or slice out of range.
use white_toyota_tacoma.Common.{
  ℕ, ◌+◌, ◌-◌, ◌≤◌, ◌<◌, ◌≡◌, ◌≢◌, refl, inl, inr, Bool, true, false, ◌&&◌, Option, none, some, [],
  ltb, leb, length, drop, arith, Bool-cases, Option-cases, ltb→le, ltb→lt, length-drop,
  if◌then◌else◌,
}
use white_toyota_tacoma.Common.Result.{panic, failure, Result, ok, err, ◌>>=◌, or_fail}
use white_toyota_tacoma.Common.Bytes.{
  Bytes, byte_at, slice, slice_from, uint32_le, index_byte, index_byte-lt,
}
use white_toyota_tacoma.Common.Bytes.Safe.{
  IsSafe, fine, IsSafe-ne-panic, bind-IsSafe, guard-IsSafe, or_fail-IsSafe, or_fail-eq-ok,
  slice-IsSafe, slice_from-eq-ok, byte_at-IsSafe, uint32_le-IsSafe,
}
use white_toyota_tacoma.Mysql.Handshake.{
  has_cap, cap_secure_conn, cap_conn_with_db, auth_prefixed, or_else, auth_terminated,
  database_up_to, database_at, parse_auth, parse_handshake_response,
}

auth_prefixed-IsSafe : (p : Bytes) (pos : ℕ) → pos < length p → IsSafe (auth_prefixed p pos)
unfolding auth_prefixed
auth_prefixed-IsSafe p pos h = bind-IsSafe (byte_at p pos) _ (byte_at-IsSafe p pos h) λ n _.
    guard-IsSafe (ltb (length p) (pos + 1 + n)) _ _ (λ e. cc)
      λ fits.
        bind-IsSafe (slice p (pos + 1) (pos + 1 + n)) _
          (slice-IsSafe p (pos + 1) (pos + 1 + n) (omega arith)
            (ltb→le (length p) (pos + 1 + n) fits))
          (λ a _. fine)

-- A NUL that is found in the rest of the payload lies within it.
index_within :
    (p : Bytes) (pos i : ℕ)
    → pos ≤ length p
    → index_byte (drop pos p) 0 ≡ some i
    → pos + i < length p
index_within p pos i h e = omega (arith, index_byte-lt (drop pos p) 0 e, length-drop pos p)

end_within :
    (p : Bytes) (pos : ℕ)
    → pos ≤ length p
    → pos + or_else (index_byte (drop pos p) 0) (length p - pos) ≤ length p
end_within p pos h = elim (Option-cases (index_byte (drop pos p) 0)) [
  | inl e ↦ rw e (omega arith)
  | inr (i, e) ↦ rw e (omega (arith, index_within p pos i h e))
]

auth_terminated-IsSafe : (p : Bytes) (pos : ℕ) → pos < length p → IsSafe (auth_terminated p pos)
unfolding auth_terminated
auth_terminated-IsSafe p pos h = rw (slice_from-eq-ok p pos (omega arith)) (
    bind-IsSafe (slice p pos _) _
      (slice-IsSafe p pos _ (omega arith) (end_within p pos (omega arith))) (λ a _. fine))

database_up_to-IsSafe :
    (p : Bytes) (pos : ℕ) (o : Option ℕ)
    → pos ≤ length p
    → index_byte (drop pos p) 0 ≡ o
    → IsSafe (database_up_to p pos o)
unfolding database_up_to
database_up_to-IsSafe p pos none h e = fine
database_up_to-IsSafe p pos (some i) h e =
    slice-IsSafe p pos (pos + i) (omega arith) (omega (arith, index_within p pos i h e))

database_at-IsSafe : (caps : ℕ) (p : Bytes) (pos : ℕ) → IsSafe (database_at caps p pos)
unfolding database_at
database_at-IsSafe caps p pos = elim (Bool-cases (ltb pos (length p))) [
  | inr out ↦ rw out (no_db _ (has_cap caps cap_conn_with_db))
  | inl inside ↦ rw inside (
      rw (slice_from-eq-ok p pos (omega (arith, ltb→lt pos (length p) inside))) (
        has_db (has_cap caps cap_conn_with_db)
          (database_up_to-IsSafe p pos _ (omega (arith, ltb→lt pos (length p) inside)) refl)))
]
  where
    no_db : (m : Result Bytes) (b : Bool) → IsSafe (if b && false then m else ok [])
    no_db m true = fine
    no_db m false = fine

    has_db : {m : Result Bytes} (b : Bool) → IsSafe m → IsSafe (if b && true then m else ok [])
    has_db true h = h
    has_db false h = fine

parse_auth-IsSafe :
    (caps : ℕ) (username p : Bytes) (pos : ℕ) → IsSafe (parse_auth caps username p pos)
unfolding parse_auth
parse_auth-IsSafe caps username p pos =
    guard-IsSafe (leb (length p) pos) _ _ (λ e. cc)
      λ inside.
        bind-IsSafe
          (if has_cap caps cap_secure_conn then auth_prefixed p pos else auth_terminated p pos) _
          (either (has_cap caps cap_secure_conn) (auth_prefixed-IsSafe p pos (ground arith))
            (auth_terminated-IsSafe p pos (ground arith)))
          λ a _.
            bind-IsSafe (database_at caps p a.1) _ (database_at-IsSafe caps p a.1) (λ d _. fine)
  where
    either :
        {m n : Result (Bytes × ℕ)} (b : Bool) → IsSafe m → IsSafe n → IsSafe (if b then m else n)
    either true h k = h
    either false h k = k

parse_handshake_response-IsSafe : (payload : Bytes) → IsSafe (parse_handshake_response payload)
unfolding parse_handshake_response
parse_handshake_response-IsSafe payload =
    guard-IsSafe (ltb (length payload) 32) _ _ (λ e. cc)
      λ long.
        bind-IsSafe (uint32_le payload) _
          (uint32_le-IsSafe payload (omega (arith, ltb→le (length payload) 32 long)))
          λ caps _.
            guard-IsSafe (leb (length payload) 32) _ _ (λ e. cc) λ longer. named caps (ground arith)
  where
    named :
        (caps : ℕ)
        → 32 < length payload
        → IsSafe (do
          tail ← slice_from payload 32
          end ← or_fail (index_byte tail 0) (failure "username not null-terminated")
          username ← slice payload 32 (32 + end)
          parse_auth caps username payload (32 + end + 1))
    named caps h = rw (slice_from-eq-ok payload 32 (omega arith)) (
        bind-IsSafe (or_fail (index_byte (drop 32 payload) 0) _) _
          (or_fail-IsSafe (index_byte (drop 32 payload) 0) _ (λ e. cc))
          λ end e.
            bind-IsSafe (slice payload 32 (32 + end)) _
              (slice-IsSafe payload 32 (32 + end) (omega arith) (
                omega (
                  arith,
                  index_within payload 32 end (omega arith)
                      (or_fail-eq-ok (index_byte (drop 32 payload) 0) _ e),
                )))
              λ username _. parse_auth-IsSafe caps username payload (32 + end + 1))

-- Whatever the client sends, parsing its handshake response gives a login or an error, and never
-- a slice or an index out of range.
pub parse_handshake_response-ne-panic :
    (payload : Bytes) → parse_handshake_response payload ≢ err panic
parse_handshake_response-ne-panic payload =
    IsSafe-ne-panic (parse_handshake_response-IsSafe payload)
