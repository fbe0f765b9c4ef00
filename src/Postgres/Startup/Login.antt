-- ===== src/Postgres/Startup/Login.antt =====
-- The account that a startup message names, behind any number of SSL requests; and an end to the
-- loop, whatever the peer sends.
use native.Mathlib.Nat.{zero-add, suc-add}
use white_toyota_tacoma.Common.{
  ℕ, zero, suc, ◌+◌, ◌-◌, ◌≤◌, ◌<◌, ◌==◌, ◌≡◌, refl, ◌∙◌, inl, inr, false, ◌||◌, Option, none, some,
  List, [], ◌++◌, ltb, length, replicate, arith, All, Bool-cases, append_assoc, append-nil,
}
use white_toyota_tacoma.Common.Bytes.{
  Bytes, codes, be32, read_full-append, uint32_be, uint32_be-be32,
}
use white_toyota_tacoma.Common.Result.{Result, ok, err, reject}
use white_toyota_tacoma.Conn.{Conn, M, pure, lift, receive, send, and_then}
use white_toyota_tacoma.Conn.Progress.{
  Takes, took, failed, bind-Takes, Takes-behind, receive-Takes, lift-Takes, send-Takes,
}
use white_toyota_tacoma.Postgres.Startup.{
  parse_startup_params, Account, database_or, account_of, max_startup_len, ssl_request,
  cancel_request, proto_version, on_request, with_body, with_len, startup_round, again,
  startup_loop, do_startup,
}
use white_toyota_tacoma.Postgres.Startup.Params.{
  IsParam, param_list, value_of, lookup-parse_startup_params,
}

on_request-Takes :
    (k n r : ℕ) (body : Bytes) (c : Conn) → length c.input + k ≤ n → Takes k n (on_request r body c)
unfolding on_request
on_request-Takes k n r body c h = elim (Bool-cases (r == ssl_request)) [
  | inl e ↦ rw e (
      bind-Takes k n (send (codes "N")) (λ _. pure none) c (send-Takes k n (codes "N") c h)
        λ u c' h'. took h')
  | inr e ↦ rw e (elim (Bool-cases (r == cancel_request)) [
    | inl q ↦ rw q failed
    | inr q ↦
        rw q
          (elim (Bool-cases (r == proto_version)) [ inl p ↦ rw p (took h) | inr p ↦ rw p failed ])
  ])
]

with_body-Takes :
    (k n : ℕ) (body : Bytes) (c : Conn) → length c.input + k ≤ n → Takes k n (with_body body c)
unfolding with_body
with_body-Takes k n body c h =
    bind-Takes k n (lift (reject _ _)) _ c (lift-Takes k n (reject (ltb (length body) 4) _) c h)
      λ u c' h'.
        bind-Takes k n (lift (uint32_be body)) _ c' (lift-Takes k n (uint32_be body) c' h')
          λ r d l. on_request-Takes k n r body d l

with_len-Takes : (k n len : ℕ) (c : Conn) → length c.input + k ≤ n → Takes k n (with_len len c)
unfolding with_len
with_len-Takes k n len c h =
    bind-Takes k n (lift (reject _ _)) _ c
      (lift-Takes k n (reject (ltb len 8 || ltb max_startup_len len) _) c h)
      λ u c' h'.
        bind-Takes k n (receive (len - 4)) with_body c'
          (Takes-behind (omega arith) (receive-Takes (len - 4) c'))
          λ body d l. with_body-Takes k n body d l

startup_round-Takes : (c : Conn) → Takes 4 (length c.input) (startup_round c)
unfolding startup_round
startup_round-Takes c =
    bind-Takes 4 (length c.input) (receive 4) _ c (receive-Takes 4 c) λ buf c' h.
      bind-Takes 4 (length c.input) (lift (uint32_be buf)) with_len c'
        (lift-Takes 4 (length c.input) (uint32_be buf) c' h)
        λ len d l. with_len-Takes 4 (length c.input) len d l

again-agree :
    (f g : M Account) (n : ℕ) (r : Result (Option Account) × Conn)
    → Takes 4 n r
    → ((c : Conn) → length c.input < n → f c ≡ g c)
    → and_then r (again f) ≡ and_then r (again g)
unfolding again
again-agree f g n (ok none, c) (took h) e = e c (omega arith)
again-agree f g n (ok (some a), c) t e = refl
again-agree f g n (err x, c) t e = refl

startup_loop-agree :
    (fuel more : ℕ) (c : Conn)
    → length c.input < fuel
    → length c.input < more
    → startup_loop fuel c ≡ startup_loop more c
unfolding startup_loop
startup_loop-agree zero more c h k = absurd (omega arith)
startup_loop-agree (suc fuel) zero c h k = absurd (omega arith)
startup_loop-agree (suc fuel) (suc more) c h k =
    again-agree (startup_loop fuel) (startup_loop more) (length c.input) (startup_round c)
      (startup_round-Takes c) λ d l. startup_loop-agree fuel more d (omega arith) (omega arith)

-- The fuel of `doStartup`'s model is enough, whatever the peer sends: with more, the result is
-- the same.
pub startup_loop_total :
    (c : Conn) (fuel : ℕ) → length c.input < fuel → startup_loop fuel c ≡ do_startup c
unfolding do_startup
startup_loop_total c fuel h = startup_loop-agree fuel (suc (length c.input)) c h (omega arith)

abbrev pub ssl : Bytes
ssl = be32 8 ++ be32 ssl_request

abbrev pub startup_message : List (Bytes × Bytes) → Bytes
startup_message ps = be32 (8 + length (param_list ps)) ++ (be32 proto_version ++ param_list ps)

-- Any number of SSL requests, each of which is declined.
abbrev pub after_ssl : ℕ → Bytes → Bytes
after_ssl zero rest = rest
after_ssl (suc n) rest = ssl ++ after_ssl n rest

abbrev pub account : List (Bytes × Bytes) → Account
account ps = record {
  username = value_of (codes "user") ps [];
  database = database_or (value_of (codes "database") ps []) (value_of (codes "user") ps []);
}

account_of-parse :
    (ps : List (Bytes × Bytes))
    → All IsParam ps
    → account_of (parse_startup_params (param_list ps)) ≡ account ps
account_of-parse ps h = rw (
  lookup-parse_startup_params (codes "user") ps h,
  lookup-parse_startup_params (codes "database") ps h,
)

round-ssl :
    (rest : Bytes) (c : Conn) (n : ℕ)
    → startup_round (record c { input = ssl ++ rest; accepts = suc n })
      ≡ (ok none, record c { input = rest; output = c.output ++ codes "N"; accepts = n })
unfolding startup_round with_len with_body on_request uint32_be
round-ssl rest c n =
    rw (read_full-append (be32 8) (be32 ssl_request ++ rest))
      (rw (read_full-append (be32 ssl_request) rest))

round-startup :
    (ps : List (Bytes × Bytes)) (rest : Bytes) (c : Conn)
    → All IsParam ps
    → 8 + length (param_list ps) ≤ max_startup_len
    → startup_round (record c { input = startup_message ps ++ rest })
      ≡ (ok (some (account ps)), record c { input = rest })
unfolding startup_round with_len with_body on_request
round-startup ps rest c h l =
    rw
      (read_full-append (be32 (8 + length (param_list ps)))
        (be32 proto_version ++ (param_list ps ++ rest)))
      (rw (uint32_be-be32 (8 + length (param_list ps)) [] (omega arith)) (
        rw fits
          (rw minus (rw (read_full-append (be32 proto_version ++ param_list ps) rest) named))))
  where
    fits :
        (ltb (8 + length (param_list ps)) 8 || ltb max_startup_len (8 + length (param_list ps)))
        ≡ false
    fits = ground arith

    minus : 8 + length (param_list ps) - 4 ≡ length (be32 proto_version ++ param_list ps)
    minus = omega arith

    long : ltb (length (be32 proto_version ++ param_list ps)) 4 ≡ false
    long = ground arith

    named :
        with_body (be32 proto_version ++ param_list ps) (record c { input = rest })
        ≡ (ok (some (account ps)), record c { input = rest })
    named = rw long (unfold uint32_be in rw (account_of-parse ps h))

loop-startup :
    (ps : List (Bytes × Bytes)) (rest : Bytes) (n fuel accepts : ℕ) (c : Conn)
    → All IsParam ps
    → 8 + length (param_list ps) ≤ max_startup_len
    → n < fuel
    → startup_loop fuel
        (record c { input = after_ssl n (startup_message ps ++ rest); accepts = n + accepts })
      ≡ (
        ok (account ps),
        record c { input = rest; output = c.output ++ replicate n 78; accepts = accepts },
      )
unfolding startup_loop again
loop-startup ps rest n zero accepts c h l f = absurd (omega arith)
loop-startup ps rest zero (suc fuel) accepts c h l f =
    rw (zero-add, append-nil) (rw (round-startup ps rest (record c { accepts = accepts }) h l))
loop-startup ps rest (suc n) (suc fuel) accepts c h l f = rw (suc-add n accepts) (
    rw (round-ssl (after_ssl n (startup_message ps ++ rest)) c (n + accepts)) (
      loop-startup ps rest n fuel accepts (record c { output = c.output ++ codes "N" }) h l
        (omega arith)
      ∙ rw (append_assoc c.output (codes "N") (replicate n 78))))

ssl-le : (n : ℕ) (rest : Bytes) → n + length rest ≤ length (after_ssl n rest)
ssl-le zero rest = omega arith
ssl-le (suc n) rest = omega (arith, ssl-le n rest)

-- `doStartup` declines every SSL request with one `N`, and then returns the account that the
-- startup message names: the last `user`, and the last `database`, or the user where that is
-- missing or empty. The writes must succeed, the message have at most 10,000 bytes, and its
-- parameters be such as can be sent; what follows is left unread.
pub do_startup-startup :
    (ps : List (Bytes × Bytes)) (rest : Bytes) (n accepts : ℕ) (c : Conn)
    → All IsParam ps
    → 8 + length (param_list ps) ≤ max_startup_len
    → do_startup
        (record c { input = after_ssl n (startup_message ps ++ rest); accepts = n + accepts })
      ≡ (
        ok (account ps),
        record c { input = rest; output = c.output ++ replicate n 78; accepts = accepts },
      )
unfolding do_startup
do_startup-startup ps rest n accepts c h l =
    loop-startup ps rest n _ accepts c h l (omega (arith, ssl-le n (startup_message ps ++ rest)))
