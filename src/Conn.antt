-- ===== src/Conn.antt =====
-- A connection as the protocol handlers of internal/proto see it: what the peer will send, what
-- was written to it, and the events given to the store. A read past the last byte fails, as it
-- does where the peer closes or the deadline passes; so does a write once `accepts` are done.
pub mod Progress
pub mod Loop
pub mod Safe
use white_toyota_tacoma.Common.{ℕ, zero, suc, Bool, true, false, List, [], ◌∷◌, ◌++◌}
use white_toyota_tacoma.Common.Bytes.{Bytes, read_full}
use white_toyota_tacoma.Common.Result.{Error, write_failed, Result, ok, err}
use white_toyota_tacoma.Capture.{Event}

pub record Conn : Type 0 where
  pub input : Bytes
  pub output : Bytes
  -- The writes that succeed before one fails.
  pub accepts : ℕ
  -- The polls of `ctx.Done()` that find the context alive.
  pub alive : ℕ
  -- The events given to `Store.Log`, oldest first.
  pub events : List Event

-- The host and the port of `conn.RemoteAddr()`.
pub record Peer : Type 0 where
  pub ip : Bytes
  pub port : ℕ

abbrev pub M : Type 0 → Type 0
M A = Conn → Result A × Conn

abbrev pub and_then : {A B : Type 0} → Result A × Conn → (A → M B) → Result B × Conn
and_then (ok a, c) f = f a c
and_then (err e, c) f = (err e, c)

infixl 5 ◌>>=◌ ◌>>◌
abbrev pub ◌>>=◌ : {A B : Type 0} → M A → (A → M B) → M B
◌>>=◌ m f c = and_then (m c) f

abbrev pub ◌>>◌ : {B : Type 0} → M (Unit {0}) → M B → M B
m >> k = m >>= λ _. k

abbrev pub pure : {A : Type 0} → A → M A
pure a c = (ok a, c)

abbrev pub throw : {A : Type 0} → Error → M A
throw e c = (err e, c)

abbrev pub lift : {A : Type 0} → Result A → M A
lift r c = (r, c)

-- Continue a read with the bytes that it leaves.
abbrev pub reading : {A : Type 0} → Result (A × Bytes) → M A
reading (ok (a, rest)) c = (ok a, record c { input = rest })
reading (err e) c = (err e, c)

-- `io.ReadFull(conn, …)`
abbrev pub receive : ℕ → M Bytes
receive n c = reading (read_full n c.input) c

-- `conn.Write`
abbrev pub send_within : ℕ → Bytes → M (Unit {0})
send_within zero b c = (err write_failed, c)
send_within (suc n) b c = (ok tt, record c { output = c.output ++ b; accepts = n })

abbrev pub send : Bytes → M (Unit {0})
send b c = send_within c.accepts b c

-- `store.Log`
abbrev pub log_event : Event → M (Unit {0})
log_event e c = (ok tt, record c { events = c.events ++ e ∷ [] })

-- The `select` on `ctx.Done()`: `true` where the loop goes on.
abbrev pub poll_within : ℕ → M Bool
poll_within zero c = (ok false, c)
poll_within (suc n) c = (ok true, record c { alive = n })

abbrev pub poll : M Bool
poll c = poll_within c.alive c
