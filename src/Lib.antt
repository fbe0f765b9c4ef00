-- ===== src/Lib.antt =====
-- Tacoma, a database honeypot: a listener for each service, handlers that speak enough of a
-- database's protocol to be attacked, and a log of what the attackers send.
--
-- The program's parts, and where they are modelled:
--
-- - internal/server/server.go, the bounded TCP listener: Server. `Serve` and the goroutines of the
--   connections are one transition system; a step is what one of them does between two points at
--   which the others may run, and `Reach` is every interleaving. `new`, `acquire_ip` and
--   `release_ip` are `New`, `acquireIP` and `releaseIP`; the deferred calls of a goroutine are the
--   steps `advance`. The deadline of a connection and the command counter, which nothing calls,
--   are left out. Counts has the lemmas on `ipCounts`, Limits, Goroutine and Invariant the
--   invariant, Serve what follows from it.
-- - internal/capture/store.go, the event store: Capture. `sanitize_str`, `sanitize` and `log` are
--   `sanitizeStr`, `sanitize` and `Log`; `marshal` is what `encoding/json` of Go 1.21 writes for
--   the struct `Event`; Readable has what a reader of the file finds, Growth how long it can be. The
--   clock and the outcome of the write are arguments of `log`.
-- - internal/config/config.go: Config. `load` begins with what the JSON decoder returns; `read` is
--   `limitedReader.Read` over any reader.
-- - internal/proto/redis: Redis. Resp is resp.go; Info, Commands and Session are `buildInfo`,
--   `handleCmd` with `handleConfig`, and `Handler` of handler.go.
-- - internal/proto/mysql/handler.go: Mysql. Packet, Handshake and Session are the packets, the
--   greeting with the parser of its answer, and `Handler`.
-- - internal/proto/postgres/handler.go: Postgres. Message, Startup and Session are the messages,
--   `doStartup` with `parseStartupParams`, and `Handler`.
-- - internal/proto/mongodb/handler.go: Mongodb. Message is `readMessage`, Bson is `parseBSONDoc`
--   with `bsonFirstKey` and `extractString`, Sections the loop over sections of `handleOpMsg`, Json
--   `jsonMarshal`, Encode `encodeBSON`, Reply the replies and their documents, and Session
--   `handleOpQuery`, the rest of `handleOpMsg` and `Handler`. Session/Expected is what a client and
--   the log are to be given, written out without the functions that build events and replies, but
--   for `encodeBSON`.
-- - internal/proto/http/handler.go: Http. Message has requests, responses and the helpers
--   `logHTTPEvent`, `readLimitedBody`, `writeJSON` and `writeJSONWithContentType`; Path is
--   `sanitizePath`. Elasticsearch/Documents and Elasticsearch/Service are the documents and the
--   handlers behind `ServeElasticsearch`, Couchdb those behind `ServeCouchDB`; a table of patterns
--   and handlers is what each gives to the mux. Mux and BasicAuth are `ServeMux` and `BasicAuth` of
--   Go 1.21's `net/http`, as far as the handlers use them, and Serve puts a mux and its handlers
--   together. Elasticsearch/Routing has what the mux redirects.
-- - internal/capture/webhook.go: Capture/Webhook, with `New` of the store, which takes the
--   webhook. Whether a request goes over TLS or in the clear is decided by the scheme of the URL, as
--   in the transport of `net/http`.
-- - cmd/tacoma/main.go: Main. `main` goes from the configuration to the services that are started,
--   each with the server or the arguments that it is given. This is where the parts meet: Services
--   has what holds of each service that is started, Starts what holds of the whole.
-- - internal/fingerprint/fingerprint.go: Fingerprint. `new` is `New`, from what `crypto/rand`
--   returns; `mysql_scramble` is `MySQLScramble`. `PGSalt` and `RandUint32`, which only read bytes,
--   and `UptimeSeconds` are arguments of the handlers.
-- - Common has what the parts share: byte strings with Go's slices and reads (Bytes), UTF-8 as
--   Go decodes it (Utf8), decimals (Decimal), hexadecimal (Hex), JSON (Quote, Json),
--   `int` (Int) and errors (Result).
--
-- A handler sees its connection through Conn: the bytes that the peer will send, the bytes
-- written, how many writes succeed before one fails, how many polls find the context alive, and
-- the events given to the store, which are not yet sanitized. A read past the last byte fails, as
-- it does where the peer closes or a deadline passes; deadlines have no other part in the model.
-- The address of the peer is an argument, as are the values that Go draws at random, the clock,
-- the order in which `range` visits a map, and Unicode's case tables beyond ASCII; so is what
-- `json.Unmarshal` makes of the credentials that are posted to CouchDB, whether `net/http` takes the
-- URL of the webhook, and what the server behind it answers. An index or a slice out of range, and
-- a log on a nil store, is the error `panic`. The Redis counters are shared with other connections;
-- in the model nobody else counts in between.
--
-- Loops run on fuel. A handler's loop has one more than the bytes to come; a round that goes on
-- takes a byte at least, so that is enough, and theorems say so for every input, as for the loop of
-- `doStartup`. `parseStartupParams` has the bytes of the message, and the loops of MongoDB have the
-- bytes of the document or of the payload; more fuel changes nothing there either. All other loops
-- are recursion on the data.
--
-- Not modelled: the servers and the client of `net/http` with their timeouts, what they add to a
-- response, and their requests for `*`; the goroutine in which `Log` runs `send`; and of cmd/tacoma
-- the flags, the signals and the wait for the services.
pub mod Common
pub mod Capture
pub mod Server
pub mod Config
pub mod Fingerprint
pub mod Conn
pub mod Redis
pub mod Mysql
pub mod Postgres
pub mod Mongodb
pub mod Http
pub mod Main
