-- ===== src/Capture/Webhook.antt =====
-- The webhook: internal/capture/webhook.go, and `New` of internal/capture/store.go, which is given
-- it. Whether a URL is one, and what the server behind it answers, are arguments.
pub mod Sent
use white_toyota_tacoma.Common.{
  ℕ, Bool, true, false, not, Option, none, some, List, [], ◌∷◌, ltb, leb, ◌+◌, ◌&&◌, if◌then◌else◌,
  take, length, map,
}
use white_toyota_tacoma.Common.Bytes.{Bytes, codes, same}
use white_toyota_tacoma.Common.Result.{Result, ok, Error, failure, ◌>>=◌, ◌>>◌, reject, or_fail}
use white_toyota_tacoma.Capture.{Store}

-- `webhookClient`, with what is set of its `http.Client`.
pub record WebhookClient : Type 0 where
  pub url : Bytes
  pub auth_header : Bytes
  -- `Timeout`
  pub timeout_secs : ℕ
  -- `MinVersion` and `InsecureSkipVerify` of the `tls.Config`; the latter is left at its zero value.
  pub min_version : ℕ
  pub insecure_skip_verify : Bool

abbrev pub version_tls12 : ℕ
version_tls12 = 0x0303

-- `NewWebhook`, and whether it logs a warning.
unfoldable pub new_webhook : Bytes → Bytes → Bool → Result (WebhookClient × Bool)
new_webhook url auth_header tls_verify = do
  reject (same url []) (failure "webhook url must not be empty")
  ok (
    record {
      url = url;
      auth_header = auth_header;
      timeout_secs = 10;
      min_version = version_tls12;
      insecure_skip_verify = false;
    },
    not tls_verify,
  )

-- `New`, from what the log file holds, which is `none` where it does not open.
unfoldable pub new : Option Bytes → Option WebhookClient → Result Store
new opened wh = do
  file ← or_fail opened (failure "open log: %w")
  ok (record { file = file; webhook = elim wh [ none ↦ false | some w ↦ true ]; sent = [] })

-- A POST request.
pub record Post : Type 0 where
  pub url : Bytes
  pub headers : List (Bytes × Bytes)
  pub body : Bytes

unfoldable pub request : WebhookClient → Bytes → Post
request w body = record {
  url = w.url;
  headers =
      (codes "Content-Type", codes "application/json")
      ∷ (if same w.auth_header [] then [] else (codes "Authorization", w.auth_header) ∷ []);
  body = body;
}

-- What carries a request: a connection in the clear, or TLS of this version at least, with the
-- certificate of the server verified or not.
pub data Channel : Type 0 where
  cleartext : Channel
  tls : ℕ → Bool → Channel

abbrev lower : ℕ → ℕ
lower c = if leb b'A' c && leb c b'Z' then c + 32 else c

-- Whether the URL begins with a scheme, which is compared without its case.
unfoldable pub has_scheme : Bytes → Bytes → Bool
has_scheme url scheme = same (map lower (take (length scheme) url)) scheme

-- The transport of `net/http` reads the scheme: its `tls.Config` is for `https` alone, `http` has no
-- TLS, and no other scheme is sent at all.
unfoldable pub channel_of : WebhookClient → Option Channel
channel_of w =
    if has_scheme w.url (codes "https://")
    then some (tls w.min_version (not w.insecure_skip_verify))
    else if has_scheme w.url (codes "http://")
    then some cleartext
    else none

-- How `send` ends: but for the last, with a line of the log.
pub data Outcome : Type 0 where
  no_request no_response : Outcome
  refused : ℕ → Outcome
  delivered : Outcome

-- What the server answers: its status, or `none` for an error.
answered : Option ℕ → Outcome
answered none = no_response
answered (some status) = if ltb status 400 then delivered else refused status

-- `client.Do`, on a channel: what is sent, and the outcome.
carried : (Post → Option ℕ) → Post → Option Channel → Option (Post × Channel) × Outcome
unfolding answered
carried server p none = (none, no_response)
carried server p (some c) = (some (p, c), answered (server p))

-- `send`: the request that is sent and how, if one is, and the outcome. `valid` is whether
-- `http.NewRequest` takes the URL.
unfoldable pub send :
    (Bytes → Bool) → (Post → Option ℕ) → WebhookClient → Bytes → Option (Post × Channel) × Outcome
unfolding request carried channel_of
send valid server w body =
    if valid w.url then carried server (request w body) (channel_of w) else (none, no_request)
