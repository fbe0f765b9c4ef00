-- ===== src/Capture/Webhook/Sent.antt =====
-- From an event to the request of the webhook.
use white_toyota_tacoma.Common.{
  inl, inr, Bool-cases, map, sym, ap, ◌∙◌, ◌||◌, append-nil, append_assoc, All, ℕ, ◌≡◌, ◌≢◌, refl,
  Bool, true, false, not, Option, none, some, List, [], ◌∷◌, ◌++◌, if◌then◌else◌,
}
use white_toyota_tacoma.Common.Bytes.{Bytes, codes, same}
use white_toyota_tacoma.Common.Result.{ok}
use white_toyota_tacoma.Capture.{Event, Store, sanitize, marshal, log}
use white_toyota_tacoma.Capture.Readable.{log_all}
use white_toyota_tacoma.Capture.Webhook.{
  Channel, cleartext, tls, has_scheme, channel_of, carried, WebhookClient, new_webhook, new, Post,
  request, send,
}

-- A client that verifies the certificate of its server, over TLS 1.2 or later.
abbrev pub IsVerifying : WebhookClient → Type 0
IsVerifying w = (w.insecure_skip_verify ≡ false) × (w.min_version ≡ 0x0303)

-- With a URL there is a client for it, and it verifies whatever the configuration asks for.
pub new_webhook-eq-ok :
    (url auth_header : Bytes) (tls_verify : Bool)
    → url ≢ []
    → (w : WebhookClient) × (new_webhook url auth_header tls_verify ≡ ok (w, not tls_verify))
      × (w.url ≡ url)
      × (w.auth_header ≡ auth_header)
      × IsVerifying w
unfolding new_webhook same
new_webhook-eq-ok [] auth_header tls_verify h = absurd (h refl)
new_webhook-eq-ok (b ∷ url) auth_header tls_verify h = (_, refl, refl, refl, (refl, refl))

-- What the server of the webhook should get.
abbrev pub post_of : Bytes → Bytes → Bytes → Post
post_of url auth_header line = record {
  url = url;
  headers =
      (codes "Content-Type", codes "application/json")
      ∷ (if same auth_header [] then [] else (codes "Authorization", auth_header) ∷ []);
  body = line;
}

-- The lines that events make, each at its time.
abbrev pub line_of : Bytes × Event → Bytes
line_of (now, e) = marshal (sanitize (record e { timestamp = now })) ++ 10 ∷ []

abbrev pub joined : List Bytes → Bytes
joined [] = []
joined (line ∷ lines) = line ++ joined lines

-- A URL of the web goes over TLS if it says so.
abbrev pub channel_for : Bytes → Channel
channel_for url = if has_scheme url (codes "https://") then tls 0x0303 true else cleartext

abbrev pub IsWeb : Bytes → Type 0
IsWeb url = (has_scheme url (codes "https://") || has_scheme url (codes "http://")) ≡ true

log_all-lines :
    (es : List (Bytes × Event)) (s : Store)
    → s.webhook ≡ true
    → ((log_all es s).file ≡ s.file ++ joined (map line_of es))
      × ((log_all es s).sent ≡ s.sent ++ map line_of es)
unfolding log
log_all-lines [] s h = (sym (append-nil s.file), sym (append-nil s.sent))
log_all-lines ((now, e) ∷ es) s h =
    let (f, q) = log_all-lines es (log now none s e) h in
    let line = line_of (now, e) in
    (
      f ∙ append_assoc s.file line (joined (map line_of es)),
      q
          ∙ ap (λ b. (if b then s.sent ++ line ∷ [] else s.sent) ++ map line_of es) h
          ∙ append_assoc s.sent (line ∷ []) (map line_of es),
    )

send-eq-some :
    (valid : Bytes → Bool) (server : Post → Option ℕ) (w : WebhookClient) (line : Bytes)
    → valid w.url ≡ true
    → IsWeb w.url
    → IsVerifying w
    → (send valid server w line).0 ≡ some (post_of w.url w.auth_header line, channel_for w.url)
unfolding send request channel_of carried
send-eq-some valid server w line v web (skip, version) =
    rw (v, skip, version)
      (elim (Bool-cases (has_scheme w.url (codes "https://"))) [
        | inl e ↦ rw e refl
        | inr e ↦ let plain = rw e at web in rw e (rw plain refl)
      ])

IsWeb-ne-nil : (url : Bytes) → IsWeb url → url ≢ []
unfolding has_scheme same
IsWeb-ne-nil [] h e = cc
IsWeb-ne-nil (b ∷ url) h e = cc

every : (P : Bytes → Type 0) (lines : List Bytes) → ((line : Bytes) → P line) → All P lines
every P [] h = tt
every P (line ∷ lines) h = (h line, every P lines h)

-- With a URL of the web, `NewWebhook` gives a client. Whatever events are then logged to a file that
-- takes them, behind what it holds, the webhook is handed exactly their lines, in order, and each is
-- posted as it stands in the file, with the header for the authorization if one is set. Where the
-- URL says `https`, it goes over TLS 1.2 or later with the certificate of the server verified,
-- whatever the configuration asks for; where it says `http`, it goes in the clear. `net/http` must
-- take the URL.
pub log_all-send :
    (url auth_header contents : Bytes) (tls_verify : Bool) (es : List (Bytes × Event))
    (valid : Bytes → Bool) (server : Post → Option ℕ)
    → IsWeb url
    → valid url ≡ true
    → (w : WebhookClient) × (s : Store) × (new_webhook url auth_header tls_verify
        ≡ ok (w, not tls_verify))
      × (new (some contents) (some w) ≡ ok s)
      × ((log_all es s).file ≡ contents ++ joined (map line_of es))
      × ((log_all es s).sent ≡ map line_of es)
      × All
          (λ line.
            (send valid server w line).0 ≡ some (post_of url auth_header line, channel_for url))
          (log_all es s).sent
unfolding new
log_all-send url auth_header contents tls_verify es valid server web v =
    let (w, q, u, a, verifying) =
      new_webhook-eq-ok url auth_header tls_verify (IsWeb-ne-nil url web) in
    let s : Store = record { file = contents; webhook = true; sent = [] } in
    let (f, lines) = log_all-lines es s refl in
    let posted = λ (line : Bytes).
      rw (u, a) at (send-eq-some valid server w line (rw u v) (rw u web) verifying) in
    (w, s, q, refl, f, lines, every _ (log_all es s).sent posted)
