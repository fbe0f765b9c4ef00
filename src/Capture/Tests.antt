-- ===== src/Capture/Tests.antt =====
-- The capture of small events.
use white_toyota_tacoma.Common.{
  List, map, ◌+◌, ◌*◌, ◌≡◌, refl, Bool, true, false, not, none, some, [], ◌∷◌, ◌++◌, if◌then◌else◌,
  take, length, All, arith,
}
use white_toyota_tacoma.Common.Bytes.{Bytes, codes, same}
use white_toyota_tacoma.Common.Utf8.{runes}
use white_toyota_tacoma.Capture.{Event, no_event, Store, log, sanitize_str}
use white_toyota_tacoma.Capture.Sanitize.{IsPrintable, sanitize_str-IsPrintable}
use white_toyota_tacoma.Common.Result.{ok}
use white_toyota_tacoma.Capture.Webhook.{WebhookClient, has_scheme, new_webhook, new, send}
use white_toyota_tacoma.Capture.Webhook.Sent.{post_of, joined, line_of, channel_for, log_all-send}
use white_toyota_tacoma.Common.Quote.{json_string}
use white_toyota_tacoma.Common.Quote.Reader.{read_string}
use white_toyota_tacoma.Capture.Growth.{log_all_stray}
use white_toyota_tacoma.Capture.Readable.{
  password, payload, text_of, key_of, log_all, log_all_reads_back,
}
use white_toyota_tacoma.Capture.Line.{line_count, log_one_line}

-- A name with a line feed, an escape and a byte that is not UTF-8.
abbrev name : Bytes
name = 114 ∷ 10 ∷ 27 ∷ 255 ∷ 116 ∷ []

abbrev event : Event
event = record no_event { username = name; command = codes "SET\nx" }

abbrev store : Store
store = record { file = codes "{}\n"; webhook = true; sent = [] }

cleaned : sanitize_str name ≡ 114 ∷ 239 ∷ 191 ∷ 189 ∷ 116 ∷ []
unfolding sanitize_str
cleaned = refl

sanitize_str-IsPrintable_example : All IsPrintable (runes (sanitize_str name))
sanitize_str-IsPrintable_example = sanitize_str-IsPrintable name

log_one_line_example :
    (line_count (log (codes "t") none store event).file ≡ line_count store.file + 1)
    × (line : Bytes) × ((log (codes "t") none store event).file ≡ store.file ++ line)
    × ((log (codes "t") none store event).sent
        ≡ (if store.webhook then store.sent ++ line ∷ [] else store.sent))
log_one_line_example = log_one_line (codes "t") store event

abbrev siem : Bytes
siem = codes "https://siem.example/in"

abbrev two : List (Bytes × Event)
two = (codes "1", event) ∷ (codes "2", no_event) ∷ []

abbrev https : Bytes → Bool
https url = same (take 8 url) (codes "https://")

log_all-send_example :
    (w : WebhookClient) × (s : Store) × (new_webhook siem [] false ≡ ok (w, not false))
    × (new (some (codes "{}\n")) (some w) ≡ ok s)
    × ((log_all two s).file ≡ codes "{}\n" ++ joined (map line_of two))
    × ((log_all two s).sent ≡ map line_of two)
    × All
        (λ line.
          (send https (λ p. some 200) w line).0 ≡ some (post_of siem [] line, channel_for siem))
        (log_all two s).sent
unfolding same has_scheme
log_all-send_example = log_all-send siem [] (codes "{}\n") false two https (λ p. some 200) refl refl

-- A password that tries to end its string.
abbrev forged : Event
forged = record no_event { password = codes "x\",\"src_ip\":\"10.0.0.1\n" }

log_all_reads_back_example :
    (before behind : Bytes) × ((log_all
        ((codes "1", event) ∷ (codes "2", forged) ∷ (codes "3", event) ∷ [])
        store).file
      ≡ before
        ++ (key_of password ++ (json_string (sanitize_str (text_of password forged)) ++ behind)))
    × (read_string (json_string (sanitize_str (text_of password forged)) ++ behind)
        ≡ some (sanitize_str (text_of password forged), behind))
unfolding sanitize_str
log_all_reads_back_example =
    log_all_reads_back ((codes "1", event) ∷ []) ((codes "3", event) ∷ []) store (codes "2") forged
      password (λ e. cc)

-- Bytes that are not UTF-8.
abbrev stray : Event
stray = record no_event { payload = 0xff ∷ 0x80 ∷ 0xc1 ∷ [] }

log_all_stray_example :
    (before shown behind : Bytes) × ((log_all
        ((codes "1", event) ∷ (codes "2", stray) ∷ [])
        store).file
      ≡ before ++ (key_of payload ++ (json_string shown ++ behind)))
    × (read_string (json_string shown ++ behind) ≡ some (shown, behind))
    × (length shown ≡ 3 * 3)
log_all_stray_example =
    log_all_stray ((codes "1", event) ∷ []) [] store (codes "2") stray payload (omega arith)
      (omega arith) (omega arith)
