-- ===== src/Main/Starts.antt =====
-- What `main` starts from a configuration that loads.
use white_toyota_tacoma.Common.{◌≡◌, true, false, Option, none, some}
use white_toyota_tacoma.Common.Bytes.{Bytes}
use white_toyota_tacoma.Common.Result.{Result}
use white_toyota_tacoma.Capture.Webhook as Webhook
use white_toyota_tacoma.Capture.Webhook.{WebhookClient, new_webhook}
use white_toyota_tacoma.Capture.Webhook.Sent.{IsVerifying}
use white_toyota_tacoma.Config.{Config}
use white_toyota_tacoma.Fingerprint as Fingerprint
use white_toyota_tacoma.Fingerprint.{Fp}

-- The webhook is the one that is configured, and it verifies the certificate of a server that it
-- reaches by `https`.
abbrev pub IsHooked : Config → Option WebhookClient → Type 0
IsHooked cfg none = cfg.webhook.enabled ≡ false
IsHooked cfg (some w) =
    (cfg.webhook.enabled ≡ true)
    × (w.url ≡ cfg.webhook.url)
    × (w.auth_header ≡ cfg.webhook.auth_header)
    × IsVerifying w
