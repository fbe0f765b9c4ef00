-- ===== src/Fingerprint/Tests.antt =====
-- Identifiers from fixed draws.
use white_toyota_tacoma.Common.{[]}
use white_toyota_tacoma.Fingerprint.{new}
use white_toyota_tacoma.Fingerprint.Formed.{IsFormed, new-IsFormed}
use white_toyota_tacoma.Fingerprint.Sample.{drawn, drawn-IsDrawn}

new-IsFormed_example : IsFormed (new [] drawn)
new-IsFormed_example = new-IsFormed [] drawn drawn-IsDrawn
