-- ===== src/TurnFlow/Tests.antt =====
-- Runs of the admission of turns on concrete transcripts.
use stellar_voice_control_pr.Common.{◌≡◌, refl, some}
use stellar_voice_control_pr.Common.Text.{codes, skip_spaces}
use stellar_voice_control_pr.TurnFlow.{TurnTicket, TurnFlow, trim, trim_end}

trim_run : trim (codes "  send five ") ≡ codes "send five"
unfolding trim trim_end skip_spaces
trim_run = refl

abbrev second : TurnFlow
second = record { generation = 2; in_flight = some (codes "pay Ali") }

abbrev first_ticket : TurnTicket
first_ticket = record { generation = 1; transcript = codes "send five" }
