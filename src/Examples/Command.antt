-- ===== src/Examples/Command.antt =====
-- The command on a stored projection of an identity that should not exist.
use deterministic_identity_r.Prelude.{◌≡◌, ◌↔◌, true, false, [], ok}
use deterministic_identity_r.Prelude.Int.{pos}
use deterministic_identity_r.Prelude.Text.{text}
use deterministic_identity_r.Reconcile.Model.{DesiredState}
use deterministic_identity_r.Postgres.Tables.{answered}
use deterministic_identity_r.Postgres.Projections.{state_row, projection_of}
use deterministic_identity_r.Postgres.Locked.{Transaction}
use deterministic_identity_r.Command.{process, nothing_to_do, report_of}
use deterministic_identity_r.Command.Preview.{process-agrees}
use deterministic_identity_r.Examples.Store.{server, at_sequence}
use deterministic_identity_r.Examples.Targets.{account, seen}

abbrev smooth : Transaction
smooth = record { begins = true; loads = answered; commits = true }

abbrev loaded : DesiredState
loaded = projection_of (text "u") (state_row (pos 4) (at_sequence (pos 2)))

process-agrees_example :
    (process account (text "u") [] false loaded seen
      ≡ (ok (report_of account (text "u") [] false loaded nothing_to_do), seen))
    ↔ (process account (text "u") [] true loaded seen
        ≡ (ok (report_of account (text "u") [] true loaded nothing_to_do), seen))
process-agrees_example = process-agrees account (text "u") [] loaded seen seen
