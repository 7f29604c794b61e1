-- ===== src/Reports.antt =====
-- reports/telegram.py: the backup that is sent to every administrator.
use vpn_control_panel.Prelude.{List, [], ◌∷◌, Option, none, some, Result, ok, err}
use vpn_control_panel.Text.{Str}
use vpn_control_panel.Json.{ℤ}
use vpn_control_panel.Regex.{Regex}
use vpn_control_panel.Action.{Action, pure, raise, lift, ◌>>=◌, ◌>>◌}
use vpn_control_panel.Data.Models.{NodeRecord, ControlPlaneState}
use vpn_control_panel.Data.Errors.{ValidationError}
use vpn_control_panel.Data.Store.{load_nodes}
use vpn_control_panel.Backup.{SecretsBackupError, BackupError, secrets_failed, uncaught}
use vpn_control_panel.Backup.Nodes.{Bytes}
use vpn_control_panel.Monitoring.Notifier.{sorted}

pub data ReportError : Type 0 where
  secrets : SecretsBackupError → ReportError
  backup_raised : Str → ReportError
  store : ValidationError → ReportError
  -- an administrator's id that is no number, and an exception of the messenger
  not_a_number : Str → ReportError
  telegram : Str → ReportError

-- The backup of these nodes, `int` of a text and the sending of a document are arguments.
module _ {W : Type 0} (build_backup : List NodeRecord → W → Result BackupError Bytes × W)
    (int_of : Str → Option ℤ) (send_document : ℤ → Bytes → Action W Str (Unit {0})) where
  abbrev of_store {ℓ} : {A : Type ℓ} → Result ValidationError A → Result ReportError A
  of_store (ok a) = ok a
  of_store (err e) = err (store e)

  abbrev of_backup : Result BackupError Bytes → Result ReportError Bytes
  of_backup (ok b) = ok b
  of_backup (err (secrets_failed e)) = err (secrets e)
  of_backup (err (uncaught e)) = err (backup_raised e)

  abbrev of_telegram : Result Str (Unit {0}) → Result ReportError (Unit {0})
  of_telegram (ok u) = ok u
  of_telegram (err e) = err (telegram e)

  abbrev built : List NodeRecord → Action W ReportError Bytes
  built nodes w = let (r, w') = build_backup nodes w in (of_backup r, w')

  abbrev sent : Action W Str (Unit {0}) → Action W ReportError (Unit {0})
  sent m w = let (r, w') = m w in (of_telegram r, w')

  abbrev send_to : Bytes → Str → Option ℤ → Action W ReportError (Unit {0})
  send_to backup admin none = raise (not_a_number admin)
  send_to backup admin (some chat) = sent (send_document chat backup)

  abbrev send_each : Bytes → List Str → Action W ReportError (Unit {0})
  send_each backup [] = pure tt
  send_each backup (admin ∷ admins) = do
    send_to backup admin (int_of admin)
    send_each backup admins

  unfoldable pub send_telegram_backup_report :
      Regex → List Str → ControlPlaneState → Action W ReportError (Unit {0})
  unfolding load_nodes
  send_telegram_backup_report regex admins file = do
    nodes ← lift (of_store (load_nodes regex file))
    backup ← built nodes
    send_each backup (sorted admins)

  abbrev but_for_secrets : Result ReportError (Unit {0}) → Result ReportError (Unit {0})
  but_for_secrets (ok u) = ok u
  but_for_secrets (err (secrets e)) = ok tt
  but_for_secrets (err e) = err e

  -- A failure of the encryption is only logged.
  unfoldable pub send_telegram_backup_report_to_admins :
      Regex → List Str → ControlPlaneState → Action W ReportError (Unit {0})
  unfolding send_telegram_backup_report
  send_telegram_backup_report_to_admins regex admins file w =
      let (r, w') = send_telegram_backup_report regex admins file w in (but_for_secrets r, w')
