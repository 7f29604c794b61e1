-- ===== src/Backup.antt =====
-- src/vpn_control_plane/backup: what goes into a backup. An archive is the list of its entries, in
-- order; packing it, encrypting with `age` and the characters that are letters or digits are
-- arguments, and so are the calls of a panel's client. A backup ends with what its caller handles,
-- the failure to encrypt, or with an exception that nobody catches.
pub mod Nodes
use vpn_control_panel.Prelude.{
  ℕ, List, [], ◌∷◌, ◌++◌, Bool, true, false, Option, none, some, Result, ok, err, ◌>>=◌,
  if◌then◌else◌,
}
use vpn_control_panel.Text.{Str, codes, strip, is_empty}
use vpn_control_panel.Data.Models.{NodeRecord}
use vpn_control_panel.Backup.Nodes.{Bytes, BackupFile, Downloads, collect_node_backup_files}

pub data SecretsBackupError : Type 0 where
  empty_key : SecretsBackupError
  no_env_file : SecretsBackupError
  -- `age` is missing, or it failed with this message
  encryption_failed : Str → SecretsBackupError

abbrev pub encryption {ℓ} : {A : Type ℓ} → Result Str A → Result SecretsBackupError A
encryption (ok a) = ok a
encryption (err e) = err (encryption_failed e)

-- What is left of a backup after its secrets: a file, or that the loop over the nodes raised.
pub data BackupError : Type 0 where
  secrets_failed : SecretsBackupError → BackupError
  uncaught : Str → BackupError

abbrev some_file : Option Bytes → Result SecretsBackupError Bytes
some_file none = err no_env_file
some_file (some b) = ok b

abbrev file_entry : Str → Option Bytes → List BackupFile
file_entry name none = []
file_entry name (some b) = (name, b) ∷ []

module _ (pack : List BackupFile → Bytes) (encrypt : Bytes → Str → Result Str Bytes) where
  -- `env_file` is the file's content, if it is there.
  unfoldable pub build_encrypted_env_backup : Option Bytes → Str → Result SecretsBackupError Bytes
  unfolding strip
  build_encrypted_env_backup env_file key = if is_empty (strip key) then err empty_key else do
    content ← some_file env_file
    encryption (encrypt (pack ((codes ".env", content) ∷ [])) key)

  abbrev encrypted_entry : Option Bytes → Option Str → Result SecretsBackupError (List BackupFile)
  encrypted_entry env_file none = ok []
  encrypted_entry env_file (some []) = ok []
  encrypted_entry env_file (some (c ∷ key)) = do
    bytes ← build_encrypted_env_backup env_file (c ∷ key)
    ok ((codes "env.encrypted", bytes) ∷ [])

  abbrev packed :
      (List BackupFile → List BackupFile) → Result Str (List BackupFile) → Result BackupError Bytes
  packed entries (err e) = err (uncaught e)
  packed entries (ok files) = ok (pack (entries files))

  module _ (D : Downloads) where
    abbrev with_nodes :
        List NodeRecord
        → List BackupFile
        → D.World
        → Result SecretsBackupError (List BackupFile)
        → Result BackupError Bytes × D.World
    with_nodes nodes first w (err e) = (err (secrets_failed e), w)
    with_nodes nodes first w (ok secrets) =
        let (r, w') = collect_node_backup_files D nodes w in
        (packed (λ files. first ++ (secrets ++ files)) r, w')

    -- The data file, the encrypted environment file where a key is set, and the files of the nodes.
    -- No panel is asked where the encryption fails.
    unfoldable pub build_control_plane_backup :
        Option Bytes
        → Option Bytes
        → Option Str
        → List NodeRecord
        → D.World
        → Result BackupError Bytes × D.World
    unfolding build_encrypted_env_backup collect_node_backup_files
    build_control_plane_backup data_file env_file key nodes w =
        with_nodes nodes (file_entry (codes "data.json") data_file) w (encrypted_entry env_file key)

    -- `build_node_backup_archive`
    unfoldable pub build_node_backup_archive :
        List NodeRecord → D.World → Result BackupError Bytes × D.World
    unfolding collect_node_backup_files
    build_node_backup_archive nodes w =
        let (r, w') = collect_node_backup_files D nodes w in (packed (λ files. files) r, w')

  unfoldable pub build_data_backup : Option Bytes → Bytes
  build_data_backup data_file = pack (file_entry (codes "data.json") data_file)
