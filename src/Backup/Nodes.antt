-- ===== src/Backup/Nodes.antt =====
-- `collect_node_backup_files` and `_backup_filename_part` of backup/nodes.py.
pub mod Complete
use vpn_control_panel.Prelude.{
  ℕ, List, [], ◌∷◌, ◌++◌, Bool, true, false, not, ◌||◌, Option, none, some, Result, ok, err, map,
  ◌==◌, nat_eq, if◌then◌else◌,
}
use vpn_control_panel.Text.{Str, codes, strip_by, join, or_text}
use vpn_control_panel.Text.Digits.{show_nat}
use vpn_control_panel.Action.{Action, ◌>>=◌, pure}
use vpn_control_panel.Data.Models.{NodeRecord}

abbrev pub Bytes : Type 0
Bytes = List ℕ

abbrev pub BackupFile : Type 0
BackupFile = Str × Bytes

pub record Downloads : Type 1 where
  pub World : Type 0
  -- making a panel's client, and closing it; where it has no `close` there is nothing to raise
  pub open_client : NodeRecord → Action World Str (Unit {0})
  pub close : NodeRecord → Action World Str (Unit {0})
  pub get_database_backup : NodeRecord → Action World Str Bytes
  pub get_config_json_backup : NodeRecord → Action World Str Bytes
  pub is_alnum : ℕ → Bool
  pub encode_utf8 : Str → Bytes

module _ (D : Downloads) where
  abbrev is_plain : ℕ → Bool
  is_plain c = D.is_alnum c || (c == b'.' || (c == b'-' || c == b'_'))

  abbrev is_trimmed : ℕ → Bool
  is_trimmed c = c == b'.' || (c == b'_' || c == b'-')

  unfoldable pub backup_filename_part : Str → Str
  unfolding strip_by
  backup_filename_part value =
      or_text (strip_by is_trimmed (map (λ c. if is_plain c then c else b'_') value)) (codes "node")

  abbrev pub prefix_of : NodeRecord → Str
  prefix_of node = backup_filename_part node.host ++ (b'-' ∷ show_nat node.id)

  -- Both downloads of a node; the second is not tried where the first fails.
  unfoldable pub fetch_node : NodeRecord → Action D.World Str (Bytes × Bytes)
  fetch_node node = do
    database ← D.get_database_backup node
    config ← D.get_config_json_backup node
    pure (database, config)

  abbrev pub files_of : NodeRecord → Result Str (Bytes × Bytes) → List BackupFile
  files_of node (err e) = []
  files_of node (ok (database, config)) =
      (prefix_of node ++ codes "-x-ui.db", database)
      ∷ (prefix_of node ++ codes "-xray-config.json", config)
      ∷ []

  abbrev pub errors_of : NodeRecord → Result Str (Bytes × Bytes) → List Str
  errors_of node (err e) =
      (codes "node " ++ (show_nat node.id ++ (codes " (" ++ (node.host ++ (codes "): " ++ e)))))
      ∷ []
  errors_of node (ok r) = []

  -- A round of the loop: the client is closed whether the downloads succeed or not, and an
  -- exception of making it or of closing it ends the loop.
  abbrev pub closed :
      Result Str (Bytes × Bytes)
      → Result Str (Unit {0}) × D.World
      → Result Str (Result Str (Bytes × Bytes)) × D.World
  closed r (ok u, w) = (ok r, w)
  closed r (err e, w) = (err e, w)

  abbrev pub fetched :
      NodeRecord
      → Result Str (Unit {0}) × D.World
      → Result Str (Result Str (Bytes × Bytes)) × D.World
  fetched node (err e, w) = (err e, w)
  fetched node (ok u, w) = let (r, v) = fetch_node node w in closed r (D.close node v)

  unfoldable pub visit : NodeRecord → Action D.World Str (Result Str (Bytes × Bytes))
  unfolding fetch_node
  visit node w = fetched node (D.open_client node w)

  -- The loop, with `files` and `errors`.
  unfoldable pub collect :
      List NodeRecord → List BackupFile → List Str → Action D.World Str (List BackupFile × List Str)
  unfolding visit
  collect [] files errors = pure (files, errors)
  collect (node ∷ nodes) files errors = do
    r ← visit node
    collect nodes (files ++ files_of node r) (errors ++ errors_of node r)

  abbrev pub error_file : List Str → List BackupFile
  error_file [] = []
  error_file (e ∷ es) =
      (codes "node-backup-errors.txt", D.encode_utf8 (join (10 ∷ []) (e ∷ es) ++ (10 ∷ []))) ∷ []

  unfoldable pub collect_node_backup_files : List NodeRecord → Action D.World Str (List BackupFile)
  unfolding collect
  collect_node_backup_files nodes = do
    (files, errors) ← collect nodes [] []
    pure (files ++ error_file errors)
