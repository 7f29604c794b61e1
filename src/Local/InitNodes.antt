-- ===== src/Local/InitNodes.antt =====
-- local/init-nodes.py: the databases of the local nodes and the compose file. A database is the
-- rows of its `settings` table; what docker and 3x-UI make of a node without one is an argument.
-- Directories, printed messages and the arguments of the command line are not modelled.
pub mod Patched
use vpn_control_panel.Prelude.{
  ℕ, List, [], ◌∷◌, ◌++◌, Bool, true, false, not, ◌&&◌, ◌||◌, Option, none, some, Result, ok, err,
  ◌==◌, nat_eq, list_eq, any, contains, filter, map, if◌then◌else◌,
}
use vpn_control_panel.Text.{
  Str, codes, is_empty, strip, strip_by, lstrip, rstrip, is_space, starts_with, partition,
  has_substring, join,
}
use vpn_control_panel.Text.Digits.{show_nat}
use vpn_control_panel.Dict.{Dict, lookup, insert}
use vpn_control_panel.ExternalSubscriptions.Parser.{lines_of}

-- A node of data.local.json; a key may be missing.
pub record LocalNode : Type 0 where
  pub host : Str
  pub port : ℕ
  pub base_path : Option Str
  pub api_token : Option Str

abbrev pub or_missing : Option Str → Str → Str
or_missing none d = d
or_missing (some v) d = v

-- `environ.setdefault(key, value)`
abbrev pub set_default : Str → Str → Dict Str Str → Option Str → Dict Str Str
set_default k v environ (some old) = environ
set_default k v environ none = insert k v environ

abbrev pub clean_value : Str → Str
clean_value v = strip_by (λ c. c == b'\'') (strip_by (λ c. c == b'"') (strip v))

abbrev pub load_line : Str → Dict Str Str → Dict Str Str
load_line line environ =
    let (key, found, value) = partition b'=' line in
    if is_empty line || (starts_with line (codes "#") || not found)
    then environ
    else set_default (strip key) (clean_value value) environ (lookup (strip key) environ)

abbrev pub load_lines : List Str → Dict Str Str → Dict Str Str
load_lines [] environ = environ
load_lines (line ∷ lines) environ = load_lines lines (load_line (strip line) environ)

-- `load_env_file`, of the text of a file that exists
unfoldable pub load_env_file : Str → Dict Str Str → Dict Str Str
unfolding lines_of strip strip_by
load_env_file content = load_lines (lines_of content)

-- `_q`
abbrev escape_quotes : Str → Str
escape_quotes [] = []
escape_quotes (c ∷ s) = if c == b'"' then b'\\' ∷ b'"' ∷ escape_quotes s else c ∷ escape_quotes s

unfoldable pub q : Str → Str
q s = b'"' ∷ (escape_quotes s ++ (b'"' ∷ []))

unfoldable pub is_local_node : LocalNode → Bool
is_local_node node = not (has_substring node.host (codes "."))

abbrev pub Settings : Type 0
Settings = List (Str × Str)

-- `UPDATE settings SET value=? WHERE key=?`
abbrev pub update_rows : Str → Str → Settings → Settings
update_rows k v [] = []
update_rows k v ((j, w) ∷ rows) =
    let rest = update_rows k v rows in if j == k then (j, v) ∷ rest else (j, w) ∷ rest

abbrev pub has_key : Str → Settings → Bool
has_key k rows = any (λ (row : Str × Str). row.0 == k) rows

-- `_upsert`
unfoldable pub upsert : Str → Str → Settings → Settings
upsert k v rows = if has_key k rows then update_rows k v rows else rows ++ ((k, v) ∷ [])

abbrev pub cleared_keys : List Str
cleared_keys =
    codes "webCertFile"
    ∷ codes "webKeyFile"
    ∷ codes "subCertFile"
    ∷ codes "subKeyFile"
    ∷ codes "webDomain"
    ∷ codes "subDomain"
    ∷ codes "webListen"
    ∷ codes "subListen"
    ∷ []

-- `UPDATE settings SET value='' WHERE key IN (...)`
abbrev pub clear_rows : List Str → Settings → Settings
clear_rows keys [] = []
clear_rows keys ((k, v) ∷ rows) =
    let rest = clear_rows keys rows in if contains keys k then (k, []) ∷ rest else (k, v) ∷ rest

-- `patch_db`
unfoldable pub patch_db : LocalNode → Settings → Settings
unfolding upsert
patch_db node rows = upsert (codes "apiToken") (or_missing node.api_token []) (
    upsert (codes "webBasePath") (or_missing node.base_path (codes "/"))
      (upsert (codes "webPort") (show_nat node.port) (clear_rows cleared_keys rows)))

-- The databases of a node.
pub record NodeFiles : Type 0 where
  pub db : Option Settings
  pub backup : Option Settings

pub data InitError : Type 0 where
  db_missing : InitError
  -- docker failed, or the database did not appear
  bootstrap_failed : Str → InitError

abbrev token_of : LocalNode → Str
token_of node = strip (or_missing node.api_token [])

abbrev pub is_placeholder : LocalNode → Bool
is_placeholder node = is_empty (token_of node) || starts_with (token_of node) (codes "change-me")

module _ (bootstrap_db : LocalNode → Result Str Settings) where
  abbrev pub patched : LocalNode → NodeFiles → Option Settings → NodeFiles
  patched node files none = files
  patched node files (some rows) = record files { db = some (patch_db node rows) }

  abbrev pub bootstrapped :
      LocalNode → NodeFiles → Result Str Settings → Result InitError (Unit {0}) × NodeFiles
  bootstrapped node files (err e) = (err (bootstrap_failed e), files)
  bootstrapped node files (ok rows) = (ok tt, patched node files (some rows))

  -- `seed_from_backup`, and without a backup `bootstrap_db`
  abbrev pub create_db :
      LocalNode → NodeFiles → Option Settings → Result InitError (Unit {0}) × NodeFiles
  create_db node files (some rows) = (ok tt, patched node files (some rows))
  create_db node files none = bootstrapped node files (bootstrap_db node)

  abbrev pub restored : NodeFiles → Option Settings → Option Settings
  restored files none = files.db
  restored files (some rows) = some rows

  abbrev pub open_db :
      LocalNode
      → Bool
      → Bool
      → NodeFiles
      → Option Settings
      → Result InitError (Unit {0}) × NodeFiles
  open_db node restore true files none = (err db_missing, files)
  open_db node restore false files none = create_db node files files.backup
  open_db node true patch_only files (some rows) =
      (ok tt, patched node files (restored files files.backup))
  open_db node false patch_only files (some rows) = (ok tt, patched node files (some rows))

  -- `init_node`, with `restore` and `patch_only`
  unfoldable pub init_node :
      LocalNode → Bool → Bool → NodeFiles → Result InitError (Unit {0}) × NodeFiles
  unfolding patch_db strip
  init_node node restore patch_only files =
      if is_placeholder node then (ok tt, files) else open_db node restore patch_only files files.db

-- `generate_compose`: the lines of a node, and the file.
module _ (root tag env_file http_port : Str) where
  abbrev node_dir : LocalNode → Str
  node_dir node = root ++ (codes "/local/nodes/" ++ node.host)

  unfoldable pub service_lines : LocalNode → List Str
  unfolding q
  service_lines node =
      []
      ∷ (codes "  " ++ (node.host ++ codes ":"))
      ∷ (codes "    image: " ++ q (codes "ghcr.io/mhsanaei/3x-ui:" ++ tag))
      ∷ (codes "    container_name: " ++ q (codes "xui-local-" ++ node.host))
      ∷ (codes "    hostname: " ++ q node.host)
      ∷ codes "    ports:"
      ∷ (codes "      - "
          ++ q (codes "127.0.0.1:" ++ (show_nat node.port ++ (codes ":" ++ show_nat node.port))))
      ∷ codes "    volumes:"
      ∷ (codes "      - " ++ q (node_dir node ++ codes "/db:/etc/x-ui"))
      ∷ (codes "      - " ++ q (node_dir node ++ codes "/certs:/root/cert:ro"))
      ∷ codes "    environment:"
      ∷ codes "      XRAY_VMESS_AEAD_FORCED: \"false\""
      ∷ codes "    restart: unless-stopped"
      ∷ []

  abbrev all_services : List LocalNode → List Str
  all_services [] = []
  all_services (node ∷ nodes) = service_lines node ++ all_services nodes

  unfoldable pub generate_compose : List LocalNode → Str
  unfolding service_lines is_local_node q
  generate_compose nodes =
      let local_nodes = filter is_local_node nodes in
      join (10 ∷ []) (
        (codes "# AUTO-GENERATED by local/init-nodes.py — do not edit by hand."
          ∷ codes "# Source: data.local.json   Regenerated on every make init-local / run-local."
          ∷ codes "services:"
          ∷ all_services local_nodes)
        ++ ([]
            ∷ codes "  app:"
            ∷ codes "    build:"
            ∷ (codes "      context: " ++ q root)
            ∷ codes "      target: app"
            ∷ codes "    container_name: vpn-cp-local"
            ∷ (codes "    env_file: " ++ q env_file)
            ∷ codes "    environment:"
            ∷ codes "      VPN_DATA_FILE: /app/data/data.local.json"
            ∷ codes "    ports:"
            ∷ (codes "      - "
                ++ q (codes "127.0.0.1:" ++ (http_port ++ (codes ":" ++ http_port))))
            ∷ codes "    volumes:"
            ∷ (codes "      - " ++ q (env_file ++ codes ":/app/.env:ro"))
            ∷ (codes "      - " ++ q (root ++ codes ":/app/data"))
            ∷ codes "    depends_on:"
            ∷ (map (λ (node : LocalNode). codes "      - " ++ node.host) local_nodes
                ++ (codes "    restart: unless-stopped" ∷ []))))
      ++ (10 ∷ [])
