-- ===== src/Tests/LocalTests.antt =====
-- Examples on the databases of the local nodes.
use vpn_control_panel.Prelude.{
  [], ◌∷◌, ◌≡◌, refl, ◌⊎◌, true, false, none, some, Result, ok, nat_eq, list_eq,
}
use vpn_control_panel.Text.{Str, codes, strip, strip_by, lstrip, rstrip, is_space}
use vpn_control_panel.Text.Digits.{show_nat}
use vpn_control_panel.Dict.{Dict, lookup}
use vpn_control_panel.Local.InitNodes.{LocalNode, Settings, NodeFiles, is_placeholder, init_node}
use vpn_control_panel.Local.InitNodes.Patched.{init_node-patched}

abbrev bootstrap_db : LocalNode → Result Str Settings
bootstrap_db node = ok []

abbrev node : LocalNode
node = record { host = codes "n"; port = 2053; base_path = none; api_token = some (codes "t") }

abbrev files : NodeFiles
files = record {
  db = some ((codes "webPort", codes "1") ∷ (codes "subDomain", codes "d") ∷ []);
  backup = none;
}

real : is_placeholder node ≡ false
unfolding strip strip_by lstrip rstrip is_space
real = refl

returned : (init_node bootstrap_db node false true files).0 ≡ ok tt
unfolding init_node strip strip_by lstrip rstrip is_space
returned = refl

init_node-patched_example :
    (rows : Settings) × ((init_node bootstrap_db node false true files).1.db ≡ some rows)
    × (lookup (codes "apiToken") rows ≡ some (codes "t"))
    × (lookup (codes "webPort") rows ≡ some (show_nat 2053))
    × (lookup (codes "webBasePath") rows ≡ some (codes "/"))
    × ((lookup (codes "subDomain") rows ≡ none) ⊎ (lookup (codes "subDomain") rows ≡ some []))
init_node-patched_example =
    init_node-patched bootstrap_db node false true files (codes "subDomain") real returned refl

abbrev environ : Dict Str Str
environ = (codes "A", codes "1") ∷ []
