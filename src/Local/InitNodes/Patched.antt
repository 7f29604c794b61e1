-- ===== src/Local/InitNodes/Patched.antt =====
-- What the initialisation of a node leaves in its database, of local/init-nodes.py, and what an
-- env file leaves of the environment.
use mathlib.Core.Path.{subst}
use vpn_control_panel.Prelude.{
  List, [], ◌∷◌, ◌++◌, ◌≡◌, refl, sym, ap, ◌∙◌, ◌⊎◌, inl, inr, Bool, true, false, not, ◌||◌, Option,
  none, some, Result, ok, err, arith, Bool-cases, ◌==◌, nat_eq, list_eq, list_beq_iff, contains,
  if◌then◌else◌,
}
use vpn_control_panel.Text.{Str, codes, partition, starts_with, is_empty, strip}
use vpn_control_panel.Text.Digits.{show_nat}
use vpn_control_panel.Dict.{Dict, lookup, lookup-insert}
use vpn_control_panel.ExternalSubscriptions.Parser.{lines_of}
use vpn_control_panel.Local.InitNodes.{
  LocalNode, or_missing, Settings, update_rows, has_key, upsert, cleared_keys, clear_rows, patch_db,
  NodeFiles, is_placeholder, bootstrapped, create_db, open_db, init_node, load_line, load_lines,
  load_env_file, set_default, clean_value,
}

lookup-update_rows_other :
    (k j v : Str) (rows : Settings)
    → (k == j) ≡ false
    → lookup j (update_rows k v rows) ≡ lookup j rows
lookup-update_rows_other k j v [] h = refl
lookup-update_rows_other k j v ((i, w) ∷ rows) h = ground (
  arith,
  list_beq_iff i k,
  list_beq_iff i j,
  list_beq_iff k j,
  lookup-update_rows_other k j v rows h,
)

lookup-update_rows_same :
    (k v : Str) (rows : Settings) → has_key k rows ≡ true → lookup k (update_rows k v rows) ≡ some v
lookup-update_rows_same k v [] h = cc
lookup-update_rows_same k v ((i, w) ∷ rows) h = elim (Bool-cases (i == k)) [
  | inl same ↦ ground arith
  | inr other ↦
      let there : has_key k rows ≡ true = ground arith in
      rw other (rw other (lookup-update_rows_same k v rows there))
]

lookup-append_row :
    (k j v : Str) (rows : Settings)
    → has_key k rows ≡ false
    → lookup j (rows ++ ((k, v) ∷ [])) ≡ (if k == j then some v else lookup j rows)
lookup-append_row k j v [] h = refl
lookup-append_row k j v ((i, w) ∷ rows) h =
    let (other, absent) = apart (i == k) (has_key k rows) h in
    ground (
      arith,
      list_beq_iff i k,
      list_beq_iff i j,
      list_beq_iff k j,
      lookup-append_row k j v rows absent,
    )
  where
    apart : (a b : Bool) → (a || b) ≡ false → (a ≡ false) × (b ≡ false)
    apart a b h = (ground arith, ground arith)

lookup-upsert :
    (k j v : Str) (rows : Settings)
    → lookup j (upsert k v rows) ≡ (if k == j then some v else lookup j rows)
unfolding upsert
lookup-upsert k j v rows = elim (Bool-cases (has_key k rows)) [
  | inr absent ↦ rw absent (lookup-append_row k j v rows absent)
  | inl there ↦ elim (Bool-cases (k == j)) [
    | inr other ↦ rw (there, other) (lookup-update_rows_other k j v rows other)
    | inl same ↦ rw there (same_key ((list_beq_iff k j).0 same) same there)
  ]
]
  where
    same_key :
        k ≡ j
        → (k == j) ≡ true
        → has_key k rows ≡ true
        → lookup j (update_rows k v rows) ≡ (if k == j then some v else lookup j rows)
    same_key e b h = rw b (rw (← e) (lookup-update_rows_same k v rows h))

abbrev blank : Option Str → Option Str
blank none = none
blank (some v) = some []

lookup-clear_rows :
    (keys : List Str) (k : Str) (rows : Settings)
    → lookup k (clear_rows keys rows)
      ≡ (if contains keys k then blank (lookup k rows) else lookup k rows)
lookup-clear_rows keys k [] = ground arith
lookup-clear_rows keys k ((j, v) ∷ rows) =
    ground (arith, list_beq_iff j k, lookup-clear_rows keys k rows)

-- A row of the patched database, for a key that the later steps leave.
lookup-patch_db :
    (node : LocalNode) (k : Str) (rows : Settings)
    → lookup k (patch_db node rows) ≡ (
        if codes "apiToken" == k
        then some (or_missing node.api_token [])
        else if codes "webBasePath" == k
        then some (or_missing node.base_path (codes "/"))
        else if codes "webPort" == k
        then some (show_nat node.port)
        else if contains cleared_keys k
        then blank (lookup k rows)
        else lookup k rows)
unfolding patch_db
lookup-patch_db node k rows =
    lookup-upsert (codes "apiToken") k (or_missing node.api_token []) (
      upsert (codes "webBasePath") (or_missing node.base_path (codes "/"))
        (upsert (codes "webPort") (show_nat node.port) (clear_rows cleared_keys rows)))
    ∙ rw
        (
          lookup-upsert (codes "webBasePath") k (or_missing node.base_path (codes "/"))
              (upsert (codes "webPort") (show_nat node.port) (clear_rows cleared_keys rows)),
          lookup-upsert (codes "webPort") k (show_nat node.port) (clear_rows cleared_keys rows),
          lookup-clear_rows cleared_keys k rows,
        )
        refl

apart_of :
    (keys : List Str) (x k : Str)
    → contains keys x ≡ false
    → contains keys k ≡ true
    → (x == k) ≡ false
apart_of keys x k h g = elim (Bool-cases (x == k)) [
  | inr other ↦ other
  | inl same ↦ let e : x ≡ k = (list_beq_iff x k).0 same in let f = ap (contains keys) e in cc
]

blanked : (o : Option Str) → (blank o ≡ none) ⊎ (blank o ≡ some [])
blanked none = inl refl
blanked (some v) = inr refl

-- The rows of a patched database.
abbrev HasSettings : LocalNode → Str → Settings → Type 0
HasSettings node k rows =
    (lookup (codes "apiToken") rows ≡ some (or_missing node.api_token []))
    × (lookup (codes "webPort") rows ≡ some (show_nat node.port))
    × (lookup (codes "webBasePath") rows ≡ some (or_missing node.base_path (codes "/")))
    × ((lookup k rows ≡ none) ⊎ (lookup k rows ≡ some []))

patch_db-HasSettings :
    (node : LocalNode) (k : Str) (rows : Settings)
    → contains cleared_keys k ≡ true
    → HasSettings node k (patch_db node rows)
patch_db-HasSettings node k rows h =
    let a = apart_of cleared_keys (codes "apiToken") k refl h in
    let b = apart_of cleared_keys (codes "webBasePath") k refl h in
    let c = apart_of cleared_keys (codes "webPort") k refl h in
    (
      lookup-patch_db node (codes "apiToken") rows,
      lookup-patch_db node (codes "webPort") rows,
      lookup-patch_db node (codes "webBasePath") rows,
      rw (lookup-patch_db node k rows, a, b, c, h) (blanked (lookup k rows)),
    )

module _ (bootstrap_db : LocalNode → Result Str Settings) where
  booted :
      (node : LocalNode) (files : NodeFiles) (r : Result Str Settings)
      → (bootstrapped bootstrap_db node files r).0 ≡ ok tt
      → (rows : Settings) × ((bootstrapped bootstrap_db node files r).1.db
          ≡ some (patch_db node rows))
  booted node files (ok rows) h = (rows, refl)
  booted node files (err e) h = cc

  opened :
      (node : LocalNode) (restore patch_only : Bool) (files : NodeFiles)
      (db backup : Option Settings)
      → files.db ≡ db
      → files.backup ≡ backup
      → (open_db bootstrap_db node restore patch_only files db).0 ≡ ok tt
      → (rows : Settings) × ((open_db bootstrap_db node restore patch_only files db).1.db
          ≡ some (patch_db node rows))
  opened node restore true files none backup d b h = cc
  opened node restore false files none (some rows) d b h = (rows, rw b refl)
  opened node restore false files none none d b h =
      let h' : (create_db bootstrap_db node files none).0 ≡ ok tt =
        subst (λ o. (create_db bootstrap_db node files o).0 ≡ ok tt) b h in
      let (rows, e) = booted node files (bootstrap_db node) h' in
      (
        rows,
        subst (λ o. (create_db bootstrap_db node files o).1.db ≡ some (patch_db node rows)) (sym b)
            e,
      )
  opened node true patch_only files (some rows) none d b h = (rows, rw (b, d) refl)
  opened node true patch_only files (some rows) (some saved) d b h = (saved, rw b refl)
  opened node false patch_only files (some rows) backup d b h = (rows, refl)

  -- If the initialisation of a node whose token is filled in returns, the node has a database with
  -- its token, port and base path, and every setting of HTTPS and of addresses that is there is
  -- empty.
  pub init_node-patched :
      (node : LocalNode) (restore patch_only : Bool) (files : NodeFiles) (k : Str)
      → is_placeholder node ≡ false
      → (init_node bootstrap_db node restore patch_only files).0 ≡ ok tt
      → contains cleared_keys k ≡ true
      → (rows : Settings) × ((init_node bootstrap_db node restore patch_only files).1.db
          ≡ some rows)
        × (lookup (codes "apiToken") rows ≡ some (or_missing node.api_token []))
        × (lookup (codes "webPort") rows ≡ some (show_nat node.port))
        × (lookup (codes "webBasePath") rows ≡ some (or_missing node.base_path (codes "/")))
        × ((lookup k rows ≡ none) ⊎ (lookup k rows ≡ some []))
  unfolding init_node
  init_node-patched node restore patch_only files k real h cleared =
      let h' : (open_db bootstrap_db node restore patch_only files files.db).0 ≡ ok tt =
        rw real at h in
      let (rows, e) = opened node restore patch_only files files.db files.backup refl refl h' in
      let (token, port, path, empty) = patch_db-HasSettings node k rows cleared in
      (patch_db node rows, rw real e, token, port, path, empty)

-- A variable that is set keeps its value when an env file is loaded, whatever the file says.
pub lookup-load_env_file :
    (content k v : Str) (environ : Dict Str Str)
    → lookup k environ ≡ some v
    → lookup k (load_env_file content environ) ≡ some v
unfolding load_env_file
lookup-load_env_file content k v environ h = each (lines_of content) environ h
  where
    set_default_keeps :
        (j w : Str) (d : Dict Str Str) (o : Option Str)
        → lookup j d ≡ o
        → lookup k d ≡ some v
        → lookup k (set_default j w d o) ≡ some v
    set_default_keeps j w d (some old) e g = g
    set_default_keeps j w d none e g = elim (Bool-cases (j == k)) [
      | inr other ↦ lookup-insert j k w d ∙ rw other g
      | inl same ↦ let q : j ≡ k = (list_beq_iff j k).0 same in let f = ap (λ i. lookup i d) q in cc
    ]

    pick :
        (b : Bool) (d e : Dict Str Str)
        → lookup k d ≡ some v
        → lookup k e ≡ some v
        → lookup k (if b then d else e) ≡ some v
    pick true d e g h = g
    pick false d e g h = h

    one :
        (line : Str) (d : Dict Str Str) → lookup k d ≡ some v → lookup k (load_line line d) ≡ some v
    one line d g =
        pick (is_empty line || (starts_with line (codes "#") || not (partition b'=' line).1)) d _ g
          (set_default_keeps (strip (partition b'=' line).0) (clean_value (partition b'=' line).2) d
            _ refl g)

    each :
        (lines : List Str) (d : Dict Str Str)
        → lookup k d ≡ some v
        → lookup k (load_lines lines d) ≡ some v
    each [] d g = g
    each (line ∷ lines) d g = each lines (load_line (strip line) d) (one (strip line) d g)
