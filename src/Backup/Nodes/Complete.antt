-- ===== src/Backup/Nodes/Complete.antt =====
-- A node whose downloads fail costs no other node its files.
use vpn_control_panel.Prelude.{List, [], ◌∷◌, ◌++◌, ◌≡◌, refl, ◌⊎◌, inl, inr, Result, ok, err}
use mathlib.Core.List.{append-nil, append_assoc}
use vpn_control_panel.Text.{Str, codes, join}
use vpn_control_panel.Text.Digits.{show_nat}
use vpn_control_panel.Data.Models.{NodeRecord}
use vpn_control_panel.Action.{◌>>=◌}
use vpn_control_panel.Backup.Nodes.{
  Bytes, BackupFile, Downloads, backup_filename_part, fetch_node, visit, files_of, errors_of,
  collect, error_file, collect_node_backup_files,
}

module _ (D : Downloads) where
  abbrev pub prefix : NodeRecord → Str
  prefix node = backup_filename_part D node.host ++ (codes "-" ++ show_nat node.id)

  abbrev pub failure : NodeRecord → Str → Str
  failure node e =
      codes "node " ++ (show_nat node.id ++ (codes " (" ++ (node.host ++ (codes "): " ++ e))))

  -- The calls of one node, in their order, with the files and the failures that it adds: the
  -- database and the configuration, or the message of the download that failed.
  pub data Visited (node : NodeRecord) (w : D.World)
      : List BackupFile → List Str → D.World → Type 0 where
    both :
        (w1 w2 w3 w4 : D.World) (database config : Bytes)
        → D.open_client node w ≡ (ok tt, w1)
        → D.get_database_backup node w1 ≡ (ok database, w2)
        → D.get_config_json_backup node w2 ≡ (ok config, w3)
        → D.close node w3 ≡ (ok tt, w4)
        → Visited node w
            ((prefix node ++ codes "-x-ui.db", database)
              ∷ (prefix node ++ codes "-xray-config.json", config)
              ∷ [])
            []
            w4
    no_database :
        (w1 w2 w3 : D.World) (e : Str)
        → D.open_client node w ≡ (ok tt, w1)
        → D.get_database_backup node w1 ≡ (err e, w2)
        → D.close node w2 ≡ (ok tt, w3)
        → Visited node w [] (failure node e ∷ []) w3
    no_config :
        (w1 w2 w3 w4 : D.World) (database : Bytes) (e : Str)
        → D.open_client node w ≡ (ok tt, w1)
        → D.get_database_backup node w1 ≡ (ok database, w2)
        → D.get_config_json_backup node w2 ≡ (err e, w3)
        → D.close node w3 ≡ (ok tt, w4)
        → Visited node w [] (failure node e ∷ []) w4

  -- The same of all nodes, one after the other.
  pub data Collected
      : List NodeRecord → D.World → List BackupFile → List Str → D.World → Type 0 where
    none_left : (w : D.World) → Collected [] w [] [] w
    next :
        {node : NodeRecord} {nodes : List NodeRecord} {w v u : D.World} {fs files : List BackupFile}
        {es errors : List Str}
        → Visited node w fs es v
        → Collected nodes v files errors u
        → Collected (node ∷ nodes) w (fs ++ files) (es ++ errors) u

  -- Making the client of a node, or closing it, raises.
  abbrev pub Raises : NodeRecord → Str → Type 0
  Raises node e =
      (v u : D.World) × ((D.open_client node v ≡ (err e, u)) ⊎ (D.close node v ≡ (err e, u)))

  abbrev pub OneRaises : List NodeRecord → Str → Type 0
  OneRaises [] e = ⊥
  OneRaises (node ∷ nodes) e = Raises node e ⊎ OneRaises nodes e

  -- The text file with a line for each failure, where there are any.
  abbrev pub failure_list : List Str → List BackupFile
  failure_list [] = []
  failure_list (e ∷ es) =
      (codes "node-backup-errors.txt", D.encode_utf8 (join (10 ∷ []) (e ∷ es) ++ (10 ∷ []))) ∷ []

  VisitEnd : NodeRecord → D.World → Type 0
  VisitEnd node w =
      ((r : Result Str (Bytes × Bytes)) × (v : D.World) × (visit D node w ≡ (ok r, v))
        × Visited node w (files_of D node r) (errors_of D node r) v)
      ⊎ ((e : Str) × (v : D.World) × (visit D node w ≡ (err e, v)) × Raises node e)

  closing :
      (node : NodeRecord) (w w1 v : D.World) (r : Result Str (Bytes × Bytes))
      → D.open_client node w ≡ (ok tt, w1)
      → fetch_node D node w1 ≡ (r, v)
      → ((u : D.World)
          → D.close node v ≡ (ok tt, u)
          → Visited node w (files_of D node r) (errors_of D node r) u)
      → (c : Result Str (Unit {0}) × D.World) → D.close node v ≡ c
      → VisitEnd node w
  unfolding VisitEnd visit
  closing node w w1 v r o f k (ok t, u) c = inl (r, u, rw (o, f, c) refl, k u c)
  closing node w w1 v r o f k (err e, u) c = inr (e, u, rw (o, f, c) refl, (v, u, inr c))

  configured :
      (node : NodeRecord) (w w1 w2 : D.World) (database : Bytes)
      → D.open_client node w ≡ (ok tt, w1)
      → D.get_database_backup node w1 ≡ (ok database, w2)
      → (c : Result Str Bytes × D.World) → D.get_config_json_backup node w2 ≡ c
      → VisitEnd node w
  unfolding fetch_node ◌>>=◌
  configured node w w1 w2 database o d (ok config, w3) c =
      closing node w w1 w3 (ok (database, config)) o (rw (d, c) refl)
        (λ u q. both w1 w2 w3 u database config o d c q) (D.close node w3) refl
  configured node w w1 w2 database o d (err e, w3) c =
      closing node w w1 w3 (err e) o (rw (d, c) refl)
        (λ u q. no_config w1 w2 w3 u database e o d c q) (D.close node w3) refl

  downloaded :
      (node : NodeRecord) (w w1 : D.World)
      → D.open_client node w ≡ (ok tt, w1)
      → (d : Result Str Bytes × D.World) → D.get_database_backup node w1 ≡ d
      → VisitEnd node w
  unfolding fetch_node ◌>>=◌
  downloaded node w w1 o (ok database, w2) d =
      configured node w w1 w2 database o d (D.get_config_json_backup node w2) refl
  downloaded node w w1 o (err e, w2) d =
      closing node w w1 w2 (err e) o (rw d refl) (λ u q. no_database w1 w2 u e o d q)
        (D.close node w2) refl

  visited :
      (node : NodeRecord) (w : D.World) (o : Result Str (Unit {0}) × D.World)
      → D.open_client node w ≡ o
      → VisitEnd node w
  unfolding VisitEnd visit
  visited node w (ok t, w1) o = downloaded node w w1 o (D.get_database_backup node w1) refl
  visited node w (err e, w1) o = inr (e, w1, rw o refl, (w, w1, inl o))

  collected :
      (nodes : List NodeRecord) (files : List BackupFile) (errors : List Str) (w : D.World)
      → ((fs : List BackupFile) × (es : List Str) × (v : D.World) × Collected nodes w fs es v
          × (collect D nodes files errors w ≡ (ok (files ++ fs, errors ++ es), v)))
        ⊎ ((e : Str) × (v : D.World) × OneRaises nodes e
            × (collect D nodes files errors w ≡ (err e, v)))
  unfolding collect VisitEnd ◌>>=◌
  collected [] files errors w =
      inl ([], [], w, none_left w, rw (append-nil files, append-nil errors) refl)
  collected (node ∷ nodes) files errors w = elim (visited node w (D.open_client node w) refl) [
    | inr (e, v, ends, raises) ↦ inr (e, v, inl raises, rw ends refl)
    | inl (r, v, ends, here) ↦
        elim (collected nodes (files ++ files_of D node r) (errors ++ errors_of D node r) v) [
          | inr (e, u, raises, later) ↦ inr (e, u, inr raises, rw ends later)
          | inl (fs, es, u, rest, later) ↦ inl (
            files_of D node r ++ fs,
            errors_of D node r ++ es,
            u,
            next here rest,
            rw
                (
                  ends,
                  later,
                  append_assoc files (files_of D node r) fs,
                  append_assoc errors (errors_of D node r) es,
                )
                refl,
          )
        ]
  ]

  -- A collection returns the files of `Collected`: in the order of the nodes, both files of each
  -- node whose downloads succeeded, and at the end, if a download failed, the list of the failures.
  -- Or it raises what making or closing the client of one of the nodes raised.
  pub collect_node_backup_files_complete :
      (nodes : List NodeRecord) (w : D.World)
      → ((files : List BackupFile) × (errors : List Str) × (v : D.World) × Collected nodes w files
            errors v
          × (collect_node_backup_files D nodes w ≡ (ok (files ++ failure_list errors), v)))
        ⊎ ((e : Str) × (v : D.World) × OneRaises nodes e
            × (collect_node_backup_files D nodes w ≡ (err e, v)))
  unfolding collect_node_backup_files ◌>>=◌
  collect_node_backup_files_complete nodes w = elim (collected nodes [] [] w) [
    | inr (e, v, raises, ends) ↦ inr (e, v, raises, rw ends refl)
    | inl (files, errors, v, all, ends) ↦
        inl (files, errors, v, all, rw ends (listed files errors v))
  ]
    where
      listed :
          (files : List BackupFile) (errors : List Str) (v : D.World)
          → ◌≡◌ {A = Result Str (List BackupFile) × D.World}
              (ok (files ++ error_file D errors), v)
              (ok (files ++ failure_list errors), v)
      listed files [] v = refl
      listed files (e ∷ es) v = refl
