-- ===== src/Provisioning/Examples.antt =====
-- Examples of the theorems on provisioning, with a panel that keeps who is on which inbound.
use vpn_control_panel.Prelude.{
  ℕ, List, [], ◌∷◌, ◌+◌, length, ◌≡◌, ◌⊎◌, refl, inl, true, false, Option, none, some, Result, ok,
  arith, map_result, contains, find, Subset, ◌==◌, ◌&&◌, nat_eq, list_eq, pair_eq, nat_beq_iff,
  list_beq_iff, if◌then◌else◌,
}
use vpn_control_panel.Text.{Str, codes}
use vpn_control_panel.Dict.{lookup}
use vpn_control_panel.Json.{Json, text, end, get}
use vpn_control_panel.Action.{◌>>=◌}
use vpn_control_panel.Xui.Panel.{Panel, IsLawful, XuiInbound, XuiClientInfo}
use vpn_control_panel.Data.Models.{ClientRecord, ControlPlaneState}
use vpn_control_panel.Data.Validation.{
  validate_state, validate_inbound_tags, validate_node, validate_node_inbound,
  validate_external_inbound, validate_external_subscription, validate_client, validate_name,
  validate_filter, strip_nonempty, strip_optional, strip_tags, normalize_base_path, declare_tags,
  declare, declare_subscription, validate_reference, validate_tag_list, validate_client_tags,
  check_tag,
}
use vpn_control_panel.Data.Reference.{parse_external_subscription_ref}
use vpn_control_panel.Text.{strip, strip_by, lstrip, rstrip, is_space}
use vpn_control_panel.Data.Store.{load_state, save_clients}
use vpn_control_panel.Data.Catalog.{
  on_node, build_inbound_catalog, add_nodes, add_node_inbounds, add_externals,
  provisioned_inbound_tags, effective_inbound_tags, effective_abroad_inbound_tags,
}
use vpn_control_panel.Provisioning.{
  ensure_client_locked, prepare, provision_nodes, provision_node, complete_client, group_tags,
  index_inbounds, find_targets, persist, persisted_record, replace_client, final_sub_id,
  legacy_sub_id, missing_ids, record_for, candidate_tags,
}
use vpn_control_panel.Provisioning.Payload.{client_email}
use vpn_control_panel.Subscription.Token.{public_token_for_client}
use vpn_control_panel.Provisioning.Records.{
  link_ids, renewed, renewed_keeps_links, renewed_loses_link, persist_overwrites,
}
use vpn_control_panel.Provisioning.Attached.{ensure_client_attaches}
use vpn_control_panel.Tests.Fixtures.{plain_regex, state, node, inbound, client}

-- The number of a node, the e-mail of a client, and the number of an inbound.
abbrev World : Type 0
World = List (ℕ × (Str × ℕ))

abbrev put_ids : ℕ → Str → List ℕ → World → World
put_ids n e [] w = w
put_ids n e (i ∷ is) w = (n, (e, i)) ∷ put_ids n e is w

abbrev email_text : Option Json → Str
email_text (some (text e)) = e
email_text other = []

abbrev ids_on : ℕ → Str → World → List ℕ
ids_on n e [] = []
ids_on n e ((m, (f, i)) ∷ w) =
    let rest = ids_on n e w in if m == n && f == e then i ∷ rest else rest

abbrev info_of : Str → List ℕ → Option XuiClientInfo
info_of e [] = none
info_of e (i ∷ is) = some (record { client = end; inbound_ids = i ∷ is })

abbrev xui_inbound : XuiInbound
xui_inbound = record {
  id = 1;
  protocol = codes "vless";
  settings = end;
  stream_settings = end;
  sniffing = end;
  raw = end;
}

abbrev panel : Panel
panel = record {
  World = World;
  list_inbounds = λ n w. (ok (xui_inbound ∷ []), w);
  list_clients = λ n w. (ok [], w);
  get_client = λ n e w. (ok (info_of e (ids_on n.id e w)), w);
  add_client =
      λ n payload ids w. (ok tt, put_ids n.id (email_text (get (codes "email") payload)) ids w);
  attach_client = λ n e ids w. (ok tt, put_ids n.id e ids w);
  update_client = λ n e payload w. (ok tt, w);
}

put_ids_puts :
    (n : ℕ) (e : Str) (ids : List ℕ) (w : World) (i : ℕ)
    → contains ids i ≡ true
    → contains (put_ids n e ids w) (n, (e, i)) ≡ true
put_ids_puts n e [] w i h = cc
put_ids_puts n e (j ∷ js) w i h = ground (
  arith,
  nat_beq_iff j i,
  nat_beq_iff n n,
  list_beq_iff e e,
  nat_beq_iff i i,
  put_ids_puts n e js w i,
)

put_ids_keeps :
    (n : ℕ) (e : Str) (ids : List ℕ) (w : World) (x : ℕ × (Str × ℕ))
    → contains w x ≡ true
    → contains (put_ids n e ids w) x ≡ true
put_ids_keeps n e [] w x h = h
put_ids_keeps n e (j ∷ js) w x h = ground (arith, put_ids_keeps n e js w x)

ids_on_attached :
    (n : ℕ) (e : Str) (w : World) (i : ℕ)
    → contains (ids_on n e w) i ≡ true
    → contains w (n, (e, i)) ≡ true
ids_on_attached n e [] i h = h
ids_on_attached n e ((m, (f, j)) ∷ w) i h =
    ground (arith, nat_beq_iff m n, list_beq_iff f e, nat_beq_iff j i, ids_on_attached n e w i)

abbrev the_ok : Option XuiClientInfo → Result Str (Option XuiClientInfo)
the_ok a = ok a

info_ids :
    (e : Str) (ids : List ℕ) (info : XuiClientInfo)
    → info_of e ids ≡ some info
    → info.inbound_ids ≡ ids
info_ids e [] info h = cc
info_ids e (i ∷ is) info h = ground arith

ok_same : (a b : Option XuiClientInfo) → the_ok a ≡ ok b → a ≡ b
ok_same a b h = ground arith

email_same : (o : Option Json) (e : Str) → o ≡ some (text e) → email_text o ≡ e
email_same o e h = rw h refl

panel_lawful : IsLawful panel
panel_lawful = record {
  IsAttached = λ w n e i. contains w (n, (e, i)) ≡ true;
  get_client-shows = λ n e w info i h c. ids_on_attached n.id e w i (
      rw (info_ids e (ids_on n.id e w) info (ok_same (info_of e (ids_on n.id e w)) (some info) h))
        at c);
  add_client-attaches = λ n payload ids w e i h g c.
      rw (email_same (get (codes "email") payload) e g) (put_ids_puts n.id e ids w i c);
  attach_client-attaches = λ n e ids w i h c. put_ids_puts n.id e ids w i c;
  list_inbounds-keeps = λ m w n e i h. h;
  get_client-keeps = λ m x w n e i h. h;
  add_client-keeps = λ m payload ids w n e i h.
      put_ids_keeps m.id (email_text (get (codes "email") payload)) ids w (n, (e, i)) h;
  attach_client-keeps = λ m x ids w n e i h. put_ids_keeps m.id x ids w (n, (e, i)) h;
}

abbrev lower : Str → Str
lower s = s

-- data.json after the run
abbrev next_state : ControlPlaneState
unfolding persisted_record final_sub_id legacy_sub_id
next_state = record state { clients = record_for state (codes "5") (codes "c") (codes "n") ∷ [] }

loaded : load_state plain_regex state ≡ ok state
unfolding load_state validate_state validate_inbound_tags validate_node validate_node_inbound
    validate_external_inbound validate_external_subscription validate_client validate_name
    validate_filter strip_nonempty strip_optional strip_tags normalize_base_path declare_tags
    declare declare_subscription validate_reference validate_tag_list validate_client_tags check_tag
    parse_external_subscription_ref strip strip_by lstrip rstrip is_space
loaded = refl

run_succeeds :
    (ensure_client_locked panel lower
      (codes "f")
      plain_regex
      (codes "5")
      (codes "c")
      (some 5)
      (codes "n")
      state
      []).0
    ≡ ok (
      record {
        client = record_for state (codes "5") (codes "c") (codes "n");
        created = 1;
        reused = 0;
      },
      next_state,
    )
unfolding ensure_client_locked prepare provision_nodes provision_node complete_client group_tags
    index_inbounds find_targets persist persisted_record replace_client final_sub_id legacy_sub_id
    missing_ids load_state save_clients build_inbound_catalog add_nodes add_node_inbounds
    add_externals provisioned_inbound_tags effective_inbound_tags effective_abroad_inbound_tags
    ◌>>=◌ validate_state validate_inbound_tags validate_node validate_node_inbound
    validate_external_inbound validate_external_subscription validate_client validate_name
    validate_filter strip_nonempty strip_optional strip_tags normalize_base_path declare_tags
    declare declare_subscription validate_reference validate_tag_list validate_client_tags check_tag
    parse_external_subscription_ref strip strip_by lstrip rstrip is_space
run_succeeds = refl

tag_wanted : contains (candidate_tags state (codes "5") (codes "c")) (codes "a") ≡ true
unfolding provisioned_inbound_tags effective_inbound_tags effective_abroad_inbound_tags
tag_wanted = refl

tag_found : lookup (codes "a") (build_inbound_catalog state) ≡ some (on_node node inbound)
unfolding build_inbound_catalog add_nodes add_node_inbounds add_externals
tag_found = refl

ensure_client_attaches_example :
    contains
      (ensure_client_locked panel lower
        (codes "f")
        plain_regex
        (codes "5")
        (codes "c")
        (some 5)
        (codes "n")
        state
        []).1
      (7, (client_email (codes "5"), 1))
    ≡ true
unfolding panel_lawful
ensure_client_attaches_example =
    ensure_client_attaches panel panel_lawful lower (codes "f") plain_regex (codes "5") (codes "c")
      (some 5) (codes "n") state state [] (codes "a") node inbound run_succeeds loaded tag_wanted
      tag_found

targets_found :
    find_targets node (index_inbounds [] (xui_inbound ∷ [])) (inbound ∷ []) ≡ ok (xui_inbound ∷ [])
unfolding find_targets index_inbounds
targets_found = refl

-- no real digest, but a number
abbrev digest : Str → Str → ℕ
digest salt s = length salt + length s

abbrev subscribed : ClientRecord
subscribed = record client { sub_id = some (codes "s") }

renewed_keeps_links_example :
    Subset (link_ids subscribed) (link_ids (renewed subscribed (codes "c") (codes "n")))
    × ((public_token_for_client digest
            (some (codes "k"))
            (renewed subscribed (codes "c") (codes "n"))
          ≡ public_token_for_client digest (some (codes "k")) subscribed)
        ⊎ (subscribed.sub_id ≡ none))
renewed_keeps_links_example =
    renewed_keeps_links digest (some (codes "k")) subscribed (codes "c") (codes "n")
      (inl (codes "s", refl, refl)) refl

abbrev legacy_client : ClientRecord
legacy_client = record client { legacy_sub_id = some (codes "old") }

renewed_loses_link_example :
    (contains (link_ids legacy_client) (codes "5") ≡ true)
    × (contains (link_ids (renewed legacy_client (codes "c") (codes "n"))) (codes "5") ≡ false)
renewed_loses_link_example =
    renewed_loses_link legacy_client (codes "c") (codes "n") (codes "old") refl refl refl
      (λ e. ground arith) (λ e. ground arith)

-- another run added a client in the meantime
abbrev late_client : ClientRecord
late_client = record client { id = codes "6" }

abbrev late_state : ControlPlaneState
late_state = record state { clients = client ∷ late_client ∷ [] }

persisted : persist plain_regex state (codes "5") (codes "c") (codes "n") late_state ≡ ok next_state
unfolding persist persisted_record replace_client final_sub_id legacy_sub_id load_state save_clients
    validate_state validate_inbound_tags validate_node validate_node_inbound
    validate_external_inbound validate_external_subscription validate_client validate_name
    validate_filter strip_nonempty strip_optional strip_tags normalize_base_path declare_tags
    declare declare_subscription validate_reference validate_tag_list validate_client_tags check_tag
    parse_external_subscription_ref strip strip_by lstrip rstrip is_space
persisted = refl

persist_overwrites_example :
    (map_result validate_client
        (replace_client state.clients (record_for state (codes "5") (codes "c") (codes "n")))
      ≡ ok next_state.clients)
    × (find
          (λ c. c.id == codes "6")
          (replace_client state.clients (record_for state (codes "5") (codes "c") (codes "n")))
        ≡ none)
persist_overwrites_example =
    persist_overwrites plain_regex state late_state next_state (codes "5") (codes "c") (codes "n")
      (codes "6") refl (λ e. ground arith) persisted
