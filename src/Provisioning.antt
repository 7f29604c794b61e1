-- ===== src/Provisioning.antt =====
-- src/vpn_control_plane/provisioning.py: a client is created or completed on every node that hosts
-- one of its inbounds, and then recorded in data.json. The panels are an argument; the state of a
-- run is theirs and the records of data.json. A generated subscription id is an argument, and so
-- is Unicode lower case. Making and closing the HTTP client of a node has no effect here.
pub mod Payload
pub mod Targets
pub mod Records
pub mod Attached
pub mod Manual
pub mod Runs
mod Examples
mod RunExamples
use vpn_control_panel.Prelude.{
  ℕ, ◌+◌, ◌-◌, List, [], ◌∷◌, ◌++◌, Bool, true, false, not, Option, none, some, Result, ok, err,
  filter, find, contains, length, map, ◌==◌, nat_eq, list_eq, if◌then◌else◌,
}
use vpn_control_panel.Text.{Str, is_empty, strip, or_default, codes}
use vpn_control_panel.Text.Digits.{show_nat}
use vpn_control_panel.Dict.{Dict, lookup, insert}
use vpn_control_panel.Regex.{Regex}
use vpn_control_panel.Action.{Action, pure, raise, lift, ◌>>=◌, ◌>>◌}
use vpn_control_panel.Xui.Panel.{Panel, XuiInbound, XuiClientInfo}
use vpn_control_panel.Data.Models.{NodeRecord, NodeInboundRecord, ClientRecord, ControlPlaneState}
use vpn_control_panel.Data.Errors.{ValidationError}
use vpn_control_panel.Data.Store.{load_state, save_clients}
use vpn_control_panel.Data.Catalog.{
  CatalogInbound, on_node, external, Catalog, build_inbound_catalog, provisioned_inbound_tags,
}
use vpn_control_panel.Provisioning.Payload.{
  client_email, compute_node_flow, build_client_payload, telegram_id_for_client_id,
}

pub data ProvisionError : Type 0 where
  -- the two messages of `ProvisioningError`
  empty_client_id : ProvisionError
  inbound_not_found : ℕ → ℕ → ProvisionError
  -- what passes through: an exception of a panel, of the store, and a `KeyError`
  panel : Str → ProvisionError
  invalid : ValidationError → ProvisionError
  unknown_tag : Str → ProvisionError

pub record ProvisioningResult : Type 0 where
  pub client : ClientRecord
  pub created : ℕ
  pub reused : ℕ

-- `node_inbounds`: for each node its record and the inbounds to provision, in the order of tags.
abbrev pub NodeGroups : Type 0
NodeGroups = Dict ℕ (NodeRecord × List NodeInboundRecord)

abbrev pub add_to_group :
    NodeRecord
    → NodeInboundRecord
    → Option (NodeRecord × List NodeInboundRecord)
    → NodeRecord × List NodeInboundRecord
add_to_group node inbound none = (node, inbound ∷ [])
add_to_group node inbound (some (first, inbounds)) = (first, inbounds ++ (inbound ∷ []))

abbrev pub group_entry : Str → Option CatalogInbound → NodeGroups → Result ProvisionError NodeGroups
group_entry tag none groups = err (unknown_tag tag)
group_entry tag (some (external e)) groups = ok groups
group_entry tag (some (on_node node inbound)) groups =
    ok (insert node.id (add_to_group node inbound (lookup node.id groups)) groups)

abbrev then_group :
    (NodeGroups → Result ProvisionError NodeGroups)
    → Result ProvisionError NodeGroups
    → Result ProvisionError NodeGroups
then_group f (ok g) = f g
then_group f (err e) = err e

pub group_tags : Catalog → List Str → NodeGroups → Result ProvisionError NodeGroups
group_tags catalog [] groups = ok groups
group_tags catalog (tag ∷ tags) groups =
    then_group (group_tags catalog tags) (group_entry tag (lookup tag catalog) groups)

-- `inbounds_by_id`, where a later inbound replaces an earlier one of the same number
unfoldable pub index_inbounds : Dict ℕ XuiInbound → List XuiInbound → Dict ℕ XuiInbound
index_inbounds d [] = d
index_inbounds d (i ∷ is) = index_inbounds (insert i.id i d) is

abbrev consider :
    NodeRecord
    → NodeInboundRecord
    → Option XuiInbound
    → Result ProvisionError (List XuiInbound)
    → Result ProvisionError (List XuiInbound)
consider node i none rest = err (inbound_not_found i.xui_inbound_id node.id)
consider node i (some found) (ok rest) = ok (found ∷ rest)
consider node i (some found) (err e) = err e

-- The loop that fills `target_inbounds`; the first inbound that is missing ends it.
pub find_targets :
    NodeRecord
    → Dict ℕ XuiInbound
    → List NodeInboundRecord
    → Result ProvisionError (List XuiInbound)
find_targets node by_id [] = ok []
find_targets node by_id (i ∷ is) =
    consider node i (lookup i.xui_inbound_id by_id) (find_targets node by_id is)

-- `_legacy_sub_id`
abbrev legacy_of : Option Str → Option Str → Str → Option Str
legacy_of (some legacy) sub id = some legacy
legacy_of none (some sub) id = none
legacy_of none none id = some id

pub legacy_sub_id : Option ClientRecord → Option Str
legacy_sub_id none = none
legacy_sub_id (some r) = legacy_of r.legacy_sub_id r.sub_id r.id

-- The record that `_persist_client_record` writes.
pub persisted_record : Option ClientRecord → Str → Str → Str → ClientRecord
unfolding legacy_sub_id
persisted_record none id comment sub_id = record {
  id = id;
  comment = comment;
  telegram_id = none;
  sub_id = some sub_id;
  legacy_sub_id = none;
  inbound_tags = none;
  abroad_inbound_tags = none;
}
persisted_record (some r) id comment sub_id = record {
  id = id;
  comment = r.comment;
  telegram_id = none;
  sub_id = some sub_id;
  legacy_sub_id = legacy_sub_id (some r);
  inbound_tags = r.inbound_tags;
  abroad_inbound_tags = r.abroad_inbound_tags;
}

-- `next_clients`
pub replace_client : List ClientRecord → ClientRecord → List ClientRecord
replace_client clients r = filter (λ c. not (c.id == r.id)) clients ++ (r ∷ [])

-- `ClientRecord(id=client_id, comment=comment)`
abbrev pub new_client : Str → Str → ClientRecord
new_client id comment = record {
  id = id;
  comment = comment;
  telegram_id = none;
  sub_id = none;
  legacy_sub_id = none;
  inbound_tags = none;
  abroad_inbound_tags = none;
}

abbrev pub or_record : Option ClientRecord → ClientRecord → ClientRecord
or_record none r = r
or_record (some r) _ = r

-- `(existing_record.sub_id if existing_record else None) or self._subscription_id_factory()`
pub final_sub_id : Option ClientRecord → Str → Str
final_sub_id none fresh = fresh
final_sub_id (some r) fresh = or_default r.sub_id fresh

-- An exception of a panel or of the store passes through.
abbrev pub from_panel {ℓ} : {A : Type ℓ} → Result Str A → Result ProvisionError A
from_panel (ok a) = ok a
from_panel (err e) = err (panel e)

abbrev pub from_store {ℓ} : {A : Type ℓ} → Result ValidationError A → Result ProvisionError A
from_store (ok a) = ok a
from_store (err e) = err (invalid e)

abbrev pub on_panel {ℓ} : {W : Type 0} {A : Type ℓ} → Action W Str A → Action W ProvisionError A
on_panel m w = let (r, w') = m w in (from_panel r, w')

-- What a run was asked for, and the subscription id that it settled on.
pub record Request : Type 0 where
  pub client_id : Str
  pub comment : Str
  pub telegram_id : Option ℕ
  pub sub_id : Str

unfoldable pub missing_ids : List ℕ → List ℕ → List ℕ
missing_ids ids attached = filter (λ i. not (contains attached i)) ids

abbrev pub existing_record : ControlPlaneState → Str → Option ClientRecord
existing_record s id = find (λ c. c.id == id) s.clients

abbrev pub request_for : ControlPlaneState → Str → Str → Option ℕ → Str → Request
request_for s id comment telegram_id fresh = record {
  client_id = id;
  comment = comment;
  telegram_id = telegram_id;
  sub_id = final_sub_id (existing_record s id) fresh;
}

abbrev pub record_for : ControlPlaneState → Str → Str → Str → ClientRecord
record_for s id comment fresh =
    persisted_record (existing_record s id) id comment (final_sub_id (existing_record s id) fresh)

abbrev pub candidate_tags : ControlPlaneState → Str → Str → List Str
candidate_tags s id comment =
    provisioned_inbound_tags s (or_record (existing_record s id) (new_client id comment))

-- `_persist_client_record`: `s` is the state loaded at the start of the run, `file` is
-- data.json at its end.
pub persist :
    Regex
    → ControlPlaneState
    → Str
    → Str
    → Str
    → ControlPlaneState
    → Result ProvisionError ControlPlaneState
persist regex s id comment fresh file =
    from_store (save_clients regex (replace_client s.clients (record_for s id comment fresh)) file)

-- `f"{comment} (@{username})" if username else comment`
abbrev display_comment : Str → Option Str → Str
display_comment comment none = comment
display_comment comment (some []) = comment
display_comment comment (some (c ∷ name)) = comment ++ (codes " (@" ++ ((c ∷ name) ++ codes ")"))

module _ (P : Panel) (lower : Str → Str) (default_flow : Str) where
  abbrev attach_missing : NodeRecord → Str → List ℕ → Action P.World ProvisionError (Unit {0})
  attach_missing node email [] = pure tt
  attach_missing node email (i ∷ is) = on_panel (P.attach_client node email (i ∷ is))

  -- The two branches on `info`, with what each adds to `created` and `reused`.
  pub complete_client :
      Request
      → NodeRecord
      → List XuiInbound
      → Option XuiClientInfo
      → Action P.World ProvisionError (ℕ × ℕ)
  unfolding missing_ids
  complete_client q node targets none =
      let ids = map (λ ib. ib.id) targets in
      let payload =
        build_client_payload q.client_id q.sub_id q.comment q.telegram_id
          (compute_node_flow lower targets default_flow) in
      do on_panel (P.add_client node payload ids); pure (length ids, 0)
  complete_client q node targets (some info) =
      let ids = map (λ ib. ib.id) targets in
      let missing = missing_ids ids info.inbound_ids in
      do
        attach_missing node (client_email q.client_id) missing
        pure (length missing, length ids - length missing)

  -- One round of the loop over `node_inbounds`.
  pub provision_node :
      Request → NodeRecord → List NodeInboundRecord → Action P.World ProvisionError (ℕ × ℕ)
  provision_node q node inbounds = do
    listed ← on_panel (P.list_inbounds node)
    targets ← lift (find_targets node (index_inbounds [] listed) inbounds)
    info ← on_panel (P.get_client node (client_email q.client_id))
    complete_client q node targets info

  pub provision_nodes : Request → NodeGroups → Action P.World ProvisionError (ℕ × ℕ)
  provision_nodes q [] = pure (0, 0)
  provision_nodes q ((id, (node, inbounds)) ∷ groups) = do
    (created, reused) ← provision_node q node inbounds
    (created', reused') ← provision_nodes q groups
    pure (created + created', reused + reused')

  module _ (regex : Regex) where
    -- Up to `_persist_client_record`: only the panels change. `s` is what `load_state` returned.
    pub prepare :
        ControlPlaneState → Str → Str → Option ℕ → Str → Action P.World ProvisionError (ℕ × ℕ)
    prepare s id comment telegram_id fresh = do
      groups ← lift (group_tags (build_inbound_catalog s) (candidate_tags s id comment) [])
      provision_nodes (request_for s id comment telegram_id fresh) groups

    -- `_ensure_client_locked` with no other run in between: the result and the new data.json.
    pub ensure_client_locked :
        Str
        → Str
        → Option ℕ
        → Str
        → ControlPlaneState
        → Action P.World ProvisionError (ProvisioningResult × ControlPlaneState)
    ensure_client_locked id comment telegram_id fresh file = do
      s ← lift (from_store (load_state regex file))
      (created, reused) ← prepare s id comment telegram_id fresh
      file' ← lift (persist regex s id comment fresh file)
      pure (
        record { client = record_for s id comment fresh; created = created; reused = reused },
        file',
      )

    pub ensure_client :
        Str
        → Str
        → Option ℕ
        → Str
        → ControlPlaneState
        → Action P.World ProvisionError (ProvisioningResult × ControlPlaneState)
    ensure_client id comment telegram_id fresh file =
        if is_empty (strip id)
        then raise empty_client_id
        else ensure_client_locked (strip id) comment telegram_id fresh file

    pub ensure_telegram_user :
        ℕ
        → Str
        → Option Str
        → Str
        → ControlPlaneState
        → Action P.World ProvisionError (ProvisioningResult × ControlPlaneState)
    ensure_telegram_user user comment username fresh file =
        let id = strip (show_nat user) in
        ensure_client id (display_comment comment username) (telegram_id_for_client_id id) fresh
          file
