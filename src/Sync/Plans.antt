-- ===== src/Sync/Plans.antt =====
-- `_build_node_plans` of sync/service.py: which clients go onto which inbounds of each node.
use vpn_control_panel.Prelude.{
  ℕ, List, [], ◌∷◌, ◌++◌, ◌≡◌, Bool, true, Option, none, some, arith, contains, contains-append,
  ◌==◌, nat_eq, list_eq, nat_beq_iff, list_beq_iff, Bool-cases, inl, inr,
}
use vpn_control_panel.Text.{Str}
use vpn_control_panel.Dict.{Dict, lookup, insert, values, lookup-insert}
use vpn_control_panel.Data.Models.{NodeRecord, NodeInboundRecord, ClientRecord, ControlPlaneState}
use vpn_control_panel.Data.Catalog.{
  CatalogInbound, on_node, external, Catalog, build_inbound_catalog, provisioned_inbound_tags,
}

pub record NodePlan : Type 0 where
  pub node : NodeRecord
  pub targets : List (ClientRecord × List ℕ)

-- `per_node` and `nodes_by_id` in one: the latest record of the node, and the ids in order.
abbrev pub NodeTargets : Type 0
NodeTargets = Dict ℕ (NodeRecord × List ℕ)

abbrev ids_of : Option (NodeRecord × List ℕ) → List ℕ
ids_of none = []
ids_of (some (node, ids)) = ids

abbrev add_target : Option CatalogInbound → NodeTargets → NodeTargets
add_target none per_node = per_node
add_target (some (external e)) per_node = per_node
add_target (some (on_node node i)) per_node =
    insert node.id (node, ids_of (lookup node.id per_node) ++ (i.xui_inbound_id ∷ [])) per_node

unfoldable pub client_targets : Catalog → List Str → NodeTargets → NodeTargets
client_targets catalog [] per_node = per_node
client_targets catalog (tag ∷ tags) per_node =
    client_targets catalog tags (add_target (lookup tag catalog) per_node)

abbrev extend_plan : NodeRecord → ClientRecord × List ℕ → Option NodePlan → NodePlan
extend_plan node target none = record { node = node; targets = target ∷ [] }
extend_plan node target (some plan) = record plan { targets = plan.targets ++ (target ∷ []) }

unfoldable pub add_client_plans : ClientRecord → NodeTargets → Dict ℕ NodePlan → Dict ℕ NodePlan
add_client_plans c [] plans = plans
add_client_plans c ((id, (node, ids)) ∷ per_node) plans =
    add_client_plans c per_node (insert id (extend_plan node (c, ids) (lookup id plans)) plans)

unfoldable pub add_clients :
    ControlPlaneState → Catalog → List ClientRecord → Dict ℕ NodePlan → Dict ℕ NodePlan
unfolding client_targets add_client_plans
add_clients s catalog [] plans = plans
add_clients s catalog (c ∷ cs) plans =
    add_clients s catalog cs
      (add_client_plans c (client_targets catalog (provisioned_inbound_tags s c) []) plans)

unfoldable pub build_node_plans : ControlPlaneState → List NodePlan
unfolding add_clients
build_node_plans s = values (add_clients s (build_inbound_catalog s) s.clients [])

-- An inbound of a node is among the targets.
abbrev pub has_id : ℕ → ℕ → NodeTargets → Bool
has_id node i per_node = contains (ids_of (lookup node per_node)) i

add_target_keeps :
    (o : Option CatalogInbound) (per_node : NodeTargets) (node i : ℕ)
    → has_id node i per_node ≡ true
    → has_id node i (add_target o per_node) ≡ true
add_target_keeps none per_node node i h = h
add_target_keeps (some (external e)) per_node node i h = h
add_target_keeps (some (on_node n j)) per_node node i h = ground (
  arith,
  lookup-insert n.id node (n, ids_of (lookup n.id per_node) ++ (j.xui_inbound_id ∷ [])) per_node,
  nat_beq_iff n.id node,
  contains-append (ids_of (lookup n.id per_node)) (j.xui_inbound_id ∷ []) i,
)

client_targets_keeps :
    (catalog : Catalog) (tags : List Str) (per_node : NodeTargets) (node i : ℕ)
    → has_id node i per_node ≡ true
    → has_id node i (client_targets catalog tags per_node) ≡ true
unfolding client_targets
client_targets_keeps catalog [] per_node node i h = h
client_targets_keeps catalog (tag ∷ tags) per_node node i h =
    client_targets_keeps catalog tags (add_target (lookup tag catalog) per_node) node i
      (add_target_keeps (lookup tag catalog) per_node node i h)

add_target_here :
    (o : Option CatalogInbound) (per_node : NodeTargets) (n : NodeRecord) (i : NodeInboundRecord)
    → o ≡ some (on_node n i)
    → has_id n.id i.xui_inbound_id (add_target o per_node) ≡ true
add_target_here o per_node n i h = rw h (
    ground (
      arith,
      lookup-insert n.id n.id (n, ids_of (lookup n.id per_node) ++ (i.xui_inbound_id ∷ []))
          per_node,
      nat_beq_iff n.id n.id,
      nat_beq_iff i.xui_inbound_id i.xui_inbound_id,
      contains-append (ids_of (lookup n.id per_node)) (i.xui_inbound_id ∷ []) i.xui_inbound_id,
    ))

-- Every tag of a client that names an inbound of a node is a target of the client on that node,
-- whatever the other tags are.
pub client_targets-covers :
    (catalog : Catalog) (tags : List Str) (per_node : NodeTargets) (tag : Str) (n : NodeRecord)
    (i : NodeInboundRecord)
    → contains tags tag ≡ true
    → lookup tag catalog ≡ some (on_node n i)
    → has_id n.id i.xui_inbound_id (client_targets catalog tags per_node) ≡ true
unfolding client_targets
client_targets-covers catalog [] per_node tag n i h found = cc
client_targets-covers catalog (t ∷ tags) per_node tag n i h found = elim (Bool-cases (t == tag)) [
  | inl p ↦
      client_targets_keeps catalog tags (add_target (lookup t catalog) per_node) n.id
        i.xui_inbound_id
        (add_target_here (lookup t catalog) per_node n i (rw ((list_beq_iff t tag).0 p) found))
  | inr p ↦
      client_targets-covers catalog tags (add_target (lookup t catalog) per_node) tag n i
        (ground arith) found
]
