-- ===== src/Data/Catalog.antt =====
-- The catalog of inbounds by tag, and the tags of a client: the functions of data/models.py that
-- the services call.
pub mod Entries
use vpn_control_panel.Prelude.{
  List, [], ◌∷◌, ◌++◌, Option, none, some, filter, contains, not, list_eq, nat_eq,
}
use vpn_control_panel.Text.{Str}
use vpn_control_panel.Dict.{Dict, insert}
use vpn_control_panel.Data.Models.{
  NodeInboundRecord, NodeRecord, ExternalInboundRecord, ClientRecord, ControlPlaneState,
}

pub data CatalogInbound : Type 0 where
  -- `NodeCatalogInbound(node, inbound)`
  on_node : NodeRecord → NodeInboundRecord → CatalogInbound
  -- `ExternalCatalogInbound(inbound)`
  external : ExternalInboundRecord → CatalogInbound

abbrev pub Catalog : Type 0
Catalog = Dict Str CatalogInbound

unfoldable pub add_node_inbounds : Catalog → NodeRecord → List NodeInboundRecord → Catalog
add_node_inbounds catalog node [] = catalog
add_node_inbounds catalog node (i ∷ is) =
    add_node_inbounds (insert i.tag (on_node node i) catalog) node is

unfoldable pub add_nodes : Catalog → List NodeRecord → Catalog
unfolding add_node_inbounds
add_nodes catalog [] = catalog
add_nodes catalog (node ∷ nodes) = add_nodes (add_node_inbounds catalog node node.inbounds) nodes

unfoldable pub add_externals : Catalog → List ExternalInboundRecord → Catalog
add_externals catalog [] = catalog
add_externals catalog (e ∷ es) = add_externals (insert e.tag (external e) catalog) es

unfoldable pub build_inbound_catalog : ControlPlaneState → Catalog
unfolding add_nodes add_externals
build_inbound_catalog s = add_externals (add_nodes [] s.nodes) s.external_inbounds

abbrev or_tags : Option (List Str) → List Str → List Str
or_tags none other = other
or_tags (some tags) other = tags

unfoldable pub effective_inbound_tags : ControlPlaneState → ClientRecord → List Str
effective_inbound_tags s c = or_tags c.inbound_tags s.default_client_inbound_tags

unfoldable pub effective_abroad_inbound_tags : ControlPlaneState → ClientRecord → List Str
effective_abroad_inbound_tags s c =
    or_tags c.abroad_inbound_tags
      (or_tags s.default_client_abroad_inbound_tags s.default_client_inbound_tags)

unfoldable pub provisioned_inbound_tags : ControlPlaneState → ClientRecord → List Str
unfolding effective_inbound_tags effective_abroad_inbound_tags
provisioned_inbound_tags s c =
    let tags = effective_inbound_tags s c in
    tags ++ filter (λ tag. not (contains tags tag)) (effective_abroad_inbound_tags s c)
