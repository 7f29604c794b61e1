-- ===== src/Data/Catalog/Entries.antt =====
-- The catalog of a consistent state is the list of its inbounds, and has every tag of a client.
use mathlib.Core.List.{map-append}
use vpn_control_panel.Prelude.{
  List, [], ◌∷◌, ◌++◌, ◌≡◌, refl, ap, ◌∙◌, sym, not, Option, none, some, arith, contains, All,
  All-map, Distinct, map, filter, flatten_groups, nat_eq, list_eq, contains-filter, Distinct-append,
  Distinct-filter, All-append, All-filter, ok,
}
use vpn_control_panel.Text.{Str}
use vpn_control_panel.Dict.{
  keys, lookup, insert, insert_all, insert_all-append, insert_all_new, contains-insert_all,
  lookup_of_contains,
}
use vpn_control_panel.Regex.{Regex}
use vpn_control_panel.Data.Models.{
  NodeInboundRecord, NodeRecord, ExternalInboundRecord, ClientRecord, ControlPlaneState,
}
use vpn_control_panel.Data.Validation.{validate_inbound_tags}
use vpn_control_panel.Data.Validation.Consistency.{
  node_inbound_tags, declared_tags, TagsFit, OptionalFit, ClientFits, validate_inbound_tags_iff,
}
use vpn_control_panel.Data.Catalog.{
  CatalogInbound, on_node, external, Catalog, or_tags, add_node_inbounds, add_nodes, add_externals,
  build_inbound_catalog, effective_inbound_tags, effective_abroad_inbound_tags,
  provisioned_inbound_tags,
}

abbrev pub node_entries : NodeRecord → List NodeInboundRecord → Catalog
node_entries node [] = []
node_entries node (i ∷ is) = (i.tag, on_node node i) ∷ node_entries node is

abbrev pub external_entries : List ExternalInboundRecord → Catalog
external_entries [] = []
external_entries (e ∷ es) = (e.tag, external e) ∷ external_entries es

-- Every inbound of the state under its tag, in the order of data.json.
abbrev pub entries : ControlPlaneState → Catalog
entries s =
    flatten_groups (λ n. node_entries n n.inbounds) s.nodes ++ external_entries s.external_inbounds

keys-append : (c d : Catalog) → keys (c ++ d) ≡ keys c ++ keys d
keys-append [] d = refl
keys-append ((k, v) ∷ c) d = ap (◌∷◌ k) (keys-append c d)

keys-node_entries :
    (n : NodeRecord) (is : List NodeInboundRecord) → keys (node_entries n is) ≡ map (λ i. i.tag) is
keys-node_entries n [] = refl
keys-node_entries n (i ∷ is) = ap (◌∷◌ i.tag) (keys-node_entries n is)

keys-external_entries :
    (es : List ExternalInboundRecord) → keys (external_entries es) ≡ map (λ e. e.tag) es
keys-external_entries [] = refl
keys-external_entries (e ∷ es) = ap (◌∷◌ e.tag) (keys-external_entries es)

keys-nodes :
    (ns : List NodeRecord)
    → keys (flatten_groups (λ n. node_entries n n.inbounds) ns) ≡ node_inbound_tags ns
keys-nodes [] = refl
keys-nodes (n ∷ ns) =
    keys-append (node_entries n n.inbounds) (flatten_groups (λ m. node_entries m m.inbounds) ns)
    ∙ rw (keys-node_entries n n.inbounds, keys-nodes ns, map-append)

keys-entries : (s : ControlPlaneState) → keys (entries s) ≡ declared_tags s
keys-entries s =
    keys-append (flatten_groups (λ n. node_entries n n.inbounds) s.nodes)
      (external_entries s.external_inbounds)
    ∙ rw (keys-nodes s.nodes, keys-external_entries s.external_inbounds)

-- The loops of `build_inbound_catalog` insert the entries in order.
add_node_inbounds_lem :
    (c : Catalog) (n : NodeRecord) (is : List NodeInboundRecord)
    → add_node_inbounds c n is ≡ insert_all c (node_entries n is)
unfolding add_node_inbounds
add_node_inbounds_lem c n [] = refl
add_node_inbounds_lem c n (i ∷ is) = add_node_inbounds_lem (insert i.tag (on_node n i) c) n is

add_nodes_lem :
    (c : Catalog) (ns : List NodeRecord)
    → add_nodes c ns ≡ insert_all c (flatten_groups (λ n. node_entries n n.inbounds) ns)
unfolding add_nodes
add_nodes_lem c [] = refl
add_nodes_lem c (n ∷ ns) =
    add_nodes_lem (add_node_inbounds c n n.inbounds) ns
    ∙ rw (add_node_inbounds_lem c n n.inbounds) (
        sym (
          insert_all-append c (node_entries n n.inbounds)
            (flatten_groups (λ m. node_entries m m.inbounds) ns)))

add_externals_lem :
    (c : Catalog) (es : List ExternalInboundRecord)
    → add_externals c es ≡ insert_all c (external_entries es)
unfolding add_externals
add_externals_lem c [] = refl
add_externals_lem c (e ∷ es) = add_externals_lem (insert e.tag (external e) c) es

build_inbound_catalog_lem :
    (s : ControlPlaneState) → build_inbound_catalog s ≡ insert_all [] (entries s)
unfolding build_inbound_catalog
build_inbound_catalog_lem s =
    add_externals_lem (add_nodes [] s.nodes) s.external_inbounds
    ∙ rw (add_nodes_lem [] s.nodes) (
        sym (
          insert_all-append [] (flatten_groups (λ n. node_entries n n.inbounds) s.nodes)
            (external_entries s.external_inbounds)))

-- If no tag is declared twice, the catalog is the list of all inbounds under their tags, in the
-- order of data.json, each node inbound with its node: no entry overwrites another.
pub build_inbound_catalog-eq-entries :
    (s : ControlPlaneState) → Distinct (declared_tags s) → build_inbound_catalog s ≡ entries s
build_inbound_catalog-eq-entries s h =
    build_inbound_catalog_lem s
    ∙ insert_all_new [] (entries s) (rw (keys-entries s) h) (λ k p. refl)

-- Whatever the state, the catalog has exactly the declared tags.
pub contains-catalog :
    (s : ControlPlaneState) (tag : Str)
    → contains (keys (build_inbound_catalog s)) tag ≡ contains (declared_tags s) tag
contains-catalog s tag =
    rw (build_inbound_catalog_lem s, ← keys-entries s)
      (ground (arith, contains-insert_all [] (entries s) tag))

module _ (s : ControlPlaneState) (c : ClientRecord)
    (default : TagsFit (declared_tags s) s.default_client_inbound_tags)
    (abroad : OptionalFit (declared_tags s) s.default_client_abroad_inbound_tags)
    (fits : ClientFits (declared_tags s) c) where
  pub effective-TagsFit : TagsFit (declared_tags s) (effective_inbound_tags s c)
  unfolding effective_inbound_tags
  effective-TagsFit = pick c.inbound_tags fits.0
    where
      pick :
          (o : Option (List Str))
          → OptionalFit (declared_tags s) o
          → TagsFit (declared_tags s) (or_tags o s.default_client_inbound_tags)
      pick none h = default
      pick (some tags) h = h

  pub abroad-TagsFit : TagsFit (declared_tags s) (effective_abroad_inbound_tags s c)
  unfolding effective_abroad_inbound_tags
  abroad-TagsFit = pick c.abroad_inbound_tags s.default_client_abroad_inbound_tags fits.1 abroad
    where
      pick :
          (o p : Option (List Str))
          → OptionalFit (declared_tags s) o
          → OptionalFit (declared_tags s) p
          → TagsFit (declared_tags s) (or_tags o (or_tags p s.default_client_inbound_tags))
      pick none none h k = default
      pick none (some tags) h k = k
      pick (some tags) p h k = h

  -- the tags that a client is provisioned on, its abroad ones included
  pub provisioned-TagsFit : TagsFit (declared_tags s) (provisioned_inbound_tags s c)
  unfolding provisioned_inbound_tags
  provisioned-TagsFit =
      let tags = effective_inbound_tags s c in
      let more = effective_abroad_inbound_tags s c in
      let fresh = λ (tag : Str). not (contains tags tag) in
      (
        Distinct-append tags (filter fresh more) effective-TagsFit.0
            (Distinct-filter fresh more abroad-TagsFit.0)
            (λ a p. ground (arith, contains-filter fresh more a)),
        All-append _ tags (filter fresh more) effective-TagsFit.1
            (All-filter _ fresh more abroad-TagsFit.1),
      )

-- `catalog[tag]` does not raise `KeyError`.
abbrev pub InCatalog : ControlPlaneState → Str → Type 0
InCatalog s tag = (entry : CatalogInbound) × (lookup tag (build_inbound_catalog s) ≡ some entry)

pub TagsFit-InCatalog :
    (s : ControlPlaneState) (tags : List Str)
    → TagsFit (declared_tags s) tags
    → All (InCatalog s) tags
TagsFit-InCatalog s tags h =
    All-map tags
      (λ tag p. lookup_of_contains tag (build_inbound_catalog s) (contains-catalog s tag ∙ p)) h.1

-- In a state that passed `validate_inbound_tags`, for a client whose own lists fit (every client
-- of the state, and a new client without lists), the tags that it is provisioned on are listed
-- once each, and `catalog[tag]` finds every one of them.
pub provisioned_tags_found :
    (regex : Regex) (s : ControlPlaneState) (c : ClientRecord)
    → validate_inbound_tags regex s ≡ ok tt
    → ClientFits (declared_tags s) c
    → Distinct (provisioned_inbound_tags s c) × All (InCatalog s) (provisioned_inbound_tags s c)
provisioned_tags_found regex s c valid fits =
    let ok_state = (validate_inbound_tags_iff regex s).0 valid in
    let h = provisioned-TagsFit s c ok_state.default_fit ok_state.abroad_fit fits in
    (h.0, TagsFit-InCatalog s (provisioned_inbound_tags s c) h)
