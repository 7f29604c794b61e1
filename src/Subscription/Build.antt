-- ===== src/Subscription/Build.antt =====
-- `SubscriptionService.build` and `_fetch_node_data` of subscription/service.py. The calls of a panel
-- are arguments that return, raise or run into the timeout; they only read, so the tasks that fetch
-- the nodes have no order between them. Closing a panel's client has no effect here.
pub mod Total
use vpn_control_panel.Prelude.{
  ℕ, List, [], ◌∷◌, ◌++◌, Bool, true, false, not, ◌||◌, ◌&&◌, Option, none, some, Result, ok, err,
  map, ◌==◌, nat_eq, list_eq, if◌then◌else◌, ◌>>=◌,
}
use vpn_control_panel.Text.{Str, codes, strip, strip_slashes, is_empty}
use vpn_control_panel.Dict.{Dict, lookup, insert}
use vpn_control_panel.Regex.{Regex}
use vpn_control_panel.Json.{Json, null, ℤ, get, truthy}
use vpn_control_panel.Xui.Panel.{XuiInbound}
use vpn_control_panel.Data.Models.{
  NodeRecord, NodeInboundRecord, ExternalInboundRecord, ClientRecord, ControlPlaneState,
  SubscriptionMetadata,
}
use vpn_control_panel.Data.Catalog.{
  CatalogInbound, on_node, external, Catalog, build_inbound_catalog, effective_inbound_tags,
  effective_abroad_inbound_tags,
}
use vpn_control_panel.Provisioning.Payload.{client_email}
use vpn_control_panel.ExternalSubscriptions.Cache.{ResolvedInbounds, resolve_reference}
use vpn_control_panel.Sync.Service.{text_of}
use vpn_control_panel.Subscription.Token.{
  DigestError, find_client, public_token_for_client, build_public_subscription_url,
  abroad_public_url,
}
use vpn_control_panel.Subscription.Traffic.{
  SubscriptionTraffic, no_traffic, add_traffic, build_subscription_userinfo,
}
use vpn_control_panel.Subscription.Render.{
  Codec, BuiltSubscription, abroad_metadata, ensure_fragment_label, relabel_fragment,
}
use vpn_control_panel.Subscription.Links.{
  Urls, panel_link_remark, normalize_link, fallback_client_emails,
}

pub data Call (A : Type 0) : Type 0 where
  returned : A → Call A
  raised : Str → Call A
  timed_out : Call A

-- What `build` uses from outside.
pub record Sources : Type 0 where
  pub regex : Regex
  pub codec : Codec
  pub urls : Urls
  pub int_of : Str → Option ℤ
  pub str_of : Json → Str
  pub hmac_sha256 : Str → Str → ℕ
  pub open_client : NodeRecord → Call (Unit {0})
  pub list_inbounds : NodeRecord → Call (List XuiInbound)
  pub get_client_links : NodeRecord → Str → Call (List Str)
  pub get_client_traffic : NodeRecord → Str → Call Json
  -- the message of `urlsplit` for a url that it refuses
  pub url_error : Str → Str
  -- the message of a timeout
  pub timeout_text : Str

pub record NodeSubscriptionData : Type 0 where
  pub remark_by_inbound : Dict ℕ Str
  pub link_by_remark : Dict Str Str
  pub traffic : Option Json
  pub error : Option Str

pub data BuildError : Type 0 where
  unknown_client : BuildError
  -- the `KeyError`s of `catalog[tag]` and of `node_data[node.id]`
  unknown_tag : Str → BuildError
  no_data : ℕ → BuildError
  -- the `ValueError` of `urlsplit` for a link, and the `TypeError` of `compare_digest`
  bad_link : Str → BuildError
  not_ascii_request : BuildError

abbrev failed : Str → NodeSubscriptionData
failed e = record { remark_by_inbound = []; link_by_remark = []; traffic = none; error = some e }

abbrev pub set_unless {ℓ} : {V : Type ℓ} → Option V → ℕ → V → Dict ℕ V → Dict ℕ V
set_unless none k v d = insert k v d
set_unless (some w) k v d = d

-- `d.setdefault(k, v)`
abbrev pub set_default {ℓ} : {V : Type ℓ} → ℕ → V → Dict ℕ V → Dict ℕ V
set_default k v d = set_unless (lookup k d) k v d

abbrev set_link : Str → Str → Dict Str Str → Dict Str Str
set_link k v d = elim (lookup k d) [ none ↦ insert k v d | some w ↦ d ]

abbrev pub RequestedNodes : Type 0
RequestedNodes = Dict ℕ (NodeRecord × NodeInboundRecord)

abbrev pub add_requested :
    Option CatalogInbound → Str → RequestedNodes → Result BuildError RequestedNodes
add_requested none tag d = err (unknown_tag tag)
add_requested (some (external e)) tag d = ok d
add_requested (some (on_node node i)) tag d = ok (set_default node.id (node, i) d)

-- `requested_nodes`: each node once, with the first of its inbounds
unfoldable pub requested_nodes :
    Catalog → List Str → RequestedNodes → Result BuildError RequestedNodes
requested_nodes catalog [] d = ok d
requested_nodes catalog (tag ∷ tags) d = do
  e ← add_requested (lookup tag catalog) tag d
  requested_nodes catalog tags e

abbrev bool_same : Bool → Bool → Bool
bool_same true b = b
bool_same false b = not b

module _ (src : Sources) where
  abbrev remarks : List XuiInbound → Dict ℕ Str → Dict ℕ Str
  remarks [] d = d
  remarks (ib ∷ ibs) d =
      remarks ibs (insert ib.id (text_of src.str_of (get (codes "remark") ib.raw)) d)

  abbrev remark_or_error : Str → Option Str → Result Str Str
  remark_or_error link none = err (src.url_error link)
  remark_or_error link (some remark) = ok remark

  abbrev links_by_remark : List Str → Dict Str Str → Result Str (Dict Str Str)
  links_by_remark [] d = ok d
  links_by_remark (link ∷ links) d = do
    remark ← remark_or_error link (panel_link_remark src.urls link)
    links_by_remark links (set_link remark link d)

  -- The first call whose answer is not empty, else the last answer; an exception ends it.
  unfoldable pub first_answer :
      {A : Type 0} → (A → Bool) → (Str → Call A) → Call A → List Str → Call A
  first_answer full call answer [] = answer
  first_answer full call (raised e) (email ∷ emails) = raised e
  first_answer full call timed_out (email ∷ emails) = timed_out
  first_answer full call (returned a) (email ∷ emails) =
      let next = first_answer full call (call email) emails in if full a then returned a else next

  abbrev traffic_data : Dict ℕ Str → Dict Str Str → Option Json → NodeSubscriptionData
  traffic_data rs ls t = record {
    remark_by_inbound = rs;
    link_by_remark = ls;
    traffic = t;
    error = none;
  }

  abbrev not_null : Json → Option Json
  not_null null = none
  not_null v = some v

  -- Traffic is not needed: an exception or a timeout leaves it out.
  abbrev with_traffic : Dict ℕ Str → Dict Str Str → Call Json → NodeSubscriptionData
  with_traffic rs ls (returned t) = traffic_data rs ls (not_null t)
  with_traffic rs ls (raised e) = traffic_data rs ls none
  with_traffic rs ls timed_out = traffic_data rs ls none

  -- A link that cannot be split is an error of the node.
  abbrev with_remarks :
      NodeRecord
      → NodeInboundRecord
      → Str
      → Dict ℕ Str
      → Result Str (Dict Str Str)
      → NodeSubscriptionData
  with_remarks node i email rs (err e) = failed e
  with_remarks node i email rs (ok ls) = with_traffic rs ls (
      first_answer (λ t. truthy (some t)) (src.get_client_traffic node)
        (src.get_client_traffic node email) (fallback_client_emails node i))

  abbrev with_links :
      NodeRecord → NodeInboundRecord → Str → Dict ℕ Str → Call (List Str) → NodeSubscriptionData
  with_links node i email rs (raised e) = failed e
  with_links node i email rs timed_out = failed src.timeout_text
  with_links node i email rs (returned links) =
      with_remarks node i email rs (links_by_remark links [])

  abbrev with_inbounds :
      NodeRecord → NodeInboundRecord → Str → Call (List XuiInbound) → NodeSubscriptionData
  with_inbounds node i email (raised e) = failed e
  with_inbounds node i email timed_out = failed src.timeout_text
  with_inbounds node i email (returned ibs) = with_links node i email (remarks ibs []) (
      first_answer (λ links. not (is_empty links)) (src.get_client_links node)
        (src.get_client_links node email) (fallback_client_emails node i))

  -- `_fetch_node_data`
  unfoldable pub fetch_node_data : NodeRecord → NodeInboundRecord → Str → NodeSubscriptionData
  unfolding first_answer fallback_client_emails panel_link_remark
  fetch_node_data node i email = with_inbounds node i email (src.list_inbounds node)

  -- The data of a requested node; a client that cannot be made is an error of the node.
  abbrev pub data_of : Str → NodeRecord → NodeInboundRecord → Call (Unit {0}) → NodeSubscriptionData
  data_of email node i (returned u) = fetch_node_data node i email
  data_of email node i (raised e) = failed e
  data_of email node i timed_out = failed src.timeout_text

  abbrev opens : Call (Unit {0}) → Bool
  opens (returned u) = true
  opens other = false

  -- Nodes whose client is made, or those whose client is not.
  abbrev pub data_where : Bool → Str → RequestedNodes → Dict ℕ NodeSubscriptionData
  data_where made email [] = []
  data_where made email ((id, (node, i)) ∷ nodes) =
      let rest = data_where made email nodes in
      if bool_same (opens (src.open_client node)) made
      then (id, data_of email node i (src.open_client node)) ∷ rest
      else rest

  -- `node_data`: first the nodes without a client, then the fetched ones
  unfoldable pub node_data : Str → RequestedNodes → Dict ℕ NodeSubscriptionData
  unfolding fetch_node_data
  node_data email nodes = data_where false email nodes ++ data_where true email nodes

  abbrev error_of : ℕ → Option Str → List (ℕ × Str)
  error_of id none = []
  error_of id (some e) = (id, e) ∷ []

  abbrev node_errors : Dict ℕ NodeSubscriptionData → List (ℕ × Str)
  node_errors [] = []
  node_errors ((id, data') ∷ rest) = error_of id data'.error ++ node_errors rest

  abbrev add_optional : Option Str → Option Json → SubscriptionTraffic → SubscriptionTraffic
  add_optional none (some stat) t = add_traffic src.int_of stat t
  add_optional e stat t = t

  abbrev all_traffic : Dict ℕ NodeSubscriptionData → SubscriptionTraffic → SubscriptionTraffic
  all_traffic [] t = t
  all_traffic ((id, data') ∷ rest) t = all_traffic rest (add_optional data'.error data'.traffic t)

  abbrev pub normalized : Str → Option Str → Result BuildError (List Str)
  normalized link none = err (bad_link link)
  normalized link (some l) = ok (l ∷ [])

  abbrev pub normalize : Str → Result BuildError (List Str)
  normalize link = normalized link (normalize_link src.urls link)

  abbrev pub labelled : Str → Option Str → Result BuildError (List Str)
  labelled label none = ok []
  labelled label (some uri) =
      if is_empty (strip uri)
      then ok []
      else normalize (ensure_fragment_label src.codec (strip uri) label)

  abbrev pub relabelled : Str → Option Str → Result BuildError (List Str)
  relabelled label none = ok []
  relabelled label (some []) = ok []
  relabelled label (some (c ∷ link)) = normalize (relabel_fragment src.codec (c ∷ link) label)

  abbrev link_of_remark : NodeSubscriptionData → Option Str → Option Str
  link_of_remark d none = none
  link_of_remark d (some []) = none
  link_of_remark d (some (c ∷ remark)) = lookup (c ∷ remark) d.link_by_remark

  abbrev pub node_link :
      NodeRecord → NodeInboundRecord → Option NodeSubscriptionData → Result BuildError (List Str)
  node_link node i none = err (no_data node.id)
  node_link node i (some d) =
      relabelled i.label (link_of_remark d (lookup i.xui_inbound_id d.remark_by_inbound))

  -- One round of the loop over the tags: the link that it appends, if any.
  abbrev pub tag_links :
      ResolvedInbounds
      → Dict ℕ NodeSubscriptionData
      → Str
      → Option CatalogInbound
      → Result BuildError (List Str)
  tag_links resolved fetched tag none = err (unknown_tag tag)
  tag_links resolved fetched tag (some (external e)) =
      labelled e.label (resolve_reference src.regex e.uri resolved)
  tag_links resolved fetched tag (some (on_node node i)) = node_link node i (lookup node.id fetched)

  unfoldable pub all_links :
      Catalog
      → ResolvedInbounds
      → Dict ℕ NodeSubscriptionData
      → List Str
      → Result BuildError (List Str)
  unfolding normalize_link ensure_fragment_label relabel_fragment resolve_reference strip
  all_links catalog resolved fetched [] = ok []
  all_links catalog resolved fetched (tag ∷ tags) = do
    links ← tag_links resolved fetched tag (lookup tag catalog)
    more ← all_links catalog resolved fetched tags
    ok (links ++ more)

  abbrev pub tags_for : Bool → ControlPlaneState → ClientRecord → List Str
  tags_for abroad s c =
      if abroad then effective_abroad_inbound_tags s c else effective_inbound_tags s c

  module _ (base_url : Str) (salt : Option Str) where
    abbrev url_for : Bool → ClientRecord → Str
    url_for abroad c =
        let token = public_token_for_client src.hmac_sha256 salt c in
        if abroad
        then abroad_public_url src.codec.quote base_url token
        else build_public_subscription_url src.codec.quote base_url token

    unfoldable pub build_for :
        ControlPlaneState
        → ResolvedInbounds
        → Bool
        → ClientRecord
        → Result BuildError BuiltSubscription
    unfolding requested_nodes node_data all_links
    build_for s resolved abroad c = do
      nodes ← requested_nodes (build_inbound_catalog s) (tags_for abroad s c) []
      let fetched = node_data (client_email c.id) nodes
      links ← all_links (build_inbound_catalog s) resolved fetched (tags_for abroad s c)
      ok (record {
        client = c;
        links = links;
        metadata = if abroad then abroad_metadata src.codec s.subscription else s.subscription;
        public_url = url_for abroad c;
        subscription_userinfo =
            build_subscription_userinfo src.int_of s.subscription.subscription_userinfo
              (all_traffic fetched no_traffic);
        node_errors = node_errors fetched;
      })

    abbrev pub build_found :
        ControlPlaneState
        → ResolvedInbounds
        → Bool
        → Result DigestError (Option ClientRecord)
        → Result BuildError BuiltSubscription
    build_found s resolved abroad (err e) = err not_ascii_request
    build_found s resolved abroad (ok none) = err unknown_client
    build_found s resolved abroad (ok (some c)) = build_for s resolved abroad c

    -- `build`, given the loaded state and the resolved inbounds
    unfoldable pub build :
        ControlPlaneState → ResolvedInbounds → Str → Bool → Result BuildError BuiltSubscription
    unfolding build_for find_client strip_slashes strip
    build s resolved requested abroad =
        build_found s resolved abroad
          (find_client src.hmac_sha256 salt s.clients (strip_slashes (strip requested)))
