-- ===== src/Data/Validation.antt =====
-- The validators of data/models.py: field constraints in the order of the fields, then
-- `validate_inbound_tags` over the whole state. The first error ends the validation, as
-- `ControlPlaneStore._validate` reports the first.
mod Loops
pub mod Consistency
pub mod Stable
use vpn_control_panel.Prelude.{
  ℕ, List, [], ◌∷◌, ◌++◌, Bool, true, false, ◌||◌, not, Option, none, some, Result, ok, err, ltb,
  raise_if, ◌>>=◌, ◌>>◌, map_result, for_each, option_result, fold_result, fold_groups, contains,
  if◌then◌else◌, ◌==◌, nat_eq, list_eq,
}
use vpn_control_panel.Text.{Str, codes, strip, is_empty, starts_with, ends_with, or_text}
use vpn_control_panel.Regex.{Regex}
use vpn_control_panel.Data.Models.{
  NodeInboundRecord, NodeRecord, ExternalInboundRecord, ExternalSubscriptionRecord, ClientRecord,
  ControlPlaneState,
}
use vpn_control_panel.Data.Errors
use vpn_control_panel.Data.Errors.{
  ValidationError, TagList, too_short, too_small, too_large, empty, reserved_in_name,
  invalid_filter, duplicate_tag, duplicate_subscription, unknown_subscription, invalid_pattern,
  duplicate_in_list, unknown_in_list,
}
use vpn_control_panel.Data.Reference.{ExternalSubscriptionRef, parse_external_subscription_ref}

abbrev Checked : Type 0 → Type 0
Checked A = Result ValidationError A

-- `Field(min_length=1)`
abbrev min_length_one : Str → Str → Checked (Unit {0})
min_length_one field v = raise_if (is_empty v) (too_short field)

-- `Field(ge=1)`
abbrev at_least_one : Str → ℕ → Checked (Unit {0})
at_least_one field n = raise_if (ltb n 1) (too_small field)

unfoldable pub strip_nonempty : Str → Str → Checked Str
strip_nonempty v label = do raise_if (is_empty (strip v)) (empty label); ok (strip v)

unfoldable pub strip_optional : Option Str → Str → Checked (Option Str)
strip_optional v label = option_result (λ s. strip_nonempty s label) v

unfoldable pub strip_tags : List Str → Checked (List Str)
strip_tags = map_result (λ tag. strip_nonempty tag (codes "inbound tag"))

abbrev lead_slash : Str → Str
lead_slash v = if starts_with v (b'/' ∷ []) then v else b'/' ∷ v

abbrev trail_slash : Str → Str
trail_slash v = if ends_with v b'/' then v else v ++ (b'/' ∷ [])

unfoldable pub normalize_base_path : Str → Str
normalize_base_path v = trail_slash (lead_slash (or_text (strip v) (b'/' ∷ [])))

unfoldable pub validate_node_inbound : NodeInboundRecord → Checked NodeInboundRecord
validate_node_inbound r = do
  min_length_one (codes "tag") r.tag
  tag ← strip_nonempty r.tag (codes "inbound tag")
  min_length_one (codes "label") r.label
  at_least_one (codes "xuiInboundId") r.xui_inbound_id
  email ← strip_optional r.xui_fallback_client_email (codes "xui fallback client email")
  ok (record r { tag = tag; xui_fallback_client_email = email })

unfoldable pub validate_node : NodeRecord → Checked NodeRecord
validate_node r = do
  at_least_one (codes "id") r.id
  min_length_one (codes "host") r.host
  at_least_one (codes "port") r.port
  raise_if (ltb 65535 r.port) (too_large (codes "port"))
  min_length_one (codes "apiToken") r.api_token
  token ← strip_nonempty r.api_token (codes "api token")
  email ← strip_optional r.xui_fallback_client_email (codes "xui fallback client email")
  inbounds ← map_result validate_node_inbound r.inbounds
  ok (record r {
    base_path = normalize_base_path r.base_path;
    api_token = token;
    xui_fallback_client_email = email;
    inbounds = inbounds;
  })

unfoldable pub validate_external_inbound : ExternalInboundRecord → Checked ExternalInboundRecord
validate_external_inbound r = do
  min_length_one (codes "tag") r.tag
  tag ← strip_nonempty r.tag (codes "inbound tag")
  min_length_one (codes "label") r.label
  min_length_one (codes "uri") r.uri
  ok (record r { tag = tag })

unfoldable pub validate_name : Str → Checked Str
validate_name v = do
  name ← strip_nonempty v (codes "subscription name")
  raise_if (contains name b':' || contains name b'@') (reserved_in_name name)
  ok name

unfoldable pub validate_client : ClientRecord → Checked ClientRecord
validate_client r = do
  min_length_one (codes "id") r.id
  id ← strip_nonempty r.id (codes "identifier")
  telegram_id ← strip_optional r.telegram_id (codes "identifier")
  sub_id ← strip_optional r.sub_id (codes "identifier")
  legacy_sub_id ← strip_optional r.legacy_sub_id (codes "identifier")
  tags ← option_result strip_tags r.inbound_tags
  abroad_tags ← option_result strip_tags r.abroad_inbound_tags
  ok (record r {
    id = id;
    telegram_id = telegram_id;
    sub_id = sub_id;
    legacy_sub_id = legacy_sub_id;
    inbound_tags = tags;
    abroad_inbound_tags = abroad_tags;
  })

-- `declare`: the set of known tags is a list with the latest in front.
unfoldable pub declare : List Str → Str → Checked (List Str)
declare known tag = if contains known tag then err (duplicate_tag tag) else ok (tag ∷ known)

unfoldable pub declare_tags : ControlPlaneState → Checked (List Str)
unfolding declare
declare_tags s = do
  known ← fold_groups (λ node. node.inbounds) (λ k i. declare k i.tag) [] s.nodes
  fold_result (λ k e. declare k e.tag) known s.external_inbounds

unfoldable pub declare_subscription : List Str → ExternalSubscriptionRecord → Checked (List Str)
declare_subscription seen r =
    if contains seen r.name then err (duplicate_subscription r.name) else ok (r.name ∷ seen)

unfoldable pub check_tag : TagList → List Str → List Str → Str → Checked (List Str)
check_tag l known seen tag =
    if contains seen tag
    then err (duplicate_in_list l tag)
    else if contains known tag
    then ok (tag ∷ seen)
    else err (unknown_in_list l tag)

-- `_validate_tag_list`
unfoldable pub validate_tag_list : TagList → List Str → List Str → Checked (Unit {0})
unfolding check_tag
validate_tag_list l tags known = do seen ← fold_result (check_tag l known) [] tags; ok tt

abbrev validate_optional_tags : TagList → Option (List Str) → List Str → Checked (Unit {0})
validate_optional_tags l none known = ok tt
validate_optional_tags l (some tags) known = validate_tag_list l tags known

unfoldable pub validate_client_tags : List Str → ClientRecord → Checked (Unit {0})
validate_client_tags known c = do
  validate_optional_tags (Errors.inbound_tags c.id) c.inbound_tags known
  validate_optional_tags (Errors.abroad_inbound_tags c.id) c.abroad_inbound_tags known

module _ (regex : Regex) where
  unfoldable pub validate_filter : Str → Checked (Option Str)
  validate_filter v =
      if is_empty (strip v)
      then ok none
      else if regex.compiles (strip v)
      then ok (some (strip v))
      else err (invalid_filter (strip v))

  abbrev validate_optional_filter : Option Str → Checked (Option Str)
  validate_optional_filter none = ok none
  validate_optional_filter (some v) = validate_filter v

  unfoldable pub validate_external_subscription :
      ExternalSubscriptionRecord → Checked ExternalSubscriptionRecord
  validate_external_subscription r = do
    min_length_one (codes "name") r.name
    name ← validate_name r.name
    min_length_one (codes "url") r.url
    at_least_one (codes "updateInterval") r.update_interval
    filter ← validate_optional_filter r.inbound_filter
    ok (record r { name = name; inbound_filter = filter })

  abbrev check_query : List Str → Str → Option ExternalSubscriptionRef → Checked (Unit {0})
  check_query names tag none = ok tt
  check_query names tag (some ref) = do
    raise_if (not (contains names ref.name)) (unknown_subscription tag ref.name)
    raise_if (if ref.is_regex then not (regex.compiles ref.query) else false) (invalid_pattern tag)

  unfoldable pub validate_reference : List Str → ExternalInboundRecord → Checked (Unit {0})
  validate_reference names r = do
    ref ← parse_external_subscription_ref r.uri
    check_query names r.tag ref

  unfoldable pub validate_inbound_tags : ControlPlaneState → Checked (Unit {0})
  validate_inbound_tags s = do
    known ← declare_tags s
    names ← fold_result declare_subscription [] s.external_subscriptions
    for_each (validate_reference names) s.external_inbounds
    validate_tag_list Errors.default_client_inbound_tags s.default_client_inbound_tags known
    validate_optional_tags Errors.default_client_abroad_inbound_tags
        s.default_client_abroad_inbound_tags known
    for_each (validate_client_tags known) s.clients

  -- `TypeAdapter(ControlPlaneState).validate_python`, on data whose shape has been checked
  unfoldable pub validate_state : ControlPlaneState → Checked ControlPlaneState
  validate_state s = do
    nodes ← map_result validate_node s.nodes
    externals ← map_result validate_external_inbound s.external_inbounds
    subscriptions ← map_result validate_external_subscription s.external_subscriptions
    clients ← map_result validate_client s.clients
    tags ← strip_tags s.default_client_inbound_tags
    abroad_tags ← option_result strip_tags s.default_client_abroad_inbound_tags
    let normal = record s {
      nodes = nodes;
      external_inbounds = externals;
      external_subscriptions = subscriptions;
      clients = clients;
      default_client_inbound_tags = tags;
      default_client_abroad_inbound_tags = abroad_tags;
    }
    validate_inbound_tags normal
    ok normal
