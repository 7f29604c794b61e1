-- ===== src/Tests/DataTests.antt =====
-- Examples of the theorems on data.json.
use vpn_control_panel.Prelude.{◌≡◌, refl, ◌↔◌, ok, Distinct, All, list_eq, nat_eq}
use vpn_control_panel.Data.Validation.{
  validate_state, validate_inbound_tags, validate_node, validate_node_inbound,
  validate_external_inbound, validate_external_subscription, validate_client, validate_name,
  validate_filter, strip_nonempty, strip_optional, strip_tags, normalize_base_path, declare_tags,
  declare, declare_subscription, validate_reference, validate_tag_list, validate_client_tags,
  check_tag,
}
use vpn_control_panel.Data.Reference.{parse_external_subscription_ref}
use vpn_control_panel.Text.{strip, strip_by, lstrip, rstrip, is_space}
use vpn_control_panel.Data.Validation.Consistency.{IsConsistent, validate_inbound_tags_iff}
use vpn_control_panel.Data.Validation.Stable.{validate_state_idem}
use vpn_control_panel.Data.Store.{load_state, save_clients}
use vpn_control_panel.Data.Catalog.{provisioned_inbound_tags}
use vpn_control_panel.Data.Catalog.Entries.{InCatalog, provisioned_tags_found}
use vpn_control_panel.Tests.Fixtures.{plain_regex, state, client}

validate_inbound_tags_iff_example :
    (validate_inbound_tags plain_regex state ≡ ok tt) ↔ IsConsistent plain_regex state
validate_inbound_tags_iff_example = validate_inbound_tags_iff plain_regex state

state_valid : validate_state plain_regex state ≡ ok state
unfolding validate_state validate_inbound_tags validate_node validate_node_inbound
    validate_external_inbound validate_external_subscription validate_client validate_name
    validate_filter strip_nonempty strip_optional strip_tags normalize_base_path declare_tags
    declare declare_subscription validate_reference validate_tag_list validate_client_tags check_tag
    parse_external_subscription_ref strip strip_by lstrip rstrip is_space
state_valid = refl

validate_state_idem_example : validate_state plain_regex state ≡ ok state
validate_state_idem_example = validate_state_idem plain_regex state state state_valid

pub saved : save_clients plain_regex state.clients state ≡ ok state
unfolding save_clients load_state validate_state validate_inbound_tags validate_node
    validate_node_inbound validate_external_inbound validate_external_subscription validate_client
    validate_name validate_filter strip_nonempty strip_optional strip_tags normalize_base_path
    declare_tags declare declare_subscription validate_reference validate_tag_list
    validate_client_tags check_tag parse_external_subscription_ref strip strip_by lstrip rstrip
    is_space
saved = refl

pub loaded : load_state plain_regex state ≡ ok state
unfolding load_state
loaded = state_valid

tags_valid : validate_inbound_tags plain_regex state ≡ ok tt
unfolding validate_state validate_inbound_tags validate_node validate_node_inbound
    validate_external_inbound validate_external_subscription validate_client validate_name
    validate_filter strip_nonempty strip_optional strip_tags normalize_base_path declare_tags
    declare declare_subscription validate_reference validate_tag_list validate_client_tags check_tag
    parse_external_subscription_ref strip strip_by lstrip rstrip is_space
tags_valid = refl

provisioned_tags_found_example :
    Distinct (provisioned_inbound_tags state client)
    × All (InCatalog state) (provisioned_inbound_tags state client)
provisioned_tags_found_example = provisioned_tags_found plain_regex state client tags_valid (tt, tt)
