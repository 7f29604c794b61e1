-- ===== src/Tests/Fixtures.antt =====
-- A small data.json, and simple stand-ins for what the program takes from libraries.
use vpn_control_panel.Prelude.{[], ◌∷◌, true, none}
use vpn_control_panel.Text.{codes, has_substring}
use vpn_control_panel.Regex.{Regex}
use vpn_control_panel.Data.Models.{
  NodeRecord, NodeInboundRecord, ExternalInboundRecord, ExternalSubscriptionRecord, ClientRecord,
  ControlPlaneState, SubscriptionMetadata, https,
}

-- patterns without special characters
abbrev pub plain_regex : Regex
plain_regex = record { compiles = λ p. true; search_in = λ p s. has_substring s p }

abbrev pub inbound : NodeInboundRecord
inbound = record {
  tag = codes "a";
  label = codes "A";
  xui_inbound_id = 1;
  xui_fallback_client_email = none;
}

abbrev pub node : NodeRecord
node = record {
  id = 7;
  host = codes "h";
  port = 443;
  base_path = codes "/p/";
  api_token = codes "t";
  scheme = https;
  label = none;
  monitoring = true;
  xui_fallback_client_email = none;
  inbounds = inbound ∷ [];
}

abbrev pub external_inbound : ExternalInboundRecord
external_inbound = record { tag = codes "e"; label = codes "E"; uri = codes "@f:x" }

abbrev pub feed : ExternalSubscriptionRecord
feed = record { name = codes "f"; url = codes "u"; update_interval = 60; inbound_filter = none }

abbrev pub client : ClientRecord
client = record {
  id = codes "5";
  comment = codes "c";
  telegram_id = none;
  sub_id = none;
  legacy_sub_id = none;
  inbound_tags = none;
  abroad_inbound_tags = none;
}

abbrev pub metadata : SubscriptionMetadata
metadata = record {
  profile_title = none;
  profile_update_interval = none;
  profile_web_page_url = none;
  subscription_userinfo = none;
  support_url = none;
  happ_provider_id = none;
  announce = none;
  routing = none;
  routing_enable = none;
}

abbrev pub state : ControlPlaneState
state = record {
  nodes = node ∷ [];
  external_inbounds = external_inbound ∷ [];
  external_subscriptions = feed ∷ [];
  clients = client ∷ [];
  default_client_inbound_tags = codes "a" ∷ codes "e" ∷ [];
  default_client_abroad_inbound_tags = none;
  subscription = metadata;
}
