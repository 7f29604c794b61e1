-- ===== src/Data/Models.antt =====
-- src/vpn_control_plane/data/models.py: the records of data.json. Field constraints and
-- validators are in Validation; numbers below zero are rejected like 0, so ℕ is enough.
use vpn_control_panel.Prelude.{ℕ, List, [], ◌∷◌, Bool, Option, none, some}
use vpn_control_panel.Text.{Str, or_default}

pub record NodeInboundRecord : Type 0 where
  pub tag : Str
  pub label : Str
  pub xui_inbound_id : ℕ
  pub xui_fallback_client_email : Option Str

pub data Scheme : Type 0 where
  http https : Scheme

pub record NodeRecord : Type 0 where
  pub id : ℕ
  pub host : Str
  pub port : ℕ
  pub base_path : Str
  pub api_token : Str
  pub scheme : Scheme
  pub label : Option Str
  pub monitoring : Bool
  pub xui_fallback_client_email : Option Str
  pub inbounds : List NodeInboundRecord

pub record ExternalInboundRecord : Type 0 where
  pub tag : Str
  pub label : Str
  pub uri : Str

pub record ExternalSubscriptionRecord : Type 0 where
  pub name : Str
  pub url : Str
  pub update_interval : ℕ
  pub inbound_filter : Option Str

pub record ClientRecord : Type 0 where
  pub id : Str
  pub comment : Str
  pub telegram_id : Option Str
  pub sub_id : Option Str
  pub legacy_sub_id : Option Str
  pub inbound_tags : Option (List Str)
  pub abroad_inbound_tags : Option (List Str)

unfoldable pub effective_sub_id : ClientRecord → Str
effective_sub_id c = or_default c.sub_id c.id

abbrev pub legacy_ids : Option Str → Option Str → Str → List Str
legacy_ids (some legacy) sub id = legacy ∷ []
legacy_ids none (some sub) id = []
legacy_ids none none id = id ∷ []

unfoldable pub legacy_subscription_ids : ClientRecord → List Str
legacy_subscription_ids c = legacy_ids c.legacy_sub_id c.sub_id c.id

pub record SubscriptionMetadata : Type 0 where
  pub profile_title : Option Str
  pub profile_update_interval : Option ℕ
  pub profile_web_page_url : Option Str
  pub subscription_userinfo : Option Str
  pub support_url : Option Str
  pub happ_provider_id : Option Str
  pub announce : Option Str
  pub routing : Option Str
  pub routing_enable : Option Bool

pub record ControlPlaneState : Type 0 where
  pub nodes : List NodeRecord
  pub external_inbounds : List ExternalInboundRecord
  pub external_subscriptions : List ExternalSubscriptionRecord
  pub clients : List ClientRecord
  pub default_client_inbound_tags : List Str
  pub default_client_abroad_inbound_tags : Option (List Str)
  pub subscription : SubscriptionMetadata
