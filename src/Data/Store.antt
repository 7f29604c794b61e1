-- ===== src/Data/Store.antt =====
-- What ControlPlaneStore of data/store.py does with records: `_validate` of what was read, and the
-- records that its methods write. A file stands here for the records that reading it gives, with
-- templates resolved. File has the methods themselves, with the JSON text, the templates in it and
-- the replacement on disk.
pub mod Saving
use vpn_control_panel.Prelude.{List, Result, ok, err, ◌>>=◌, map_result}
use vpn_control_panel.Regex.{Regex}
use vpn_control_panel.Data.Models.{
  NodeRecord, ClientRecord, SubscriptionMetadata, ControlPlaneState,
}
use vpn_control_panel.Data.Errors.{ValidationError}
use vpn_control_panel.Data.Validation.{validate_client, validate_state}

module _ (regex : Regex) where
  -- `_validate` of the records that were read
  unfoldable pub load_state : ControlPlaneState → Result ValidationError ControlPlaneState
  load_state file = validate_state regex file

  unfoldable pub load_nodes : ControlPlaneState → Result ValidationError (List NodeRecord)
  load_nodes file = do s ← load_state file; ok s.nodes

  unfoldable pub load_subscription : ControlPlaneState → Result ValidationError SubscriptionMetadata
  load_subscription file = do s ← load_state file; ok s.subscription

  -- The records that the method writes.
  unfoldable pub save_clients :
      List ClientRecord → ControlPlaneState → Result ValidationError ControlPlaneState
  save_clients clients file = do
    validated ← map_result validate_client clients
    s ← load_state file
    validate_state regex (record s { clients = validated })

  unfoldable pub save_subscription :
      SubscriptionMetadata → ControlPlaneState → Result ValidationError ControlPlaneState
  save_subscription subscription file = do
    s ← load_state file
    validate_state regex (record s { subscription = subscription })
