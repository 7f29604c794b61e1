-- ===== src/Data/Store/Saving.antt =====
-- What is written passes validation, which leaves it as it is.
use vpn_control_panel.Prelude.{List, ◌≡◌, ok, map_result, bind_ok}
use vpn_control_panel.Regex.{Regex}
use vpn_control_panel.Data.Models.{ClientRecord, SubscriptionMetadata, ControlPlaneState}
use vpn_control_panel.Data.Validation.{
  declare_tags, validate_client, validate_inbound_tags, validate_state,
}
use vpn_control_panel.Data.Validation.Stable.{
  validate_state_idem, IsNormal, IsNormal-of_valid, valid_of_normal, same_of_normal,
  validate_clients_idem,
}
use vpn_control_panel.Data.Store.{load_state, save_clients, save_subscription}

module _ (regex : Regex) where
  -- If saving clients succeeds, the records that it writes are the validated old ones with the
  -- clients replaced by the validated new ones, and validation leaves them as they are.
  pub load-save_clients :
      (clients : List ClientRecord) (file file' : ControlPlaneState)
      → save_clients regex clients file ≡ ok file'
      → (old : ControlPlaneState) × (validated : List ClientRecord) × (load_state regex file
          ≡ ok old)
        × (map_result validate_client clients ≡ ok validated)
        × (file' ≡ record old { clients = validated })
        × (load_state regex file' ≡ ok file')
  unfolding save_clients load_state
  load-save_clients clients file file' h =
      bind_ok (map_result validate_client clients) _ h λ validated p h1.
        bind_ok (validate_state regex file) _ h1 λ old q h2.
          let (n, valid) = IsNormal-of_valid regex file old q in
          let normal : IsNormal regex (record old { clients = validated }) = record {
            nodes = n.nodes;
            externals = n.externals;
            subscriptions = n.subscriptions;
            clients = validate_clients_idem clients validated p;
            tags = n.tags;
            abroad = n.abroad;
          } in
          (
            old,
            validated,
            q,
            p,
            same_of_normal regex (record old { clients = validated }) file' normal h2,
            validate_state_idem regex (record old { clients = validated }) file' h2,
          )

  -- Where the old records are valid, saving metadata writes the validated ones with the new
  -- metadata, and validation leaves them as they are.
  pub load-save_subscription :
      (metadata : SubscriptionMetadata) (file old : ControlPlaneState)
      → load_state regex file ≡ ok old
      → (save_subscription regex metadata file ≡ ok (record old { subscription = metadata }))
        × (load_state regex (record old { subscription = metadata })
            ≡ ok (record old { subscription = metadata }))
  unfolding save_subscription load_state validate_inbound_tags declare_tags
  load-save_subscription metadata file old h =
      let (n, valid) = IsNormal-of_valid regex file old h in
      let new : ControlPlaneState = record old { subscription = metadata } in
      let normal : IsNormal regex new = record {
        nodes = n.nodes;
        externals = n.externals;
        subscriptions = n.subscriptions;
        clients = n.clients;
        tags = n.tags;
        abroad = n.abroad;
      } in
      let e : validate_state regex new ≡ ok new = valid_of_normal regex new normal valid in
      (rw h e, e)
