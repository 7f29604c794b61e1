-- ===== src/Tests/SyncTests.antt =====
-- Examples of the theorems on the synchronisation.
use vpn_control_panel.Prelude.{
  ℕ, suc, ◌++◌, Subset, [], ◌∷◌, ◌≡◌, refl, true, false, none, some, ok, nat_eq, list_eq,
}
use vpn_control_panel.Text.{Str, codes}
use vpn_control_panel.Dict.{Dict, lookup, keys}
use vpn_control_panel.Json.{Json, text, end, field}
use vpn_control_panel.Xui.Panel.{Panel, XuiInbound, XuiClientInfo}
use vpn_control_panel.Data.Catalog.{on_node, Catalog}
use vpn_control_panel.Provisioning.{missing_ids}
use vpn_control_panel.Provisioning.Payload.{client_email}
use vpn_control_panel.Sync.Plans.{has_id, client_targets, client_targets-covers}
use vpn_control_panel.Sync.Service.{
  Wanted, wanted_of, empty_report, updated_payload, reconcile_client, reconcile_all,
}
use vpn_control_panel.Sync.Service.Settled.{reconcile_client-settled, reconcile_all-dry_run}
use vpn_control_panel.Tests.Fixtures.{node, inbound, client}

abbrev str_of : Json → Str
str_of v = codes "?"

abbrev same : Str → Str
same s = s

abbrev catalog : Catalog
catalog = (codes "a", on_node node inbound) ∷ []

client_targets-covers_example : has_id 7 1 (client_targets catalog (codes "a" ∷ []) []) ≡ true
client_targets-covers_example =
    client_targets-covers catalog (codes "a" ∷ []) [] (codes "a") node inbound refl refl

abbrev wanted : Wanted
wanted = record { comment = codes "c"; sub_id = codes "5"; telegram_id = some 5 }

-- a panel that counts the calls that change it
abbrev counting : Panel
counting = record {
  World = ℕ;
  list_inbounds = λ n w. (ok [], w);
  list_clients = λ n w. (ok [], w);
  get_client = λ n e w. (ok none, w);
  add_client = λ n payload ids w. (ok tt, suc w);
  attach_client = λ n e ids w. (ok tt, suc w);
  update_client = λ n e payload w. (ok tt, suc w);
}

abbrev xui_inbound : XuiInbound
xui_inbound = record {
  id = 1;
  protocol = codes "vless";
  settings = end;
  stream_settings = end;
  sniffing = end;
  raw = end;
}

-- What the panel had before an update: another comment, and no inbound.
abbrev outdated : XuiClientInfo
outdated = record { client = field (codes "comment") (text (codes "old")) end; inbound_ids = [] }

abbrev by_id : Dict ℕ XuiInbound
by_id = (1, xui_inbound) ∷ []

-- What it has after the update.
abbrev settled : XuiClientInfo
settled = record {
  client = updated_payload (wanted_of client) outdated.client;
  inbound_ids = outdated.inbound_ids ++ missing_ids (1 ∷ []) outdated.inbound_ids;
}

abbrev existing : Dict Str XuiClientInfo
existing = (codes "5", settled) ∷ []

client_found : lookup (client_email client.id) existing ≡ some settled
unfolding client_email
client_found = refl

inbound_known : Subset (1 ∷ []) (keys by_id)
inbound_known a h = h

reconcile_client-settled_example :
    reconcile_client counting same str_of
      (codes "f")
      false
      node
      client
      (1 ∷ [])
      by_id
      existing
      (0, empty_report)
    ≡ (ok tt, (0, empty_report))
reconcile_client-settled_example =
    reconcile_client-settled counting same str_of (codes "f") false node client (1 ∷ []) by_id
      existing outdated (0, empty_report) inbound_known client_found

reconcile_all-dry_run_example :
    (reconcile_all counting same str_of
      (codes "f")
      true
      node
      ((client, 1 ∷ []) ∷ [])
      by_id
      []
      (0, empty_report)).0
    ≡ 0
reconcile_all-dry_run_example =
    reconcile_all-dry_run counting same str_of (codes "f") 0 node ((client, 1 ∷ []) ∷ []) by_id []
      (0, empty_report) refl
