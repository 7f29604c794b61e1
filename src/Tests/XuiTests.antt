-- ===== src/Tests/XuiTests.antt =====
-- Examples on the client of the panels.
use vpn_control_panel.Prelude.{ℕ, [], ◌≡◌, refl, ◌↔◌, true, none, some, ok}
use vpn_control_panel.Text.{codes}
use vpn_control_panel.Json.{text, object, boolean, null, JsonObject, end, field, get}
use vpn_control_panel.Xui.Client.{Http, Python, Response, post_json_success}
use vpn_control_panel.Xui.Client.Payload.{writable_client_payload, writable_client_payload-fields}
use vpn_control_panel.Xui.Client.Answers.{IsAccepting, change_request, post_json_success_iff}
use vpn_control_panel.Tests.Fixtures.{node}

abbrev python : Python
python = record { str = λ v. codes "s"; int = λ v. none; loads = λ s. none }

-- A panel that accepts everything.
abbrev panel : Http
panel = record {
  World = ℕ;
  request = λ q w. (
    ok (record {
      status_code = 200;
      content = [];
      decoded = some (object (field (codes "success") (boolean true) end));
    }),
    w,
  );
}

post_json_success_iff_example :
    ((post_json_success panel python node (codes "/x") null (codes "op") 3).0 ≡ ok tt) ↔ (
      (r : Response) × ((panel.request (change_request panel python node (codes "/x") null) 3).0
        ≡ ok r)
      × IsAccepting r)
post_json_success_iff_example =
    post_json_success_iff panel python node (codes "/x") null (codes "op") 3

abbrev stored_client : JsonObject
stored_client =
    field (codes "traffic") null
      (field (codes "email") (text (codes "e")) (field (codes "uuid") (text (codes "secret")) end))

writable_client_payload-fields_example :
    (get (codes "traffic") (writable_client_payload stored_client) ≡ none)
    × (get (codes "inboundIds") (writable_client_payload stored_client) ≡ none)
    × (get (codes "id") (writable_client_payload stored_client) ≡ some (text (codes "secret")))
    × (get (codes "email") (writable_client_payload stored_client) ≡ some (text (codes "e")))
writable_client_payload-fields_example =
    writable_client_payload-fields stored_client (codes "secret") (codes "email") refl refl refl
