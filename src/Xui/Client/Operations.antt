-- ===== src/Xui/Client/Operations.antt =====
-- The operations of `XuiNodeClient`, xui/client.py, and the panels as the services see them.
use vpn_control_panel.Prelude.{
  ℕ, List, [], ◌∷◌, ◌++◌, Bool, true, false, not, ◌||◌, ◌&&◌, Option, none, some, Result, ok, err,
  raise_if, ◌==◌, nat_eq, if◌then◌else◌,
}
use vpn_control_panel.Prelude
use vpn_control_panel.Text.{Str, codes}
use vpn_control_panel.Text.Digits.{show_nat}
use vpn_control_panel.Json.{
  Json, integer, text, array, object, pos, Items, nil, cons, JsonObject, end, field, get, truthy,
}
use vpn_control_panel.Action.{Action, lift, ◌>>=◌, ◌>>◌}
use vpn_control_panel.Data.Models.{NodeRecord}
use vpn_control_panel.Monitoring.Detectors.{Floats, XuiNodeStatus}
use vpn_control_panel.Xui.Panel.{Panel, XuiInbound, XuiClientInfo}
use vpn_control_panel.Xui.Client.{
  Http, Python, Response, XuiError, refused, invalid_payload, malformed_payload, value_error,
  get_method, response_json, success, objects, api_message, int_of, ints, parse_inbound, send,
  request_json, download, post_success, post_json_success, Api,
}
use vpn_control_panel.Xui.Client.Payload.{pop, writable_client_payload}

-- `body.get("obj") or []`, if it is a list
abbrev listed : Option Json → Option Items
listed (some (array items)) = some items
listed other = if truthy other then none else some nil

abbrev id_array : List ℕ → Items
id_array [] = nil
id_array (i ∷ is) = cons (integer (pos i)) (id_array is)

abbrev truthy_items : (Json → Str) → Items → List Str
truthy_items str nil = []
truthy_items str (cons v items) =
    let rest = truthy_items str items in if truthy (some v) then str v ∷ rest else rest

module _ (py : Python) where
  abbrev parse_inbounds : List JsonObject → Result XuiError (List XuiInbound)
  parse_inbounds [] = ok []
  parse_inbounds (o ∷ os) =
      Prelude.◌>>=◌ (parse_inbound py o) λ i. Prelude.◌>>=◌ (parse_inbounds os) λ is. ok (i ∷ is)

  abbrev row_ids : Option Json → Result XuiError (List ℕ)
  row_ids (some (array items)) = ints py items
  row_ids other = ok []

  -- The loop of `list_clients`: rows without an e-mail are skipped.
  unfoldable pub client_rows : List JsonObject → Result XuiError (List XuiClientInfo)
  client_rows [] = ok []
  client_rows (row ∷ rows) =
      let rest = client_rows rows in
      let kept = Prelude.◌>>=◌ (row_ids (get (codes "inboundIds") row)) λ ids.
        Prelude.◌>>=◌ rest λ infos. ok (
          record {
            client = pop (codes "traffic") (pop (codes "inboundIds") row);
            inbound_ids = ids;
          }
          ∷ infos) in
      if truthy (get (codes "email") row) then kept else rest

  abbrev info_of : Option Json → Option Json → Result XuiError (Option XuiClientInfo)
  info_of (some (object client)) (some (array items)) =
      Prelude.◌>>=◌ (ints py items) λ ids. ok (some (record { client = client; inbound_ids = ids }))
  info_of client ids = ok none

  abbrev client_info : Option Json → Result XuiError (Option XuiClientInfo)
  client_info (some (object o)) = info_of (get (codes "client") o) (get (codes "inboundIds") o)
  client_info other = ok none

  abbrev inbound_info : Option Json → Result XuiError (Option XuiInbound)
  inbound_info (some (object o)) = Prelude.◌>>=◌ (parse_inbound py o) λ i. ok (some i)
  inbound_info other = ok none

  abbrev link_list : Option Json → List Str
  link_list (some (array items)) = truthy_items py.str items
  link_list other = []

  abbrev some_object : Option Json → Option JsonObject
  some_object (some (object o)) = some o
  some_object other = none

  module _ (F : Floats) (to_float : Json → Option F.Float) where
    abbrev required : Option Json → Result XuiError Json
    required none = err value_error
    required (some v) = ok v

    abbrev required_object : Option Json → Result XuiError JsonObject
    required_object (some (object o)) = ok o
    required_object other = err value_error

    abbrev float_of : Option Json → Result XuiError F.Float
    float_of none = err value_error
    float_of (some v) = of_float (to_float v)
      where
        of_float : Option F.Float → Result XuiError F.Float
        of_float none = err value_error
        of_float (some x) = ok x

    abbrev or_blank : Option Json → Json
    or_blank none = text []
    or_blank (some v) = if truthy (some v) then v else text []

    -- `_parse_status`; its exceptions are all turned into one.
    unfoldable pub parse_status : JsonObject → Result XuiError (XuiNodeStatus F)
    parse_status raw = Prelude.◌>>=◌ (required_object (get (codes "mem") raw)) λ memory.
        Prelude.◌>>=◌ (required_object (get (codes "xray") raw)) λ xray.
          Prelude.◌>>=◌ (float_of (get (codes "cpu") raw)) λ cpu.
            Prelude.◌>>=◌ (int_of py (get (codes "current") memory)) λ current.
              Prelude.◌>>=◌ (int_of py (get (codes "total") memory)) λ total.
                Prelude.◌>>=◌ (required (get (codes "state") xray)) λ state. ok (record {
                  cpu_percent = cpu;
                  memory_current = current;
                  memory_total = total;
                  xray_state = py.str state;
                  xray_error_message = py.str (or_blank (get (codes "errorMsg") xray));
                })

module _ (H : Http) (py : Python) (node : NodeRecord) where
  -- `body`, if the panel reports success and its object is a list
  abbrev listed_items : Str → JsonObject → Result XuiError Items
  listed_items operation body = found (listed (get (codes "obj") body))
    where
      found : Option Items → Result XuiError Items
      found none = err (invalid_payload operation node.id)
      found (some items) = ok items

  abbrev list_of : Str → Str → Api H py node Items
  list_of path operation = do
    body ← request_json H py node get_method path
    lift (raise_if (not (success body)) (refused operation node.id (api_message py body)))
    lift (listed_items operation body)

  unfoldable pub list_inbounds : Api H py node (List XuiInbound)
  unfolding request_json api_message parse_inbound
  list_inbounds = do
    items ← list_of (codes "/panel/api/inbounds/list") (codes "xui.list_inbounds")
    lift (parse_inbounds py (objects items))

  unfoldable pub list_clients : Api H py node (List XuiClientInfo)
  unfolding request_json api_message client_rows
  list_clients = do
    items ← list_of (codes "/panel/api/clients/list") (codes "xui.list_clients")
    lift (client_rows py (objects items))

  -- A question whose answer may be missing: status 404 and a failure both mean so.
  abbrev if_success {ℓ} :
      {A : Type ℓ} → A → (Option Json → Result XuiError A) → JsonObject → Result XuiError A
  if_success missing read body = if success body then read (get (codes "obj") body) else ok missing

  abbrev read_answer {ℓ} :
      {A : Type ℓ} → A → (Option Json → Result XuiError A) → Response → Result XuiError A
  read_answer missing read response =
      if response.status_code == 404
      then ok missing
      else Prelude.◌>>=◌ (response_json response) (if_success missing read)

  abbrev question {ℓ} : {A : Type ℓ} → Str → A → (Option Json → Result XuiError A) → Api H py node A
  question path missing read = do
    response ← send H py node get_method path none
    lift (read_answer missing read response)

  unfoldable pub get_inbound : ℕ → Api H py node (Option XuiInbound)
  unfolding send response_json parse_inbound
  get_inbound id = question (codes "/panel/api/inbounds/get/" ++ show_nat id) none (inbound_info py)

  unfoldable pub get_client : Str → Api H py node (Option XuiClientInfo)
  unfolding send response_json
  get_client email = question (codes "/panel/api/clients/get/" ++ email) none (client_info py)

  unfoldable pub get_client_links : Str → Api H py node (List Str)
  unfolding send response_json
  get_client_links email =
      question (codes "/panel/api/clients/links/" ++ email) [] λ o. ok (link_list py o)

  unfoldable pub get_client_traffic : Str → Api H py node (Option JsonObject)
  unfolding send response_json
  get_client_traffic email =
      question (codes "/panel/api/clients/traffic/" ++ email) none λ o. ok (some_object py o)

  unfoldable pub add_client : JsonObject → List ℕ → Api H py node (Unit {0})
  unfolding post_json_success
  add_client client ids =
      post_json_success H py node (codes "/panel/api/clients/add")
        (object (
          field (codes "client") (object client)
            (field (codes "inboundIds") (array (id_array ids)) end)))
        (codes "xui.add_client")

  unfoldable pub attach_client : Str → List ℕ → Api H py node (Unit {0})
  unfolding post_json_success
  attach_client email ids =
      post_json_success H py node (codes "/panel/api/clients/" ++ (email ++ codes "/attach"))
        (object (field (codes "inboundIds") (array (id_array ids)) end)) (codes "xui.attach_client")

  unfoldable pub update_client : Str → JsonObject → Api H py node (Unit {0})
  unfolding post_json_success writable_client_payload
  update_client email client =
      post_json_success H py node (codes "/panel/api/clients/update/" ++ email)
        (object (writable_client_payload client)) (codes "xui.update_client")

  unfoldable pub get_database_backup : Api H py node (List ℕ)
  unfolding download
  get_database_backup = download H py node (codes "/panel/api/server/getDb")

  unfoldable pub get_config_json_backup : Api H py node (List ℕ)
  unfolding download
  get_config_json_backup = download H py node (codes "/panel/api/server/getConfigJson")

  unfoldable pub update_geofiles : Api H py node (Unit {0})
  unfolding post_success
  update_geofiles = do
    post_success H py node (codes "/panel/api/server/updateGeofile") (codes "xui.update_geofile")
        false
    post_success H py node (codes "/panel/api/custom-geo/update-all")
        (codes "xui.update_custom_geofiles") true

  module _ (F : Floats) (to_float : Json → Option F.Float) where
    abbrev malformed : Result XuiError (XuiNodeStatus F) → Result XuiError (XuiNodeStatus F)
    malformed (ok status) = ok status
    malformed (err e) = err (malformed_payload (codes "xui.get_status") node.id)

    abbrev status_of : Option Json → Result XuiError (XuiNodeStatus F)
    status_of (some (object o)) = malformed (parse_status py F to_float o)
    status_of other = err (invalid_payload (codes "xui.get_status") node.id)

    unfoldable pub get_status : Api H py node (XuiNodeStatus F)
    unfolding request_json api_message parse_status
    get_status = do
      body ← request_json H py node get_method (codes "/panel/api/server/status")
      lift (
          raise_if (not (success body))
            (refused (codes "xui.get_status") node.id (api_message py body)))
      lift (status_of (get (codes "obj") body))

-- The panels behind their HTTP interface, with the message of an exception.
abbrev shown {ℓ} : {A : Type ℓ} → (XuiError → Str) → Result XuiError A → Result Str A
shown message (ok a) = ok a
shown message (err e) = err (message e)

abbrev with_message {ℓ κ} :
    {W : Type ℓ} {A : Type κ} → (XuiError → Str) → Action W XuiError A → Action W Str A
with_message message m w = let (r, w') = m w in (shown message r, w')

abbrev pub http_panel : Http → Python → (XuiError → Str) → Panel
http_panel H py message = record {
  World = H.World;
  list_inbounds = λ node. with_message message (list_inbounds H py node);
  list_clients = λ node. with_message message (list_clients H py node);
  get_client = λ node email. with_message message (get_client H py node email);
  add_client = λ node client ids. with_message message (add_client H py node client ids);
  attach_client = λ node email ids. with_message message (attach_client H py node email ids);
  update_client = λ node email client. with_message message (update_client H py node email client);
}
