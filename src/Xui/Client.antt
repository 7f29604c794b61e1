-- ===== src/Xui/Client.antt =====
-- The requests of `XuiNodeClient`, xui/client.py, and how an answer is read. The HTTP client is an
-- argument, over an unknown state of the panels; the timeout, the certificates and the logs are
-- not modelled. Python's functions on decoded values are an argument too; the numbers that `int`
-- reads here are ids and sizes, which are not negative.
pub mod Payload
pub mod Operations
pub mod Answers
use vpn_control_panel.Prelude.{
  ℕ, List, [], ◌∷◌, ◌++◌, Bool, true, false, not, ◌||◌, ◌&&◌, Option, none, some, Result, ok, err,
  leb, raise_if, ◌==◌, nat_eq, if◌then◌else◌,
}
use vpn_control_panel.Prelude
use vpn_control_panel.Text.{
  Str, codes, strip, lstrip, rstrip, or_text, starts_with, ends_with, is_empty,
}
use vpn_control_panel.Text.Digits.{show_nat}
use vpn_control_panel.Json.{
  Json, null, text, array, object, Items, nil, cons, JsonObject, end, get, put, truthy,
}
use vpn_control_panel.Action.{Action, pure, raise, lift, ◌>>=◌, ◌>>◌}
use vpn_control_panel.Data.Models.{NodeRecord, Scheme, http, https}
use vpn_control_panel.Xui.Panel.{XuiInbound}

pub data Method : Type 0 where
  get_method post_method : Method

-- A request, with its Authorization header; `Accept: application/json` is the same in each.
pub record Request : Type 0 where
  pub method : Method
  pub url : Str
  pub authorization : Str
  pub body : Option Json

-- `decoded` is what `response.json()` returns, none where it raises.
pub record Response : Type 0 where
  pub status_code : ℕ
  pub content : List ℕ
  pub decoded : Option Json

pub data XuiError : Type 0 where
  -- `XuiApiError`
  non_json : ℕ → XuiError
  invalid_shape : XuiError
  request_failed download_failed : ℕ → ℕ → XuiError
  -- an operation that the panel refused, the node, and the panel's message
  refused : Str → ℕ → Str → XuiError
  invalid_payload malformed_payload : Str → ℕ → XuiError
  -- an exception of the HTTP client, and those of `int`, of a missing key and of `json.loads`
  transport : Str → XuiError
  value_error : XuiError

pub record Python : Type 0 where
  pub str : Json → Str
  -- none where they raise
  pub int : Json → Option ℕ
  pub loads : Str → Option Json

pub record Http : Type 1 where
  pub World : Type 0
  pub request : Request → Action World Str Response

-- `normalize_base_path` of this file
unfoldable pub normalize_base_path : Str → Str
unfolding strip
normalize_base_path value =
    let path = or_text (strip value) (codes "/") in
    let rooted = if starts_with path (codes "/") then path else b'/' ∷ path in
    if ends_with rooted b'/' then rooted else rooted ++ codes "/"

abbrev scheme_text : Scheme → Str
scheme_text http = codes "http"
scheme_text https = codes "https"

-- `XuiNodeEndpoint.from_node`
unfoldable pub from_node : NodeRecord → Str
unfolding normalize_base_path
from_node node =
    scheme_text node.scheme
    ++ (codes "://"
        ++ (node.host ++ (codes ":" ++ (show_nat node.port ++ normalize_base_path node.base_path))))

-- `_url`
unfoldable pub url_for : NodeRecord → Str → Str
unfolding from_node lstrip rstrip
url_for node path =
    rstrip (λ c. c == b'/') (from_node node) ++ (b'/' ∷ lstrip (λ c. c == b'/') path)

abbrev or_json : Json → Option Json → Json
or_json d none = d
or_json d (some v) = if truthy (some v) then v else d

-- `_response_json`
abbrev pub decoded_object : ℕ → Option Json → Result XuiError JsonObject
decoded_object status none = err (non_json status)
decoded_object status (some (object o)) = ok o
decoded_object status (some other) = err invalid_shape

unfoldable pub response_json : Response → Result XuiError JsonObject
response_json r = decoded_object r.status_code r.decoded

abbrev pub success : JsonObject → Bool
success body = truthy (get (codes "success") body)

abbrev pub failed_status : ℕ → Bool
failed_status status = leb 400 status

-- The items that are objects.
abbrev pub objects : Items → List JsonObject
objects nil = []
objects (cons (object o) items) = o ∷ objects items
objects (cons other items) = objects items

module _ (py : Python) where
  -- `_api_message`
  unfoldable pub api_message : JsonObject → Str
  api_message body = py.str (
      or_json (or_json (text (codes "unknown error")) (get (codes "message") body))
        (get (codes "msg") body))

  abbrev pub int_of : Option Json → Result XuiError ℕ
  int_of none = err value_error
  int_of (some v) = of_int (py.int v)
    where
      of_int : Option ℕ → Result XuiError ℕ
      of_int none = err value_error
      of_int (some n) = ok n

  -- `[int(i) for i in ids]`
  abbrev pub ints : Items → Result XuiError (List ℕ)
  ints nil = ok []
  ints (cons v items) =
      Prelude.◌>>=◌ (int_of (some v)) λ i. Prelude.◌>>=◌ (ints items) λ is. ok (i ∷ is)

  abbrev object_or_empty : Option Json → Result XuiError JsonObject
  object_or_empty none = err value_error
  object_or_empty (some (object o)) = ok o
  object_or_empty (some other) = ok end

  -- `_parse_json_object`
  unfoldable pub parse_json_object : Option Json → Result XuiError JsonObject
  unfolding strip
  parse_json_object (some (object o)) = ok o
  parse_json_object (some (text s)) =
      if is_empty (strip s) then ok end else object_or_empty (py.loads s)
  parse_json_object other = ok end

  -- `_parse_inbound`
  unfoldable pub parse_inbound : JsonObject → Result XuiError XuiInbound
  unfolding parse_json_object
  parse_inbound raw = Prelude.◌>>=◌ (parse_json_object (get (codes "settings") raw)) λ settings.
      Prelude.◌>>=◌ (parse_json_object (get (codes "streamSettings") raw)) λ stream_settings.
        Prelude.◌>>=◌ (parse_json_object (get (codes "sniffing") raw)) λ sniffing.
          let parsed = put (codes "sniffing") (object sniffing) (
            put (codes "streamSettings") (object stream_settings)
              (put (codes "settings") (object settings) raw)) in
          Prelude.◌>>=◌ (int_of (get (codes "id") parsed)) λ id. ok (record {
            id = id;
            protocol = py.str (or_json (text []) (get (codes "protocol") parsed));
            settings = settings;
            stream_settings = stream_settings;
            sniffing = sniffing;
            raw = parsed;
          })

module _ (H : Http) (py : Python) (node : NodeRecord) where
  abbrev pub Api {ℓ} : Type ℓ → Type ℓ
  Api A = Action H.World XuiError A

  abbrev pub of_transport : Result Str Response → Result XuiError Response
  of_transport (ok r) = ok r
  of_transport (err e) = err (transport e)

  -- `_request`, with `_with_auth_headers`
  unfoldable pub send : Method → Str → Option Json → Api Response
  unfolding url_for
  send method path body w =
      let (r, w') =
        H.request
          (record {
            method = method;
            url = url_for node path;
            authorization = codes "Bearer " ++ node.api_token;
            body = body;
          })
          w in
      (of_transport r, w')

  -- `_request_json`: an answer that is no object is refused before its status is looked at.
  unfoldable pub request_json : Method → Str → Api JsonObject
  unfolding send response_json
  request_json method path = do
    response ← send method path none
    body ← lift (response_json response)
    lift (
        raise_if (failed_status response.status_code) (request_failed node.id response.status_code))
    pure body

  -- `_download`
  unfoldable pub download : Str → Api (List ℕ)
  unfolding send
  download path = do
    response ← send get_method path none
    lift (
        raise_if (failed_status response.status_code)
          (download_failed node.id response.status_code))
    pure response.content

  abbrev pub accepted : Str → Response → JsonObject → Result XuiError (Unit {0})
  accepted operation response body =
      raise_if (failed_status response.status_code || not (success body))
        (refused operation node.id (api_message py body))

  abbrev pub checked : Str → Response → Api (Unit {0})
  checked operation response = do
    body ← lift (response_json response)
    lift (accepted operation response body)

  -- `_post_success`
  unfoldable pub post_success : Str → Str → Bool → Api (Unit {0})
  unfolding send response_json api_message
  post_success path operation ignore_not_found = do
    response ← send post_method path none
    if ignore_not_found && response.status_code == 404 then pure tt else checked operation response

  -- `_post_json_success`
  unfoldable pub post_json_success : Str → Json → Str → Api (Unit {0})
  unfolding send response_json api_message
  post_json_success path body operation = do
    response ← send post_method path (some body)
    checked operation response
