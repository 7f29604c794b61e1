-- ===== src/Provisioning/Payload.antt =====
-- The payload of a new client and the flow of a node: client_email, compute_node_flow,
-- build_client_payload, telegram_id_for_client_id and effective_telegram_id of provisioning.py.
use vpn_control_panel.Prelude.{
  ℕ, List, [], Bool, true, not, ◌||◌, Option, none, some, filter, all, ◌==◌, nat_eq, list_eq,
  if◌then◌else◌,
}
use vpn_control_panel.Text.{Str, codes, strip, is_empty}
use vpn_control_panel.Text.Decimal.{parse_decimal}
use vpn_control_panel.Json.{
  Json, boolean, integer, text, pos, JsonObject, end, field, put, get, truthy,
}
use vpn_control_panel.Data.Models.{ClientRecord}
use vpn_control_panel.Xui.Panel.{XuiInbound}

unfoldable pub client_email : Str → Str
client_email id = id

-- `telegram_client_id`, of a user id that is a number, is `str`; of a text it strips.
unfoldable pub telegram_id_for_client_id : Str → Option ℕ
telegram_id_for_client_id id = parse_decimal (strip id)

abbrev first_number : Option ℕ → Option ℕ → Option ℕ
first_number none other = other
first_number (some n) other = some n

abbrev parse_optional : Option Str → Option ℕ
parse_optional none = none
parse_optional (some s) = parse_decimal s

unfoldable pub effective_telegram_id : ClientRecord → Option ℕ
unfolding telegram_id_for_client_id
effective_telegram_id r =
    first_number (parse_optional r.telegram_id) (telegram_id_for_client_id r.id)

-- `str(value or "tcp") == "tcp"`: the text of a value that is no text is never "tcp".
abbrev is_tcp : Option Json → Bool
is_tcp (some (text s)) = is_empty s || s == codes "tcp"
is_tcp other = not (truthy other)

unfoldable pub compute_node_flow : (Str → Str) → List XuiInbound → Str → Str
compute_node_flow lower inbounds default =
    let vless = filter (λ ib. lower ib.protocol == codes "vless") inbounds in
    if is_empty vless
    then []
    else if all (λ ib. is_tcp (get (codes "network") ib.stream_settings)) vless
    then default
    else []

abbrev with_telegram_id : Option ℕ → JsonObject → JsonObject
with_telegram_id none o = o
with_telegram_id (some n) o = put (codes "tgId") (integer (pos n)) o

unfoldable pub build_client_payload : Str → Str → Str → Option ℕ → Str → JsonObject
unfolding client_email
build_client_payload client_id sub_id comment telegram_id flow = with_telegram_id telegram_id (
    field (codes "email") (text (client_email client_id)) (
      field (codes "subId") (text sub_id) (
        field (codes "comment") (text comment) (
          field (codes "enable") (boolean true) (
            field (codes "limitIp") (integer (pos 0)) (
              field (codes "totalGB") (integer (pos 0)) (
                field (codes "expiryTime") (integer (pos 0)) (
                  field (codes "reset") (integer (pos 0))
                    (field (codes "flow") (text flow) end)))))))))
