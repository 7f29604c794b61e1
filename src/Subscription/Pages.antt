-- ===== src/Subscription/Pages.antt =====
-- The responses of subscription/service.py: the text, the JSON and the HTML page of a subscription.
-- `json.dumps`, the dump of the metadata, the QR image, the list of recommended clients and the
-- text of the page's template are arguments.
use vpn_control_panel.Prelude.{
  ℕ, zero, suc, ◌+◌, ◌-◌, List, [], ◌∷◌, ◌++◌, Bool, true, false, Option, none, some, length,
  if◌then◌else◌,
}
use vpn_control_panel.Text.{Str, codes, starts_with, or_text, or_default}
use vpn_control_panel.Dict.{Dict}
use vpn_control_panel.Json.{
  Json, null, integer, text, array, object, pos, Items, nil, cons, JsonObject, end, field,
}
use vpn_control_panel.Data.Models.{SubscriptionMetadata, effective_sub_id}
use vpn_control_panel.Subscription.Render.{
  Codec, BuiltSubscription, View, html, json, plain, decoded_subscription_body,
  encoded_subscription_body, subscription_metadata_headers, view_by_accept,
}
use vpn_control_panel.Subscription.View.{
  subscription_link_name, subscription_link_protocol, html_escape, json_script_escape,
}

pub record Rendered : Type 0 where
  pub content : Str
  pub media_type : Str
  pub headers : Dict Str Str

-- `value.replace(old, new)`, for a text `old` that is not empty; the number is how many code points
-- of a match are still to be skipped.
abbrev replace_from : Str → Str → ℕ → Str → Str
replace_from old new n [] = []
replace_from old new (suc n) (c ∷ s) = replace_from old new n s
replace_from old new zero (c ∷ s) =
    let skipped = replace_from old new (length old - 1) s in
    let kept = replace_from old new zero s in
    if starts_with (c ∷ s) old then new ++ skipped else c ∷ kept

abbrev pub replace : Str → Str → Str → Str
replace old new s = replace_from old new zero s

abbrev nullable : Option Str → Json
nullable none = null
nullable (some s) = text s

abbrev error_items : List (ℕ × Str) → Items
error_items [] = nil
error_items ((node, message) ∷ es) =
    cons (array (cons (integer (pos node)) (cons (text message) nil))) (error_items es)

pub record Pages : Type 0 where
  pub codec : Codec
  pub fragment_of : Str → Str
  pub unquote : Str → Str
  pub dumps : Json → Str
  pub dump_metadata : SubscriptionMetadata → JsonObject
  pub qr_png_data_uri : Str → Str
  pub recommended_clients : JsonObject
  pub template : Str

module _ (p : Pages) where
  -- `_subscription_link_payload`
  unfoldable pub subscription_link_payload : Str → ℕ → Json
  unfolding subscription_link_name subscription_link_protocol
  subscription_link_payload link index = object (
      field (codes "name")
        (text (subscription_link_name p.fragment_of p.unquote p.codec.upper link index))
        (field (codes "protocol")
          (text (subscription_link_protocol p.fragment_of p.unquote p.codec.upper link))
          (field (codes "url") (text link) end)))

  abbrev link_items : ℕ → List Str → Items
  link_items index [] = nil
  link_items index (link ∷ links) =
      cons (subscription_link_payload link index) (link_items (index + 1) links)

  abbrev qr_field : Bool → Str → JsonObject
  qr_field true url = field (codes "qr") (text (p.qr_png_data_uri url)) end
  qr_field false url = end

  abbrev pub client_title : BuiltSubscription → Str
  client_title s = or_text s.client.comment (effective_sub_id s.client)

  abbrev pub page_title : BuiltSubscription → Str
  page_title s = or_text (or_default s.metadata.profile_title []) (client_title s)

  -- `_subscription_view_payload`
  unfoldable pub subscription_view_payload : BuiltSubscription → Bool → Json
  unfolding subscription_link_payload effective_sub_id decoded_subscription_body
      encoded_subscription_body
  subscription_view_payload s include_qr = object (
      field (codes "subscription")
        (object (
          field (codes "id") (text (effective_sub_id s.client)) (
            field (codes "title") (text (page_title s)) (
              field (codes "profile_title") (text (or_default s.metadata.profile_title [])) (
                field (codes "client_title") (text (client_title s)) (
                  field (codes "public_url") (text s.public_url) (
                    field (codes "decoded") (text (decoded_subscription_body s)) (
                      field (codes "encoded") (text (encoded_subscription_body p.codec s))
                        (qr_field include_qr s.public_url)))))))))
        (field (codes "links") (array (link_items 0 s.links)) (
          field (codes "recommended_clients") (object p.recommended_clients) (
            field (codes "metadata") (object (p.dump_metadata s.metadata)) (
              field (codes "subscription_userinfo") (nullable s.subscription_userinfo)
                (field (codes "node_errors") (array (error_items s.node_errors)) end))))))

  unfoldable pub render_subscription_text_response : BuiltSubscription → Rendered
  unfolding encoded_subscription_body subscription_metadata_headers
  render_subscription_text_response s = record {
    content = encoded_subscription_body p.codec s;
    media_type = codes "text/plain; charset=utf-8";
    headers = subscription_metadata_headers p.codec s.metadata s.public_url s.subscription_userinfo;
  }

  unfoldable pub render_subscription_json_response : BuiltSubscription → Rendered
  unfolding subscription_view_payload
  render_subscription_json_response s = record {
    content = p.dumps (subscription_view_payload s false);
    media_type = codes "application/json; charset=utf-8";
    headers = [];
  }

  unfoldable pub render_subscription_html_response : BuiltSubscription → Rendered
  unfolding subscription_view_payload html_escape json_script_escape effective_sub_id
  render_subscription_html_response s = record {
    content =
        replace (codes "__SUBSCRIPTION_PAYLOAD__")
          (json_script_escape (p.dumps (subscription_view_payload s true)))
          (replace (codes "__SUBSCRIPTION_TITLE__") (html_escape (page_title s)) p.template);
    media_type = codes "text/html; charset=utf-8";
    headers = [];
  }

  abbrev rendered : View → BuiltSubscription → Rendered
  rendered html s = render_subscription_html_response s
  rendered json s = render_subscription_json_response s
  rendered plain s = render_subscription_text_response s

  unfoldable pub render_subscription_by_accept : BuiltSubscription → Option Str → Rendered
  unfolding view_by_accept render_subscription_html_response render_subscription_json_response
      render_subscription_text_response
  render_subscription_by_accept s accept = rendered (view_by_accept p.codec accept) s
