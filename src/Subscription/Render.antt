-- ===== src/Subscription/Render.antt =====
-- What is served: the metadata headers, the choice by `Accept`, the body and the labels of the
-- links, of subscription/service.py. Base64 of a text and back, `quote`, `unquote`, lower and upper
-- case are arguments. The responses are in Pages.
use vpn_control_panel.Prelude.{
  ℕ, List, [], ◌∷◌, ◌++◌, ◌≡◌, refl, Bool, true, false, not, ◌||◌, ◌&&◌, Option, none, some, arith,
  ◌==◌, nat_eq, list_eq, if◌then◌else◌,
}
use vpn_control_panel.Text.{
  Str, codes, strip, split, partition, is_empty, starts_with, remove_prefix, or_default,
}
use vpn_control_panel.Text.Digits.{show_nat}
use vpn_control_panel.Dict.{Dict, insert}
use vpn_control_panel.Data.Models.{SubscriptionMetadata, ClientRecord}

pub record Codec : Type 0 where
  pub encode_base64 : Str → Str
  -- with validation; none where it raises
  pub decode_base64 : Str → Option Str
  pub quote : Str → Str
  pub lower : Str → Str
  pub upper : Str → Str

pub record BuiltSubscription : Type 0 where
  pub client : ClientRecord
  pub links : List Str
  pub metadata : SubscriptionMetadata
  pub public_url : Str
  pub subscription_userinfo : Option Str
  pub node_errors : List (ℕ × Str)

pub data View : Type 0 where
  html json plain : View

abbrev first_part : List Str → Str
first_part [] = []
first_part (x ∷ xs) = x

abbrev or_same : Str → Option Str → Str
or_same value none = value
or_same value (some decoded) = decoded

-- A header that is set where the value is a text that is not empty.
abbrev put_text : Str → Option Str → (Str → Str) → Dict Str Str → Dict Str Str
put_text key none f headers = headers
put_text key (some []) f headers = headers
put_text key (some (c ∷ v)) f headers = insert key (f (c ∷ v)) headers

abbrev put_number : Str → Option ℕ → Dict Str Str → Dict Str Str
put_number key none headers = headers
put_number key (some n) headers = insert key (show_nat n) headers

-- `str(value).lower()`
abbrev bool_text : Bool → Str
bool_text true = codes "true"
bool_text false = codes "false"

abbrev or_true : Option Bool → Bool
or_true none = true
or_true (some b) = b

abbrev put_enabled : Option Bool → Dict Str Str → Dict Str Str
put_enabled none headers = headers
put_enabled (some b) headers = insert (codes "routing-enable") (bool_text b) headers

abbrev put_routing : Option Str → Option Bool → Dict Str Str → Dict Str Str
put_routing none enable headers = put_enabled enable headers
put_routing (some []) enable headers = put_enabled enable headers
put_routing (some (c ∷ v)) enable headers =
    insert (codes "routing") (c ∷ v)
      (insert (codes "routing-enable") (bool_text (or_true enable)) headers)

-- `a or b` on texts that may be null
abbrev or_optional : Option Str → Option Str → Option Str
or_optional none b = b
or_optional (some []) b = b
or_optional (some (c ∷ s)) b = some (c ∷ s)

abbrev decoded_body : List Str → Str
decoded_body [] = []
decoded_body (link ∷ links) = link ++ (10 ∷ decoded_body links)

-- `_decoded_subscription_body`: the joined links with an end of line after the last; empty where
-- the joined text is
unfoldable pub decoded_subscription_body : BuiltSubscription → Str
decoded_subscription_body s = if is_blank s.links then [] else decoded_body s.links
  where
    is_blank : List Str → Bool
    is_blank [] = true
    is_blank (x ∷ []) = is_empty x
    is_blank (x ∷ y ∷ xs) = false

module _ (codec : Codec) where
  -- `_base64_header`
  unfoldable pub base64_header : Str → Str
  base64_header value =
      if starts_with value (codes "base64:")
      then value
      else codes "base64:" ++ codec.encode_base64 value

  -- `_decode_base64_header`
  unfoldable pub decode_base64_header : Str → Str
  decode_base64_header value =
      if starts_with value (codes "base64:")
      then or_same value (codec.decode_base64 (remove_prefix value (codes "base64:")))
      else value

  abbrev title_of : Option Str → Str
  title_of none = []
  title_of (some []) = []
  title_of (some (c ∷ v)) = decode_base64_header (c ∷ v)

  abbrev abroad_title : Str → Str
  abroad_title [] = codes "Abroad"
  abroad_title (c ∷ title) = (c ∷ title) ++ codes " (Abroad)"

  -- `_abroad_metadata`
  unfoldable pub abroad_metadata : SubscriptionMetadata → SubscriptionMetadata
  unfolding decode_base64_header
  abroad_metadata m = record m {
    routing = none;
    routing_enable = some false;
    profile_title = some (abroad_title (title_of m.profile_title));
  }

  unfoldable pub subscription_metadata_headers :
      SubscriptionMetadata → Str → Option Str → Dict Str Str
  unfolding base64_header
  subscription_metadata_headers m public_url userinfo =
      let h0 =
        insert (codes "content-disposition") (codes "attachment; filename=\"subscription.txt\"")
          [] in
      let h1 = put_text (codes "profile-title") m.profile_title base64_header h0 in
      let h2 = put_number (codes "profile-update-interval") m.profile_update_interval h1 in
      let h3 =
        insert (codes "profile-web-page-url") (or_default m.profile_web_page_url public_url) h2 in
      let h4 =
        put_text (codes "subscription-userinfo") (or_optional userinfo m.subscription_userinfo)
          (λ v. v) h3 in
      let h5 = put_text (codes "support-url") m.support_url (λ v. v) h4 in
      let h6 = put_text (codes "announce") m.announce base64_header h5 in
      put_routing m.routing m.routing_enable h6

  abbrev accepts_any : List Str → Str → Bool
  accepts_any [] media = false
  accepts_any (item ∷ items) media =
      strip (first_part (split b';' item)) == media || accepts_any items media

  -- `_accepts`
  unfoldable pub accepts : Option Str → Str → Bool
  unfolding strip split
  accepts none media = false
  accepts (some accept) media =
      not (is_empty accept) && accepts_any (split b',' (codec.lower accept)) media

  -- `render_subscription_by_accept`: which of the three responses is rendered
  unfoldable pub view_by_accept : Option Str → View
  unfolding accepts
  view_by_accept accept =
      if accepts accept (codes "text/html")
      then html
      else if accepts accept (codes "application/json")
      then json
      else plain

  -- `_encoded_subscription_body`
  unfoldable pub encoded_subscription_body : BuiltSubscription → Str
  unfolding decoded_subscription_body
  encoded_subscription_body s = codec.encode_base64 (decoded_subscription_body s)

  -- `_ensure_fragment_label`
  unfoldable pub ensure_fragment_label : Str → Str → Str
  ensure_fragment_label uri label =
      let (prefix, separator, fragment) = partition b'#' uri in
      if separator && not (is_empty fragment) then uri else prefix ++ (b'#' ∷ codec.quote label)

  -- `_relabel_fragment`
  unfoldable pub relabel_fragment : Str → Str → Str
  relabel_fragment uri label =
      if is_empty label || starts_with (codec.lower uri) (codes "vpn://")
      then uri
      else (partition b'#' uri).0 ++ (b'#' ∷ codec.quote label)

  same_cut :
      (prefix tail : Str)
      → (partition b'#' prefix).1 ≡ false
      → ((partition b'#' (prefix ++ (b'#' ∷ tail))).0 ≡ prefix)
        × ((partition b'#' (prefix ++ (b'#' ∷ tail))).1 ≡ true)
        × ((partition b'#' (prefix ++ (b'#' ∷ tail))).2 ≡ tail)
  same_cut [] tail h = (refl, refl, refl)
  same_cut (c ∷ prefix) tail h = ground (arith, same_cut prefix tail)

  cut_clean : (uri : Str) → (partition b'#' (partition b'#' uri).0).1 ≡ false
  cut_clean [] = refl
  cut_clean (c ∷ uri) = ground (arith, cut_clean uri)

  -- A link that was labelled keeps its label: labelling it again, if the label is not empty once
  -- quoted, changes nothing.
  pub ensure_fragment_label_idem :
      (uri label other : Str)
      → is_empty (codec.quote label) ≡ false
      → ensure_fragment_label (ensure_fragment_label uri label) other
        ≡ ensure_fragment_label uri label
  unfolding ensure_fragment_label
  ensure_fragment_label_idem uri label other h =
      let cut = same_cut (partition b'#' uri).0 (codec.quote label) (cut_clean uri) in
      ground (arith, cut)

  -- The label of a relabelled link is the last one given: what the panel or an earlier call put
  -- there is gone, and the part before it stays.
  pub relabel_fragment_last :
      (uri label other : Str)
      → is_empty label ≡ false
      → is_empty other ≡ false
      → starts_with (codec.lower uri) (codes "vpn://") ≡ false
      → starts_with (codec.lower (relabel_fragment uri label)) (codes "vpn://") ≡ false
      → relabel_fragment (relabel_fragment uri label) other ≡ relabel_fragment uri other
  unfolding relabel_fragment
  relabel_fragment_last uri label other a b c d =
      let cut = same_cut (partition b'#' uri).0 (codec.quote label) (cut_clean uri) in
      ground (arith, cut)
