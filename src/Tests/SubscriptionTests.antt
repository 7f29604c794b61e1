-- ===== src/Tests/SubscriptionTests.antt =====
-- Examples of the theorems on subscriptions.
use vpn_control_panel.Subscription.View.{html_escape, json_script_escape}
use vpn_control_panel.Subscription.View.Escapes.{json_script_escape-contains}
use vpn_control_panel.Prelude.{
  ℕ, ◌+◌, [], ◌∷◌, ◌≡◌, ◌≢◌, refl, false, arith, All, ◌==◌, Option, none, some, ok, length,
  contains, nat_eq, list_eq,
}
use vpn_control_panel.Text.{
  Str, codes, strip, strip_slashes, strip_by, lstrip, rstrip, is_space, starts_with,
}
use vpn_control_panel.Text.Digits.{digits}
use vpn_control_panel.Json.{Json, object, integer, ℤ, pos, end, field}
use vpn_control_panel.Data.Models.{ClientRecord, effective_sub_id, legacy_subscription_ids}
use vpn_control_panel.Subscription.Token.{
  letter, base62_encode, build_public_subscription_token, find_client, public_token_for_client,
  find_client-public_token,
}
use vpn_control_panel.Subscription.Render.{Codec, relabel_fragment}
use vpn_control_panel.Subscription.Links.{Urls}
use vpn_control_panel.Subscription.Build.{Sources, returned, raised, timed_out}
use vpn_control_panel.Tests.Fixtures.{plain_regex, client}

abbrev same : Str → Str
same s = s

abbrev codec : Codec
codec = record {
  encode_base64 = same;
  decode_base64 = λ s. some s;
  quote = same;
  lower = same;
  upper = same;
}

abbrev urls : Urls
urls = record {
  urlsplit = λ s. some (record { scheme = []; netloc = s; path = []; query = []; fragment = [] });
  urlunsplit = λ p. p.netloc;
  parse_qsl = λ s. [];
  urlencode = λ ps. [];
  unquote = same;
  lower = same;
  decode_config = λ s. none;
}

abbrev int_of : Str → Option ℤ
int_of s = none

-- no real digest, but a number
abbrev digest : Str → Str → ℕ
digest salt s = length salt + length s

-- the panel of the node is down
abbrev sources : Sources
sources = record {
  regex = plain_regex;
  codec = codec;
  urls = urls;
  int_of = int_of;
  str_of = λ v. codes "?";
  hmac_sha256 = digest;
  open_client = λ n. returned tt;
  list_inbounds = λ n. raised (codes "down");
  get_client_links = λ n e. timed_out;
  get_client_traffic = λ n e. timed_out;
  url_error = λ s. codes "Invalid IPv6 URL";
  timeout_text = codes "timed out";
}

-- Another client, whose id is longer.
abbrev other : ClientRecord
other = record client { id = codes "66" }

abbrev token : Str
token = public_token_for_client digest (some (codes "s")) client

no_ids :
    All
      (λ d.
        ((effective_sub_id d == token) ≡ false)
        × (contains (legacy_subscription_ids d) token ≡ false))
      (other ∷ client ∷ [])
unfolding public_token_for_client build_public_subscription_token base62_encode letter digits
    effective_sub_id legacy_subscription_ids strip_slashes strip strip_by lstrip rstrip is_space
no_ids = ((refl, refl), ((refl, refl), tt))

no_such_token : All (λ d. public_token_for_client digest (some (codes "s")) d ≢ token) (other ∷ [])
unfolding public_token_for_client build_public_subscription_token base62_encode letter digits
    effective_sub_id strip_slashes strip strip_by lstrip rstrip is_space
no_such_token = (λ e. let e' : ◌≡◌ {A = Str} (51 ∷ []) (50 ∷ []) = e in ground arith, tt)

find_client-public_token_example :
    find_client digest
      (some (codes "s"))
      (other ∷ client ∷ [])
      (public_token_for_client digest (some (codes "s")) client)
    ≡ ok (some client)
find_client-public_token_example =
    find_client-public_token digest b's' [] (other ∷ []) [] client no_ids no_such_token

abbrev stat : ℕ → Json
stat n = object (field (codes "up") (integer (pos n)) end)

not_vpn :
    starts_with (relabel_fragment codec (codes "v://a#x") (codes "A")) (codes "vpn://") ≡ false
unfolding relabel_fragment
not_vpn = refl

json_script_escape-contains_example :
    (contains (json_script_escape (codes "</script>&")) b'<' ≡ false)
    × (contains (json_script_escape (codes "</script>&")) b'>' ≡ false)
    × (contains (json_script_escape (codes "</script>&")) b'&' ≡ false)
    × (contains (html_escape (codes "</script>&")) b'<' ≡ false)
    × (contains (html_escape (codes "</script>&")) b'>' ≡ false)
json_script_escape-contains_example = json_script_escape-contains (codes "</script>&")
