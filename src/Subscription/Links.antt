-- ===== src/Subscription/Links.antt =====
-- Links of the panels: `_panel_link_remark`, `_normalize_hysteria2_link` and
-- `_fallback_client_emails` of subscription/service.py. Python's url functions and the decoding of a
-- configuration are arguments.
use vpn_control_panel.Prelude.{
  List, [], ◌∷◌, not, ◌||◌, ◌≡◌, refl, ◌⊎◌, inl, inr, true, Bool, Bool-cases, Option-cases, Option,
  none, some, contains, ◌==◌, nat_eq, list_eq, if◌then◌else◌,
}
use vpn_control_panel.Text.{Str, codes, strip, lstrip, is_empty, starts_with}
use vpn_control_panel.Data.Models.{NodeRecord, NodeInboundRecord}
use vpn_control_panel.ExternalSubscriptions.Parser.{lines_of}

-- The parts of `urlsplit`.
pub record UrlParts : Type 0 where
  pub scheme : Str
  pub netloc : Str
  pub path : Str
  pub query : Str
  pub fragment : Str

pub record Urls : Type 0 where
  -- none where it raises `ValueError`
  pub urlsplit : Str → Option UrlParts
  pub urlunsplit : UrlParts → Str
  -- with blank values kept
  pub parse_qsl : Str → List (Str × Str)
  pub urlencode : List (Str × Str) → Str
  pub unquote : Str → Str
  pub lower : Str → Str
  -- the text of a padded url-safe base64 payload, if it is one
  pub decode_config : Str → Option Str

abbrev drop_four : Str → Str
drop_four (a ∷ b ∷ c ∷ d ∷ s) = s
drop_four s = s

-- What follows "vpn://".
abbrev vpn_payload : Str → Str
vpn_payload (a ∷ b ∷ s) = drop_four s
vpn_payload s = s

-- The first comment of a configuration.
abbrev comment_in : List Str → Str
comment_in [] = []
comment_in (line ∷ lines) =
    let stripped = strip line in
    let rest = comment_in lines in
    if starts_with stripped (codes "#") then strip (lstrip (λ c. c == b'#') stripped) else rest

abbrev comment_of : Option Str → Str
comment_of none = []
comment_of (some config) = comment_in (lines_of config)

abbrev optional_email : Option Str → Option Str → Option Str
optional_email none other = other
optional_email (some []) other = other
optional_email (some (c ∷ email)) other = some (c ∷ email)

abbrev at_most_one : Option Str → List Str
at_most_one none = []
at_most_one (some email) = email ∷ []

-- `_fallback_client_emails`
unfoldable pub fallback_client_emails : NodeRecord → NodeInboundRecord → List Str
fallback_client_emails node inbound =
    at_most_one (optional_email inbound.xui_fallback_client_email node.xui_fallback_client_email)

-- The query parameters of the Hysteria2 scheme.
abbrev spec_params : List Str
spec_params =
    codes "sni"
    ∷ codes "insecure"
    ∷ codes "obfs"
    ∷ codes "obfs-password"
    ∷ codes "pinsha256"
    ∷ codes "mport"
    ∷ []

module _ (urls : Urls) where
  -- `_panel_link_remark`
  abbrev fragment_or_comment : Str → Str → Str
  fragment_or_comment uri fragment =
      if not (is_empty fragment) || not (starts_with (urls.lower uri) (codes "vpn://"))
      then fragment
      else comment_of (urls.decode_config (vpn_payload uri))

  abbrev remark_of : Str → Option UrlParts → Option Str
  remark_of uri none = none
  remark_of uri (some parts) = some (fragment_or_comment uri (urls.unquote parts.fragment))

  unfoldable pub panel_link_remark : Str → Option Str
  unfolding lines_of strip lstrip
  panel_link_remark uri = remark_of uri (urls.urlsplit uri)

  -- The name under which a parameter is known, and the pair that is kept for it.
  abbrev translated : Str → Str → Str × Str × Str
  translated key value =
      let name = urls.lower key in
      if name == codes "allowinsecure"
      then (
        codes "insecure",
        codes "insecure",
        if value == codes "1" || value == codes "true" then codes "1" else codes "0",
      )
      else (name, key, value)

  abbrev keep : Str × Str × Str → List Str → (List Str → List (Str × Str)) → List (Str × Str)
  keep (name, key, value) seen rest =
      let skipped = rest seen in
      let kept = (key, value) ∷ rest (name ∷ seen) in
      if not (contains spec_params name) || contains seen name then skipped else kept

  -- The loop over the parameters: the first of each known name is kept.
  unfoldable pub kept_params : List (Str × Str) → List Str → List (Str × Str)
  kept_params [] seen = []
  kept_params ((key, value) ∷ params) seen = keep (translated key value) seen (kept_params params)

  abbrev pub is_hysteria2 : Str → Bool
  is_hysteria2 uri =
      starts_with (urls.lower uri) (codes "hysteria2://")
      || starts_with (urls.lower uri) (codes "hy2://")

  abbrev with_spec_params : Option UrlParts → Option Str
  with_spec_params none = none
  with_spec_params (some parts) =
      let query = urls.urlencode (kept_params (urls.parse_qsl parts.query) []) in
      some (urls.urlunsplit (record parts { query = query }))

  -- `_normalize_hysteria2_link`; none where `urlsplit` raises
  unfoldable pub normalize_link : Str → Option Str
  unfolding kept_params
  normalize_link uri = if is_hysteria2 uri then with_spec_params (urls.urlsplit uri) else some uri

  -- Only a link of Hysteria2 whose url does not split is not normalised.
  pub normalize_link-cases :
      (uri : Str)
      → ((link : Str) × (normalize_link uri ≡ some link))
        ⊎ ((normalize_link uri ≡ none) × (urls.urlsplit uri ≡ none) × (is_hysteria2 uri ≡ true))
  unfolding normalize_link
  normalize_link-cases uri = elim (Bool-cases (is_hysteria2 uri)) [
    | inr other ↦ inl (uri, rw other refl)
    | inl hysteria ↦ elim (Option-cases (urls.urlsplit uri)) [
      | inl bad ↦ inr (rw (hysteria, bad) refl, bad, hysteria)
      | inr (parts, split) ↦
          let query = urls.urlencode (kept_params (urls.parse_qsl parts.query) []) in
          inl (urls.urlunsplit (record parts { query = query }), rw (hysteria, split) refl)
    ]
  ]
