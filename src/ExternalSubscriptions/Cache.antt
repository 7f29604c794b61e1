-- ===== src/ExternalSubscriptions/Cache.antt =====
-- external_subscriptions/cache.py: what a reference resolves to. The file of resolved inbounds is
-- its records; CacheFile reads and writes it.
use vpn_control_panel.Prelude.{
  List, [], Option, none, some, Result, ok, err, find, ◌==◌, nat_eq, list_eq, if◌then◌else◌,
}
use vpn_control_panel.Text.{Str}
use vpn_control_panel.Regex.{Regex}
use vpn_control_panel.Dict.{Dict, lookup}
use vpn_control_panel.Data.Errors.{ValidationError}
use vpn_control_panel.Data.Reference.{ExternalSubscriptionRef, parse_external_subscription_ref}

pub record ResolvedExternalInbound : Type 0 where
  pub slug : Str
  pub label : Str
  pub uri : Str
  pub updated_at : Str

abbrev pub ResolvedInbounds : Type 0
ResolvedInbounds = Dict Str (List ResolvedExternalInbound)

abbrev pub uri_of : Option ResolvedExternalInbound → Option Str
uri_of none = none
uri_of (some e) = some e.uri

-- `resolved.get(name, [])`
abbrev pub or_no_entries : Option (List ResolvedExternalInbound) → List ResolvedExternalInbound
or_no_entries none = []
or_no_entries (some es) = es

module _ (regex : Regex) where
  -- `_resolve_ref`
  unfoldable pub resolve_ref : ExternalSubscriptionRef → List ResolvedExternalInbound → Option Str
  resolve_ref r entries =
      if r.is_regex
      then (if regex.compiles r.query
          then uri_of (find (λ e. regex.search_in r.query e.slug) entries)
          else none)
      else uri_of (find (λ e. e.slug == r.query) entries)

  abbrev resolve_parsed :
      Str → Result ValidationError (Option ExternalSubscriptionRef) → ResolvedInbounds → Option Str
  resolve_parsed uri (err e) resolved = none
  resolve_parsed uri (ok none) resolved = some uri
  resolve_parsed uri (ok (some r)) resolved = resolve_ref r (or_no_entries (lookup r.name resolved))

  unfoldable pub resolve_reference : Str → ResolvedInbounds → Option Str
  unfolding resolve_ref
  resolve_reference uri resolved = resolve_parsed uri (parse_external_subscription_ref uri) resolved
