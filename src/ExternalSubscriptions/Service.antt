-- ===== src/ExternalSubscriptions/Service.antt =====
-- external_subscriptions/service.py: which subscriptions are due, and the refresh. The feeds are
-- fetched by an argument; dates, which the file keeps as texts, are written and read by arguments,
-- and times are minutes.
pub mod Refreshed
pub mod Runs
pub mod Reloaded
use vpn_control_panel.Prelude.{
  ℕ, ◌-◌, List, [], ◌∷◌, Bool, true, false, not, ◌||◌, Option, none, some, filter, map, contains,
  ltb, leb, ◌==◌, nat_eq, list_eq, if◌then◌else◌,
}
use vpn_control_panel.Text.{Str, is_empty}
use vpn_control_panel.Regex.{Regex}
use vpn_control_panel.Dict.{Dict, lookup, insert}
use vpn_control_panel.Data.Models.{ExternalSubscriptionRecord}
use vpn_control_panel.ExternalSubscriptions.Parser.{
  ParsedSubscriptionEntry, parse_subscription_body,
}
use vpn_control_panel.ExternalSubscriptions.Slug.{assign_slugs}
use vpn_control_panel.ExternalSubscriptions.Cache.{
  ResolvedExternalInbound, ResolvedInbounds, or_no_entries,
}

-- What the service uses of libraries.
pub record Environment : Type 0 where
  pub regex : Regex
  pub is_word : ℕ → Bool
  pub lower : Str → Str
  pub decode_base64 : Str → Option Str
  pub unquote : Str → Str
  -- `datetime.fromisoformat`, which may raise
  pub read_time : Str → Option ℕ
  -- `isoformat`
  pub write_time : ℕ → Str
  -- the text of a feed, or that the fetch raised
  pub fetch : Str → Option Str

abbrev pub resolved_entry : Str → Str × ParsedSubscriptionEntry → ResolvedExternalInbound
resolved_entry now (slug, entry) = record {
  slug = slug;
  label = entry.label;
  uri = entry.uri;
  updated_at = now;
}

-- The least of the times, unless one cannot be read.
abbrev min_time : ℕ → Option ℕ → Option ℕ
min_time t none = none
min_time t (some u) = some (if ltb u t then u else t)

module _ (env : Environment) where
  abbrev pub filtered : Option Str → List ParsedSubscriptionEntry → List ParsedSubscriptionEntry
  filtered none entries = entries
  filtered (some pattern) entries = filter (λ e. env.regex.search_in pattern e.label) entries

  unfoldable pub build_resolved_inbounds :
      ExternalSubscriptionRecord → List ParsedSubscriptionEntry → Str → List ResolvedExternalInbound
  build_resolved_inbounds s entries now =
      map (resolved_entry now)
        (assign_slugs env.is_word env.lower (filtered s.inbound_filter entries))

  abbrev least_with : Option ℕ → Option ℕ → Option ℕ
  least_with none rest = none
  least_with (some t) rest = min_time t rest

  abbrev oldest : List ResolvedExternalInbound → Option ℕ
  oldest [] = none
  oldest (e ∷ []) = env.read_time e.updated_at
  oldest (e ∷ f ∷ es) = least_with (env.read_time e.updated_at) (oldest (f ∷ es))

  abbrev due_since : ℕ → ℕ → Option ℕ → Bool
  due_since now interval none = true
  due_since now interval (some t) = leb interval (now - t)

  -- `_is_due`: also when there are no entries, or a time cannot be read
  unfoldable pub is_due : ExternalSubscriptionRecord → ResolvedInbounds → ℕ → Bool
  is_due s resolved now =
      let entries = or_no_entries (lookup s.name resolved) in
      is_empty entries || due_since now s.update_interval (oldest entries)

  -- `_fetch_bodies`, url by url; a url that stands twice is fetched once in the program.
  unfoldable pub fetch_bodies : List Str → Dict Str (Option Str)
  fetch_bodies [] = []
  fetch_bodies (url ∷ urls) = insert url (env.fetch url) (fetch_bodies urls)

  abbrev pub body_of : Option (Option Str) → Option Str
  body_of none = none
  body_of (some body) = body

  -- `updated` before the loop: what is known of every subscription of data.json, and of no other
  unfoldable pub known_entries :
      List ExternalSubscriptionRecord → ResolvedInbounds → ResolvedInbounds
  known_entries [] resolved = []
  known_entries (s ∷ ss) resolved =
      (s.name, or_no_entries (lookup s.name resolved)) ∷ known_entries ss resolved

  abbrev pub put_body :
      ExternalSubscriptionRecord
      → Str
      → Option Str
      → ResolvedInbounds × Bool
      → ResolvedInbounds × Bool
  put_body s now none (updated, changed) = (updated, changed)
  put_body s now (some body) (updated, changed) = (
    insert s.name
        (build_resolved_inbounds s (parse_subscription_body env.decode_base64 env.unquote body) now)
        updated,
    true,
  )

  -- The loop over the subscriptions to refresh.
  unfoldable pub refresh_each :
      List ExternalSubscriptionRecord
      → Dict Str (Option Str)
      → Str
      → ResolvedInbounds × Bool
      → ResolvedInbounds × Bool
  unfolding build_resolved_inbounds
  refresh_each [] bodies now u = u
  refresh_each (s ∷ ss) bodies now u =
      refresh_each ss bodies now (put_body s now (body_of (lookup s.url bodies)) u)

  abbrev when_changed : ResolvedInbounds × Bool → Option ResolvedInbounds
  when_changed (updated, true) = some updated
  when_changed (updated, false) = none

  -- `_refresh`: the new records of the file, which is written if something was fetched
  unfoldable pub refresh :
      List ExternalSubscriptionRecord
      → List ExternalSubscriptionRecord
      → ResolvedInbounds
      → ℕ
      → Option ResolvedInbounds
  unfolding refresh_each known_entries fetch_bodies
  refresh subscriptions [] resolved now = none
  refresh subscriptions (s ∷ ss) resolved now =
      let bodies = fetch_bodies (map (λ r. r.url) (s ∷ ss)) in
      when_changed (
        refresh_each (s ∷ ss) bodies (env.write_time now)
          (known_entries subscriptions resolved, false))
