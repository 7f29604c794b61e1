-- ===== src/Tests/FeedTests.antt =====
-- Examples of the theorems on external subscriptions.
use vpn_control_panel.Prelude.{
  ℕ, List, [], ◌∷◌, ◌≡◌, refl, ap, arith, Bool, true, false, ok, not, Option, none, some, map,
  contains, Distinct, All, nat_eq, list_eq, if◌then◌else◌,
}
use vpn_control_panel.Text.{Str, codes}
use vpn_control_panel.Dict.{Dict, lookup}
use vpn_control_panel.Data.Models.{ExternalSubscriptionRecord}
use vpn_control_panel.ExternalSubscriptions.Parser.{
  ParsedSubscriptionEntry, parse_subscription_body,
}
use vpn_control_panel.ExternalSubscriptions.Slug.{free_slug, assign_slugs, sorted}
use vpn_control_panel.ExternalSubscriptions.Slug.Unique.{
  slugs, free_slug_found, assign_slugs-Distinct,
}
use vpn_control_panel.ExternalSubscriptions.Cache.{ResolvedInbounds, or_no_entries, resolve_ref}
use vpn_control_panel.ExternalSubscriptions.Service.{
  Environment, body_of, build_resolved_inbounds, known_entries, refresh_each, refresh,
}
use vpn_control_panel.ExternalSubscriptions.Service.Refreshed.{
  slug_ref, fresh_entries, names, resolve-build_resolved_inbounds, refresh_each-lookup,
}
use vpn_control_panel.ExternalSubscriptions.Service.Runs.{refresh_all}
use vpn_control_panel.ExternalSubscriptions.Service.Reloaded.{or_before, refresh_all-load}
use vpn_control_panel.ExternalSubscriptions.CacheFile.{
  CacheFormat, records, load_resolved, save_resolved,
}
use vpn_control_panel.Data.File.{Disk}
use vpn_control_panel.Tests.FileTests.{os}
use vpn_control_panel.Tests.Fixtures.{plain_regex, feed}

abbrev is_word : ℕ → Bool
is_word c = not (contains (codes " ,-") c)

abbrev same : Str → Str
same s = s

abbrev environment : Environment
environment = record {
  regex = plain_regex;
  is_word = is_word;
  lower = same;
  decode_base64 = λ s. none;
  unquote = same;
  read_time = λ s. none;
  write_time = λ n. codes "now";
  fetch = λ url. some (codes "vless://a#A");
}

abbrev entries : List ParsedSubscriptionEntry
entries =
    record { uri = codes "v://a"; label = codes "x" }
    ∷ record { uri = codes "v://b"; label = codes "x" }
    ∷ []

free_slug_found_example :
    (s : Str) × (free_slug 2 (codes "x" ∷ []) (codes "x") 1 ≡ some s)
    × (contains (codes "x" ∷ []) s ≡ false)
free_slug_found_example = free_slug_found (codes "x" ∷ []) (codes "x")

assign_slugs-Distinct_example :
    Distinct (slugs is_word same (assign_slugs is_word same entries))
    × (map (λ p. p.1) (assign_slugs is_word same entries) ≡ sorted entries)
assign_slugs-Distinct_example = assign_slugs-Distinct is_word same entries

resolve-build_resolved_inbounds_example :
    All
      (λ e.
        resolve_ref plain_regex
          (slug_ref environment (codes "f") e.slug)
          (build_resolved_inbounds environment feed entries (codes "now"))
        ≡ some e.uri)
      (build_resolved_inbounds environment feed entries (codes "now"))
resolve-build_resolved_inbounds_example =
    resolve-build_resolved_inbounds environment feed entries (codes "now")

abbrev bodies : Dict Str (Option Str)
bodies = (codes "u", some (codes "vless://a#A")) ∷ []

abbrev other_feed : ExternalSubscriptionRecord
other_feed = record feed { name = codes "g" }

abbrev refreshed : ResolvedInbounds
refreshed =
    (refresh_each environment (feed ∷ []) bodies (codes "now")
      (known_entries environment (feed ∷ other_feed ∷ []) [], false)).0

refresh_each-lookup_example :
    All
      (λ s.
        or_no_entries (lookup s.name refreshed)
        ≡ fresh_entries environment s (codes "now") (body_of environment (lookup s.url bodies)) [])
      (feed ∷ [])
    × ((name : Str)
        → contains (names environment (feed ∷ [])) name ≡ false
        → lookup name refreshed
          ≡ (if contains (names environment (feed ∷ other_feed ∷ [])) name then some [] else none))
refresh_each-lookup_example =
    refresh_each-lookup environment (feed ∷ other_feed ∷ []) (feed ∷ []) bodies (codes "now") []
      (refl, tt) (λ a h. ground arith)

-- The file that is not there yet.
abbrev no_file : Disk
no_file = record { target = none; temp = none }

abbrev fetched : ResolvedInbounds
fetched = or_before [] (refresh environment (feed ∷ []) (feed ∷ []) [] 7)

-- The feed has one link.
fetched_entry :
    fetched
    ≡ (
      feed.name,
      record {
        slug = codes "A";
        label = codes "A";
        uri = codes "vless://a";
        updated_at = codes "now";
      }
          ∷ [],
    )
      ∷ []
unfolding refresh assign_slugs parse_subscription_body
fetched_entry = refl

-- A format that knows these records.
abbrev cache_format : CacheFormat
cache_format = record { can_read = true; content = λ s. records fetched; print = λ r. codes "{}" }

no_records : load_resolved cache_format no_file ≡ ok []
unfolding load_resolved
no_records = refl

saves :
    (updated : ResolvedInbounds)
    → refresh environment (feed ∷ []) (feed ∷ []) [] 7 ≡ some updated
    → (cache_format.content (cache_format.print updated) ≡ records updated)
      × ((save_resolved cache_format os updated no_file).0 ≡ ok tt)
unfolding save_resolved
saves updated h = (ap records (ap (or_before []) h), refl)

refresh_all-load_example :
    ((refresh_all environment cache_format os (feed ∷ []) 7 no_file).0
      ≡ ok (or_before [] (refresh environment (feed ∷ []) (feed ∷ []) [] 7)))
    × (load_resolved cache_format (refresh_all environment cache_format os (feed ∷ []) 7 no_file).1
        ≡ ok (or_before [] (refresh environment (feed ∷ []) (feed ∷ []) [] 7)))
refresh_all-load_example =
    refresh_all-load environment cache_format os refl (feed ∷ []) 7 no_file [] no_records saves
