-- ===== src/ExternalSubscriptions/Service/Refreshed.antt =====
-- What a refresh leaves in the file of resolved inbounds, and that its slugs find their entries.
use vpn_control_panel.Prelude.{
  List, [], ◌∷◌, ◌≡◌, refl, ap, ◌∙◌, Bool, true, false, Option, none, some, arith, find, map,
  contains, Distinct, Subset, All, All-map, ◌==◌, nat_eq, list_eq, list_beq_iff, if◌then◌else◌,
}
use vpn_control_panel.Text.{Str}
use vpn_control_panel.Dict.{Dict, lookup, lookup-insert}
use vpn_control_panel.Data.Models.{ExternalSubscriptionRecord}
use vpn_control_panel.Data.Reference.{ExternalSubscriptionRef}
use vpn_control_panel.ExternalSubscriptions.Parser.{
  ParsedSubscriptionEntry, parse_subscription_body,
}
use vpn_control_panel.ExternalSubscriptions.Slug.{assign_slugs}
use vpn_control_panel.ExternalSubscriptions.Slug.Unique.{assign_slugs-Distinct}
use vpn_control_panel.ExternalSubscriptions.Cache.{
  ResolvedExternalInbound, ResolvedInbounds, or_no_entries, resolve_ref, uri_of,
}
use vpn_control_panel.ExternalSubscriptions.Service.{
  Environment, resolved_entry, filtered, build_resolved_inbounds, known_entries, body_of, put_body,
  refresh_each,
}

resolved_slugs :
    (now : Str) (ps : List (Str × ParsedSubscriptionEntry))
    → map (λ e. e.slug) (map (resolved_entry now) ps) ≡ map (λ p. p.0) ps
resolved_slugs now [] = refl
resolved_slugs now ((slug, e) ∷ ps) = ap (λ l. slug ∷ l) (resolved_slugs now ps)

absent_slug :
    (es : List ResolvedExternalInbound) (a : ResolvedExternalInbound)
    → contains (map (λ e. e.slug) es) a.slug ≡ false
    → All (λ e. (a.slug == e.slug) ≡ false) es
absent_slug [] a h = tt
absent_slug (e ∷ es) a h = (
  ground (arith, list_beq_iff a.slug e.slug, list_beq_iff e.slug a.slug),
  absent_slug es a (ground arith),
)

found_by_slug :
    (es : List ResolvedExternalInbound)
    → Distinct (map (λ e. e.slug) es)
    → All (λ a. find (λ e. e.slug == a.slug) es ≡ some a) es
found_by_slug [] d = tt
found_by_slug (e ∷ es) d = (
  ground (arith, list_beq_iff e.slug e.slug),
  All-both es (λ a p q. ground arith) (absent_slug es e d.0) (found_by_slug es d.1),
)
  where
    All-both :
        {P Q R : ResolvedExternalInbound → Type 0} (es : List ResolvedExternalInbound)
        → ((a : ResolvedExternalInbound) → P a → Q a → R a)
        → All P es
        → All Q es
        → All R es
    All-both [] f p q = tt
    All-both (x ∷ xs) f p q = (f x p.0 q.0, All-both xs f p.1 q.1)

module _ (env : Environment) where
  abbrev pub slug_ref : Str → Str → ExternalSubscriptionRef
  slug_ref name slug = record { name = name; query = slug; is_regex = false }

  -- Every entry of a refreshed feed can be referred to: a reference by its slug resolves to its
  -- uri, also where upstream gave several entries the same label.
  pub resolve-build_resolved_inbounds :
      (s : ExternalSubscriptionRecord) (entries : List ParsedSubscriptionEntry) (now : Str)
      → All
          (λ e.
            resolve_ref env.regex
              (slug_ref s.name e.slug)
              (build_resolved_inbounds env s entries now)
            ≡ some e.uri)
          (build_resolved_inbounds env s entries now)
  unfolding resolve_ref build_resolved_inbounds
  resolve-build_resolved_inbounds s entries now =
      let ps = assign_slugs env.is_word env.lower (filtered env s.inbound_filter entries) in
      All-map (map (resolved_entry now) ps) (λ e h. ap uri_of h)
        (found_by_slug (map (resolved_entry now) ps) (
          rw (resolved_slugs now ps)
            (assign_slugs-Distinct env.is_word env.lower
              (filtered env s.inbound_filter entries)).0))

  -- The entries of a subscription that is refreshed from this body, if there is one.
  abbrev pub fresh_entries :
      ExternalSubscriptionRecord
      → Str
      → Option Str
      → List ResolvedExternalInbound
      → List ResolvedExternalInbound
  fresh_entries s now none known = known
  fresh_entries s now (some body) known =
      build_resolved_inbounds env s (parse_subscription_body env.decode_base64 env.unquote body) now

  abbrev pub names : List ExternalSubscriptionRecord → List Str
  names = map (λ r. r.name)

  untouched :
      (ss : List ExternalSubscriptionRecord) (bodies : Dict Str (Option Str)) (now : Str)
      (u : ResolvedInbounds × Bool) (name : Str)
      → contains (names ss) name ≡ false
      → lookup name (refresh_each env ss bodies now u).0 ≡ lookup name u.0
  unfolding refresh_each
  untouched [] bodies now u name h = refl
  untouched (s ∷ ss) bodies now u name h =
      untouched ss bodies now (put_body env s now (body_of env (lookup s.url bodies)) u) name
        (ground arith)
      ∙ put (body_of env (lookup s.url bodies))
    where
      put : (b : Option Str) → lookup name (put_body env s now b u).0 ≡ lookup name u.0
      put none = refl
      put (some body) = ground (
        arith,
        lookup-insert s.name name
            (build_resolved_inbounds env s
              (parse_subscription_body env.decode_base64 env.unquote body) now)
            u.0,
      )

  known_lookup :
      (subs : List ExternalSubscriptionRecord) (resolved : ResolvedInbounds) (name : Str)
      → lookup name (known_entries env subs resolved)
        ≡ (if contains (names subs) name then some (or_no_entries (lookup name resolved)) else none)
  unfolding known_entries
  known_lookup [] resolved name = refl
  known_lookup (s ∷ ss) resolved name =
      ground (arith, known_lookup ss resolved name, list_beq_iff s.name name)

  put_own :
      (s : ExternalSubscriptionRecord) (now : Str) (b : Option Str) (u : ResolvedInbounds × Bool)
      → or_no_entries (lookup s.name (put_body env s now b u).0)
        ≡ fresh_entries s now b (or_no_entries (lookup s.name u.0))
  put_own s now none u = refl
  put_own s now (some body) u = ground (
    arith,
    list_beq_iff s.name s.name,
    lookup-insert s.name s.name
        (build_resolved_inbounds env s (parse_subscription_body env.decode_base64 env.unquote body)
          now)
        u.0,
  )

  put_other :
      (s : ExternalSubscriptionRecord) (now : Str) (b : Option Str) (u : ResolvedInbounds × Bool)
      (name : Str)
      → (s.name == name) ≡ false
      → lookup name (put_body env s now b u).0 ≡ lookup name u.0
  put_other s now none u name h = refl
  put_other s now (some body) u name h = ground (
    arith,
    lookup-insert s.name name
        (build_resolved_inbounds env s (parse_subscription_body env.decode_base64 env.unquote body)
          now)
        u.0,
  )

  refreshed :
      (ss : List ExternalSubscriptionRecord) (bodies : Dict Str (Option Str)) (now : Str)
      (u : ResolvedInbounds × Bool)
      → Distinct (names ss)
      → (known : ResolvedInbounds)
      → ((name : Str)
          → contains (names ss) name ≡ true
          → or_no_entries (lookup name u.0) ≡ or_no_entries (lookup name known))
      → All
          (λ s.
            or_no_entries (lookup s.name (refresh_each env ss bodies now u).0)
            ≡ fresh_entries s now
                (body_of env (lookup s.url bodies))
                (or_no_entries (lookup s.name known)))
          ss
  unfolding refresh_each
  refreshed [] bodies now u d known h = tt
  refreshed (s ∷ ss) bodies now u d known h =
      let b = body_of env (lookup s.url bodies) in
      (
        ap or_no_entries (untouched ss bodies now (put_body env s now b u) s.name d.0)
            ∙ put_own s now b u
            ∙ ap (fresh_entries s now b) (h s.name (ground (arith, list_beq_iff s.name s.name))),
        refreshed ss bodies now (put_body env s now b u) d.1 known (λ name p.
            ap or_no_entries
              (put_other s now b u name (ground (arith, list_beq_iff s.name name, d.0)))
            ∙ h name (ground arith)),
      )

  known_of :
      (subs ss : List ExternalSubscriptionRecord) (resolved : ResolvedInbounds)
      → Subset (names ss) (names subs)
      → (name : Str) → contains (names ss) name ≡ true
      → or_no_entries (lookup name (known_entries env subs resolved))
        ≡ or_no_entries (lookup name resolved)
  known_of subs ss resolved sub name p = rw (known_lookup subs resolved name, sub name p) refl

  -- The loop of a refresh, where the refreshed subscriptions have distinct names that are among
  -- those of data.json: each has its new entries if its body was fetched, and its known entries
  -- if not; another subscription of data.json keeps its entries, and a name that data.json does
  -- not have is gone.
  pub refresh_each-lookup :
      (subs ss : List ExternalSubscriptionRecord) (bodies : Dict Str (Option Str)) (now : Str)
      (resolved : ResolvedInbounds)
      → Distinct (names ss)
      → Subset (names ss) (names subs)
      → All
          (λ s.
            or_no_entries (
              lookup s.name
                (refresh_each env ss bodies now (known_entries env subs resolved, false)).0)
            ≡ fresh_entries s now
                (body_of env (lookup s.url bodies))
                (or_no_entries (lookup s.name resolved)))
          ss
        × ((name : Str)
            → contains (names ss) name ≡ false
            → lookup name
                (refresh_each env ss bodies now (known_entries env subs resolved, false)).0
              ≡ (if contains (names subs) name
                  then some (or_no_entries (lookup name resolved))
                  else none))
  refresh_each-lookup subs ss bodies now resolved d sub = (
    refreshed ss bodies now (known_entries env subs resolved, false) d resolved
        (known_of subs ss resolved sub),
    λ name p.
        untouched ss bodies now (known_entries env subs resolved, false) name p
        ∙ known_lookup subs resolved name,
  )
