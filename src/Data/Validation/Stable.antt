-- ===== src/Data/Validation/Stable.antt =====
-- Validation normalises: what it returns passes again, unchanged. So a state that was saved after
-- validation loads as it was saved.
use vpn_control_panel.Prelude.{
  List, [], ◌∷◌, ◌≡◌, refl, true, false, none, some, Result, ok, arith, ltb, contains, ◌||◌, nat_eq,
  ◌>>=◌, bind_ok, raise_if_ok, map_result, option_result,
}
use vpn_control_panel.Text.{
  Str, codes, strip, strip_idem, is_empty, starts_with, ends_with, strip_of_slashes,
  ends_with-append, or_text,
}
use vpn_control_panel.Regex.{Regex}
use vpn_control_panel.Data.Models.{ClientRecord, ControlPlaneState}
use vpn_control_panel.Data.Errors.{
  ValidationError, too_short, too_small, too_large, reserved_in_name,
}
use vpn_control_panel.Data.Validation.{
  strip_nonempty, strip_optional, strip_tags, lead_slash, trail_slash, normalize_base_path,
  validate_node_inbound, validate_node, validate_external_inbound, validate_name, validate_client,
  validate_filter, validate_optional_filter, validate_external_subscription, validate_inbound_tags,
  validate_state,
}

-- `f` returns only what it accepts and leaves alone.
abbrev Stable : {A : Type 0} → (A → Result ValidationError A) → Type 0
Stable {A} f = (x y : A) → f x ≡ ok y → f y ≡ ok y

map_result-Stable :
    {A : Type 0} (f : A → Result ValidationError A) → Stable f → Stable (map_result f)
map_result-Stable f stable [] ys h = ground arith
map_result-Stable f stable (x ∷ xs) ys h = bind_ok (f x) _ h λ y p h1.
    bind_ok (map_result f xs) _ h1 λ zs q h2.
      let e : y ∷ zs ≡ ys = cc in rw (← e, stable x y p, map_result-Stable f stable xs zs q)

option_result-Stable :
    {A : Type 0} (f : A → Result ValidationError A) → Stable f → Stable (option_result f)
option_result-Stable f stable none y h = ground arith
option_result-Stable f stable (some x) y h =
    bind_ok (f x) _ h λ z p h1. let e : some z ≡ y = cc in rw (← e, stable x z p)

strip_nonempty-Stable :
    (label : Str) (v w : Str)
    → strip_nonempty v label ≡ ok w
    → (strip_nonempty w label ≡ ok w) × (is_empty w ≡ false)
unfolding strip_nonempty
strip_nonempty-Stable label v w h = ground (arith, strip_idem v)

strip_optional-Stable : (label : Str) → Stable (λ v. strip_optional v label)
unfolding strip_optional
strip_optional-Stable label =
    option_result-Stable (λ s. strip_nonempty s label)
      (λ x y h. (strip_nonempty-Stable label x y h).0)

strip_tags-Stable : Stable strip_tags
unfolding strip_tags
strip_tags-Stable =
    map_result-Stable (λ s. strip_nonempty s (codes "inbound tag"))
      (λ x y h. (strip_nonempty-Stable (codes "inbound tag") x y h).0)

-- What begins with a slash does so with one more behind it.
trail_slash_slashes :
    (v : Str)
    → starts_with v (b'/' ∷ []) ≡ true
    → (starts_with (trail_slash v) (b'/' ∷ []) ≡ true) × (ends_with (trail_slash v) b'/' ≡ true)
trail_slash_slashes [] h = cc
trail_slash_slashes (c ∷ v) h = ground (arith, ends_with-append (c ∷ v) b'/')

lead_slash_slash : (v : Str) → starts_with (lead_slash v) (b'/' ∷ []) ≡ true
lead_slash_slash v = ground arith

-- A text between slashes is a normal base path.
normalize_base_path_of_slashes :
    (v : Str)
    → starts_with v (b'/' ∷ []) ≡ true
    → ends_with v b'/' ≡ true
    → normalize_base_path v ≡ v
unfolding normalize_base_path
normalize_base_path_of_slashes [] h e = cc
normalize_base_path_of_slashes (c ∷ v) h e = rw (strip_of_slashes (c ∷ v) h e) (ground arith)

pub normalize_base_path_idem :
    (v : Str) → normalize_base_path (normalize_base_path v) ≡ normalize_base_path v
normalize_base_path_idem v =
    normalize_base_path_of_slashes (normalize_base_path v) slashes.0 slashes.1
  where
    slashes :
        (starts_with (normalize_base_path v) (b'/' ∷ []) ≡ true)
        × (ends_with (normalize_base_path v) b'/' ≡ true)
    slashes =
        unfold normalize_base_path in
        trail_slash_slashes (lead_slash (or_text (strip v) (b'/' ∷ [])))
          (lead_slash_slash (or_text (strip v) (b'/' ∷ [])))

validate_node_inbound-Stable : Stable validate_node_inbound
unfolding validate_node_inbound
validate_node_inbound-Stable x y h =
    raise_if_ok (is_empty x.tag) (too_short (codes "tag")) _ h λ a h1.
      bind_ok (strip_nonempty x.tag (codes "inbound tag")) _ h1 λ tag p h2.
        raise_if_ok (is_empty x.label) (too_short (codes "label")) _ h2 λ b h3.
          raise_if_ok (ltb x.xui_inbound_id 1) (too_small (codes "xuiInboundId")) _ h3 λ c h4.
            bind_ok (strip_optional x.xui_fallback_client_email (codes "xui fallback client email"))
              _ h4
              λ email q h5.
                let e : record x { tag = tag; xui_fallback_client_email = email } ≡ y = cc in
                let (p', full) = strip_nonempty-Stable (codes "inbound tag") x.tag tag p in
                let q' =
                  strip_optional-Stable (codes "xui fallback client email")
                    x.xui_fallback_client_email email q in
                rw (← e, full, p', b, c, q')

validate_node-Stable : Stable validate_node
unfolding validate_node
validate_node-Stable x y h = raise_if_ok (ltb x.id 1) (too_small (codes "id")) _ h λ a h1.
    raise_if_ok (is_empty x.host) (too_short (codes "host")) _ h1 λ b h2.
      raise_if_ok (ltb x.port 1) (too_small (codes "port")) _ h2 λ c h3.
        raise_if_ok (ltb 65535 x.port) (too_large (codes "port")) _ h3 λ d h4.
          raise_if_ok (is_empty x.api_token) (too_short (codes "apiToken")) _ h4 λ e h5.
            bind_ok (strip_nonempty x.api_token (codes "api token")) _ h5 λ token p h6.
              bind_ok
                (strip_optional x.xui_fallback_client_email (codes "xui fallback client email")) _
                h6
                λ email q h7.
                  bind_ok (map_result validate_node_inbound x.inbounds) _ h7 λ inbounds r h8.
                    let g : record x {
                      base_path = normalize_base_path x.base_path;
                      api_token = token;
                      xui_fallback_client_email = email;
                      inbounds = inbounds;
                    }
                        ≡ y =
                      cc in
                    let (p', full) =
                      strip_nonempty-Stable (codes "api token") x.api_token token p in
                    rw (
                      ← g,
                      a,
                      b,
                      c,
                      d,
                      full,
                      p',
                      strip_optional-Stable (codes "xui fallback client email")
                          x.xui_fallback_client_email email q,
                      map_result-Stable validate_node_inbound validate_node_inbound-Stable
                          x.inbounds inbounds r,
                      normalize_base_path_idem x.base_path,
                    )

validate_external_inbound-Stable : Stable validate_external_inbound
unfolding validate_external_inbound
validate_external_inbound-Stable x y h =
    raise_if_ok (is_empty x.tag) (too_short (codes "tag")) _ h λ a h1.
      bind_ok (strip_nonempty x.tag (codes "inbound tag")) _ h1 λ tag p h2.
        raise_if_ok (is_empty x.label) (too_short (codes "label")) _ h2 λ b h3.
          raise_if_ok (is_empty x.uri) (too_short (codes "uri")) _ h3 λ c h4.
            let e : record x { tag = tag } ≡ y = cc in
            let (p', full) = strip_nonempty-Stable (codes "inbound tag") x.tag tag p in
            rw (← e, full, p', b, c)

pub validate_client-Stable : Stable validate_client
unfolding validate_client
validate_client-Stable x y h = raise_if_ok (is_empty x.id) (too_short (codes "id")) _ h λ a h1.
    bind_ok (strip_nonempty x.id (codes "identifier")) _ h1 λ id p h2.
      bind_ok (strip_optional x.telegram_id (codes "identifier")) _ h2 λ telegram_id q h3.
        bind_ok (strip_optional x.sub_id (codes "identifier")) _ h3 λ sub_id r h4.
          bind_ok (strip_optional x.legacy_sub_id (codes "identifier")) _ h4 λ legacy t h5.
            bind_ok (option_result strip_tags x.inbound_tags) _ h5 λ tags u h6.
              bind_ok (option_result strip_tags x.abroad_inbound_tags) _ h6 λ abroad v h7.
                let e : record x {
                  id = id;
                  telegram_id = telegram_id;
                  sub_id = sub_id;
                  legacy_sub_id = legacy;
                  inbound_tags = tags;
                  abroad_inbound_tags = abroad;
                }
                    ≡ y =
                  cc in
                let (p', full) = strip_nonempty-Stable (codes "identifier") x.id id p in
                let optional = strip_optional-Stable (codes "identifier") in
                let listed = option_result-Stable strip_tags strip_tags-Stable in
                rw (← e, full, p')
                  (rw
                    (
                      optional x.telegram_id telegram_id q,
                      optional x.sub_id sub_id r,
                      optional x.legacy_sub_id legacy t,
                    )
                    (rw (listed x.inbound_tags tags u, listed x.abroad_inbound_tags abroad v)))

validate_name-Stable : Stable validate_name
unfolding validate_name
validate_name-Stable x y h = bind_ok (strip_nonempty x (codes "subscription name")) _ h λ name p h1.
    raise_if_ok (contains name b':' || contains name b'@') (reserved_in_name name) _ h1 λ a h2.
      let e : name ≡ y = cc in
      let (p', full) = strip_nonempty-Stable (codes "subscription name") x name p in rw (← e, p', a)

validate_name-ne : (x y : Str) → validate_name x ≡ ok y → is_empty y ≡ false
unfolding validate_name
validate_name-ne x y h = bind_ok (strip_nonempty x (codes "subscription name")) _ h λ name p h1.
    raise_if_ok (contains name b':' || contains name b'@') (reserved_in_name name) _ h1 λ a h2.
      let e : name ≡ y = cc in
      rw (← e) (strip_nonempty-Stable (codes "subscription name") x name p).1

module _ (regex : Regex) where
  validate_filter-Stable : Stable (validate_optional_filter regex)
  unfolding validate_filter
  validate_filter-Stable none y h = ground arith
  validate_filter-Stable (some v) none h = refl
  validate_filter-Stable (some v) (some w) h = ground (arith, strip_idem v)

  validate_external_subscription-Stable : Stable (validate_external_subscription regex)
  unfolding validate_external_subscription
  validate_external_subscription-Stable x y h =
      raise_if_ok (is_empty x.name) (too_short (codes "name")) _ h λ a h1.
        bind_ok (validate_name x.name) _ h1 λ name p h2.
          raise_if_ok (is_empty x.url) (too_short (codes "url")) _ h2 λ b h3.
            raise_if_ok (ltb x.update_interval 1) (too_small (codes "updateInterval")) _ h3 λ c h4.
              bind_ok (validate_optional_filter regex x.inbound_filter) _ h4 λ filter q h5.
                let e : record x { name = name; inbound_filter = filter } ≡ y = cc in
                rw (
                  ← e,
                  validate_name-ne x.name name p,
                  validate_name-Stable x.name name p,
                  b,
                  c,
                  validate_filter-Stable x.inbound_filter filter q,
                )

  -- Every part of a state is in normal form.
  pub record IsNormal (s : ControlPlaneState) : Type 0 where
    pub nodes : map_result validate_node s.nodes ≡ ok s.nodes
    pub externals :
        map_result validate_external_inbound s.external_inbounds ≡ ok s.external_inbounds
    pub subscriptions :
        map_result (validate_external_subscription regex) s.external_subscriptions
        ≡ ok s.external_subscriptions
    pub clients : map_result validate_client s.clients ≡ ok s.clients
    pub tags : strip_tags s.default_client_inbound_tags ≡ ok s.default_client_inbound_tags
    pub abroad :
        option_result strip_tags s.default_client_abroad_inbound_tags
        ≡ ok s.default_client_abroad_inbound_tags

  -- Validation returns a state in normal form whose tags fit.
  pub IsNormal-of_valid :
      (s t : ControlPlaneState)
      → validate_state regex s ≡ ok t
      → IsNormal t × (validate_inbound_tags regex t ≡ ok tt)
  unfolding validate_state
  IsNormal-of_valid s t h = bind_ok (map_result validate_node s.nodes) _ h λ nodes p h1.
      bind_ok (map_result validate_external_inbound s.external_inbounds) _ h1 λ externals q h2.
        bind_ok (map_result (validate_external_subscription regex) s.external_subscriptions) _ h2
          λ subscriptions r h3. bind_ok (map_result validate_client s.clients) _ h3 λ clients u h4.
            bind_ok (strip_tags s.default_client_inbound_tags) _ h4 λ tags v h5.
              bind_ok (option_result strip_tags s.default_client_abroad_inbound_tags) _ h5
                λ abroad w h6.
                  bind_ok
                    (validate_inbound_tags regex (record s {
                      nodes = nodes;
                      external_inbounds = externals;
                      external_subscriptions = subscriptions;
                      clients = clients;
                      default_client_inbound_tags = tags;
                      default_client_abroad_inbound_tags = abroad;
                    }))
                    _ h6
                    λ c valid h7.
                      let e : record s {
                        nodes = nodes;
                        external_inbounds = externals;
                        external_subscriptions = subscriptions;
                        clients = clients;
                        default_client_inbound_tags = tags;
                        default_client_abroad_inbound_tags = abroad;
                      }
                          ≡ t =
                        cc in
                      rw (← e) (
                        record {
                          nodes =
                              map_result-Stable validate_node validate_node-Stable s.nodes nodes p;
                          externals =
                              map_result-Stable validate_external_inbound
                                validate_external_inbound-Stable s.external_inbounds externals q;
                          subscriptions =
                              map_result-Stable (validate_external_subscription regex)
                                validate_external_subscription-Stable s.external_subscriptions
                                subscriptions r;
                          clients =
                              map_result-Stable validate_client validate_client-Stable s.clients
                                clients u;
                          tags = strip_tags-Stable s.default_client_inbound_tags tags v;
                          abroad =
                              option_result-Stable strip_tags strip_tags-Stable
                                s.default_client_abroad_inbound_tags abroad w;
                        },
                        valid,
                      )

  -- A state in normal form validates to itself, if it validates at all.
  pub valid_of_normal :
      (s : ControlPlaneState)
      → IsNormal s
      → validate_inbound_tags regex s ≡ ok tt
      → validate_state regex s ≡ ok s
  unfolding validate_state
  valid_of_normal s n h =
      rw (n.nodes, n.externals, n.subscriptions) (rw (n.clients, n.tags) (rw (n.abroad, h)))

  pub same_of_normal :
      (s t : ControlPlaneState) → IsNormal s → validate_state regex s ≡ ok t → t ≡ s
  unfolding validate_state
  same_of_normal s t n h =
      let h' : (validate_inbound_tags regex s >>= λ _. ok s) ≡ ok t =
        rw (n.nodes, n.externals, n.subscriptions) at
          (rw (n.clients, n.tags) at (rw n.abroad at h)) in
      bind_ok (validate_inbound_tags regex s) _ h' λ c valid e. cc

  -- What validation returns, validates to itself: stripping and normalising twice is the same as
  -- once, and the checks on the normal form do not change.
  pub validate_state_idem :
      (s t : ControlPlaneState) → validate_state regex s ≡ ok t → validate_state regex t ≡ ok t
  validate_state_idem s t h = let (n, valid) = IsNormal-of_valid s t h in valid_of_normal t n valid

pub validate_clients_idem :
    (cs ds : List ClientRecord)
    → map_result validate_client cs ≡ ok ds
    → map_result validate_client ds ≡ ok ds
validate_clients_idem = map_result-Stable validate_client validate_client-Stable
