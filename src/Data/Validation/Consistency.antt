-- ===== src/Data/Validation/Consistency.antt =====
-- `validate_inbound_tags` accepts a state exactly when its tags, names and references fit together.
use vpn_control_panel.Prelude.{
  List, [], ◌++◌, ◌≡◌, refl, ◌↔◌, ap, ◌∙◌, sym, true, not, ◌||◌, Option, none, some, Result, ok,
  err, arith, contains, All, All-map, Distinct, map, push_all, contains-push_all, Fresh-append,
  Fresh-iff-Distinct, push_all-append, fold_result, fold_groups, fold_groups-flatten,
  flatten_groups, for_each, nat_eq, list_eq, ◌>>=◌, bind_parts,
}
use vpn_control_panel.Text.{Str}
use vpn_control_panel.Regex.{Regex}
use vpn_control_panel.Data.Models.{
  NodeRecord, NodeInboundRecord, ExternalInboundRecord, ClientRecord, ControlPlaneState,
}
use vpn_control_panel.Data.Errors
use vpn_control_panel.Data.Errors.{ValidationError, TagList, duplicate_tag, duplicate_subscription}
use vpn_control_panel.Data.Reference.{ExternalSubscriptionRef, parse_external_subscription_ref}
use vpn_control_panel.Data.Validation.{
  declare_tags, declare_subscription, validate_tag_list, validate_optional_tags,
  validate_client_tags, check_query, validate_reference, validate_inbound_tags,
}
use vpn_control_panel.Data.Validation.Loops.{
  once, once_sound, once_complete, validate_tag_list_iff, for_each_iff,
}

-- Every tag that the state declares, in order.
abbrev pub node_inbound_tags : List NodeRecord → List Str
node_inbound_tags nodes = map (λ i. i.tag) (flatten_groups (λ node. node.inbounds) nodes)

abbrev pub declared_tags : ControlPlaneState → List Str
declared_tags s = node_inbound_tags s.nodes ++ map (λ e. e.tag) s.external_inbounds

abbrev pub subscription_names : ControlPlaneState → List Str
subscription_names s = map (λ r. r.name) s.external_subscriptions

-- A list of tags without repetition, all declared.
abbrev pub TagsFit : List Str → List Str → Type 0
TagsFit declared tags = Distinct tags × All (λ tag. contains declared tag ≡ true) tags

abbrev pub OptionalFit : List Str → Option (List Str) → Type 0
OptionalFit declared none = Unit
OptionalFit declared (some tags) = TagsFit declared tags

abbrev pub ClientFits : List Str → ClientRecord → Type 0
ClientFits declared c =
    OptionalFit declared c.inbound_tags × OptionalFit declared c.abroad_inbound_tags

module _ (regex : Regex) where
  -- A parsed uri: a literal one, or a reference to a subscription that exists, whose pattern
  -- compiles if it is one.
  abbrev pub RefFits : List Str → Result ValidationError (Option ExternalSubscriptionRef) → Type 0
  RefFits names (err e) = ⊥
  RefFits names (ok none) = Unit
  RefFits names (ok (some ref)) =
      (contains names ref.name ≡ true) × ((not ref.is_regex || regex.compiles ref.query) ≡ true)

  pub record IsConsistent (s : ControlPlaneState) : Type 0 where
    pub tags_distinct : Distinct (declared_tags s)
    pub names_distinct : Distinct (subscription_names s)
    pub references_fit :
        All
          (λ e. RefFits (subscription_names s) (parse_external_subscription_ref e.uri))
          s.external_inbounds
    pub default_fit : TagsFit (declared_tags s) s.default_client_inbound_tags
    pub abroad_fit : OptionalFit (declared_tags s) s.default_client_abroad_inbound_tags
    pub clients_fit : All (ClientFits (declared_tags s)) s.clients

-- Known names are those pushed, in whatever order.
same_known : (names : List Str) (a : Str) → contains (push_all [] names) a ≡ contains names a
same_known names a = ground (arith, contains-push_all [] names a)

declare_tags_sound :
    (s : ControlPlaneState) {known : List Str}
    → declare_tags s ≡ ok known
    → Distinct (declared_tags s) × (push_all [] (declared_tags s) ≡ known)
unfolding declare_tags
declare_tags_sound s h =
    let tag = λ (i : NodeInboundRecord). i.tag in
    let groups = λ (node : NodeRecord). node.inbounds in
    let (k, p, q) = bind_parts (fold_groups groups (once tag duplicate_tag) [] s.nodes) _ h in
    let (fresh, pushed) =
      once_sound tag duplicate_tag [] (flatten_groups groups s.nodes)
        (sym (fold_groups-flatten groups (once tag duplicate_tag) [] s.nodes) ∙ p) in
    let (fresh', pushed') = once_sound (λ e. e.tag) duplicate_tag k s.external_inbounds q in
    let names = map (λ (e : ExternalInboundRecord). e.tag) s.external_inbounds in
    (
      (Fresh-iff-Distinct (declared_tags s)).0
          ((Fresh-append [] (node_inbound_tags s.nodes) names).1 (fresh, rw pushed fresh')),
      push_all-append [] (node_inbound_tags s.nodes) names
          ∙ ap (λ t. push_all t names) pushed
          ∙ pushed',
    )

declare_tags_complete :
    (s : ControlPlaneState)
    → Distinct (declared_tags s)
    → declare_tags s ≡ ok (push_all [] (declared_tags s))
unfolding declare_tags
declare_tags_complete s h =
    let tag = λ (i : NodeInboundRecord). i.tag in
    let groups = λ (node : NodeRecord). node.inbounds in
    let names = map (λ (e : ExternalInboundRecord). e.tag) s.external_inbounds in
    let (fresh, fresh') =
      (Fresh-append [] (node_inbound_tags s.nodes) names).0
        ((Fresh-iff-Distinct (declared_tags s)).1 h) in
    let first =
      fold_groups-flatten groups (once tag duplicate_tag) [] s.nodes
      ∙ once_complete tag duplicate_tag [] (flatten_groups groups s.nodes) fresh in
    rw (first, push_all-append)
      (once_complete (λ e. e.tag) duplicate_tag (push_all [] (node_inbound_tags s.nodes))
        s.external_inbounds fresh')

TagsFit-iff :
    (l : TagList) (names tags : List Str)
    → (validate_tag_list l tags (push_all [] names) ≡ ok tt) ↔ TagsFit names tags
TagsFit-iff l names tags = (
  (λ h.
      let p = (validate_tag_list_iff l (push_all [] names) tags).0 h in
      ((Fresh-iff-Distinct tags).0 p.0, All-map tags (λ t q. sym (same_known names t) ∙ q) p.1)),
  (λ h.
      (validate_tag_list_iff l (push_all [] names) tags).1
        ((Fresh-iff-Distinct tags).1 h.0, All-map tags (λ t q. same_known names t ∙ q) h.1)),
)

OptionalFit-iff :
    (l : TagList) (names : List Str) (tags : Option (List Str))
    → (validate_optional_tags l tags (push_all [] names) ≡ ok tt) ↔ OptionalFit names tags
OptionalFit-iff l names none = ((λ h. tt), (λ h. refl))
OptionalFit-iff l names (some tags) = TagsFit-iff l names tags

ClientFits-iff :
    (names : List Str) (c : ClientRecord)
    → (validate_client_tags (push_all [] names) c ≡ ok tt) ↔ ClientFits names c
unfolding validate_client_tags
ClientFits-iff names c = (
  (λ h.
      let (u, p, q) =
        bind_parts
          (validate_optional_tags (Errors.inbound_tags c.id) c.inbound_tags (push_all [] names)) _
          h in
      (
        (OptionalFit-iff _ names c.inbound_tags).0 p,
        (OptionalFit-iff _ names c.abroad_inbound_tags).0 q,
      )),
  (λ h.
      rw ((OptionalFit-iff (Errors.inbound_tags c.id) names c.inbound_tags).1 h.0)
        ((OptionalFit-iff _ names c.abroad_inbound_tags).1 h.1)),
)

reference_fits_iff :
    (regex : Regex) (names : List Str) (e : ExternalInboundRecord)
    → (validate_reference regex (push_all [] names) e ≡ ok tt)
      ↔ RefFits regex names (parse_external_subscription_ref e.uri)
unfolding validate_reference
reference_fits_iff regex names e = query_fits_iff (parse_external_subscription_ref e.uri)
  where
    query_fits_iff :
        (r : Result ValidationError (Option ExternalSubscriptionRef))
        → ((r >>= λ ref. check_query regex (push_all [] names) e.tag ref) ≡ ok tt)
          ↔ RefFits regex names r
    query_fits_iff (err x) = ground arith
    query_fits_iff (ok none) = ground arith
    query_fits_iff (ok (some ref)) = ground (arith, same_known names ref.name)

All-iff {ℓ} :
    {A : Type ℓ} {P Q : A → Type 0} (xs : List A) → ((x : A) → P x ↔ Q x) → All P xs ↔ All Q xs
All-iff xs h = (All-map xs (λ x. (h x).0), All-map xs (λ x. (h x).1))

module _ (regex : Regex) (s : ControlPlaneState) where
  abbrev known : List Str
  known = push_all [] (declared_tags s)

  abbrev seen : List Str
  seen = push_all [] (subscription_names s)

  IsConsistent-of_valid : validate_inbound_tags regex s ≡ ok tt → IsConsistent regex s
  unfolding validate_inbound_tags declare_subscription
  IsConsistent-of_valid h =
      let (k, p, h1) = bind_parts (declare_tags s) _ h in
      let (tags, pushed) = declare_tags_sound s p in
      let (n, p', h2) =
        bind_parts
          (fold_result (once (λ r. r.name) duplicate_subscription) [] s.external_subscriptions) _
          h1 in
      let (fresh, pushed') =
        once_sound (λ r. r.name) duplicate_subscription [] s.external_subscriptions p' in
      let (u, refs, h3) =
        bind_parts (for_each (validate_reference regex n) s.external_inbounds) _ h2 in
      let (u1, default, h4) =
        bind_parts
          (validate_tag_list Errors.default_client_inbound_tags s.default_client_inbound_tags k) _
          h3 in
      let (u2, abroad, clients) =
        bind_parts
          (validate_optional_tags Errors.default_client_abroad_inbound_tags
            s.default_client_abroad_inbound_tags k)
          _ h4 in
      record {
        tags_distinct = tags;
        names_distinct = (Fresh-iff-Distinct (subscription_names s)).0 fresh;
        references_fit =
            (All-iff s.external_inbounds (reference_fits_iff regex (subscription_names s))).0 (
              (for_each_iff (validate_reference regex seen) s.external_inbounds).0
                (rw pushed' refs));
        default_fit =
            (TagsFit-iff Errors.default_client_inbound_tags (declared_tags s)
                s.default_client_inbound_tags).0
              (rw pushed default);
        abroad_fit =
            (OptionalFit-iff Errors.default_client_abroad_inbound_tags (declared_tags s)
                s.default_client_abroad_inbound_tags).0
              (rw pushed abroad);
        clients_fit =
            (All-iff s.clients (ClientFits-iff (declared_tags s))).0
              ((for_each_iff (validate_client_tags known) s.clients).0 (rw pushed clients));
      }

  valid_of_consistent : IsConsistent regex s → validate_inbound_tags regex s ≡ ok tt
  unfolding validate_inbound_tags declare_subscription
  valid_of_consistent c =
      rw
        (
          declare_tags_complete s c.tags_distinct,
          once_complete (λ r. r.name) duplicate_subscription [] s.external_subscriptions
              ((Fresh-iff-Distinct (subscription_names s)).1 c.names_distinct),
          (for_each_iff (validate_reference regex seen) s.external_inbounds).1 (
              (All-iff s.external_inbounds (reference_fits_iff regex (subscription_names s))).1
                c.references_fit),
          (TagsFit-iff Errors.default_client_inbound_tags (declared_tags s)
                s.default_client_inbound_tags).1
              c.default_fit,
          (OptionalFit-iff Errors.default_client_abroad_inbound_tags (declared_tags s)
                s.default_client_abroad_inbound_tags).1
              c.abroad_fit,
        )
        ((for_each_iff (validate_client_tags known) s.clients).1
          ((All-iff s.clients (ClientFits-iff (declared_tags s))).1 c.clients_fit))

  -- The validator accepts a state exactly when its inbound tags are distinct, its subscription
  -- names are distinct, every "@" reference is well formed and names a subscription (and its
  -- pattern compiles), and each list of tags, of the defaults and of every client, repeats no
  -- tag and holds declared tags only.
  pub validate_inbound_tags_iff : (validate_inbound_tags regex s ≡ ok tt) ↔ IsConsistent regex s
  validate_inbound_tags_iff = (IsConsistent-of_valid, valid_of_consistent)
