-- ===== src/Http/Routes.antt =====
-- http/routes.py. Which part of a path a template's parameter takes is FastAPI's, and an argument.
-- The client's answer is a status, what the body is made from, and the two headers that this file
-- adds; building a subscription is an argument here, and is what Subscription/Build models.
pub mod Backup
pub mod Order
use vpn_control_panel.Prelude.{
  ℕ, List, [], ◌∷◌, ◌++◌, Bool, true, false, not, ◌&&◌, ◌||◌, Option, none, some, Result, ok, err,
  ◌>>=◌, ◌>>◌, raise_if, ◌==◌, nat_eq, list_eq, any, all, contains, filter, length, map, leb, ltb,
  if◌then◌else◌,
}
use vpn_control_panel.Text.{Str, codes, is_empty, starts_with, partition, split, strip, or_text}
use vpn_control_panel.Data.Models.{ClientRecord}
use vpn_control_panel.Subscription.Render.{Codec, BuiltSubscription, View, view_by_accept, accepts}
use vpn_control_panel.Subscription.Token.{DigestError, compare_digest, is_public_token_for_client}
use vpn_control_panel.Subscription.Build.{BuildError, unknown_client}

-- The settings that the routes read.
pub record RouteSettings : Type 0 where
  pub subscription_route : Str
  pub subscription_legacy_routes : List Str
  pub subscription_token_salt : Option Str
  pub backup_http_token : Option Str

-- Longest first; those of one length keep their order.
abbrev pub insert_route : Str → List Str → List Str
insert_route r [] = r ∷ []
insert_route r (s ∷ ss) =
    let rest = insert_route r ss in if ltb (length r) (length s) then s ∷ rest else r ∷ s ∷ ss

abbrev pub sort_routes : List Str → List Str
sort_routes [] = []
sort_routes (r ∷ rs) = insert_route r (sort_routes rs)

-- `dict.fromkeys`: the first of equal routes stays.
abbrev pub unseen : List Str → List Str → List Str
unseen seen [] = []
unseen seen (r ∷ rs) =
    let new = unseen (r ∷ seen) rs in
    let old = unseen seen rs in if contains seen r then old else r ∷ new

-- `_subscription_routes`
unfoldable pub subscription_routes : RouteSettings → List Str
subscription_routes s =
    sort_routes (unseen [] (s.subscription_route ∷ s.subscription_legacy_routes))

-- `_legacy_subscription_routes`
unfoldable pub legacy_subscription_routes : RouteSettings → List Str
legacy_subscription_routes s =
    filter (λ r. not (r == s.subscription_route)) s.subscription_legacy_routes

-- `_is_legacy_subscription_path`
unfoldable pub is_legacy_subscription_path : Str → List Str → Bool
is_legacy_subscription_path path routes = any (λ r. starts_with path r) routes

pub data HttpError : Type 0 where
  -- 403 and 401 of the backup, 404 of a subscription
  not_configured invalid_token not_found : HttpError
  -- an exception that no handler catches: `compare_digest` of a text that is not ASCII, and one of
  -- building a subscription
  not_ascii : HttpError
  build_failed : BuildError → HttpError

module _ (lower : Str → Str) where
  abbrev pub header_text : Option Str → Str
  header_text none = []
  header_text (some h) = h

  abbrev pub checked_token : Bool → Bool → Str → Str → Result HttpError (Unit {0})
  checked_token found bearer token expected =
      if found && bearer
      then (compare_digest not_ascii token expected >>= λ same. raise_if (not same) invalid_token)
      else err invalid_token

  -- `_authorize_backup`
  unfoldable pub authorize_backup : Option Str → Option Str → Result HttpError (Unit {0})
  authorize_backup none authorization = err not_configured
  authorize_backup (some expected) authorization =
      let (scheme, found, token) = partition b' ' (header_text authorization) in
      checked_token found (lower scheme == codes "bearer") token expected

pub data Body : Type 0 where
  health_ok : Body
  -- `build_data_backup` of data.json
  data_backup : Body
  subscription_view : View → BuiltSubscription → Body
  redirect_to : Str → Body

pub record Response : Type 0 where
  pub status_code : ℕ
  pub body : Body
  pub provider_id : Option Str
  pub new_url : Option Str

abbrev pub bare : ℕ → Body → Response
bare status body = record { status_code = status; body = body; provider_id = none; new_url = none }

-- `_attach_subscription_headers`: an empty value adds none.
abbrev unless_blank : Option Str → Option Str
unless_blank none = none
unless_blank (some []) = none
unless_blank (some (c ∷ s)) = some (c ∷ s)

unfoldable pub attach_subscription_headers : Response → Option Str → Option Str → Response
attach_subscription_headers r provider_id new_url = record r {
  provider_id = unless_blank provider_id;
  new_url = unless_blank new_url;
}

-- The templates of the routes: the last two with the parameter `sub_id`, of one segment and of
-- all the rest.
pub data Template : Type 0 where
  exact : Str → Template
  one_segment rest_of_path : Str → Template

pub data Endpoint : Type 0 where
  health backup : Endpoint
  -- with `abroad`
  subscription : Bool → Endpoint

-- `create_router`: the routes in the order in which they are added.
unfoldable pub create_router : RouteSettings → List (Template × Endpoint)
unfolding subscription_routes
create_router s =
    (exact (codes "/health"), health)
    ∷ (exact (codes "/backup"), backup)
    ∷ (map (λ r. (one_segment (r ++ codes "abroad/"), subscription true)) (subscription_routes s)
        ++ map (λ r. (rest_of_path r, subscription false)) (subscription_routes s))

module _ (codec : Codec) (hmac_sha256 : Str → Str → ℕ) (s : RouteSettings)
    -- `SubscriptionService.build` of an id, abroad or not
    (build : Str → Bool → Result BuildError BuiltSubscription) where
  -- `_accepts_html`
  unfoldable pub accepts_html : Option Str → Bool
  unfolding accepts
  accepts_html accept = accepts codec accept (codes "text/html")

  -- `_should_update_subscription_url`
  abbrev not_public : Result DigestError Bool → Result HttpError Bool
  not_public (ok public) = ok (not public)
  not_public (err e) = err not_ascii

  unfoldable pub should_update_subscription_url :
      Str → Str → BuiltSubscription → Result HttpError Bool
  unfolding is_legacy_subscription_path legacy_subscription_routes is_public_token_for_client
  should_update_subscription_url path requested built =
      if is_legacy_subscription_path path (legacy_subscription_routes s)
      then ok true
      else not_public
          (is_public_token_for_client hmac_sha256 s.subscription_token_salt requested built.client)

  abbrev http_error : Result BuildError BuiltSubscription → Result HttpError BuiltSubscription
  http_error (ok built) = ok built
  http_error (err unknown_client) = err not_found
  http_error (err e) = err (build_failed e)

  -- `_build_subscription_or_404`
  unfoldable pub build_subscription_or_404 : Str → Bool → Result HttpError BuiltSubscription
  build_subscription_or_404 sub_id abroad = http_error (build sub_id abroad)

  -- The response to a built subscription.
  abbrev pub present : BuiltSubscription → Bool → Option Str → Response
  present built update accept =
      if update && accepts_html accept
      then bare 302 (redirect_to built.public_url)
      else attach_subscription_headers
          (bare 200 (subscription_view (view_by_accept codec accept) built))
          built.metadata.happ_provider_id (if update then some built.public_url else none)

  unfoldable pub respond : Str → Str → Option Str → Bool → Result HttpError Response
  unfolding build_subscription_or_404 should_update_subscription_url accepts_html view_by_accept
      attach_subscription_headers
  respond path sub_id accept abroad = do
    built ← build_subscription_or_404 sub_id abroad
    update ← should_update_subscription_url path sub_id built
    ok (present built update accept)

  abbrev answer : Endpoint → Str → Str → Option Str → Option Str → Result HttpError Response
  answer health path sub_id accept authorization = ok (bare 200 health_ok)
  answer backup path sub_id accept authorization = do
    authorize_backup codec.lower s.backup_http_token authorization
    ok (bare 200 data_backup)
  answer (subscription abroad) path sub_id accept authorization = respond path sub_id accept abroad
