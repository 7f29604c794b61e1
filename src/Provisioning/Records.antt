-- ===== src/Provisioning/Records.antt =====
-- What `_persist_client_record` writes: which links of a client go on working, and what two runs
-- that overlap do to one another.
use vpn_control_panel.Prelude.{
  ℕ, List, [], ◌∷◌, ◌≡◌, ◌≢◌, refl, ap, ◌∙◌, ◌⊎◌, inl, inr, true, false, Option, none, some, Result,
  ok, err, arith, contains, find, Subset, map_result, ◌==◌, nat_eq, list_eq, list_beq_iff,
}
use vpn_control_panel.Text.{Str, is_empty, or_default}
use vpn_control_panel.Regex.{Regex}
use vpn_control_panel.Subscription.Token.{public_token_for_client, build_public_subscription_token}
use vpn_control_panel.Data.Models.{
  ClientRecord, ControlPlaneState, effective_sub_id, legacy_ids, legacy_subscription_ids,
}
use vpn_control_panel.Data.Errors.{ValidationError}
use vpn_control_panel.Data.Validation.{validate_client}
use vpn_control_panel.Data.Store.{save_clients}
use vpn_control_panel.Data.Store.Saving.{load-save_clients}
use vpn_control_panel.Provisioning.{
  legacy_of, persisted_record, final_sub_id, replace_client, record_for, from_store, persist,
}

-- The ids under which a subscription is found without a token.
abbrev pub link_ids : ClientRecord → List Str
link_ids r = effective_sub_id r ∷ legacy_subscription_ids r

-- The record that a run writes for a client that exists.
abbrev pub renewed : ClientRecord → Str → Str → ClientRecord
renewed r comment fresh = persisted_record (some r) r.id comment (final_sub_id (some r) fresh)

pub from_store_ok :
    {A : Type 0} (r : Result ValidationError A) {a : A} → from_store r ≡ ok a → r ≡ ok a
from_store_ok (ok x) h = ground arith
from_store_ok (err x) h = cc

abbrev ids_of : Option Str → Option Str → Str → List Str
ids_of sub legacy id = or_default sub id ∷ legacy_ids legacy sub id

links_kept :
    (sub legacy : Option Str) (id fresh : Str)
    → ((s : Str) × (sub ≡ some s) × (is_empty s ≡ false)) ⊎ ((sub ≡ none) × (legacy ≡ none))
    → is_empty fresh ≡ false
    → Subset
        (ids_of sub legacy id)
        (ids_of (some (or_default sub fresh)) (legacy_of legacy sub id) id)
links_kept none none id [] c n a h = cc
links_kept none none id (x ∷ fresh) c n a h = ground arith
links_kept none (some l) id fresh c n a h = ground arith
links_kept (some []) legacy id fresh c n a h = ground arith
links_kept (some (x ∷ s)) none id fresh c n a h = ground arith
links_kept (some (x ∷ s)) (some l) id fresh c n a h = ground arith

links_lost :
    (sub legacy : Option Str) (id fresh l : Str)
    → sub ≡ none
    → legacy ≡ some l
    → is_empty fresh ≡ false
    → fresh ≢ id
    → l ≢ id
    → (contains (ids_of sub legacy id) id ≡ true)
      × (contains (ids_of (some (or_default sub fresh)) (legacy_of legacy sub id) id) id ≡ false)
links_lost (some x) legacy id fresh l p q n f g = cc
links_lost none none id fresh l p q n f g = cc
links_lost none (some m) id [] l p q n f g = cc
links_lost none (some m) id (x ∷ fresh) l p q n f g =
    ground (arith, list_beq_iff id id, list_beq_iff (x ∷ fresh) id, list_beq_iff m id)

token_kept :
    (sub : Option Str) (id fresh : Str)
    → ((s : Str) × (sub ≡ some s) × (is_empty s ≡ false))
    → or_default (some (or_default sub fresh)) id ≡ or_default sub id
token_kept none id fresh (s, e, f) = cc
token_kept (some []) id fresh (s, e, f) = ground arith
token_kept (some (c ∷ sub)) id fresh (s, e, f) = refl

-- If a client that exists has a subscription id, or has neither that nor a legacy id, a run keeps
-- every id under which its subscription is found without a token, whatever id was generated. If
-- it has a subscription id, the run also keeps the token of its public url, with any salt or none.
pub renewed_keeps_links :
    (hmac_sha256 : Str → Str → ℕ) (salt : Option Str) (r : ClientRecord) (comment fresh : Str)
    → ((s : Str) × (r.sub_id ≡ some s) × (is_empty s ≡ false))
      ⊎ ((r.sub_id ≡ none) × (r.legacy_sub_id ≡ none))
    → is_empty fresh ≡ false
    → Subset (link_ids r) (link_ids (renewed r comment fresh))
      × ((public_token_for_client hmac_sha256 salt (renewed r comment fresh)
            ≡ public_token_for_client hmac_sha256 salt r)
          ⊎ (r.sub_id ≡ none))
unfolding persisted_record final_sub_id effective_sub_id legacy_subscription_ids
    public_token_for_client
renewed_keeps_links hmac_sha256 salt r comment fresh c n = (
  links_kept r.sub_id r.legacy_sub_id r.id fresh c n,
  elim c [
    | inl has ↦ inl (
        ap (λ t. build_public_subscription_token hmac_sha256 t salt)
          (token_kept r.sub_id r.id fresh has))
    | inr (no_sub, no_legacy) ↦ inr no_sub
  ],
)

-- A client with a legacy id and no subscription id loses a link: the one by its own id, which
-- worked before the run, is neither the new subscription id nor the legacy id after it.
pub renewed_loses_link :
    (r : ClientRecord) (comment fresh legacy : Str)
    → r.sub_id ≡ none
    → r.legacy_sub_id ≡ some legacy
    → is_empty fresh ≡ false
    → fresh ≢ r.id
    → legacy ≢ r.id
    → (contains (link_ids r) r.id ≡ true)
      × (contains (link_ids (renewed r comment fresh)) r.id ≡ false)
unfolding persisted_record final_sub_id effective_sub_id legacy_subscription_ids
renewed_loses_link r comment fresh legacy p q n f l =
    links_lost r.sub_id r.legacy_sub_id r.id fresh legacy p q n f l

others_kept :
    (clients : List ClientRecord) (r : ClientRecord) (id : Str)
    → id ≢ r.id
    → find (λ c. c.id == id) (replace_client clients r) ≡ find (λ c. c.id == id) clients
unfolding replace_client
others_kept [] r id ne = ground (arith, list_beq_iff r.id id)
others_kept (c ∷ cs) r id ne = ground (
  arith,
  list_beq_iff c.id id,
  list_beq_iff c.id r.id,
  list_beq_iff r.id id,
  others_kept cs r id ne,
)

pub persisted_id :
    (o : Option ClientRecord) (id comment sub : Str) → (persisted_record o id comment sub).id ≡ id
unfolding persisted_record
persisted_id none id comment sub = refl
persisted_id (some r) id comment sub = refl

-- A run writes the clients that it loaded at its start, with its own record put last, whatever
-- data.json holds by then. So a client `other` that another run added in between, and that the
-- first did not load, is not among the clients that are written: its record is lost.
pub persist_overwrites :
    (regex : Regex) (s file file' : ControlPlaneState) (id comment fresh other : Str)
    → find (λ c. c.id == other) s.clients ≡ none
    → other ≢ id
    → persist regex s id comment fresh file ≡ ok file'
    → (map_result validate_client (replace_client s.clients (record_for s id comment fresh))
        ≡ ok file'.clients)
      × (find (λ c. c.id == other) (replace_client s.clients (record_for s id comment fresh))
          ≡ none)
unfolding persist
persist_overwrites regex s file file' id comment fresh other absent ne h =
    let (old, validated, loaded, valid, same, again) =
      load-save_clients regex (replace_client s.clients (record_for s id comment fresh)) file file'
        (from_store_ok
          (save_clients regex (replace_client s.clients (record_for s id comment fresh)) file) h) in
    (
      rw same valid,
      others_kept s.clients (record_for s id comment fresh) other (
            rw
              (persisted_id (find (λ c. c.id == id) s.clients) id comment
                (final_sub_id (find (λ c. c.id == id) s.clients) fresh))
              ne)
          ∙ absent,
    )
