-- ===== src/Sync/Service.antt =====
-- `_sync_node`, `_reconcile_client`, `_create_client` and `_update_existing` of sync/service.py. The
-- state is that of the panels and the report, which keeps what was counted before an exception. The
-- messages of the report are values. Python's `str` of a value that is no text is an argument.
pub mod Settled
use vpn_control_panel.Prelude.{
  ℕ, zero, suc, ◌+◌, List, [], ◌∷◌, ◌++◌, Bool, true, false, not, ◌||◌, ◌&&◌, Option, none, some,
  Result, ok, err, filter, map, contains, length, ◌==◌, nat_eq, list_eq, if◌then◌else◌,
}
use vpn_control_panel.Text.{Str, codes, strip, lstrip, is_empty, starts_with}
use vpn_control_panel.Text.Decimal.{parse_decimal}
use vpn_control_panel.Dict.{Dict, lookup, insert, keys}
use vpn_control_panel.Json.{
  Json, null, boolean, integer, float, text, array, object, ℤ, pos, negsuc, JsonObject, get, put,
  truthy,
}
use vpn_control_panel.Action.{Action, pure, raise, lift, ◌>>=◌, ◌>>◌}
use vpn_control_panel.Xui.Panel.{Panel, XuiInbound, XuiClientInfo}
use vpn_control_panel.Data.Models.{NodeRecord, ClientRecord, ControlPlaneState, effective_sub_id}
use vpn_control_panel.Provisioning.{index_inbounds, missing_ids}
use vpn_control_panel.Provisioning.Payload.{
  client_email, compute_node_flow, build_client_payload, effective_telegram_id,
}
use vpn_control_panel.Sync.Plans.{NodePlan, build_node_plans}

pub data NodeError : Type 0 where
  node_failed : ℕ → Str → NodeError
  client_failed : ℕ → Str → Str → NodeError
  inbounds_not_found : ℕ → List ℕ → Str → NodeError

pub record ClientSyncReport : Type 0 where
  pub created : ℕ
  pub updated : ℕ
  pub attached : ℕ
  pub node_errors : List NodeError

abbrev pub empty_report : ClientSyncReport
empty_report = record { created = 0; updated = 0; attached = 0; node_errors = [] }

abbrev pub with_error : NodeError → ClientSyncReport → ClientSyncReport
with_error e r = record r { node_errors = r.node_errors ++ (e ∷ []) }

-- What a client should have.
pub record Wanted : Type 0 where
  pub comment : Str
  pub sub_id : Str
  pub telegram_id : Option ℕ

unfoldable pub wanted_of : ClientRecord → Wanted
wanted_of r = record {
  comment = r.comment;
  sub_id = effective_sub_id r;
  telegram_id = effective_telegram_id r;
}

abbrev negated : ℕ → ℤ
negated zero = pos 0
negated (suc n) = negsuc n

-- `int(value)` of a text that is decimal after its dashes: it raises if there are two or more.
abbrev signed : Str → Option ℕ → Result Str (Option ℤ)
signed s none = ok none
signed s (some n) =
    if starts_with s (codes "--")
    then err (codes "invalid literal for int()")
    else if starts_with s (codes "-")
    then ok (some (negated n))
    else ok (some (pos n))

-- `_as_int`
unfoldable pub as_int : Option Json → Result Str (Option ℤ)
unfolding strip lstrip
as_int (some (integer n)) = ok (some n)
as_int (some (text s)) = signed (strip s) (parse_decimal (lstrip (λ c. c == b'-') (strip s)))
as_int other = ok none

abbrev is_number : Option ℤ → ℕ → Bool
is_number (some (pos m)) n = m == n
is_number other n = false

abbrev differs : ℕ → Result Str (Option ℤ) → Result Str Bool
differs n (ok value) = ok (not (is_number value n))
differs n (err e) = err e

-- the third test of `_needs_update`
abbrev telegram_differs : Option ℕ → JsonObject → Result Str Bool
telegram_differs none current = ok false
telegram_differs (some n) current = differs n (as_int (get (codes "tgId") current))

abbrev pub with_tg_id : Option ℕ → JsonObject → JsonObject
with_tg_id none o = o
with_tg_id (some n) o = put (codes "tgId") (integer (pos n)) o

-- The payload of an update: the panel's own fields, with these changed.
unfoldable pub updated_payload : Wanted → JsonObject → JsonObject
updated_payload q current =
    with_tg_id q.telegram_id
      (put (codes "subId") (text q.sub_id) (put (codes "comment") (text q.comment) current))

abbrev indexed :
    Option Json → XuiClientInfo → Dict Str XuiClientInfo → Result Str (Dict Str XuiClientInfo)
indexed none info d = err (codes "'email'")
indexed (some (text email)) info d = ok (insert email info d)
indexed (some (array xs)) info d = err (codes "unhashable type: 'list'")
indexed (some (object o)) info d = err (codes "unhashable type: 'dict'")
indexed (some other) info d = ok d

abbrev then_index :
    (Dict Str XuiClientInfo → Result Str (Dict Str XuiClientInfo))
    → Result Str (Dict Str XuiClientInfo)
    → Result Str (Dict Str XuiClientInfo)
then_index f (ok d) = f d
then_index f (err e) = err e

-- `existing`: a key that is no text is never looked up, so it is left out.
unfoldable pub index_clients :
    Dict Str XuiClientInfo → List XuiClientInfo → Result Str (Dict Str XuiClientInfo)
index_clients d [] = ok d
index_clients d (info ∷ infos) =
    then_index (λ e. index_clients e infos) (indexed (get (codes "email") info.client) info d)

abbrev found_inbounds : Dict ℕ XuiInbound → List ℕ → List XuiInbound
found_inbounds by_id [] = []
found_inbounds by_id (i ∷ is) = found_inbound (lookup i by_id) (found_inbounds by_id is)
  where
    found_inbound : Option XuiInbound → List XuiInbound → List XuiInbound
    found_inbound none rest = rest
    found_inbound (some ib) rest = ib ∷ rest

module _ (str_of : Json → Str) where
  -- `str(current.get(key) or "")`
  abbrev pub text_of : Option Json → Str
  text_of (some (text s)) = s
  text_of none = []
  text_of (some v) = if truthy (some v) then str_of v else []

  -- `_needs_update`; `or` stops at the first difference.
  unfoldable pub needs_update : JsonObject → Wanted → Result Str Bool
  unfolding as_int
  needs_update current q =
      if not (text_of (get (codes "comment") current) == q.comment)
        || not (text_of (get (codes "subId") current) == q.sub_id)
      then ok true
      else telegram_differs q.telegram_id current

abbrev pub State : Panel → Type 0
State P = P.World × ClientSyncReport

module _ (P : Panel) (lower : Str → Str) (str_of : Json → Str) (default_flow : Str)
    (dry_run : Bool) where
  -- A call of the panel, which a dry run only logs.
  abbrev pub unless_dry : Action P.World Str (Unit {0}) → Action (State P) Str (Unit {0})
  unless_dry m (w, r) = let (a, w') = m w in if dry_run then (ok tt, (w, r)) else (a, (w', r))

  abbrev pub count : (ClientSyncReport → ClientSyncReport) → Action (State P) Str (Unit {0})
  count f (w, r) = (ok tt, (w, f r))

  -- `_create_client`
  unfoldable pub create_client : NodeRecord → JsonObject → List ℕ → Action (State P) Str (Unit {0})
  create_client node payload ids = do
    unless_dry (P.add_client node payload ids)
    count (λ r. record r { created = r.created + 1 })

  abbrev pub update_if : Bool → NodeRecord → Str → JsonObject → Action (State P) Str (Unit {0})
  update_if false node email payload = pure tt
  update_if true node email payload = do
    unless_dry (P.update_client node email payload)
    count (λ r. record r { updated = r.updated + 1 })

  abbrev pub attach_missing : NodeRecord → Str → List ℕ → Action (State P) Str (Unit {0})
  attach_missing node email [] = pure tt
  attach_missing node email (i ∷ is) = do
    unless_dry (P.attach_client node email (i ∷ is))
    count (λ r. record r { attached = r.attached + length (i ∷ is) })

  -- `_update_existing`
  unfoldable pub update_existing :
      NodeRecord → Str → Wanted → List ℕ → XuiClientInfo → Action (State P) Str (Unit {0})
  unfolding needs_update updated_payload missing_ids
  update_existing node email q ids info = do
    needed ← lift (needs_update str_of info.client q)
    update_if needed node email (updated_payload q info.client)
    attach_missing node email (missing_ids ids info.inbound_ids)

  abbrev pub create_or_update :
      NodeRecord
      → ClientRecord
      → List ℕ
      → Dict ℕ XuiInbound
      → Option XuiClientInfo
      → Action (State P) Str (Unit {0})
  create_or_update node r ids by_id none =
      create_client node
        (build_client_payload r.id (effective_sub_id r) r.comment (effective_telegram_id r)
          (compute_node_flow lower (found_inbounds by_id ids) default_flow))
        ids
  create_or_update node r ids by_id (some info) =
      update_existing node (client_email r.id) (wanted_of r) ids info

  abbrev pub unless_missing :
      List ℕ
      → NodeRecord
      → ClientRecord
      → Action (State P) Str (Unit {0})
      → Action (State P) Str (Unit {0})
  unless_missing [] node r m = m
  unless_missing (i ∷ is) node r m = count (with_error (inbounds_not_found node.id (i ∷ is) r.id))

  -- `_reconcile_client`
  unfoldable pub reconcile_client :
      NodeRecord
      → ClientRecord
      → List ℕ
      → Dict ℕ XuiInbound
      → Dict Str XuiClientInfo
      → Action (State P) Str (Unit {0})
  unfolding create_client update_existing
  reconcile_client node r ids by_id existing =
      unless_missing (filter (λ i. not (contains (keys by_id) i)) ids) node r
        (create_or_update node r ids by_id (lookup (client_email r.id) existing))

  abbrev pub or_report : (Str → NodeError) → Result Str (Unit {0}) × State P → State P
  or_report f (ok u, s) = s
  or_report f (err e, (w, report)) = (w, with_error (f e) report)

  -- The loop over the targets: an exception of one client is reported, and the next is tried.
  unfoldable pub reconcile_all :
      NodeRecord
      → List (ClientRecord × List ℕ)
      → Dict ℕ XuiInbound
      → Dict Str XuiClientInfo
      → State P
      → State P
  unfolding reconcile_client
  reconcile_all node [] by_id existing s = s
  reconcile_all node ((r, ids) ∷ targets) by_id existing s =
      reconcile_all node targets by_id existing
        (or_report (client_failed node.id r.id) (reconcile_client node r ids by_id existing s))

  abbrev on_world {ℓ} : {A : Type ℓ} → Action P.World Str A → Action (State P) Str A
  on_world m (w, r) = let (a, w') = m w in (a, (w', r))

  -- What `_sync_node` reads from the panel before the loop.
  abbrev pub read_node :
      NodeRecord → Action (State P) Str (Dict ℕ XuiInbound × Dict Str XuiClientInfo)
  read_node node = do
    inbounds ← on_world (P.list_inbounds node)
    clients ← on_world (P.list_clients node)
    existing ← lift (index_clients [] clients)
    pure (index_inbounds [] inbounds, existing)

  abbrev reconcile_read :
      NodePlan → Result Str (Dict ℕ XuiInbound × Dict Str XuiClientInfo) × State P → State P
  reconcile_read plan (err e, (w, r)) = (w, with_error (node_failed plan.node.id e) r)
  reconcile_read plan (ok (by_id, existing), s) =
      reconcile_all plan.node plan.targets by_id existing s

  -- `_sync_node`
  unfoldable pub sync_node : NodePlan → State P → State P
  unfolding reconcile_all index_clients
  sync_node plan s = reconcile_read plan (read_node plan.node s)

  abbrev sync_all : List NodePlan → State P → State P
  sync_all [] s = s
  sync_all (plan ∷ plans) s = sync_all plans (sync_node plan s)

  -- `sync`, given the loaded state
  unfoldable pub sync : ControlPlaneState → P.World → State P
  unfolding sync_node build_node_plans
  sync s w = sync_all (build_node_plans s) (w, empty_report)
