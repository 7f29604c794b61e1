-- ===== src/Sync/Service/Settled.antt =====
-- A client that was updated needs no second update, a settled client is left alone, and a dry run
-- changes no panel.
use vpn_control_panel.Prelude.{
  ℕ, ◌+◌, length, List, [], ◌∷◌, ◌≡◌, refl, ◌∙◌, Bool, true, false, not, Option, none, some, Result,
  ok, err, arith, filter, contains, ◌++◌, Subset, contains-append, contains-filter, ◌==◌, nat_eq,
  list_eq, nat_beq_iff, list_beq_iff, if◌then◌else◌,
}
use vpn_control_panel.Text.{Str, codes}
use vpn_control_panel.Dict.{Dict, lookup, keys}
use vpn_control_panel.Json.{Json, integer, text, pos, JsonObject, end, field, get, put}
use vpn_control_panel.Action.{Action, Preserves, Preserves-bind, Preserves-result, ◌>>=◌}
use vpn_control_panel.Xui.Panel.{Panel, XuiInbound, XuiClientInfo}
use vpn_control_panel.Data.Models.{NodeRecord, ClientRecord, effective_sub_id}
use vpn_control_panel.Provisioning.{missing_ids}
use vpn_control_panel.Provisioning.Payload.{
  client_email, build_client_payload, compute_node_flow, effective_telegram_id,
}
use vpn_control_panel.Sync.Service.{
  ClientSyncReport, NodeError, client_failed, Wanted, wanted_of, as_int, updated_payload,
  with_tg_id, telegram_differs, needs_update, unless_dry, count, create_client, update_if,
  attach_missing, found_inbounds, update_existing, create_or_update, unless_missing,
  reconcile_client, reconcile_all, or_report, State,
}

get-put :
    (k j : Str) (v : Json) (o : JsonObject)
    → get j (put k v o) ≡ (if k == j then some v else get j o)
get-put k j v end = refl
get-put k j v (field i w o) =
    ground (arith, list_beq_iff k j, list_beq_iff i k, list_beq_iff i j, get-put k j v o)

get-put_same : (k : Str) (v : Json) (o : JsonObject) → get k (put k v o) ≡ some v
get-put_same k v o = ground (arith, get-put k k v o, list_beq_iff k k)

comment_kept :
    (n : Option ℕ) (sub comment : Str) (o : JsonObject)
    → get
        (codes "comment")
        (with_tg_id n (put (codes "subId") (text sub) (put (codes "comment") (text comment) o)))
      ≡ some (text comment)
comment_kept none sub comment o =
    get-put (codes "subId") (codes "comment") (text sub) (put (codes "comment") (text comment) o)
    ∙ get-put_same (codes "comment") (text comment) o
comment_kept (some n) sub comment o =
    get-put (codes "tgId") (codes "comment") (integer (pos n))
      (put (codes "subId") (text sub) (put (codes "comment") (text comment) o))
    ∙ (get-put (codes "subId") (codes "comment") (text sub) (put (codes "comment") (text comment) o)
        ∙ get-put_same (codes "comment") (text comment) o)

sub_id_kept :
    (n : Option ℕ) (sub comment : Str) (o : JsonObject)
    → get
        (codes "subId")
        (with_tg_id n (put (codes "subId") (text sub) (put (codes "comment") (text comment) o)))
      ≡ some (text sub)
sub_id_kept none sub comment o =
    get-put_same (codes "subId") (text sub) (put (codes "comment") (text comment) o)
sub_id_kept (some n) sub comment o =
    get-put (codes "tgId") (codes "subId") (integer (pos n))
      (put (codes "subId") (text sub) (put (codes "comment") (text comment) o))
    ∙ get-put_same (codes "subId") (text sub) (put (codes "comment") (text comment) o)

telegram_settled : (n : Option ℕ) (o : JsonObject) → telegram_differs n (with_tg_id n o) ≡ ok false
unfolding as_int
telegram_settled none o = refl
telegram_settled (some n) o =
    rw (get-put_same (codes "tgId") (integer (pos n)) o) (ground (arith, nat_beq_iff n n))

module _ (str_of : Json → Str) where
  -- What an update writes needs no update: the next sync finds nothing to change, whatever the
  -- panel had for this client before.
  needs_update-updated_payload :
      (current : JsonObject) (q : Wanted)
      → needs_update str_of (updated_payload q current) q ≡ ok false
  unfolding needs_update updated_payload
  needs_update-updated_payload current q =
      rw
        (
          comment_kept q.telegram_id q.sub_id q.comment current,
          sub_id_kept q.telegram_id q.sub_id q.comment current,
        )
        (ground (
          arith,
          list_beq_iff q.comment q.comment,
          list_beq_iff q.sub_id q.sub_id,
          telegram_settled q.telegram_id (
              put (codes "subId") (text q.sub_id) (put (codes "comment") (text q.comment) current)),
        ))

none_outside : (is known : List ℕ) → Subset is known → filter (λ i. not (contains known i)) is ≡ []
none_outside [] known h = refl
none_outside (i ∷ is) known h =
    let here : contains known i ≡ true = h i (ground (arith, nat_beq_iff i i)) in
    rw here (none_outside is known λ j k. h j (ground arith))

-- What was attached to what it was missing from is missing from nothing.
none_missing : (ids attached : List ℕ) → missing_ids ids (attached ++ missing_ids ids attached) ≡ []
unfolding missing_ids
none_missing ids attached =
    none_outside ids (attached ++ filter (λ i. not (contains attached i)) ids) λ i h. ground (
      arith,
      contains-append attached (filter (λ j. not (contains attached j)) ids) i,
      contains-filter (λ j. not (contains attached j)) ids i,
    )

module _ (P : Panel) (lower : Str → Str) (str_of : Json → Str) (default_flow : Str) where
  -- After an update of a client with whatever the panel had for it, and after it was attached to
  -- the inbounds that it was missing from, the next sync leaves the client alone: the panel and the
  -- report stay as they are, if the panel still has all the inbounds.
  pub reconcile_client-settled :
      (dry_run : Bool) (node : NodeRecord) (r : ClientRecord) (ids : List ℕ)
      (by_id : Dict ℕ XuiInbound) (existing : Dict Str XuiClientInfo) (before : XuiClientInfo)
      (s : State P)
      → Subset ids (keys by_id)
      → lookup (client_email r.id) existing
        ≡ some (record {
          client = updated_payload (wanted_of r) before.client;
          inbound_ids = before.inbound_ids ++ missing_ids ids before.inbound_ids;
        })
      → reconcile_client P lower str_of default_flow dry_run node r ids by_id existing s
        ≡ (ok tt, s)
  unfolding reconcile_client update_existing ◌>>=◌
  reconcile_client-settled dry_run node r ids by_id existing before s known found =
      rw
        (
          none_outside ids (keys by_id) known,
          found,
          needs_update-updated_payload str_of before.client (wanted_of r),
          none_missing ids before.inbound_ids,
        )
        refl

module _ (P : Panel) (lower : Str → Str) (str_of : Json → Str) (default_flow : Str)
    (w : P.World) where
  abbrev Unchanged : State P → Type 0
  Unchanged s = s.0 ≡ w

  abbrev Harmless : Action (State P) Str (Unit {0}) → Type 0
  Harmless m = Preserves Unchanged m

  dry :
      (m : Action P.World Str (Unit {0})) → Harmless (unless_dry P lower str_of default_flow true m)
  dry m = record { after = λ s h. h }

  counted :
      (f : ClientSyncReport → ClientSyncReport)
      → Harmless (count P lower str_of default_flow true f)
  counted f = record { after = λ s h. h }

  update_if_dry :
      (b : Bool) (node : NodeRecord) (email : Str) (payload : JsonObject)
      → Harmless (update_if P lower str_of default_flow true b node email payload)
  update_if_dry false node email payload = Preserves-result (ok tt)
  update_if_dry true node email payload =
      Preserves-bind (dry (P.update_client node email payload))
        λ u. counted (λ r. record r { updated = r.updated + 1 })

  attach_missing_dry :
      (node : NodeRecord) (email : Str) (ids : List ℕ)
      → Harmless (attach_missing P lower str_of default_flow true node email ids)
  attach_missing_dry node email [] = Preserves-result (ok tt)
  attach_missing_dry node email (i ∷ is) =
      Preserves-bind (dry (P.attach_client node email (i ∷ is)))
        λ u. counted (λ r. record r { attached = r.attached + length (i ∷ is) })

  create_or_update_dry :
      (node : NodeRecord) (r : ClientRecord) (ids : List ℕ) (by_id : Dict ℕ XuiInbound)
      (o : Option XuiClientInfo)
      → Harmless (create_or_update P lower str_of default_flow true node r ids by_id o)
  unfolding create_client update_existing
  create_or_update_dry node r ids by_id none =
      Preserves-bind
        (dry (
          P.add_client node
            (build_client_payload r.id (effective_sub_id r) r.comment (effective_telegram_id r)
              (compute_node_flow lower (found_inbounds by_id ids) default_flow))
            ids))
        λ u. counted (λ c. record c { created = c.created + 1 })
  create_or_update_dry node r ids by_id (some info) =
      Preserves-bind (Preserves-result (needs_update str_of info.client (wanted_of r))) λ b.
        Preserves-bind
          (update_if_dry b node (client_email r.id) (updated_payload (wanted_of r) info.client))
          λ u. attach_missing_dry node (client_email r.id) (missing_ids ids info.inbound_ids)

  unless_missing_dry :
      (is : List ℕ) (node : NodeRecord) (r : ClientRecord) (m : Action (State P) Str (Unit {0}))
      → Harmless m
      → Harmless (unless_missing P lower str_of default_flow true is node r m)
  unless_missing_dry [] node r m h = h
  unless_missing_dry (i ∷ is) node r m h = counted _

  reported :
      (f : Str → NodeError) (out : Result Str (Unit {0}) × State P)
      → (or_report P lower str_of default_flow true f out).0 ≡ out.1.0
  reported f (ok u, s) = refl
  reported f (err e, s) = refl

  -- A dry run writes nothing: for any clients, any panel and whatever was read from it, the state
  -- of the panels after the loop over the clients of a node is the state before it.
  pub reconcile_all-dry_run :
      (node : NodeRecord) (targets : List (ClientRecord × List ℕ)) (by_id : Dict ℕ XuiInbound)
      (existing : Dict Str XuiClientInfo) (s : State P)
      → s.0 ≡ w
      → (reconcile_all P lower str_of default_flow true node targets by_id existing s).0 ≡ w
  unfolding reconcile_all reconcile_client
  reconcile_all-dry_run node [] by_id existing s h = h
  reconcile_all-dry_run node ((r, ids) ∷ targets) by_id existing s h =
      let o = lookup (client_email r.id) existing in
      let one =
        unless_missing_dry (filter (λ i. not (contains (keys by_id) i)) ids) node r
          (create_or_update P lower str_of default_flow true node r ids by_id o)
          (create_or_update_dry node r ids by_id o) in
      reconcile_all-dry_run node targets by_id existing _
        (reported (client_failed node.id r.id) _ ∙ one.after s h)
