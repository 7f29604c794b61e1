-- ===== src/Provisioning/Attached.antt =====
-- After a successful run the client is on every inbound that it is entitled to.
use vpn_control_panel.Prelude.{
  ℕ, ◌+◌, List, [], ◌∷◌, ◌≡◌, refl, ap, ◌∙◌, true, false, not, ◌&&◌, Option, none, some, Result, ok,
  err, arith, contains, contains-filter, ◌==◌, nat_eq, list_eq, nat_beq_iff, Bool-cases, inl, inr,
}
use mathlib.Core.Path.{subst}
use vpn_control_panel.Text.{Str, codes}
use vpn_control_panel.Dict.{lookup}
use vpn_control_panel.Regex.{Regex}
use vpn_control_panel.Json.{text, get}
use vpn_control_panel.Action.{Action, Preserves, Preserves-bind, Preserves-result, lift, bind_done}
use vpn_control_panel.Xui.Panel.{Panel, IsLawful, XuiInbound, XuiClientInfo}
use vpn_control_panel.Data.Models.{NodeRecord, NodeInboundRecord, ControlPlaneState}
use vpn_control_panel.Data.Errors.{ValidationError}
use vpn_control_panel.Data.Store.{load_state}
use vpn_control_panel.Data.Catalog.{on_node, build_inbound_catalog}
use vpn_control_panel.Provisioning.Payload.{client_email, build_client_payload, compute_node_flow}
use vpn_control_panel.Provisioning.Targets.{
  wanted_ids, found_ids, found-eq-wanted, has_target, group_tags-Covers,
}
use vpn_control_panel.Provisioning.{
  ProvisionError, ProvisioningResult, Request, NodeGroups, on_panel, from_panel, from_store,
  missing_ids, attach_missing, complete_client, index_inbounds, find_targets, provision_node,
  provision_nodes, group_tags, candidate_tags, request_for, prepare, ensure_client_locked, persist,
}

payload_email :
    (id sub comment : Str) (n : Option ℕ) (flow : Str)
    → get (codes "email") (build_client_payload id sub comment n flow)
      ≡ some (text (client_email id))
unfolding build_client_payload
payload_email id sub comment none flow = refl
payload_email id sub comment (some n) flow = refl

is_missing :
    (ids attached : List ℕ) (i : ℕ)
    → contains ids i ≡ true
    → contains attached i ≡ false
    → contains (missing_ids ids attached) i ≡ true
unfolding missing_ids
is_missing ids attached i h k =
    ground (arith, contains-filter (λ j. not (contains attached j)) ids i)

from_panel_ok : {A : Type 0} (r : Result Str A) {a : A} → from_panel r ≡ ok a → r ≡ ok a
from_panel_ok (ok a) h = ground arith
from_panel_ok (err e) h = cc

module _ (P : Panel) (L : IsLawful P) (lower : Str → Str) (default_flow : Str) (q : Request) where
  abbrev email : Str
  email = client_email q.client_id

  abbrev On : P.World → ℕ → ℕ → Type 0
  On w node i = L.IsAttached w node email i

  -- no step takes a client off an inbound
  abbrev Keeps : {A : Type 0} → ℕ → ℕ → Action P.World ProvisionError A → Type 0
  Keeps node i m = Preserves (λ w. On w node i) m

  attach_missing-Keeps :
      (n : NodeRecord) (e : Str) (is : List ℕ) (node i : ℕ)
      → Keeps node i (attach_missing P lower default_flow n e is)
  attach_missing-Keeps n e [] node i = Preserves-result (ok tt)
  attach_missing-Keeps n e (j ∷ js) node i = record {
    after = λ w h. L.attach_client-keeps n e (j ∷ js) w node email i h;
  }

  complete_client-Keeps :
      (n : NodeRecord) (ts : List XuiInbound) (info : Option XuiClientInfo) (node i : ℕ)
      → Keeps node i (complete_client P lower default_flow q n ts info)
  unfolding complete_client
  complete_client-Keeps n ts none node i =
      let flow = compute_node_flow lower ts default_flow in
      let payload = build_client_payload q.client_id q.sub_id q.comment q.telegram_id flow in
      Preserves-bind
        (record { after = λ w h. L.add_client-keeps n payload (found_ids ts) w node email i h })
        (λ u. Preserves-result (ok _))
  complete_client-Keeps n ts (some info) node i =
      Preserves-bind
        (attach_missing-Keeps n email (missing_ids (found_ids ts) info.inbound_ids) node i)
        (λ u. Preserves-result (ok _))

  provision_node-Keeps :
      (n : NodeRecord) (is : List NodeInboundRecord) (node i : ℕ)
      → Keeps node i (provision_node P lower default_flow q n is)
  unfolding provision_node
  provision_node-Keeps n is node i =
      Preserves-bind (record { after = λ w h. L.list_inbounds-keeps n w node email i h })
        λ listed.
          Preserves-bind (Preserves-result (find_targets n (index_inbounds [] listed) is)) λ ts.
            Preserves-bind (record { after = λ w h. L.get_client-keeps n email w node email i h })
              λ info. complete_client-Keeps n ts info node i

  provision_nodes-Keeps :
      (groups : NodeGroups) (node i : ℕ)
      → Keeps node i (provision_nodes P lower default_flow q groups)
  unfolding provision_nodes
  provision_nodes-Keeps [] node i = Preserves-result (ok (0, 0))
  provision_nodes-Keeps ((id, (n, is)) ∷ groups) node i =
      Preserves-bind (provision_node-Keeps n is node i) λ c.
        Preserves-bind (provision_nodes-Keeps groups node i)
          λ d. Preserves-result (ok (c.0 + d.0, c.1 + d.1))

  attach_missing_attaches :
      (n : NodeRecord) (is : List ℕ) (w : P.World) (i : ℕ) {u : Unit {0}}
      → (attach_missing P lower default_flow n email is w).0 ≡ ok u
      → contains is i ≡ true
      → On (attach_missing P lower default_flow n email is w).1 n.id i
  attach_missing_attaches n [] w i e h = cc
  attach_missing_attaches n (j ∷ js) w i e h =
      L.attach_client-attaches n email (j ∷ js) w i (from_panel_ok _ e) h

  -- the last step of a round puts the client on every target
  complete_client_attaches :
      (n : NodeRecord) (ts : List XuiInbound) (info : Option XuiClientInfo) (w : P.World) (i : ℕ)
      {c : ℕ × ℕ}
      → ((x : XuiClientInfo) → info ≡ some x → contains x.inbound_ids i ≡ true → On w n.id i)
      → (complete_client P lower default_flow q n ts info w).0 ≡ ok c
      → contains (found_ids ts) i ≡ true
      → On (complete_client P lower default_flow q n ts info w).1 n.id i
  unfolding complete_client
  complete_client_attaches n ts none w i shown e h =
      let flow = compute_node_flow lower ts default_flow in
      let payload = build_client_payload q.client_id q.sub_id q.comment q.telegram_id flow in
      bind_done (on_panel (P.add_client n payload (found_ids ts))) _ w e λ u done e' r. rw r (
        L.add_client-attaches n payload (found_ids ts) w email i (from_panel_ok _ done)
          (payload_email q.client_id q.sub_id q.comment q.telegram_id flow) h)
  complete_client_attaches n ts (some info) w i shown e h =
      let missing = missing_ids (found_ids ts) info.inbound_ids in
      elim (Bool-cases (contains info.inbound_ids i)) [
        | inl there ↦
            (complete_client-Keeps n ts (some info) n.id i).after w (shown info refl there)
        | inr new ↦
            bind_done (attach_missing P lower default_flow n email missing) _ w e λ u done e' r.
              rw r (
                attach_missing_attaches n missing w i done
                  (is_missing (found_ids ts) info.inbound_ids i h new))
      ]

  provision_node_attaches :
      (n : NodeRecord) (is : List NodeInboundRecord) (w : P.World) (i : ℕ) {c : ℕ × ℕ}
      → (provision_node P lower default_flow q n is w).0 ≡ ok c
      → contains (wanted_ids is) i ≡ true
      → On (provision_node P lower default_flow q n is w).1 n.id i
  unfolding provision_node
  provision_node_attaches n is w i e h =
      bind_done (on_panel (P.list_inbounds n)) _ w e λ listed d1 e1 r1.
        bind_done (lift (find_targets n (index_inbounds [] listed) is)) _ (P.list_inbounds n w).1 e1
          λ ts d2 e2 r2.
            bind_done (on_panel (P.get_client n email)) _ (P.list_inbounds n w).1 e2
              λ info d3 e3 r3. rw r1 (
                rw r2 (
                  rw r3 (
                    complete_client_attaches n ts info
                      (P.get_client n email (P.list_inbounds n w).1).1 i
                      (λ x p c.
                        L.get_client-shows n email (P.list_inbounds n w).1 x i
                          (from_panel_ok _ d3 ∙ ap ok p) c)
                      e3 (rw (found-eq-wanted n listed is ts d2) h))))

  provision_nodes_attaches :
      (groups : NodeGroups) (w : P.World) (node i : ℕ) {c : ℕ × ℕ}
      → (provision_nodes P lower default_flow q groups w).0 ≡ ok c
      → has_target node i groups ≡ true
      → On (provision_nodes P lower default_flow q groups w).1 node i
  unfolding provision_nodes
  provision_nodes_attaches [] w node i e h = cc
  provision_nodes_attaches ((id, (n, is)) ∷ groups) w node i e h =
      let w1 = (provision_node P lower default_flow q n is w).1 in
      bind_done (provision_node P lower default_flow q n is) _ w e λ c1 d1 e1 r1.
        bind_done (provision_nodes P lower default_flow q groups) _ w1 e1 λ c2 d2 e2 r2. rw r1 (
          rw r2 (elim (Bool-cases (n.id == node && contains (wanted_ids is) i)) [
            | inl here ↦ (provision_nodes-Keeps groups node i).after w1 (
                subst (λ k. On w1 k i) ((nat_beq_iff n.id node).0 (ground arith))
                  (provision_node_attaches n is w i d1 (ground arith)))
            | inr later ↦ provision_nodes_attaches groups w1 node i d2 (ground arith)
          ]))

module _ (P : Panel) (L : IsLawful P) (lower : Str → Str) (default_flow : Str) (regex : Regex) where
  from_store_same :
      {A : Type 0} (a b : A) (r : Result ValidationError A) → r ≡ ok a → from_store r ≡ ok b → a ≡ b
  from_store_same a b (ok x) p q = ground arith
  from_store_same a b (err x) p q = cc

  prepare_attaches :
      (id comment : Str) (telegram_id : Option ℕ) (fresh : Str) (s : ControlPlaneState)
      (w : P.World) (tag : Str) (n : NodeRecord) (i : NodeInboundRecord) {cr : ℕ × ℕ}
      → (prepare P lower default_flow regex s id comment telegram_id fresh w).0 ≡ ok cr
      → contains (candidate_tags s id comment) tag ≡ true
      → lookup tag (build_inbound_catalog s) ≡ some (on_node n i)
      → L.IsAttached
          (prepare P lower default_flow regex s id comment telegram_id fresh w).1
          n.id
          (client_email id)
          i.xui_inbound_id
  unfolding prepare
  prepare_attaches id comment telegram_id fresh s w tag n i e c found =
      let catalog = build_inbound_catalog s in
      let q = request_for s id comment telegram_id fresh in
      bind_done (lift (group_tags catalog (candidate_tags s id comment) [])) _ w e λ groups d e1 r.
        rw r (
          provision_nodes_attaches P L lower default_flow q groups w n.id i.xui_inbound_id e1
            (group_tags-Covers catalog (candidate_tags s id comment) groups d tag n i c found))

  -- If a run of `_ensure_client_locked` succeeds, then for every tag that the client is
  -- provisioned on (regular and abroad) and that names an inbound of a node, the client is on
  -- that inbound of that node when the run ends, whether it was created there, attached, or there
  -- before; `s` is the state that the run loaded.
  pub ensure_client_attaches :
      (id comment : Str) (telegram_id : Option ℕ) (fresh : Str) (file s : ControlPlaneState)
      (w : P.World) (tag : Str) (n : NodeRecord) (i : NodeInboundRecord)
      {out : ProvisioningResult × ControlPlaneState}
      → (ensure_client_locked P lower default_flow regex id comment telegram_id fresh file w).0
        ≡ ok out
      → load_state regex file ≡ ok s
      → contains (candidate_tags s id comment) tag ≡ true
      → lookup tag (build_inbound_catalog s) ≡ some (on_node n i)
      → L.IsAttached
          (ensure_client_locked P lower default_flow regex id comment telegram_id fresh file w).1
          n.id
          (client_email id)
          i.xui_inbound_id
  unfolding ensure_client_locked
  ensure_client_attaches id comment telegram_id fresh file s w tag n i e loaded c found =
      bind_done (lift (from_store (load_state regex file))) _ w e λ s' d1 e1 r1.
        let same : s ≡ s' = from_store_same s s' (load_state regex file) loaded d1 in
        bind_done (prepare P lower default_flow regex s' id comment telegram_id fresh) _ w e1
          λ cr d2 e2 r2.
            let w' = (prepare P lower default_flow regex s' id comment telegram_id fresh w).1 in
            bind_done (lift (persist regex s' id comment fresh file)) _ w' e2 λ file' d3 e3 r3.
              rw r1 (
                rw r2 (
                  rw r3 (
                    prepare_attaches id comment telegram_id fresh s' w tag n i d2 (rw same at c)
                      (rw same at found))))
