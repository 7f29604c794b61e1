-- ===== src/Provisioning/Targets.antt =====
-- What the loops over tags and inbounds collect: every wanted inbound, under its node's number.
use vpn_control_panel.Prelude.{
  ℕ, List, [], ◌∷◌, ◌++◌, ◌≡◌, refl, Bool, true, false, ◌&&◌, ◌||◌, Option, none, some, Result, ok,
  err, arith, map, contains, ◌==◌, nat_eq, list_eq, nat_beq_iff, list_beq_iff, Bool-cases, inl, inr,
}
use vpn_control_panel.Text.{Str}
use vpn_control_panel.Dict.{Dict, lookup, insert, lookup-insert}
use vpn_control_panel.Xui.Panel.{XuiInbound}
use vpn_control_panel.Data.Models.{NodeRecord, NodeInboundRecord}
use vpn_control_panel.Data.Catalog.{CatalogInbound, on_node, external, Catalog}
use vpn_control_panel.Provisioning.{
  ProvisionError, NodeGroups, add_to_group, group_entry, group_tags, then_group, index_inbounds,
  consider, find_targets,
}

abbrev pub wanted_ids : List NodeInboundRecord → List ℕ
wanted_ids = map (λ i. i.xui_inbound_id)

abbrev pub found_ids : List XuiInbound → List ℕ
found_ids = map (λ i. i.id)

-- the index has each inbound under its own number
abbrev IsIndex : Dict ℕ XuiInbound → Type 0
IsIndex d = (k : ℕ) (i : XuiInbound) → lookup k d ≡ some i → i.id ≡ k

index_inbounds-IsIndex :
    (d : Dict ℕ XuiInbound) (is : List XuiInbound) → IsIndex d → IsIndex (index_inbounds d is)
unfolding index_inbounds
index_inbounds-IsIndex d [] h = h
index_inbounds-IsIndex d (i ∷ is) h =
    index_inbounds-IsIndex (insert i.id i d) is
      (λ k j e. ground (arith, lookup-insert i.id k i d, nat_beq_iff i.id k, h k j))

consider_ids :
    (node : NodeRecord) (i : NodeInboundRecord) (is : List NodeInboundRecord)
    (o : Option XuiInbound) (r : Result ProvisionError (List XuiInbound)) (ts : List XuiInbound)
    → ((f : XuiInbound) → o ≡ some f → f.id ≡ i.xui_inbound_id)
    → ((rest : List XuiInbound) → r ≡ ok rest → found_ids rest ≡ wanted_ids is)
    → consider node i o r ≡ ok ts
    → found_ids ts ≡ wanted_ids (i ∷ is)
consider_ids node i is none r ts h k e = cc
consider_ids node i is (some f) (err x) ts h k e = cc
consider_ids node i is (some f) (ok rest) ts h k e = ground (arith, h f refl, k rest refl)

find_targets_ids :
    (node : NodeRecord) (d : Dict ℕ XuiInbound) (is : List NodeInboundRecord) (ts : List XuiInbound)
    → IsIndex d
    → find_targets node d is ≡ ok ts
    → found_ids ts ≡ wanted_ids is
unfolding find_targets
find_targets_ids node d [] ts h e = ground arith
find_targets_ids node d (i ∷ is) ts h e =
    consider_ids node i is (lookup i.xui_inbound_id d) (find_targets node d is) ts
      (λ f p. h i.xui_inbound_id f p) (λ rest q. find_targets_ids node d is rest h q) e

-- What the search for the targets returns has exactly the wanted numbers, in order.
pub found-eq-wanted :
    (node : NodeRecord) (listed : List XuiInbound) (is : List NodeInboundRecord)
    (ts : List XuiInbound)
    → find_targets node (index_inbounds [] listed) is ≡ ok ts
    → found_ids ts ≡ wanted_ids is
found-eq-wanted node listed is ts e =
    find_targets_ids node (index_inbounds [] listed) is ts
      (index_inbounds-IsIndex [] listed (λ k i p. cc)) e

-- A group for the node holds the inbound.
abbrev pub has_target : ℕ → ℕ → NodeGroups → Bool
has_target node inbound [] = false
has_target node inbound ((id, (n, is)) ∷ groups) =
    (n.id == node && contains (wanted_ids is) inbound) || has_target node inbound groups

abbrev KeysMatch : NodeGroups → Type 0
KeysMatch [] = Unit
KeysMatch ((id, (n, is)) ∷ groups) = (n.id ≡ id) × KeysMatch groups

contains-wanted-concat :
    (is : List NodeInboundRecord) (i : NodeInboundRecord) (x : ℕ)
    → contains (wanted_ids (is ++ (i ∷ []))) x
      ≡ (contains (wanted_ids is) x || i.xui_inbound_id == x)
contains-wanted-concat [] i x = ground arith
contains-wanted-concat (j ∷ is) i x = ground (arith, contains-wanted-concat is i x)

add_KeysMatch :
    (n : NodeRecord) (i : NodeInboundRecord) (groups : NodeGroups)
    → KeysMatch groups
    → KeysMatch (insert n.id (add_to_group n i (lookup n.id groups)) groups)
add_KeysMatch n i [] h = (refl, tt)
add_KeysMatch n i ((id, (m, is)) ∷ groups) h = ground (arith, add_KeysMatch n i groups h.1)

add_has_target :
    (n : NodeRecord) (i : NodeInboundRecord) (groups : NodeGroups) (node x : ℕ)
    → KeysMatch groups
    → has_target node x (insert n.id (add_to_group n i (lookup n.id groups)) groups)
      ≡ (has_target node x groups || (n.id == node && i.xui_inbound_id == x))
add_has_target n i [] node x h = ground arith
add_has_target n i ((id, (m, is)) ∷ groups) node x h = ground (
  arith,
  contains-wanted-concat is i x,
  nat_beq_iff id n.id,
  add_has_target n i groups node x h.1,
)

abbrev Keeps : NodeGroups → NodeGroups → Type 0
Keeps groups out = (node x : ℕ) → has_target node x groups ≡ true → has_target node x out ≡ true

abbrev pub Covers : Catalog → List Str → NodeGroups → Type 0
Covers catalog tags out =
    (tag : Str) (n : NodeRecord) (i : NodeInboundRecord)
    → contains tags tag ≡ true
    → lookup tag catalog ≡ some (on_node n i)
    → has_target n.id i.xui_inbound_id out ≡ true

module _ (catalog : Catalog) (t : Str) (ts : List Str) (out : NodeGroups)
    (ih : (gs : NodeGroups)
      → KeysMatch gs
      → group_tags catalog ts gs ≡ ok out
      → Keeps gs out × Covers catalog ts out) where
  cover_step :
      (o : Option CatalogInbound) (groups : NodeGroups)
      → KeysMatch groups
      → lookup t catalog ≡ o
      → then_group (group_tags catalog ts) (group_entry t o groups) ≡ ok out
      → Keeps groups out × Covers catalog (t ∷ ts) out
  cover_step none groups h p e = cc
  cover_step (some (external x)) groups h p e =
      let (keeps, covers) = ih groups h e in
      (keeps, λ tag n i c q. ground (arith, covers tag n i, list_beq_iff t tag))
  cover_step (some (on_node m j)) groups h p e =
      let (keeps, covers) =
        ih (insert m.id (add_to_group m j (lookup m.id groups)) groups) (add_KeysMatch m j groups h)
          e in
      (
        (λ node x c. keeps node x (rw (add_has_target m j groups node x h) (ground arith))),
        (λ tag n i c q. elim (Bool-cases (t == tag)) [
          | inl here ↦ keeps n.id i.xui_inbound_id (
              rw (add_has_target m j groups n.id i.xui_inbound_id h) (
                ground (
                  arith,
                  list_beq_iff t tag,
                  nat_beq_iff m.id n.id,
                  nat_beq_iff j.xui_inbound_id i.xui_inbound_id,
                )))
          | inr other ↦ covers tag n i (ground arith) q
        ]),
      )

group_tags_cover :
    (catalog : Catalog) (tags : List Str) (groups out : NodeGroups)
    → KeysMatch groups
    → group_tags catalog tags groups ≡ ok out
    → Keeps groups out × Covers catalog tags out
unfolding group_tags
group_tags_cover catalog [] groups out h e = ((λ node x p. ground arith), (λ tag n i p q. cc))
group_tags_cover catalog (t ∷ ts) groups out h e =
    cover_step catalog t ts out (λ gs k f. group_tags_cover catalog ts gs out k f)
      (lookup t catalog) groups h refl e

-- From no groups, every tag of a node inbound ends in the group of its node.
pub group_tags-Covers :
    (catalog : Catalog) (tags : List Str) (out : NodeGroups)
    → group_tags catalog tags [] ≡ ok out
    → Covers catalog tags out
group_tags-Covers catalog tags out e = (group_tags_cover catalog tags [] out tt e).1
