-- ===== src/Subscription/Build/Total.antt =====
-- How building a subscription of a client of a valid state can end: no `KeyError`, whatever the
-- panels and the feeds do.
use vpn_control_panel.Prelude.{
  ℕ, List, ◌≡◌, err, ◌⊎◌, true, none, some, Result, ok, contains, nat_eq, list_eq,
}
use vpn_control_panel.Text.{Str}
use vpn_control_panel.Dict.{Dict, keys, lookup}
use vpn_control_panel.Regex.{Regex}
use vpn_control_panel.Data.Models.{NodeRecord, NodeInboundRecord}
use vpn_control_panel.Data.Catalog.{CatalogInbound, on_node, Catalog}
use vpn_control_panel.Subscription.Links.{is_hysteria2}
use vpn_control_panel.Subscription.Build.{Sources, BuildError, RequestedNodes, bad_link}

-- The node of a tag, if it has one, is among the requested ones.
abbrev Reached : Catalog → RequestedNodes → Str → Type 0
Reached catalog nodes tag =
    (n : NodeRecord) (i : NodeInboundRecord)
    → lookup tag catalog ≡ some (on_node n i)
    → contains (keys nodes) n.id ≡ true

abbrev Found : Catalog → Str → Type 0
Found catalog tag = (entry : CatalogInbound) × (lookup tag catalog ≡ some entry)

abbrev Grows : RequestedNodes → RequestedNodes → Type 0
Grows d e = (k : ℕ) → contains (keys d) k ≡ true → contains (keys e) k ≡ true

module _ (src : Sources) where
  -- A link of Hysteria2 that `urlsplit` refuses is the only reason to raise.
  abbrev Ends : {A : Type 0} → (A → Type 0) → Result BuildError A → Type 0
  Ends {A = A} P m =
      ((a : A) × (m ≡ ok a) × P a)
      ⊎ ((link : Str) × (m ≡ err (bad_link link))
          × (src.urls.urlsplit link ≡ none)
          × (is_hysteria2 src.urls link ≡ true))

  abbrev Any : List Str → Type 0
  Any links = Unit
