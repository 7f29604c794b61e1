-- ===== src/Provisioning/Manual.antt =====
-- Clients that an administrator issues: `generate_manual_client_id` and `issue_manual_client` of
-- provisioning.py. The random tokens are an argument, in the order in which they are drawn; where
-- they run out the program would still be drawing.
use vpn_control_panel.Prelude.{
  List, [], ◌∷◌, ◌≡◌, refl, true, false, Option, none, some, arith, contains, map, nat_eq, list_eq,
  Bool-cases, inl, inr, if◌then◌else◌, list_beq_iff,
}
use vpn_control_panel.Text.{Str, codes}
use vpn_control_panel.Regex.{Regex}
use vpn_control_panel.Action.{Action, raise, lift, ◌>>=◌}
use vpn_control_panel.Xui.Panel.{Panel}
use vpn_control_panel.Data.Models.{ControlPlaneState}
use vpn_control_panel.Data.Store.{load_state}
use vpn_control_panel.Provisioning.{
  ProvisionError, panel, ProvisioningResult, from_store, ensure_client,
}

unfoldable pub generate_manual_client_id : List Str → List Str → Option Str
generate_manual_client_id existing [] = none
generate_manual_client_id existing (candidate ∷ rest) =
    let next = generate_manual_client_id existing rest in
    if contains existing candidate then next else some candidate

-- What is generated is a drawn token that no client has, and there is one as soon as a token is
-- drawn that no client has.
pub generate_manual_client_id-fresh :
    (existing tokens : List Str) (free : Str)
    → contains tokens free ≡ true
    → contains existing free ≡ false
    → (id : Str) × (generate_manual_client_id existing tokens ≡ some id)
      × (contains existing id ≡ false)
      × (contains tokens id ≡ true)
unfolding generate_manual_client_id
generate_manual_client_id-fresh existing [] free h k = cc
generate_manual_client_id-fresh existing (t ∷ ts) free h k =
    elim (Bool-cases (contains existing t)) [
      | inl taken ↦
          let later : contains ts free ≡ true = ground (arith, list_beq_iff t free) in
          let (id, e, unused, drawn) = generate_manual_client_id-fresh existing ts free later k in
          (id, rw taken e, unused, ground arith)
      | inr free' ↦ (t, rw free' refl, free', ground (arith, list_beq_iff t t))
    ]

module _ (P : Panel) (lower : Str → Str) (default_flow : Str) (regex : Regex) where
  abbrev ensure_generated :
      Option Str
      → Str
      → Str
      → ControlPlaneState
      → Action P.World ProvisionError (ProvisioningResult × ControlPlaneState)
  ensure_generated none comment fresh file = raise (panel (codes "no token"))
  ensure_generated (some id) comment fresh file =
      ensure_client P lower default_flow regex id comment none fresh file

  pub issue_manual_client :
      List Str
      → Str
      → Str
      → ControlPlaneState
      → Action P.World ProvisionError (ProvisioningResult × ControlPlaneState)
  issue_manual_client tokens comment fresh file = do
    s ← lift (from_store (load_state regex file))
    ensure_generated (generate_manual_client_id (map (λ c. c.id) s.clients) tokens) comment fresh
        file
