-- ===== src/Tests/HttpTests.antt =====
-- Examples on the routes and the loop of the jobs.
use vpn_control_panel.Prelude.{
  ℕ, suc, [], ◌∷◌, ◌++◌, ◌≡◌, ◌↔◌, true, false, none, some, ok, contains, Distinct, ◌==◌, nat_eq,
  list_eq,
}
use vpn_control_panel.Text.{Str, codes, is_ascii}
use vpn_control_panel.Http.Routes.{RouteSettings, authorize_backup, subscription_routes}
use vpn_control_panel.Http.Routes.Backup.{authorize_backup_iff}
use vpn_control_panel.Http.Routes.Order.{LongestFirst, subscription_routes-LongestFirst}
use vpn_control_panel.Crons.Loop.{
  Outcome, raised, run_iterations_forever, interval_delays, beside, events, outcomes, replicate,
  interval_delays-rounds,
}

abbrev lower : Str → Str
lower s = s

authorize_backup_iff_example :
    (authorize_backup lower (some (codes "t")) (some (codes "bearer t")) ≡ ok tt) ↔ (
      (scheme : Str) × (codes "bearer t" ≡ scheme ++ (b' ' ∷ codes "t"))
      × (contains scheme b' ' ≡ false)
      × ((lower scheme == codes "bearer") ≡ true)
      × (is_ascii (codes "t") ≡ true))
authorize_backup_iff_example = authorize_backup_iff lower (codes "t") (some (codes "bearer t"))

abbrev settings : RouteSettings
settings = record {
  subscription_route = codes "/s/";
  subscription_legacy_routes = codes "/s/old/" ∷ codes "/s/" ∷ [];
  subscription_token_salt = none;
  backup_http_token = none;
}

subscription_routes-LongestFirst_example :
    (contains (subscription_routes settings) (codes "/s/old/")
      ≡ contains (codes "/s/" ∷ codes "/s/old/" ∷ codes "/s/" ∷ []) (codes "/s/old/"))
    × Distinct (subscription_routes settings)
    × LongestFirst (subscription_routes settings)
subscription_routes-LongestFirst_example =
    subscription_routes-LongestFirst settings (codes "/s/old/")

-- Every run fails.
abbrev failing : ℕ → Outcome × ℕ
failing v = (raised (codes "e"), suc v)

interval_delays-rounds_example :
    (run_iterations_forever {E = Str} (interval_delays 60) (beside failing) 3 (true, 0)).0
    ≡ (events (0 ∷ replicate 2 60) (outcomes failing 3 0), none)
interval_delays-rounds_example = interval_delays-rounds {E = Str} 60 failing 2 0
