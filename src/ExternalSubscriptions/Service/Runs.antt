-- ===== src/ExternalSubscriptions/Service/Runs.antt =====
-- A run of external_subscriptions/service.py over the file of resolved inbounds: `refresh_due` and
-- `refresh_all`, with the subscriptions as data.json has them.
use vpn_control_panel.Prelude.{
  ℕ, List, [], ◌∷◌, Option, none, some, Result, ok, err, filter, list_eq,
}
use vpn_control_panel.Data.Models.{ExternalSubscriptionRecord}
use vpn_control_panel.Data.File.{Disk, Os}
use vpn_control_panel.ExternalSubscriptions.Cache.{ResolvedInbounds}
use vpn_control_panel.ExternalSubscriptions.CacheFile.{
  CacheFormat, CacheError, Saved, load_resolved, save_resolved,
}
use vpn_control_panel.ExternalSubscriptions.Service.{Environment, is_due, refresh}

module _ (env : Environment) (format : CacheFormat) (os : Os) where
  -- The end of `_refresh`.
  abbrev pub save_changed : Disk → Option ResolvedInbounds → Saved
  save_changed disk none = (ok tt, disk)
  save_changed disk (some updated) = save_resolved format os updated disk

  abbrev pub refresh_loaded :
      List ExternalSubscriptionRecord → ℕ → Disk → Result CacheError ResolvedInbounds → Saved
  refresh_loaded subscriptions now disk (err e) = (err e, disk)
  refresh_loaded subscriptions now disk (ok resolved) = save_changed disk (
      refresh env subscriptions (filter (λ s. is_due env s resolved now) subscriptions) resolved
        now)

  unfoldable pub refresh_due : List ExternalSubscriptionRecord → ℕ → Disk → Saved
  unfolding load_resolved refresh is_due save_resolved
  refresh_due [] now disk = (ok tt, disk)
  refresh_due (s ∷ ss) now disk = refresh_loaded (s ∷ ss) now disk (load_resolved format disk)

  abbrev pub load_again : Saved → Result CacheError ResolvedInbounds × Disk
  load_again (err e, disk) = (err e, disk)
  load_again (ok u, disk) = (load_resolved format disk, disk)

  abbrev pub refresh_all_loaded :
      List ExternalSubscriptionRecord
      → ℕ
      → Disk
      → Result CacheError ResolvedInbounds
      → Result CacheError ResolvedInbounds × Disk
  refresh_all_loaded subscriptions now disk (err e) = (err e, disk)
  refresh_all_loaded [] now disk (ok resolved) = (ok resolved, disk)
  refresh_all_loaded (s ∷ ss) now disk (ok resolved) =
      load_again (save_changed disk (refresh env (s ∷ ss) (s ∷ ss) resolved now))

  unfoldable pub refresh_all :
      List ExternalSubscriptionRecord → ℕ → Disk → Result CacheError ResolvedInbounds × Disk
  unfolding load_resolved refresh save_resolved
  refresh_all subscriptions now disk =
      refresh_all_loaded subscriptions now disk (load_resolved format disk)
