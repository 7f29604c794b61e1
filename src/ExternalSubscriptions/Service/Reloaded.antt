-- ===== src/ExternalSubscriptions/Service/Reloaded.antt =====
-- What the file holds after a run of external_subscriptions/service.py.
use vpn_control_panel.Prelude.{◌≡◌, refl, ℕ, List, [], ◌∷◌, true, Option, none, some, ok, err}
use vpn_control_panel.Data.Models.{ExternalSubscriptionRecord}
use vpn_control_panel.Data.File.{Disk, Os}
use vpn_control_panel.ExternalSubscriptions.Cache.{ResolvedInbounds}
use vpn_control_panel.ExternalSubscriptions.CacheFile.{
  CacheFormat, Saved, records, load_resolved, save_resolved, load-save_resolved,
}
use vpn_control_panel.ExternalSubscriptions.Service.{Environment, refresh}
use vpn_control_panel.ExternalSubscriptions.Service.Runs.{save_changed, load_again, refresh_all}

-- The records before, where a run has nothing to write.
abbrev pub or_before : ResolvedInbounds → Option ResolvedInbounds → ResolvedInbounds
or_before resolved none = resolved
or_before resolved (some updated) = updated

module _ (env : Environment) (format : CacheFormat) (os : Os)
    (readable : format.can_read ≡ true) where
  load_saved :
      (disk : Disk) (resolved : ResolvedInbounds) (changed : Option ResolvedInbounds)
      → load_resolved format disk ≡ ok resolved
      → ((updated : ResolvedInbounds)
          → changed ≡ some updated
          → format.content (format.print updated) ≡ records updated)
      → (save_changed env format os disk changed).0 ≡ ok tt
      → load_resolved format (save_changed env format os disk changed).1
        ≡ ok (or_before resolved changed)
  load_saved disk resolved none loaded faithful h = loaded
  load_saved disk resolved (some updated) loaded faithful h =
      load-save_resolved format os updated disk readable (faithful updated refl) h

  save_changed_ok :
      (disk : Disk) (changed : Option ResolvedInbounds)
      → ((updated : ResolvedInbounds)
          → changed ≡ some updated
          → (save_resolved format os updated disk).0 ≡ ok tt)
      → (save_changed env format os disk changed).0 ≡ ok tt
  save_changed_ok disk none saves = refl
  save_changed_ok disk (some updated) saves = saves updated refl

  again_ok :
      (saved : Saved) (r : ResolvedInbounds)
      → saved.0 ≡ ok tt
      → load_resolved format saved.1 ≡ ok r
      → ((load_again env format os saved).0 ≡ ok r)
        × (load_resolved format (load_again env format os saved).1 ≡ ok r)
  again_ok (ok u, disk) r returned after = (after, after)
  again_ok (err e, disk) r returned after = cc

  -- The result of the second load.
  load_again_saved :
      (disk : Disk) (resolved : ResolvedInbounds) (changed : Option ResolvedInbounds)
      → load_resolved format disk ≡ ok resolved
      → ((updated : ResolvedInbounds)
          → changed ≡ some updated
          → (format.content (format.print updated) ≡ records updated)
            × ((save_resolved format os updated disk).0 ≡ ok tt))
      → ((load_again env format os (save_changed env format os disk changed)).0
          ≡ ok (or_before resolved changed))
        × (load_resolved format
              (load_again env format os (save_changed env format os disk changed)).1
            ≡ ok (or_before resolved changed))
  load_again_saved disk resolved changed loaded saves =
      let returned : (save_changed env format os disk changed).0 ≡ ok tt =
        save_changed_ok disk changed (λ u e. (saves u e).1) in
      let after = load_saved disk resolved changed loaded (λ u e. (saves u e).0) returned in
      again_ok (save_changed env format os disk changed) (or_before resolved changed) returned after

  -- A manual run on a file that loads, where the save of what was fetched returns and its text
  -- stands for it, gives the records that the refresh makes of the loaded ones, or the loaded ones
  -- if nothing was fetched, and the file loads to the same records afterwards.
  pub refresh_all-load :
      (subscriptions : List ExternalSubscriptionRecord) (now : ℕ) (disk : Disk)
      (resolved : ResolvedInbounds)
      → load_resolved format disk ≡ ok resolved
      → ((updated : ResolvedInbounds)
          → refresh env subscriptions subscriptions resolved now ≡ some updated
          → (format.content (format.print updated) ≡ records updated)
            × ((save_resolved format os updated disk).0 ≡ ok tt))
      → ((refresh_all env format os subscriptions now disk).0
          ≡ ok (or_before resolved (refresh env subscriptions subscriptions resolved now)))
        × (load_resolved format (refresh_all env format os subscriptions now disk).1
            ≡ ok (or_before resolved (refresh env subscriptions subscriptions resolved now)))
  unfolding refresh_all refresh
  refresh_all-load [] now disk resolved loaded saves = rw loaded (refl, loaded)
  refresh_all-load (s ∷ ss) now disk resolved loaded saves =
      rw loaded
        (load_again_saved disk resolved (refresh env (s ∷ ss) (s ∷ ss) resolved now) loaded saves)
