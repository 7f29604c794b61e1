-- ===== src/Settings/Routes.antt =====
-- Routes of config.py.
use vpn_control_panel.Prelude.{[], ◌∷◌, ◌++◌, ◌≡◌, refl, ok, raise_if_ok, ◌==◌, nat_eq}
use vpn_control_panel.Text.{
  Str, strip, strip_slashes, strip_of_slashes, strip_by_between, ends_with-append, is_empty,
}
use vpn_control_panel.Settings.{empty_route, normalize_subscription_route}

-- A normal route stays as it is when it is normalised again.
normalize_subscription_route_idem :
    (value route : Str)
    → normalize_subscription_route value ≡ ok route
    → normalize_subscription_route route ≡ ok route
unfolding normalize_subscription_route
normalize_subscription_route_idem value route h =
    raise_if_ok (is_empty (strip_slashes (strip value))) empty_route _ h λ full k.
      let t = strip_slashes (strip value) in
      let same : b'/' ∷ (t ++ (b'/' ∷ [])) ≡ route = cc in
      let trimmed : strip (b'/' ∷ (t ++ (b'/' ∷ []))) ≡ b'/' ∷ (t ++ (b'/' ∷ [])) =
        strip_of_slashes (b'/' ∷ (t ++ (b'/' ∷ []))) refl (ends_with-append (b'/' ∷ t) b'/') in
      let inner : strip_slashes (b'/' ∷ (t ++ (b'/' ∷ []))) ≡ t =
        unfold strip_slashes in strip_by_between (λ c. c == b'/') b'/' refl (strip value) full in
      rw (← same, trimmed, inner, full) refl
