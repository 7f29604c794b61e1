-- ===== src/Tests/SettingsTests.antt =====
-- Examples of the settings.
use vpn_control_panel.Prelude.{◌≡◌, refl, ok, err}
use vpn_control_panel.Text.{codes, strip, strip_by, strip_slashes, lstrip, rstrip, is_space}
use vpn_control_panel.Text.Digits.{show_nat}
use vpn_control_panel.Settings.{
  empty_domain, strip_subscription_domain, validate_address, public_subscription_base_url,
  build_public_subscription_base_url, normalize_subscription_route,
}

-- A port that is not that of https stands in the url.
public_url :
    public_subscription_base_url (record {
      subscription_domain = codes "x.org";
      subscription_port = 8443;
      subscription_route = codes "/s/";
    })
    ≡ ok (codes "https://x.org:8443/s")
unfolding public_subscription_base_url build_public_subscription_base_url strip strip_by lstrip
    rstrip is_space show_nat
public_url = refl

-- A domain of a space alone is accepted behind a prefix.
blank_domain :
    validate_address (codes "https:// /") 443 (codes "s")
    ≡ ok (record {
      subscription_domain = codes " ";
      subscription_port = 443;
      subscription_route = codes "/s/";
    })
unfolding validate_address strip_subscription_domain normalize_subscription_route strip strip_by
    strip_slashes lstrip rstrip is_space
blank_domain = refl

-- The public url of that address raises.
blank_url :
    public_subscription_base_url (record {
      subscription_domain = codes " ";
      subscription_port = 443;
      subscription_route = codes "/s/";
    })
    ≡ err empty_domain
unfolding public_subscription_base_url build_public_subscription_base_url strip strip_by lstrip
    rstrip is_space
blank_url = refl
