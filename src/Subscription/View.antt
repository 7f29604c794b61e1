-- ===== src/Subscription/View.antt =====
-- How a link is shown: `_subscription_link_name`, `_subscription_link_protocol` and the escapes of
-- subscription/service.py. `unquote`, upper case and the fragment of a url are arguments.
pub mod Escapes
use vpn_control_panel.Prelude.{
  ℕ, ◌+◌, [], ◌∷◌, ◌++◌, Bool, true, false, not, ◌&&◌, ◌==◌, nat_eq, if◌then◌else◌,
}
use vpn_control_panel.Text.{Str, codes, strip, is_empty, starts_with}
use vpn_control_panel.Text.Digits.{show_nat}

-- `link.partition("://")`: the scheme and whether the mark is there
abbrev scheme_of : Str → Str × Bool
scheme_of [] = ([], false)
scheme_of (c ∷ s) =
    let (scheme, found) = scheme_of s in
    if starts_with (c ∷ s) (codes "://") then ([], true) else (c ∷ scheme, found)

abbrev or_numbered : Str → ℕ → Str
or_numbered [] index = codes "Key " ++ show_nat (index + 1)
or_numbered (c ∷ name) index = c ∷ name

module _ (fragment_of unquote upper : Str → Str) where
  -- `unquote` of a text does not raise.
  unfoldable pub subscription_link_name : Str → ℕ → Str
  unfolding strip
  subscription_link_name link index =
      let fragment = fragment_of link in
      or_numbered (if is_empty fragment then [] else strip (unquote fragment)) index

  unfoldable pub subscription_link_protocol : Str → Str
  subscription_link_protocol link =
      let (scheme, found) = scheme_of link in
      if found && not (is_empty scheme) then upper scheme else codes "LINK"

-- The three replacements put no character that a later one replaces, but for the "&" that comes
-- first, so they are one pass.
abbrev pub escaped : ℕ → Str → Str → Str → Str
escaped c amp less more =
    if c == b'&' then amp else if c == b'<' then less else if c == b'>' then more else c ∷ []

unfoldable pub html_escape : Str → Str
html_escape [] = []
html_escape (c ∷ s) = escaped c (codes "&amp;") (codes "&lt;") (codes "&gt;") ++ html_escape s

unfoldable pub json_script_escape : Str → Str
json_script_escape [] = []
json_script_escape (c ∷ s) =
    escaped c (codes "\\u0026") (codes "\\u003c") (codes "\\u003e") ++ json_script_escape s
