-- ===== src/ExternalSubscriptions/Slug.antt =====
-- external_subscriptions/slug.py. Which characters are letters and digits, and lower case, are
-- Unicode's and arguments here.
pub mod Unique
use vpn_control_panel.Prelude.{
  ℕ, zero, ◌+◌, List, [], ◌∷◌, ◌++◌, Bool, true, false, not, ◌&&◌, ◌||◌, Option, none, some, suc,
  contains, length, ltb, ◌==◌, nat_eq, list_eq, if◌then◌else◌,
}
use vpn_control_panel.Text.{Str, codes, strip, strip_by, or_text, is_empty}
use vpn_control_panel.Text.Digits.{show_nat}
use vpn_control_panel.ExternalSubscriptions.Parser.{ParsedSubscriptionEntry}

-- The order of texts, by code points.
unfoldable pub text_le : Str → Str → Bool
text_le [] t = true
text_le (c ∷ s) [] = false
text_le (c ∷ s) (d ∷ t) = let rest = text_le s t in ltb c d || (c == d && rest)

-- The order of the pairs (uri, label).
unfoldable pub entry_le : ParsedSubscriptionEntry → ParsedSubscriptionEntry → Bool
unfolding text_le
entry_le a b = if a.uri == b.uri then text_le a.label b.label else text_le a.uri b.uri

unfoldable pub insert_sorted :
    ParsedSubscriptionEntry → List ParsedSubscriptionEntry → List ParsedSubscriptionEntry
insert_sorted a [] = a ∷ []
insert_sorted a (b ∷ bs) =
    let rest = insert_sorted a bs in if entry_le a b then a ∷ b ∷ bs else b ∷ rest

-- `sorted(entries, key=...)`
unfoldable pub sorted : List ParsedSubscriptionEntry → List ParsedSubscriptionEntry
unfolding insert_sorted
sorted [] = []
sorted (a ∷ rest) = insert_sorted a (sorted rest)

-- The slug with this suffix, which is not written for the first.
abbrev pub suffixed : Str → ℕ → Str
suffixed base n = if n == 1 then base else base ++ (b'-' ∷ show_nat n)

-- The `while` loop, from a suffix on: the first slug that is not used.
unfoldable pub free_slug : ℕ → List Str → Str → ℕ → Option Str
free_slug zero used base n = none
free_slug (suc fuel) used base n =
    let rest = free_slug fuel used base (n + 1) in
    if contains used (suffixed base n) then rest else some (suffixed base n)

abbrev pub or_nothing : Option Str → Str
or_nothing none = []
or_nothing (some s) = s

module _ (is_word : ℕ → Bool) (lower : Str → Str) where
  abbrev dash_before : Bool → Str → Str
  dash_before true s = b'-' ∷ s
  dash_before false s = s

  -- `_SLUG_SEPARATORS.sub("-", ...)`: a run of separators becomes one dash. `is_word` is a letter
  -- or a digit; `skipping` is true inside a run.
  unfoldable pub separate : Bool → Str → Str
  separate skipping [] = []
  separate skipping (c ∷ s) =
      let word = separate false s in
      let gap = separate true s in
      if is_word c && not (c == b'_') then c ∷ word else dash_before (not skipping) gap

  unfoldable pub slugify : Str → Str
  unfolding separate strip_by strip
  slugify fragment = strip_by (λ c. c == b'-') (separate false (lower (strip fragment)))

  abbrev pub base_slug : ParsedSubscriptionEntry → Str
  base_slug entry = or_text (slugify entry.label) (codes "untitled")

  -- The loop over the ordered entries. The fuel is one more than there are slugs in use.
  unfoldable pub assign_from :
      List Str → List ParsedSubscriptionEntry → List (Str × ParsedSubscriptionEntry)
  unfolding free_slug slugify
  assign_from used [] = []
  assign_from used (entry ∷ entries) =
      let slug = or_nothing (free_slug (suc (length used)) used (base_slug entry) 1) in
      (slug, entry) ∷ assign_from (slug ∷ used) entries

  unfoldable pub assign_slugs : List ParsedSubscriptionEntry → List (Str × ParsedSubscriptionEntry)
  unfolding sorted assign_from
  assign_slugs entries = assign_from [] (sorted entries)
