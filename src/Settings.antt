-- ===== src/Settings.antt =====
-- The texts of the settings, config.py: quotes, lists, routes and the public url. A value is the
-- text of its environment variable.
pub mod Routes
use vpn_control_panel.Prelude.{
  ℕ, List, [], ◌∷◌, ◌++◌, ◌||◌, ◌&&◌, Option, none, some, Result, ok, raise_if, ◌>>=◌, ◌>>◌,
  contains, map_result, ltb, ◌==◌, nat_eq, list_eq, if◌then◌else◌,
}
use vpn_control_panel.Text.{
  Str, codes, strip, strip_slashes, rstrip, split, is_empty, remove_prefix,
}
use vpn_control_panel.Text.Digits.{show_nat}

pub data SettingsError : Type 0 where
  empty_route empty_domain port_out_of_range : SettingsError

-- The text without its last character, and that character.
abbrev split_last : ℕ → Str → Str × ℕ
split_last c [] = ([], c)
split_last c (d ∷ s) = let (front, last) = split_last d s in (c ∷ front, last)

abbrev unquoted : Str → Str
unquoted [] = []
unquoted (c ∷ []) = c ∷ []
unquoted (c ∷ d ∷ s) =
    let (middle, last) = split_last d s in
    if c == last && (c == b'"' || c == b'\'') then strip middle else c ∷ d ∷ s

unfoldable pub strip_wrapping_quotes : Str → Str
unfolding strip
strip_wrapping_quotes value = unquoted (strip value)

abbrev add_item : Str → List Str → List Str
add_item [] items = items
add_item (c ∷ item) items = (c ∷ item) ∷ items

abbrev clean_items : List Str → List Str
clean_items [] = []
clean_items (item ∷ items) = add_item (strip_wrapping_quotes item) (clean_items items)

-- `_split_csv_list`, and `_split_csv`, which makes a set of the same items
unfoldable pub split_csv_list : Str → List Str
unfolding strip_wrapping_quotes split
split_csv_list value = clean_items (split b',' (strip_wrapping_quotes value))

-- `none` is the wildcard.
unfoldable pub split_csv_or_wildcard : Str → Option (List Str)
unfolding split_csv_list strip_wrapping_quotes
split_csv_or_wildcard value =
    if strip_wrapping_quotes value == codes "*" then none else some (split_csv_list value)

unfoldable pub normalize_subscription_route : Str → Result SettingsError Str
unfolding strip strip_slashes
normalize_subscription_route value = do
  raise_if (is_empty (strip_slashes (strip value))) empty_route
  ok (b'/' ∷ (strip_slashes (strip value) ++ (b'/' ∷ [])))

abbrev add_route : List Str → Str → List Str
add_route seen route = if contains seen route then [] else route ∷ []

abbrev unseen : List Str → List Str → List Str
unseen seen [] = []
unseen seen (route ∷ routes) = add_route seen route ++ unseen (route ∷ seen) routes

unfoldable pub normalize_subscription_routes : Str → Result SettingsError (List Str)
unfolding normalize_subscription_route split_csv_list
normalize_subscription_routes value = do
  routes ← map_result normalize_subscription_route (split_csv_list value)
  ok (unseen [] routes)

unfoldable pub build_public_subscription_base_url : Str → ℕ → Str → Result SettingsError Str
unfolding strip rstrip
build_public_subscription_base_url domain port route = do
  let slash = λ (c : ℕ). c == b'/'
  let host = rstrip slash (strip domain)
  raise_if (is_empty host) empty_domain
  let suffix = if port == 443 then [] else b':' ∷ show_nat port
  ok (codes "https://" ++ (host ++ (suffix ++ rstrip slash route)))

unfoldable pub strip_subscription_domain : Str → Result SettingsError Str
unfolding strip strip_slashes
strip_subscription_domain value = do
  let domain =
      strip_slashes
        (remove_prefix (remove_prefix (strip value) (codes "https://")) (codes "http://"))
  raise_if (is_empty domain) empty_domain
  ok domain

abbrev unless_empty : Str → Option Str
unless_empty [] = none
unless_empty (c ∷ s) = some (c ∷ s)

unfoldable pub normalize_backup_secrets_ssh_key : Option Str → Option Str
unfolding strip_wrapping_quotes
normalize_backup_secrets_ssh_key none = none
normalize_backup_secrets_ssh_key (some value) = unless_empty (strip_wrapping_quotes value)

-- What is given on to be read as a number.
unfoldable pub parse_optional_chat_id : Str → Option Str
unfolding strip
parse_optional_chat_id value = if is_empty (strip value) then none else some value

unfoldable pub strip_default_vless_flow : Str → Str
unfolding strip
strip_default_vless_flow value = strip value

-- The fields of the settings that the public url is made of, validated.
pub record SubscriptionAddress : Type 0 where
  pub subscription_domain : Str
  pub subscription_port : ℕ
  pub subscription_route : Str

-- The first error in the order of the fields.
unfoldable pub validate_address : Str → ℕ → Str → Result SettingsError SubscriptionAddress
unfolding strip_subscription_domain normalize_subscription_route
validate_address domain port route = do
  r ← normalize_subscription_route route
  d ← strip_subscription_domain domain
  raise_if (ltb port 1 || ltb 65535 port) port_out_of_range
  ok (record { subscription_domain = d; subscription_port = port; subscription_route = r })

unfoldable pub public_subscription_base_url : SubscriptionAddress → Result SettingsError Str
unfolding build_public_subscription_base_url
public_subscription_base_url a =
    build_public_subscription_base_url a.subscription_domain a.subscription_port
      a.subscription_route
