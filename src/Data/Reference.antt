-- ===== src/Data/Reference.antt =====
-- References into external subscriptions, "@name:slug" and "@name:~regex":
-- parse_external_subscription_ref of data/models.py.
use vpn_control_panel.Prelude.{
  [], ◌∷◌, Bool, true, false, ◌||◌, not, Option, none, some, Result, ok, err, if◌then◌else◌, ◌==◌,
  nat_eq,
}
use vpn_control_panel.Text.{Str, partition, is_empty}
use vpn_control_panel.Data.Errors.{ValidationError, invalid_reference, empty_pattern}

pub record ExternalSubscriptionRef : Type 0 where
  pub name : Str
  pub query : Str
  pub is_regex : Bool

-- `rest`, which is not empty, after the name: a pattern if it begins with "~".
abbrev parse_query : Str → Str → Str → Result ValidationError (Option ExternalSubscriptionRef)
parse_query uri name [] = err (invalid_reference uri)
parse_query uri name (c ∷ query) =
    if c == b'~'
    then (if is_empty query
        then err (empty_pattern uri)
        else ok (some (record { name = name; query = query; is_regex = true })))
    else ok (some (record { name = name; query = c ∷ query; is_regex = false }))

-- `none` for a literal uri, which does not begin with "@".
unfoldable pub parse_external_subscription_ref :
    Str → Result ValidationError (Option ExternalSubscriptionRef)
parse_external_subscription_ref [] = ok none
parse_external_subscription_ref (c ∷ body) =
    let (name, separator, rest) = partition b':' body in
    if c == b'@'
    then (if not separator || is_empty name || is_empty rest
        then err (invalid_reference (c ∷ body))
        else parse_query (c ∷ body) name rest)
    else ok none
