-- ===== src/Telegram/Access.antt =====
-- Who may do what, and the arguments of commands: the pure functions of telegram/bot.py.
use vpn_control_panel.Prelude.{
  ℕ, zero, suc, ◌-◌, ◌%◌, List, [], ◌∷◌, ◌++◌, Bool, true, false, not, ◌&&◌, Option, none, some,
  Result, ok, err, contains, length, ◌==◌, nat_eq, list_eq, option_eq, if◌then◌else◌,
}
use vpn_control_panel.Text.{
  Str, codes, is_ascii, strip, lstrip, is_space, is_empty, starts_with, remove_prefix,
}
use vpn_control_panel.Text.Digits.{show_nat}
use vpn_control_panel.Json.{ℤ}

-- A user's number is positive, a chat's may be negative.
pub record User : Type 0 where
  pub id : ℕ
  pub first_name : Str
  pub username : Option Str

pub record Message : Type 0 where
  pub from_user : Option User
  pub chat_type : Option Str
  pub text : Option Str

-- The settings that the bot reads; sets are lists.
pub record BotSettings : Type 0 where
  pub admin_telegram_ids : List Str
  pub telegram_allowed_user_ids : Option (List Str)
  pub telegram_allowed_chat_id : Option ℤ

unfoldable pub is_admin : BotSettings → ℕ → Bool
is_admin settings user = contains settings.admin_telegram_ids (show_nat user)

abbrev pub listed : Option (List Str) → Str → Bool
listed none user = true
listed (some ids) user = contains ids user

unfoldable pub is_allowed_user : BotSettings → ℕ → Bool
is_allowed_user settings user = listed settings.telegram_allowed_user_ids (show_nat user)

unfoldable pub is_private_chat : Message → Bool
is_private_chat m = m.chat_type == some (codes "private")

abbrev is_plain : Option Str → Bool
is_plain none = false
is_plain (some t) = not (is_empty t) && not (starts_with t (codes "/"))

unfoldable pub is_plain_text_message : Message → Bool
is_plain_text_message m = is_plain m.text

-- What follows the first word: `split(maxsplit=1)` drops the white space before it and after it.
unfoldable pub after_word : Str → Str
after_word [] = []
after_word (c ∷ s) = let rest = after_word s in if is_space c then s else rest

abbrev argument_of : Option Str → Str
argument_of none = []
argument_of (some t) = strip (after_word (lstrip is_space t))

unfoldable pub command_argument : Option Str → Str
unfolding after_word strip lstrip is_space
command_argument = argument_of

abbrev pad : ℕ → Str
pad zero = []
pad (suc n) = b'=' ∷ pad n

abbrev decodes : (Str → Bool) → Option Str → Bool
decodes is_json none = false
decodes is_json (some text) = is_json text

-- What follows the first of the two prefixes that fits.
abbrev routing_payload : Str → Str
routing_payload value =
    if starts_with value (codes "happ://routing/onadd/")
    then remove_prefix value (codes "happ://routing/onadd/")
    else if starts_with value (codes "happ://routing/add/")
    then remove_prefix value (codes "happ://routing/add/")
    else []

-- Decoding base64 to a text, and whether `json.loads` accepts a text, are arguments.
-- `b64decode` raises a `ValueError` that is not caught where the text is not ASCII.
pub data RoutingError : Type 0 where
  not_ascii_payload : RoutingError

unfoldable pub is_valid_happ_routing :
    (Str → Option Str) → (Str → Bool) → Str → Result RoutingError Bool
is_valid_happ_routing decode_base64 is_json value =
    let payload = routing_payload value in
    let padded = payload ++ pad ((4 - length payload % 4) % 4) in
    if is_empty payload
    then ok false
    else if is_ascii padded
    then ok (decodes is_json (decode_base64 padded))
    else err not_ascii_payload
