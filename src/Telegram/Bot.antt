-- ===== src/Telegram/Bot.antt =====
-- The handlers of telegram/bot.py, on the panels, Telegram and data.json. Telegram is an argument:
-- an answer, a menu of commands and the question for a chat's member may each raise. The pictures
-- of the urls, the texts of the instructions and the logs are not modelled, and a handler runs with
-- no other in between. Writing data.json to disk does not fail here; that is in Data/File. The
-- commands besides /start and /abroad are in Commands.
pub mod Commands
pub mod Strangers
pub mod Announcements
use vpn_control_panel.Prelude.{
  ℕ, String, List, [], ◌∷◌, ◌++◌, Bool, true, false, not, ◌&&◌, ◌||◌, Option, none, some, Result,
  ok, err, contains, ◌==◌, nat_eq, list_eq, if◌then◌else◌,
}
use vpn_control_panel.Text.{Str, codes, is_empty, or_text}
use vpn_control_panel.Text.Digits.{show_nat}
use vpn_control_panel.Json.{ℤ}
use vpn_control_panel.Regex.{Regex}
use vpn_control_panel.Action.{Action, pure, raise, lift, ◌>>=◌, ◌>>◌}
use vpn_control_panel.Xui.Panel.{Panel}
use vpn_control_panel.Data.Models.{
  ControlPlaneState, SubscriptionMetadata, NodeRecord, ClientRecord,
}
use vpn_control_panel.Data.Errors.{ValidationError}
use vpn_control_panel.Data.Store.{load_subscription, load_nodes, save_subscription}
use vpn_control_panel.Provisioning.{
  ProvisionError, empty_client_id, inbound_not_found, panel, invalid, unknown_tag,
  ProvisioningResult, ensure_telegram_user,
}
use vpn_control_panel.Provisioning.Manual.{issue_manual_client}
use vpn_control_panel.Backup.{BackupError}
use vpn_control_panel.Backup.Nodes.{Bytes}
use vpn_control_panel.Telegram.Access.{
  User, Message, BotSettings, is_admin, is_allowed_user, is_private_chat, is_plain_text_message,
  command_argument, is_valid_happ_routing,
}

pub data Reply : Type 0 where
  -- the texts, and the texts in HTML
  answer : Str → Reply
  -- the picture of a url under this file name, with the caption
  photo : Str → Str → Reply
  document : Bytes → Reply

pub data Menu : Type 0 where
  user_commands admin_commands : Menu

pub record Telegram : Type 1 where
  pub Chats : Type 0
  pub send : Message → Reply → Action Chats Str (Unit {0})
  pub set_my_commands : Menu → ℕ → Action Chats Str (Unit {0})
  -- the status of a user in a chat
  pub get_chat_member : ℤ → ℕ → Action Chats Str Str

-- The exceptions that a handler lets through.
pub data BotError : Type 0 where
  telegram : Str → BotError
  provisioning : ProvisionError → BotError
  store : ValidationError → BotError
  -- an exception of building a backup, and the `ValueError` of `b64decode`
  backup_raised : Str → BotError
  not_ascii_routing : BotError

-- What a handler uses besides Telegram.
pub record Services (P : Panel) : Type 0 where
  pub settings : BotSettings
  -- whether aiogram passes the bot to the handlers
  pub has_bot : Bool
  pub regex : Regex
  pub lower : Str → Str
  pub default_flow : Str
  pub public_url : ClientRecord → Str
  pub abroad_url : ClientRecord → Str
  pub escape : Str → Str
  pub decode_base64 : Str → Option Str
  pub is_json : Str → Bool
  -- the bytes of a backup of these nodes
  pub build_backup : List NodeRecord → P.World → Result BackupError Bytes × P.World

-- Which exceptions are a `ProvisioningError`, which the handlers catch.
unfoldable pub is_provisioning_error : ProvisionError → Bool
is_provisioning_error empty_client_id = true
is_provisioning_error (inbound_not_found i n) = true
is_provisioning_error (panel e) = false
is_provisioning_error (invalid e) = false
is_provisioning_error (unknown_tag t) = false

module _ (P : Panel) (T : Telegram) where
  pub record BotState : Type 0 where
    pub panels : P.World
    pub chats : T.Chats
    -- data.json: the records that it reads to, with its templates resolved, or the records that
    -- were written since
    pub file : ControlPlaneState

  abbrev pub Handler : Type 0 → Type 0
  Handler A = Action BotState BotError A

  abbrev of_telegram {ℓ} : {A : Type ℓ} → Result Str A → Result BotError A
  of_telegram (ok a) = ok a
  of_telegram (err e) = err (telegram e)

  abbrev of_store {ℓ} : {A : Type ℓ} → Result ValidationError A → Result BotError A
  of_store (ok a) = ok a
  of_store (err e) = err (store e)

  abbrev pub on_chats {ℓ} : {A : Type ℓ} → Action T.Chats Str A → Action BotState BotError A
  on_chats m s = let (r, c) = m s.chats in (of_telegram r, record s { chats = c })

  -- `message.answer`
  abbrev pub reply : Message → String → Handler (Unit {0})
  reply m text = on_chats (T.send m (answer (codes text)))

  -- A call inside `try` with `except Exception`: what it returns, or `none`.
  abbrev caught {ℓ} : {A : Type ℓ} → Result Str A → Option A
  caught (ok a) = some a
  caught (err e) = none

  abbrev pub try_chats {ℓ} :
      {A : Type ℓ} → Action T.Chats Str A → Action BotState BotError (Option A)
  try_chats m s = let (r, c) = m s.chats in (ok (caught r), record s { chats = c })

  module _ (S : Services P) where
    -- `configure_chat_commands`: without the bot nothing, and an exception is only logged.
    abbrev menu_for : ℕ → Menu
    menu_for user = if is_admin S.settings user then admin_commands else user_commands

    unfoldable pub configure_chat_commands : ℕ → Handler (Unit {0})
    configure_chat_commands user =
        if S.has_bot
        then (do _ ← try_chats (T.set_my_commands (menu_for user) user); pure tt)
        else pure tt

    -- A member, an administrator or the creator.
    abbrev pub accepted : Str → Bool
    accepted status =
        contains (codes "member" ∷ codes "administrator" ∷ codes "creator" ∷ []) status

    abbrev accepts : Option Str → Bool
    accepts none = false
    accepts (some status) = accepted status

    -- `_is_chat_member`
    unfoldable pub is_chat_member : ℕ → ℤ → Handler Bool
    is_chat_member user chat =
        if S.has_bot
        then (do status ← try_chats (T.get_chat_member chat user); pure (accepts status))
        else pure false

    abbrev allowed_in : ℕ → Option ℤ → Handler Bool
    allowed_in user none = pure (is_allowed_user S.settings user)
    allowed_in user (some chat) = is_chat_member user chat

    -- `_is_user_allowed_for_start`
    unfoldable pub is_user_allowed_for_start : ℕ → Handler Bool
    unfolding is_chat_member
    is_user_allowed_for_start user = allowed_in user S.settings.telegram_allowed_chat_id

    -- `_ensure_private`
    unfoldable pub ensure_private : Message → Handler Bool
    ensure_private m =
        if is_private_chat m
        then pure true
        else (do reply m "Напишите мне в личные сообщения, чтобы получить VPN-доступ."; pure false)

    -- `_ensure_admin`
    unfoldable pub ensure_admin : Message → ℕ → Handler Bool
    ensure_admin m user =
        if is_admin S.settings user then pure true else (do reply m "Доступ запрещен."; pure false)

    -- A run of the provisioning service, with the data.json that it leaves.
    abbrev settled {ℓ} :
        {A : Type ℓ}
        → BotState
        → Result ProvisionError (A × ControlPlaneState) × P.World
        → Result ProvisionError A × BotState
    settled s (ok (a, file), w) = (ok a, record s { panels = w; file = file })
    settled s (err e, w) = (err e, record s { panels = w })

    -- `try` with `except ProvisioningError`: `none`, after the answer, where it is caught.
    abbrev recover {ℓ} :
        {A : Type ℓ}
        → Message
        → String
        → Result ProvisionError A
        → Action BotState BotError (Option A)
    recover m text (ok a) = pure (some a)
    recover m text (err e) =
        if is_provisioning_error e then (do reply m text; pure none) else raise (provisioning e)

    abbrev pub provisioned {ℓ} :
        {A : Type ℓ}
        → Message
        → String
        → (ControlPlaneState → Action P.World ProvisionError (A × ControlPlaneState))
        → Action BotState BotError (Option A)
    provisioned m text run s = let (r, s') = settled s (run s.file s.panels) in recover m text r s'

    -- `send_subscription_key`
    unfoldable pub send_subscription_key : Message → Str → String → Handler (Unit {0})
    send_subscription_key m url name = do
      on_chats (T.send m (photo url (codes name)))
      on_chats (T.send m (answer (codes "<code>" ++ (S.escape url ++ codes "</code>"))))

    -- `send_subscription_material`
    unfoldable pub send_subscription_material : Message → ClientRecord → Handler (Unit {0})
    unfolding send_subscription_key
    send_subscription_material m c = do
      send_subscription_key m (S.public_url c) "subscription_qr.png"
      reply m "🟢 <b>VPN настроен!</b>"

    -- `_provision_telegram_user`, once the user may start
    abbrev pub provision_allowed : Message → User → Str → Bool → Handler (Option ProvisioningResult)
    provision_allowed m user fresh false = do
      reply m "Доступ запрещен. Обратитесь к администратору."
      pure none
    provision_allowed m user fresh true = do
      reply m "Настраиваю VPN-доступ, подождите..."
      provisioned m "Не удалось настроить VPN. Попробуйте позже или обратитесь к администратору." (
          ensure_telegram_user P S.lower S.default_flow S.regex user.id
            (or_text user.first_name (codes "Telegram user")) user.username fresh)

    abbrev pub if_private : Message → User → Str → Bool → Handler (Option ProvisioningResult)
    if_private m user fresh false = do
      reply m "Напишите мне в личные сообщения, чтобы получить VPN-доступ."
      pure none
    if_private m user fresh true = do
      allowed ← is_user_allowed_for_start user.id
      provision_allowed m user fresh allowed

    abbrev pub provision_user : Message → User → Str → Handler (Option ProvisioningResult)
    provision_user m user fresh = do
      configure_chat_commands user.id
      if_private m user fresh (is_private_chat m)

    abbrev from_sender : Message → Str → Option User → Handler (Option ProvisioningResult)
    from_sender m fresh none = pure none
    from_sender m fresh (some user) = provision_user m user fresh

    -- `_provision_telegram_user`; `fresh` is the subscription id generated if one is needed.
    unfoldable pub provision_telegram_user : Message → Str → Handler (Option ProvisioningResult)
    unfolding configure_chat_commands is_user_allowed_for_start
    provision_telegram_user m fresh = from_sender m fresh m.from_user

    abbrev pub then_material : Message → Option ProvisioningResult → Handler (Unit {0})
    then_material m none = pure tt
    then_material m (some r) = send_subscription_material m r.client

    unfoldable pub handle_start : Message → Str → Handler (Unit {0})
    unfolding provision_telegram_user send_subscription_material
    handle_start m fresh = do r ← provision_telegram_user m fresh; then_material m r

    abbrev pub then_abroad : Message → Option ProvisioningResult → Handler (Unit {0})
    then_abroad m none = pure tt
    then_abroad m (some r) = do
      send_subscription_key m (S.abroad_url r.client) "subscription_abroad_qr.png"
      reply m "🌍 <b>Ссылка для жизни за границей</b>"

    unfoldable pub handle_abroad : Message → Str → Handler (Unit {0})
    unfolding provision_telegram_user send_subscription_key
    handle_abroad m fresh = do r ← provision_telegram_user m fresh; then_abroad m r
