-- ===== src/Telegram/Bot/Commands.antt =====
-- The remaining handlers of telegram/bot.py, and the dispatcher: the first handler whose filter
-- accepts a message handles it. The filters of aiogram are an argument.
use vpn_control_panel.Prelude.{
  ℕ, String, List, [], ◌∷◌, ◌++◌, Bool, true, false, ◌||◌, Option, none, some, Result, ok, err,
  if◌then◌else◌,
}
use vpn_control_panel.Text.{Str, codes, or_text}
use vpn_control_panel.Text.Digits.{show_nat}
use vpn_control_panel.Action.{Action, pure, raise, ◌>>=◌, ◌>>◌}
use vpn_control_panel.Prelude
use vpn_control_panel.Xui.Panel.{Panel}
use vpn_control_panel.Data.Models.{ControlPlaneState, SubscriptionMetadata, NodeRecord}
use vpn_control_panel.Data.Errors.{ValidationError}
use vpn_control_panel.Data.Store.{load_subscription, load_nodes, save_subscription}
use vpn_control_panel.Provisioning.Manual.{issue_manual_client}
use vpn_control_panel.Backup.{SecretsBackupError, BackupError, secrets_failed, uncaught}
use vpn_control_panel.Backup.Nodes.{Bytes}
use vpn_control_panel.Telegram.Access.{
  User, Message, is_plain_text_message, command_argument, RoutingError, is_valid_happ_routing,
}
use vpn_control_panel.Telegram.Bot.{
  Telegram, document, answer, Services, BotState, Handler, on_chats, reply, BotError, store,
  backup_raised, not_ascii_routing, configure_chat_commands, ensure_private, ensure_admin,
  provisioned, then_material, handle_start, handle_abroad,
}

-- `CommandStart()`, and `Command` with these names
pub record Filters : Type 0 where
  pub is_start : Message → Bool
  pub is_command : List Str → Message → Bool

module _ (P : Panel) (T : Telegram) (S : Services P) where
  -- The body of a handler, with the sender; a message without one is dropped.
  abbrev pub with_sender : Option User → (User → Handler P T (Unit {0})) → Handler P T (Unit {0})
  with_sender none body = pure tt
  with_sender (some user) body = body user

  -- `if not ...: return`
  abbrev pub when : Bool → Handler P T (Unit {0}) → Handler P T (Unit {0})
  when false body = pure tt
  when true body = body

  abbrev pub configure_sender : Option User → Handler P T (Unit {0})
  configure_sender none = pure tt
  configure_sender (some user) = configure_chat_commands P T S user.id

  unfoldable pub handle_help : Message → Handler P T (Unit {0})
  unfolding configure_chat_commands
  handle_help m = do
    configure_sender m.from_user
    reply P T m "Введите /start, чтобы получить или обновить доступ."

  unfoldable pub handle_status : Message → Handler P T (Unit {0})
  unfolding configure_chat_commands
  handle_status m = do configure_sender m.from_user; reply P T m "Бот работает."

  unfoldable pub handle_id : Message → Handler P T (Unit {0})
  unfolding configure_chat_commands
  handle_id m = with_sender m.from_user λ user. do
    configure_chat_commands P T S user.id
    on_chats P T (T.send m (answer (codes "Ваш Telegram ID: " ++ show_nat user.id)))

  unfoldable pub handle_plain_text : Message → Handler P T (Unit {0})
  unfolding configure_chat_commands
  handle_plain_text m = do
    configure_sender m.from_user
    reply P T m "Введите /start, чтобы получить или обновить доступ."

  -- Of an administrator in any chat, and of one in a private chat.
  abbrev pub admin_only : Message → Handler P T (Unit {0}) → Handler P T (Unit {0})
  admin_only m body = with_sender m.from_user λ user. do
    configure_chat_commands P T S user.id
    admin ← ensure_admin P T S m user.id
    when admin body

  abbrev pub private_admin_only : Message → Handler P T (Unit {0}) → Handler P T (Unit {0})
  private_admin_only m body = with_sender m.from_user λ user. do
    configure_chat_commands P T S user.id
    private ← ensure_private P T S m
    when private (do admin ← ensure_admin P T S m user.id; when admin body)

  -- `tokens` are the client ids that the program draws.
  unfoldable pub handle_issue : Message → List Str → Str → Handler P T (Unit {0})
  unfolding configure_chat_commands ensure_private ensure_admin
  handle_issue m tokens fresh = private_admin_only m do
    reply P T m "Создаю VPN-клиента..."
    r ← provisioned P T S m "Не удалось создать VPN-клиента. Попробуйте позже." (
        issue_manual_client P S.lower S.default_flow S.regex tokens
          (or_text (command_argument m.text) (codes "manual")) fresh)
    then_material P T S m r

  abbrev saved :
      BotState P T
      → Result ValidationError ControlPlaneState
      → Result (BotError) (Unit {0}) × BotState P T
  saved s (ok file) = (ok tt, record s { file = file })
  saved s (err e) = (err (store e), s)

  -- `current = load_subscription()` and `save_subscription(current.model_copy(...))`
  unfoldable pub update_subscription :
      (SubscriptionMetadata → SubscriptionMetadata) → Handler P T (Unit {0})
  update_subscription change s = saved s (
      Prelude.◌>>=◌ (load_subscription S.regex s.file)
        λ current. save_subscription S.regex (change current) s.file)

  abbrev pub with_announce : Option Str → SubscriptionMetadata → SubscriptionMetadata
  with_announce announcement current = record current { announce = announcement }

  abbrev pub announce_text : Message → Str → Handler P T (Unit {0})
  announce_text m [] = reply P T m "Укажите текст объявления: /announce <text>"
  announce_text m (c ∷ text) = do
    update_subscription (with_announce (some (c ∷ text)))
    reply P T m "Объявление обновлено."

  unfoldable pub handle_announce : Message → Handler P T (Unit {0})
  unfolding configure_chat_commands ensure_admin update_subscription
  handle_announce m = admin_only m (announce_text m (command_argument m.text))

  unfoldable pub handle_unannounce : Message → Handler P T (Unit {0})
  unfolding configure_chat_commands ensure_admin update_subscription
  handle_unannounce m =
      admin_only m do update_subscription (with_announce none); reply P T m "Объявление очищено."

  abbrev read_nodes : Result ValidationError (List NodeRecord) → Result BotError (List NodeRecord)
  read_nodes (ok nodes) = ok nodes
  read_nodes (err e) = err (store e)

  abbrev load : Handler P T (List NodeRecord)
  load s = (read_nodes (load_nodes S.regex s.file), s)

  -- The failure to encrypt is handled, any other exception is not.
  abbrev archived : Result BackupError Bytes → Result BotError (Result SecretsBackupError Bytes)
  archived (ok bytes) = ok (ok bytes)
  archived (err (secrets_failed e)) = ok (err e)
  archived (err (uncaught e)) = err (backup_raised e)

  abbrev archive :
      List NodeRecord → Action (BotState P T) BotError (Result SecretsBackupError Bytes)
  archive nodes s =
      let (r, w) = S.build_backup nodes s.panels in (archived r, record s { panels = w })

  abbrev send_backup : Message → Result SecretsBackupError Bytes → Handler P T (Unit {0})
  send_backup m (err e) = reply P T m "Не удалось зашифровать бекап секретов."
  send_backup m (ok bytes) = on_chats P T (T.send m (document bytes))

  unfoldable pub handle_backup : Message → Handler P T (Unit {0})
  unfolding configure_chat_commands ensure_private ensure_admin
  handle_backup m = private_admin_only m do nodes ← load; r ← archive nodes; send_backup m r

  abbrev pub with_routing : Str → SubscriptionMetadata → SubscriptionMetadata
  with_routing routing current = record current { routing = some routing }

  abbrev set_valid_routing : Message → Str → Result RoutingError Bool → Handler P T (Unit {0})
  set_valid_routing m routing (err e) = raise not_ascii_routing
  set_valid_routing m routing (ok false) =
      reply P T m
        "Routing строка невалидна: ожидается happ://routing/onadd или happ://routing/add с base64 JSON."
  set_valid_routing m routing (ok true) = do
    update_subscription (with_routing routing)
    reply P T m "Routing обновлен."

  abbrev pub set_routing : Message → Str → Handler P T (Unit {0})
  set_routing m [] =
      reply P T m "Укажите routing строку: /set_routing happ://routing/onadd/<base64-json>"
  set_routing m (c ∷ routing) =
      set_valid_routing m (c ∷ routing)
        (is_valid_happ_routing S.decode_base64 S.is_json (c ∷ routing))

  unfoldable pub handle_set_routing : Message → Handler P T (Unit {0})
  unfolding configure_chat_commands ensure_admin update_subscription
  handle_set_routing m = admin_only m (set_routing m (command_argument m.text))

  abbrev pub Route : Type 0
  Route = (Message → Bool) × (Message → Handler P T (Unit {0}))

  -- `create_dispatcher`: the handlers in the order in which they are registered.
  unfoldable pub create_dispatcher : Filters → List Str → Str → List Route
  unfolding handle_start handle_abroad
  create_dispatcher F tokens fresh =
      (F.is_start, λ m. handle_start P T S m fresh)
      ∷ (F.is_command (codes "abroad" ∷ []), λ m. handle_abroad P T S m fresh)
      ∷ (F.is_command (codes "help" ∷ []), handle_help)
      ∷ (F.is_command (codes "status" ∷ []), handle_status)
      ∷ (F.is_command (codes "id" ∷ []), handle_id)
      ∷ (F.is_command (codes "issue" ∷ []), λ m. handle_issue m tokens fresh)
      ∷ (F.is_command (codes "announce" ∷ []), handle_announce)
      ∷ (F.is_command (codes "unannounce" ∷ []), handle_unannounce)
      ∷ (F.is_command (codes "backup" ∷ []), handle_backup)
      ∷ (F.is_command (codes "set-routing" ∷ codes "set_routing" ∷ []), handle_set_routing)
      ∷ (is_plain_text_message, handle_plain_text)
      ∷ []

  -- A message that no filter accepts is dropped.
  abbrev pub dispatch : List Route → Message → Handler P T (Unit {0})
  dispatch [] m = pure tt
  dispatch ((accepts, handler) ∷ routes) m = if accepts m then handler m else dispatch routes m
