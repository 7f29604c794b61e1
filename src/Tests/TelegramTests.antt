-- ===== src/Tests/TelegramTests.antt =====
-- Examples on the bot, the clients of administrators and the backups.
use mathlib.Core.Path.{subst}
use vpn_control_panel.Prelude.{
  ℕ, suc, List, [], ◌∷◌, ◌++◌, ◌≡◌, refl, ◌⊎◌, inr, nat_eq, list_eq, true, false, none, some, ok,
  err, ltb, if◌then◌else◌, contains,
}
use vpn_control_panel.Action.{◌>>=◌}
use vpn_control_panel.Text.{Str, codes, is_empty, lstrip, rstrip, strip, strip_by, is_space}
use vpn_control_panel.Text.Digits.{digits, show_nat}
use vpn_control_panel.Json.{pos}
use vpn_control_panel.Xui.Panel.{Panel}
use vpn_control_panel.Data.Models.{ControlPlaneState}
use vpn_control_panel.Data.Store.{load_state}
use vpn_control_panel.Backup.Nodes.{BackupFile, Downloads, collect_node_backup_files}
use vpn_control_panel.Backup.Nodes.Complete.{
  Collected, OneRaises, failure_list, collect_node_backup_files_complete,
}
use vpn_control_panel.Telegram.Access.{
  User, Message, is_admin, is_private_chat, after_word, command_argument, is_valid_happ_routing,
}
use vpn_control_panel.Telegram.Bot.{
  Telegram, Services, BotState, is_user_allowed_for_start, is_chat_member,
}
use vpn_control_panel.Telegram.Bot.Commands.{
  Filters, create_dispatcher, dispatch, handle_announce, handle_set_routing,
}
use vpn_control_panel.Telegram.Bot.Strangers.{dispatch-Untouched}
use vpn_control_panel.Telegram.Bot.Announcements.{handle_announce-writes, handle_set_routing-valid}
use vpn_control_panel.Tests.DataTests.{loaded}
use vpn_control_panel.Tests.Fixtures.{plain_regex, state, node, metadata}

-- An empty panel, which takes every call.
abbrev panel : Panel
panel = record {
  World = ℕ;
  list_inbounds = λ n w. (ok [], w);
  list_clients = λ n w. (ok [], w);
  get_client = λ n e w. (ok none, w);
  add_client = λ n payload ids w. (ok tt, suc w);
  attach_client = λ n e ids w. (ok tt, suc w);
  update_client = λ n e payload w. (ok tt, suc w);
}

-- Telegram keeps how many answers it has sent; it refuses the menus.
abbrev telegram : Telegram
telegram = record {
  Chats = ℕ;
  send = λ m r n. (ok tt, suc n);
  set_my_commands = λ menu user n. (err (codes "menu"), n);
  get_chat_member = λ chat user n. (ok (codes "left"), n);
}

abbrev services : Services panel
services = record {
  settings = record {
    admin_telegram_ids = codes "1" ∷ [];
    telegram_allowed_user_ids = none;
    telegram_allowed_chat_id = some (pos 9);
  };
  has_bot = true;
  regex = plain_regex;
  lower = λ s. s;
  default_flow = [];
  public_url = λ c. codes "u";
  abroad_url = λ c. codes "a";
  escape = λ s. s;
  decode_base64 = λ s. some s;
  is_json = λ s. true;
  build_backup = λ nodes w. (ok [], w);
}

abbrev filters : Filters
filters = record {
  is_start = λ m. false;
  is_command = λ names m. contains names (codes "announce");
}

abbrev sent_by : ℕ → Str → Message
sent_by user text = record {
  from_user = some (record { id = user; first_name = codes "n"; username = none });
  chat_type = some (codes "private");
  text = some text;
}

abbrev before : BotState panel telegram
before = record { panels = 0; chats = 0; file = state }

refused_five :
    (user : User)
    → (sent_by 5 (codes "/announce x")).from_user ≡ some user
    → (is_admin services.settings user.id ≡ false)
      × ((is_private_chat (sent_by 5 (codes "/announce x")) ≡ false)
          ⊎ ((t : BotState panel telegram)
              → (is_user_allowed_for_start panel telegram services user.id t).0 ≡ ok false))
unfolding is_admin show_nat digits is_user_allowed_for_start is_chat_member ◌>>=◌
refused_five user h =
    let same : record { id = 5; first_name = codes "n"; username = none } ≡ user = cc in
    subst
      (λ (u : User).
        (is_admin services.settings u.id ≡ false)
        × ((is_private_chat (sent_by 5 (codes "/announce x")) ≡ false)
            ⊎ ((t : BotState panel telegram)
                → (is_user_allowed_for_start panel telegram services u.id t).0 ≡ ok false)))
      same (refl, inr λ t. refl)

dispatch-Untouched_example :
    ((dispatch panel telegram services
        (create_dispatcher panel telegram services filters [] [])
        (sent_by 5 (codes "/announce x"))
        before).1.panels
      ≡ 0)
    × ((dispatch panel telegram services
          (create_dispatcher panel telegram services filters [] [])
          (sent_by 5 (codes "/announce x"))
          before).1.file
        ≡ state)
dispatch-Untouched_example =
    dispatch-Untouched panel telegram services filters [] [] (sent_by 5 (codes "/announce x"))
      before refused_five

announced : is_empty (command_argument (some (codes "/announce x y "))) ≡ false
unfolding command_argument after_word strip strip_by lstrip rstrip is_space
announced = refl

one_admin : is_admin services.settings 1 ≡ true
unfolding is_admin show_nat digits
one_admin = refl

handle_announce-writes_example :
    (handle_announce panel telegram services (sent_by 1 (codes "/announce x y ")) before).1.file
    ≡ record state {
      subscription = record metadata {
        announce = some (command_argument (some (codes "/announce x y ")));
      };
    }
handle_announce-writes_example =
    handle_announce-writes panel telegram services (sent_by 1 (codes "/announce x y "))
      (record { id = 1; first_name = codes "n"; username = none }) before state refl one_admin
      announced loaded

handle_set_routing-valid_example :
    ((handle_set_routing panel telegram services
        (sent_by 1 (codes "/set_routing happ://routing/add/e30"))
        before).1.file
      ≡ state)
    ⊎ ((user : User) × (routing : Str) × (old : ControlPlaneState) × (some
            (record { id = 1; first_name = codes "n"; username = none })
          ≡ some user)
        × (is_admin services.settings user.id ≡ true)
        × (is_valid_happ_routing services.decode_base64 services.is_json routing ≡ ok true)
        × (load_state plain_regex state ≡ ok old)
        × ((handle_set_routing panel telegram services
              (sent_by 1 (codes "/set_routing happ://routing/add/e30"))
              before).1.file
            ≡ record old { subscription = record old.subscription { routing = some routing } }))
handle_set_routing-valid_example =
    handle_set_routing-valid panel telegram services
      (sent_by 1 (codes "/set_routing happ://routing/add/e30")) before

-- The second node of two answers no download.
abbrev downloads : Downloads
downloads = record {
  World = ℕ;
  open_client = λ n w. (ok tt, w);
  close = λ n w. (ok tt, suc w);
  get_database_backup = λ n w. (if ltb 0 w then err (codes "down") else ok (1 ∷ []), w);
  get_config_json_backup = λ n w. (ok (2 ∷ []), w);
  is_alnum = λ c. true;
  encode_utf8 = λ s. s;
}

collect_node_backup_files_complete_example :
    ((files : List BackupFile) × (errors : List Str) × (v : ℕ) × Collected downloads
        (node ∷ node ∷ [])
        0
        files
        errors
        v
      × (collect_node_backup_files downloads (node ∷ node ∷ []) 0
          ≡ (ok (files ++ failure_list downloads errors), v)))
    ⊎ ((e : Str) × (v : ℕ) × OneRaises downloads (node ∷ node ∷ []) e
        × (collect_node_backup_files downloads (node ∷ node ∷ []) 0 ≡ (err e, v)))
collect_node_backup_files_complete_example =
    collect_node_backup_files_complete downloads (node ∷ node ∷ []) 0
