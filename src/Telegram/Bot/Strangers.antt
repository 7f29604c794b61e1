-- ===== src/Telegram/Bot/Strangers.antt =====
-- What a message can change, of the dispatcher of telegram/bot.py.
use vpn_control_panel.Prelude.{
  ℕ, List, [], ◌∷◌, ◌≡◌, refl, ◌⊎◌, inl, inr, Bool, true, false, Option, none, some, ok, Bool-cases,
}
use vpn_control_panel.Text.{Str}
use vpn_control_panel.Json.{ℤ}
use vpn_control_panel.Action.{Action, pure, ◌>>=◌, Yields, Yields-bind, Yields-if}
use vpn_control_panel.Xui.Panel.{Panel}
use vpn_control_panel.Data.Models.{ControlPlaneState}
use vpn_control_panel.Telegram.Access.{User, Message, is_admin, is_private_chat}
use vpn_control_panel.Telegram.Bot.{
  Telegram, Services, BotError, BotState, Handler, on_chats, try_chats, configure_chat_commands,
  is_chat_member, is_user_allowed_for_start, allowed_in, ensure_private, ensure_admin,
  provision_telegram_user, from_sender, if_private, provision_allowed, handle_start, handle_abroad,
}
use vpn_control_panel.Telegram.Bot.Commands.{
  Filters, with_sender, when, handle_help, handle_status, handle_id, handle_plain_text,
  handle_issue, handle_announce, handle_unannounce, handle_backup, handle_set_routing,
  private_admin_only, admin_only, create_dispatcher, dispatch, Route, configure_sender,
}

module _ (P : Panel) (T : Telegram) (S : Services P) (panels : P.World)
    (file : ControlPlaneState) where
  -- The panels and data.json are as they were.
  abbrev pub IsUntouched : BotState P T → Type 0
  IsUntouched s = (s.panels ≡ panels) × (s.file ≡ file)

  -- A handler that leaves them, and returns what has the property.
  abbrev pub IsQuiet {ℓ κ} :
      {A : Type ℓ} (Q : A → Type κ) → Action (BotState P T) BotError A → Type (ℓ ⊔ κ)
  IsQuiet Q m = Yields IsUntouched Q m

  abbrev pub Anything {ℓ} : {A : Type ℓ} → A → Type 0
  Anything a = Unit {0}

  pure-Quiet {ℓ κ} : {A : Type ℓ} {Q : A → Type κ} (a : A) → Q a → IsQuiet Q (pure a)
  pure-Quiet {A = A} {Q = Q} a q = record {
    after = λ s h. h;
    returns = λ s b h e. let same : a ≡ b = cc in rw same at q;
  }

  on_chats-Quiet {ℓ} : {A : Type ℓ} (m : Action T.Chats Str A) → IsQuiet Anything (on_chats P T m)
  on_chats-Quiet m = record { after = λ s h. h; returns = λ s a h e. tt }

  try_chats-Quiet {ℓ} : {A : Type ℓ} (m : Action T.Chats Str A) → IsQuiet Anything (try_chats P T m)
  try_chats-Quiet m = record { after = λ s h. h; returns = λ s a h e. tt }

  -- An answer, and then a value.
  answered {ℓ κ} :
      {A : Type ℓ} {Q : A → Type κ} (told : Action T.Chats Str (Unit {0})) (a : A)
      → Q a
      → IsQuiet Q (on_chats P T told >>= λ _. pure a)
  answered told a q = Yields-bind _ (on_chats-Quiet _) λ u h. pure-Quiet a q

  configure_chat_commands-Quiet : (user : ℕ) → IsQuiet Anything (configure_chat_commands P T S user)
  unfolding configure_chat_commands
  configure_chat_commands-Quiet user =
      Yields-if S.has_bot (Yields-bind _ (try_chats-Quiet _) λ r h. pure-Quiet tt tt)
        (pure-Quiet tt tt)

  configure_sender-Quiet : (o : Option User) → IsQuiet Anything (configure_sender P T S o)
  configure_sender-Quiet none = pure-Quiet tt tt
  configure_sender-Quiet (some user) = configure_chat_commands-Quiet user.id

  is_user_allowed_for_start-Quiet :
      (user : ℕ) → IsQuiet Anything (is_user_allowed_for_start P T S user)
  unfolding is_user_allowed_for_start is_chat_member
  is_user_allowed_for_start-Quiet user = chosen S.settings.telegram_allowed_chat_id
    where
      chosen : (o : Option ℤ) → IsQuiet Anything (allowed_in P T S user o)
      chosen none = pure-Quiet _ tt
      chosen (some chat) =
          Yields-if S.has_bot (Yields-bind _ (try_chats-Quiet _) λ r h. pure-Quiet _ tt)
            (pure-Quiet _ tt)

  -- Who is no administrator is refused.
  ensure_admin-Quiet :
      (m : Message) (user : ℕ)
      → is_admin S.settings user ≡ false
      → IsQuiet (λ b. b ≡ false) (ensure_admin P T S m user)
  unfolding ensure_admin
  ensure_admin-Quiet m user h = rw h (answered _ false refl)

  when-Quiet :
      (body : Handler P T (Unit {0})) (b : Bool) → b ≡ false → IsQuiet Anything (when P T S b body)
  when-Quiet body true h = cc
  when-Quiet body false h = pure-Quiet tt tt

  ensure_private-Quiet : (m : Message) → IsQuiet Anything (ensure_private P T S m)
  unfolding ensure_private
  ensure_private-Quiet m = elim (Bool-cases (is_private_chat m)) [
    | inl h ↦ rw h (pure-Quiet true tt)
    | inr h ↦ rw h (answered _ false tt)
  ]

  pub checked-Quiet :
      (m : Message) (user : User) (body : Handler P T (Unit {0}))
      → is_admin S.settings user.id ≡ false
      → IsQuiet Anything (do admin ← ensure_admin P T S m user.id; when P T S admin body)
  checked-Quiet m user body h = Yields-bind _ (ensure_admin-Quiet m user.id h) (when-Quiet body)

  module _ (m : Message)
      (refused : (user : User)
        → m.from_user ≡ some user
        → (is_admin S.settings user.id ≡ false)
          × ((is_private_chat m ≡ false)
              ⊎ ((s : BotState P T)
                  → (is_user_allowed_for_start P T S user.id s).0 ≡ ok false))) where
    with_sender-Quiet :
        (body : User → Handler P T (Unit {0}))
        → ((user : User) → is_admin S.settings user.id ≡ false → IsQuiet Anything (body user))
        → IsQuiet Anything (with_sender P T S m.from_user body)
    with_sender-Quiet body each = sent m.from_user refl
      where
        sent : (o : Option User) → m.from_user ≡ o → IsQuiet Anything (with_sender P T S o body)
        sent none e = pure-Quiet tt tt
        sent (some user) e = each user (refused user e).0

    admin_only-Quiet : (body : Handler P T (Unit {0})) → IsQuiet Anything (admin_only P T S m body)
    admin_only-Quiet body = with_sender-Quiet _ λ user h.
        Yields-bind _ (configure_chat_commands-Quiet user.id) λ u i. checked-Quiet m user body h

    private_admin_only-Quiet :
        (body : Handler P T (Unit {0})) → IsQuiet Anything (private_admin_only P T S m body)
    private_admin_only-Quiet body = with_sender-Quiet _ λ user h.
        Yields-bind _ (configure_chat_commands-Quiet user.id)
          λ u i. Yields-bind _ (ensure_private-Quiet m) (private_then user h)
      where
        private_then :
            (user : User)
            → is_admin S.settings user.id ≡ false
            → (b : Bool) → Unit {0}
            → IsQuiet Anything
                (when P T S b (do admin ← ensure_admin P T S m user.id; when P T S admin body))
        private_then user h true u = checked-Quiet m user body h
        private_then user h false u = pure-Quiet tt tt

    provision_telegram_user-Quiet :
        (fresh : Str) → IsQuiet (λ r. r ≡ none) (provision_telegram_user P T S m fresh)
    unfolding provision_telegram_user
    provision_telegram_user-Quiet fresh = sent m.from_user refl
      where
        refused_start :
            (user : User) (b : Bool)
            → b ≡ false
            → IsQuiet (λ r. r ≡ none) (provision_allowed P T S m user fresh b)
        refused_start user true h = cc
        refused_start user false h = answered _ none refl

        in_chat :
            (user : User) (b : Bool)
            → is_private_chat m ≡ b
            → (is_private_chat m ≡ false)
              ⊎ ((s : BotState P T) → (is_user_allowed_for_start P T S user.id s).0 ≡ ok false)
            → IsQuiet (λ r. r ≡ none) (if_private P T S m user fresh b)
        in_chat user false e h = answered _ none refl
        in_chat user true e (inl h) = cc
        in_chat user true e (inr h) =
            Yields-bind _
              (record {
                after = (is_user_allowed_for_start-Quiet user.id).after;
                returns = λ s a u k. let l = h s in cc;
              })
              (refused_start user)

        sent :
            (o : Option User)
            → m.from_user ≡ o
            → IsQuiet (λ r. r ≡ none) (from_sender P T S m fresh o)
        sent none e = pure-Quiet none refl
        sent (some user) e =
            Yields-bind _ (configure_chat_commands-Quiet user.id)
              λ u i. in_chat user (is_private_chat m) refl (refused user e).1

    handle_start-Quiet : (fresh : Str) → IsQuiet Anything (handle_start P T S m fresh)
    unfolding handle_start
    handle_start-Quiet fresh =
        Yields-bind _ (provision_telegram_user-Quiet fresh) λ r h. rw h (pure-Quiet tt tt)

    handle_abroad-Quiet : (fresh : Str) → IsQuiet Anything (handle_abroad P T S m fresh)
    unfolding handle_abroad
    handle_abroad-Quiet fresh =
        Yields-bind _ (provision_telegram_user-Quiet fresh) λ r h. rw h (pure-Quiet tt tt)

    -- An answer to everybody.
    answers-Quiet :
        (told : Action T.Chats Str (Unit {0}))
        → IsQuiet Anything (configure_sender P T S m.from_user >>= λ u. on_chats P T told)
    answers-Quiet told = Yields-bind _ (configure_sender-Quiet m.from_user) λ u h. on_chats-Quiet _

    handle_id-Quiet : IsQuiet Anything (handle_id P T S m)
    unfolding handle_id
    handle_id-Quiet =
        with_sender-Quiet _
          λ user h. Yields-bind _ (configure_chat_commands-Quiet user.id) λ u i. on_chats-Quiet _

    abbrev AreQuiet : List (Route P T S) → Type 0
    AreQuiet [] = Unit {0}
    AreQuiet ((accepts, handler) ∷ routes) = IsQuiet Anything (handler m) × AreQuiet routes

    dispatch-Quiet :
        (routes : List (Route P T S)) → AreQuiet routes → IsQuiet Anything (dispatch P T S routes m)
    dispatch-Quiet [] h = pure-Quiet tt tt
    dispatch-Quiet ((accepts, handler) ∷ routes) (h, hs) =
        Yields-if (accepts m) h (dispatch-Quiet routes hs)

    dispatcher-Quiet :
        (F : Filters) (tokens : List Str) (fresh : Str)
        → IsQuiet Anything (dispatch P T S (create_dispatcher P T S F tokens fresh) m)
    unfolding create_dispatcher handle_help handle_status handle_plain_text handle_issue
        handle_announce handle_unannounce handle_backup handle_set_routing
    dispatcher-Quiet F tokens fresh = dispatch-Quiet (create_dispatcher P T S F tokens fresh) (
      handle_start-Quiet fresh,
      (
        handle_abroad-Quiet fresh,
        (
          answers-Quiet _,
          (
            answers-Quiet _,
            (
              handle_id-Quiet,
              (
                private_admin_only-Quiet _,
                (
                  admin_only-Quiet _,
                  (
                    admin_only-Quiet _,
                    (private_admin_only-Quiet _, (admin_only-Quiet _, (answers-Quiet _, tt))),
                  ),
                ),
              ),
            ),
          ),
        ),
      ),
    )

-- A message changes neither a panel nor data.json, whatever its text is and whether or not an
-- answer to it fails, if its sender, where it has one, is no administrator, and either it is not
-- in a private chat or its sender may not start.
pub dispatch-Untouched :
    (P : Panel) (T : Telegram) (S : Services P) (F : Filters) (tokens : List Str) (fresh : Str)
    (m : Message) (s : BotState P T)
    → ((user : User)
        → m.from_user ≡ some user
        → (is_admin S.settings user.id ≡ false)
          × ((is_private_chat m ≡ false)
              ⊎ ((t : BotState P T) → (is_user_allowed_for_start P T S user.id t).0 ≡ ok false)))
    → ((dispatch P T S (create_dispatcher P T S F tokens fresh) m s).1.panels ≡ s.panels)
      × ((dispatch P T S (create_dispatcher P T S F tokens fresh) m s).1.file ≡ s.file)
dispatch-Untouched P T S F tokens fresh m s refused =
    (dispatcher-Quiet P T S s.panels s.file m refused F tokens fresh).after s (refl, refl)
