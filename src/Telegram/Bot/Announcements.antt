-- ===== src/Telegram/Bot/Announcements.antt =====
-- What an administrator's commands leave in data.json, of telegram/bot.py.
use vpn_control_panel.Prelude.{
  ℕ, [], ◌∷◌, ◌≡◌, refl, ap, ◌∙◌, ◌⊎◌, inl, inr, true, false, Bool, some, Result, ok, err,
  Bool-cases, Option-cases,
}
use vpn_control_panel.Text.{Str, is_empty}
use vpn_control_panel.Action.{Action, continue, ◌>>=◌}
use vpn_control_panel.Xui.Panel.{Panel}
use vpn_control_panel.Data.Models.{ControlPlaneState, SubscriptionMetadata}
use vpn_control_panel.Data.Errors.{ValidationError}
use vpn_control_panel.Telegram.Bot.Strangers.{checked-Quiet}
use vpn_control_panel.Data.Store.{load_state, load_subscription}
use vpn_control_panel.Data.Store.Saving.{load-save_subscription}
use vpn_control_panel.Telegram.Access.{
  User, Message, is_admin, command_argument, RoutingError, is_valid_happ_routing,
}
use vpn_control_panel.Telegram.Bot.{
  Telegram, Services, BotError, BotState, Handler, reply, configure_chat_commands, ensure_admin,
}
use vpn_control_panel.Telegram.Bot.Commands.{
  with_sender, when, admin_only, update_subscription, announce_text, with_announce, with_routing,
  set_routing, handle_announce, handle_set_routing,
}

module _ (P : Panel) (T : Telegram) (S : Services P) where
  -- Whatever comes after, the chain has its effect.
  effect_of_bind {ℓ κ} :
      {A : Type ℓ} {B : Type κ} (m : Action (BotState P T) BotError A)
      (f : A → Action (BotState P T) BotError B) (s : BotState P T)
      → ((a : A) (t : BotState P T) → (f a t).1.file ≡ t.file)
      → ((m >>= f) s).1.file ≡ (m s).1.file
  unfolding ◌>>=◌
  effect_of_bind {A = A} {B = B} m f s h = split (m s).0
    where
      split : (r : Result BotError A) → (continue r f (m s).1).1.file ≡ (m s).1.file
      split (ok a) = h a (m s).1
      split (err e) = refl

  -- The commands of the menu do not touch data.json, and never fail.
  configured :
      (user : ℕ) (s : BotState P T) (k : Unit {0} → Handler P T (Unit {0}))
      → (t : BotState P T) × (t.file ≡ s.file)
        × ((configure_chat_commands P T S user >>= k) s ≡ k tt t)
  unfolding configure_chat_commands ◌>>=◌
  configured user s k = elim (Bool-cases S.has_bot) [
    | inl h ↦ ((configure_chat_commands P T S user s).1, rw h refl, rw h refl)
    | inr h ↦ ((configure_chat_commands P T S user s).1, rw h refl, rw h refl)
  ]

  -- For an administrator, the body of a handler runs on the same data.json.
  for_admin :
      (m : Message) (user : User) (s : BotState P T) (body : Handler P T (Unit {0}))
      → m.from_user ≡ some user
      → is_admin S.settings user.id ≡ true
      → (t : BotState P T) × (t.file ≡ s.file) × (admin_only P T S m body s ≡ body t)
  unfolding ensure_admin ◌>>=◌
  for_admin m user s body from admin =
      let rest : Unit {0} → Handler P T (Unit {0}) =
        λ u. ensure_admin P T S m user.id >>= λ b. when P T S b body in
      let each : User → Handler P T (Unit {0}) = λ u. configure_chat_commands P T S u.id >>= λ v.
      ensure_admin P T S m u.id >>= λ b. when P T S b body in
      let (t, e, run) = configured user.id s rest in
      let allowed : rest tt t ≡ body t = rw admin refl in
      (t, e, ap (λ o. with_sender P T S o each s) from ∙ (run ∙ allowed))

  -- Where data.json loads, the loaded records with the change of their metadata are written.
  update_subscription-file :
      (change : SubscriptionMetadata → SubscriptionMetadata) (s : BotState P T)
      (old : ControlPlaneState)
      → load_state S.regex s.file ≡ ok old
      → (update_subscription P T S change s).1.file
        ≡ record old { subscription = change old.subscription }
  unfolding update_subscription load_subscription
  update_subscription-file change s old h =
      rw (h, (load-save_subscription S.regex (change old.subscription) s.file old h).0) refl

  update_subscription-failed :
      (change : SubscriptionMetadata → SubscriptionMetadata) (s : BotState P T)
      (e : ValidationError)
      → load_state S.regex s.file ≡ err e
      → (update_subscription P T S change s).1.file ≡ s.file
  unfolding update_subscription load_subscription
  update_subscription-failed change s e h = rw h refl

  -- After an administrator's /announce with a text, where data.json loads, the records that are
  -- written to it are the loaded ones, which have the values of the variables in place of
  -- templates, with that text as the announcement, even if an answer to the message fails.
  pub handle_announce-writes :
      (m : Message) (user : User) (s : BotState P T) (old : ControlPlaneState)
      → m.from_user ≡ some user
      → is_admin S.settings user.id ≡ true
      → is_empty (command_argument m.text) ≡ false
      → load_state S.regex s.file ≡ ok old
      → (handle_announce P T S m s).1.file ≡ record old {
        subscription = record old.subscription { announce = some (command_argument m.text) };
      }
  unfolding handle_announce
  handle_announce-writes m user s old from admin given h =
      let (t, e, run) =
        for_admin m user s (announce_text P T S m (command_argument m.text)) from admin in
      let loaded : load_state S.regex t.file ≡ ok old = rw e h in
      let change = with_announce P T S (some (command_argument m.text)) in
      rw (run, announced m t (command_argument m.text) given)
        (update_subscription-file change t old loaded)
    where
      announced :
          (m : Message) (t : BotState P T) (text : Str)
          → is_empty text ≡ false
          → (announce_text P T S m text t).1.file
            ≡ (update_subscription P T S (with_announce P T S (some text)) t).1.file
      announced m t [] h = cc
      announced m t (c ∷ text) h = effect_of_bind _ _ t λ u v. refl

  -- Who is no administrator changes nothing.
  for_others :
      (m : Message) (user : User) (s : BotState P T) (body : Handler P T (Unit {0}))
      → m.from_user ≡ some user
      → is_admin S.settings user.id ≡ false
      → (admin_only P T S m body s).1.file ≡ s.file
  unfolding ensure_admin ◌>>=◌
  for_others m user s body from other =
      let rest : Unit {0} → Handler P T (Unit {0}) =
        λ u. ensure_admin P T S m user.id >>= λ b. when P T S b body in
      let each : User → Handler P T (Unit {0}) = λ u. configure_chat_commands P T S u.id >>= λ v.
      ensure_admin P T S m u.id >>= λ b. when P T S b body in
      let (t, e, run) = configured user.id s rest in
      let refused =
        ((checked-Quiet P T S t.panels t.file m user body other).after t (refl, refl)).1 in
      ap (λ o. (with_sender P T S o each s).1.file) from ∙ (ap (λ r. r.1.file) run ∙ (refused ∙ e))

  -- The two ways that setting a routing can end.
  IsRouted : ControlPlaneState → ControlPlaneState → Type 0
  IsRouted file file' =
      (file' ≡ file)
      ⊎ ((routing : Str) × (old : ControlPlaneState) × (is_valid_happ_routing S.decode_base64
              S.is_json routing
            ≡ ok true)
          × (load_state S.regex file ≡ ok old)
          × (file'
              ≡ record old { subscription = record old.subscription { routing = some routing } }))

  set_routing-Routed :
      (m : Message) (text : Str) (t : BotState P T)
      → IsRouted t.file (set_routing P T S m text t).1.file
  unfolding IsRouted
  set_routing-Routed m [] t = inl refl
  set_routing-Routed m (c ∷ text) t =
      checked (is_valid_happ_routing S.decode_base64 S.is_json (c ∷ text)) refl
    where
      step :
          ((update_subscription P T S (with_routing P T S (c ∷ text)) >>= λ u.
          reply P T m "Routing обновлен.")
            t).1.file
          ≡ (update_subscription P T S (with_routing P T S (c ∷ text)) t).1.file
      step = effect_of_bind _ _ t λ u v. refl

      stored :
          (r : Result ValidationError ControlPlaneState)
          → load_state S.regex t.file ≡ r
          → is_valid_happ_routing S.decode_base64 S.is_json (c ∷ text) ≡ ok true
          → IsRouted t.file (set_routing P T S m (c ∷ text) t).1.file
      stored (err e) h valid = inl (rw (valid, step, update_subscription-failed _ t e h) refl)
      stored (ok old) h valid =
          inr (c ∷ text, old, valid, h, rw (valid, step, update_subscription-file _ t old h) refl)

      checked :
          (b : Result RoutingError Bool)
          → is_valid_happ_routing S.decode_base64 S.is_json (c ∷ text) ≡ b
          → IsRouted t.file (set_routing P T S m (c ∷ text) t).1.file
      checked (err e) h = inl (rw h refl)
      checked (ok false) h = inl (rw h refl)
      checked (ok true) h = stored (load_state S.regex t.file) refl h

  -- Whoever sends /set_routing and whatever it says, either nothing is written to data.json, or
  -- the sender is an administrator, data.json loaded, and the records that are written are the
  -- loaded ones, which have the values of the variables in place of templates, with a routing that
  -- is valid.
  pub handle_set_routing-valid :
      (m : Message) (s : BotState P T)
      → ((handle_set_routing P T S m s).1.file ≡ s.file)
        ⊎ ((user : User) × (routing : Str) × (old : ControlPlaneState) × (m.from_user ≡ some user)
            × (is_admin S.settings user.id ≡ true)
            × (is_valid_happ_routing S.decode_base64 S.is_json routing ≡ ok true)
            × (load_state S.regex s.file ≡ ok old)
            × ((handle_set_routing P T S m s).1.file
                ≡ record old { subscription = record old.subscription { routing = some routing } }))
  unfolding handle_set_routing IsRouted
  handle_set_routing-valid m s =
      let text = command_argument m.text in
      elim (Option-cases m.from_user) [
        | inl nobody ↦ inl (rw nobody refl)
        | inr (user, from) ↦ elim (Bool-cases (is_admin S.settings user.id)) [
          | inr other ↦ inl (for_others m user s (set_routing P T S m text) from other)
          | inl admin ↦
              let (t, e, run) = for_admin m user s (set_routing P T S m text) from admin in
              elim (set_routing-Routed m text t) [
                | inl same ↦ inl (rw run (same ∙ e))
                | inr (routing, old, valid, loaded, saved) ↦
                    inr (user, routing, old, from, admin, valid, rw e at loaded, rw run saved)
              ]
        ]
      ]
