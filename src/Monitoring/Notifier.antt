-- ===== src/Monitoring/Notifier.antt =====
-- `TelegramAlertNotifier.send_alert` of monitoring/notifier.py. `int` of a text and the sending of a
-- message to a chat are arguments.
use vpn_control_panel.Prelude.{
  List, [], ◌∷◌, Bool, true, false, ◌&&◌, ◌||◌, Option, none, some, ltb, ◌==◌, nat_eq,
  if◌then◌else◌,
}
use vpn_control_panel.Text.{Str}
use vpn_control_panel.Json.{ℤ}
use vpn_control_panel.Action.{Action, pure, ◌>>◌}

-- The order of texts, by code points
abbrev pub before_text : Str → Str → Bool
before_text s [] = false
before_text [] (d ∷ t) = true
before_text (c ∷ s) (d ∷ t) = ltb c d || (c == d && before_text s t)

abbrev insert_text : Str → List Str → List Str
insert_text s [] = s ∷ []
insert_text s (t ∷ ts) =
    let rest = insert_text s ts in if before_text t s then t ∷ rest else s ∷ t ∷ ts

-- `sorted` of texts
abbrev pub sorted : List Str → List Str
sorted [] = []
sorted (s ∷ ss) = insert_text s (sorted ss)

module _ {W : Type 0} (int_of : Str → Option ℤ)
    (send_message : ℤ → Str → Action W Str (Unit {0})) where
  abbrev send_to : Str → Option ℤ → Action W Str (Unit {0})
  send_to message none = pure tt
  send_to message (some admin) = send_message admin message

  -- An id that is no number is skipped; the first delivery that raises ends the loop.
  abbrev send_each : Str → List Str → Action W Str (Unit {0})
  send_each message [] = pure tt
  send_each message (admin ∷ admins) = do send_to message (int_of admin); send_each message admins

  unfoldable pub send_alert : List Str → Str → Action W Str (Unit {0})
  send_alert admin_telegram_ids message = send_each message (sorted admin_telegram_ids)
