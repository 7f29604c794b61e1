-- ===== src/Monitoring/Service.antt =====
-- monitoring/service.py: a node is polled, and the alerts that are due are sent and marked. The
-- status of a node and the delivery of a message are arguments, over an unknown state outside; the
-- polls of one round follow one another here.
use vpn_control_panel.Prelude.{
  ℕ, String, List, [], ◌∷◌, ◌++◌, ◌≡◌, refl, true, Option, none, some, Result, ok, err, arith,
  contains, nat_eq, list_eq, pair_eq, if◌then◌else◌,
}
use vpn_control_panel.Text.{Str, codes, or_default, join}
use vpn_control_panel.Text.Digits.{show_nat}
use vpn_control_panel.Dict.{lookup, lookup-insert}
use vpn_control_panel.Action.{Action}
use vpn_control_panel.Data.Models.{NodeRecord}
use vpn_control_panel.Monitoring.Detectors.{
  Floats, ActiveCondition, XuiNodeStatus, detect_status_conditions, select_monitored_nodes,
  xui_unavailable_condition,
}
use vpn_control_panel.Monitoring.State.{
  EventKey, AlertCandidate, MonitoringAlertState, update, mark_alert_sent,
}
use vpn_control_panel.Monitoring.State.History.{candidate_key}

abbrev detail : String → Option Str → List Str
detail name none = []
detail name (some v) = (codes name ++ v) ∷ []

unfoldable pub format_alert_message : AlertCandidate → ℕ → Str
format_alert_message a duration =
    let node = a.node in
    let name = or_default node.label node.host in
    join (10 ∷ []) (
      codes "🚨🚨🚨🚨"
      ∷ codes "!!! VPN MONITORING ALERT !!!"
      ∷ []
      ∷ (codes "Node " ++ (name ++ codes " needs attention."))
      ∷ (codes "Problem: " ++ a.condition.title)
      ∷ (codes "Node: "
          ++ (name
              ++ (codes " (id "
                  ++ (show_nat node.id
                      ++ (codes ", "
                          ++ (node.host ++ (codes ":" ++ (show_nat node.port ++ codes ")"))))))))
      ∷ (codes "Active for: at least " ++ (show_nat duration ++ codes "s"))
      ∷ (detail "Details: " a.condition.observed
          ++ (detail "Expected: " a.condition.threshold
              ++ ((codes "Event: " ++ a.condition.category) ∷ []))))

pub record Durations : Type 0 where
  pub failure : ℕ
  pub cooldown : ℕ

module _ (World : Type 0) (send_alert : Str → Action World Str (Unit {0})) where
  abbrev after_send :
      Result Str (Unit {0}) → AlertCandidate → ℕ → MonitoringAlertState → MonitoringAlertState
  after_send (ok u) a now s = mark_alert_sent a now s
  after_send (err e) a now s = s

  -- The loop over the candidates: one that cannot be delivered is not marked.
  unfoldable pub send_all :
      List AlertCandidate → ℕ → ℕ → MonitoringAlertState → World → MonitoringAlertState × World
  send_all [] duration now s w = (s, w)
  send_all (a ∷ rest) duration now s w =
      let (sent, w') = send_alert (format_alert_message a duration) w in
      send_all rest duration now (after_send sent a now s) w'

  -- `_deliver_candidates`
  unfoldable pub deliver_candidates :
      Durations
      → NodeRecord
      → List ActiveCondition
      → ℕ
      → MonitoringAlertState
      → World
      → MonitoringAlertState × World
  deliver_candidates d node conditions now s w =
      let (s', candidates) = update node conditions now d.failure d.cooldown s in
      send_all candidates d.failure now s' w

  module _ (F : Floats) (get_status : NodeRecord → Action World Str (XuiNodeStatus F))
      (cpu_limit ram_limit : F.Float) where
    -- What `_poll_node` reports: the conditions of the status, or that there is none.
    abbrev pub conditions_of : Result Str (XuiNodeStatus F) → List ActiveCondition
    conditions_of (ok status) = detect_status_conditions F status cpu_limit ram_limit
    conditions_of (err reason) = xui_unavailable_condition reason ∷ []

    unfoldable pub poll_node :
        Durations → NodeRecord → ℕ → MonitoringAlertState → World → MonitoringAlertState × World
    unfolding deliver_candidates send_all
    poll_node d node now s w =
        let (status, w') = get_status node w in
        deliver_candidates d node (conditions_of status) now s w'

    abbrev poll_all :
        Durations
        → List NodeRecord
        → ℕ
        → MonitoringAlertState
        → World
        → MonitoringAlertState × World
    poll_all d [] now s w = (s, w)
    poll_all d (node ∷ nodes) now s w =
        let (s', w') = poll_node d node now s w in poll_all d nodes now s' w'

    unfoldable pub poll_once :
        Durations
        → List NodeRecord
        → ℕ
        → MonitoringAlertState
        → World
        → MonitoringAlertState × World
    unfolding poll_node select_monitored_nodes
    poll_once d nodes now s w = poll_all d (select_monitored_nodes nodes) now s w

  -- The keys of the alerts that were delivered.
  abbrev delivered_key : Result Str (Unit {0}) → AlertCandidate → List EventKey
  delivered_key (ok u) a = candidate_key a ∷ []
  delivered_key (err e) a = []

  abbrev pub delivered : List AlertCandidate → ℕ → World → List EventKey
  delivered [] duration w = []
  delivered (a ∷ rest) duration w =
      let (sent, w') = send_alert (format_alert_message a duration) w in
      delivered_key sent a ++ delivered rest duration w'

  marked_one :
      (sent : Result Str (Unit {0})) (a : AlertCandidate) (now : ℕ) (s : MonitoringAlertState)
      (key : EventKey)
      → lookup key (after_send sent a now s).last_alert_sent_at ≡ (
          if contains (delivered_key sent a) key then some now else lookup key s.last_alert_sent_at)
  unfolding mark_alert_sent
  marked_one (ok u) a now s key =
      ground (arith, lookup-insert (candidate_key a) key now s.last_alert_sent_at)
  marked_one (err e) a now s key = refl

  both :
      (xs ys : List EventKey) (key : EventKey)
      → contains (xs ++ ys) key ≡ (if contains xs key then true else contains ys key)
  both [] ys key = refl
  both (x ∷ xs) ys key = ground (arith, both xs ys key)

  -- After the candidates of a round were sent, exactly the delivered ones are marked with its
  -- time, whatever the delivery does; an alert that failed leaves its key as it was, so that the
  -- next round tries again.
  pub send_all-marks :
      (rest : List AlertCandidate) (duration now : ℕ) (s : MonitoringAlertState) (w : World)
      (key : EventKey)
      → lookup key (send_all rest duration now s w).0.last_alert_sent_at ≡ (
          if contains (delivered rest duration w) key
          then some now
          else lookup key s.last_alert_sent_at)
  unfolding send_all
  send_all-marks [] duration now s w key = refl
  send_all-marks (a ∷ rest) duration now s w key =
      let message = format_alert_message a duration in
      let sent = (send_alert message w).0 in
      ground (
        arith,
        send_all-marks rest duration now (after_send sent a now s) (send_alert message w).1 key,
        marked_one sent a now s key,
        both (delivered_key sent a) (delivered rest duration (send_alert message w).1) key,
      )
