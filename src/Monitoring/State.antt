-- ===== src/Monitoring/State.antt =====
-- MonitoringAlertState of monitoring/state.py. Times are numbers of one unit since some start;
-- where the clock went back a difference is negative in the program and 0 here, which compares
-- alike with the durations, since the settings make these at least one second.
pub mod History
use vpn_control_panel.Prelude.{
  ℕ, ◌-◌, List, [], ◌∷◌, ◌++◌, Bool, true, false, not, ◌&&◌, ◌||◌, Option, none, some, map,
  contains, ltb, ◌==◌, nat_eq, list_eq, pair_eq, if◌then◌else◌,
}
use vpn_control_panel.Text.{Str}
use vpn_control_panel.Dict.{Dict, lookup, insert, erase_if}
use vpn_control_panel.Data.Models.{NodeRecord}
use vpn_control_panel.Monitoring.Detectors.{ActiveCondition}

abbrev pub EventKey : Type 0
EventKey = ℕ × Str

pub record AlertCandidate : Type 0 where
  pub node : NodeRecord
  pub condition : ActiveCondition
  pub active_for : ℕ

pub record ActiveRecord : Type 0 where
  pub first_seen_at : ℕ
  pub last_seen_at : ℕ
  pub condition : ActiveCondition

pub record MonitoringAlertState : Type 0 where
  pub active : Dict EventKey ActiveRecord
  pub last_alert_sent_at : Dict EventKey ℕ

abbrev pub initial : MonitoringAlertState
initial = record { active = []; last_alert_sent_at = [] }

abbrev pub event_key : NodeRecord → ActiveCondition → EventKey
event_key node c = (node.id, c.category)

-- `record`, found or new, after this condition was seen
abbrev pub seen : ℕ → ActiveCondition → Option ActiveRecord → ActiveRecord
seen now c none = record { first_seen_at = now; last_seen_at = now; condition = c }
seen now c (some r) = record r { last_seen_at = now; condition = c }

abbrev pub in_cooldown : ℕ → ℕ → Option ℕ → Bool
in_cooldown now cooldown none = false
in_cooldown now cooldown (some sent) = ltb (now - sent) cooldown

-- The test of the two `continue`s: neither too young nor in the cooldown.
abbrev pub is_due : ℕ → ℕ → ℕ → ℕ → Option ℕ → Bool
is_due now failure_duration cooldown first_seen sent =
    not (ltb (now - first_seen) failure_duration) && not (in_cooldown now cooldown sent)

-- The keys of this node that are no longer reported.
abbrev pub is_gone : NodeRecord → List ActiveCondition → EventKey → Bool
is_gone node conditions key =
    key.0 == node.id && not (contains (map (event_key node) conditions) key)

-- The loop over the conditions.
pub update_conditions :
    NodeRecord
    → ℕ
    → ℕ
    → ℕ
    → Dict EventKey ℕ
    → List ActiveCondition
    → Dict EventKey ActiveRecord
    → Dict EventKey ActiveRecord × List AlertCandidate
update_conditions node now fd cd sent [] active = (active, [])
update_conditions node now fd cd sent (c ∷ cs) active =
    let key = event_key node c in
    let r = seen now c (lookup key active) in
    let (active', candidates) = update_conditions node now fd cd sent cs (insert key r active) in
    let candidate : AlertCandidate = record {
      node = node;
      condition = c;
      active_for = now - r.first_seen_at;
    } in
    (
      active',
      if is_due now fd cd r.first_seen_at (lookup key sent)
          then candidate ∷ candidates
          else candidates,
    )

unfoldable pub update :
    NodeRecord
    → List ActiveCondition
    → ℕ
    → ℕ
    → ℕ
    → MonitoringAlertState
    → MonitoringAlertState × List AlertCandidate
unfolding update_conditions
update node conditions now fd cd s =
    let kept = erase_if (is_gone node conditions) s.active in
    let (active, candidates) =
      update_conditions node now fd cd s.last_alert_sent_at conditions kept in
    (record s { active = active }, candidates)

unfoldable pub mark_alert_sent : AlertCandidate → ℕ → MonitoringAlertState → MonitoringAlertState
mark_alert_sent c now s = record s {
  last_alert_sent_at = insert (event_key c.node c.condition) now s.last_alert_sent_at;
}
