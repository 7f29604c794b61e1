-- ===== src/Monitoring/State/History.antt =====
-- MonitoringAlertState of monitoring/state.py against the history of the reports: when a condition
-- began, which alerts an update returns, and the cooldown.
use vpn_control_panel.Prelude.{
  ℕ, ◌-◌, List, [], ◌∷◌, ◌≡◌, refl, Bool, true, false, not, ◌&&◌, Option, none, some, arith, map,
  contains, ltb, ◌==◌, nat_eq, list_eq, pair_eq, pair_beq_iff, Distinct, if◌then◌else◌,
}
use vpn_control_panel.Dict.{Dict, lookup, insert, erase_if, lookup-insert, lookup-erase_if}
use vpn_control_panel.Data.Models.{NodeRecord}
use vpn_control_panel.Monitoring.Detectors.{ActiveCondition}
use vpn_control_panel.Monitoring.State.{
  EventKey, AlertCandidate, ActiveRecord, MonitoringAlertState, initial, event_key, seen,
  in_cooldown, is_gone, update_conditions, update, mark_alert_sent,
}

-- One call of `update`.
pub record Report : Type 0 where
  pub node : NodeRecord
  pub conditions : List ActiveCondition
  pub now : ℕ

abbrev pub reports_key : Report → EventKey → Bool
reports_key r key = contains (map (event_key r.node) r.conditions) key

abbrev pub since : ℕ → Option ℕ → ℕ
since now none = now
since now (some t) = t

-- A call that changes the state.
pub data Event : Type 0 where
  reported : Report → Event
  -- `mark_alert_sent`
  alerted : AlertCandidate → ℕ → Event

-- The start of the unbroken run of reports, up to the latest, in which the condition stands: a
-- report of its node without it ends the run, and reports of other nodes do not matter. The latest
-- event comes first.
unfoldable pub run_start : EventKey → List Event → Option ℕ
run_start key [] = none
run_start key (alerted a t ∷ es) = run_start key es
run_start key (reported r ∷ es) =
    let before = run_start key es in
    if reports_key r key
    then some (since r.now before)
    else (if key.0 == r.node.id then none else before)

abbrev pub candidate_key : AlertCandidate → EventKey
candidate_key a = event_key a.node a.condition

-- When the latest alert of this key was sent.
unfoldable pub last_sent : EventKey → List Event → Option ℕ
last_sent key [] = none
last_sent key (alerted a t ∷ es) = if candidate_key a == key then some t else last_sent key es
last_sent key (reported r ∷ es) = last_sent key es

abbrev pub started : Option ActiveRecord → Option ℕ
started none = none
started (some r) = some r.first_seen_at

-- The state after the events, latest first, on a service with these durations.
unfoldable pub replay : ℕ → ℕ → List Event → MonitoringAlertState
replay fd cd [] = initial
replay fd cd (alerted a t ∷ es) = mark_alert_sent a t (replay fd cd es)
replay fd cd (reported r ∷ es) = (update r.node r.conditions r.now fd cd (replay fd cd es)).0

started-seen :
    (now : ℕ) (c : ActiveCondition) (o : Option ActiveRecord)
    → started (some (seen now c o)) ≡ some (since now (started o))
started-seen now c none = refl
started-seen now c (some r) = refl

started-update_conditions :
    (node : NodeRecord) (now fd cd : ℕ) (sent : Dict EventKey ℕ) (cs : List ActiveCondition)
    (active : Dict EventKey ActiveRecord) (key : EventKey)
    → started (lookup key (update_conditions node now fd cd sent cs active).0) ≡ (
        if contains (map (event_key node) cs) key
        then some (since now (started (lookup key active)))
        else started (lookup key active))
unfolding update_conditions
started-update_conditions node now fd cd sent [] active key = refl
started-update_conditions node now fd cd sent (c ∷ cs) active key =
    let k = event_key node c in
    ground (
      arith,
      started-update_conditions node now fd cd sent cs
          (insert k (seen now c (lookup k active)) active) key,
      lookup-insert k key (seen now c (lookup k active)) active,
      pair_beq_iff k key,
      started-seen now c (lookup k active),
    )

-- The state knows of every condition exactly the start of its current unbroken run, and that it
-- does not stand if it has none, whatever the events were.
pub update-run_start :
    (fd cd : ℕ) (history : List Event) (key : EventKey)
    → started (lookup key (replay fd cd history).active) ≡ run_start key history
unfolding replay run_start update mark_alert_sent
update-run_start fd cd [] key = refl
update-run_start fd cd (alerted a t ∷ es) key = update-run_start fd cd es key
update-run_start fd cd (reported r ∷ es) key =
    let s = replay fd cd es in
    ground (
      arith,
      started-update_conditions r.node r.now fd cd s.last_alert_sent_at r.conditions
          (erase_if (is_gone r.node r.conditions) s.active) key,
      lookup-erase_if (is_gone r.node r.conditions) key s.active,
      update-run_start fd cd es key,
    )

replay-last_sent :
    (fd cd : ℕ) (history : List Event) (key : EventKey)
    → lookup key (replay fd cd history).last_alert_sent_at ≡ last_sent key history
unfolding replay last_sent update mark_alert_sent
replay-last_sent fd cd [] key = refl
replay-last_sent fd cd (reported r ∷ es) key = replay-last_sent fd cd es key
replay-last_sent fd cd (alerted a t ∷ es) key = ground (
  arith,
  lookup-insert (candidate_key a) key t (replay fd cd es).last_alert_sent_at,
  replay-last_sent fd cd es key,
)

-- The alerts of a report, from the history before it alone: a condition gives one if its run has
-- lasted `fd` or longer, and none of its alerts was sent less than `cd` ago.
abbrev pub alerts_of :
    NodeRecord
    → ℕ
    → ℕ
    → ℕ
    → (EventKey → Option ℕ)
    → (EventKey → Option ℕ)
    → List ActiveCondition
    → List AlertCandidate
alerts_of node now fd cd start sent [] = []
alerts_of node now fd cd start sent (c ∷ cs) =
    let first = since now (start (event_key node c)) in
    let rest = alerts_of node now fd cd start sent cs in
    if not (ltb (now - first) fd) && not (in_cooldown now cd (sent (event_key node c)))
    then record { node = node; condition = c; active_for = now - first } ∷ rest
    else rest

abbrev Agree :
    NodeRecord → Dict EventKey ActiveRecord → (EventKey → Option ℕ) → List ActiveCondition → Type 0
Agree node active start cs =
    (key : EventKey)
    → contains (map (event_key node) cs) key ≡ true
    → started (lookup key active) ≡ start key

first_seen :
    (now : ℕ) (c : ActiveCondition) (o : Option ActiveRecord)
    → (seen now c o).first_seen_at ≡ since now (started o)
first_seen now c none = refl
first_seen now c (some r) = refl

update_conditions_alerts :
    (node : NodeRecord) (now fd cd : ℕ) (sent : Dict EventKey ℕ)
    (sent_at start : EventKey → Option ℕ) (cs : List ActiveCondition)
    (active : Dict EventKey ActiveRecord)
    → ((key : EventKey) → lookup key sent ≡ sent_at key)
    → Agree node active start cs
    → Distinct (map (event_key node) cs)
    → (update_conditions node now fd cd sent cs active).1
      ≡ alerts_of node now fd cd start sent_at cs
unfolding update_conditions
update_conditions_alerts node now fd cd sent sent_at start [] active q h d = refl
update_conditions_alerts node now fd cd sent sent_at start (c ∷ cs) active q h d =
    let k = event_key node c in
    let r = seen now c (lookup k active) in
    let rest =
      update_conditions_alerts node now fd cd sent sent_at start cs (insert k r active) q
        (λ key p. ground (arith, lookup-insert k key r active, pair_beq_iff k key, h key)) d.1 in
    rw rest
      (rw (first_seen now c (lookup k active), h k (ground (arith, pair_beq_iff k k)), q k) refl)

-- An update after any history returns exactly the alerts that the history calls for, in the order
-- of the conditions, if the conditions reported have distinct categories.
pub update-alerts_of :
    (fd cd : ℕ) (history : List Event) (node : NodeRecord) (conditions : List ActiveCondition)
    (now : ℕ)
    → Distinct (map (event_key node) conditions)
    → (update node conditions now fd cd (replay fd cd history)).1
      ≡ alerts_of node now fd cd
          (λ key. run_start key history)
          (λ key. last_sent key history)
          conditions
unfolding update
update-alerts_of fd cd history node conditions now d =
    let s = replay fd cd history in
    update_conditions_alerts node now fd cd s.last_alert_sent_at (λ key. last_sent key history)
      (λ key. run_start key history) conditions (erase_if (is_gone node conditions) s.active)
      (replay-last_sent fd cd history)
      (λ key p. ground (
        arith,
        lookup-erase_if (is_gone node conditions) key s.active,
        update-run_start fd cd history key,
      ))
      d

quiet :
    (node : NodeRecord) (now fd cd : ℕ) (sent : Dict EventKey ℕ) (cs : List ActiveCondition)
    (active : Dict EventKey ActiveRecord) (key : EventKey) (t : ℕ)
    → lookup key sent ≡ some t
    → ltb (now - t) cd ≡ true
    → contains (map candidate_key (update_conditions node now fd cd sent cs active).1) key ≡ false
unfolding update_conditions
quiet node now fd cd sent [] active key t h k = refl
quiet node now fd cd sent (c ∷ cs) active key t h k =
    let j = event_key node c in
    ground (
      arith,
      quiet node now fd cd sent cs (insert j (seen now c (lookup j active)) active) key t h k,
      pair_beq_iff j key,
    )

-- While the cooldown after `mark_alert_sent` runs, an update of any node returns no alert of the
-- same node and category, whatever it reports.
pub mark_alert_sent-quiet :
    (a : AlertCandidate) (sent_at : ℕ) (s : MonitoringAlertState) (node : NodeRecord)
    (conditions : List ActiveCondition) (now fd cd : ℕ)
    → ltb (now - sent_at) cd ≡ true
    → contains
        (map candidate_key (update node conditions now fd cd (mark_alert_sent a sent_at s)).1)
        (candidate_key a)
      ≡ false
unfolding update mark_alert_sent
mark_alert_sent-quiet a sent_at s node conditions now fd cd h =
    quiet node now fd cd (insert (candidate_key a) sent_at s.last_alert_sent_at) conditions
      (erase_if (is_gone node conditions) s.active) (candidate_key a) sent_at
      (ground (
        arith,
        lookup-insert (candidate_key a) (candidate_key a) sent_at s.last_alert_sent_at,
        pair_beq_iff (candidate_key a) (candidate_key a),
      ))
      h
