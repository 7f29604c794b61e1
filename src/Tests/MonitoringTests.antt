-- ===== src/Tests/MonitoringTests.antt =====
-- Examples of the theorems on monitoring and on the schedule.
use vpn_control_panel.Prelude.{
  ℕ, suc, ◌%◌, ◌<◌, ◌≤◌, ◌⊎◌, List, [], ◌∷◌, ◌≡◌, refl, true, false, none, some, ok, err, map,
  contains, nat_eq, list_eq, pair_eq, if◌then◌else◌,
}
use vpn_control_panel.Text.{Str, codes, strip, strip_by, lstrip, rstrip, is_space, split}
use vpn_control_panel.Text.Decimal.{parse_decimal, decimal_value}
use vpn_control_panel.Dict.{lookup}
use vpn_control_panel.Action.{Action}
use vpn_control_panel.Monitoring.Detectors.{ActiveCondition}
use vpn_control_panel.Monitoring.State.{AlertCandidate, initial, event_key, update, mark_alert_sent}
use vpn_control_panel.Monitoring.State.History.{
  Event, reported, alerted, run_start, last_sent, candidate_key, started, replay, alerts_of,
  update-run_start, update-alerts_of, mark_alert_sent-quiet,
}
use vpn_control_panel.Monitoring.Service.{send_all, delivered, send_all-marks}
use vpn_control_panel.Crons.Expression.{
  no_match, CronFields, parse_cron_expression, parse_field, parse_parts, parse_part, parse_step,
  parse_bounds, parse_int, range_by, words, words_of,
}
use vpn_control_panel.Crons.Expression.Values.{InRange, parse_field-InRange}
use vpn_control_panel.Crons.Next.{Moment, matches, next_within, NoneBetween, next_within-first}
use vpn_control_panel.Tests.Fixtures.{node}

abbrev condition : ActiveCondition
condition = record {
  category = codes "cpu_high";
  title = codes "t";
  observed = none;
  threshold = none;
}

abbrev at_time : ℕ → Event
at_time t = reported (record { node = node; conditions = condition ∷ []; now = t })

abbrev alert : AlertCandidate
alert = record { node = node; condition = condition; active_for = 60 }

abbrev history : List Event
history = alerted alert 70 ∷ at_time 70 ∷ at_time 10 ∷ []

update-run_start_example :
    started (lookup (event_key node condition) (replay 60 3600 history).active)
    ≡ run_start (event_key node condition) history
update-run_start_example = update-run_start 60 3600 history (event_key node condition)

update-alerts_of_example :
    (update node (condition ∷ []) 70 60 3600 (replay 60 3600 (at_time 10 ∷ []))).1
    ≡ alerts_of node 70 60 3600
        (λ key. run_start key (at_time 10 ∷ []))
        (λ key. last_sent key (at_time 10 ∷ []))
        (condition ∷ [])
update-alerts_of_example =
    update-alerts_of 60 3600 (at_time 10 ∷ []) node (condition ∷ []) 70 (refl, tt)

mark_alert_sent-quiet_example :
    contains
      (map candidate_key
        (update node
          (condition ∷ [])
          100
          60
          3600
          (mark_alert_sent alert 70 (replay 60 3600 history))).1)
      (candidate_key alert)
    ≡ false
mark_alert_sent-quiet_example =
    mark_alert_sent-quiet alert 70 (replay 60 3600 history) node (condition ∷ []) 100 60 3600 refl

-- a messenger that counts what it delivers
abbrev count_alert : Str → Action ℕ Str (Unit {0})
count_alert message n = (ok tt, suc n)

send_all-marks_example :
    lookup
      (candidate_key alert)
      (send_all ℕ count_alert (alert ∷ []) 60 70 initial 0).0.last_alert_sent_at
    ≡ (if contains (delivered ℕ count_alert (alert ∷ []) 60 0) (candidate_key alert)
        then some 70
        else lookup (candidate_key alert) initial.last_alert_sent_at)
send_all-marks_example =
    send_all-marks ℕ count_alert (alert ∷ []) 60 70 initial 0 (candidate_key alert)

abbrev weekday_values : List ℕ
weekday_values = 0 ∷ 1 ∷ 3 ∷ []

weekdays_parse : parse_field (codes "1-3/2,7") 0 7 ≡ ok (0 ∷ 1 ∷ 3 ∷ [])
unfolding parse_field parse_parts parse_part parse_step parse_bounds parse_int range_by
    parse_decimal decimal_value split strip strip_by lstrip rstrip is_space
weekdays_parse = refl

parse_field-InRange_example :
    InRange 0 7 weekday_values × (◌≡◌ {A = ℕ} 7 7 → contains weekday_values 7 ≡ false)
parse_field-InRange_example =
    parse_field-InRange (codes "1-3/2,7") 0 7 (0 ∷ 1 ∷ 3 ∷ []) (λ e. refl) weekdays_parse

-- a calendar of one hour that repeats
abbrev hourly : ℕ → Moment
hourly t = record { minute = t % 60; hour = 3; day = 1; month = 1; weekday = 0 }

abbrev fields : CronFields
fields = record {
  minutes = 5 ∷ [];
  hours = 3 ∷ [];
  month_days = 1 ∷ [];
  months = 1 ∷ [];
  weekdays = 1 ∷ [];
}

expression_parses : parse_cron_expression (codes "5 3 1 1 1") ≡ ok fields
unfolding parse_cron_expression words words_of parse_field parse_parts parse_part parse_step
    parse_bounds parse_int range_by parse_decimal decimal_value split strip strip_by lstrip rstrip
    is_space
expression_parses = refl

next_within-first_example :
    ((t : ℕ) × (next_within hourly 60 (codes "5 3 1 1 1") 10 ≡ ok t)
      × (10 < t)
      × (t ≤ 70)
      × (matches (hourly t) fields ≡ true)
      × NoneBetween hourly fields 11 t)
    ⊎ ((next_within hourly 60 (codes "5 3 1 1 1") 10 ≡ err no_match)
        × NoneBetween hourly fields 11 71)
next_within-first_example =
    next_within-first hourly 60 (codes "5 3 1 1 1") 10 fields expression_parses
