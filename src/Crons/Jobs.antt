-- ===== src/Crons/Jobs.antt =====
-- Which background jobs there are: `App.add_cron_job` and `wire_cron_jobs` of crons/base.py, and
-- crons/geofiles.py and crons/telegram_report.py. Updating the files of one node is an argument,
-- which Xui/Client/Operations models.
use vpn_control_panel.Prelude.{List, [], ◌∷◌, ◌++◌, Bool, Result, ok, err, if◌then◌else◌}
use vpn_control_panel.Text.{Str, codes}
use vpn_control_panel.Regex.{Regex}
use vpn_control_panel.Action.{Action}
use vpn_control_panel.Data.Models.{NodeRecord, ControlPlaneState}
use vpn_control_panel.Data.Errors.{ValidationError}
use vpn_control_panel.Data.Store.{load_nodes}

pub data Handler : Type 0 where
  update_geofiles send_telegram_report : Handler

pub record CronJob : Type 0 where
  pub name : Str
  pub handler : Handler
  pub schedule : Str

pub record JobSettings : Type 0 where
  pub report_telegram_enabled : Bool
  pub report_telegram_schedule : Str
  pub geofiles_update_enabled : Bool
  pub geofiles_update_schedule : Str

unfoldable pub add_cron_job : List CronJob → Handler → Str → Str → List CronJob
add_cron_job jobs handler schedule name =
    jobs ++ (record { name = name; handler = handler; schedule = schedule } ∷ [])

unfoldable pub register_telegram_report : JobSettings → List CronJob → List CronJob
unfolding add_cron_job
register_telegram_report s jobs =
    if s.report_telegram_enabled
    then add_cron_job jobs send_telegram_report s.report_telegram_schedule (codes "Telegram report")
    else jobs

unfoldable pub register_geofiles : JobSettings → List CronJob → List CronJob
unfolding add_cron_job
register_geofiles s jobs =
    if s.geofiles_update_enabled
    then add_cron_job jobs update_geofiles s.geofiles_update_schedule (codes "geofiles update")
    else jobs

unfoldable pub wire_cron_jobs : JobSettings → List CronJob → List CronJob
unfolding register_geofiles register_telegram_report
wire_cron_jobs s jobs = register_geofiles s (register_telegram_report s jobs)

module _ {W : Type 0} (update : NodeRecord → Action W Str (Unit {0})) where
  -- The loop over the nodes; what one raises is logged, and the next has its turn.
  abbrev pub update_each : List NodeRecord → W → W
  update_each [] w = w
  update_each (node ∷ nodes) w = update_each nodes (update node w).1

  abbrev each_loaded :
      Result ValidationError (List NodeRecord) → Action W ValidationError (Unit {0})
  each_loaded (err e) w = (err e, w)
  each_loaded (ok nodes) w = (ok tt, update_each nodes w)

  unfoldable pub update_geofiles_on_all_nodes :
      Regex → ControlPlaneState → Action W ValidationError (Unit {0})
  unfolding load_nodes
  update_geofiles_on_all_nodes regex file = each_loaded (load_nodes regex file)
