-- ===== src/Monitoring/Detectors.antt =====
-- monitoring/detectors.py, and `usage_percent` of xui/client.py. Floating-point numbers are an
-- argument: their order, the percentage of two integers, and the format with one decimal.
use vpn_control_panel.Prelude.{
  ℕ, List, [], ◌∷◌, ◌++◌, Bool, Option, none, some, filter, ◌==◌, nat_eq, list_eq, if◌then◌else◌,
}
use vpn_control_panel.Text.{Str, codes, is_empty}
use vpn_control_panel.Data.Models.{NodeRecord}

pub record Floats : Type 1 where
  pub Float : Type 0
  -- `a > b`
  pub exceeds : Float → Float → Bool
  pub zero_percent : Float
  -- `current / total * 100`, for a total above 0
  pub percent : ℕ → ℕ → Float
  -- `f"{a:.1f}"`
  pub format : Float → Str

pub data Category : Type 0 where
  xui_unavailable xray_down cpu_high ram_high : Category

unfoldable pub category_text : Category → Str
category_text xui_unavailable = codes "xui_unavailable"
category_text xray_down = codes "xray_down"
category_text cpu_high = codes "cpu_high"
category_text ram_high = codes "ram_high"

pub record ActiveCondition : Type 0 where
  pub category : Str
  pub title : Str
  pub observed : Option Str
  pub threshold : Option Str

unfoldable pub select_monitored_nodes : List NodeRecord → List NodeRecord
select_monitored_nodes nodes = filter (λ node. node.monitoring) nodes

unfoldable pub xui_unavailable_condition : Str → ActiveCondition
unfolding category_text
xui_unavailable_condition reason = record {
  category = category_text xui_unavailable;
  title = codes "3x-UI panel is unavailable";
  observed = some reason;
  threshold = none;
}

module _ (F : Floats) where
  open F use {Float, exceeds, zero_percent, percent, format}

  pub record XuiNodeStatus : Type 0 where
    pub cpu_percent : Float
    pub memory_current : ℕ
    pub memory_total : ℕ
    pub xray_state : Str
    pub xray_error_message : Str

  unfoldable pub usage_percent : XuiNodeStatus → Float
  usage_percent s =
      if s.memory_total == 0 then zero_percent else percent s.memory_current s.memory_total

  abbrev xray_observed : XuiNodeStatus → Str
  xray_observed s =
      let observed = codes "state=" ++ s.xray_state in
      if is_empty s.xray_error_message
      then observed
      else observed ++ (codes "; error=" ++ s.xray_error_message)

  abbrev percent_text : Float → Str
  percent_text a = format a ++ codes "%"

  abbrev high : Category → Str → Float → Float → List ActiveCondition
  high c title a limit =
      if exceeds a limit
      then record {
        category = category_text c;
        title = title;
        observed = some (percent_text a);
        threshold = some (codes "> " ++ percent_text limit);
      }
        ∷ []
      else []

  unfoldable pub detect_status_conditions : XuiNodeStatus → Float → Float → List ActiveCondition
  unfolding usage_percent category_text
  detect_status_conditions s cpu_limit ram_limit =
      (if s.xray_state == codes "running"
        then []
        else record {
          category = category_text xray_down;
          title = codes "Xray is not running";
          observed = some (xray_observed s);
          threshold = some (codes "running");
        }
          ∷ [])
      ++ (high cpu_high (codes "CPU usage is high") s.cpu_percent cpu_limit
          ++ high ram_high (codes "RAM usage is high") (usage_percent s) ram_limit)
