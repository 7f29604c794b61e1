-- ===== src/Regex.antt =====
-- Python's `re`, of which the program uses two calls: whether a pattern compiles, and whether it
-- is found in a text. The engine is not part of the program, so it is an argument.
use vpn_control_panel.Prelude.{Bool}
use vpn_control_panel.Text.{Str}

pub record Regex : Type 0 where
  -- `re.compile(pattern)` does not raise
  pub compiles : Str → Bool
  -- `re.compile(pattern).search(text) is not None`
  pub search_in : Str → Str → Bool
