-- ===== src/Data/Errors.antt =====
-- The validation errors of data/models.py, each with what its message shows.
use vpn_control_panel.Text.{Str}

-- The list of tags that a message is about.
pub data TagList : Type 0 where
  default_client_inbound_tags default_client_abroad_inbound_tags : TagList
  inbound_tags abroad_inbound_tags : Str → TagList

pub data ValidationError : Type 0 where
  -- `Field(min_length=1)`, `Field(ge=1)` and `Field(le=65535)`, of the named field
  too_short too_small too_large : Str → ValidationError
  -- `_strip_nonempty`, with its label
  empty : Str → ValidationError
  reserved_in_name invalid_filter : Str → ValidationError
  duplicate_tag duplicate_subscription : Str → ValidationError
  -- a malformed "@" reference, and one whose pattern is empty
  invalid_reference empty_pattern : Str → ValidationError
  unknown_subscription : Str → Str → ValidationError
  invalid_pattern : Str → ValidationError
  duplicate_in_list unknown_in_list : TagList → Str → ValidationError
