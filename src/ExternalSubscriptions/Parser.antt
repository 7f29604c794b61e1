-- ===== src/ExternalSubscriptions/Parser.antt =====
-- external_subscriptions/parser.py. Base64 decoding (with UTF-8) and `unquote` are arguments.
use vpn_control_panel.Prelude.{
  ℕ, zero, suc, ◌-◌, ◌%◌, ◌++◌, List, [], ◌∷◌, Bool, not, ◌||◌, Option, none, some, length, filter,
  leb, ◌==◌, ◌&&◌, nat_eq, list_eq, if◌then◌else◌,
}
use vpn_control_panel.Text.{Str, codes, is_empty, is_space, strip, partition, has_substring}

pub record ParsedSubscriptionEntry : Type 0 where
  pub uri : Str
  pub label : Str

-- `str.splitlines` ends a line at these. A line end of two characters and a final one each give an
-- empty line more here, which the loop below skips.
abbrev ends_line : ℕ → Bool
ends_line c =
    (leb 10 c && leb c 13) || ((leb 28 c && leb c 30) || (c == 133 || (c == 8232 || c == 8233)))

abbrev extend : ℕ → List Str → List Str
extend c [] = (c ∷ []) ∷ []
extend c (line ∷ lines) = (c ∷ line) ∷ lines

unfoldable pub lines_of : Str → List Str
lines_of [] = [] ∷ []
lines_of (c ∷ s) = let rest = lines_of s in if ends_line c then [] ∷ rest else extend c rest

abbrev pub scheme_mark : Str
scheme_mark = codes "://"

abbrev pad : ℕ → Str
pad zero = []
pad (suc n) = b'=' ∷ pad n

module _ (decode_base64 : Str → Option Str) (unquote : Str → Str) where
  abbrev decoded_or : Str → Option Str → Str
  decoded_or text none = text
  decoded_or text (some decoded) = if has_substring decoded scheme_mark then decoded else text

  -- `-len(compact) % 4` is the missing length of the last group of four.
  unfoldable pub maybe_base64_decode : Str → Str
  unfolding strip
  maybe_base64_decode body =
      let text = strip body in
      let compact = filter (λ c. not (is_space c)) text in
      if is_empty text || has_substring text scheme_mark
      then text
      else decoded_or text (decode_base64 (compact ++ pad ((4 - length compact % 4) % 4)))

  abbrev line_entry : Str → List ParsedSubscriptionEntry
  line_entry line =
      let (before, separator, fragment) = partition b'#' line in
      let uri = strip before in
      if not (has_substring line scheme_mark) || is_empty uri
      then []
      else record { uri = uri; label = if separator then strip (unquote fragment) else [] } ∷ []

  abbrev parse_lines : List Str → List ParsedSubscriptionEntry
  parse_lines [] = []
  parse_lines (line ∷ lines) = line_entry (strip line) ++ parse_lines lines

  unfoldable pub parse_subscription_body : Str → List ParsedSubscriptionEntry
  unfolding maybe_base64_decode lines_of
  parse_subscription_body body = parse_lines (lines_of (maybe_base64_decode body))
