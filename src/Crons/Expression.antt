-- ===== src/Crons/Expression.antt =====
-- Cron expressions: `_parse_cron_expression`, `_parse_field` and `_parse_int` of crons/base.py. A set
-- of values is a list, read by `contains`. A digit that is no decimal digit, like a superscript,
-- passes `isdigit` and then `int` raises a ValueError; it is an error of `integer_expected` here.
pub mod Values
use vpn_control_panel.Prelude.{
  ℕ, zero, suc, ◌+◌, ◌-◌, List, [], ◌∷◌, ◌++◌, Bool, true, false, not, ◌||◌, ◌&&◌, Option, none,
  some, Result, ok, err, raise_if, ◌>>=◌, ◌>>◌, contains, filter, ltb, leb, ◌==◌, nat_eq, list_eq,
  if◌then◌else◌,
}
use vpn_control_panel.Text.{Str, codes, is_empty, is_space, strip, split, partition}
use vpn_control_panel.Text.Decimal.{parse_decimal}

pub data CronScheduleError : Type 0 where
  five_fields empty_part positive_step integer_expected out_of_range no_match : CronScheduleError

abbrev pub Checked : Type 0 → Type 0
Checked A = Result CronScheduleError A

unfoldable pub parse_int : Str → Checked ℕ
parse_int s = elim (parse_decimal s) [ none ↦ err integer_expected | some n ↦ ok n ]

-- `range(v, last + 1, step)`, on fuel: no more rounds than there are numbers up to `last`.
unfoldable pub range_by : ℕ → ℕ → ℕ → ℕ → List ℕ
range_by zero v last step = []
range_by (suc fuel) v last step =
    let rest = range_by fuel (v + step) last step in if leb v last then v ∷ rest else []

abbrev positive : Option ℕ → Checked ℕ
positive none = err positive_step
positive (some n) = if n == 0 then err positive_step else ok n

-- What stands before and after the "/"; the step is 1 without one.
unfoldable pub parse_step : Str → Checked (Str × ℕ)
parse_step part =
    let (base, slash, step) = partition b'/' part in
    if slash then (do n ← positive (parse_decimal step); ok (base, n)) else ok (part, 1)

unfoldable pub parse_bounds : Str → ℕ → ℕ → Checked (ℕ × ℕ)
unfolding parse_int
parse_bounds base minimum maximum =
    let (first, dash, last) = partition b'-' base in
    if base == codes "*"
    then ok (minimum, maximum)
    else if dash
    then (do a ← parse_int first; b ← parse_int last; ok (a, b))
    else (do a ← parse_int base; ok (a, a))

unfoldable pub parse_part : Str → ℕ → ℕ → Checked (List ℕ)
unfolding parse_step parse_bounds range_by
parse_part part minimum maximum = do
  raise_if (is_empty part) empty_part
  (base, step) ← parse_step part
  (start, end) ← parse_bounds base minimum maximum
  raise_if (ltb start minimum || (ltb maximum end || ltb end start)) out_of_range
  ok (range_by (end + 1 - start) start end step)

unfoldable pub parse_parts : List Str → ℕ → ℕ → Checked (List ℕ)
unfolding parse_part
parse_parts [] minimum maximum = ok []
parse_parts (part ∷ parts) minimum maximum = do
  values ← parse_part (strip part) minimum maximum
  more ← parse_parts parts minimum maximum
  ok (values ++ more)

-- Of the days of the week, 7 is 0.
abbrev pub fold_seven : ℕ → List ℕ → List ℕ
fold_seven maximum values =
    if maximum == 7 && contains values 7 then 0 ∷ filter (λ v. not (v == 7)) values else values

unfoldable pub parse_field : Str → ℕ → ℕ → Checked (List ℕ)
unfolding parse_parts
parse_field field minimum maximum = do
  values ← parse_parts (split b',' field) minimum maximum
  ok (fold_seven maximum values)

-- `str.split()`: the maximal runs of characters that are not white space
abbrev add_word : Str → List Str → List Str
add_word word words = if is_empty word then words else word ∷ words

abbrev split_word : Bool → ℕ → Str × List Str → Str × List Str
split_word true c (word, words) = ([], add_word word words)
split_word false c (word, words) = (c ∷ word, words)

unfoldable pub words_of : Str → Str × List Str
unfolding is_space
words_of [] = ([], [])
words_of (c ∷ s) = split_word (is_space c) c (words_of s)

unfoldable pub words : Str → List Str
unfolding words_of
words s = let (word, rest) = words_of s in add_word word rest

pub record CronFields : Type 0 where
  pub minutes : List ℕ
  pub hours : List ℕ
  pub month_days : List ℕ
  pub months : List ℕ
  pub weekdays : List ℕ

abbrev parse_five : List Str → Checked CronFields
parse_five (a ∷ b ∷ c ∷ d ∷ e ∷ []) = do
  minutes ← parse_field a 0 59
  hours ← parse_field b 0 23
  month_days ← parse_field c 1 31
  months ← parse_field d 1 12
  weekdays ← parse_field e 0 7
  ok (record {
    minutes = minutes;
    hours = hours;
    month_days = month_days;
    months = months;
    weekdays = weekdays;
  })
parse_five _ = err five_fields

unfoldable pub parse_cron_expression : Str → Checked CronFields
unfolding parse_field words strip
parse_cron_expression expression = parse_five (words (strip expression))

unfoldable pub validate_cron_expression : Str → Checked Str
unfolding parse_cron_expression
validate_cron_expression expression = do _ ← parse_cron_expression expression; ok (strip expression)
