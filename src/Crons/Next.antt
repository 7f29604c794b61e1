-- ===== src/Crons/Next.antt =====
-- `next_cron_time` and `_matches` of crons/base.py. Times are minutes of UTC since some start, and the
-- calendar, which is Python's, is an argument; the seconds of `now` are dropped as the code does.
use vpn_control_panel.Prelude.{
  ℕ, zero, suc, ◌+◌, ◌*◌, ◌%◌, ◌≤◌, ◌<◌, ◌==◌, nat_beq_iff, ◌⊎◌, ◌≡◌, refl, Bool, true, false, ◌&&◌,
  Option, none, some, ok, err, arith, contains, nat_eq, Bool-cases, inl, inr, ◌>>=◌, if◌then◌else◌,
}
use vpn_control_panel.Text.{Str}
use vpn_control_panel.Crons.Expression.{Checked, no_match, CronFields, parse_cron_expression}

-- A time of the calendar; Monday is weekday 0.
pub record Moment : Type 0 where
  pub minute : ℕ
  pub hour : ℕ
  pub day : ℕ
  pub month : ℕ
  pub weekday : ℕ

unfoldable pub matches : Moment → CronFields → Bool
matches m f =
    contains f.minutes m.minute
    && (contains f.hours m.hour
        && (contains f.month_days m.day
            && (contains f.months m.month && contains f.weekdays ((m.weekday + 1) % 7))))

module _ (calendar : ℕ → Moment) where
  -- The loop, from a candidate on.
  unfoldable pub search_from : ℕ → ℕ → CronFields → Option ℕ
  search_from zero candidate f = none
  search_from (suc rounds) candidate f =
      let rest = search_from rounds (candidate + 1) f in
      if matches (calendar candidate) f then some candidate else rest

  abbrev pub or_no_match : Option ℕ → Checked ℕ
  or_no_match none = err no_match
  or_no_match (some t) = ok t

  abbrev pub year : ℕ
  year = 366 * 24 * 60

  -- with the number of rounds of the loop first
  unfoldable pub next_within : ℕ → Str → ℕ → Checked ℕ
  unfolding search_from
  next_within rounds expression now = do
    fields ← parse_cron_expression expression
    or_no_match (search_from rounds (now + 1) fields)

  unfoldable pub next_cron_time : Str → ℕ → Checked ℕ
  unfolding next_within
  next_cron_time = next_within year

  abbrev pub NoneBetween : CronFields → ℕ → ℕ → Type 0
  NoneBetween f a t = (u : ℕ) → a ≤ u → u < t → matches (calendar u) f ≡ false

  from_here :
      (f : CronFields) (a t : ℕ)
      → matches (calendar a) f ≡ false
      → NoneBetween f (a + 1) t
      → NoneBetween f a t
  from_here f a t p h u l r = elim (Bool-cases (u == a)) [
    | inl e ↦ rw ((nat_beq_iff u a).0 e) p
    | inr e ↦ h u (ground (arith, nat_beq_iff u a)) r
  ]

  found_first :
      (rounds candidate : ℕ) (f : CronFields) (t : ℕ)
      → search_from rounds candidate f ≡ some t
      → (candidate ≤ t)
        × (t < candidate + rounds)
        × (matches (calendar t) f ≡ true)
        × NoneBetween f candidate t
  unfolding search_from
  found_first zero candidate f t h = cc
  found_first (suc rounds) candidate f t h = elim (Bool-cases (matches (calendar candidate) f)) [
    | inl p ↦
        let same : candidate ≡ t = ground arith in
        (omega arith, omega arith, rw (← same) p, λ u a b. absurd (omega arith))
    | inr p ↦
        let later : search_from rounds (candidate + 1) f ≡ some t = ground arith in
        let (a, b, m, first) = found_first rounds (candidate + 1) f t later in
        (omega arith, omega arith, m, from_here f candidate t p first)
  ]

  none_found :
      (rounds candidate : ℕ) (f : CronFields)
      → search_from rounds candidate f ≡ none
      → NoneBetween f candidate (candidate + rounds)
  unfolding search_from
  none_found zero candidate f h = λ u a b. absurd (omega arith)
  none_found (suc rounds) candidate f h = elim (Bool-cases (matches (calendar candidate) f)) [
    | inl p ↦ absurd (ground arith)
    | inr p ↦
        let rest : search_from rounds (candidate + 1) f ≡ none = ground arith in
        from_here f candidate (candidate + suc rounds) p
          (λ u a b. none_found rounds (candidate + 1) f rest u a (omega arith))
  ]

  outcome :
      (f : CronFields) (now rounds : ℕ) (o : Option ℕ)
      → search_from rounds (now + 1) f ≡ o
      → ((t : ℕ) × (or_no_match o ≡ ok t)
          × (now < t)
          × (t ≤ now + rounds)
          × (matches (calendar t) f ≡ true)
          × NoneBetween f (now + 1) t)
        ⊎ ((or_no_match o ≡ err no_match) × NoneBetween f (now + 1) (now + 1 + rounds))
  outcome f now rounds none h = inr (refl, none_found rounds (now + 1) f h)
  outcome f now rounds (some t) h =
      let (a, b, m, first) = found_first rounds (now + 1) f t h in
      inl (t, refl, omega arith, omega arith, m, first)

  -- For an expression that parses, the loop returns the first minute after the present one that
  -- matches, or it raises, and then no minute in its rounds after the present one matches; with
  -- the rounds of a year this is `next_cron_time`.
  pub next_within-first :
      (rounds : ℕ) (expression : Str) (now : ℕ) (f : CronFields)
      → parse_cron_expression expression ≡ ok f
      → ((t : ℕ) × (next_within rounds expression now ≡ ok t)
          × (now < t)
          × (t ≤ now + rounds)
          × (matches (calendar t) f ≡ true)
          × NoneBetween f (now + 1) t)
        ⊎ ((next_within rounds expression now ≡ err no_match)
            × NoneBetween f (now + 1) (now + 1 + rounds))
  unfolding next_within
  next_within-first rounds expression now f h =
      rw h (outcome f now rounds (search_from rounds (now + 1) f) refl)
