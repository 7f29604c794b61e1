-- ===== src/Crons/Loop.antt =====
-- The loop of the background jobs: `run_iterations_forever`, `interval_delays` and `_run_cron_loop`
-- of crons/base.py. The loop never returns, so it is a number of rounds, with the trace of what
-- they did and the exception that stopped them, if one did. Times are whole microseconds. An
-- iteration that is cancelled from outside is not modelled.
use vpn_control_panel.Prelude.{
  ℕ, zero, suc, ◌-◌, ◌*◌, ◌/◌, List, [], ◌∷◌, ◌≡◌, refl, Bool, true, false, Option, none, some,
  Result, ok, err, if◌then◌else◌,
}
use vpn_control_panel.Text.{Str}
use vpn_control_panel.Crons.Expression.{CronScheduleError}
use vpn_control_panel.Crons.Next.{Moment, next_cron_time}

-- How an iteration ends: the last two are caught and logged.
pub data Outcome : Type 0 where
  returned timed_out : Outcome
  raised : Str → Outcome

pub data Event : Type 0 where
  slept : ℕ → Event
  finished : Outcome → Event

abbrev pub replicate {ℓ} : {A : Type ℓ} → ℕ → A → List A
replicate zero a = []
replicate (suc n) a = a ∷ replicate n a

-- Each iteration after its delay.
abbrev pub events : List ℕ → List Outcome → List Event
events [] os = []
events (d ∷ ds) [] = []
events (d ∷ ds) (o ∷ os) = slept d ∷ finished o ∷ events ds os

-- A trace, and the exception that ended it.
abbrev pub Trace : Type 0 → Type 0
Trace E = List Event × Option E

module _ {E W : Type 0} where
  abbrev prepend : ℕ → Outcome → Trace E × W → Trace E × W
  prepend delay outcome ((events, end), w) = ((slept delay ∷ finished outcome ∷ events, end), w)

  -- The delay is asked for outside the `try`, so what it raises ends the loop.
  abbrev after_delay : (W → Outcome × W) → (W → Trace E × W) → Result E ℕ × W → Trace E × W
  after_delay iteration rest (err e, w) = (([], some e), w)
  after_delay iteration rest (ok delay, w) =
      let (outcome, w') = iteration w in prepend delay outcome (rest w')

  -- So many rounds of the loop.
  unfoldable pub run_iterations_forever :
      (W → Result E ℕ × W) → (W → Outcome × W) → ℕ → W → Trace E × W
  run_iterations_forever delay iteration zero w = (([], none), w)
  run_iterations_forever delay iteration (suc n) w =
      after_delay iteration (run_iterations_forever delay iteration n) (delay w)

module _ {V : Type 0} where
  -- The state keeps whether the next run is the first.
  unfoldable pub interval_delays : {E : Type 0} → ℕ → Bool × V → Result E ℕ × (Bool × V)
  interval_delays interval (first, v) = (ok (if first then 0 else interval), (false, v))

  abbrev pub beside : (V → Outcome × V) → Bool × V → Outcome × (Bool × V)
  beside iteration (first, v) = let (outcome, v') = iteration v in (outcome, (first, v'))

  -- What the iterations give when each runs on what the one before left.
  abbrev pub outcomes : (V → Outcome × V) → ℕ → V → List Outcome
  outcomes iteration zero v = []
  outcomes iteration (suc n) v =
      let (outcome, v') = iteration v in outcome ∷ outcomes iteration n v'

  later_rounds :
      {E : Type 0} (interval : ℕ) (iteration : V → Outcome × V) (n : ℕ) (v : V)
      → (run_iterations_forever {E = E}
          (interval_delays interval)
          (beside iteration)
          n
          (false, v)).0
        ≡ (events (replicate n interval) (outcomes iteration n v), none)
  unfolding run_iterations_forever interval_delays
  later_rounds interval iteration zero v = refl
  later_rounds {E} interval iteration (suc n) v =
      let (outcome, v') = iteration v in rw (later_rounds {E = E} interval iteration n v') refl

  -- A job with an interval goes on for ever: after any number of rounds it has run as often, at
  -- once and then after every interval, each time on what the run before left, however the runs
  -- ended.
  pub interval_delays-rounds :
      {E : Type 0} (interval : ℕ) (iteration : V → Outcome × V) (n : ℕ) (v : V)
      → (run_iterations_forever {E = E}
          (interval_delays interval)
          (beside iteration)
          (suc n)
          (true, v)).0
        ≡ (events (0 ∷ replicate n interval) (outcomes iteration (suc n) v), none)
  unfolding run_iterations_forever interval_delays
  interval_delays-rounds {E} interval iteration n v =
      let (outcome, v') = iteration v in rw (later_rounds {E = E} interval iteration n v') refl

module _ {W : Type 0} (calendar : ℕ → Moment) (schedule : Str) (now : W → ℕ × W) where
  abbrev pub minute : ℕ
  minute = 60000000

  abbrev until : ℕ → Result CronScheduleError ℕ → Result CronScheduleError ℕ
  until time (ok next) = ok (next * minute - time)
  until time (err e) = err e

  -- The delay of `_run_cron_loop`; `max(0.0, ...)` is the subtraction on ℕ.
  unfoldable pub delay_until_next_run : W → Result CronScheduleError ℕ × W
  unfolding next_cron_time
  delay_until_next_run w =
      let (time, w') = now w in (until time (next_cron_time calendar schedule (time / minute)), w')

  -- `_run_cron_loop`
  unfoldable pub run_cron_loop : (W → Outcome × W) → ℕ → W → Trace CronScheduleError × W
  unfolding run_iterations_forever delay_until_next_run
  run_cron_loop handler = run_iterations_forever delay_until_next_run handler

  -- A job whose schedule has no time within a year stops for good, without a further run, at the
  -- first round that finds it so.
  pub run_cron_loop-stops :
      (handler : W → Outcome × W) (n : ℕ) (w : W) (e : CronScheduleError)
      → next_cron_time calendar schedule ((now w).0 / minute) ≡ err e
      → run_cron_loop handler (suc n) w ≡ (([], some e), (now w).1)
  unfolding run_cron_loop delay_until_next_run run_iterations_forever
  run_cron_loop-stops handler n w e h = rw h refl
