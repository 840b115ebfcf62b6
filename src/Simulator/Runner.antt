-- ===== src/Simulator/Runner.antt =====
-- simulator/src/runner.ts: starting and stopping the agents that run at once. A loop is in an
-- attempt, which the module Attempt models, or in the pause behind one.
pub mod Laws
pub mod Stats
pub mod Attempt
use mathlib.Core.Option
use agentic_attribution.Prelude.{
  ℕ, zero, suc, ◌+◌, Bool, true, false, Option, none, some, List, [], ◌∷◌, if◌then◌else◌,
}
use agentic_attribution.Js.Number.{Finite, whole, is_below, is_above, turns}

abbrev pub max_concurrency : ℕ
max_concurrency = 32

-- `#running`, the concurrency of `#options`, and `#active`, split by what the loops wait for.
pub record Runner : Type 0 where
  pub running : Bool
  pub concurrency : Finite
  pub attempting : ℕ
  pub pausing : ℕ

-- The constructor: the concurrency that it is given is not clamped.
abbrev pub new_runner : Option Finite → Runner
new_runner concurrency = record {
  running = false;
  concurrency = elim concurrency [ none ↦ whole 4 | some given ↦ given ];
  attempting = 0;
  pausing = 0;
}

abbrev pub active : Runner → ℕ
active r = r.attempting + r.pausing

-- What happens to a runner: a call of `start`, `configure` or `stop`, the end of an attempt, the end
-- of a pause.
pub data Event : Type 0 where
  start : (concurrency : Option Finite) → Event
  patch : (concurrency : Option Finite) → Event
  stop finish wake : Event

-- `clamp(value, 1, 32)`
clamp : Finite → Finite
clamp value =
    if is_below value 1
    then whole 1
    else if is_above value max_concurrency
    then whole max_concurrency
    else value

unfoldable pub configure : Option Finite → Runner → Runner
unfolding clamp
configure none r = r
configure (some concurrency) r = record r { concurrency = clamp concurrency }

-- `start` behind `configure`: as many loops as the concurrency, each of them at once in an attempt.
unfoldable pub start_loops : Runner → Runner
unfolding turns
start_loops r =
    if r.running
    then r
    else record r { running = true; attempting = r.attempting + turns r.concurrency }

-- The end of an attempt: a loop goes on to its pause, or ends where the runner was stopped.
end_attempt : Runner → ℕ → Option Runner
end_attempt r zero = none
end_attempt r (suc n) = some (
    if r.running
    then record r { attempting = n; pausing = suc r.pausing }
    else record r { attempting = n })

-- The end of a pause: the `while` is tested again.
end_pause : Runner → ℕ → Option Runner
end_pause r zero = none
end_pause r (suc n) = some (
    if r.running
    then record r { attempting = suc r.attempting; pausing = n }
    else record r { pausing = n })

-- One event; none where no loop is there to end its attempt or its pause.
unfoldable pub step : Runner → Event → Option Runner
unfolding start_loops configure end_attempt end_pause
step r (start concurrency) = some (start_loops (configure concurrency r))
step r (patch concurrency) = some (configure concurrency r)
step r stop = some (record r { running = false })
step r finish = end_attempt r r.attempting
step r wake = end_pause r r.pausing

then_run : (Runner → Option Runner) → Option Runner → Option Runner
then_run rest none = none
then_run rest (some r) = rest r

unfoldable pub run : Runner → List Event → Option Runner
unfolding step then_run
run r [] = some r
run r (event ∷ events) = then_run (λ s. run s events) (step r event)
