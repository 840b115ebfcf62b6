-- ===== src/Simulator/Runner/Laws.antt =====
-- How many loops there are, and that stopping drains them.
use agentic_attribution.Prelude.{
  ℕ, zero, suc, max, ◌+◌, ◌*◌, ◌≤◌, false, Option, none, some, List, [], ◌∷◌, ◌≡◌, inl, inr, refl,
  arith, Option-cases, Bool-cases, ◌∙◌,
}
use agentic_attribution.Js.Number.{Finite, is_below, is_above, turns, turns-le}
use agentic_attribution.Simulator.Runner.{
  Runner, active, Event, start, patch, stop, finish, wake, clamp, configure, start_loops,
  end_attempt, end_pause, step, then_run, run,
}

abbrev pub starts : List Event → ℕ
starts [] = 0
starts (start c ∷ events) = suc (starts events)
starts (patch c ∷ events) = starts events
starts (stop ∷ events) = starts events
starts (finish ∷ events) = starts events
starts (wake ∷ events) = starts events

step-run :
    (r s : Runner) (event : Event) (events : List Event)
    → run r (event ∷ events) ≡ some s
    → (m : Runner) × (step r event ≡ some m) × (run m events ≡ some s)
unfolding run then_run
step-run r s event events h = elim (Option-cases (step r event)) [
  | inl p ↦ absurd (ground (arith, p))
  | inr (m, p) ↦ (m, p, ground (arith, p))
]

clamp-le : (v : Finite) → turns (clamp v) ≤ 32
unfolding clamp turns
clamp-le v = elim (Bool-cases (is_below v 1)) [
  | inl low ↦ rw low (omega arith)
  | inr enough ↦ elim (Bool-cases (is_above v 32)) [
    | inl high ↦ rw (enough, high) (omega arith)
    | inr fits ↦ rw (enough, fits) (turns-le v 32 fits)
  ]
]

configure-le :
    (c : Option Finite) (r : Runner) (b : ℕ)
    → 32 ≤ b
    → turns r.concurrency ≤ b
    → turns (configure c r).concurrency ≤ b
unfolding configure
configure-le none r b cap h = h
configure-le (some v) r b cap h = omega (arith, clamp-le v, cap)

start_loops-le :
    (r : Runner) (b : ℕ)
    → turns r.concurrency ≤ b
    → (active (start_loops r) ≤ active r + b) × (turns (start_loops r).concurrency ≤ b)
unfolding start_loops
start_loops-le r b h = elim (Bool-cases r.running) [
  | inl p ↦ ground (arith, p, h)
  | inr p ↦ ground (arith, p, h)
]

end_attempt-le :
    (r s : Runner) (n : ℕ)
    → n ≡ r.attempting
    → end_attempt r n ≡ some s
    → (active s ≤ active r) × (s.concurrency ≡ r.concurrency)
unfolding end_attempt
end_attempt-le r s zero e h = ground arith
end_attempt-le r s (suc n) e h = elim (Bool-cases r.running) [
  | inl p ↦ ground (arith, p, h, e)
  | inr p ↦ ground (arith, p, h, e)
]

end_pause-le :
    (r s : Runner) (n : ℕ)
    → n ≡ r.pausing
    → end_pause r n ≡ some s
    → (active s ≤ active r) × (s.concurrency ≡ r.concurrency)
unfolding end_pause
end_pause-le r s zero e h = ground arith
end_pause-le r s (suc n) e h = elim (Bool-cases r.running) [
  | inl p ↦ ground (arith, p, h, e)
  | inr p ↦ ground (arith, p, h, e)
]

configure-active : (c : Option Finite) (r : Runner) → active (configure c r) ≡ active r
unfolding configure
configure-active none r = refl
configure-active (some n) r = refl

step-le :
    (r s : Runner) (event : Event) (b : ℕ)
    → 32 ≤ b
    → turns r.concurrency ≤ b
    → step r event ≡ some s
    → (active s ≤ active r + b * starts (event ∷ [])) × (turns s.concurrency ≤ b)
unfolding step
step-le r s (start c) b cap h e =
    let l = start_loops-le (configure c r) b (configure-le c r b cap h) in
    let p : start_loops (configure c r) ≡ s = ground (arith, e) in
    rw (← p) (omega (arith, l.0, configure-active c r), l.1)
step-le r s (patch c) b cap h e =
    let p : configure c r ≡ s = ground (arith, e) in
    rw (← p) (omega (arith, configure-active c r), configure-le c r b cap h)
step-le r s stop b cap h e = ground (arith, e, h)
step-le r s finish b cap h e =
    let l = end_attempt-le r s r.attempting refl e in (omega (arith, l.0), rw l.1 h)
step-le r s wake b cap h e =
    let l = end_pause-le r s r.pausing refl e in (omega (arith, l.0), rw l.1 h)

starts-cons :
    (event : Event) (events : List Event)
    → starts (event ∷ events) ≡ starts (event ∷ []) + starts events
starts-cons (start c) events = omega arith
starts-cons (patch c) events = omega arith
starts-cons stop events = omega arith
starts-cons finish events = omega arith
starts-cons wake events = omega arith

starts_of-cons :
    (b : ℕ) (event : Event) (events : List Event)
    → b * starts (event ∷ events) ≡ b * starts (event ∷ []) + b * starts events
starts_of-cons b event events = rw (starts-cons event events) (grind arith)

run-active_within :
    (r s : Runner) (events : List Event) (b : ℕ)
    → 32 ≤ b
    → turns r.concurrency ≤ b
    → run r events ≡ some s
    → active s ≤ active r + b * starts events
unfolding run
run-active_within r s [] b cap h e = ground (arith, e)
run-active_within r s (event ∷ events) b cap h e =
    let (m, p, q) = step-run r s event events e in
    let (low, next) = step-le r m event b cap h p in
    let rest = run-active_within m s events b cap next q in
    omega (arith, low, rest, starts_of-cons b event events)

-- Over any events, each call of `start` adds at most as many loops as the greater of 32 and the
-- number that the concurrency which the runner begins with asks for, whatever the call itself asks
-- for, and nothing else adds any. A concurrency that the constructor was given is not clamped.
pub run-active_le :
    (r s : Runner) (events : List Event)
    → run r events ≡ some s
    → active s ≤ active r + max 32 (turns r.concurrency) * starts events
run-active_le r s events e =
    run-active_within r s events (max 32 (turns r.concurrency)) (omega arith) (omega arith) e

-- The loops that end, where the runner is stopped.
abbrev pub ends : List Event → ℕ
ends [] = 0
ends (start c ∷ events) = ends events
ends (patch c ∷ events) = ends events
ends (stop ∷ events) = ends events
ends (finish ∷ events) = suc (ends events)
ends (wake ∷ events) = suc (ends events)

end_attempt-drains :
    (r s : Runner) (n : ℕ)
    → n ≡ r.attempting
    → r.running ≡ false
    → end_attempt r n ≡ some s
    → (active s + 1 ≡ active r) × (s.running ≡ false)
unfolding end_attempt
end_attempt-drains r s zero e h q = ground arith
end_attempt-drains r s (suc n) e h q = ground (arith, h, q, e)

end_pause-drains :
    (r s : Runner) (n : ℕ)
    → n ≡ r.pausing
    → r.running ≡ false
    → end_pause r n ≡ some s
    → (active s + 1 ≡ active r) × (s.running ≡ false)
unfolding end_pause
end_pause-drains r s zero e h q = ground arith
end_pause-drains r s (suc n) e h q = ground (arith, h, q, e)

configure-running : (c : Option Finite) (r : Runner) → (configure c r).running ≡ r.running
unfolding configure
configure-running none r = refl
configure-running (some v) r = refl

step-drains :
    (r s : Runner) (event : Event)
    → r.running ≡ false
    → starts (event ∷ []) ≡ 0
    → step r event ≡ some s
    → (active s + ends (event ∷ []) ≡ active r) × (s.running ≡ false)
unfolding step
step-drains r s (start c) h z e = ground (arith, z)
step-drains r s (patch c) h z e =
    let p : configure c r ≡ s = ground (arith, e) in
    rw (← p) (omega (arith, configure-active c r), configure-running c r ∙ h)
step-drains r s stop h z e = ground (arith, e)
step-drains r s finish h z e =
    let d = end_attempt-drains r s r.attempting refl h e in ground (arith, d.0, d.1)
step-drains r s wake h z e =
    let d = end_pause-drains r s r.pausing refl h e in ground (arith, d.0, d.1)

ends-cons :
    (event : Event) (events : List Event) → ends (event ∷ events) ≡ ends (event ∷ []) + ends events
ends-cons (start c) events = omega arith
ends-cons (patch c) events = omega arith
ends-cons stop events = omega arith
ends-cons finish events = omega arith
ends-cons wake events = omega arith

-- Without another call of `start`, a stopped runner ends one loop at each end of an attempt or of a
-- pause: the loops that are left and those that ended are the ones that it had.
pub run-drains :
    (r s : Runner) (events : List Event)
    → r.running ≡ false
    → starts events ≡ 0
    → run r events ≡ some s
    → active s + ends events ≡ active r
unfolding run
run-drains r s [] h z e = ground (arith, e)
run-drains r s (event ∷ events) h z e =
    let (m, p, q) = step-run r s event events e in
    let z₁ : starts (event ∷ []) ≡ 0 = omega (arith, z, starts-cons event events) in
    let z₂ : starts events ≡ 0 = omega (arith, z, starts-cons event events) in
    let (a, b) = step-drains r m event h z₁ p in
    let c = run-drains m s events b z₂ q in omega (arith, a, c, ends-cons event events)
