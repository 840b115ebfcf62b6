-- ===== src/Simulator/Driver/Laws.antt =====
-- What the driver keeps, and what it answers where it cannot start.
use agentic_attribution.Prelude.{
  ℕ, String, Bool, true, false, Option, List, [], ◌∷◌, Throws, ok, throw, returns, ◌≡◌, ◌≢◌, ◌⊎◌,
  inl, inr, refl, arith, Bool-cases,
}
use agentic_attribution.Js.Json.{Json, null, read}
use agentic_attribution.Js.Number.{Finite, Number}
use agentic_attribution.Platform.{Platform}
use agentic_attribution.Simulator.Runner.Attempt.{AgentCalls, Draws}
use agentic_attribution.Simulator.Driver.{
  Driver, Request, ensure_publishers, configured, started, stopped, read_body, patch_of, fire, go,
  ensured, Route, health, report, halt, missing, begin, route, dispatch, serve,
}

-- Publishers that are said to be loaded are some.
pub record IsLoaded (driver : Driver) : Type 0 where
  pub filled : driver.publishers_loaded ≡ true → driver.publisher_ids ≢ []

-- The same publishers.
record Keeps (before after : Driver) : Type 0 where
  ids : after.publisher_ids ≡ before.publisher_ids
  loaded : after.publishers_loaded ≡ before.publishers_loaded

Keeps-IsLoaded : (before after : Driver) → Keeps before after → IsLoaded before → IsLoaded after
Keeps-IsLoaded before after k h = record { filled = rw (k.ids, k.loaded) h.filled }

ensure_publishers-IsLoaded :
    (publishers : Throws (List String)) (driver ready : Driver)
    → IsLoaded driver
    → ensure_publishers publishers driver ≡ ok ready
    → IsLoaded ready
unfolding ensure_publishers
ensure_publishers-IsLoaded (throw e) driver ready h p = record { filled = ground (arith, h.filled) }
ensure_publishers-IsLoaded (ok []) driver ready h p = record { filled = ground (arith, h.filled) }
ensure_publishers-IsLoaded (ok (id ∷ ids)) driver ready h p = record {
  filled = ground (arith, h.filled);
}

ensure_publishers-runner :
    (publishers : Throws (List String)) (driver ready : Driver)
    → ensure_publishers publishers driver ≡ ok ready
    → (ready.runner ≡ driver.runner) × (ready.stats ≡ driver.stats)
unfolding ensure_publishers
ensure_publishers-runner (throw e) driver ready p = ground arith
ensure_publishers-runner (ok []) driver ready p = ground arith
ensure_publishers-runner (ok (id ∷ ids)) driver ready p = ground arith

started-Keeps :
    (concurrency : Option Finite) (driver : Driver) → Keeps driver (started concurrency driver)
unfolding started
started-Keeps concurrency driver = elim (Bool-cases driver.runner.running) [
  | inl p ↦ record { ids = rw p refl; loaded = rw p refl }
  | inr p ↦ record { ids = rw p refl; loaded = rw p refl }
]

module _ {Key : Type 0} (platform : Platform Key) (number : Option Json → Throws Number)
    (two_places : Option Json → Throws String) (hours_ago : ℕ → String) (queries : List String)
    (calls : AgentCalls) (draws : Draws) where
  go-Keeps :
      (once : Bool) (concurrency : Throws (Option Finite)) (driver : Driver)
      → Keeps driver
          (go platform number two_places hours_ago queries calls draws once concurrency
            driver).driver
  unfolding go fire configured
  go-Keeps once (throw e) driver = record { ids = refl; loaded = refl }
  go-Keeps true (ok concurrency) driver = record { ids = refl; loaded = refl }
  go-Keeps false (ok concurrency) driver = started-Keeps concurrency driver

  ensured-IsLoaded :
      (once : Bool) (body : Json) (driver : Driver) (ready : Throws Driver)
      → IsLoaded driver
      → ((d : Driver) → ready ≡ ok d → IsLoaded d)
      → IsLoaded
          (ensured platform number two_places hours_ago queries calls draws once body driver
            ready).driver
  unfolding ensured
  ensured-IsLoaded once body driver (throw e) h r = h
  ensured-IsLoaded once body driver (ok ready) h r =
      Keeps-IsLoaded ready _
        (go-Keeps once (patch_of platform number two_places hours_ago queries body) ready)
        (r ready refl)

  dispatch-IsLoaded :
      (publishers : Throws (List String)) (request : Request) (driver : Driver) (r : Route)
      → IsLoaded driver
      → IsLoaded
          (dispatch platform number two_places hours_ago queries calls draws publishers request
            driver r).driver
  unfolding dispatch stopped
  dispatch-IsLoaded publishers request driver health h = h
  dispatch-IsLoaded publishers request driver report h = h
  dispatch-IsLoaded publishers request driver (begin once) h =
      ensured-IsLoaded once _ driver (ensure_publishers publishers driver) h
        (λ ready. ensure_publishers-IsLoaded publishers driver ready h)
  dispatch-IsLoaded publishers request driver halt h = record { filled = h.filled }
  dispatch-IsLoaded publishers request driver missing h = h

  -- Whatever request the driver answers, of a driver whose publishers are some if it says that they
  -- are loaded, the driver after it is such a driver again.
  pub serve-IsLoaded :
      (publishers : Throws (List String)) (request : Request) (driver : Driver)
      → IsLoaded driver
      → IsLoaded
          (serve platform number two_places hours_ago queries calls draws publishers request
            driver).driver
  unfolding serve
  serve-IsLoaded publishers request driver h =
      dispatch-IsLoaded publishers request driver (route request.method request.pathname) h

  -- A start or a single run whose body is the JSON value null, where the publishers are loaded or can
  -- be: what it throws is caught by nobody, and no loop is started and nothing counted.
  pub null_body-throws :
      (publishers : Throws (List String)) (request : Request) (driver ready : Driver)
      → request.method ≡ "POST"
      → (request.pathname ≡ "/start") ⊎ (request.pathname ≡ "/once")
      → ensure_publishers publishers driver ≡ ok ready
      → read_body platform number two_places hours_ago queries request.stream ≡ null
      → let a =
          serve platform number two_places hours_ago queries calls draws publishers request
            driver in
        (returns a.reply ≡ false)
        × (a.driver.runner ≡ driver.runner)
        × (a.driver.stats ≡ driver.stats)
  unfolding serve ensured go patch_of read
  null_body-throws publishers request driver ready m p f b =
      let (r, s) = ensure_publishers-runner publishers driver ready f in
      elim p [ inl q ↦ rw (m, q, f, b) (refl, r, s) | inr q ↦ rw (m, q, f, b) (refl, r, s) ]
