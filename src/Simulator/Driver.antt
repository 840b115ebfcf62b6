-- ===== src/Simulator/Driver.antt =====
-- simulator/src/driver.ts: the server that starts, stops and fires the runner. A fraud rate is read
-- and not kept: whether a run is fraudulent is part of what it draws.
pub mod Laws
use agentic_attribution.Prelude.{
  ℕ, String, Bool, true, false, ◌&&◌, ◌||◌, Option, none, some, List, [], ◌∷◌, Throws, ok, throw,
  Exception, error, message, str_eq, if◌then◌else◌, ◌>>=◌,
}
use agentic_attribution.Js.Json.{Json, obj, end, read}
use agentic_attribution.Js.Number.{Finite, Number, finite, not_finite}
use agentic_attribution.Js.Stream.{join_chunks}
use agentic_attribution.Platform.{Platform}
use agentic_attribution.Simulator.Runner.{Runner, configure, start_loops}
use agentic_attribution.Simulator.Runner.Attempt.{AgentCalls, RunnerStats, Attempt, Draws, run_once}

-- `runner` and `publishersLoaded`: the loops, the counters, and the publishers among the options.
pub record Driver : Type 0 where
  pub runner : Runner
  pub stats : RunnerStats
  pub publisher_ids : List String
  pub publishers_loaded : Bool

pub record Request : Type 0 where
  pub method : String
  pub pathname : String
  pub stream : List (List ℕ)

pub data Reply : Type 0 where
  healthy : Reply
  status : (running : Bool) → RunnerStats → Reply
  unavailable : (problem : String) → Reply
  not_found : Reply

-- One request as it is answered; what is thrown is caught by nobody and ends the process.
pub record Answered : Type 0 where
  pub driver : Driver
  pub reply : Throws Reply

-- `ensurePublishers`; `publishers` is what the settlement service lists, or the failure.
unfoldable pub ensure_publishers : (publishers : Throws (List String)) → Driver → Throws Driver
ensure_publishers publishers driver =
    if driver.publishers_loaded then ok driver else loaded publishers
  where
    loaded : Throws (List String) → Throws Driver
    loaded (throw e) = throw e
    loaded (ok []) = throw (error "no publishers in the catalog; run make seed first")
    loaded (ok (id ∷ ids)) =
        ok (record driver { publisher_ids = id ∷ ids; publishers_loaded = true })

-- The routes of the server; `begin true` is `/once`, `begin false` is `/start`.
pub data Route : Type 0 where
  health report halt missing : Route
  begin : (once : Bool) → Route

route : (method pathname : String) → Route
route method pathname =
    if str_eq method "GET" && str_eq pathname "/healthz"
    then health
    else if str_eq method "GET" && str_eq pathname "/status"
    then report
    else if str_eq method "POST" && str_eq pathname "/start"
    then begin false
    else if str_eq method "POST" && str_eq pathname "/once"
    then begin true
    else if str_eq method "POST" && str_eq pathname "/stop"
    then halt
    else missing

abbrev current : Driver → Reply
current driver = status driver.runner.running driver.stats

-- `runner.configure(patch)`
configured : Option Finite → Driver → Driver
configured concurrency driver = record driver { runner = configure concurrency driver.runner }

-- `runner.start(patch)`; a runner that runs is only configured.
started : Option Finite → Driver → Driver
unfolding start_loops configure
started concurrency driver =
    if driver.runner.running
    then record driver { runner = configure concurrency driver.runner }
    else record driver {
      runner = start_loops (configure concurrency driver.runner);
      stats = record driver.stats { last_event = "started" };
    }

-- `runner.stop()`
stopped : Driver → Driver
stopped driver = record driver {
  runner = record driver.runner { running = false };
  stats = record driver.stats { last_event = "stopped" };
}

finite_number : Number → Option Finite
finite_number (finite v) = some v
finite_number not_finite = none

-- `number` is the language's `Number(value)`, which throws on an object without a primitive value.
module _ {Key : Type 0} (platform : Platform Key) (number : Option Json → Throws Number)
    (two_places : Option Json → Throws String) (hours_ago : ℕ → String)
    (queries : List String) where
  open platform use {buffer_text, parse_json}

  -- `readBody`: no body, and one that is no JSON, are the empty object.
  unfoldable pub read_body : List (List ℕ) → Json
  unfolding join_chunks
  read_body [] = obj end
  read_body (chunk ∷ chunks) = elim (parse_json (buffer_text (join_chunks (chunk ∷ chunks)))) [
    | none ↦ obj end
    | some body ↦ body
  ]

  number_or : Option Json → Throws (Option Finite)
  unfolding finite_number
  number_or value = do parsed ← number value; ok (finite_number parsed)

  -- The `patch`, as far as it concerns the concurrency.
  unfoldable pub patch_of : Json → Throws (Option Finite)
  unfolding number_or
  patch_of body = do
    concurrency ← read (some body) "concurrency"
    wanted ← number_or concurrency
    fraud_rate ← read (some body) "fraud_rate"
    rate ← number_or fraud_rate
    ok wanted

  -- `/once` and `/start`, behind the reading of the patch.
  fire : AgentCalls → Draws → Option Finite → Driver → Answered
  unfolding configured
  fire calls draws concurrency driver =
      let set = configured concurrency driver in
      let a = run_once two_places hours_ago calls set.publisher_ids queries draws set.stats in
      let after = record set { stats = a.stats } in
      record {
        driver = after;
        reply = elim a.escaped [ none ↦ ok (current after) | some e ↦ throw e ];
      }

  go : AgentCalls → Draws → (once : Bool) → Throws (Option Finite) → Driver → Answered
  unfolding fire started
  go calls draws once (throw e) driver = record { driver = driver; reply = throw e }
  go calls draws once (ok concurrency) driver =
      if once
      then fire calls draws concurrency driver
      else let after = started concurrency driver in
        record { driver = after; reply = ok (current after) }

  ensured : AgentCalls → Draws → (once : Bool) → Json → Driver → Throws Driver → Answered
  unfolding go patch_of
  ensured calls draws once body driver (throw e) = record {
    driver = driver;
    reply = ok (unavailable (message e));
  }
  ensured calls draws once body driver (ok ready) = go calls draws once (patch_of body) ready

  dispatch :
      AgentCalls → Draws → (publishers : Throws (List String)) → Request → Driver → Route → Answered
  unfolding ensured ensure_publishers read_body stopped
  dispatch calls draws publishers request driver health = record {
    driver = driver;
    reply = ok healthy;
  }
  dispatch calls draws publishers request driver report = record {
    driver = driver;
    reply = ok (current driver);
  }
  dispatch calls draws publishers request driver (begin once) =
      ensured calls draws once (read_body request.stream) driver
        (ensure_publishers publishers driver)
  dispatch calls draws publishers request driver halt = record {
    driver = stopped driver;
    reply = ok (current (stopped driver));
  }
  dispatch calls draws publishers request driver missing = record {
    driver = driver;
    reply = ok not_found;
  }

  unfoldable pub serve :
      AgentCalls → Draws → (publishers : Throws (List String)) → Request → Driver → Answered
  unfolding dispatch route
  serve calls draws publishers request driver =
      dispatch calls draws publishers request driver (route request.method request.pathname)
