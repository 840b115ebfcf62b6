-- ===== src/Tests/Runner.antt =====
-- A runner that is started, stopped and started again.
use agentic_attribution.Prelude.{
  ◌+◌, ◌*◌, ◌≤◌, ℕ, true, false, none, some, [], ◌∷◌, ◌≡◌, refl, ok, returns, inl,
}
use agentic_attribution.Js.Json.{Json, null, str, obj, end, member, property, read}
use agentic_attribution.Js.Integer.{pos}
use agentic_attribution.Js.Number.{whole, turns, not_finite}
use agentic_attribution.Js.Text.{trim}
use agentic_attribution.Simulator.Fraud.{pick_fraud_mode, element, expected_rejection}
use agentic_attribution.Simulator.Agent.{select_cheapest_in_stock}
use agentic_attribution.Simulator.Requests.{done, agent_error}
use agentic_attribution.Simulator.Runner.Attempt.{
  AgentCalls, counted, empty_stats, Draws, drawn_mode, tallied, record_reason, reason_of, journey,
  run_once,
}
use agentic_attribution.Simulator.Runner.{
  Runner, new_runner, start, stop, finish, wake, active, step, configure, run,
}
use agentic_attribution.Platform.{Platform}
use agentic_attribution.Simulator.Driver.{Driver, Request, ensure_publishers, read_body, serve}
use agentic_attribution.Simulator.Driver.Laws.{null_body-throws}
use agentic_attribution.Tests.Edge.{platform}
use agentic_attribution.Simulator.Runner.Laws.{run-active_le, run-drains}

abbrev idle : Runner
idle = record { running = false; concurrency = whole 4; attempting = 0; pausing = 0 }

abbrev doubled : Runner
doubled = record { running = true; concurrency = whole 32; attempting = 64; pausing = 0 }

-- The loops of the first start are still in their attempts when the second one adds its own.
doubled_test :
    run idle (start (some (whole 99)) ∷ stop ∷ start (some (whole 99)) ∷ []) ≡ some doubled
unfolding run step configure turns
doubled_test = refl

run-active_le_example : active doubled ≤ active idle + 32 * 2
unfolding run step configure turns
run-active_le_example =
    run-active_le idle doubled (start (some (whole 99)) ∷ stop ∷ start (some (whole 99)) ∷ []) refl

-- 100 is not clamped, nor is 5 / 2, of which the loop makes 3.
unclamped_test :
    run (new_runner (some (whole 100))) (start none ∷ [])
    ≡ some (record { running = true; concurrency = whole 100; attempting = 100; pausing = 0 })
unfolding run step configure turns
unclamped_test = refl

fraction_test : turns (record { numerator = pos 5; below_denominator = 1 }) ≡ 3
unfolding turns
fraction_test = refl

abbrev stopped : Runner
stopped = record { running = false; concurrency = whole 4; attempting = 1; pausing = 1 }

run-drains_example : active idle + 2 ≡ active stopped
unfolding run step
run-drains_example = run-drains stopped idle (finish ∷ wake ∷ []) refl refl refl

abbrev refusal : Json
refusal = obj (member "reason" (str " assertion_expired ") end)

-- Agents whose every purchase is refused as expired.
abbrev calls : AgentCalls
calls = record {
  search = λ query publisher_id. done (record {
    search_request_id = "s";
    products =
        record {
          product_id = "p1";
          canonical_title = "One";
          offers =
              record {
                listing_id = "l1";
                merchant_id = "m1";
                price_cents = pos 2;
                in_stock = true;
                commission_bps = 500;
              }
              ∷ [];
        }
        ∷ [];
    assertions =
        record {
          assertion_id = "a1";
          publisher_id = "pub_000001";
          product_id = "p1";
          search_request_id = "s";
          issued_at = "now";
          expires_at = "later";
          commission_bps = 500;
          signature = "ed25519:s";
        }
        ∷ [];
  });
  request_challenge = λ product_id. done (obj end);
  sign_authorization = λ requirements. done (obj end);
  complete_purchase = λ product_id assertion payment. agent_error "purchase rejected" 401 refusal;
}

abbrev draws : Draws
draws = record { publisher = 0; query = 0; fraudulent = true; mode = λ n. 2 }

attempts : Unit {0}
unfolding run_once pick_fraud_mode element drawn_mode select_cheapest_in_stock journey reason_of
    record_reason tallied trim property read expected_rejection
attempts = tt

-- A fraud that is refused for the expected reason.
refused_fraud :
    (run_once
      (λ v. ok "1.00")
      (λ n. "earlier")
      calls
      ("pub_000001" ∷ [])
      ("hat" ∷ [])
      draws
      empty_stats).stats
    ≡ record {
      started = 1;
      settled = 0;
      blocked = 1;
      failed = 0;
      last_event = "blocked expired on pub_000001 (assertion_expired)";
      by_reason = ("assertion_expired", counted 1) ∷ [];
    }
unfolding attempts
refused_fraud = refl

abbrev driver : Driver
driver = record {
  runner = idle;
  stats = empty_stats;
  publisher_ids = "pub_000001" ∷ [];
  publishers_loaded = true;
}

abbrev null_start : Request
null_start = record { method = "POST"; pathname = "/start"; stream = (b'N' ∷ []) ∷ [] }

-- A platform on which the letter N is the text of null.
abbrev reads_null : Platform ℕ
reads_null = record platform { parse_json = λ s. some null }

null_body-throws_example :
    let a =
      serve reads_null
        (λ v. ok not_finite)
        (λ v. ok "1.00")
        (λ n. "earlier")
        ("hat" ∷ [])
        calls
        draws
        (ok [])
        null_start
        driver in
    (returns a.reply ≡ false) × (a.driver.runner ≡ driver.runner) × (a.driver.stats ≡ driver.stats)
unfolding ensure_publishers read_body
null_body-throws_example =
    null_body-throws reads_null (λ v. ok not_finite) (λ v. ok "1.00") (λ n. "earlier") ("hat" ∷ [])
      calls draws (ok []) null_start driver driver refl (inl refl) refl refl
