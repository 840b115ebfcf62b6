-- ===== src/Simulator/Runner/Stats.antt =====
-- simulator/src/runner.ts: the counters of the runner, and the reason of a refusal.
use Prim.Native.String.{◌++◌}
use agentic_attribution.Prelude.{
  ℕ, suc, String, Option, none, some, List, [], ◌∷◌, Throws, ok, throw, type_error, str_eq,
  includes, if◌then◌else◌, ◌>>=◌,
}
use agentic_attribution.Js.Json.{Json, null, bool, num, str, arr, obj, property}
use agentic_attribution.Js.Decimal.{to_string}
use agentic_attribution.Js.Text.{trim}
use agentic_attribution.Types.Eip3009.{object_prototype_keys}

-- What stands under a key of `byReason`. Under a key that every object inherits, `?? 0` finds a value
-- that is no number, and adding one to it makes a text.
pub data Tally : Type 0 where
  counted : ℕ → Tally
  garbled : Tally

-- The counters of `RunnerStats`.
pub record RunnerStats : Type 0 where
  pub started : ℕ
  pub settled : ℕ
  pub blocked : ℕ
  pub failed : ℕ
  pub last_event : String
  pub by_reason : List (String × Tally)

-- `#emptyStats`
abbrev pub empty_stats : RunnerStats
empty_stats = record {
  started = 0;
  settled = 0;
  blocked = 0;
  failed = 0;
  last_event = "idle";
  by_reason = [];
}

incremented : Tally → Tally
incremented (counted n) = counted (suc n)
incremented garbled = garbled

-- A new key. Assigning a text to `__proto__` does nothing.
first_tally : String → List (String × Tally)
first_tally reason =
    if str_eq reason "__proto__"
    then []
    else if includes object_prototype_keys reason
    then (reason, garbled) ∷ []
    else (reason, counted 1) ∷ []

unfoldable pub tallied : String → List (String × Tally) → List (String × Tally)
unfolding incremented first_tally
tallied reason [] = first_tally reason
tallied reason ((key, tally) ∷ rest) =
    let others = tallied reason rest in
    if str_eq key reason then (key, incremented tally) ∷ rest else (key, tally) ∷ others

-- `#record`
unfoldable pub record_reason : String → RunnerStats → RunnerStats
unfolding tallied
record_reason reason stats = record stats { by_reason = tallied reason stats.by_reason }

-- `error.body?.reason?.trim()`; a reason that is no text has no `trim`.
trimmed_reason : Option Json → Throws String
unfolding trim
trimmed_reason none = ok ""
trimmed_reason (some null) = ok ""
trimmed_reason (some (str s)) = ok (trim s)
trimmed_reason (some (bool b)) = throw (type_error "body?.reason?.trim is not a function")
trimmed_reason (some (num n)) = throw (type_error "body?.reason?.trim is not a function")
trimmed_reason (some (arr items)) = throw (type_error "body?.reason?.trim is not a function")
trimmed_reason (some (obj members)) = throw (type_error "body?.reason?.trim is not a function")

-- `reasonOf`, of the status and the body of an `AgentError`.
unfoldable pub reason_of : (status : ℕ) (body : Json) → Throws String
unfolding trimmed_reason
reason_of status body = do
  reason ← trimmed_reason (property body "reason")
  ok (if str_eq reason "" then "http_" ++ to_string status else reason)
