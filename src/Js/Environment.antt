-- ===== src/Js/Environment.antt =====
-- Variables of the environment, as the services read them at startup.
use Prim.Native.String.{◌++◌}
use agentic_attribution.Prelude.{
  String, none, some, List, Throws, ok, throw, error, str_eq, lookup, if◌then◌else◌,
}
use agentic_attribution.Js.Text.{trim}

-- `process.env[name]?.trim()`, with the empty text and a missing variable alike.
unfoldable pub trimmed : List (String × String) → String → String
trimmed env name = elim (lookup name env) [ none ↦ "" | some value ↦ trim value ]

unfoldable pub required : List (String × String) → String → Throws String
unfolding trimmed
required env name =
    if str_eq (trimmed env name) ""
    then throw (error (name ++ " not set. See docs/RUNNING.md for the local environment."))
    else ok (trimmed env name)

unfoldable pub optional : List (String × String) → (name fallback : String) → String
unfolding trimmed
optional env name fallback = if str_eq (trimmed env name) "" then fallback else trimmed env name
