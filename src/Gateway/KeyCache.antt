-- ===== src/Gateway/KeyCache.antt =====
-- gateway/src/handler.ts: the verification key, imported once per isolate.
pub mod Laws
use agentic_attribution.Prelude.{
  String, Bool, false, Option, none, some, Throws, ok, throw, str_eq, if◌then◌else◌,
}
use agentic_attribution.Platform.{Platform}
use agentic_attribution.Types.Assertion.{import_verification_key}

-- `cachedKey` and `cachedKeyMaterial`.
pub record KeyCache (Key : Type 0) : Type 0 where
  pub cached_key : Option Key
  pub cached_key_material : Option String

-- `resetKeyCache`, and the state in which an isolate starts.
unfoldable pub reset_key_cache : {Key : Type 0} → KeyCache Key
reset_key_cache = record { cached_key = none; cached_key_material = none }

is_material : Option String → String → Bool
is_material none public_key = false
is_material (some material) public_key = str_eq material public_key

module _ {Key : Type 0} (platform : Platform Key) where
  -- A failed import throws before the cache is written.
  imported : KeyCache Key → String → Throws Key → Throws Key × KeyCache Key
  imported cache public_key (throw e) = (throw e, cache)
  imported cache public_key (ok key) =
      (ok key, record { cached_key = some key; cached_key_material = some public_key })

  cached : KeyCache Key → String → Option Key → Throws Key × KeyCache Key
  unfolding imported is_material
  cached cache public_key none =
      imported cache public_key (import_verification_key platform public_key)
  cached cache public_key (some key) =
      if is_material cache.cached_key_material public_key
      then (ok key, cache)
      else imported cache public_key (import_verification_key platform public_key)

  -- `verificationKey(env)`
  unfoldable pub verification_key : KeyCache Key → String → Throws Key × KeyCache Key
  unfolding cached
  verification_key cache public_key = cached cache public_key cache.cached_key
