-- ===== src/Gateway/KeyCache/Laws.antt =====
-- The cache is never seen: a key out of it is the key that an import would give.
use agentic_attribution.Prelude.{
  String, Option, none, some, ok, ◌≡◌, refl, arith, eq_iff, true, sym, Bool-cases, inl, inr,
}
use agentic_attribution.Platform.{Platform}
use agentic_attribution.Types.Assertion.{import_verification_key}
use agentic_attribution.Gateway.KeyCache.{
  KeyCache, is_material, reset_key_cache, imported, cached, verification_key,
}

is_material-eq :
    (material : Option String) (public_key : String)
    → is_material material public_key ≡ true
    → material ≡ some public_key
unfolding is_material
is_material-eq none public_key h = ground arith
is_material-eq (some m) public_key h = ground (arith, eq_iff m public_key)

module _ {Key : Type 0} (platform : Platform Key) where
  -- A key that is held was imported from the material beside it.
  abbrev pub IsCoherent : KeyCache Key → Type 0
  IsCoherent c =
      (key : Key) (material : String)
      → c.cached_key ≡ some key
      → c.cached_key_material ≡ some material
      → import_verification_key platform material ≡ ok key

  pub reset-IsCoherent : IsCoherent reset_key_cache
  unfolding reset_key_cache
  reset-IsCoherent key material h k = ground arith

  imported-IsCoherent :
      (c : KeyCache Key) (public_key : String)
      → IsCoherent c
      → IsCoherent (imported platform c public_key (import_verification_key platform public_key)).1
  unfolding imported
  imported-IsCoherent c public_key coherent key material h k = ground (arith, coherent key material)

  cached_lem :
      (c : KeyCache Key) (public_key : String) (held : Option Key)
      → held ≡ c.cached_key
      → IsCoherent c
      → ((cached platform c public_key held).0 ≡ import_verification_key platform public_key)
        × IsCoherent (cached platform c public_key held).1
  unfolding cached
  cached_lem c public_key none h coherent =
      (ground arith, imported-IsCoherent c public_key coherent)
  cached_lem c public_key (some key) h coherent =
      elim (Bool-cases (is_material c.cached_key_material public_key)) [
        | inl same ↦ (
          rw same (sym (coherent key public_key (sym h) (is_material-eq _ public_key same))),
          rw same coherent,
        )
        | inr other ↦
            (rw other (ground arith), rw other (imported-IsCoherent c public_key coherent))
      ]

  -- From a coherent cache, in particular an empty one, the key that is returned is what importing
  -- the configured key would give, a failed import included, and the cache stays coherent.
  pub verification_key_lem :
      (c : KeyCache Key) (public_key : String)
      → IsCoherent c
      → ((verification_key platform c public_key).0 ≡ import_verification_key platform public_key)
        × IsCoherent (verification_key platform c public_key).1
  unfolding verification_key
  verification_key_lem c public_key coherent = cached_lem c public_key c.cached_key refl coherent
