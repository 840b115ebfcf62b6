-- ===== src/Facilitator/Verify/Totality.antt =====
-- When verification throws instead of answering. The request is one that `validateRequest` passed.
use mathlib.Core.Option
use agentic_attribution.Prelude.{
  String, true, false, Option, none, some, ok, ◌≡◌, inl, inr, refl, arith, includes, >>=-eq-ok,
  str_eq, returns, Throws-cases,
}
use agentic_attribution.Js.Json.{Json, str, as_string, property, value_text}
use agentic_attribution.Js.Json.Laws.{str-strict_equal}
use agentic_attribution.Js.Integer.{ℤ}
use agentic_attribution.Types.Eip3009.{
  Eip712Domain, Eip3009Message, eip712_domain, to_typed_message, object_prototype_keys,
  base_sepolia, network_parameters,
}
use agentic_attribution.Types.Eip3009.Laws.{eip712_domain-own, eip712_domain-inherited}
use agentic_attribution.Facilitator.Request.{FacilitatorRequest}
use agentic_attribution.Facilitator.Request.Laws.{IsValidated}
use agentic_attribution.Facilitator.Verify.{
  Chain, lower_operand, typed_data, same_address, check_required, check_payee, check_asset,
  verify_payment,
}

abbrev base_sepolia_domain : Eip712Domain
base_sepolia_domain = record {
  name = some base_sepolia.domain_name;
  version = some base_sepolia.domain_version;
  chain_id = some base_sepolia.chain_id;
  verifying_contract = some base_sepolia.usdc_address;
}

module _ (chain : Chain) where
  same_address-returns :
      (left right : Option Json) (l r : String)
      → left ≡ some (str l)
      → right ≡ some (str r)
      → returns (same_address chain left right) ≡ true
  unfolding same_address
  same_address-returns left right l r p q = rw (p, q)

  same_address-throws :
      (left right : Option Json)
      → as_string left ≡ none
      → returns (same_address chain left right) ≡ false
  unfolding same_address lower_operand
  same_address-throws left right h = ground arith

  module _ {body : Json} (r : FacilitatorRequest) (v : IsValidated body r) (now : ℤ) where
    open r use {payment_payload as payload, authorization, payment_requirements as requirements}

    check_required-returns :
        (m : Eip3009Message) (d : Eip712Domain)
        → returns (check_required chain payload requirements m d now) ≡ true
    unfolding check_required
    check_required-returns m d = ground (arith, v.amount_is)

    module _ (to : String) (pays : property authorization "to" ≡ some (str to)) where
      check_payee-returns :
          (m : Eip3009Message) (d : Eip712Domain)
          → returns (check_payee chain payload authorization requirements m d now) ≡ true
      unfolding check_payee
      check_payee-returns m d = ground (
        arith,
        same_address-returns (property authorization "to") (property requirements "payTo") to
            v.pay_to pays v.pay_to_is,
        check_required-returns m d,
      )

      check_asset-returns :
          (m : Eip3009Message) (d : Eip712Domain) (c : String)
          → d.verifying_contract ≡ some c
          → returns (check_asset chain payload authorization requirements m d now) ≡ true
      unfolding check_asset
      check_asset-returns m d c e = ground (
        arith,
        same_address-returns (property requirements "asset") (Option.map str d.verifying_contract)
            v.asset c v.asset_is,
        check_payee-returns m d,
      )

      typed_data-contract :
          (m : Eip3009Message) (d : Eip712Domain)
          → includes object_prototype_keys (value_text (property payload "network")) ≡ false
          → typed_data payload authorization ≡ ok (m, d)
          → d.verifying_contract ≡ some base_sepolia.usdc_address
      unfolding typed_data
      typed_data-contract m d i h =
          let (m', p, h₁) = >>=-eq-ok (to_typed_message authorization) _ h in
          let (d', q, h₂) =
            >>=-eq-ok (eip712_domain (value_text (property payload "network"))) _ h₁ in
          eip712_domain-own (value_text (property payload "network")) d i (ground arith)

      -- A validated request whose payee is a text and whose network is no name that every object
      -- inherits is always answered: verification does not throw.
      pub verify_payment-returns :
          includes object_prototype_keys (value_text (property payload "network")) ≡ false
          → returns (verify_payment chain payload authorization requirements now) ≡ true
      unfolding verify_payment
      verify_payment-returns i = elim (Throws-cases (typed_data payload authorization)) [
        | inr (e, p) ↦ ground arith
        | inl (w, p) ↦ ground (
          arith,
          check_asset-returns w.0 w.1 base_sepolia.usdc_address (typed_data-contract w.0 w.1 i p),
        )
      ]

  module _ (payload authorization requirements : Json) (now : ℤ) (m : Eip3009Message) where
    -- A payment whose numbers read, that names the scheme on both sides and one network.
    pub record ReachesTypedData (network : String) : Type 0 where
      pub payload_scheme : property payload "scheme" ≡ some (str "exact")
      pub required_scheme : property requirements "scheme" ≡ some (str "exact")
      pub payload_network : property payload "network" ≡ some (str network)
      pub required_network : property requirements "network" ≡ some (str network)
      pub reads : to_typed_message authorization ≡ ok m

    reaches_typed_data :
        (network : String) (d : Eip712Domain)
        → ReachesTypedData network
        → eip712_domain network ≡ ok d
        → typed_data payload authorization ≡ ok (m, d)
    unfolding typed_data value_text
    reaches_typed_data network d h e = rw (h.reads, h.payload_network, e)

    reaches_asset :
        (network : String) (d : Eip712Domain)
        → ReachesTypedData network
        → eip712_domain network ≡ ok d
        → verify_payment chain payload authorization requirements now
          ≡ check_asset chain payload authorization requirements m d now
    unfolding verify_payment
    reaches_asset network d h e = rw (
      reaches_typed_data network d h e,
      h.payload_scheme,
      h.required_scheme,
      str-strict_equal "exact",
      h.payload_network,
      h.required_network,
      str-strict_equal network,
    )

    asset-throws :
        (d : Eip712Domain)
        → d.verifying_contract ≡ none
        → returns (check_asset chain payload authorization requirements m d now) ≡ false
    unfolding check_asset same_address lower_operand
    asset-throws d e = ground (arith, e)

    payee-throws :
        (d : Eip712Domain)
        → same_address chain (property requirements "asset") (Option.map str d.verifying_contract)
          ≡ ok true
        → as_string (property authorization "to") ≡ none
        → returns (check_asset chain payload authorization requirements m d now) ≡ false
    unfolding check_asset check_payee
    payee-throws d a e = rw a (
        ground (
          arith,
          same_address-throws (property authorization "to") (property requirements "payTo") e,
        ))

    -- A network named like a property that every object inherits passes the look-up in `NETWORKS`
    -- with no contract address, and verification throws, whatever else the request holds.
    pub inherited_network-throws :
        (network : String)
        → str_eq network "base-sepolia" ≡ false
        → includes object_prototype_keys network ≡ true
        → ReachesTypedData network
        → returns (verify_payment chain payload authorization requirements now) ≡ false
    inherited_network-throws network other inherits h =
        let (d, e, c) = eip712_domain-inherited network other inherits in
        rw (reaches_asset network d h e) (asset-throws d c)

    -- On the table's network and the required asset, an authorization whose payee is not a text makes
    -- verification throw; it is not answered as a malformed payload.
    pub missing_payee-throws :
        ReachesTypedData "base-sepolia"
        → same_address chain (property requirements "asset") (some (str base_sepolia.usdc_address))
          ≡ ok true
        → as_string (property authorization "to") ≡ none
        → returns (verify_payment chain payload authorization requirements now) ≡ false
    unfolding eip712_domain network_parameters
    missing_payee-throws h a e =
        rw (reaches_asset "base-sepolia" base_sepolia_domain h refl)
          (payee-throws base_sepolia_domain a e)
