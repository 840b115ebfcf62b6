-- ===== src/Facilitator/Verify/Laws.antt =====
-- Exactly which payments verify.
use mathlib.Core.Option
use agentic_attribution.Prelude.{
  String, Bool, true, false, Option, some, Throws, ok, throw, ◌≡◌, ◌↔◌, refl, arith, eq_iff,
  >>=-eq-ok, ◌∙◌, ap,
}
use agentic_attribution.Js.Json.{Json, str, property, strict_equal, value_text}
use agentic_attribution.Js.Json.Laws.{as_string-eq-some, strict_equal-str, str-strict_equal}
use agentic_attribution.Js.Decimal.{codes, big_int}
use agentic_attribution.Js.Integer.{ℤ, pos, ◌<ℤ◌, ◌≤ℤ◌}
use agentic_attribution.Types.Eip3009.{
  Eip712Domain, Eip3009Message, eip712_domain, to_typed_message,
}
use agentic_attribution.Types.Eip3009.Laws.{Reads, to_typed_message-eq-ok_iff}
use agentic_attribution.Facilitator.Verify.{
  valid, Chain, lower_operand, required_amount, typed_data, same_address, signature_outcome,
  check_amount_and_time, check_required, check_payee, check_asset, with_typed_data, verify_payment,
}

module _ (chain : Chain) where
  open chain use {to_lower_case, verify_typed_data}

  -- Two values are texts that name one address, whatever the case of their letters.
  pub record SameAddress (left right : Option Json) : Type 0 where
    pub l : String
    pub r : String
    pub left_text : left ≡ some (str l)
    pub right_text : right ≡ some (str r)
    pub same : to_lower_case l ≡ to_lower_case r

  lower_operand-eq-ok : (v : Option Json) (s : String) → lower_operand v ≡ ok s → v ≡ some (str s)
  unfolding lower_operand
  lower_operand-eq-ok v s h = as_string-eq-some v s (ground arith)

  same_address-SameAddress :
      (left right : Option Json) → same_address chain left right ≡ ok true → SameAddress left right
  unfolding same_address
  same_address-SameAddress left right h =
      let (l, p, h₁) = >>=-eq-ok (lower_operand left) _ h in
      let (r, q, h₂) = >>=-eq-ok (lower_operand right) _ h₁ in
      record {
        l = l;
        r = r;
        left_text = lower_operand-eq-ok left l p;
        right_text = lower_operand-eq-ok right r q;
        same = ground (arith, eq_iff (to_lower_case l) (to_lower_case r));
      }

  SameAddress-same_address :
      (left right : Option Json) → SameAddress left right → same_address chain left right ≡ ok true
  unfolding same_address
  SameAddress-same_address left right a =
      rw (a.left_text, a.right_text)
        (ground (arith, a.same, eq_iff (to_lower_case a.l) (to_lower_case a.r)))

  -- A payment that the facilitator accepts, of the payer `payer`.
  pub record IsPayable (payload authorization requirements : Json) (now : ℤ) (payer : Option Json)
      : Type 0 where
    pub payload_scheme : property payload "scheme" ≡ some (str "exact")
    pub required_scheme : property requirements "scheme" ≡ some (str "exact")
    pub network : strict_equal (property payload "network") (property requirements "network") ≡ true
    pub message : Eip3009Message
    pub reads : Reads authorization message
    pub domain : Eip712Domain
    pub has_domain : eip712_domain (value_text (property payload "network")) ≡ ok domain
    pub asset :
        SameAddress (property requirements "asset") (Option.map str domain.verifying_contract)
    pub payee : SameAddress (property authorization "to") (property requirements "payTo")
    pub amount :
        big_int (codes (value_text (property requirements "maxAmountRequired")))
        ≡ some (pos message.value)
    pub started : pos message.valid_after ≤ℤ now
    pub unexpired : now <ℤ pos message.valid_before
    pub signed :
        verify_typed_data message.from domain message (property payload "signature") ≡ ok true
    pub payer_is : payer ≡ message.from

  required_amount-eq-ok :
      (v : Option Json) (z : ℤ) → required_amount v ≡ ok z → big_int (codes (value_text v)) ≡ some z
  unfolding required_amount
  required_amount-eq-ok v z h = ground arith

  signature_outcome-valid :
      (m : Eip3009Message) (r : Throws Bool) (payer : Option Json)
      → signature_outcome chain m r ≡ valid payer
      → (r ≡ ok true) × (payer ≡ m.from)
  unfolding signature_outcome
  signature_outcome-valid m (throw e) payer h = ground arith
  signature_outcome-valid m (ok false) payer h = ground arith
  signature_outcome-valid m (ok true) payer h = ground arith

  -- What the amount, the window and the signature must be.
  pub record IsDue (payload : Json) (m : Eip3009Message) (d : Eip712Domain) (required now : ℤ)
      (payer : Option Json) : Type 0 where
    pub exact : required ≡ pos m.value
    pub started : pos m.valid_after ≤ℤ now
    pub unexpired : now <ℤ pos m.valid_before
    pub signed : verify_typed_data m.from d m (property payload "signature") ≡ ok true
    pub payer_is : payer ≡ m.from

  check_amount_and_time-valid :
      (payload : Json) (m : Eip3009Message) (d : Eip712Domain) (required now : ℤ)
      (payer : Option Json)
      → check_amount_and_time chain payload m d required now ≡ valid payer
      → IsDue payload m d required now payer
  unfolding check_amount_and_time
  check_amount_and_time-valid payload m d required now payer h =
      let t : signature_outcome chain m
            (verify_typed_data m.from d m (property payload "signature"))
          ≡ valid payer =
        ground arith in
      let (p, q) = signature_outcome-valid m _ payer t in
      record {
        exact = ground arith;
        started = ground arith;
        unexpired = ground arith;
        signed = p;
        payer_is = q;
      }

  IsDue-check_amount_and_time :
      (payload : Json) (m : Eip3009Message) (d : Eip712Domain) (required now : ℤ)
      (payer : Option Json)
      → IsDue payload m d required now payer
      → check_amount_and_time chain payload m d required now ≡ valid payer
  unfolding check_amount_and_time
  IsDue-check_amount_and_time payload m d required now payer due = ground arith

  module _ (payload authorization requirements : Json) (now : ℤ) (payer : Option Json) where
    check_required-valid :
        (m : Eip3009Message) (d : Eip712Domain)
        → check_required chain payload requirements m d now ≡ ok (valid payer)
        → (z : ℤ) × (big_int (codes (value_text (property requirements "maxAmountRequired")))
            ≡ some z)
          × IsDue payload m d z now payer
    unfolding check_required
    check_required-valid m d h =
        let (z, p, h₁) =
          >>=-eq-ok (required_amount (property requirements "maxAmountRequired")) _ h in
        (
          z,
          required_amount-eq-ok _ z p,
          check_amount_and_time-valid payload m d z now payer (ground arith),
        )

    check_payee-valid :
        (m : Eip3009Message) (d : Eip712Domain)
        → check_payee chain payload authorization requirements m d now ≡ ok (valid payer)
        → SameAddress (property authorization "to") (property requirements "payTo")
          × (check_required chain payload requirements m d now ≡ ok (valid payer))
    unfolding check_payee
    check_payee-valid m d h =
        let (b, p, h₁) =
          >>=-eq-ok
            (same_address chain (property authorization "to") (property requirements "payTo")) _
            h in
        (same_address-SameAddress _ _ (ground arith), ground arith)

    check_asset-valid :
        (m : Eip3009Message) (d : Eip712Domain)
        → check_asset chain payload authorization requirements m d now ≡ ok (valid payer)
        → SameAddress (property requirements "asset") (Option.map str d.verifying_contract)
          × (check_payee chain payload authorization requirements m d now ≡ ok (valid payer))
    unfolding check_asset
    check_asset-valid m d h =
        let (b, p, h₁) =
          >>=-eq-ok
            (same_address chain (property requirements "asset")
              (Option.map str d.verifying_contract))
            _ h in
        (same_address-SameAddress _ _ (ground arith), ground arith)

    typed_data-eq-ok :
        (m : Eip3009Message) (d : Eip712Domain)
        → typed_data payload authorization ≡ ok (m, d)
        → Reads authorization m × (eip712_domain (value_text (property payload "network")) ≡ ok d)
    unfolding typed_data
    typed_data-eq-ok m d h =
        let (m', p, h₁) = >>=-eq-ok (to_typed_message authorization) _ h in
        let (d', q, h₂) =
          >>=-eq-ok (eip712_domain (value_text (property payload "network"))) _ h₁ in
        ((to_typed_message-eq-ok_iff authorization m).0 (ground arith), ground arith)

    with_typed_data-valid :
        (r : Throws (Eip3009Message × Eip712Domain))
        → with_typed_data chain payload authorization requirements now r ≡ ok (valid payer)
        → (m : Eip3009Message) × (d : Eip712Domain) × (r ≡ ok (m, d))
          × (check_asset chain payload authorization requirements m d now ≡ ok (valid payer))
    unfolding with_typed_data
    with_typed_data-valid (throw e) h = ground arith
    with_typed_data-valid (ok (m, d)) h = (m, d, refl, h)

    verify_payment-IsPayable :
        verify_payment chain payload authorization requirements now ≡ ok (valid payer)
        → IsPayable payload authorization requirements now payer
    unfolding verify_payment
    verify_payment-IsPayable h =
        let (m, d, p, h₁) =
          with_typed_data-valid (typed_data payload authorization) (ground arith) in
        let (reads, domain) = typed_data-eq-ok m d p in
        let (asset, h₂) = check_asset-valid m d h₁ in
        let (payee, h₃) = check_payee-valid m d h₂ in
        let (z, q, due) = check_required-valid m d h₃ in
        record {
          payload_scheme = strict_equal-str _ "exact" (ground arith);
          required_scheme = strict_equal-str _ "exact" (ground arith);
          network = ground arith;
          message = m;
          reads = reads;
          domain = d;
          has_domain = domain;
          asset = asset;
          payee = payee;
          amount = q ∙ ap some due.exact;
          started = due.started;
          unexpired = due.unexpired;
          signed = due.signed;
          payer_is = due.payer_is;
        }

    IsPayable-check_required :
        (p : IsPayable payload authorization requirements now payer)
        → check_required chain payload requirements p.message p.domain now ≡ ok (valid payer)
    unfolding check_required
    IsPayable-check_required p = ground (
      arith,
      p.amount,
      IsDue-check_amount_and_time payload p.message p.domain (pos p.message.value) now payer
          (record {
            exact = refl;
            started = p.started;
            unexpired = p.unexpired;
            signed = p.signed;
            payer_is = p.payer_is;
          }),
    )

    IsPayable-typed_data :
        (p : IsPayable payload authorization requirements now payer)
        → typed_data payload authorization ≡ ok (p.message, p.domain)
    unfolding typed_data
    IsPayable-typed_data p =
        rw ((to_typed_message-eq-ok_iff authorization p.message).1 p.reads, p.has_domain)

    IsPayable-verify_payment :
        IsPayable payload authorization requirements now payer
        → verify_payment chain payload authorization requirements now ≡ ok (valid payer)
    unfolding verify_payment
    IsPayable-verify_payment p =
        rw
          (
            p.payload_scheme,
            p.required_scheme,
            str-strict_equal "exact",
            p.network,
            IsPayable-typed_data p,
            SameAddress-same_address _ _ p.asset,
            SameAddress-same_address _ _ p.payee,
          )
          (IsPayable-check_required p)

  -- A payment is valid, and `payer` its payer, exactly when both sides name the scheme `exact` and
  -- one network, the network has a domain whose contract is the required asset, the authorization's
  -- numbers read as uint256 values, it pays the required address exactly the required amount, `now`
  -- lies in its window, and its signature is that of `payer`.
  pub verify_payment-valid_iff :
      (payload authorization requirements : Json) (now : ℤ) (payer : Option Json)
      → (verify_payment chain payload authorization requirements now ≡ ok (valid payer))
        ↔ IsPayable payload authorization requirements now payer
  verify_payment-valid_iff payload authorization requirements now payer = (
    verify_payment-IsPayable payload authorization requirements now payer,
    IsPayable-verify_payment payload authorization requirements now payer,
  )
