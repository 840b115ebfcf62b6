-- ===== src/Types/Eip3009/Laws.antt =====
-- What reading a uint256 field accepts, and which networks have a domain.
use agentic_attribution.Prelude.{
  ℕ, ◌≤◌, String, true, false, Option, none, some, ok, ◌≡◌, ◌↔◌, inl, inr, refl, arith, Bool-cases,
  Option-cases, includes, str_eq, >>=-eq-ok,
}
use agentic_attribution.Js.Json.{Json, str, as_string, property}
use agentic_attribution.Js.Json.Laws.{as_string-eq-some}
use agentic_attribution.Js.Integer.{ℤ, pos, negsuc}
use agentic_attribution.Js.Decimal.{codes, is_blank, big_int, to_string}
use agentic_attribution.Js.Decimal.Laws.{is_decimal-not_blank}
use agentic_attribution.Js.Decimal.RoundTrip.{big_int-to_string, to_string-is_decimal}
use agentic_attribution.Types.Eip3009.{
  max_uint256, in_range, text_to_uint256, to_uint256, Eip3009Message, to_typed_message,
  Eip712Domain, object_prototype_keys, base_sepolia, network_parameters, eip712_domain,
}

-- A value reads as `n` when it is a text, not blank, that `BigInt` takes for `n`, within range.
pub record ReadsAs (v : Option Json) (n : ℕ) : Type 0 where
  pub text : String
  pub is_text : v ≡ some (str text)
  pub not_blank : is_blank (codes text) ≡ false
  pub is_number : big_int (codes text) ≡ some (pos n)
  pub fits : n ≤ max_uint256

in_range-eq-ok : (z : ℤ) (n : ℕ) → in_range z ≡ ok n → (z ≡ pos n) × (n ≤ max_uint256)
unfolding in_range
in_range-eq-ok (negsuc m) n h = ground arith
in_range-eq-ok (pos m) n h = ground arith

in_range-pos : (n : ℕ) → n ≤ max_uint256 → in_range (pos n) ≡ ok n
unfolding in_range
in_range-pos n h = ground arith

to_uint256-ReadsAs : (v : Option Json) (n : ℕ) → to_uint256 v ≡ ok n → ReadsAs v n
unfolding to_uint256
to_uint256-ReadsAs v n h = elim (Option-cases (as_string v)) [
  | inl missing ↦ ground arith
  | inr (s, e) ↦
      let h' = rw (e, text_to_uint256) at h in
      elim (Bool-cases (is_blank (codes s))) [
        | inl blank ↦ ground arith
        | inr full ↦ elim (Option-cases (big_int (codes s))) [
          | inl bad ↦ ground arith
          | inr (z, q) ↦
              let (w, r) = in_range-eq-ok z n (ground arith) in
              record {
                text = s;
                is_text = as_string-eq-some v s e;
                not_blank = full;
                is_number = rw (q, w);
                fits = r;
              }
        ]
      ]
]

ReadsAs-to_uint256 : (v : Option Json) (n : ℕ) → ReadsAs v n → to_uint256 v ≡ ok n
unfolding to_uint256
ReadsAs-to_uint256 v n r = rw (r.is_text, r.not_blank, r.is_number) (in_range-pos n r.fits)

-- A field is read as `n` exactly when it is a text, not blank, that `BigInt` takes for `n`, with
-- `n` below 2 ^ 256.
pub to_uint256-eq-ok_iff : (v : Option Json) (n : ℕ) → (to_uint256 v ≡ ok n) ↔ ReadsAs v n
to_uint256-eq-ok_iff v n = (to_uint256-ReadsAs v n, ReadsAs-to_uint256 v n)

-- The decimal text of a number below 2 ^ 256 reads back as that number.
pub to_uint256-to_string : (n : ℕ) → n ≤ max_uint256 → to_uint256 (some (str (to_string n))) ≡ ok n
to_uint256-to_string n h = ReadsAs-to_uint256 _ n (record {
  text = to_string n;
  is_text = refl;
  not_blank = is_decimal-not_blank (codes (to_string n)) (to_string-is_decimal n);
  is_number = big_int-to_string n;
  fits = h;
})

-- The message of an authorization carries its three numbers, and the other fields as they came.
pub record Reads (authorization : Json) (m : Eip3009Message) : Type 0 where
  pub value : ReadsAs (property authorization "value") m.value
  pub valid_after : ReadsAs (property authorization "validAfter") m.valid_after
  pub valid_before : ReadsAs (property authorization "validBefore") m.valid_before
  pub from : m.from ≡ property authorization "from"
  pub to : m.to ≡ property authorization "to"
  pub nonce : m.nonce ≡ property authorization "nonce"

module _ (authorization : Json) (m : Eip3009Message) where
  to_typed_message-Reads : to_typed_message authorization ≡ ok m → Reads authorization m
  unfolding to_typed_message
  to_typed_message-Reads h =
      let (v, p, h₁) = >>=-eq-ok (to_uint256 (property authorization "value")) _ h in
      let (a, q, h₂) = >>=-eq-ok (to_uint256 (property authorization "validAfter")) _ h₁ in
      let (b, r, h₃) = >>=-eq-ok (to_uint256 (property authorization "validBefore")) _ h₂ in
      record {
        value = to_uint256-ReadsAs _ _ (ground arith);
        valid_after = to_uint256-ReadsAs _ _ (ground arith);
        valid_before = to_uint256-ReadsAs _ _ (ground arith);
        from = ground arith;
        to = ground arith;
        nonce = ground arith;
      }

  Reads-to_typed_message : Reads authorization m → to_typed_message authorization ≡ ok m
  unfolding to_typed_message
  Reads-to_typed_message r =
      rw
        (
          ReadsAs-to_uint256 _ _ r.value,
          ReadsAs-to_uint256 _ _ r.valid_after,
          ReadsAs-to_uint256 _ _ r.valid_before,
        )
        (ground (arith, r.from, r.to, r.nonce))

-- An authorization becomes a message exactly when its three numbers read as uint256 values; the
-- message carries them, and the payer, the payee and the nonce unread.
pub to_typed_message-eq-ok_iff :
    (authorization : Json) (m : Eip3009Message)
    → (to_typed_message authorization ≡ ok m) ↔ Reads authorization m
to_typed_message-eq-ok_iff authorization m =
    (to_typed_message-Reads authorization m, Reads-to_typed_message authorization m)

-- A network that names no inherited property has a domain only if it is in the table.
pub eip712_domain-own :
    (network : String) (d : Eip712Domain)
    → includes object_prototype_keys network ≡ false
    → eip712_domain network ≡ ok d
    → d.verifying_contract ≡ some base_sepolia.usdc_address
unfolding eip712_domain network_parameters
eip712_domain-own network d h e = ground arith

-- An inherited name that is not in the table has a domain with no contract.
pub eip712_domain-inherited :
    (network : String)
    → str_eq network "base-sepolia" ≡ false
    → includes object_prototype_keys network ≡ true
    → (d : Eip712Domain) × (eip712_domain network ≡ ok d) × (d.verifying_contract ≡ none)
unfolding eip712_domain network_parameters
eip712_domain-inherited network h i = (
  record { name = none; version = none; chain_id = none; verifying_contract = none },
  rw (h, i),
  refl,
)
