-- ===== src/Merchant/X402/Laws.antt =====
-- What the merchant takes for a payment.
use agentic_attribution.Prelude.{
  String, true, Option, none, some, ok, ◌≡◌, ◌≢◌, ◌↔◌, inl, inr, refl, arith, ap, str_eq, eq_iff,
  Option-cases, >>=-eq-ok, Bool-cases,
}
use agentic_attribution.Js.Json.{Json, as_string, property, is_object_value}
use agentic_attribution.Merchant.X402.{
  Eip3009Authorization, PaymentPayload, text_field, object_field, signature_field,
  authorization_fields, checked_payment,
}

-- A JSON object that carries an authorization of six texts and a signature that is not empty.
pub record IsPayment (decoded : Json) (payment : PaymentPayload) : Type 0 where
  pub authorization : Json
  pub itself : payment.raw ≡ decoded
  pub is_object : is_object_value (some decoded) ≡ true
  pub carries : property decoded "authorization" ≡ some authorization
  pub carries_object : is_object_value (some authorization) ≡ true
  pub from : as_string (property authorization "from") ≡ some payment.authorization.from
  pub to : as_string (property authorization "to") ≡ some payment.authorization.to
  pub value : as_string (property authorization "value") ≡ some payment.authorization.value
  pub valid_after :
      as_string (property authorization "validAfter") ≡ some payment.authorization.valid_after
  pub valid_before :
      as_string (property authorization "validBefore") ≡ some payment.authorization.valid_before
  pub nonce : as_string (property authorization "nonce") ≡ some payment.authorization.nonce
  pub signed : as_string (property decoded "signature") ≡ some payment.signature
  pub signature_given : payment.signature ≢ ""

text_field-eq-ok :
    (v : Option Json) (field s : String) → text_field v field ≡ ok s → as_string v ≡ some s
unfolding text_field
text_field-eq-ok v field s h = elim (Option-cases (as_string v)) [
  | inl p ↦ absurd (ground (arith, p))
  | inr (t, p) ↦ ground (arith, p)
]

object_field-eq-ok :
    (v : Option Json) (problem : String) (o : Json)
    → object_field v problem ≡ ok o
    → (v ≡ some o) × (is_object_value (some o) ≡ true)
unfolding object_field
object_field-eq-ok none problem o h = ground arith
object_field-eq-ok (some v) problem o h = elim (Bool-cases (is_object_value (some v))) [
  | inl p ↦ let e : v ≡ o = ground (arith, p) in (ap some e, rw (← e) p)
  | inr p ↦ absurd (ground (arith, p))
]

signature_field-eq-ok :
    (v : Option Json) (s : String) → signature_field v ≡ ok s → (as_string v ≡ some s) × (s ≢ "")
unfolding signature_field
signature_field-eq-ok v s h = elim (Option-cases (as_string v)) [
  | inl p ↦ absurd (ground (arith, p))
  | inr (t, p) ↦ elim (Bool-cases (str_eq t "")) [
    | inl e ↦ absurd (ground (arith, p, e))
    | inr e ↦
        let q : t ≡ s = ground (arith, p, e) in
        (ground (arith, p), λ blank. ground (arith, e, q, blank, eq_iff t ""))
  ]
]

record HasFields (authorization : Json) (fields : Eip3009Authorization) : Type 0 where
  from : as_string (property authorization "from") ≡ some fields.from
  to : as_string (property authorization "to") ≡ some fields.to
  value : as_string (property authorization "value") ≡ some fields.value
  valid_after : as_string (property authorization "validAfter") ≡ some fields.valid_after
  valid_before : as_string (property authorization "validBefore") ≡ some fields.valid_before
  nonce : as_string (property authorization "nonce") ≡ some fields.nonce

authorization_fields-eq-ok :
    (a : Json) (fields : Eip3009Authorization)
    → authorization_fields a ≡ ok fields
    → HasFields a fields
unfolding authorization_fields
authorization_fields-eq-ok a fields h =
    let (f, pf, h₁) = >>=-eq-ok (text_field (property a "from") "from") _ h in
    let (t, pt, h₂) = >>=-eq-ok (text_field (property a "to") "to") _ h₁ in
    let (v, pv, h₃) = >>=-eq-ok (text_field (property a "value") "value") _ h₂ in
    let (va, pa, h₄) = >>=-eq-ok (text_field (property a "validAfter") "validAfter") _ h₃ in
    let (vb, pb, h₅) = >>=-eq-ok (text_field (property a "validBefore") "validBefore") _ h₄ in
    let (n, pn, h₆) = >>=-eq-ok (text_field (property a "nonce") "nonce") _ h₅ in
    let e : record { from = f; to = t; value = v; valid_after = va; valid_before = vb; nonce = n }
        ≡ fields =
      ground arith in
    rw (← e) (record {
      from = text_field-eq-ok _ "from" f pf;
      to = text_field-eq-ok _ "to" t pt;
      value = text_field-eq-ok _ "value" v pv;
      valid_after = text_field-eq-ok _ "validAfter" va pa;
      valid_before = text_field-eq-ok _ "validBefore" vb pb;
      nonce = text_field-eq-ok _ "nonce" n pn;
    })

moved :
    {d decoded : Json} {p payment : PaymentPayload}
    → d ≡ decoded
    → p ≡ payment
    → IsPayment d p
    → IsPayment decoded payment
moved e f i = rw (← e, ← f) i

-- A value of the wire is taken for a payment exactly when it has a payment's shape, and the fields
-- that the merchant goes on with are that value's own.
pub checked_payment-eq-ok_iff :
    (decoded : Json) (payment : PaymentPayload)
    → (checked_payment decoded ≡ ok payment) ↔ IsPayment decoded payment
unfolding checked_payment authorization_fields object_field text_field signature_field
checked_payment-eq-ok_iff decoded payment = (sound, complete)
  where
    sound : checked_payment decoded ≡ ok payment → IsPayment decoded payment
    sound h =
        let (d, p, h₁) = >>=-eq-ok (object_field (some decoded) _) _ h in
        let (a, q, h₂) = >>=-eq-ok (object_field (property d "authorization") _) _ h₁ in
        let (fields, r, h₃) = >>=-eq-ok (authorization_fields a) _ h₂ in
        let (s, w, h₄) = >>=-eq-ok (signature_field (property d "signature")) _ h₃ in
        let (same, is_object) = object_field-eq-ok (some decoded) _ d p in
        let (carries, carries_object) = object_field-eq-ok (property d "authorization") _ a q in
        let has = authorization_fields-eq-ok a fields r in
        let (signed, given) = signature_field-eq-ok (property d "signature") s w in
        let e : record { raw = d; authorization = fields; signature = s } ≡ payment =
          ground arith in
        let f : d ≡ decoded = ground arith in
        moved f e (record {
          authorization = a;
          itself = refl;
          is_object = is_object;
          carries = carries;
          carries_object = carries_object;
          from = has.from;
          to = has.to;
          value = has.value;
          valid_after = has.valid_after;
          valid_before = has.valid_before;
          nonce = has.nonce;
          signed = signed;
          signature_given = given;
        })

    complete : IsPayment decoded payment → checked_payment decoded ≡ ok payment
    complete p = ground (
      arith,
      p.itself,
      p.is_object,
      p.carries,
      p.carries_object,
      p.from,
      p.to,
      p.value,
      p.valid_after,
      p.valid_before,
      p.nonce,
      p.signed,
      p.signature_given,
      eq_iff payment.signature "",
    )
