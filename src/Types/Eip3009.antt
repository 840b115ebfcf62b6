-- ===== src/Types/Eip3009.antt =====
-- packages/types/src/eip3009.ts: the typed message of a transfer authorization, its domain, and the
-- reading of uint256 fields.
pub mod Laws
use Prim.Native.String.{◌++◌}
use agentic_attribution.Prelude.{
  ℕ, ◌-◌, ◌^◌, String, Option, none, some, List, [], ◌∷◌, Throws, ok, throw, error, type_error, ltb,
  str_eq, includes, if◌then◌else◌, ◌>>=◌,
}
use agentic_attribution.Js.Json.{Json, str, as_string, property, value_text}
use agentic_attribution.Js.Decimal.{codes, is_blank, big_int}
use agentic_attribution.Js.Integer.{ℤ, pos, negsuc}

abbrev pub eip3009_primary_type : String
eip3009_primary_type = "TransferWithAuthorization"

-- The names and types of the message's fields, in the order in which they are hashed.
abbrev pub eip3009_types : List (String × String)
eip3009_types =
    ("from", "address")
    ∷ ("to", "address")
    ∷ ("value", "uint256")
    ∷ ("validAfter", "uint256")
    ∷ ("validBefore", "uint256")
    ∷ ("nonce", "bytes32")
    ∷ []

-- A field is `none` where the code leaves it undefined.
pub record Eip712Domain : Type 0 where
  pub name : Option String
  pub version : Option String
  pub chain_id : Option ℕ
  pub verifying_contract : Option String

-- `from`, `to` and `nonce` are passed on as they came, whatever their type.
pub record Eip3009Message : Type 0 where
  pub from : Option Json
  pub to : Option Json
  pub value : ℕ
  pub valid_after : ℕ
  pub valid_before : ℕ
  pub nonce : Option Json

pub record NetworkParameters : Type 0 where
  pub chain_id : ℕ
  pub usdc_address : String
  pub domain_name : String
  pub domain_version : String

abbrev pub base_sepolia : NetworkParameters
base_sepolia = record {
  chain_id = 84532;
  usdc_address = "0x036CbD53842c5426634e7929541eC2318f3dCF7e";
  domain_name = "USDC";
  domain_version = "2";
}

-- The keys that every object inherits. `NETWORKS[key]` is a function or an object there, not
-- undefined.
abbrev pub object_prototype_keys : List String
object_prototype_keys =
    "constructor" ∷ "__defineGetter__" ∷ "__defineSetter__" ∷ "hasOwnProperty" ∷ "__lookupGetter__"
    ∷ "__lookupSetter__" ∷ "isPrototypeOf" ∷ "propertyIsEnumerable" ∷ "toString" ∷ "valueOf"
    ∷ "__proto__" ∷ "toLocaleString" ∷ []

-- What `NETWORKS[network]` holds: an entry of the table, or something inherited, which has none of
-- the fields of an entry.
pub data Parameters : Type 0 where
  entry : NetworkParameters → Parameters
  inherited : Parameters

unfoldable pub network_parameters : String → Throws Parameters
network_parameters network =
    if str_eq network "base-sepolia"
    then ok (entry base_sepolia)
    else if includes object_prototype_keys network
    then ok inherited
    else throw (error ("unknown network " ++ network ++ "; known networks are base-sepolia"))

abbrev domain_of : Parameters → Eip712Domain
domain_of (entry p) = record {
  name = some p.domain_name;
  version = some p.domain_version;
  chain_id = some p.chain_id;
  verifying_contract = some p.usdc_address;
}
domain_of inherited = record {
  name = none;
  version = none;
  chain_id = none;
  verifying_contract = none;
}

unfoldable pub eip712_domain : String → Throws Eip712Domain
eip712_domain network = do parameters ← network_parameters network; ok (domain_of parameters)

abbrev pub max_uint256 : ℕ
max_uint256 = 2 ^ 256 - 1

in_range : ℤ → Throws ℕ
in_range (negsuc n) = throw (type_error "uint256 field is negative")
in_range (pos n) =
    if ltb max_uint256 n then throw (type_error "uint256 field exceeds uint256") else ok n

parsed : Option ℤ → Throws ℕ
unfolding in_range
parsed none = throw (type_error "uint256 field is not a valid uint256")
parsed (some value) = in_range value

text_to_uint256 : Option String → Throws ℕ
unfolding parsed
text_to_uint256 none = throw (type_error "raw.trim is not a function")
text_to_uint256 (some raw) =
    if is_blank (codes raw)
    then throw (type_error "uint256 field is empty")
    else parsed (big_int (codes raw))

-- A value that is not a text has no `trim`, so reading it throws. The messages leave out the
-- field's name and the offending text.
unfoldable pub to_uint256 : Option Json → Throws ℕ
unfolding text_to_uint256
to_uint256 raw = text_to_uint256 (as_string raw)

unfoldable pub to_typed_message : Json → Throws Eip3009Message
unfolding to_uint256
to_typed_message authorization = do
  value ← to_uint256 (property authorization "value")
  valid_after ← to_uint256 (property authorization "validAfter")
  valid_before ← to_uint256 (property authorization "validBefore")
  ok (record {
    from = property authorization "from";
    to = property authorization "to";
    value = value;
    valid_after = valid_after;
    valid_before = valid_before;
    nonce = property authorization "nonce";
  })
