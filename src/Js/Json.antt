-- ===== src/Js/Json.antt =====
-- JSON values, property access, `typeof`, `===` and conversion to text.
pub mod Laws
use agentic_attribution.Prelude.{
  String, Bool, true, false, ◌&&◌, Option, none, some, List, [], ◌∷◌, Throws, ok, throw, type_error,
  str_eq, if◌then◌else◌,
}
use Prim.Native.String.{◌++◌}

-- A number is given by the text that `String(n)` has for it, since no decision computes with one.
-- An object has each key once, as `JSON.parse` leaves it.
mutual
  pub data Json : Type 0 where
    null : Json
    bool : Bool → Json
    num : String → Json
    str : String → Json
    arr : Items → Json
    obj : Members → Json

  pub data Items : Type 0 where
    nil : Items
    cons : Json → Items → Items

  pub data Members : Type 0 where
    end : Members
    member : String → Json → Members → Members

unfoldable pub find_member : String → Members → Option Json
find_member key end = none
find_member key (member k v rest) = if str_eq k key then some v else find_member key rest

-- `v.key` of a value that is not null or undefined. The keys that the program reads are no
-- properties of arrays, texts, numbers or Booleans.
unfoldable pub property : Json → String → Option Json
unfolding find_member
property (obj members) key = find_member key members
property null key = none
property (bool _) key = none
property (num _) key = none
property (str _) key = none
property (arr _) key = none

-- `v.key` of any value: of null and of undefined it throws.
unfoldable pub read : Option Json → String → Throws (Option Json)
unfolding property
read none key = throw (type_error "Cannot read properties of undefined")
read (some null) key = throw (type_error "Cannot read properties of null")
read (some (bool b)) key = ok (property (bool b) key)
read (some (num n)) key = ok (property (num n) key)
read (some (str s)) key = ok (property (str s) key)
read (some (arr items)) key = ok (property (arr items) key)
read (some (obj members)) key = ok (property (obj members) key)

-- `typeof v === 'object' && v !== null`
abbrev pub is_object : Json → Bool
is_object (arr _) = true
is_object (obj _) = true
is_object null = false
is_object (bool _) = false
is_object (num _) = false
is_object (str _) = false

unfoldable pub is_object_value : Option Json → Bool
is_object_value none = false
is_object_value (some v) = is_object v

-- The text, where `typeof v === 'string'`.
abbrev pub as_string : Option Json → Option String
as_string none = none
as_string (some (str s)) = some s
as_string (some null) = none
as_string (some (bool _)) = none
as_string (some (num _)) = none
as_string (some (arr _)) = none
as_string (some (obj _)) = none

-- Whether `if (v)` takes its branch.
unfoldable pub truthy : Option Json → Bool
truthy none = false
truthy (some null) = false
truthy (some (bool b)) = b
truthy (some (num n)) = if str_eq n "0" then false else true
truthy (some (str s)) = if str_eq s "" then false else true
truthy (some (arr _)) = true
truthy (some (obj _)) = true

-- `v ?? other`
unfoldable pub else_text : Option Json → String → Json
else_text none other = str other
else_text (some null) other = str other
else_text (some (bool b)) other = bool b
else_text (some (num n)) other = num n
else_text (some (str s)) other = str s
else_text (some (arr items)) other = arr items
else_text (some (obj members)) other = obj members

same_bool : Bool → Bool → Bool
same_bool true b = b
same_bool false true = false
same_bool false false = true

same_json : Json → Json → Bool
unfolding same_bool
same_json null null = true
same_json (bool a) (bool b) = same_bool a b
same_json (num a) (num b) = str_eq a b
same_json (str a) (str b) = str_eq a b
same_json _ _ = false

-- `v === w` for values read from two places of one request: arrays and objects are equal only to
-- themselves, and two places never hold the same one.
unfoldable pub strict_equal : Option Json → Option Json → Bool
unfolding same_json
strict_equal none none = true
strict_equal (some v) (some w) = same_json v w
strict_equal none (some w) = false
strict_equal (some v) none = false

bool_text : Bool → String
bool_text true = "true"
bool_text false = "false"

-- `String(v)`; in an array, null and undefined are the empty text.
unfoldable mutual
  unfolding bool_text

  pub text_of : Json → String
  text_of null = "null"
  text_of (bool b) = bool_text b
  text_of (num n) = n
  text_of (str s) = s
  text_of (arr items) = items_text items
  text_of (obj _) = "[object Object]"

  pub items_text : Items → String
  items_text nil = ""
  items_text (cons v nil) = piece_text v
  items_text (cons v (cons w rest)) = piece_text v ++ "," ++ items_text (cons w rest)

  pub piece_text : Json → String
  piece_text null = ""
  piece_text (bool b) = bool_text b
  piece_text (num n) = n
  piece_text (str s) = s
  piece_text (arr items) = items_text items
  piece_text (obj _) = "[object Object]"

-- `String(v)`, also of `undefined`.
unfoldable pub value_text : Option Json → String
unfolding text_of
value_text none = "undefined"
value_text (some v) = text_of v

option_text : Option Json → String
unfolding text_of
option_text none = ""
option_text (some v) = piece_text v

-- `[…].join(separator)`
unfoldable pub join : String → List (Option Json) → String
unfolding option_text
join separator [] = ""
join separator (v ∷ []) = option_text v
join separator (v ∷ w ∷ rest) = option_text v ++ separator ++ join separator (w ∷ rest)
