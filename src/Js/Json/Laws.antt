-- ===== src/Js/Json/Laws.antt =====
-- Reading JSON values: when it throws, and what equality tells.
use agentic_attribution.Prelude.{
  String, true, Option, none, some, ◌≡◌, refl, ok, arith, eq_iff, eq_refl,
}
use agentic_attribution.Js.Json.{
  Json, null, bool, num, str, arr, obj, is_object_value, read, property, strict_equal, as_string,
}

-- A property of an object can be read.
pub read_of_object :
    (v : Option Json) (key : String)
    → is_object_value v ≡ true
    → (j : Json) × (v ≡ some j) × (read v key ≡ ok (property j key))
unfolding read is_object_value
read_of_object (some (arr items)) key h = (arr items, refl, refl)
read_of_object (some (obj members)) key h = (obj members, refl, refl)
read_of_object none key h = ground arith
read_of_object (some null) key h = ground arith
read_of_object (some (bool b)) key h = ground arith
read_of_object (some (num n)) key h = ground arith
read_of_object (some (str s)) key h = ground arith

pub strict_equal-str :
    (v : Option Json) (s : String) → strict_equal v (some (str s)) ≡ true → v ≡ some (str s)
unfolding strict_equal
strict_equal-str (some (str t)) s h = ground (arith, eq_iff t s)
strict_equal-str none s h = ground arith
strict_equal-str (some null) s h = ground arith
strict_equal-str (some (bool b)) s h = ground arith
strict_equal-str (some (num n)) s h = ground arith
strict_equal-str (some (arr items)) s h = ground arith
strict_equal-str (some (obj members)) s h = ground arith

pub str-strict_equal : (s : String) → strict_equal (some (str s)) (some (str s)) ≡ true
unfolding strict_equal
str-strict_equal s = eq_refl s

pub as_string-eq-some : (v : Option Json) (s : String) → as_string v ≡ some s → v ≡ some (str s)
as_string-eq-some (some (str t)) s h = ground arith
as_string-eq-some none s h = ground arith
as_string-eq-some (some null) s h = ground arith
as_string-eq-some (some (bool b)) s h = ground arith
as_string-eq-some (some (num n)) s h = ground arith
as_string-eq-some (some (arr items)) s h = ground arith
as_string-eq-some (some (obj members)) s h = ground arith
