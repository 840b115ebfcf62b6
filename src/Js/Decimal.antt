-- ===== src/Js/Decimal.antt =====
-- `BigInt(text)` by the grammar of the language, `text.trim()`, and decimal printing.
pub mod Laws
pub mod RoundTrip
use Prim.Native.Char.{code}
use Prim.Native.String.{◌++◌}
use mathlib.Core.Option
use mathlib.Core.List.{reverse}
use agentic_attribution.Prelude.{
  ℕ, zero, suc, ◌+◌, ◌-◌, ◌*◌, ◌/◌, ◌%◌, String, Bool, false, ◌&&◌, ◌||◌, Option, none, some, List,
  [], ◌∷◌, ltb, leb, ◌==◌, if◌then◌else◌, all, any,
}
use agentic_attribution.Js.Integer.{ℤ, pos, negsuc, negate}

-- The code points of a text.
abbrev pub codes : String → List ℕ
codes String.[] = []
codes (String.◌∷◌ c s) = code c ∷ codes s

-- White space and line terminators.
unfoldable pub is_space : ℕ → Bool
is_space c =
    (leb 9 c && leb c 13)
    || (leb 0x2000 c && leb c 0x200a)
    || any (λ k. k == c)
        (0x20 ∷ 0xa0 ∷ 0x1680 ∷ 0x2028 ∷ 0x2029 ∷ 0x202f ∷ 0x205f ∷ 0x3000 ∷ 0xfeff ∷ [])

drop_spaces : List ℕ → List ℕ
unfolding is_space
drop_spaces [] = []
drop_spaces (c ∷ s) = if is_space c then drop_spaces s else c ∷ s

unfoldable pub trim : List ℕ → List ℕ
unfolding drop_spaces
trim s = reverse (drop_spaces (reverse (drop_spaces s)))

-- `text.trim() === ''`
unfoldable pub is_blank : List ℕ → Bool
unfolding is_space
is_blank s = all is_space s

-- The value of a digit, 16 where there is none.
digit_value : ℕ → ℕ
digit_value c =
    if leb b'0' c && leb c b'9'
    then c - b'0'
    else if leb b'a' c && leb c b'f'
    then c - b'a' + 10
    else if leb b'A' c && leb c b'F'
    then c - b'A' + 10
    else 16

pub scan : ℕ → ℕ → List ℕ → Option ℕ
unfolding digit_value
scan base n [] = some n
scan base n (c ∷ s) =
    let rest = scan base (n * base + digit_value c) s in
    if ltb (digit_value c) base then rest else none

-- At least one digit.
magnitude : ℕ → List ℕ → Option ℕ
unfolding scan
magnitude base [] = none
magnitude base (c ∷ s) = scan base 0 (c ∷ s)

-- What follows a first `0`: `x`, `o` and `b` choose another base.
after_zero : List ℕ → Option ℕ
unfolding magnitude
after_zero [] = some 0
after_zero (c ∷ s) =
    if c == b'x' || c == b'X'
    then magnitude 16 s
    else if c == b'o' || c == b'O'
    then magnitude 8 s
    else if c == b'b' || c == b'B'
    then magnitude 2 s
    else magnitude 10 (c ∷ s)

pub literal : List ℕ → Option ℤ
unfolding magnitude after_zero
literal [] = some (pos 0)
literal (c ∷ s) =
    if c == b'-'
    then Option.map negate (magnitude 10 s)
    else if c == b'+'
    then Option.map pos (magnitude 10 s)
    else if c == b'0'
    then Option.map pos (after_zero s)
    else Option.map pos (magnitude 10 (c ∷ s))

-- `BigInt(text)`; `none` is the SyntaxError.
unfoldable pub big_int : List ℕ → Option ℤ
unfolding trim literal
big_int s = literal (trim s)

pub is_digit : ℕ → Bool
is_digit c = leb b'0' c && leb c b'9'

-- `/^\d+$/.test(text)`
unfoldable pub is_decimal : List ℕ → Bool
unfolding is_digit
is_decimal [] = false
is_decimal (c ∷ s) = all is_digit (c ∷ s)

digit_text : ℕ → String
digit_text zero = "0"
digit_text (suc zero) = "1"
digit_text (suc (suc zero)) = "2"
digit_text (suc (suc (suc zero))) = "3"
digit_text (suc (suc (suc (suc zero)))) = "4"
digit_text (suc (suc (suc (suc (suc zero))))) = "5"
digit_text (suc (suc (suc (suc (suc (suc zero)))))) = "6"
digit_text (suc (suc (suc (suc (suc (suc (suc zero))))))) = "7"
digit_text (suc (suc (suc (suc (suc (suc (suc (suc zero)))))))) = "8"
digit_text (suc (suc (suc (suc (suc (suc (suc (suc (suc n))))))))) = "9"

-- A number has at most as many digits as it has units, so `suc n` is fuel enough for `n`.
print : ℕ → ℕ → String
unfolding digit_text
print zero n = ""
print (suc fuel) n =
    let longer = print fuel (n / 10) ++ digit_text (n % 10) in
    if ltb n 10 then digit_text n else longer

-- `String(n)` of a whole number, as `bigint` prints it.
unfoldable pub to_string : ℕ → String
unfolding print
to_string n = print (suc n) n

-- `String(n)` of an integer.
unfoldable pub integer_text : ℤ → String
unfolding to_string
integer_text (pos n) = to_string n
integer_text (negsuc n) = "-" ++ to_string (suc n)
