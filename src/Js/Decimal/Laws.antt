-- ===== src/Js/Decimal/Laws.antt =====
-- Printing a number and reading it back; which texts `BigInt` accepts.
use mathlib.Core.Option
use Prim.Native.Char.{code}
use mathlib.Core.List.{reverse, reverse-cons, reverse-reverse}
use Prim.Native.String.{◌++◌ as str_append}
use text.Mathlib.TextLemmas.{nil-append, cons-append}
use agentic_attribution.Prelude.{
  ℕ, ◌+◌, ◌*◌, ◌<◌, String, Bool, true, false, some, List, [], ◌∷◌, ◌++◌, ◌≡◌, refl, ap, arith, all,
}
use agentic_attribution.Js.Integer.{pos}
use agentic_attribution.Js.Decimal.{
  codes, is_space, is_blank, drop_spaces, trim, is_digit, is_decimal, digit_value, scan, magnitude,
  after_zero, literal, big_int,
}

pub codes-append : (s t : String) → codes (str_append s t) ≡ codes s ++ codes t
codes-append String.[] t = rw nil-append
codes-append (String.◌∷◌ c s) t = rw cons-append (ap (λ l. code c ∷ l) (codes-append s t))

pub all-append :
    (p : ℕ → Bool) (s t : List ℕ) → all p s ≡ true → all p t ≡ true → all p (s ++ t) ≡ true
all-append p [] t h k = k
all-append p (c ∷ s) t h k = ground (arith, all-append p s t)

all-reverse : (p : ℕ → Bool) (s : List ℕ) → all p s ≡ true → all p (reverse s) ≡ true
all-reverse p [] h = h
all-reverse p (c ∷ s) h =
    rw (reverse-cons c s)
      (all-append p (reverse s) (c ∷ []) (all-reverse p s (ground arith)) (ground arith))

digit-not_space : (c : ℕ) → is_digit c ≡ true → is_space c ≡ false
unfolding is_digit is_space
digit-not_space c h = ground arith

drop_spaces-digits : (s : List ℕ) → all is_digit s ≡ true → drop_spaces s ≡ s
unfolding drop_spaces
drop_spaces-digits [] h = refl
drop_spaces-digits (c ∷ s) h = ground (arith, digit-not_space c)

pub trim-digits : (s : List ℕ) → all is_digit s ≡ true → trim s ≡ s
unfolding trim
trim-digits s h =
    rw (drop_spaces-digits s h, drop_spaces-digits (reverse s) (all-reverse is_digit s h))
      (reverse-reverse s)

digit-value : (c : ℕ) → is_digit c ≡ true → digit_value c < 10
unfolding is_digit digit_value
digit-value c h = ground arith

pub scan-digits : (n : ℕ) (s : List ℕ) → all is_digit s ≡ true → (m : ℕ) × (scan 10 n s ≡ some m)
unfolding scan
scan-digits n [] h = (n, refl)
scan-digits n (c ∷ s) h =
    let (m, e) = scan-digits (n * 10 + digit_value c) s (ground arith) in
    (m, ground (arith, digit-value c))

-- A leading zero changes nothing.
scan-zero : (s : List ℕ) → scan 10 0 (b'0' ∷ s) ≡ scan 10 0 s
unfolding scan digit_value
scan-zero s = refl

after_zero-digits : (s : List ℕ) → all is_digit s ≡ true → after_zero s ≡ scan 10 0 s
unfolding after_zero magnitude is_digit
after_zero-digits [] h = refl
after_zero-digits (c ∷ s) h = ground arith

-- Decimal digits mean the number that they spell.
pub literal-digits :
    (c : ℕ) (s : List ℕ)
    → all is_digit (c ∷ s) ≡ true
    → literal (c ∷ s) ≡ Option.map pos (scan 10 0 (c ∷ s))
unfolding literal magnitude is_digit
literal-digits c s h = ground (arith, after_zero-digits s, scan-zero s)

-- `BigInt` throws on no text that `/^\d+$/` accepts, and returns a natural number.
pub is_decimal-big_int : (s : List ℕ) → is_decimal s ≡ true → (n : ℕ) × (big_int s ≡ some (pos n))
unfolding is_decimal big_int
is_decimal-big_int (c ∷ s) h =
    let (n, e) = scan-digits 0 (c ∷ s) h in (n, rw (trim-digits (c ∷ s) h, literal-digits c s h, e))
is_decimal-big_int [] h = ground arith

-- A decimal text is not blank.
pub is_decimal-not_blank : (s : List ℕ) → is_decimal s ≡ true → is_blank s ≡ false
unfolding is_decimal is_blank is_space is_digit
is_decimal-not_blank (c ∷ s) h = ground arith
is_decimal-not_blank [] h = ground arith
