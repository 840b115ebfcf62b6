-- ===== src/Js/Decimal/RoundTrip.antt =====
-- `BigInt(String(n))` is `n`.
use mathlib.Core.List.{append_assoc, append-nil}
use agentic_attribution.Prelude.{
  ℕ, zero, suc, ◌+◌, ◌*◌, ◌/◌, ◌%◌, ◌<◌, true, some, List, [], ◌∷◌, ◌++◌, ◌≡◌, refl, arith, all,
  ltb, Bool-cases, inl, inr, ltb→lt,
}
use agentic_attribution.Js.Integer.{pos}
use agentic_attribution.Js.Decimal.{
  codes, is_digit, is_decimal, scan, digit_value, big_int, digit_text, print, to_string,
}
use agentic_attribution.Js.Decimal.Laws.{codes-append, all-append, literal-digits, trim-digits}

-- What one printed digit is.
digit : (n : ℕ) → n < 10 → (codes (digit_text n) ≡ (48 + n) ∷ [])
unfolding digit_text
digit zero h = refl
digit (suc zero) h = refl
digit (suc (suc zero)) h = refl
digit (suc (suc (suc zero))) h = refl
digit (suc (suc (suc (suc zero)))) h = refl
digit (suc (suc (suc (suc (suc zero))))) h = refl
digit (suc (suc (suc (suc (suc (suc zero)))))) h = refl
digit (suc (suc (suc (suc (suc (suc (suc zero))))))) h = refl
digit (suc (suc (suc (suc (suc (suc (suc (suc zero)))))))) h = refl
digit (suc (suc (suc (suc (suc (suc (suc (suc (suc zero))))))))) h = refl
digit (suc (suc (suc (suc (suc (suc (suc (suc (suc (suc n)))))))))) h = absurd (omega arith)

scan-digit :
    (m n : ℕ) (rest : List ℕ)
    → n < 10
    → scan 10 m (codes (digit_text n) ++ rest) ≡ scan 10 (m * 10 + n) rest
unfolding scan digit_value
scan-digit m n rest h = rw (digit n h) (ground arith)

digit-all : (n : ℕ) → n < 10 → all is_digit (codes (digit_text n)) ≡ true
unfolding is_digit
digit-all n h = rw (digit n h) (ground arith)

-- With fuel enough, the printed text scans to the number, whatever follows it.
print-scan :
    (fuel n : ℕ) (rest : List ℕ)
    → n < fuel
    → scan 10 0 (codes (print fuel n) ++ rest) ≡ scan 10 n rest
unfolding print
print-scan zero n rest h = elim h [ ]
print-scan (suc fuel) n rest h = elim (Bool-cases (ltb n 10)) [
  | inl short ↦ rw (short, scan-digit 0 n rest (ltb→lt n 10 short)) (ground arith)
  | inr long ↦
      rw
        (
          long,
          codes-append (print fuel (n / 10)) (digit_text (n % 10)),
          append_assoc (codes (print fuel (n / 10))) (codes (digit_text (n % 10))) rest,
          print-scan fuel (n / 10) (codes (digit_text (n % 10)) ++ rest) (ground arith),
          scan-digit (n / 10) (n % 10) rest (omega arith),
        )
        (ground arith)
]

print-digits : (fuel n : ℕ) → all is_digit (codes (print fuel n)) ≡ true
unfolding print
print-digits zero n = refl
print-digits (suc fuel) n = elim (Bool-cases (ltb n 10)) [
  | inl short ↦ rw short (digit-all n (ltb→lt n 10 short))
  | inr long ↦
      rw (long, codes-append (print fuel (n / 10)) (digit_text (n % 10)))
        (all-append is_digit (codes (print fuel (n / 10))) (codes (digit_text (n % 10)))
          (print-digits fuel (n / 10)) (digit-all (n % 10) (omega arith)))
]

print-ne-nil : (fuel n : ℕ) → n < fuel → (c : ℕ) × (s : List ℕ) × (codes (print fuel n) ≡ c ∷ s)
unfolding print
print-ne-nil zero n h = elim h [ ]
print-ne-nil (suc fuel) n h = elim (Bool-cases (ltb n 10)) [
  | inl short ↦ (48 + n, [], rw (short, digit n (ltb→lt n 10 short)))
  | inr long ↦
      let (c, s, e) = print-ne-nil fuel (n / 10) (ground arith) in
      (
        c,
        s ++ codes (digit_text (n % 10)),
        rw (long, codes-append (print fuel (n / 10)) (digit_text (n % 10)), e),
      )
]

-- What is printed is decimal.
pub to_string-is_decimal : (n : ℕ) → is_decimal (codes (to_string n)) ≡ true
unfolding to_string is_decimal
to_string-is_decimal n =
    let (c, s, e) = print-ne-nil (suc n) n (omega arith) in
    let d = print-digits (suc n) n in rw e (rw e at d)

big_int-digits :
    (s : List ℕ) (n : ℕ)
    → all is_digit s ≡ true
    → is_decimal s ≡ true
    → scan 10 0 s ≡ some n
    → big_int s ≡ some (pos n)
unfolding big_int is_decimal
big_int-digits [] n d h e = ground arith
big_int-digits (c ∷ s) n d h e = rw (trim-digits (c ∷ s) d, literal-digits c s d, e)

-- Reading the decimal text of a number gives the number back.
pub big_int-to_string : (n : ℕ) → big_int (codes (to_string n)) ≡ some (pos n)
unfolding to_string scan
big_int-to_string n =
    big_int-digits (codes (print (suc n) n)) n (print-digits (suc n) n) (to_string-is_decimal n)
      (rw append-nil at (print-scan (suc n) n [] (omega arith)))
