-- ===== src/Merchant/Catalog/Order.antt =====
-- What the order of the statement puts first.
use mathlib.Core.List.{Memᴰ}
use agentic_attribution.Prelude.{
  String, Bool, true, false, Option, none, some, List, [], ◌∷◌, ◌≡◌, inl, inr, refl, arith, ap,
  Bool-cases,
}
use agentic_attribution.Merchant.Catalog.{Stored, is_meant, comes_before, earlier, first_meant}

asymmetric : (a b : Stored) → comes_before a b ≡ true → comes_before b a ≡ false
unfolding comes_before
asymmetric a b h = ground arith

-- Nothing is before a row that is not before one with nothing before it.
still_first :
    (a b c : Stored)
    → comes_before a b ≡ false
    → comes_before b c ≡ false
    → comes_before a c ≡ false
unfolding comes_before
still_first a b c h k = ground arith

module _ (filtered : Bool) (params : List String) where
  abbrev pub IsFirst : List Stored → Option Stored → Type 0
  IsFirst table none =
      (row : Stored) → Memᴰ row table → is_meant filtered params row ≡ true → Memᴰ row []
  IsFirst table (some best) =
      Memᴰ best table
      × (is_meant filtered params best ≡ true)
      × ((row : Stored)
          → Memᴰ row table
          → is_meant filtered params row ≡ true
          → comes_before row best ≡ false)

  irreflexive : (a : Stored) → comes_before a a ≡ false
  unfolding comes_before
  irreflexive a = ground arith

  earlier-IsFirst :
      (row : Stored) (rows : List Stored) (rest : Option Stored)
      → is_meant filtered params row ≡ true
      → IsFirst rows rest
      → IsFirst (row ∷ rows) (earlier row rest)
  unfolding earlier
  earlier-IsFirst row rows none m h = (Memᴰ.head refl, m, λ o i n. alone o i n)
    where
      alone :
          (o : Stored)
          → Memᴰ o (row ∷ rows)
          → is_meant filtered params o ≡ true
          → comes_before o row ≡ false
      alone o (Memᴰ.head e) n = rw e (irreflexive row)
      alone o (Memᴰ.tail i) n = elim (h o i n) [ ]
  earlier-IsFirst row rows (some other) m (i, n, f) = elim (Bool-cases (comes_before other row)) [
    | inl p ↦ rw p (Memᴰ.tail i, n, below other (asymmetric other row p) f)
    | inr p ↦ rw p (
      Memᴰ.head refl,
      m,
      below row (irreflexive row) (λ o j k. still_first o other row (f o j k) p),
    )
  ]
    where
      below :
          (best : Stored)
          → comes_before row best ≡ false
          → ((o : Stored)
              → Memᴰ o rows
              → is_meant filtered params o ≡ true
              → comes_before o best ≡ false)
          → (o : Stored) → Memᴰ o (row ∷ rows)
          → is_meant filtered params o ≡ true
          → comes_before o best ≡ false
      below best p g o (Memᴰ.head e) k = rw e p
      below best p g o (Memᴰ.tail j) k = g o j k

  passed :
      (P : Stored → Type 0) (row : Stored) (rows : List Stored)
      → is_meant filtered params row ≡ false
      → ((o : Stored) → Memᴰ o rows → is_meant filtered params o ≡ true → P o)
      → (o : Stored) → Memᴰ o (row ∷ rows)
      → is_meant filtered params o ≡ true
      → P o
  passed P row rows m f o (Memᴰ.head e) n =
      absurd (ground (arith, ap (is_meant filtered params) e, m, n))
  passed P row rows m f o (Memᴰ.tail i) n = f o i n

  passed-IsFirst :
      (row : Stored) (rows : List Stored) (rest : Option Stored)
      → is_meant filtered params row ≡ false
      → IsFirst rows rest
      → IsFirst (row ∷ rows) rest
  passed-IsFirst row rows none m h = passed (λ o. Memᴰ o []) row rows m h
  passed-IsFirst row rows (some best) m (i, n, f) =
      (Memᴰ.tail i, n, passed (λ o. comes_before o best ≡ false) row rows m f)

  pub first_meant-IsFirst :
      (table : List Stored) → IsFirst table (first_meant filtered params table)
  unfolding first_meant
  first_meant-IsFirst [] = λ row i m. i
  first_meant-IsFirst (row ∷ rows) =
      let rest = first_meant-IsFirst rows in
      elim (Bool-cases (is_meant filtered params row)) [
        | inl m ↦ rw m (earlier-IsFirst row rows _ m rest)
        | inr m ↦ rw m (passed-IsFirst row rows _ m rest)
      ]
