-- ===== src/Prelude/Text.antt =====
-- Text as a list of code points, and the formatting of numbers. A `String` of the source is such a
-- list where the program looks inside it.
use Prim.Native.Char.{code}
use Prim.Native.Nat.{ℕ, zero, suc, ◌+◌, ◌-◌, ◌*◌, ◌/◌, ◌%◌, ◌≤◌, ◌<◌}
use Prim.Native.String.{String}
use mathlib.Core.Path.{◌≡◌, refl, sym, ap, ◌∙◌}
use mathlib.Core.Logic.{◌⊎◌, inl, inr}
use mathlib.Core.Bool.{◌&&◌}
use mathlib.Core.List.{List, [], ◌∷◌, ◌++◌}
use native.Mathlib.Omega.{arith}
use sai3_bench.Prelude.Tests.{ltb, ◌==◌, ==_iff, if◌then◌else◌, Bool-cases}
use sai3_bench.Prelude.Lists.{length, length-append, All, All-append}

abbrev pub Text : Type 0
Text = List ℕ

abbrev pub codes : String → Text
codes String.[] = []
codes (String.◌∷◌ c s) = code c ∷ codes s

-- How often a character stands in a text: str::matches(c).count()
unfoldable pub count : ℕ → Text → ℕ
count c [] = 0
count c (x ∷ xs) = (if x == c then 1 else 0) + count c xs

pub count-append : (c : ℕ) (xs ys : Text) → count c (xs ++ ys) ≡ count c xs + count c ys
unfolding count
count-append c [] ys = omega arith
count-append c (x ∷ xs) ys = omega (arith, count-append c xs ys)

-- The decimal digits of `n`, on fuel.
decimal_digits : ℕ → ℕ → Text
decimal_digits zero n = []
decimal_digits (suc fuel) n =
    let more = decimal_digits fuel (n / 10) ++ (48 + n % 10) ∷ [] in
    if ltb n 10 then (48 + n) ∷ [] else more

-- format!("{}", n)
unfoldable pub decimal : ℕ → Text
unfolding decimal_digits
decimal n = decimal_digits (suc n) n

zeros : ℕ → Text
zeros zero = []
zeros (suc n) = 48 ∷ zeros n

-- format!("{:08}", n)
unfoldable pub decimal_8 : ℕ → Text
unfolding zeros
decimal_8 n = zeros (8 - length (decimal n)) ++ decimal n

abbrev pub IsDigit : ℕ → Type 0
IsDigit c = (48 ≤ c) × (c ≤ 57)

decimal_digits-IsDigit : (fuel n : ℕ) → All IsDigit (decimal_digits fuel n)
unfolding decimal_digits
decimal_digits-IsDigit zero n = tt
decimal_digits-IsDigit (suc fuel) n = ground (
  arith,
  All-append IsDigit (decimal_digits fuel (n / 10)) ((48 + n % 10) ∷ [])
      (decimal_digits-IsDigit fuel (n / 10)) (omega arith),
)

count_digits : (c : ℕ) (xs : Text) → c < 48 → All IsDigit xs → count c xs ≡ 0
unfolding count
count_digits c [] h d = refl
count_digits c (x ∷ xs) h d = ground (arith, count_digits c xs h d.1, ==_iff x c)

-- A number's decimal form holds no character below the digits.
pub count-decimal : (c n : ℕ) → c < 48 → count c (decimal n) ≡ 0
unfolding decimal
count-decimal c n h = count_digits c (decimal_digits (suc n) n) h (decimal_digits-IsDigit (suc n) n)

-- The number that digits stand for, after those that gave `n`.
abbrev pub digits_value : ℕ → Text → ℕ
digits_value n [] = n
digits_value n (c ∷ cs) = digits_value (10 * n + (c - 48)) cs

digits_value-append :
    (n c : ℕ) (xs : Text) → digits_value n (xs ++ c ∷ []) ≡ 10 * digits_value n xs + (c - 48)
digits_value-append n c [] = refl
digits_value-append n c (x ∷ xs) = digits_value-append (10 * n + (x - 48)) c xs

digits_value-decimal_digits : (fuel n : ℕ) → n < fuel → digits_value 0 (decimal_digits fuel n) ≡ n
unfolding decimal_digits
digits_value-decimal_digits zero n h = absurd (omega arith)
digits_value-decimal_digits (suc fuel) n h = elim (Bool-cases (ltb n 10)) [
  | inl small ↦ ground arith
  | inr big ↦
      let less : n / 10 < fuel = ground arith in
      let last = digits_value-append 0 (48 + n % 10) (decimal_digits fuel (n / 10)) in
      let rest = digits_value-decimal_digits fuel (n / 10) less in ground arith
]

pub digits_value-decimal : (n : ℕ) → digits_value 0 (decimal n) ≡ n
unfolding decimal
digits_value-decimal n = digits_value-decimal_digits (suc n) n (omega arith)

pub decimal-IsDigit : (n : ℕ) → All IsDigit (decimal n)
unfolding decimal
decimal-IsDigit n = decimal_digits-IsDigit (suc n) n

pub length-decimal : (n : ℕ) → 0 < length (decimal n)
unfolding decimal decimal_digits
length-decimal n = ground (arith, length-append (decimal_digits n (n / 10)) ((48 + n % 10) ∷ []))

-- Two numbers with the same decimal form are the same.
pub decimal_injective : (m n : ℕ) → decimal m ≡ decimal n → m ≡ n
unfolding decimal
decimal_injective m n h =
    sym (digits_value-decimal_digits (suc m) m (omega arith))
    ∙ ap (digits_value 0) h
    ∙ digits_value-decimal_digits (suc n) n (omega arith)

zeros-IsDigit : (n : ℕ) → All IsDigit (zeros n)
unfolding zeros
zeros-IsDigit zero = tt
zeros-IsDigit (suc n) = (omega arith, zeros-IsDigit n)

pub decimal_8-IsDigit : (n : ℕ) → All IsDigit (decimal_8 n)
unfolding decimal_8
decimal_8-IsDigit n =
    All-append IsDigit (zeros (8 - length (decimal n))) (decimal n)
      (zeros-IsDigit (8 - length (decimal n))) (decimal-IsDigit n)

digits_value-zeros : (k : ℕ) (xs : Text) → digits_value 0 (zeros k ++ xs) ≡ digits_value 0 xs
unfolding zeros
digits_value-zeros zero xs = refl
digits_value-zeros (suc k) xs = digits_value-zeros k xs

pub digits_value-decimal_8 : (n : ℕ) → digits_value 0 (decimal_8 n) ≡ n
unfolding decimal_8
digits_value-decimal_8 n =
    digits_value-zeros (8 - length (decimal n)) (decimal n) ∙ digits_value-decimal n

pub length-decimal_8 : (n : ℕ) → 0 < length (decimal_8 n)
unfolding decimal_8
length-decimal_8 n =
    omega (arith, length-append (zeros (8 - length (decimal n))) (decimal n), length-decimal n)

-- A character that is no digit is not among digits.
pub count_other : (c : ℕ) (xs : Text) → (c < 48) ⊎ (57 < c) → All IsDigit xs → count c xs ≡ 0
unfolding count
count_other c [] h d = refl
count_other c (x ∷ xs) h d = ground (arith, count_other c xs h d.1, ==_iff x c)

-- The first occurrence of the characters `a`, `b` replaced: str::replacen(pattern, with, 1)
unfoldable pub replace_first : ℕ → ℕ → Text → Text → Text
replace_first a b new [] = []
replace_first a b new (x ∷ []) = x ∷ []
replace_first a b new (x ∷ y ∷ rest) =
    if x == a && y == b then new ++ rest else x ∷ replace_first a b new (y ∷ rest)

pub count-replace_first :
    (c a b : ℕ) (new xs : Text)
    → count c new ≡ 0
    → count c xs ≡ 0
    → count c (replace_first a b new xs) ≡ 0
unfolding count replace_first
count-replace_first c a b new [] h k = refl
count-replace_first c a b new (x ∷ []) h k = k
count-replace_first c a b new (x ∷ y ∷ rest) h k =
    ground (arith, count-replace_first c a b new (y ∷ rest) h, count-append c new rest)

decimal_runs : decimal 1207 ≡ codes "1207"
unfolding decimal
decimal_runs = refl

decimal_8_runs : decimal_8 42 ≡ codes "00000042"
unfolding decimal_8 decimal
decimal_8_runs = refl
