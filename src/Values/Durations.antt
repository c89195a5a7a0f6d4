-- ===== src/Values/Durations.antt =====
-- src/serde_helpers.rs: what a duration in a configuration is read as.
use sai3_bench.Prelude.{
  ℕ, ◌*◌, ◌≡◌, ◌<◌, refl, ap, ◌∙◌, true, false, none, some, [], ◌∷◌, ◌++◌, All, All-append, length,
  ltb, ◌==◌, if◌then◌else◌, u64, inl, inr, arith,
}
use sai3_bench.Prelude.Text.{
  Text, decimal, digits_value, digits_value-decimal, IsDigit, decimal-IsDigit, length-decimal,
}
use sai3_bench.Values.{
  is_whitespace, trim, trim_end, unless_blank, all_digits, parse_u64, strip_suffix, overflow,
  TimeUnit, seconds, minutes, hours, days, seconds_in, split_unit, checked_mul, to_seconds,
  with_unit, trimmed_duration, parse_duration_string,
}

abbrev pub suffix_of : TimeUnit → ℕ
suffix_of seconds = 115
suffix_of minutes = 109
suffix_of hours = 104
suffix_of days = 100

abbrev NoBlank : Text → Type 0
NoBlank = All (λ c. is_whitespace c ≡ false)

trim_end_lem : (t : Text) → NoBlank t → trim_end t ≡ t
trim_end_lem [] h = refl
trim_end_lem (c ∷ []) h = rw (h.0) refl
trim_end_lem (c ∷ d ∷ ds) h = ap (unless_blank c) (trim_end_lem (d ∷ ds) h.1)

trim_lem : (t : Text) → NoBlank t → trim t ≡ t
unfolding trim
trim_lem [] h = refl
trim_lem (c ∷ cs) h = rw (h.0, trim) (trim_end_lem (c ∷ cs) h)

digits_visible : (ds : Text) → All IsDigit ds → NoBlank ds
digits_visible [] h = tt
digits_visible (d ∷ ds) h = (ground arith, digits_visible ds h.1)

suffix_visible : (u : TimeUnit) → is_whitespace (suffix_of u) ≡ false
suffix_visible seconds = refl
suffix_visible minutes = refl
suffix_visible hours = refl
suffix_visible days = refl

all_digits_lem : (ds : Text) → All IsDigit ds → all_digits ds ≡ true
all_digits_lem [] h = refl
all_digits_lem (d ∷ ds) h = ground (arith, all_digits_lem ds h.1)

suffix_no_digit : (u : TimeUnit) (ds : Text) → all_digits (ds ++ suffix_of u ∷ []) ≡ false
suffix_no_digit seconds [] = refl
suffix_no_digit minutes [] = refl
suffix_no_digit hours [] = refl
suffix_no_digit days [] = refl
suffix_no_digit u (d ∷ ds) = ground (arith, suffix_no_digit u ds)

strip_suffix_lem :
    (c d : ℕ) (ds : Text) → strip_suffix c (ds ++ d ∷ []) ≡ (if d == c then some ds else none)
strip_suffix_lem c d [] = refl
strip_suffix_lem c d (x ∷ []) = ground arith
strip_suffix_lem c d (x ∷ y ∷ ds) = ground (arith, strip_suffix_lem c d (y ∷ ds))

split_unit_lem : (u : TimeUnit) (ds : Text) → split_unit (ds ++ suffix_of u ∷ []) ≡ some (ds, u)
unfolding split_unit
split_unit_lem seconds ds = rw (strip_suffix_lem 115 115 ds, split_unit) refl
split_unit_lem minutes ds =
    rw (strip_suffix_lem 115 109 ds, strip_suffix_lem 109 109 ds, split_unit) refl
split_unit_lem hours ds =
    rw
      (
        strip_suffix_lem 115 104 ds,
        strip_suffix_lem 109 104 ds,
        strip_suffix_lem 104 104 ds,
        split_unit,
      )
      refl
split_unit_lem days ds =
    rw
      (
        strip_suffix_lem 115 100 ds,
        strip_suffix_lem 109 100 ds,
        strip_suffix_lem 104 100 ds,
        strip_suffix_lem 100 100 ds,
        split_unit,
      )
      refl

pub parse_u64_digits :
    (d : ℕ) (ds : Text)
    → All IsDigit (d ∷ ds)
    → digits_value 0 (d ∷ ds) < u64
    → parse_u64 (d ∷ ds) ≡ some (digits_value 0 (d ∷ ds))
unfolding parse_u64
parse_u64_digits d ds h small = ground (arith, all_digits_lem (d ∷ ds) h, small)

parse_u64_suffix :
    (u : TimeUnit) (d : ℕ) (ds : Text)
    → All IsDigit (d ∷ ds)
    → parse_u64 ((d ∷ ds) ++ suffix_of u ∷ []) ≡ none
unfolding parse_u64
parse_u64_suffix u d ds h = ground (arith, suffix_no_digit u ds, h.0)

to_seconds_lem :
    (n : ℕ) (u : TimeUnit)
    → n < u64
    → to_seconds n u ≡ (if ltb (n * seconds_in u) u64 then inr (n * seconds_in u) else inl overflow)
unfolding to_seconds checked_mul
to_seconds_lem n seconds h =
    let same : n ≡ n * 1 = omega arith in
    let fits : ltb (n * 1) u64 ≡ true = ground arith in rw (fits) (ap (λ k. inr k) same)
to_seconds_lem n minutes h = ground arith
to_seconds_lem n hours h = ground arith
to_seconds_lem n days h = ground arith

digits_unit :
    (u : TimeUnit) (ds : Text)
    → All IsDigit ds
    → 0 < length ds
    → digits_value 0 ds < u64
    → parse_duration_string (ds ++ suffix_of u ∷ []) ≡ to_seconds (digits_value 0 ds) u
unfolding parse_duration_string with_unit trimmed_duration
digits_unit u [] h some_digit small = absurd (omega arith)
digits_unit u (d ∷ ds) h some_digit small =
    let whole = (d ∷ ds) ++ suffix_of u ∷ [] in
    let trimmed : trim whole ≡ whole = trim_lem whole (
      All-append (λ c. is_whitespace c ≡ false) (d ∷ ds) (suffix_of u ∷ [])
        (digits_visible (d ∷ ds) h) (suffix_visible u, tt)) in
    ap trimmed_duration trimmed
    ∙ rw (parse_u64_suffix u d ds h, trimmed_duration)
        (rw (split_unit_lem u (d ∷ ds), with_unit)
          (rw (trim_lem (d ∷ ds) (digits_visible (d ∷ ds) h))
            (rw (parse_u64_digits d ds h small) refl)))

-- A number followed by the letter of a unit is read as the seconds in that many units, or as an
-- overflow when these are 2^64 or more.
pub parse_duration_string-decimal :
    (n : ℕ) (u : TimeUnit)
    → n < u64
    → parse_duration_string (decimal n ++ suffix_of u ∷ [])
      ≡ (if ltb (n * seconds_in u) u64 then inr (n * seconds_in u) else inl overflow)
parse_duration_string-decimal n u h =
    let value = digits_value-decimal n in
    digits_unit u (decimal n) (decimal-IsDigit n) (length-decimal n) (omega (arith, value))
    ∙ ap (λ k. to_seconds k u) value
    ∙ to_seconds_lem n u h
