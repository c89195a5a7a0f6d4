-- ===== src/Values.antt =====
-- The numbers of a configuration file: src/serde_helpers.rs (durations, and numbers with
-- separators) and src/size_generator.rs (the sizes of objects). Text is a list of code points.
-- The YAML reader gives a number or a text; random samples are arguments.
pub mod Durations
mod Sizes
mod Tests
use sai3_bench.Prelude.{
  ℕ, zero, suc, ◌+◌, ◌-◌, ◌*◌, Bool, true, false, ◌||◌, ◌&&◌, Option, none, some, List, [], ◌∷◌,
  ltb, leb, ◌==◌, if◌then◌else◌, unwrap_or, u64, ◌⊎◌, inl, inr, max, min,
}
use sai3_bench.Prelude.Text.{Text, digits_value}

-- char::is_whitespace
abbrev pub is_whitespace : ℕ → Bool
is_whitespace c =
    (leb 9 c && leb c 13)
    || ((c == 32)
        || ((c == 133)
            || ((c == 160)
                || ((c == 5760)
                    || ((leb 8192 c && leb c 8202)
                        || ((c == 8232)
                            || ((c == 8233) || ((c == 8239) || ((c == 8287) || (c == 12288))))))))))

abbrev pub trim_start : Text → Text
trim_start [] = []
trim_start (c ∷ cs) = let rest = trim_start cs in if is_whitespace c then rest else c ∷ cs

abbrev pub unless_blank : ℕ → Text → Text
unless_blank c [] = if is_whitespace c then [] else c ∷ []
unless_blank c (d ∷ ds) = c ∷ d ∷ ds

abbrev pub trim_end : Text → Text
trim_end [] = []
trim_end (c ∷ cs) = unless_blank c (trim_end cs)

-- str::trim
pub trim : Text → Text
trim t = trim_end (trim_start t)

abbrev pub is_digit : ℕ → Bool
is_digit c = leb 48 c && leb c 57

abbrev pub all_digits : Text → Bool
all_digits [] = true
all_digits (c ∷ cs) = is_digit c && all_digits cs

abbrev pub number_of : Text → Option ℕ
number_of [] = none
number_of (c ∷ cs) =
    if all_digits (c ∷ cs)
    then if ltb (digits_value 0 (c ∷ cs)) u64 then some (digits_value 0 (c ∷ cs)) else none
    else none

-- str::parse::<u64>, which accepts one plus sign.
unfoldable pub parse_u64 : Text → Option ℕ
parse_u64 [] = none
parse_u64 (c ∷ cs) = if c == 43 then number_of cs else number_of (c ∷ cs)

-- str::strip_suffix of one character.
abbrev pub strip_suffix : ℕ → Text → Option Text
strip_suffix c [] = none
strip_suffix c (d ∷ []) = if d == c then some [] else none
strip_suffix c (d ∷ e ∷ ds) = elim (strip_suffix c (e ∷ ds)) [
  | none ↦ none
  | some rest ↦ some (d ∷ rest)
]

pub data ValueError : Type 0 where
  not_a_number not_u64 empty_duration no_unit overflow wrong_kind : ValueError

pub data TimeUnit : Type 0 where
  seconds minutes hours days : TimeUnit

abbrev pub seconds_in : TimeUnit → ℕ
seconds_in seconds = 1
seconds_in minutes = 60
seconds_in hours = 3600
seconds_in days = 86400

-- The text before the unit, and the unit.
pub split_unit : Text → Option (Text × TimeUnit)
split_unit t = elim (strip_suffix 115 t) [
  | some n ↦ some (n, seconds)
  | none ↦ elim (strip_suffix 109 t) [
    | some n ↦ some (n, minutes)
    | none ↦ elim (strip_suffix 104 t) [
      | some n ↦ some (n, hours)
      | none ↦ elim (strip_suffix 100 t) [ some n ↦ some (n, days) | none ↦ none ]
    ]
  ]
]

pub checked_mul : ℕ → ℕ → Option ℕ
checked_mul a b = if ltb (a * b) u64 then some (a * b) else none

-- The unit of seconds does not multiply.
pub to_seconds : ℕ → TimeUnit → ValueError ⊎ ℕ
to_seconds num seconds = inr num
to_seconds num minutes = elim (checked_mul num 60) [ none ↦ inl overflow | some n ↦ inr n ]
to_seconds num hours = elim (checked_mul num 3600) [ none ↦ inl overflow | some n ↦ inr n ]
to_seconds num days = elim (checked_mul num 86400) [ none ↦ inl overflow | some n ↦ inr n ]

pub with_unit : Text → ValueError ⊎ ℕ
with_unit [] = inl empty_duration
with_unit (c ∷ cs) = elim (split_unit (c ∷ cs)) [
  | none ↦ inl no_unit
  | some (num_str, unit) ↦ elim (parse_u64 (trim num_str)) [
    | none ↦ inl not_a_number
    | some num ↦ to_seconds num unit
  ]
]

-- What a text without blanks around it says.
pub trimmed_duration : Text → ValueError ⊎ ℕ
trimmed_duration t = elim (parse_u64 t) [ some n ↦ inr n | none ↦ with_unit t ]

pub parse_duration_string : Text → ValueError ⊎ ℕ
parse_duration_string s = trimmed_duration (trim s)

-- A value of the YAML reader: a number, which is a u64 or not, a text, or something else.
pub data YamlValue : Type 0 where
  number : Option ℕ → YamlValue
  text : Text → YamlValue
  other : YamlValue

abbrev pub as_u64 : Option ℕ → ValueError ⊎ ℕ
as_u64 none = inl not_u64
as_u64 (some n) = inr n

pub deserialize_duration_seconds : YamlValue → ValueError ⊎ ℕ
deserialize_duration_seconds (number n) = as_u64 n
deserialize_duration_seconds (text s) = parse_duration_string s
deserialize_duration_seconds other = inl wrong_kind

abbrev pub is_separator : ℕ → Bool
is_separator c = (c == 44) || ((c == 95) || (c == 32))

-- s.replace([',', '_', ' '], "")
abbrev pub cleaned : Text → Text
cleaned [] = []
cleaned (c ∷ cs) = if is_separator c then cleaned cs else c ∷ cleaned cs

pub deserialize_u64_with_separators : YamlValue → ValueError ⊎ ℕ
deserialize_u64_with_separators (number n) = as_u64 n
deserialize_u64_with_separators (text s) = elim (parse_u64 (cleaned s)) [
  | none ↦ inl not_a_number
  | some n ↦ inr n
]
deserialize_u64_with_separators other = inl wrong_kind

pub data DistributionType : Type 0 where
  uniform lognormal : DistributionType

pub record SizeDistribution : Type 0 where
  pub dist_type : DistributionType
  pub dist_min : Option ℕ
  pub dist_max : Option ℕ
  pub mean : Option ℕ
  pub std_dev : Option ℕ

pub data SizeSpec : Type 0 where
  fixed : ℕ → SizeSpec
  distribution : SizeDistribution → SizeSpec

pub data SizeError : Type 0 where
  zero_size min_above_max zero_min no_mean no_std_dev zero_mean zero_std_dev : SizeError

pub data Generator : Type 0 where
  always : ℕ → Generator
  uniform_between lognormal_between : ℕ → ℕ → Generator

abbrev pub uniform_of : ℕ → ℕ → SizeError ⊎ Generator
uniform_of lo hi =
    if ltb hi lo
    then inl min_above_max
    else if lo == 0
    then inl zero_min
    else inr (uniform_between lo hi)

abbrev pub lognormal_of : Option ℕ → Option ℕ → ℕ → ℕ → SizeError ⊎ Generator
lognormal_of none std_dev lo hi = inl no_mean
lognormal_of (some m) none lo hi = inl no_std_dev
lognormal_of (some m) (some d) lo hi =
    if m == 0
    then inl zero_mean
    else if d == 0
    then inl zero_std_dev
    else if ltb hi lo
    then inl min_above_max
    else inr (lognormal_between lo hi)

-- `new_with_seed`, without the random state.
pub new_with_seed : SizeSpec → SizeError ⊎ Generator
new_with_seed (fixed size) = if size == 0 then inl zero_size else inr (always size)
new_with_seed (distribution d) = elim d.dist_type [
  | uniform ↦ uniform_of (unwrap_or d.dist_min 1024) (unwrap_or d.dist_max 1048576)
  | lognormal ↦
      lognormal_of d.mean d.std_dev (unwrap_or d.dist_min 1) (unwrap_or d.dist_max (u64 - 1))
]

-- The loop over the attempts, and the clamped sample after them. `samples` are the rounded ones;
-- the clamp is that of numbers whose conversion to floating point is exact.
pub first_fit : ℕ → ℕ → ℕ → (ℕ → ℕ) → ℕ → ℕ
first_fit zero lo hi samples i = min (max (samples i) lo) hi
first_fit (suc attempts) lo hi samples i =
    let rest = first_fit attempts lo hi samples (suc i) in
    if leb lo (samples i) && leb (samples i) hi then samples i else rest

abbrev max_attempts : ℕ
max_attempts = 100

-- `draw lo hi` is a sample of the uniform distribution, `samples` those of the lognormal one.
pub generate : (ℕ → ℕ → ℕ) → (ℕ → ℕ) → Generator → ℕ
generate draw samples (always size) = size
generate draw samples (uniform_between lo hi) = draw lo hi
generate draw samples (lognormal_between lo hi) = first_fit max_attempts lo hi samples 0
