-- ===== src/Values/Tests.antt =====
-- Texts and specifications at which the theorems of Values are used.
use sai3_bench.Prelude.{◌≡◌, refl, none, some, [], ◌∷◌, ◌++◌, inl, inr, arith}
use sai3_bench.Prelude.Text.{codes, decimal}
use sai3_bench.Values.{
  overflow, days, parse_duration_string, trimmed_duration, with_unit, split_unit, to_seconds,
  checked_mul, parse_u64, trim, text, deserialize_duration_seconds, deserialize_u64_with_separators,
  SizeSpec, distribution, uniform,
}
use sai3_bench.Values.Durations.{suffix_of, parse_duration_string-decimal}

duration_test : deserialize_duration_seconds (text (codes " 5 m ")) ≡ inr 300
unfolding deserialize_duration_seconds parse_duration_string trimmed_duration with_unit split_unit
    to_seconds checked_mul parse_u64 trim
duration_test = refl

separators_test : deserialize_u64_with_separators (text (codes "64,032_768")) ≡ inr 64032768
unfolding deserialize_u64_with_separators parse_u64
separators_test = refl

abbrev wide : SizeSpec
wide = distribution (record {
  dist_type = uniform;
  dist_min = some 2048;
  dist_max = none;
  mean = none;
  std_dev = none;
})

parse_duration_string-decimal_example :
    parse_duration_string (decimal 18446744073709551615 ++ suffix_of days ∷ []) ≡ inl overflow
parse_duration_string-decimal_example =
    parse_duration_string-decimal 18446744073709551615 days (omega arith)
