-- ===== src/OplogMerge/Columns.antt =====
-- src/oplog_merge.rs: the text of a row. What an entry shows of itself is a parameter.
use sai3_bench.Prelude.{ℕ, ◌≡◌, refl, Option, List, [], ◌∷◌, ◌++◌, All, unwrap_or, arith, length}
use sai3_bench.Prelude.Text.{Text, codes, decimal, count, count-append, count-decimal}

pub record EntryFields (E : Type 0) : Type 0 where
  pub op : E → Text
  pub endpoint : E → Text
  pub file : E → Text
  pub start_rfc3339 : E → Text
  pub bytes : E → ℕ
  pub error : E → Option Text
  pub duration_ns : E → Option ℕ

abbrev pub header : Text
header =
    codes
      "idx\tthread\top\tclient_id\tn_objects\tbytes\tendpoint\tfile\terror\tstart\tfirst_byte\tend\tduration_ns"

abbrev tab : ℕ
tab = 9

abbrev tabbed : Text → List Text → Text
tabbed field [] = field
tabbed field (next ∷ fields) = field ++ tab ∷ tabbed next fields

module _ {E : Type 0} (f : EntryFields E) where
  unfoldable pub write_entry : E → ℕ → Text
  write_entry entry idx = tabbed (decimal idx) (
      decimal 0
      ∷ f.op entry
      ∷ []
      ∷ decimal 1
      ∷ decimal (f.bytes entry)
      ∷ f.endpoint entry
      ∷ f.file entry
      ∷ unwrap_or (f.error entry) []
      ∷ f.start_rfc3339 entry
      ∷ []
      ∷ []
      ∷ decimal (unwrap_or (f.duration_ns entry) 0)
      ∷ [])

count-tabbed :
    (field : Text) (fields : List Text)
    → count tab field ≡ 0
    → All (λ x. count tab x ≡ 0) fields
    → count tab (tabbed field fields) ≡ length fields
unfolding count
count-tabbed field [] h hs = h
count-tabbed field (next ∷ fields) h hs =
    ground
      (arith, count-append tab field (tab ∷ tabbed next fields), count-tabbed next fields hs.0 hs.1)

module _ {E : Type 0} (f : EntryFields E) where
  -- A row has as many columns as the header when no field of its entry holds a tab.
  pub write_entry_columns :
      (entry : E) (idx : ℕ)
      → count tab (f.op entry) ≡ 0
      → count tab (f.endpoint entry) ≡ 0
      → count tab (f.file entry) ≡ 0
      → count tab (unwrap_or (f.error entry) []) ≡ 0
      → count tab (f.start_rfc3339 entry) ≡ 0
      → count tab (write_entry f entry idx) ≡ count tab header
  unfolding count write_entry
  write_entry_columns entry idx op endpoint file error start =
      let digits : (n : ℕ) → count tab (decimal n) ≡ 0 = λ n. count-decimal tab n (omega arith) in
      count-tabbed (decimal idx)
        (decimal 0
          ∷ f.op entry
          ∷ []
          ∷ decimal 1
          ∷ decimal (f.bytes entry)
          ∷ f.endpoint entry
          ∷ f.file entry
          ∷ unwrap_or (f.error entry) []
          ∷ f.start_rfc3339 entry
          ∷ []
          ∷ []
          ∷ decimal (unwrap_or (f.duration_ns entry) 0)
          ∷ [])
        (digits idx)
        (
          digits 0,
          (
            op,
            (
              refl,
              (
                digits 1,
                (
                  digits (f.bytes entry),
                  (
                    endpoint,
                    (
                      file,
                      (
                        error,
                        (start, (refl, (refl, (digits (unwrap_or (f.duration_ns entry) 0), tt)))),
                      ),
                    ),
                  ),
                ),
              ),
            ),
          ),
        )
