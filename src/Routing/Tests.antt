-- ===== src/Routing/Tests.antt =====
-- Paths and endpoints at which the theorems of Routing are used.
use sai3_bench.Prelude.{◌≡◌, refl, ◌&&◌, leb, length, map, Option, none, some, List, [], ◌∷◌}
use sai3_bench.Prelude.Keys.{list_eq}
use sai3_bench.Prelude.Text.{Text, codes, count}
use sai3_bench.Values.{parse_u64}
use sai3_bench.Routing.{
  endpoints_share_storage, ParsedUrl, after_last, without_suffix, file_name_of, number_part,
  name_without_ext, extract_file_index_from_path,
}
use sai3_bench.Routing.Storage.{
  IsName, Place, s3_bucket, at_one_place, Stands, endpoints_share_storage_iff,
}

-- A stem with an underscore hides the number behind its dash.
hidden_number_test : extract_file_index_from_path (codes "data/my_set-00000042.dat") ≡ none
unfolding extract_file_index_from_path number_part name_without_ext without_suffix file_name_of
    after_last list_eq parse_u64
hidden_number_test = refl

abbrev s3_parse : Text → Option ParsedUrl
s3_parse uri =
    some (record { scheme = "s3"; host_str = some uri; url_path = codes "/bucket/prefix/" })

-- Two addresses of one bucket.
abbrev endpoints : List (Text × Place)
endpoints =
    (codes "s3://10.9.0.21/bucket/prefix/", s3_bucket (codes "bucket"))
    ∷ (codes "s3://10.9.0.25/bucket/prefix/", s3_bucket (codes "bucket"))
    ∷ []

bucket-IsName : IsName (codes "bucket")
unfolding count
bucket-IsName = (refl, λ e. cc)

stands : (uri : Text) → Stands s3_parse uri (s3_bucket (codes "bucket"))
stands uri = (
  record { scheme = "s3"; host_str = some uri; url_path = codes "/bucket/prefix/" },
  1,
  some (codes "prefix/"),
  refl,
  refl,
  refl,
  bucket-IsName,
)

endpoints_share_storage_iff_example :
    endpoints_share_storage s3_parse (map (λ e. e.0) endpoints)
    ≡ (leb 2 (length endpoints) && at_one_place endpoints)
endpoints_share_storage_iff_example = endpoints_share_storage_iff s3_parse endpoints (
  stands (codes "s3://10.9.0.21/bucket/prefix/"),
  (stands (codes "s3://10.9.0.25/bucket/prefix/"), tt),
)
