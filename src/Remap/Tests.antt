-- ===== src/Remap/Tests.antt =====
-- src/remap.rs: the theorems at concrete rules and URIs.
use sai3_bench.Prelude.{
  ◌≡◌, refl, true, false, some, none, [], ◌∷◌, get_elem?, length, arith, inr, String,
}
use sai3_bench.Prelude.Keys.{list_eq}
use sai3_bench.Prelude.Text.{codes}
use sai3_bench.Remap.{
  MatchSpec, TargetSpec, ManyTargets, simple, Url, Packages, new_state, select_target_from_many,
  remap_rules, remap, parse, to_uri, trim_slashes, prefix_and_key, split_last, in_host, in_path,
  split_first, matches, apply_target,
}
use sai3_bench.Remap.Uri.{to_uri-parse, printed, plain}
use sai3_bench.Remap.Selection.{select_in_turn, select_by_key, after}

abbrev target : String → TargetSpec
target name = record { bucket = codes name; prefix = [] }

abbrev replicas : String → ManyTargets
replicas strategy = record {
  targets = target "a" ∷ target "b" ∷ target "c" ∷ [];
  strategy = strategy;
}

abbrev url_of_object : Url
url_of_object = record {
  url_scheme = codes "s3";
  host_str = some (codes "src");
  userinfo = none;
  port = some (codes "9000");
  query = some (codes "versionId=3");
  fragment = none;
  path = codes "/data/x/obj_7";
}

abbrev url_of_file : Url
url_of_file = record {
  url_scheme = codes "file";
  host_str = none;
  userinfo = none;
  port = none;
  query = none;
  fragment = none;
  path = codes "/tmp/data/x";
}

abbrev packages : Packages Unit
packages = record {
  url_parse = λ t. some url_of_object;
  regex_new = λ t. none;
  is_match = λ r t. false;
  replace = λ r t u. t;
  hash = length;
  random_range = λ n. 0;
}

abbrev spec : String → MatchSpec
spec bucket = record { host = none; bucket = some (codes bucket); prefix = none }

remap_test :
    remap packages
      (simple (spec "other") (target "z") ∷ simple (spec "src") (target "dst") ∷ [])
      (codes "s3://src/data/x/obj_7")
      new_state
    ≡ (inr (codes "s3://dst/data/x/obj_7"), new_state)
unfolding remap remap_rules parse to_uri trim_slashes prefix_and_key split_last in_host matches
    apply_target list_eq
remap_test = refl

-- A file loses the slash at the root of its path: "tmp" is now the host.
file_test : to_uri (parse url_of_file) ≡ codes "file://tmp/data/x"
unfolding parse to_uri trim_slashes prefix_and_key split_last in_path split_first list_eq
file_test = refl

-- The host of a rule is not looked at.
host_test :
    matches
      (parse url_of_object)
      (record { host = some (codes "elsewhere"); bucket = none; prefix = none })
    ≡ true
unfolding matches
host_test = refl

to_uri-parse_example : to_uri (parse url_of_object) ≡ printed (plain url_of_object)
unfolding list_eq
to_uri-parse_example = to_uri-parse url_of_object 115 (codes "rc") refl refl

-- The port and the query are lost.
lost_test : printed url_of_object ≡ codes "s3://src:9000/data/x/obj_7?versionId=3"
lost_test = refl

select_in_turn_example :
    (t : TargetSpec) × (get_elem? (replicas "round_robin").targets 1 ≡ some t)
    × ((select_target_from_many packages 4 (codes "k") (replicas "round_robin") (
          after packages
            (λ i. replicas "round_robin")
            ((4, codes "k") ∷ (0, codes "k") ∷ (4, codes "m") ∷ (4, []) ∷ (4, []) ∷ [])
            new_state)).0
        ≡ inr t)
select_in_turn_example =
    select_in_turn packages (λ i. replicas "round_robin") 4 (codes "k")
      ((4, codes "k") ∷ (0, codes "k") ∷ (4, codes "m") ∷ (4, []) ∷ (4, []) ∷ [])
      (refl, omega arith)

select_by_key_example :
    (t : TargetSpec) × (get_elem? (replicas "sticky_key").targets 2 ≡ some t)
    × ((select_target_from_many packages 1 (codes "obj_7") (replicas "sticky_key") (
          after packages
            (λ i. replicas "sticky_key")
            ((1, codes "obj_7") ∷ (0, codes "m") ∷ [])
            new_state)).0
        ≡ inr t)
select_by_key_example =
    select_by_key packages (λ i. replicas "sticky_key") 1 (codes "obj_7")
      ((1, codes "obj_7") ∷ (0, codes "m") ∷ []) refl (omega arith)
