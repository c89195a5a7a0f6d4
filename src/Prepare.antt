-- ===== src/Prepare.antt =====
-- The prepare phase, in which the agents make the objects that a benchmark reads, and the cleanup
-- after it: src/prepare and src/cleanup.rs. Here are the names of the objects. The children Listing
-- and Plan model what is listed and what is created, Cleanup what is deleted. Data, I/O of the object
-- store and progress bars are left out; its listings are arguments.
pub mod Listing
pub mod Plan
pub mod Cleanup
mod Names
mod Shares
mod Again
mod ShareSizes
mod Announced
mod Owners
mod Deletions
mod Tests
use sai3_bench.Prelude.{
  ℕ, zero, suc, ◌+◌, ◌/◌, ◌%◌, Bool, true, false, Option, none, some, List, [], ◌∷◌, ◌++◌, ltb,
  ◌==◌, if◌then◌else◌,
}
use sai3_bench.Prelude.Text.{Text, codes, decimal_8}
use sai3_bench.DirectoryTree.Manifest.{TreeManifest, get_file_path}

-- The pools of objects: one, or one for reads and one for deletions.
pub data Pool : Type 0 where
  prepared deletable : Pool

pub pools_to_create : Bool → List Pool
pools_to_create needs_separate_pools =
    if needs_separate_pools then prepared ∷ deletable ∷ [] else prepared ∷ []

abbrev pub prefix : Pool → Text
prefix prepared = codes "prepared"
prefix deletable = codes "deletable"

abbrev hex_digit : ℕ → ℕ
hex_digit d = if ltb d 10 then 48 + d else 87 + d

-- The hexadecimal digits of `n`, on fuel.
hex_digits : ℕ → ℕ → Text
hex_digits zero n = []
hex_digits (suc fuel) n =
    let more = hex_digits fuel (n / 16) ++ hex_digit (n % 16) ∷ [] in
    if ltb n 16 then hex_digit n ∷ [] else more

-- format!("{:02x}", n)
unfoldable pub hex_2 : ℕ → Text
unfolding hex_digits
hex_2 n = if ltb n 16 then 48 ∷ hex_digits (suc n) n else hex_digits (suc n) n

-- format!("{}-{:08}.dat", prefix, i)
pub flat_name : Pool → ℕ → Text
flat_name pool i = prefix pool ++ b'-' ∷ (decimal_8 i ++ codes ".dat")

-- The name, in a shard where keys are spread over shards.
pub flat_key : ℕ → Pool → ℕ → Text
flat_key key_prefix_shards pool i =
    if ltb 0 key_prefix_shards
    then hex_2 (i % key_prefix_shards) ++ b'/' ∷ flat_name pool i
    else flat_name pool i

pub ends_with_slash : Text → Bool
ends_with_slash [] = false
ends_with_slash (c ∷ []) = c == b'/'
ends_with_slash (c ∷ d ∷ ds) = ends_with_slash (d ∷ ds)

-- The base URI with a slash at its end.
pub with_slash : Text → Text
with_slash base = if ends_with_slash base then base else base ++ b'/' ∷ []

pub uri_of : Text → Text → Text
uri_of base key = if ends_with_slash base then base ++ key else base ++ b'/' ∷ key

-- A path of the tree in tree mode, where the tree has one; else a flat key.
pub object_uri : Option TreeManifest → ℕ → Pool → Text → ℕ → Option Text
object_uri (some manifest) key_prefix_shards pool base i = elim (get_file_path manifest i) [
  | none ↦ none
  | some rel_path ↦ some (uri_of base rel_path)
]
object_uri none key_prefix_shards pool base i =
    some (uri_of base (flat_key key_prefix_shards pool i))
