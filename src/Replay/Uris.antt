-- ===== src/Replay/Uris.antt =====
-- src/replay_streaming.rs: the URI that an operation of a replay runs on.
use sai3_bench.Prelude.{
  ◌&&◌, Option, none, some, List, [], ◌∷◌, ◌++◌, ◌==◌, if◌then◌else◌, ◌⊎◌, inr, unwrap_or,
}
use sai3_bench.Prelude.Text.{Text}
use sai3_bench.Remap.{RemapRule, RemapError, Packages, remap, new_state, trim_slashes, is_empty}

-- str::strip_prefix
unfoldable pub strip_prefix : Text → Text → Option Text
strip_prefix [] text = some text
strip_prefix (p ∷ ps) [] = none
strip_prefix (p ∷ ps) (c ∷ cs) = let rest = strip_prefix ps cs in if p == c then rest else none

-- trim_end_matches('/')
unfoldable pub trim_end_slashes : Text → Text
trim_end_slashes [] = []
trim_end_slashes (c ∷ cs) =
    let rest = trim_end_slashes cs in if (c == 47) && is_empty rest then [] else c ∷ rest

unfoldable pub translate_uri : Text → Text → Text → Text
translate_uri file endpoint target =
    trim_end_slashes target ++ 47 ∷ trim_slashes (unwrap_or (strip_prefix endpoint file) file)

module _ {R : Type 0} (pk : Packages R) where
  -- Each operation has an engine of its own.
  unfoldable pub operation_uri :
      Option (List RemapRule) → Option Text → Text → Text → RemapError ⊎ Text
  operation_uri (some rules) target endpoint file = (remap pk rules (endpoint ++ file) new_state).0
  operation_uri none (some target) endpoint file = inr (translate_uri file endpoint target)
  operation_uri none none endpoint file = inr (endpoint ++ file)
