-- ===== src/OplogSession/Tests.antt =====
-- Witnesses for the op-log session, with paths that are their own keys.
use sai3_bench.Prelude.{String, ◌≡◌, refl, true, false, List, [], ◌∷◌}
use sai3_bench.Prelude.Keys.{string_key}
use sai3_bench.OplogSession.{active, Request, wants, decide, begin, serve, new_session}
use sai3_bench.OplogSession.PathKey.{
  root_dir, parent_dir, normal, pop, fold_component, fold_components, key_of,
}
use sai3_bench.OplogSession.OneFile.{Calls, one_session, accepted_same_file}

abbrev same : String → String
same path = path

-- A start that fails, one that succeeds, a job with another file, and the first file again.
abbrev jobs : List (Request String)
jobs = wants "/a" false ∷ wants "/b" true ∷ wants "/a" true ∷ wants "/b" true ∷ []

one_session_example :
    Calls same (serve same jobs new_session).state (serve same jobs new_session).calls
one_session_example = one_session same jobs

b_accepted : (begin same "/b" true (serve same jobs new_session)).0 ≡ true
unfolding serve begin decide
b_accepted = refl

accepted_same_file_example :
    (requested : String) × ((begin same "/b" true (serve same jobs new_session)).1.state
      ≡ active requested "/b")
    × (requested ≡ "/b")
accepted_same_file_example = accepted_same_file same jobs "/b" true b_accepted

-- The root is its own parent, but two spellings of one file have different keys.
above_root :
    key_of (root_dir ∷ parent_dir ∷ normal "a" ∷ []) ≡ normal "a" ∷ parent_dir ∷ root_dir ∷ []
unfolding key_of fold_components fold_component pop
above_root = refl
