-- ===== src/OplogSession/PathKey.antt =====
-- `key_of` of src/oplog_session.rs, on the components of the absolute path. Making a path absolute
-- and taking it apart are the standard library's.
use sai3_bench.Prelude.{String, ◌≡◌, refl, Option, none, some, List, [], ◌∷◌, ◌++◌}

pub data Component : Type 0 where
  root_dir cur_dir parent_dir : Component
  normal : String → Component

-- PathBuf::pop, the last component first; `none` where it returns false.
unfoldable pub pop : List Component → Option (List Component)
pop [] = none
pop (root_dir ∷ out) = none
pop (c ∷ out) = some out

unfoldable pub fold_component : Component → List Component → List Component
fold_component cur_dir out = out
fold_component parent_dir out = elim (pop out) [ none ↦ parent_dir ∷ out | some shorter ↦ shorter ]
fold_component root_dir out = root_dir ∷ out
fold_component (normal name) out = normal name ∷ out

unfoldable pub fold_components : List Component → List Component → List Component
fold_components [] out = out
fold_components (c ∷ cs) out = fold_components cs (fold_component c out)

-- The key, the last component first.
unfoldable pub key_of : List Component → List Component
key_of cs = fold_components cs []

fold_components-append :
    (xs ys out : List Component)
    → fold_components (xs ++ ys) out ≡ fold_components ys (fold_components xs out)
unfolding fold_components
fold_components-append [] ys out = refl
fold_components-append (x ∷ xs) ys out = fold_components-append xs ys (fold_component x out)

-- Wherever they stand in a path, a `.` and a name followed by `..` leave its key unchanged.
pub key_of-detour :
    (before after : List Component) (name : String)
    → (key_of (before ++ cur_dir ∷ after) ≡ key_of (before ++ after))
      × (key_of (before ++ normal name ∷ parent_dir ∷ after) ≡ key_of (before ++ after))
unfolding key_of fold_components fold_component pop
key_of-detour before after name = (
  rw (fold_components-append before (cur_dir ∷ after) [], fold_components-append before after [])
      refl,
  rw
      (
        fold_components-append before (normal name ∷ parent_dir ∷ after) [],
        fold_components-append before after [],
      )
      refl,
)
