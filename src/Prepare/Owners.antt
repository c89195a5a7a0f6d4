-- ===== src/Prepare/Owners.antt =====
-- An object of the sequential strategy is deleted by the agent that makes it. The filter of created
-- objects in tree mode is not covered.
use sai3_bench.Prelude.{
  ℕ, zero, suc, ◌+◌, ◌%◌, ◌<◌, ◌≡◌, refl, ap, ◌∙◌, true, false, not, ◌&&◌, none, some, [], ◌∷◌,
  ◌++◌, map, ltb, leb, ◌==◌, u64, arith, inl, inr, Bool-cases, unwrap_or,
}
use sai3_bench.Prelude.Keys.{nat_key}
use sai3_bench.Prelude.Assoc.{contains}
use sai3_bench.Prelude.Text.{Text, codes, count, decimal_8}
use sai3_bench.Routing.{after_last, file_name_of}
use sai3_bench.Routing.Paths.{no_such, parse_number}
use sai3_bench.DirectoryTree.Manifest.{TreeManifest, get_file_path, get_file_name}
use sai3_bench.Prepare.{Pool, prepared, deletable, flat_name, flat_key, uri_of, object_uri}
use sai3_bench.Prepare.Plan.{assigned, tasks_from}
use sai3_bench.Prepare.Cleanup.{
  split_first, text, between, flat_included, tree_included, flat_kept, generated_from,
}
use sai3_bench.Prepare.Names.{after_last-flat_key, after_last-tree, stripped_tree}

split_first_lem :
    (c : ℕ) (xs ys : Text) → count c xs ≡ 0 → split_first c (xs ++ c ∷ ys) ≡ some (xs, ys)
unfolding split_first count
split_first_lem c [] ys h = ground arith
split_first_lem c (x ∷ xs) ys h = elim (Bool-cases (x == c)) [
  | inl e ↦ ground arith
  | inr e ↦ rw (split_first_lem c xs ys (ground arith), e, split_first) refl
]

between_flat : (pool : Pool) (i : ℕ) → between (flat_name pool i) ≡ text (decimal_8 i)
unfolding between flat_name split_first
between_flat prepared i =
    rw (split_first_lem 46 (decimal_8 i) (codes "dat") (no_such 46 i (inl (omega arith))), between)
      refl
between_flat deletable i =
    rw (split_first_lem 46 (decimal_8 i) (codes "dat") (no_such 46 i (inl (omega arith))), between)
      refl

module _ (agent_id num_agents : ℕ) where
  flat_included_lem :
      (path : Text) (i : ℕ)
      → between (file_name_of path) ≡ text (decimal_8 i)
      → i < u64
      → flat_included agent_id num_agents path ≡ some (assigned agent_id num_agents i)
  unfolding flat_included
  flat_included_lem path i e h = elim (Bool-cases (leb num_agents 1)) [
    | inl alone ↦ rw alone (ap some (ground arith))
    | inr many ↦ rw (many, e, parse_number i h, flat_included) (ap some (ground arith))
  ]

  flat_kept_lem :
      (uri filename : Text) (size i : ℕ)
      → after_last 47 uri ≡ some filename
      → between filename ≡ text (decimal_8 i)
      → i < u64
      → flat_kept agent_id num_agents (record { uri = uri; size = size; was_created = true })
        ≡ some (assigned agent_id num_agents i)
  unfolding flat_kept
  flat_kept_lem uri filename size i last e h = elim (Bool-cases (leb num_agents 1)) [
    | inl alone ↦ rw alone (ap some (ground arith))
    | inr many ↦ rw (many, last, e, parse_number i h, flat_kept) (ap some (ground arith))
  ]

  tree_included_lem :
      (path : Text) (i : ℕ)
      → file_name_of path ≡ get_file_name i
      → i < u64
      → tree_included agent_id num_agents path ≡ assigned agent_id num_agents i
  unfolding tree_included
  tree_included_lem path i e h = rw (e, stripped_tree i, parse_number i h, tree_included) refl

  generated_from_tasks :
      (shards : ℕ) (base : Text) (pool : Pool) (sizes : ℕ → ℕ) (from n : ℕ)
      → map (λ o. o.uri) (generated_from shards base pool agent_id num_agents from n)
        ≡ map
            (λ t. t.uri)
            (tasks_from (object_uri none shards pool base) sizes [] agent_id num_agents from n)
  unfolding generated_from tasks_from object_uri contains
  generated_from_tasks shards base pool sizes from zero = refl
  generated_from_tasks shards base pool sizes from (suc n) =
      let rest = generated_from_tasks shards base pool sizes (from + 1) n in
      elim (Bool-cases (ltb 1 num_agents && not (from % num_agents == agent_id))) [
        | inl e ↦ rw e rest
        | inr e ↦ rw e (ap (λ us. uri_of base (flat_key shards pool from) ∷ us) rest)
      ]

-- In flat mode the filter of a listing and that of the created objects take an object, and in tree mode
-- the filter of a listing takes a path of the tree, exactly if its number is that of the agent modulo
-- the number of agents, where there are two or more, as the sequential strategy makes it; no filter
-- panics. Where neither a listing nor a tree is there, the agent deletes, in order, the URIs that it
-- makes where nothing exists.
pub cleanup_takes_own :
    (shards : ℕ) (base : Text) (pool : Pool) (m : TreeManifest) (path : Text) (sizes : ℕ → ℕ)
    (agent_id num_agents count size i : ℕ)
    → i < u64
    → get_file_path m i ≡ some path
    → let mine = assigned agent_id num_agents i in
      let uri = uri_of base (flat_key shards pool i) in
      (flat_included agent_id num_agents uri ≡ some mine)
      × (flat_kept agent_id num_agents (record { uri = uri; size = size; was_created = true })
          ≡ some mine)
      × (tree_included agent_id num_agents (uri_of base path) ≡ mine)
      × (map (λ o. o.uri) (generated_from shards base pool agent_id num_agents 0 count)
          ≡ map
              (λ t. t.uri)
              (tasks_from (object_uri none shards pool base) sizes [] agent_id num_agents 0 count))
unfolding file_name_of
cleanup_takes_own shards base pool m path sizes a k count size i h tree =
    let uri = uri_of base (flat_key shards pool i) in
    let last = after_last-flat_key base shards pool i in
    let name : file_name_of uri ≡ flat_name pool i = ap (λ o. unwrap_or o uri) last in
    let tree_name : file_name_of (uri_of base path) ≡ get_file_name i =
      ap (λ o. unwrap_or o (uri_of base path)) (after_last-tree base m i path tree) in
    (
      flat_included_lem a k uri i (ap between name ∙ between_flat pool i) h,
      flat_kept_lem a k uri (flat_name pool i) size i last (between_flat pool i) h,
      tree_included_lem a k (uri_of base path) i tree_name h,
      generated_from_tasks a k shards base pool sizes 0 count,
    )

-- A file in a flat listing whose name has a dot before its first dash makes every agent panic that is
-- not alone.
pub flat_included_panics :
    (path stem middle rest : Text) (agent_id num_agents : ℕ)
    → 1 < num_agents
    → file_name_of path ≡ (stem ++ b'.' ∷ middle) ++ b'-' ∷ rest
    → count b'-' (stem ++ b'.' ∷ middle) ≡ 0
    → count b'.' stem ≡ 0
    → flat_included agent_id num_agents path ≡ none
unfolding flat_included between
flat_included_panics path stem middle rest a k many name no_dash no_dot =
    let e : leb k 1 ≡ false = ground arith in
    rw
      (
        e,
        name,
        split_first_lem 45 (stem ++ 46 ∷ middle) rest no_dash,
        split_first_lem 46 stem middle no_dot,
        between,
        flat_included,
      )
      refl
