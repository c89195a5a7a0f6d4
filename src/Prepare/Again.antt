-- ===== src/Prepare/Again.antt =====
-- A prepare phase that finds its objects makes nothing; and why a flat one does not find them.
use sai3_bench.Prelude.{
  ℕ, zero, suc, ◌+◌, ◌<◌, ◌≡◌, ◌≢◌, refl, sym, ap, ◌∙◌, Bool, true, false, Option, none, some, List,
  [], ◌∷◌, ◌++◌, map, All, length, ◌==◌, u64, inl, inr, arith, Bool-cases,
}
use sai3_bench.Prelude.Keys.{nat_key, list_key, list_eq, list_eq-eq}
use sai3_bench.Prelude.Assoc.{contains, contains-set_insert}
use sai3_bench.Prelude.Text.{Text, codes, decimal_8, decimal_8-IsDigit, length-decimal_8, IsDigit}
use mathlib.Core.List.{append_assoc, append_cancel_left}
use sai3_bench.Routing.{file_name_of}
use sai3_bench.DirectoryTree.Manifest.{TreeManifest}
use sai3_bench.Errors.Listing.{ListingErrorTracker, record_success}
use sai3_bench.Prepare.{
  Pool, prefix, flat_key, flat_name, uri_of, with_slash, ends_with_slash, object_uri,
}
use sai3_bench.Prepare.Listing.{
  ListingResult, no_listing, file_index, insert_index, process_list_item, found, list_items,
}
use sai3_bench.Prepare.Plan.{
  PrepareConfig, existing_objects, to_create, tasks_from, prepare_sequential, list_pattern,
}
use sai3_bench.Prepare.Names.{file_index-object_uri}

insert_index_keeps :
    (o : Option ℕ) (i : ℕ) (indices : List ℕ)
    → contains i indices ≡ true
    → contains i (insert_index o indices) ≡ true
unfolding insert_index
insert_index_keeps none i indices h = h
insert_index_keeps (some k) i indices h = ground (arith, contains-set_insert k i indices)

list_items_keeps :
    (paths : List Text) (t : ListingErrorTracker) (r : ListingResult) (i : ℕ)
    → contains i r.indices ≡ true
    → contains i (list_items (map found paths) t r).1.indices ≡ true
unfolding list_items process_list_item
list_items_keeps [] t r i h = h
list_items_keeps (path ∷ paths) t r i h =
    list_items_keeps paths (record_success t) (process_list_item path r) i
      (insert_index_keeps (file_index (file_name_of path)) i r.indices h)

-- A number in the name of a listed path is among the numbers found.
list_items_finds :
    (paths : List Text) (t : ListingErrorTracker) (r : ListingResult) (uri : Text) (i : ℕ)
    → contains uri paths ≡ true
    → file_index (file_name_of uri) ≡ some i
    → contains i (list_items (map found paths) t r).1.indices ≡ true
unfolding list_items process_list_item contains
list_items_finds [] t r uri i h e = cc
list_items_finds (path ∷ paths) t r uri i h e = elim (Bool-cases (list_eq path uri)) [
  | inl same ↦ list_items_keeps paths (record_success t) (process_list_item path r) i (
      rw (list_eq-eq path uri same, e)
        (unfold insert_index in ground (arith, contains-set_insert i i r.indices)))
  | inr other ↦
      list_items_finds paths (record_success t) (process_list_item path r) uri i
        (ground (arith, other)) e
]

tasks_from_found :
    (uris : ℕ → Option Text) (sizes : ℕ → ℕ) (existing : List ℕ) (a k from n : ℕ)
    → ((i : ℕ) → i < from + n → contains i existing ≡ true)
    → tasks_from uris sizes existing a k from n ≡ []
unfolding tasks_from
tasks_from_found uris sizes existing a k from zero h = refl
tasks_from_found uris sizes existing a k from (suc n) h =
    rw (h from (omega arith))
      (tasks_from_found uris sizes existing a k (from + 1) n (λ i l. h i (omega (arith, l))))

-- Where the listing ends without an error and shows an object of every number below the count, no
-- agent makes anything, unless `force_overwrite` is set. The objects may be those of the other pool.
pub prepare_sequential_again :
    (m : Option TreeManifest) (shards : ℕ) (listed pool : Pool) (base : Text) (paths : List Text)
    (t : ListingErrorTracker) (sizes fresh_sizes : ℕ → ℕ) (config : PrepareConfig) (covers : Bool)
    (agent_id num_agents count : ℕ)
    → ((i : ℕ)
        → i < count
        → (uri : Text) × (object_uri m shards listed base i ≡ some uri)
          × (contains uri paths ≡ true))
    → count < u64
    → config.force_overwrite ≡ false
    → (prepare_sequential
        (object_uri m shards pool base)
        sizes
        fresh_sizes
        config
        covers
        (list_items (map found paths) t no_listing).1
        agent_id
        num_agents
        count).1.0
      ≡ []
unfolding prepare_sequential existing_objects to_create
prepare_sequential_again m shards listed pool base paths t sizes fresh config covers a k count shown
      h off =
    let listing = (list_items (map found paths) t no_listing).1 in
    let all : (i : ℕ) → i < 0 + count → contains i listing.indices ≡ true = λ i l.
      let (uri, made, there) = shown i (omega (arith, l)) in
      list_items_finds paths t no_listing uri i there
        (file_index-object_uri m shards listed base i uri made (omega (arith, l))) in
    let none_left =
      tasks_from_found (object_uri m shards pool base) sizes listing.indices a k 0 count all in
    ground (arith, none_left)

uri_of_lem : (base key : Text) → uri_of base key ≡ with_slash base ++ key
unfolding uri_of with_slash
uri_of_lem base key = elim (Bool-cases (ends_with_slash base)) [
  | inl e ↦ rw e refl
  | inr e ↦ rw e (sym (append_assoc base (47 ∷ []) key))
]

ends_with_slash_last : (xs : Text) (c : ℕ) → ends_with_slash (xs ++ c ∷ []) ≡ (c == 47)
unfolding ends_with_slash
ends_with_slash_last [] c = refl
ends_with_slash_last (x ∷ []) c = refl
ends_with_slash_last (x ∷ y ∷ ys) c = ends_with_slash_last (y ∷ ys) c

-- What is listed in flat mode: a directory, as it ends with a slash.
flat_list_base :
    (base : Text) (pool : Pool)
    → with_slash (list_pattern 0 pool base) ≡ with_slash base ++ (prefix pool ++ 45 ∷ 47 ∷ [])
unfolding list_pattern
flat_list_base base pool =
    let whole =
      uri_of_lem base (prefix pool ++ 45 ∷ [])
      ∙ sym (append_assoc (with_slash base) (prefix pool) (45 ∷ [])) in
    let last : ends_with_slash (uri_of base (prefix pool ++ 45 ∷ [])) ≡ false =
      ap ends_with_slash whole ∙ ends_with_slash_last (with_slash base ++ prefix pool) 45 in
    slashed (uri_of base (prefix pool ++ 45 ∷ [])) last
    ∙ ap (λ t. t ++ 47 ∷ []) (uri_of_lem base (prefix pool ++ 45 ∷ []))
    ∙ append_assoc (with_slash base) (prefix pool ++ 45 ∷ []) (47 ∷ [])
    ∙ ap (λ t. with_slash base ++ t) (append_assoc (prefix pool) (45 ∷ []) (47 ∷ []))
  where
    slashed : (t : Text) → ends_with_slash t ≡ false → with_slash t ≡ t ++ 47 ∷ []
    slashed t e = unfold with_slash in rw e refl

no_slash_first : (i : ℕ) (ys rest : Text) → 47 ∷ rest ≢ decimal_8 i ++ ys
no_slash_first i ys rest = go (decimal_8 i) (decimal_8-IsDigit i) (length-decimal_8 i)
  where
    go : (ds : Text) → All IsDigit ds → 0 < length ds → 47 ∷ rest ≢ ds ++ ys
    go [] d l e = absurd (omega arith)
    go (x ∷ ds) d l e = absurd (ground (arith, d.0, e))

flat_uri_apart :
    (base : Text) (pool : Pool) (i : ℕ) (rest : Text)
    → with_slash (list_pattern 0 pool base) ++ rest ≢ uri_of base (flat_key 0 pool i)
unfolding flat_key flat_name
flat_uri_apart base pool i rest e =
    let left =
      ap (λ t. t ++ rest) (flat_list_base base pool)
      ∙ append_assoc (with_slash base) (prefix pool ++ 45 ∷ 47 ∷ []) rest
      ∙ ap (λ t. with_slash base ++ t) (append_assoc (prefix pool) (45 ∷ 47 ∷ []) rest) in
    let key = prefix pool ++ 45 ∷ (decimal_8 i ++ codes ".dat") in
    let tails =
      append_cancel_left (with_slash base) (prefix pool ++ 45 ∷ 47 ∷ rest) key
        (sym left ∙ e ∙ uri_of_lem base key) in
    no_slash_first i (codes ".dat") rest (
      append_cancel_left (prefix pool ++ 45 ∷ []) (47 ∷ rest) (decimal_8 i ++ codes ".dat") (
        append_assoc (prefix pool) (45 ∷ []) (47 ∷ rest)
        ∙ tails
        ∙ sym (append_assoc (prefix pool) (45 ∷ []) (decimal_8 i ++ codes ".dat"))))

-- A path under a prefix.
abbrev pub Under : Text → Text → Type 0
Under base path = (rest : Text) × (path ≡ base ++ rest)

-- In flat mode without shards the prefix that is listed ends with a dash and a slash. A store that
-- returns paths under the prefix it is asked for returns none of the pool's objects, whatever exists.
pub flat_listing_misses :
    (base : Text) (pool : Pool) (i : ℕ) (paths : List Text)
    → All (Under (with_slash (list_pattern 0 pool base))) paths
    → contains (uri_of base (flat_key 0 pool i)) paths ≡ false
unfolding contains
flat_listing_misses base pool i [] h = refl
flat_listing_misses base pool i (path ∷ paths) (((rest, e), later)) =
    elim (Bool-cases (list_eq path (uri_of base (flat_key 0 pool i)))) [
      | inl same ↦ absurd (
          flat_uri_apart base pool i rest
            (sym e ∙ list_eq-eq path (uri_of base (flat_key 0 pool i)) same))
      | inr other ↦ rw other (flat_listing_misses base pool i paths later)
    ]
