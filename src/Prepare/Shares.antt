-- ===== src/Prepare/Shares.antt =====
-- What the agents create together.
use sai3_bench.Prelude.{
  ℕ, zero, suc, ◌+◌, ◌%◌, ◌<◌, ◌≡◌, refl, ap, ◌∙◌, Bool, true, false, not, ◌&&◌, ◌||◌, Option, none,
  some, List, map, All, ltb, leb, ◌==◌, if◌then◌else◌, ==_iff, arith, inl, inr, Bool-cases,
  Option-cases, [], ◌∷◌, length, u64,
}
use sai3_bench.Prelude.Keys.{nat_key}
use sai3_bench.Prelude.Assoc.{contains, contains-set_insert}
use sai3_bench.Prelude.Text.{Text}
use sai3_bench.Routing.{file_name_of}
use sai3_bench.Errors.Listing.{ListingErrorTracker, record_success}
use sai3_bench.Prepare.Listing.{
  ListingResult, no_listing, file_index, insert_index, process_list_item, found, list_items,
}
use sai3_bench.Prepare.Plan.{
  PrepareConfig, PrepareTask, existing_objects, to_create, tasks_from, prepare_sequential,
}

abbrev pub has_uri : Option Text → Bool
has_uri none = false
has_uri (some uri) = true

range_first :
    (b c : Bool) (from n idx : ℕ)
    → ((from == idx) ≡ true → b ≡ c)
    → (((from == idx) && b) || (leb (from + 1) idx && (ltb idx (from + 1 + n) && c)))
      ≡ (leb from idx && (ltb idx (from + suc n) && c))
range_first b c from n idx h = elim (Bool-cases (from == idx)) [
  | inl e ↦ let same = h e in ground arith
  | inr e ↦ ground arith
]

module _ (uris : ℕ → Option Text) (sizes : ℕ → ℕ) where
  -- The task is for the object of its number, with the size drawn for that number.
  abbrev pub Fits : PrepareTask → Type 0
  Fits t = (uris t.file_idx ≡ some t.uri) × (t.size ≡ sizes t.file_idx)

  -- Whether an object is among those that an agent makes.
  abbrev wanted : List ℕ → ℕ → ℕ → ℕ → Bool
  wanted existing a k idx =
      not (contains idx existing) && (not (ltb 1 k && not (idx % k == a)) && has_uri (uris idx))

  tasks_from_first :
      (existing : List ℕ) (a k from n idx : ℕ)
      → contains idx (map (λ t. t.file_idx) (tasks_from uris sizes existing a k from (suc n))) ≡ (
          ((from == idx) && wanted existing a k from)
          || contains idx (map (λ t. t.file_idx) (tasks_from uris sizes existing a k (from + 1) n)))
  unfolding tasks_from contains
  tasks_from_first existing a k from n idx = elim (Bool-cases (contains from existing)) [
    | inl e ↦ rw e (ground arith)
    | inr e ↦ elim (Bool-cases (ltb 1 k && not (from % k == a))) [
      | inl f ↦ rw (e, f) (ground arith)
      | inr f ↦ elim (Option-cases (uris from)) [
        | inl g ↦ rw (e, f, g, tasks_from) (ground arith)
        | inr (uri, g) ↦ rw (e, f, g, tasks_from) (ground arith)
      ]
    ]
  ]

  contains-tasks_from :
      (existing : List ℕ) (a k from n idx : ℕ)
      → contains idx (map (λ t. t.file_idx) (tasks_from uris sizes existing a k from n))
        ≡ (leb from idx && (ltb idx (from + n) && wanted existing a k idx))
  contains-tasks_from existing a k from zero idx = unfold tasks_from contains in ground arith
  contains-tasks_from existing a k from (suc n) idx =
      tasks_from_first existing a k from n idx
      ∙ ap (λ b. ((from == idx) && wanted existing a k from) || b)
          (contains-tasks_from existing a k (from + 1) n idx)
      ∙ range_first (wanted existing a k from) (wanted existing a k idx) from n idx
          (λ e. ap (wanted existing a k) ((==_iff from idx).0 e))

  tasks_from-Fits :
      (existing : List ℕ) (a k from n : ℕ) → All Fits (tasks_from uris sizes existing a k from n)
  unfolding tasks_from
  tasks_from-Fits existing a k from zero = tt
  tasks_from-Fits existing a k from (suc n) =
      let rest = tasks_from-Fits existing a k (from + 1) n in
      elim (Bool-cases (contains from existing)) [
        | inl e ↦ rw e rest
        | inr e ↦ elim (Bool-cases (ltb 1 k && not (from % k == a))) [
          | inl f ↦ rw (e, f) rest
          | inr f ↦ elim (Option-cases (uris from)) [
            | inl g ↦ rw (e, f, g, tasks_from) rest
            | inr (uri, g) ↦ rw (e, f, g, tasks_from) ((g, refl), rest)
          ]
        ]
      ]

-- Whether a name on a list has a number.
abbrev pub named : ℕ → List Text → Bool
named idx [] = false
named idx (path ∷ paths) = elim (file_index (file_name_of path)) [
  | none ↦ named idx paths
  | some k ↦ (k == idx) || named idx paths
]

list_items-indices :
    (paths : List Text) (t : ListingErrorTracker) (r : ListingResult) (idx : ℕ)
    → contains idx (list_items (map found paths) t r).1.indices
      ≡ (named idx paths || contains idx r.indices)
unfolding list_items process_list_item insert_index
list_items-indices [] t r idx = refl
list_items-indices (path ∷ paths) t r idx =
    let rest = list_items-indices paths (record_success t) (process_list_item path r) idx in
    elim (Option-cases (file_index (file_name_of path))) [
      | inl e ↦ ground (arith, e, rest)
      | inr (k, e) ↦ ground (arith, e, rest, contains-set_insert k idx r.indices)
    ]

list_items-file_count :
    (paths : List Text) (t : ListingErrorTracker) (r : ListingResult)
    → r.file_count + length paths < u64
    → (list_items (map found paths) t r).1.file_count ≡ r.file_count + length paths
unfolding list_items process_list_item
list_items-file_count [] t r h = omega arith
list_items-file_count (path ∷ paths) t r h =
    let rest =
      list_items-file_count paths (record_success t) (process_list_item path r)
        (omega (arith, h)) in
    omega (arith, rest, h)

-- Whether an object is to be made by some agent, as the configuration and the names that were listed
-- have it.
abbrev pub needed : PrepareConfig → Bool → List Text → ℕ → ℕ → Bool
needed config covers paths count idx =
    if config.force_overwrite
    then true
    else if config.skip_verification || (covers || leb count (length paths))
    then false
    else not (named idx paths)

shared_tasks :
    (uris : ℕ → Option Text) (sizes fresh : ℕ → ℕ) (config : PrepareConfig) (covers : Bool)
    (listing : ListingResult) (paths : List Text) (a k count idx : ℕ)
    → idx < count
    → contains idx listing.indices ≡ named idx paths
    → listing.file_count ≡ length paths
    → contains idx (
        map
          (λ t. t.file_idx)
          (prepare_sequential uris sizes fresh config covers listing a k count).1.0)
      ≡ (needed config covers paths count idx
          && ((if ltb 1 k then idx % k == a else true) && has_uri (uris idx)))
unfolding prepare_sequential existing_objects to_create contains
shared_tasks uris sizes fresh config covers listing paths a k count idx h names many = ground (
  arith,
  names,
  many,
  contains-tasks_from uris sizes [] a k 0 count idx,
  contains-tasks_from uris sizes listing.indices a k 0 count idx,
)

shared_tasks-Fits :
    (uris : ℕ → Option Text) (sizes fresh : ℕ → ℕ) (config : PrepareConfig) (covers : Bool)
    (listing : ListingResult) (a k count : ℕ)
    → All
        (Fits uris sizes)
        (prepare_sequential uris sizes fresh config covers listing a k count).1.0
unfolding prepare_sequential
shared_tasks-Fits uris sizes fresh config covers listing a k count =
    let (existing_count, existing) = existing_objects config covers count listing in
    elim (Bool-cases (to_create existing_count count == 0)) [
      | inl e ↦ rw e tt
      | inr e ↦ rw e (tasks_from-Fits uris sizes existing a k 0 count)
    ]

-- After a listing without errors, of fewer than 2^64 objects, an object below the count is the task
-- of an agent exactly if it is needed, its number is the agent's modulo the number of agents, where
-- there are two or more, and it has a URI. With `force_overwrite` every object is needed. Without,
-- none is under `skip_verification`, where the cache covers all, or where as many objects as the count
-- were listed; otherwise those are whose number is in no listed name. The URI and the size of every
-- task are those of its number, whatever exists and whoever makes it.
pub prepare_sequential_share :
    (uris : ℕ → Option Text) (sizes fresh_sizes : ℕ → ℕ) (config : PrepareConfig) (covers : Bool)
    (paths : List Text) (t : ListingErrorTracker) (agent_id num_agents count idx : ℕ)
    → length paths < u64
    → idx < count
    → let listing = (list_items (map found paths) t no_listing).1 in
      let tasks =
        (prepare_sequential uris sizes fresh_sizes config covers listing agent_id num_agents
          count).1.0 in
      (contains idx (map (λ t. t.file_idx) tasks) ≡ (
        needed config covers paths count idx
        && ((if ltb 1 num_agents then idx % num_agents == agent_id else true)
            && has_uri (uris idx))))
      × All (Fits uris sizes) tasks
prepare_sequential_share uris sizes fresh config covers paths t a k count idx few h =
    let listing = (list_items (map found paths) t no_listing).1 in
    let names : contains idx listing.indices ≡ named idx paths =
      unfold contains in ground (arith, list_items-indices paths t no_listing idx) in
    (
      shared_tasks uris sizes fresh config covers listing paths a k count idx h names
          (omega (arith, list_items-file_count paths t no_listing (omega (arith, few)))),
      shared_tasks-Fits uris sizes fresh config covers listing a k count,
    )
