-- ===== src/Prepare/Announced.antt =====
-- The number of tasks that a strategy makes, beside the number that its progress bar is given. The
-- task that shows the progress ends only when the bar is full, and both strategies wait for it.
use sai3_bench.Prelude.{
  ℕ, zero, suc, ◌+◌, ◌-◌, ◌*◌, ◌%◌, ◌<◌, ◌≤◌, ◌≡◌, refl, sym, ap, subst, ==_iff, ◌⊎◌, ◌∙◌, Bool,
  true, false, not, ◌&&◌, Option, List, [], ◌∷◌, length, length-append, ltb, leb, ◌==◌,
  if◌then◌else◌, arith, inl, inr, Bool-cases, Option-cases,
}
use sai3_bench.Prelude.Keys.{nat_key}
use sai3_bench.Prelude.Assoc.{contains}
use sai3_bench.Prelude.Text.{Text}
use sai3_bench.DirectoryTree.Manifest.{TreeManifest}
use sai3_bench.Prepare.Listing.{ListingResult}
use sai3_bench.Prepare.Plan.{
  PrepareTask, PrepareConfig, existing_objects, to_create, tasks_from, prepare_sequential, picked,
  assigned, PreparePlan, in_share, actual_to_create, should_create, plan_turn, round, rounds, most,
  parallel_tasks, until_abort, total_to_create,
}
use sai3_bench.Prepare.Shares.{has_uri}
use sai3_bench.Prepare.ShareSizes.{one_if, picked_ext, picked_none, picked_all, share_size}

tasks_from_count :
    (uris : ℕ → Option Text) (sizes : ℕ → ℕ) (existing : List ℕ) (a k from n : ℕ)
    → length (picked (λ i. not (contains i existing) && assigned a k i) from n)
      ≡ length (tasks_from uris sizes existing a k from n)
        + length (
            picked
              (λ i. (not (contains i existing) && assigned a k i) && not (has_uri (uris i)))
              from
              n)
unfolding picked tasks_from
tasks_from_count uris sizes existing a k from zero = refl
tasks_from_count uris sizes existing a k from (suc n) =
    let rest = tasks_from_count uris sizes existing a k (from + 1) n in
    elim (Bool-cases (contains from existing)) [
      | inl e ↦ rw e rest
      | inr e ↦ elim (Bool-cases (ltb 1 k && not (from % k == a))) [
        | inl f ↦ rw (e, f) rest
        | inr f ↦ elim (Option-cases (uris from)) [
          | inl g ↦ rw (e, f, g, tasks_from) (omega (arith, rest))
          | inr (uri, g) ↦ rw (e, f, g, tasks_from) (omega (arith, rest))
        ]
      ]
    ]

-- The sequential strategy makes as many tasks as it announces, less the missing numbers of the agent
-- for which the tree has no path: where there is one, the bar is never full.
pub prepare_sequential_announced :
    (uris : ℕ → Option Text) (sizes fresh_sizes : ℕ → ℕ) (config : PrepareConfig) (covers : Bool)
    (listing : ListingResult) (agent_id num_agents count : ℕ)
    → (to_create (existing_objects config covers count listing).0 count == 0) ≡ false
    → let (tasks, announced) =
        (prepare_sequential uris sizes fresh_sizes config covers listing agent_id num_agents
          count).1 in
      let missing = λ (i : ℕ).
        not (contains i (existing_objects config covers count listing).1)
        && assigned agent_id num_agents i in
      announced ≡ length tasks + length (picked (λ i. missing i && not (has_uri (uris i))) 0 count)
unfolding prepare_sequential
prepare_sequential_announced uris sizes fresh config covers listing a k count some_missing =
    rw some_missing
      (tasks_from_count uris sizes (existing_objects config covers count listing).1 a k 0 count)

-- A loop at chunk `k`, with room for `room + 1` tasks in it, spawns all tasks, or ends with the chunk
-- that aborts.
until_abort_lem :
    (aborts : ℕ → Bool) (k room : ℕ) (tasks : List PrepareTask)
    → let made = length (until_abort aborts k (suc room) tasks) in
      (made ≡ length tasks)
      ⊎ ((c : ℕ) × (aborts c ≡ true)
          × (made + 100000 * k ≡ 100000 * c + room + 1)
          × (made ≤ length tasks)
          × ((j : ℕ) → k ≤ j → j < c → aborts j ≡ false))
unfolding until_abort
until_abort_lem aborts k room [] = inl refl
until_abort_lem aborts k zero (task ∷ tasks) = elim (Bool-cases (aborts k)) [
  | inl e ↦ rw e (inr (k, e, omega arith, omega arith, λ j l m. absurd (omega arith)))
  | inr e ↦ rw e (elim (until_abort_lem aborts (k + 1) 99999 tasks) [
    | inl all ↦ inl (ap suc all)
    | inr (c, a, n, few, before) ↦ inr (
      c,
      a,
      omega arith,
      omega arith,
      λ j l m. elim (Bool-cases (k == j)) [
        | inl same ↦ subst (λ i. aborts i ≡ false) ((==_iff k j).0 same) e
        | inr other ↦ before j (ground arith) m
      ],
    )
  ])
]
until_abort_lem aborts k (suc room) (task ∷ tasks) = elim (until_abort_lem aborts k room tasks) [
  | inl all ↦ inl (ap suc all)
  | inr (c, a, n, few, before) ↦ inr (c, a, omega arith, omega arith, before)
]

module _ (shared_storage : Bool) (agent_id num_agents : ℕ) (m : Option TreeManifest)
    (sizes : PreparePlan → ℕ → ℕ) where
  -- The numbers for which a plan makes a task.
  abbrev makes : PreparePlan → ℕ → Bool
  makes plan i = should_create plan i && in_share shared_storage agent_id num_agents i

  -- The tasks of one plan in `n` rounds.
  turns : PreparePlan → ℕ → ℕ → ℕ
  turns plan idx zero = 0
  turns plan idx (suc n) =
      length (plan_turn shared_storage agent_id num_agents m sizes idx plan)
      + turns plan (idx + 1) n

  turns_all : List PreparePlan → ℕ → ℕ → ℕ
  turns_all [] idx n = 0
  turns_all (plan ∷ plans) idx n = turns plan idx n + turns_all plans idx n

  turns_all_none : (plans : List PreparePlan) (idx : ℕ) → turns_all plans idx 0 ≡ 0
  unfolding turns_all turns
  turns_all_none [] idx = refl
  turns_all_none (plan ∷ plans) idx = omega (arith, turns_all_none plans idx)

  turns_all_first :
      (plans : List PreparePlan) (idx n : ℕ)
      → turns_all plans idx (suc n)
        ≡ length (round shared_storage agent_id num_agents m sizes idx plans)
          + turns_all plans (idx + 1) n
  unfolding turns_all turns round
  turns_all_first [] idx n = refl
  turns_all_first (plan ∷ plans) idx n = omega (
    arith,
    turns_all_first plans idx n,
    length-append (plan_turn shared_storage agent_id num_agents m sizes idx plan)
        (round shared_storage agent_id num_agents m sizes idx plans),
  )

  length-rounds :
      (plans : List PreparePlan) (idx n : ℕ)
      → length (rounds shared_storage agent_id num_agents m sizes plans idx n)
        ≡ turns_all plans idx n
  unfolding rounds
  length-rounds plans idx zero = sym (turns_all_none plans idx)
  length-rounds plans idx (suc n) = omega (
    arith,
    turns_all_first plans idx n,
    length-rounds plans (idx + 1) n,
    length-append (round shared_storage agent_id num_agents m sizes idx plans)
        (rounds shared_storage agent_id num_agents m sizes plans (idx + 1) n),
  )

  turn_count :
      (plan : PreparePlan) (idx : ℕ)
      → length (plan_turn shared_storage agent_id num_agents m sizes idx plan)
        ≡ (if leb plan.count idx then 0 else one_if (makes plan idx))
  unfolding plan_turn
  turn_count plan idx = ground arith

  turns-picked :
      (plan : PreparePlan) (idx n left : ℕ)
      → plan.count ≤ idx + n
      → left ≡ plan.count - idx
      → turns plan idx n ≡ length (picked (makes plan) idx left)
  unfolding turns picked
  turns-picked plan idx zero zero h e = refl
  turns-picked plan idx zero (suc left) h e = absurd (omega arith)
  turns-picked plan idx (suc n) zero h e =
      let past : plan.count ≤ idx = omega arith in
      ground
        (arith, turn_count plan idx, turns-picked plan (idx + 1) n zero (omega arith) (omega arith))
  turns-picked plan idx (suc n) (suc left) h e =
      let more : idx < plan.count = omega arith in
      ground
        (arith, turn_count plan idx, turns-picked plan (idx + 1) n left (omega arith) (omega arith))

  makes_count :
      (plan : PreparePlan)
      → agent_id < num_agents
      → length (picked (makes plan) 0 plan.count)
        ≡ actual_to_create shared_storage agent_id num_agents plan
  unfolding actual_to_create should_create
  makes_count plan h = elim (Bool-cases (plan.skip_verification && not plan.force_overwrite)) [
    | inl skip ↦
        let none_made =
          picked_ext (makes plan) (λ i. false) 0 plan.count (λ i. ground arith)
          ∙ picked_none 0 plan.count in
        ground arith
    | inr verify ↦ elim (Bool-cases plan.force_overwrite) [
      | inl force ↦ elim (Bool-cases (shared_storage && ltb 1 num_agents)) [
        | inl share ↦
            let share_made =
              picked_ext (makes plan) (λ i. i % num_agents == agent_id) 0 plan.count
                (λ i. ground arith)
              ∙ share_size agent_id num_agents plan.count h in
            ground arith
        | inr all ↦
            let all_made =
              picked_ext (makes plan) (λ i. true) 0 plan.count (λ i. ground arith)
              ∙ picked_all 0 plan.count in
            ground arith
      ]
      | inr keep ↦
          let missing = λ (i : ℕ).
            not (contains i plan.existing_indices)
            && in_share shared_storage agent_id num_agents i in
          let missing_made = picked_ext (makes plan) missing 0 plan.count (λ i. ground arith) in
          ground arith
    ]
  ]

  turns-total :
      (plans : List PreparePlan) (n : ℕ)
      → agent_id < num_agents
      → most shared_storage agent_id num_agents m plans ≤ n
      → turns_all plans 0 n ≡ total_to_create shared_storage agent_id num_agents m plans
  unfolding turns_all total_to_create
  turns-total [] n h enough = refl
  turns-total (plan ∷ plans) n h enough = omega (
    arith,
    turns-picked plan 0 n plan.count (omega (arith, enough)) (omega arith),
    makes_count plan h,
    turns-total plans n h (omega (arith, enough)),
  )

  -- For any plans, whether the storage is shared or not and whether or not `force_overwrite` or
  -- `skip_verification` is set, the parallel strategy makes exactly as many tasks as it announces, or
  -- it made no more than them and the last one filled a chunk of 100,000 tasks that ended with an
  -- error, all chunks before it having ended without.
  pub parallel_tasks_announced :
      (aborts : ℕ → Bool) (plans : List PreparePlan)
      → agent_id < num_agents
      → let made =
          length (parallel_tasks shared_storage agent_id num_agents m aborts sizes plans) in
        let announced = total_to_create shared_storage agent_id num_agents m plans in
        (made ≡ announced)
        ⊎ ((k : ℕ) × (aborts k ≡ true)
            × (made ≡ 100000 * (k + 1))
            × (made ≤ announced)
            × ((j : ℕ) → j < k → aborts j ≡ false))
  unfolding parallel_tasks
  parallel_tasks_announced aborts plans h =
      let whole =
        length-rounds plans 0 (most shared_storage agent_id num_agents m plans)
        ∙ turns-total plans (most shared_storage agent_id num_agents m plans) h (omega arith) in
      elim (until_abort_lem aborts 0 99999 (
        rounds shared_storage agent_id num_agents m sizes plans 0
          (most shared_storage agent_id num_agents m plans))) [
            | inl e ↦ inl (e ∙ whole)
            | inr (k, a, n, few, before) ↦
                inr (k, a, omega arith, omega arith, λ j l. before j (omega arith) l)
          ]
