-- ===== src/Controller/Barrier/Status.antt =====
-- What `check_barrier` answers, in terms of who is ready and who has failed.
use sai3_bench.Prelude.{
  ℕ, ◌-◌, ◌*◌, ◌≤◌, ◌<◌, ◌≡◌, ◌≢◌, ◌⊎◌, inl, inr, none, some, sym, ◌∙◌, arith, length, Option-cases,
}
use sai3_bench.Prelude.Keys.{string_key}
use sai3_bench.Prelude.Assoc.{Subset, Subset-intro, length-Subset, contains_of_full}
use sai3_bench.Prelude.Maps.{keys, length-keys}
use sai3_bench.Controller.Barrier.{
  BarrierType, all_or_nothing, majority, best_effort, BarrierStatus, ready, waiting, degraded,
  failed, BarrierManager, status_of, check_barrier,
}
use sai3_bench.Controller.Barrier.Inv.{Inv}

-- `n` agents, of which `r` are ready and `f` have failed; `Full` says that all of them are ready.
abbrev pub Describes : Type 0 → ℕ → ℕ → ℕ → BarrierType → BarrierStatus → Type 0
Describes Full n r f all_or_nothing ready = Full × (f ≡ 0)
Describes Full n r f all_or_nothing waiting = (¬ Full) × (f ≡ 0)
Describes Full n r f all_or_nothing degraded = ⊥
Describes Full n r f all_or_nothing failed = 0 < f
Describes Full n r f majority ready = Full × (f ≡ 0) × (0 < n)
Describes Full n r f majority waiting = (2 * f < n) × (2 * r ≤ n)
Describes Full n r f majority degraded = (2 * f < n) × (n < 2 * r) × ((0 < f) ⊎ (¬ Full))
Describes Full n r f majority failed = n ≤ 2 * f
Describes Full n r f best_effort ready = Full × (f ≡ 0) × (0 < n)
Describes Full n r f best_effort waiting = (f < n) × (r ≡ 0)
Describes Full n r f best_effort degraded = (f < n) × (0 < r) × ((0 < f) ⊎ (¬ Full))
Describes Full n r f best_effort failed = f ≡ n

module _ (n r f : ℕ) (ready_le : r ≤ n) (failed_le : f ≤ n) where
  -- No subtraction of the source overflows.
  status_of-ne-none : (t : BarrierType) → status_of r n f (n - f) t ≢ none
  unfolding status_of
  status_of-ne-none all_or_nothing = ground arith
  status_of-ne-none majority = ground arith
  status_of-ne-none best_effort = ground arith

  status_of-Describes :
      (t : BarrierType) (s : BarrierStatus)
      → status_of r n f (n - f) t ≡ some s
      → Describes (r ≡ n) n r f t s
  unfolding status_of
  status_of-Describes all_or_nothing ready h = ground arith
  status_of-Describes all_or_nothing waiting h = ground arith
  status_of-Describes all_or_nothing degraded h = ground arith
  status_of-Describes all_or_nothing failed h = ground arith
  status_of-Describes majority ready h = ground arith
  status_of-Describes majority waiting h = ground arith
  status_of-Describes majority degraded h = ground arith
  status_of-Describes majority failed h = ground arith
  status_of-Describes best_effort ready h = ground arith
  status_of-Describes best_effort waiting h = ground arith
  status_of-Describes best_effort degraded h = ground arith
  status_of-Describes best_effort failed h = ground arith

Describes-map :
    {P Q : Type 0} (n r f : ℕ) (t : BarrierType) (s : BarrierStatus)
    → (P → Q)
    → (Q → P)
    → Describes P n r f t s
    → Describes Q n r f t s
Describes-map n r f all_or_nothing ready g h d = (g d.0, d.1)
Describes-map n r f all_or_nothing waiting g h d = ((λ q. d.0 (h q)), d.1)
Describes-map n r f all_or_nothing degraded g h d = d
Describes-map n r f all_or_nothing failed g h d = d
Describes-map n r f majority ready g h d = (g d.0, d.1, d.2)
Describes-map n r f majority waiting g h d = d
Describes-map n r f majority degraded g h (a, b, inl c) = (a, b, inl c)
Describes-map n r f majority degraded g h (a, b, inr c) = (a, b, inr (λ q. c (h q)))
Describes-map n r f majority failed g h d = d
Describes-map n r f best_effort ready g h d = (g d.0, d.1, d.2)
Describes-map n r f best_effort waiting g h d = d
Describes-map n r f best_effort degraded g h (a, b, inl c) = (a, b, inl c)
Describes-map n r f best_effort degraded g h (a, b, inr c) = (a, b, inr (λ q. c (h q)))
Describes-map n r f best_effort failed g h d = d

-- Every registered agent has been seen at the end of its phase or at a barrier.
abbrev pub Everyone : BarrierManager → Type 0
Everyone bm = Subset (keys bm.agents) bm.ready_agents

module _ (bm : BarrierManager) (v : Inv bm) where
  pub ready-le : length bm.ready_agents ≤ length bm.agents
  ready-le = omega (
    arith,
    length-Subset bm.ready_agents (keys bm.agents) v.ready_nodup v.ready_known,
    length-keys bm.agents,
  )

  pub failed-le : length bm.failed_agents ≤ length bm.agents
  failed-le = omega (
    arith,
    length-Subset bm.failed_agents (keys bm.agents) v.failed_nodup v.failed_known,
    length-keys bm.agents,
  )

  full→Everyone : length bm.ready_agents ≡ length bm.agents → Everyone bm
  full→Everyone h = Subset-intro (keys bm.agents) bm.ready_agents (
      contains_of_full bm.ready_agents (keys bm.agents) v.ready_nodup v.ready_known
        (omega (arith, length-keys bm.agents)))

  Everyone→full : Everyone bm → length bm.ready_agents ≡ length bm.agents
  Everyone→full h = omega (
    arith,
    ready-le,
    length-Subset (keys bm.agents) bm.ready_agents v.agents_nodup h,
    length-keys bm.agents,
  )

  check_barrier-eq :
      check_barrier bm
      ≡ status_of
          (length bm.ready_agents)
          (length bm.agents)
          (length bm.failed_agents)
          (length bm.agents - length bm.failed_agents)
          bm.config.barrier_type
  unfolding check_barrier
  check_barrier-eq = ground (arith, failed-le)

  -- Under the invariant the verdict is computed without overflow, and is the one that the numbers
  -- of registered, ready and failed agents call for under the kind of barrier: ready only if every
  -- registered agent is ready and none has failed; failed, with all or nothing, only if one has
  -- failed, with a majority only if no majority is left, and with best effort only if all have.
  pub check_barrier_correct :
      (s : BarrierStatus) × (check_barrier bm ≡ some s)
      × Describes
          (Everyone bm)
          (length bm.agents)
          (length bm.ready_agents)
          (length bm.failed_agents)
          bm.config.barrier_type
          s
  check_barrier_correct = elim (Option-cases (check_barrier bm)) [
    | inl e ↦ absurd (
        status_of-ne-none (length bm.agents) (length bm.ready_agents) (length bm.failed_agents)
          ready-le failed-le bm.config.barrier_type (sym check_barrier-eq ∙ e))
    | inr (s, e) ↦ (
      s,
      e,
      Describes-map (length bm.agents) (length bm.ready_agents) (length bm.failed_agents)
          bm.config.barrier_type s full→Everyone Everyone→full
          (status_of-Describes (length bm.agents) (length bm.ready_agents) (length bm.failed_agents)
            ready-le failed-le bm.config.barrier_type s (sym check_barrier-eq ∙ e)),
    )
  ]
