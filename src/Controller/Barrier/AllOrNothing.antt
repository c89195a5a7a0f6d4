-- ===== src/Controller/Barrier/AllOrNothing.antt =====
-- The all-or-nothing barrier: who is there when it opens, and that it opens.
use sai3_bench.Prelude.{
  ℕ, ◌≤◌, ◌<◌, String, ◌≡◌, refl, subst, inl, inr, Bool, true, false, ◌&&◌, ◌||◌, Option, none,
  some, List, [], ◌∷◌, arith, ◌==◌, length, All,
}
use sai3_bench.Prelude.Keys.{nat_key, string_key, key_eq}
use sai3_bench.Prelude.Assoc.{contains, IsNodup, Subset, Subset-intro, length-Subset}
use sai3_bench.Controller.Barrier.{
  BarrierReleaseInfo, BarrierManager, on_barrier_report, on_barrier_reports,
}
use sai3_bench.Controller.Barrier.Release.{barrier}
use sai3_bench.Controller.Barrier.Reports.{Handled, on_barrier_report-Handled}
use sai3_bench.Controller.Barrier.Step.{
  Healthy, Pending, reached, step-Healthy, step-reached, step-Pending, step_release,
}

-- The messages include one of agent `k` at barrier `i`.
abbrev pub reports_at : ℕ → String → List (String × ℕ) → Bool
reports_at i k [] = false
reports_at i k ((id, j) ∷ rest) = (j == i && key_eq id k) || reports_at i k rest

abbrev pub Senders : List String → List (String × ℕ) → Type 0
Senders ids = All (λ (m : String × ℕ). contains m.0 ids ≡ true)

-- A release names every agent.
abbrev pub Complete : List String → BarrierReleaseInfo → Type 0
Complete ids info = Subset ids info.ready_agents

-- What a run leaves behind at barrier `i`.
record Outcome (ids : List String) (i : ℕ) (reports : List (String × ℕ)) (bm : BarrierManager)
    (infos : List BarrierReleaseInfo) (bm' : BarrierManager) : Type 0 where
  ran : on_barrier_reports reports bm ≡ some (infos, bm')
  healthy : Healthy ids bm'
  pending : Pending i ids bm'
  grown :
      (k : String)
      → (contains k (reached i bm) || reports_at i k reports) ≡ true
      → contains k (reached i bm') ≡ true
  complete : All (Complete ids) infos

Outcome-cons :
    (ids : List String) (i : ℕ) (id : String) (j : ℕ) (rest : List (String × ℕ))
    (bm : BarrierManager) (o : Option BarrierReleaseInfo) (bm' : BarrierManager)
    → contains id ids ≡ true
    → Healthy ids bm
    → on_barrier_report id j bm ≡ some (o, bm')
    → Handled id j bm (o, bm')
    → (infos : List BarrierReleaseInfo) → (bm'' : BarrierManager)
    → Outcome ids i rest bm' infos bm''
    → (infos : List BarrierReleaseInfo) × (bm'' : BarrierManager) × Outcome ids i
        ((id, j) ∷ rest)
        bm
        infos
        bm''
unfolding on_barrier_reports
Outcome-cons ids i id j rest bm none bm' c h e d infos bm'' r = (
  infos,
  bm'',
  record {
    ran = rw (e, on_barrier_reports) r.ran;
    healthy = r.healthy;
    pending = r.pending;
    grown = λ k m. ground (arith, r.grown k, step-reached ids id j bm c h none bm' i k d);
    complete = r.complete;
  },
)
Outcome-cons ids i id j rest bm (some info) bm' c h e d infos bm'' r = (
  info ∷ infos,
  bm'',
  record {
    ran = rw (e, on_barrier_reports) (ground (arith, r.ran));
    healthy = r.healthy;
    pending = r.pending;
    grown = λ k m. ground (arith, r.grown k, step-reached ids id j bm c h (some info) bm' i k d);
    complete = (
      Subset-intro ids info.ready_agents (step_release ids id j bm c h (some info) bm' info refl d),
      r.complete,
    );
  },
)

run-Outcome :
    (ids : List String) (i : ℕ) (reports : List (String × ℕ)) (bm : BarrierManager)
    → Healthy ids bm
    → Pending i ids bm
    → Senders ids reports
    → (infos : List BarrierReleaseInfo) × (bm' : BarrierManager) × Outcome ids i reports bm infos
        bm'
run-Outcome ids i [] bm h p s = (
  [],
  bm,
  record {
    ran = unfold on_barrier_reports in refl;
    healthy = h;
    pending = p;
    grown = λ k m. ground arith;
    complete = tt;
  },
)
run-Outcome ids i ((id, j) ∷ rest) bm h p s =
    let ((o, bm'), e, d) = on_barrier_report-Handled id j bm h.inv in
    let (infos, bm'', r) =
      run-Outcome ids i rest bm' (step-Healthy ids id j bm s.0 h o bm' d)
        (step-Pending ids id j bm s.0 h o bm' i p d) s.1 in
    Outcome-cons ids i id j rest bm o bm' s.0 h e d infos bm'' r

All-contains :
    (f : String → Bool) (ids : List String)
    → All (λ k. f k ≡ true) ids
    → (k : String) → contains k ids ≡ true
    → f k ≡ true
unfolding contains
All-contains f [] h k c = cc
All-contains f (j ∷ ids) h k c =
    ground (arith, All-contains f ids h.1 k, h.0, string_key.beq_iff j k)

-- Of an all-or-nothing manager of the agents `ids`, none of which has failed, where somebody is still
-- missing at barrier `i`: after messages that come from these agents and include one of each agent
-- at `i`, in any order, among messages at other barriers and repeated ones, the barrier has been
-- released, and no release leaves an agent out.
pub full_barrier_releases :
    (ids : List String) (i : ℕ) (reports : List (String × ℕ)) (bm : BarrierManager)
    → Healthy ids bm
    → length (reached i bm) < length ids
    → Senders ids reports
    → All (λ k. reports_at i k reports ≡ true) ids
    → (infos : List BarrierReleaseInfo) × (bm' : BarrierManager) × (on_barrier_reports reports bm
        ≡ some (infos, bm'))
      × ((barrier i bm').released ≡ true)
      × All (Complete ids) infos
full_barrier_releases ids i reports bm h p s all =
    let (infos, bm', r) = run-Outcome ids i reports bm h (inr p) s in
    (infos, bm', r.ran, released_of_full bm' r.pending (all_reached r), r.complete)
  where
    all_reached :
        {infos : List BarrierReleaseInfo} {bm' : BarrierManager}
        → Outcome ids i reports bm infos bm'
        → length ids ≤ length (reached i bm')
    all_reached {bm' = bm'} r =
        length-Subset ids (reached i bm') (subst (λ xs. IsNodup xs) h.agents h.inv.agents_nodup) (
          Subset-intro ids (reached i bm') (λ k c.
            r.grown k (ground (arith, All-contains (λ j. reports_at i j reports) ids all k c))))

    released_of_full :
        (bm' : BarrierManager)
        → Pending i ids bm'
        → length ids ≤ length (reached i bm')
        → (barrier i bm').released ≡ true
    released_of_full bm' (inl e) l = e
    released_of_full bm' (inr q) l = absurd (omega arith)
