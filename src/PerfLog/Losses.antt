-- ===== src/PerfLog/Losses.antt =====
-- src/perf_log.rs: what a log says of the operations of an agent, stage after stage. At each stage the
-- agent's counters start at nought again (`reset_for_stage` of src/live_stats.rs).
use sai3_bench.Prelude.{
  ℕ, ◌+◌, ◌-◌, ◌≤◌, ◌≡◌, refl, ◌∙◌, none, Bool, true, false, String, Option, List, [], ◌∷◌, min,
  sum_by, if◌then◌else◌, arith,
}
use sai3_bench.LiveStats.{WorkloadStage}
use sai3_bench.PerfLog.{
  PerfMetrics, PerfLogEntry, PerfLogDeltaTracker, new, start, reset_warmup_for_workload,
  reset_for_stage, compute_delta,
}

pub data Counter : Type 0 where
  get_ops get_bytes put_ops put_bytes meta_ops errors : Counter

abbrev pub measured : Counter → PerfMetrics → ℕ
measured get_ops m = m.get_ops
measured get_bytes m = m.get_bytes
measured put_ops m = m.put_ops
measured put_bytes m = m.put_bytes
measured meta_ops m = m.meta_ops
measured errors m = m.errors

abbrev pub logged : Counter → PerfLogEntry → ℕ
logged get_ops e = e.get_ops
logged get_bytes e = e.get_bytes
logged put_ops e = e.put_ops
logged put_bytes e = e.put_bytes
logged meta_ops e = e.meta_ops
logged errors e = e.errors

abbrev previous : Counter → PerfLogDeltaTracker → ℕ
previous get_ops t = t.prev_get_ops
previous get_bytes t = t.prev_get_bytes
previous put_ops t = t.prev_put_ops
previous put_bytes t = t.prev_put_bytes
previous meta_ops t = t.prev_meta_ops
previous errors t = t.prev_errors

-- The calls of a tracker, among the restarts of the agent's counters.
pub data Call : Type 0 where
  sampled : ℕ → String → PerfMetrics → WorkloadStage → String → Call
  started warmup_reset : ℕ → Option ℕ → Call
  stage_reset : ℕ → Call
  restarted : Call

unfoldable pub entries : List Call → PerfLogDeltaTracker → List PerfLogEntry
entries [] t = []
entries (sampled now id m stage name ∷ cs) t =
    let (t', e) = compute_delta now id m stage name t in e ∷ entries cs t'
entries (started now warmup ∷ cs) t = entries cs (start now warmup t)
entries (warmup_reset now warmup ∷ cs) t = entries cs (reset_warmup_for_workload now warmup t)
entries (stage_reset now ∷ cs) t = entries cs (reset_for_stage now t)
entries (restarted ∷ cs) t = entries cs t

compute_delta_lem :
    (c : Counter) (now : ℕ) (id : String) (m : PerfMetrics) (stage : WorkloadStage) (name : String)
    (t : PerfLogDeltaTracker)
    → let (t', e) = compute_delta now id m stage name t in
      (previous c t' ≡ measured c m) × (logged c e ≡ measured c m - previous c t)
unfolding compute_delta
compute_delta_lem get_ops now id m stage name t = (refl, refl)
compute_delta_lem get_bytes now id m stage name t = (refl, refl)
compute_delta_lem put_ops now id m stage name t = (refl, refl)
compute_delta_lem put_bytes now id m stage name t = (refl, refl)
compute_delta_lem meta_ops now id m stage name t = (refl, refl)
compute_delta_lem errors now id m stage name t = (refl, refl)

-- The resets of the timing leave the counters.
resets_lem :
    (c : Counter) (now : ℕ) (warmup : Option ℕ) (t : PerfLogDeltaTracker)
    → (previous c (start now warmup t) ≡ previous c t)
      × (previous c (reset_warmup_for_workload now warmup t) ≡ previous c t)
      × (previous c (reset_for_stage now t) ≡ previous c t)
unfolding start reset_warmup_for_workload reset_for_stage
resets_lem get_ops now warmup t = (refl, refl, refl)
resets_lem get_bytes now warmup t = (refl, refl, refl)
resets_lem put_ops now warmup t = (refl, refl, refl)
resets_lem put_bytes now warmup t = (refl, refl, refl)
resets_lem meta_ops now warmup t = (refl, refl, refl)
resets_lem errors now warmup t = (refl, refl, refl)

previous-new : (c : Counter) → previous c new ≡ 0
previous-new get_ops = refl
previous-new get_bytes = refl
previous-new put_ops = refl
previous-new put_bytes = refl
previous-new meta_ops = refl
previous-new errors = refl

module _ (c : Counter) where
  -- Between restarts a counter does not fall; it stands at `cur`.
  abbrev pub Grows : ℕ → List Call → Type 0
  Grows cur [] = Unit
  Grows cur (sampled now id m stage name ∷ cs) = (cur ≤ measured c m) × Grows (measured c m) cs
  Grows cur (started now warmup ∷ cs) = Grows cur cs
  Grows cur (warmup_reset now warmup ∷ cs) = Grows cur cs
  Grows cur (stage_reset now ∷ cs) = Grows cur cs
  Grows cur (restarted ∷ cs) = Grows 0 cs

  -- How much was counted up to the last sample of each stage.
  abbrev pub counted : ℕ → List Call → ℕ
  counted cur [] = 0
  counted cur (sampled now id m stage name ∷ cs) = (measured c m - cur) + counted (measured c m) cs
  counted cur (started now warmup ∷ cs) = counted cur cs
  counted cur (warmup_reset now warmup ∷ cs) = counted cur cs
  counted cur (stage_reset now ∷ cs) = counted cur cs
  counted cur (restarted ∷ cs) = counted 0 cs

  -- The sum, over the restarts, of the smaller one of the samples next to it.
  abbrev pub lost : ℕ → Bool → List Call → ℕ
  lost prev fresh [] = 0
  lost prev fresh (sampled now id m stage name ∷ cs) =
      (if fresh then min prev (measured c m) else 0) + lost (measured c m) false cs
  lost prev fresh (started now warmup ∷ cs) = lost prev fresh cs
  lost prev fresh (warmup_reset now warmup ∷ cs) = lost prev fresh cs
  lost prev fresh (stage_reset now ∷ cs) = lost prev fresh cs
  lost prev fresh (restarted ∷ cs) = lost prev true cs

  entries-lost :
      (cs : List Call) (t : PerfLogDeltaTracker) (prev : ℕ) (fresh : Bool)
      → previous c t ≡ prev
      → Grows (if fresh then 0 else prev) cs
      → sum_by (logged c) (entries cs t) + lost prev fresh cs
        ≡ counted (if fresh then 0 else prev) cs
  unfolding entries sum_by
  entries-lost [] t prev fresh e grows = refl
  entries-lost (sampled now id m stage name ∷ cs) t prev fresh e (up, grows) =
      let (next, delta) = compute_delta_lem c now id m stage name t in
      let t' = (compute_delta now id m stage name t).0 in
      let rest = entries-lost cs t' (measured c m) false next grows in ground arith
  entries-lost (started now warmup ∷ cs) t prev fresh e grows =
      entries-lost cs (start now warmup t) prev fresh ((resets_lem c now warmup t).0 ∙ e) grows
  entries-lost (warmup_reset now warmup ∷ cs) t prev fresh e grows =
      entries-lost cs (reset_warmup_for_workload now warmup t) prev fresh
        ((resets_lem c now warmup t).1 ∙ e) grows
  entries-lost (stage_reset now ∷ cs) t prev fresh e grows =
      entries-lost cs (reset_for_stage now t) prev fresh ((resets_lem c now none t).2 ∙ e) grows
  entries-lost (restarted ∷ cs) t prev fresh e grows = entries-lost cs t prev true e grows

  -- The entries that a new tracker logs, whatever its resets in between, count everything up to the
  -- last sample of each stage, but for what a stage begins with: at each restart of the counters the
  -- smaller of the sample before it and the sample after it is missing. The counters do not fall
  -- otherwise.
  pub entries-counted :
      (cs : List Call)
      → Grows 0 cs
      → sum_by (logged c) (entries cs new) + lost 0 false cs ≡ counted 0 cs
  entries-counted cs grows = entries-lost cs new 0 false (previous-new c) grows
