-- ===== src/Metrics/Counting.antt =====
-- src/workload.rs and src/multiprocess.rs: no operation is lost or counted twice between the
-- workers' statistics and the merged summary.
use mathlib.Core.List.{Perm}
use mathlib.Core.List.Perm
use mathlib.Core.Path.{Path}
use sai3_bench.Prelude.{
  ℕ, ◌+◌, ◌%◌, ◌≡◌, refl, sym, ap, ◌∙◌, List, [], ◌∷◌, ◌++◌, length, length-append, length-Perm,
  Perm_middle, ◌==◌, if◌then◌else◌, u64, sum_by, sum_by-append, sum_by-Perm, arith, inl, inr,
  Bool-cases,
}
use sai3_bench.Prelude.Keys.{nat_key}
use sai3_bench.Prelude.Assoc.{IsNodup, contains}
use sai3_bench.Prelude.Maps.{lookup, keys, IsNodup-keys-insert}
use sai3_bench.Metrics.{
  bucket_index, bin, add, merge_from, OpStats, WorkerStats, no_ops, no_stats, Operation, did_get,
  did_put, did_meta, count_op, count_operation, count_operations, merge_ops,
}
use sai3_bench.Metrics.Bins.{bin-grow, bin-merge_from, bin_absent, IsNodup-merge_from}

abbrev pub one_in : ℕ → ℕ → ℕ
one_in b n = if bucket_index n == b then 1 else 0

abbrev pub size_in : ℕ → ℕ → ℕ
size_in b n = if bucket_index n == b then n else 0

abbrev pub size_of : ℕ → ℕ
size_of n = n

-- The statistics are those of operations on objects of the sizes `ns`, up to 2^64.
pub record Counts (ns : List ℕ) (s : OpStats) : Type 0 where
  pub all_ops : s.ops ≡ length ns % u64
  pub all_bytes : s.bytes ≡ sum_by size_of ns % u64
  pub in_bins : (b : ℕ) → bin b s.bins ≡ (sum_by (one_in b) ns % u64, sum_by (size_in b) ns % u64)
  pub bins_IsNodup : IsNodup (keys s.bins)

no_ops-Counts : Counts [] no_ops
unfolding sum_by lookup
no_ops-Counts = record { all_ops = refl; all_bytes = refl; in_bins = λ b. refl; bins_IsNodup = tt }

Counts-Perm : (ms ns : List ℕ) (s : OpStats) → Perm ms ns → Counts ms s → Counts ns s
Counts-Perm ms ns s p c = record {
  all_ops = c.all_ops ∙ ap (λ k. k % u64) (length-Perm p);
  all_bytes = c.all_bytes ∙ ap (λ k. k % u64) (sum_by-Perm size_of p);
  in_bins = λ b.
      c.in_bins b
      ∙ ap (λ k. (k % u64, sum_by (size_in b) ms % u64)) (sum_by-Perm (one_in b) p)
      ∙ ap (λ k. (sum_by (one_in b) ns % u64, k % u64)) (sum_by-Perm (size_in b) p);
  bins_IsNodup = c.bins_IsNodup;
}

pair_eq : {a b c d : ℕ} → a ≡ c → b ≡ d → Path (ℕ × ℕ) (a, b) (c, d)
pair_eq e f i = (e i, f i)

bin-add :
    (b n : ℕ) (ns : List ℕ) (s : OpStats)
    → Counts ns s
    → bin b (add n s.bins) ≡ (sum_by (one_in b) (n ∷ ns) % u64, sum_by (size_in b) (n ∷ ns) % u64)
unfolding add sum_by
bin-add b n ns s c =
    let old = c.in_bins b in
    bin-grow b (bucket_index n) 1 n s.bins ∙ elim (Bool-cases (bucket_index n == b)) [
      | inl e ↦ rw (e, old) (pair_eq (omega arith) (omega arith))
      | inr e ↦ rw (e, old) (pair_eq (omega arith) (omega arith))
    ]

count_op-Counts : (n : ℕ) (ns : List ℕ) (s : OpStats) → Counts ns s → Counts (n ∷ ns) (count_op n s)
unfolding count_op add sum_by
count_op-Counts n ns s c = record {
  all_ops = omega (arith, c.all_ops);
  all_bytes = omega (arith, c.all_bytes);
  in_bins = λ b. bin-add b n ns s c;
  bins_IsNodup =
      IsNodup-keys-insert (bucket_index n)
        (((bin (bucket_index n) s.bins).0 + 1) % u64, ((bin (bucket_index n) s.bins).1 + n) % u64)
        s.bins c.bins_IsNodup;
}

bin-merge :
    (b : ℕ) (ms ns : List ℕ) (s t : OpStats)
    → Counts ms s
    → Counts ns t
    → bin b (merge_from s.bins t.bins)
      ≡ (sum_by (one_in b) (ms ++ ns) % u64, sum_by (size_in b) (ms ++ ns) % u64)
bin-merge b ms ns s t c d =
    bin-merge_from b s.bins t.bins d.bins_IsNodup ∙ elim (Bool-cases (contains b (keys t.bins))) [
      | inl e ↦
          rw (e, c.in_bins b, d.in_bins b)
            (pair_eq (omega (arith, sum_by-append (one_in b) ms ns))
              (omega (arith, sum_by-append (size_in b) ms ns)))
      | inr e ↦
          let absent = sym (d.in_bins b) ∙ bin_absent b t.bins e in
          rw (e, c.in_bins b)
            (pair_eq (omega (arith, sum_by-append (one_in b) ms ns, ap (λ p. p.0) absent))
              (omega (arith, sum_by-append (size_in b) ms ns, ap (λ p. p.1) absent)))
    ]

pub merge_ops-Counts :
    (ms ns : List ℕ) (s t : OpStats) → Counts ms s → Counts ns t → Counts (ms ++ ns) (merge_ops s t)
unfolding merge_ops
merge_ops-Counts ms ns s t c d = record {
  all_ops = omega (arith, c.all_ops, d.all_ops, length-append ms ns);
  all_bytes = omega (arith, c.all_bytes, d.all_bytes, sum_by-append size_of ms ns);
  in_bins = λ b. bin-merge b ms ns s t c d;
  bins_IsNodup = IsNodup-merge_from s.bins t.bins c.bins_IsNodup;
}

abbrev pub gets : List Operation → List ℕ
gets [] = []
gets (did_get n ∷ ops) = n ∷ gets ops
gets (did_put n ∷ ops) = gets ops
gets (did_meta ∷ ops) = gets ops

abbrev pub puts : List Operation → List ℕ
puts [] = []
puts (did_get n ∷ ops) = puts ops
puts (did_put n ∷ ops) = n ∷ puts ops
puts (did_meta ∷ ops) = puts ops

-- The metadata operations, of size 0 each.
abbrev pub metas : List Operation → List ℕ
metas [] = []
metas (did_get n ∷ ops) = metas ops
metas (did_put n ∷ ops) = metas ops
metas (did_meta ∷ ops) = 0 ∷ metas ops

-- The statistics are those of the operations, of each kind.
pub record CountsAll (ops : List Operation) (ws : WorkerStats) : Type 0 where
  pub counts_gets : Counts (gets ops) ws.get
  pub counts_puts : Counts (puts ops) ws.put
  pub counts_metas : Counts (metas ops) ws.meta

pub no_stats-CountsAll : CountsAll [] no_stats
no_stats-CountsAll = record {
  counts_gets = no_ops-Counts;
  counts_puts = no_ops-Counts;
  counts_metas = no_ops-Counts;
}

meta-Counts :
    (ns : List ℕ) (s : OpStats)
    → Counts ns s
    → Counts (0 ∷ ns) (record s { ops = (s.ops + 1) % u64; bins = add 0 s.bins })
unfolding add sum_by
meta-Counts ns s c =
    let d = count_op-Counts 0 ns s c in
    record {
      all_ops = omega (arith, c.all_ops);
      all_bytes = omega (arith, c.all_bytes);
      in_bins = λ b. bin-add b 0 ns s c;
      bins_IsNodup =
          IsNodup-keys-insert (bucket_index 0)
            (
              ((bin (bucket_index 0) s.bins).0 + 1) % u64,
              ((bin (bucket_index 0) s.bins).1 + 0) % u64,
            )
            s.bins c.bins_IsNodup;
    }

-- The statistics of a worker after its operations, from those before.
pub count_operations-Counts :
    (ops : List Operation) (gs bs cs : List ℕ) (ws : WorkerStats)
    → Counts gs ws.get
    → Counts bs ws.put
    → Counts cs ws.meta
    → let after = count_operations ops ws in
      Counts (gets ops ++ gs) after.get
      × Counts (puts ops ++ bs) after.put
      × Counts (metas ops ++ cs) after.meta
unfolding count_operations count_operation
count_operations-Counts [] gs bs cs ws g p m = (g, p, m)
count_operations-Counts (did_get n ∷ ops) gs bs cs ws g p m =
    let ws' = count_operation (did_get n) ws in
    let (g', p', m') =
      count_operations-Counts ops (n ∷ gs) bs cs ws' (count_op-Counts n gs ws.get g) p m in
    (
      Counts-Perm (gets ops ++ n ∷ gs) (n ∷ (gets ops ++ gs)) (count_operations ops ws').get
          (Perm.symm (Perm_middle n (gets ops) gs)) g',
      p',
      m',
    )
count_operations-Counts (did_put n ∷ ops) gs bs cs ws g p m =
    let ws' = count_operation (did_put n) ws in
    let (g', p', m') =
      count_operations-Counts ops gs (n ∷ bs) cs ws' g (count_op-Counts n bs ws.put p) m in
    (
      g',
      Counts-Perm (puts ops ++ n ∷ bs) (n ∷ (puts ops ++ bs)) (count_operations ops ws').put
          (Perm.symm (Perm_middle n (puts ops) bs)) p',
      m',
    )
count_operations-Counts (did_meta ∷ ops) gs bs cs ws g p m =
    let ws' = count_operation did_meta ws in
    let (g', p', m') =
      count_operations-Counts ops gs bs (0 ∷ cs) ws' g p (meta-Counts cs ws.meta m) in
    (
      g',
      p',
      Counts-Perm (metas ops ++ 0 ∷ cs) (0 ∷ (metas ops ++ cs)) (count_operations ops ws').meta
          (Perm.symm (Perm_middle 0 (metas ops) cs)) m',
    )
