-- ===== src/Metrics/Bins.antt =====
-- The size bins of src/workload.rs: what is in a bin after sizes were added and bins merged.
use sai3_bench.Prelude.{
  ℕ, ◌+◌, ◌%◌, ◌≡◌, ◌<◌, refl, sym, ap, ◌∙◌, false, [], ◌∷◌, All, ◌==◌, ==_iff, if◌then◌else◌,
  unwrap_or, u32, u64, arith, inl, inr, Bool-cases,
}
use sai3_bench.Prelude.Keys.{nat_key}
use sai3_bench.Prelude.Assoc.{IsNodup, contains}
use sai3_bench.Prelude.Maps.{lookup, insert, keys, lookup-insert, IsNodup-keys-insert}
use sai3_bench.Metrics.{
  SizeBins, bucket_index, num_buckets, bin, grow, merge_from, size_bins_to_proto,
  proto_to_size_bins, collect_bins,
}

-- A size goes to one of the buckets.
pub bucket_index-lt : (n : ℕ) → bucket_index n < num_buckets
unfolding bucket_index
bucket_index-lt n = ground arith

abbrev plus : ℕ × ℕ → ℕ × ℕ → ℕ × ℕ
plus x y = ((x.0 + y.0) % u64, (x.1 + y.1) % u64)

pub bin-grow :
    (b k ops bytes : ℕ) (bins : SizeBins)
    → bin b (grow k ops bytes bins)
      ≡ (if k == b then plus (bin b bins) (ops, bytes) else bin b bins)
bin-grow b k ops bytes bins = elim (Bool-cases (k == b)) [
  | inl e ↦
      let same : k ≡ b = (==_iff k b).0 e in
      ap (λ o. unwrap_or o (0, 0))
        (lookup-insert k b (((bin k bins).0 + ops) % u64, ((bin k bins).1 + bytes) % u64) bins)
      ∙ rw (e) (ap (λ j. plus (bin j bins) (ops, bytes)) same)
  | inr e ↦
      ap (λ o. unwrap_or o (0, 0))
        (lookup-insert k b (((bin k bins).0 + ops) % u64, ((bin k bins).1 + bytes) % u64) bins)
      ∙ rw (e) refl
]

-- A bin that is not among the others is kept, one that is among them gets what they have.
pub bin-merge_from :
    (b : ℕ) (bins other : SizeBins)
    → IsNodup (keys other)
    → bin b (merge_from bins other)
      ≡ (if contains b (keys other) then plus (bin b bins) (bin b other) else bin b bins)
unfolding merge_from lookup contains
bin-merge_from b bins [] d = refl
bin-merge_from b bins ((k, (ops, bytes)) ∷ other) d =
    let rest = bin-merge_from b (grow k ops bytes bins) other d.1 in
    let first = bin-grow b k ops bytes bins in
    elim (Bool-cases (k == b)) [
      | inl e ↦
          let same : k ≡ b = (==_iff k b).0 e in
          let apart : contains b (keys other) ≡ false =
            ap (λ j. contains j (keys other)) (sym same) ∙ d.0 in
          rest ∙ rw (apart) (first ∙ rw (e) refl)
      | inr e ↦
          let kept : bin b (grow k ops bytes bins) ≡ bin b bins = first ∙ rw (e) refl in
          rest ∙ rw (kept) (rw (e) refl)
    ]

pub IsNodup-merge_from :
    (bins other : SizeBins) → IsNodup (keys bins) → IsNodup (keys (merge_from bins other))
unfolding merge_from
IsNodup-merge_from bins [] d = d
IsNodup-merge_from bins ((k, (ops, bytes)) ∷ other) d =
    IsNodup-merge_from (grow k ops bytes bins) other
      (IsNodup-keys-insert k (((bin k bins).0 + ops) % u64, ((bin k bins).1 + bytes) % u64) bins d)

pub bin_absent : (b : ℕ) (bins : SizeBins) → contains b (keys bins) ≡ false → bin b bins ≡ (0, 0)
unfolding lookup contains
bin_absent b [] h = refl
bin_absent b ((k, v) ∷ bins) h = ground (arith, bin_absent b bins)

abbrev FitsProto : SizeBins → Type 0
FitsProto bins = All (λ k. k < u32) (keys bins)

lookup-collect_bins :
    (b : ℕ) (bins acc : SizeBins)
    → FitsProto bins
    → IsNodup (keys bins)
    → lookup b (collect_bins (size_bins_to_proto bins) acc)
      ≡ (if contains b (keys bins) then lookup b bins else lookup b acc)
unfolding size_bins_to_proto lookup contains
lookup-collect_bins b [] acc f d = refl
lookup-collect_bins b ((k, v) ∷ bins) acc f d =
    let same : k % u32 ≡ k = omega (arith, f.0) in
    let rest = lookup-collect_bins b bins (insert (k % u32) v acc) f.1 d.1 in
    let put = lookup-insert (k % u32) b v acc in
    elim (Bool-cases (k == b)) [
      | inl e ↦
          let eq : k ≡ b = (==_iff k b).0 e in
          let apart : contains b (keys bins) ≡ false =
            ap (λ j. contains j (keys bins)) (sym eq) ∙ d.0 in
          rest ∙ rw (apart) (put ∙ rw (same, e) refl)
      | inr e ↦ rest ∙ rw (put, same, e) refl
    ]

-- What an agent sends of its size bins is read by the controller as the same bins, when the bins
-- are distinct and numbered below 2^32.
pub proto_to_size_bins-size_bins_to_proto :
    (b : ℕ) (bins : SizeBins)
    → FitsProto bins
    → IsNodup (keys bins)
    → bin b (proto_to_size_bins (size_bins_to_proto bins)) ≡ bin b bins
unfolding proto_to_size_bins lookup
proto_to_size_bins-size_bins_to_proto b bins f d =
    ap (λ o. unwrap_or o (0, 0)) (lookup-collect_bins b bins [] f d)
    ∙ elim (Bool-cases (contains b (keys bins))) [
      | inl e ↦ rw (e) refl
      | inr e ↦ rw (e) (sym (bin_absent b bins e))
    ]
