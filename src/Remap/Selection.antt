-- ===== src/Remap/Selection.antt =====
-- src/remap.rs: which target a fanout rule chooses, after whatever the engine did before.
use native.Mathlib.Nat.{mod-add-mod, mod-lt}
use sai3_bench.Prelude.{
  ℕ, ◌+◌, ◌%◌, ◌≡◌, ◌≢◌, ◌<◌, refl, sym, ap, ◌∙◌, false, some, List, [], ◌∷◌, length, get_elem?,
  get_elem?-lt, subst, ◌==◌, ==_iff, if◌then◌else◌, ◌⊎◌, inl, inr, unwrap_or, arith, Bool-cases,
  Option-cases,
}
use sai3_bench.Prelude.Keys.{key_eq, list_key, nat_key, string_key, list_eq-eq}
use sai3_bench.Prelude.Maps.{lookup, insert, lookup-insert, lookup-insert_self}
use sai3_bench.Prelude.Text.{Text, decimal, decimal_injective}
use sai3_bench.Remap.{
  TargetSpec, ManyTargets, strategy_of, in_turn, at_random, by_key, unknown, RemapState, new_state,
  Packages, select_target_from_many, sticky_index, target_at,
}

module _ {R : Type 0} (pk : Packages R) (many_of : ℕ → ManyTargets) where
  -- The state after the rules of the numbers given each chose a target for a key, the first one
  -- first. `many_of` has the targets of each rule.
  abbrev pub after : List (ℕ × Text) → RemapState → RemapState
  after [] s = s
  after ((rule_idx, key) ∷ calls) s =
      after calls (select_target_from_many pk rule_idx key (many_of rule_idx) s).1

  abbrev pub turns : ℕ → List (ℕ × Text) → ℕ
  turns r [] = 0
  turns r ((rule_idx, key) ∷ calls) = (if rule_idx == r then 1 else 0) + turns r calls

  counter : ℕ → RemapState → ℕ
  counter r s = unwrap_or (lookup r s.round_robin) 0

  stored : ℕ → RemapState → List (Text × ℕ)
  stored r s = unwrap_or (lookup (decimal r) s.sticky) []

  abbrev turned : ℕ → RemapState → RemapState
  turned i s = record s {
    round_robin = insert i ((counter i s + 1) % length (many_of i).targets) s.round_robin;
  }

  abbrev stuck : ℕ → Text → RemapState → RemapState
  stuck i key s = record s {
    sticky =
        insert (decimal i)
          (insert key (sticky_index pk.hash key (many_of i) (stored i s)) (stored i s)) s.sticky;
  }

  -- What a call does to the state.
  next_state :
      (i : ℕ) (key : Text) (s : RemapState)
      → let next = (select_target_from_many pk i key (many_of i) s).1 in
        (next ≡ s) ⊎ ((next ≡ turned i s) ⊎ (next ≡ stuck i key s))
  unfolding select_target_from_many counter stored
  next_state i key s = elim (Bool-cases (length (many_of i).targets == 0)) [
    | inl e ↦ rw (e, select_target_from_many) (inl refl)
    | inr e ↦
        elim (strategy_of (many_of i).strategy)
            as (λ st.
              strategy_of (many_of i).strategy ≡ st
              → let next = (select_target_from_many pk i key (many_of i) s).1 in
                (next ≡ s) ⊎ ((next ≡ turned i s) ⊎ (next ≡ stuck i key s))) [
                  | in_turn ↦ λ eq. rw (e, eq, select_target_from_many) (inr (inl refl))
                  | at_random ↦ λ eq. rw (e, eq, select_target_from_many) (inl refl)
                  | by_key ↦ λ eq. rw (e, eq, select_target_from_many) (inr (inr refl))
                  | unknown ↦ λ eq. rw (e, eq, select_target_from_many) (inl refl)
                ]
          refl
  ]

  other_call :
      (r i : ℕ) (key : Text) (s : RemapState)
      → i ≢ r
      → counter r (select_target_from_many pk i key (many_of i) s).1 ≡ counter r s
  unfolding counter
  other_call r i key s h = elim (next_state i key s) [
    | inl e ↦ ap (counter r) e
    | inr (inl e) ↦
        ap (counter r) e
        ∙ ground (
          arith,
          lookup-insert i r ((counter i s + 1) % length (many_of i).targets) s.round_robin,
        )
    | inr (inr e) ↦ ap (counter r) e
  ]

  -- A rule that has targets, by their order.
  abbrev pub IsInTurn : ℕ → Type 0
  IsInTurn r = (strategy_of (many_of r).strategy ≡ in_turn) × (0 < length (many_of r).targets)

  own_call :
      (r : ℕ) (key : Text) (s : RemapState)
      → IsInTurn r
      → counter r (select_target_from_many pk r key (many_of r) s).1
        ≡ (counter r s + 1) % length (many_of r).targets
  unfolding select_target_from_many counter
  own_call r key s (h, pos) =
      let some_targets : (length (many_of r).targets == 0) ≡ false = ground arith in
      rw (some_targets, h, select_target_from_many)
        (ap (λ o. unwrap_or o 0)
          (lookup-insert_self r ((counter r s + 1) % length (many_of r).targets) s.round_robin))

  counter_is_moved :
      (r : ℕ) (calls : List (ℕ × Text)) (s : RemapState)
      → IsInTurn r
      → counter r (after calls s) % length (many_of r).targets
        ≡ (counter r s + turns r calls) % length (many_of r).targets
  counter_is_moved r [] s h = ap (λ k. k % length (many_of r).targets) (omega arith)
  counter_is_moved r ((i, key) ∷ calls) s h =
      let n = length (many_of r).targets in
      let next = (select_target_from_many pk i key (many_of i) s).1 in
      let rest = counter_is_moved r calls next h in
      elim (Bool-cases (i == r)) [
        | inl same ↦
            let eq : i ≡ r = (==_iff i r).0 same in
            let step : counter r next ≡ (counter r s + 1) % n =
              subst
                (λ k.
                  counter r (select_target_from_many pk k key (many_of k) s).1
                  ≡ (counter r s + 1) % n)
                (sym eq) (own_call r key s h) in
            rest
            ∙ ap (λ c. (c + turns r calls) % n) step
            ∙ mod-add-mod (counter r s + 1) n (turns r calls)
            ∙ ap (λ k. k % n) (ground arith)
        | inr other ↦
            let apart : i ≢ r = ground arith in
            rest ∙ ap (λ k. k % n) (ground (arith, other_call r i key s apart))
      ]

  -- Whatever was asked of the engine since its start, a rule with targets in turn chooses the
  -- target whose position is the number of times it chose before, modulo the number of targets.
  pub select_in_turn :
      (r : ℕ) (key : Text) (calls : List (ℕ × Text))
      → IsInTurn r
      → (t : TargetSpec) × (get_elem?
            (many_of r).targets
            (turns r calls % length (many_of r).targets)
          ≡ some t)
        × ((select_target_from_many pk r key (many_of r) (after calls new_state)).0 ≡ inr t)
  unfolding select_target_from_many lookup counter
  select_in_turn r key calls (h, pos) =
      let many = many_of r in
      let n = length many.targets in
      let s = after calls new_state in
      let some_targets : (n == 0) ≡ false = ground arith in
      let index : counter r s % n ≡ turns r calls % n =
        counter_is_moved r calls new_state (h, pos) ∙ ap (λ k. k % n) (omega arith) in
      let (t, at) = get_elem?-lt many.targets (turns r calls % n) (mod-lt (turns r calls) pos) in
      (
        t,
        at,
        rw (some_targets, h, select_target_from_many)
            (ap (target_at many) index ∙ rw (at, target_at) refl),
      )

  IsStickyState : RemapState → Type 0
  IsStickyState s =
      (r : ℕ) (key : Text) (idx : ℕ)
      → lookup key (stored r s) ≡ some idx
      → idx ≡ pk.hash key % length (many_of r).targets

  sticky_index_hash :
      (r : ℕ) (key : Text) (s : RemapState)
      → IsStickyState s
      → sticky_index pk.hash key (many_of r) (stored r s) ≡ pk.hash key % length (many_of r).targets
  unfolding sticky_index IsStickyState
  sticky_index_hash r key s h = elim (Option-cases (lookup key (stored r s))) [
    | inl e ↦ rw (e, sticky_index) refl
    | inr (idx, e) ↦ rw (e, sticky_index) (h r key idx e)
  ]

  stuck-IsStickyState :
      (i : ℕ) (key : Text) (s : RemapState) → IsStickyState s → IsStickyState (stuck i key s)
  unfolding IsStickyState stored
  stuck-IsStickyState i key s h r k idx e =
      let kept = stored i s in
      let v = sticky_index pk.hash key (many_of i) kept in
      let new = insert key v kept in
      let found : stored r (stuck i key s)
          ≡ (if key_eq (decimal i) (decimal r) then new else stored r s) =
        ground (arith, lookup-insert (decimal i) (decimal r) new s.sticky) in
      elim (Bool-cases (key_eq (decimal i) (decimal r))) [
        | inr other ↦
            let same : stored r (stuck i key s) ≡ stored r s = found ∙ rw (other) refl in
            h r k idx (ap (lookup k) (sym same) ∙ e)
        | inl eq ↦
            let rule : i ≡ r = decimal_injective i r (list_eq-eq (decimal i) (decimal r) eq) in
            let inside : stored r (stuck i key s) ≡ new = found ∙ rw (eq) refl in
            let hit : lookup k new ≡ some idx = ap (lookup k) (sym inside) ∙ e in
            let split = sym (lookup-insert key k v kept) ∙ hit in
            elim (Bool-cases (key_eq key k)) [
              | inr apart ↦
                  let old : lookup k kept ≡ some idx =
                    ap (λ b. if b then some v else lookup k kept) (sym apart) ∙ split in
                  subst (λ j. idx ≡ pk.hash k % length (many_of j).targets) rule (h i k idx old)
              | inl here ↦
                  let key_same : key ≡ k = list_eq-eq key k here in
                  let same : some v ≡ some idx =
                    ap (λ b. if b then some v else lookup k kept) (sym here) ∙ split in
                  let value : v ≡ idx = cc in
                  sym value
                  ∙ sticky_index_hash i key s h
                  ∙ ap (λ j. pk.hash j % length (many_of i).targets) key_same
                  ∙ ap (λ j. pk.hash k % length (many_of j).targets) rule
            ]
      ]

  after-IsStickyState :
      (calls : List (ℕ × Text)) (s : RemapState) → IsStickyState s → IsStickyState (after calls s)
  unfolding IsStickyState stored
  after-IsStickyState [] s h = h
  after-IsStickyState ((i, key) ∷ calls) s h =
      after-IsStickyState calls (select_target_from_many pk i key (many_of i) s).1
        (elim (next_state i key s) [
          | inl e ↦ subst IsStickyState (sym e) h
          | inr (inl e) ↦ subst IsStickyState (sym e) h
          | inr (inr e) ↦ subst IsStickyState (sym e) (stuck-IsStickyState i key s h)
        ])

  new_state-IsStickyState : IsStickyState new_state
  unfolding IsStickyState stored lookup
  new_state-IsStickyState r key idx e = cc

  -- Whatever was asked of the engine since its start, a rule with targets by key chooses the
  -- target at the hash of the key modulo the number of targets, so one key always the same.
  pub select_by_key :
      (r : ℕ) (key : Text) (calls : List (ℕ × Text))
      → strategy_of (many_of r).strategy ≡ by_key
      → 0 < length (many_of r).targets
      → (t : TargetSpec) × (get_elem? (many_of r).targets (pk.hash key % length (many_of r).targets)
          ≡ some t)
        × ((select_target_from_many pk r key (many_of r) (after calls new_state)).0 ≡ inr t)
  unfolding select_target_from_many stored
  select_by_key r key calls h pos =
      let many = many_of r in
      let n = length many.targets in
      let s = after calls new_state in
      let some_targets : (n == 0) ≡ false = ground arith in
      let index =
        sticky_index_hash r key s (after-IsStickyState calls new_state new_state-IsStickyState) in
      let (t, at) = get_elem?-lt many.targets (pk.hash key % n) (mod-lt (pk.hash key) pos) in
      (
        t,
        at,
        rw (some_targets, h, select_target_from_many)
            (ap (target_at many) index ∙ rw (at, target_at) refl),
      )
