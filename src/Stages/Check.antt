-- ===== src/Stages/Check.antt =====
-- What the checks on stages in src/config.rs accept.
use sai3_bench.Prelude.{
  All-map, ◌⊎◌, inl, inr, ◌≡◌, ◌≢◌, refl, ◌↔◌, true, false, none, List, [], ◌∷◌, All, arith,
}
use sai3_bench.Prelude.Keys.{Key, nat_key, string_key}
use sai3_bench.Prelude.Assoc.{contains, set_insert, contains-set_insert, IsNodup}
use sai3_bench.Stages.{
  StageSpecificConfig, execute, prepare, cleanup, custom, hybrid, validation, CompletionCriteria,
  duration, tasks_done, script_exit, validation_passed, duration_or_tasks, StageConfig,
  first_duplicate, first_unfit, completion_fits, names, orders, validate_stages,
}

module _ {ℓ} {K : Type ℓ} ⦃e : Key K⦄ where
  abbrev Unseen : List K → List K → Type 0
  Unseen seen ks = All (λ k. contains k seen ≡ false) ks

  Unseen-drop :
      (k : K) (seen ks : List K)
      → Unseen (set_insert k seen) ks
      → Unseen seen ks × (contains k ks ≡ false)
  unfolding contains
  Unseen-drop k seen [] h = (tt, refl)
  Unseen-drop k seen (j ∷ ks) h =
      let ih = Unseen-drop k seen ks h.1 in
      (
        (ground (arith, contains-set_insert k j seen, h.0), ih.0),
        ground (arith, contains-set_insert k j seen, h.0, ih.1, e.beq_iff k j, e.beq_iff j k),
      )

  Unseen-add :
      (k : K) (seen ks : List K)
      → Unseen seen ks
      → contains k ks ≡ false
      → Unseen (set_insert k seen) ks
  unfolding contains
  Unseen-add k seen [] h c = tt
  Unseen-add k seen (j ∷ ks) h c = (
    ground (arith, contains-set_insert k j seen, h.0, e.beq_iff k j, e.beq_iff j k),
    Unseen-add k seen ks h.1 (ground arith),
  )

  first_duplicate_sound :
      (seen ks : List K) → first_duplicate seen ks ≡ none → Unseen seen ks × IsNodup ks
  unfolding first_duplicate
  first_duplicate_sound seen [] h = (tt, tt)
  first_duplicate_sound seen (k ∷ ks) h =
      let fresh : contains k seen ≡ false = ground arith in
      let ih = first_duplicate_sound (set_insert k seen) ks (ground arith) in
      let apart = Unseen-drop k seen ks ih.0 in ((fresh, apart.0), (apart.1, ih.1))

  first_duplicate_complete :
      (seen ks : List K) → Unseen seen ks → IsNodup ks → first_duplicate seen ks ≡ none
  unfolding first_duplicate
  first_duplicate_complete seen [] u d = refl
  first_duplicate_complete seen (k ∷ ks) u d =
      rw (u.0, first_duplicate)
        (first_duplicate_complete (set_insert k seen) ks (Unseen-add k seen ks u.1 d.0) d.1)

first_unfit_sound :
    (ss : List StageConfig)
    → first_unfit ss ≡ none
    → All (λ s. completion_fits s.config s.completion ≡ true) ss
unfolding first_unfit
first_unfit_sound [] h = tt
first_unfit_sound (s ∷ ss) h = (ground arith, first_unfit_sound ss (ground arith))

first_unfit_complete :
    (ss : List StageConfig)
    → All (λ s. completion_fits s.config s.completion ≡ true) ss
    → first_unfit ss ≡ none
unfolding first_unfit
first_unfit_complete [] h = refl
first_unfit_complete (s ∷ ss) h = rw (h.0, first_unfit) (first_unfit_complete ss h.1)

-- The completions that go with each kind of stage: by duration for an execution, by tasks for a
-- preparation and a cleanup, by the exit of its script for a custom stage, by its checks for a
-- validation; and either of duration and tasks for each but a validation.
abbrev pub Fits : StageSpecificConfig → CompletionCriteria → Type 0
Fits (execute d) c = (c ≡ duration) ⊎ (c ≡ duration_or_tasks)
Fits (prepare n) c = (c ≡ tasks_done) ⊎ (c ≡ duration_or_tasks)
Fits (cleanup n) c = (c ≡ tasks_done) ⊎ (c ≡ duration_or_tasks)
Fits (custom command args) c = (c ≡ script_exit) ⊎ (c ≡ duration_or_tasks)
Fits (hybrid d n) c = c ≡ duration_or_tasks
Fits validation c = c ≡ validation_passed

completion_fits-Fits :
    (config : StageSpecificConfig) (c : CompletionCriteria)
    → completion_fits config c ≡ true
    → Fits config c
unfolding completion_fits
completion_fits-Fits (execute d) duration h = inl refl
completion_fits-Fits (execute d) duration_or_tasks h = inr refl
completion_fits-Fits (execute d) tasks_done h = cc
completion_fits-Fits (execute d) script_exit h = cc
completion_fits-Fits (execute d) validation_passed h = cc
completion_fits-Fits (prepare n) duration h = cc
completion_fits-Fits (prepare n) duration_or_tasks h = inr refl
completion_fits-Fits (prepare n) tasks_done h = inl refl
completion_fits-Fits (prepare n) script_exit h = cc
completion_fits-Fits (prepare n) validation_passed h = cc
completion_fits-Fits (cleanup n) duration h = cc
completion_fits-Fits (cleanup n) duration_or_tasks h = inr refl
completion_fits-Fits (cleanup n) tasks_done h = inl refl
completion_fits-Fits (cleanup n) script_exit h = cc
completion_fits-Fits (cleanup n) validation_passed h = cc
completion_fits-Fits (custom command args) duration h = cc
completion_fits-Fits (custom command args) duration_or_tasks h = inr refl
completion_fits-Fits (custom command args) tasks_done h = cc
completion_fits-Fits (custom command args) script_exit h = inl refl
completion_fits-Fits (custom command args) validation_passed h = cc
completion_fits-Fits (hybrid d n) duration h = cc
completion_fits-Fits (hybrid d n) duration_or_tasks h = refl
completion_fits-Fits (hybrid d n) tasks_done h = cc
completion_fits-Fits (hybrid d n) script_exit h = cc
completion_fits-Fits (hybrid d n) validation_passed h = cc
completion_fits-Fits validation duration h = cc
completion_fits-Fits validation duration_or_tasks h = cc
completion_fits-Fits validation tasks_done h = cc
completion_fits-Fits validation script_exit h = cc
completion_fits-Fits validation validation_passed h = refl

Fits-completion_fits :
    (config : StageSpecificConfig) (c : CompletionCriteria)
    → Fits config c
    → completion_fits config c ≡ true
unfolding completion_fits
Fits-completion_fits (execute d) c (inl e) = rw e refl
Fits-completion_fits (execute d) c (inr e) = rw e refl
Fits-completion_fits (prepare d) c (inl e) = rw e refl
Fits-completion_fits (prepare d) c (inr e) = rw e refl
Fits-completion_fits (cleanup d) c (inl e) = rw e refl
Fits-completion_fits (cleanup d) c (inr e) = rw e refl
Fits-completion_fits (custom d a) c (inl e) = rw e refl
Fits-completion_fits (custom d a) c (inr e) = rw e refl
Fits-completion_fits (hybrid d a) c e = rw e refl
Fits-completion_fits validation c e = rw e refl

-- Stages a run may have: at least one, all names different, all orders different, and each with a
-- completion that goes with its kind.
pub record IsValid (ss : List StageConfig) : Type 0 where
  pub some_stage : ss ≢ []
  pub distinct_names : IsNodup (names ss)
  pub distinct_orders : IsNodup (orders ss)
  pub completions_fit : All (λ s. Fits s.config s.completion) ss

none-Unseen {ℓ} : {K : Type ℓ} ⦃e : Key K⦄ → (ks : List K) → Unseen [] ks
unfolding contains
none-Unseen [] = tt
none-Unseen (k ∷ ks) = (refl, none-Unseen ks)

validate_stages-IsValid : (ss : List StageConfig) → validate_stages ss ≡ none → IsValid ss
unfolding validate_stages
validate_stages-IsValid [] h = cc
validate_stages-IsValid (s ∷ ss) h = record {
  some_stage = λ e. cc;
  distinct_names = (first_duplicate_sound [] (names (s ∷ ss)) (ground arith)).1;
  distinct_orders = (first_duplicate_sound [] (orders (s ∷ ss)) (ground arith)).1;
  completions_fit =
      All-map (λ t. completion_fits-Fits t.config t.completion) (s ∷ ss)
        (first_unfit_sound (s ∷ ss) (ground arith));
}

IsValid-validate_stages : (ss : List StageConfig) → IsValid ss → validate_stages ss ≡ none
unfolding validate_stages
IsValid-validate_stages [] v = absurd (v.some_stage refl)
IsValid-validate_stages (s ∷ ss) v =
    rw
      (
        first_duplicate_complete [] (names (s ∷ ss)) (none-Unseen (names (s ∷ ss)))
            v.distinct_names,
        first_duplicate_complete [] (orders (s ∷ ss)) (none-Unseen (orders (s ∷ ss)))
            v.distinct_orders,
        first_unfit_complete (s ∷ ss)
            (All-map (λ t. Fits-completion_fits t.config t.completion) (s ∷ ss) v.completions_fit),
        validate_stages,
      )
      refl

-- The checks accept a list of stages exactly when it has a stage, no two names and no two orders
-- are the same, and the completion of each stage goes with its kind.
pub validate_stages_iff : (ss : List StageConfig) → (validate_stages ss ≡ none) ↔ IsValid ss
validate_stages_iff ss = (validate_stages-IsValid ss, IsValid-validate_stages ss)
