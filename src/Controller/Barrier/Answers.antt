-- ===== src/Controller/Barrier/Answers.antt =====
-- The second pass of a liveness check: what the answers of the agents do.
use sai3_bench.Prelude.{
  ℕ, String, ◌≡◌, refl, ap, ◌∙◌, inl, inr, Bool, true, false, ◌&&◌, ◌||◌, Option, none, some, List,
  [], ◌∷◌, arith, Bool-cases, Option-cases,
}
use sai3_bench.Prelude.Keys.{key_eq, string_key}
use sai3_bench.Prelude.Assoc.{contains, contains-set_insert, Subset, Subset-cons, Subset-refl}
use sai3_bench.Prelude.Maps.{keys, lookup, keys-update}
use sai3_bench.Controller.Barrier.{
  PhaseBarrierConfig, PhaseProgress, AgentHeartbeat, BarrierManager, process_heartbeat,
}
use sai3_bench.Controller.Barrier.Inv.{Inv, process_heartbeat-Inv, give_up-Inv}
use sai3_bench.Controller.Barrier.Liveness.{
  Attempt, query_agent_with_retry, note_missed, first_pass, give_up, settle, second_pass,
}

-- The query of an agent fails.
abbrev pub unanswered : Option (Option PhaseProgress) → Bool
unanswered none = true
unanswered (some progress) = false

pub keys-first_pass :
    (now : ℕ) (config : PhaseBarrierConfig) (given_up : List String)
    (agents : List (String × AgentHeartbeat))
    → keys (first_pass now config given_up agents).0 ≡ keys agents
unfolding first_pass
keys-first_pass now config given_up [] = refl
keys-first_pass now config given_up ((id, hb) ∷ agents) =
    ap (λ ks. id ∷ ks) (keys-first_pass now config given_up agents)

pub Subset-first_pass :
    (now : ℕ) (config : PhaseBarrierConfig) (given_up : List String)
    (agents : List (String × AgentHeartbeat))
    → Subset (first_pass now config given_up agents).1 (keys agents)
unfolding first_pass
Subset-first_pass now config given_up [] = tt
Subset-first_pass now config given_up ((id, hb) ∷ agents) =
    let rest =
      Subset-cons id (first_pass now config given_up agents).1 (keys agents)
        (Subset-first_pass now config given_up agents) in
    elim (Bool-cases (note_missed now config (contains id given_up) hb).1) [
      | inl e ↦ rw e ((Subset-refl (id ∷ keys agents)).0, rest)
      | inr e ↦ rw e rest
    ]

process_heartbeat_keeps :
    (now : ℕ) (id : String) (p : PhaseProgress) (bm : BarrierManager)
    → let bm' = process_heartbeat now id p bm in
      (keys bm'.agents ≡ keys bm.agents)
      × (bm'.config ≡ bm.config)
      × (bm'.failed_agents ≡ bm.failed_agents)
unfolding process_heartbeat
process_heartbeat_keeps now id p bm = elim (Option-cases (lookup id bm.agents)) [
  | inl e ↦ rw (e, process_heartbeat) (refl, refl, refl)
  | inr (hb, e) ↦ rw (e, process_heartbeat) (keys-update id _ bm.agents, refl, refl)
]

module _ (clock : String → ℕ) (clients : String → Option (ℕ → Attempt)) where
  -- What the query of one agent changes.
  settle_lem :
      (id x : String) (bm : BarrierManager)
      → let bm' = settle clock clients id bm in
        (keys bm'.agents ≡ keys bm.agents)
        × (bm'.config ≡ bm.config)
        × (contains x bm'.failed_agents ≡ (
            (key_eq id x && unanswered (query_agent_with_retry (clients id) bm.config))
            || contains x bm.failed_agents))
  unfolding settle give_up
  settle_lem id x bm = elim (Option-cases (query_agent_with_retry (clients id) bm.config)) [
    | inl e ↦
        rw (e, settle)
          (
            keys-update id _ bm.agents,
            refl,
            contains-set_insert id x bm.failed_agents ∙ ground arith,
          )
    | inr (none, e) ↦ rw (e, settle) (refl, refl, ground arith)
    | inr (some p, e) ↦
        let (same_keys, same_config, same_failed) = process_heartbeat_keeps (clock id) id p bm in
        rw (e, settle) (same_keys, same_config, ap (contains x) same_failed ∙ ground arith)
  ]

  pub settle-Inv :
      (id : String) (bm : BarrierManager)
      → contains id (keys bm.agents) ≡ true
      → Inv bm
      → Inv (settle clock clients id bm)
  unfolding settle give_up
  settle-Inv id bm known v = elim (Option-cases (query_agent_with_retry (clients id) bm.config)) [
    | inl e ↦ rw (e, settle) (give_up-Inv id _ bm known v)
    | inr (none, e) ↦ rw (e, settle) v
    | inr (some p, e) ↦ rw (e, settle) (process_heartbeat-Inv (clock id) id p bm v)
  ]

  pub second_pass-Inv :
      (ids : List String) (bm : BarrierManager)
      → Subset ids (keys bm.agents)
      → Inv bm
      → Inv (second_pass clock clients ids bm)
        × ((second_pass clock clients ids bm).config ≡ bm.config)
  unfolding second_pass
  second_pass-Inv [] bm known v = (v, refl)
  second_pass-Inv (id ∷ ids) bm known v =
      let (same_keys, same_config, _) = settle_lem id id bm in
      let (v', config) =
        second_pass-Inv ids (settle clock clients id bm) (rw same_keys known.1)
          (settle-Inv id bm known.0 v) in
      (v', config ∙ same_config)

  pub contains-second_pass :
      (ids : List String) (x : String) (bm : BarrierManager)
      → contains x (second_pass clock clients ids bm).failed_agents ≡ (
          (contains x ids && unanswered (query_agent_with_retry (clients x) bm.config))
          || contains x bm.failed_agents)
  unfolding second_pass contains
  contains-second_pass [] x bm = refl
  contains-second_pass (id ∷ ids) x bm =
      let (_, same_config, one) = settle_lem id x bm in
      let later =
        contains-second_pass ids x (settle clock clients id bm)
        ∙ ap
            (λ c.
              (contains x ids && unanswered (query_agent_with_retry (clients x) c))
              || contains x (settle clock clients id bm).failed_agents)
            same_config in
      elim (Bool-cases (key_eq id x)) [
        | inl e ↦
            let same =
              ap (λ i. unanswered (query_agent_with_retry (clients i) bm.config))
                ((string_key.beq_iff id x).0 e) in
            ground (arith, later, one, same, e)
        | inr e ↦ ground (arith, later, one, e)
      ]
