-- ===== src/Controller/Barrier/GivenUp.antt =====
-- Which agents a liveness check gives up.
use sai3_bench.Prelude.{
  ℕ, zero, suc, ◌+◌, String, ◌<◌, ◌≡◌, ◌≢◌, refl, sym, ap, ◌∙◌, inl, inr, Bool, true, false, not,
  ◌&&◌, Option, none, some, List, [], ◌∷◌, arith, Bool-cases,
}
use sai3_bench.Prelude.Keys.{key_eq, string_key}
use sai3_bench.Prelude.Assoc.{contains, IsNodup}
use sai3_bench.Prelude.Maps.{keys, lookup}
use sai3_bench.Controller.Barrier.{
  PhaseBarrierConfig, PhaseProgress, AgentHeartbeat, BarrierManager,
}
use sai3_bench.Controller.Barrier.Inv.{Inv}
use sai3_bench.Controller.Barrier.Liveness.{
  Attempt, query_from, is_recent, asks, note_missed, first_pass, check_liveness,
}
use sai3_bench.Controller.Barrier.Answers.{keys-first_pass, Subset-first_pass, second_pass-Inv}

-- Whether a check asks an agent: it is registered and not given up, has not been heard of for a
-- heartbeat interval, has reached the threshold of missed heartbeats, and has no query running.
abbrev pub due : ℕ → BarrierManager → String → Bool
due now bm x = elim (lookup x bm.agents) [
  | none ↦ false
  | some hb ↦
      not (contains x bm.failed_agents) && (not (is_recent now bm.config hb) && asks bm.config hb)
]

note_missed_lem :
    (now : ℕ) (config : PhaseBarrierConfig) (given_up : Bool) (hb : AgentHeartbeat)
    → (note_missed now config given_up hb).1
      ≡ (not given_up && (not (is_recent now config hb) && asks config hb))
unfolding note_missed
note_missed_lem now config true hb = refl
note_missed_lem now config false hb = elim (Bool-cases (is_recent now config hb)) [
  | inl e ↦ rw e refl
  | inr e ↦ elim (Bool-cases (asks config hb)) [ inl f ↦ rw (e, f) refl | inr f ↦ rw (e, f) refl ]
]

abbrev pub asked :
    ℕ → PhaseBarrierConfig → List String → List (String × AgentHeartbeat) → String → Bool
asked now config given_up agents x = elim (lookup x agents) [
  | none ↦ false
  | some hb ↦ not (contains x given_up) && (not (is_recent now config hb) && asks config hb)
]

absent_lookup :
    (x : String) (agents : List (String × AgentHeartbeat))
    → contains x (keys agents) ≡ false
    → lookup x agents ≡ none
unfolding contains lookup
absent_lookup x [] h = refl
absent_lookup x ((i, hb) ∷ agents) h = ground (arith, absent_lookup x agents)

pub contains-first_pass :
    (now : ℕ) (config : PhaseBarrierConfig) (given_up : List String)
    (agents : List (String × AgentHeartbeat)) (x : String)
    → IsNodup (keys agents)
    → contains x (first_pass now config given_up agents).1 ≡ asked now config given_up agents x
unfolding first_pass contains lookup
contains-first_pass now config given_up [] x h = refl
contains-first_pass now config given_up ((id, hb) ∷ agents) x h =
    let rest = contains-first_pass now config given_up agents x h.1 in
    let ask = note_missed_lem now config (contains id given_up) hb in
    elim (Bool-cases (key_eq id x)) [
      | inl e ↦
          let same = (string_key.beq_iff id x).0 e in
          let gone : lookup x agents ≡ none =
            absent_lookup x agents (ap (λ i. contains i (keys agents)) (sym same) ∙ h.0) in
          let none_later : contains x (first_pass now config given_up agents).1 ≡ false =
            rest
            ∙ ap
                (λ o. elim o as (λ _. Bool) [
                  | none ↦ false
                  | some hb' ↦
                      not (contains x given_up)
                      && (not (is_recent now config hb') && asks config hb')
                ])
                gone in
          ground (arith, e, ask, none_later, ap (λ i. contains i given_up) same)
      | inr e ↦ ground (arith, e, rest)
    ]

module _ (now : ℕ) (clock : String → ℕ) (clients : String → Option (ℕ → Attempt))
    (bm : BarrierManager) where
  abbrev passed : BarrierManager
  passed = record bm { agents = (first_pass now bm.config bm.failed_agents bm.agents).0 }

  abbrev to_query : List String
  to_query = (first_pass now bm.config bm.failed_agents bm.agents).1

  passed-Inv : Inv bm → Inv passed
  passed-Inv v =
      let same = keys-first_pass now bm.config bm.failed_agents bm.agents in
      record {
        agents_nodup = rw same v.agents_nodup;
        ready_nodup = v.ready_nodup;
        ready_known = rw same v.ready_known;
        failed_nodup = v.failed_nodup;
        failed_known = rw same v.failed_known;
      }

  pub check_liveness-Inv :
      Inv bm
      → Inv (check_liveness now clock clients bm)
        × ((check_liveness now clock clients bm).config ≡ bm.config)
  unfolding check_liveness
  check_liveness-Inv v =
      second_pass-Inv clock clients to_query passed
        (rw (keys-first_pass now bm.config bm.failed_agents bm.agents)
          (Subset-first_pass now bm.config bm.failed_agents bm.agents))
        (passed-Inv v)

-- A query that fails has made all its attempts, and none was answered.
pub query_from-none :
    (attempt : ℕ → Attempt) (retries left i : ℕ) (p : Option PhaseProgress)
    → query_from attempt retries left ≡ none
    → i < left + 1
    → attempt (retries + i) ≢ Attempt.responded p
unfolding query_from
query_from-none attempt retries zero i p h l e =
    let here : attempt retries ≡ Attempt.responded p = ap attempt (omega arith) ∙ e in ground arith
query_from-none attempt retries (suc left) zero p h l e =
    let here : attempt retries ≡ Attempt.responded p = ap attempt (omega arith) ∙ e in ground arith
query_from-none attempt retries (suc left) (suc i) p h l e =
    let later : attempt (retries + 1 + i) ≡ Attempt.responded p = ap attempt (omega arith) ∙ e in
    ground (arith, query_from-none attempt (retries + 1) left i p)
