-- ===== src/OplogSession.antt =====
-- src/oplog_session.rs: the one op-log session of a process. The comparison key of a path, which
-- depends on the working directory, is a parameter here; the child PathKey models how it is folded.
-- Whether the logger, which is another package, can be started is an argument of each request.
pub mod OneFile
pub mod PathKey
mod Tests
use sai3_bench.Prelude.{
  ◌≡◌, ◌↔◌, refl, ap, Bool, true, false, ◌&&◌, Option, none, some, List, [], ◌∷◌, All, arith, inl,
  inr, Bool-cases, if◌then◌else◌,
}
use sai3_bench.Prelude.Keys.{Key, key_eq}

module _ (P K : Type 0) where
  pub data State : Type 0 where
    idle : State
    active : P → K → State
    finalized : P → State

-- What the logger was asked: a start that succeeded or failed, and the end.
pub data Call (P : Type 0) : Type 0 where
  started start_failed : P → Call P
  ended : Call P

pub record Session (P K : Type 0) : Type 0 where
  pub state : State P K
  pub calls : List (Call P)

pub data Decision : Type 0 where
  continue start reject : Decision

-- A job asks for a path, `true` when the logger would start; or the process shuts down.
pub data Request (P : Type 0) : Type 0 where
  wants : P → Bool → Request P
  shutdown : Request P

module _ {P K : Type 0} ⦃e : Key K⦄ (key_of : P → K) where
  pub decide : State P K → P → Decision
  decide idle path = start
  decide (active requested key) path = if key_eq key (key_of path) then continue else reject
  decide (finalized requested) path = reject

  abbrev pub accepts : Decision → Bool
  accepts continue = true
  accepts start = true
  accepts reject = false

  pub check : P → Session P K → Bool
  check path s = accepts (decide s.state path)

  -- Whether the request was accepted, and the session afterwards.
  pub begin : P → Bool → Session P K → Bool × Session P K
  begin path starts s = elim (decide s.state path) [
    | reject ↦ (false, s)
    | continue ↦ (true, s)
    | start ↦ elim starts [
      | true ↦ (true, record { state = active path (key_of path); calls = started path ∷ s.calls })
      | false ↦ (false, record s { calls = start_failed path ∷ s.calls })
    ]
  ]

  pub active_path : Session P K → Option P
  active_path s = elim s.state [ active requested key ↦ some requested | _ ↦ none ]

  pub end : Session P K → Session P K
  end s = elim s.state [
    | idle ↦ s
    | active requested key ↦ record { state = finalized requested; calls = ended ∷ s.calls }
    | finalized requested ↦ s
  ]

  -- The requests of a process, the first one first.
  pub serve : List (Request P) → Session P K → Session P K
  serve [] s = s
  serve (wants path starts ∷ rest) s = serve rest (begin path starts s).1
  serve (shutdown ∷ rest) s = serve rest (end s)

abbrev pub new_session : {P K : Type 0} → Session P K
new_session = record { state = idle; calls = [] }
