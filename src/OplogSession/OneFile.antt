-- ===== src/OplogSession/OneFile.antt =====
-- One op-log file per process.
use sai3_bench.Prelude.{
  ◌≡◌, refl, sym, ◌∙◌, ap, Bool, true, false, List, [], ◌∷◌, All, arith, inl, inr, Bool-cases,
}
use sai3_bench.Prelude.Keys.{Key, key_eq}
use sai3_bench.OplogSession.{
  State, idle, active, finalized, Call, started, start_failed, ended, Session, Request, wants,
  shutdown, decide, check, begin, end, serve, new_session,
}

abbrev pub IsFailure : {P : Type 0} → Call P → Type 0
IsFailure (start_failed path) = Unit
IsFailure (started path) = ⊥
IsFailure ended = ⊥

module _ {P K : Type 0} ⦃e : Key K⦄ (key_of : P → K) where
  -- The calls the logger has seen, by the state: attempts that failed; then one start; then one
  -- end. The key kept is that of the path kept.
  abbrev pub Calls : State P K → List (Call P) → Type 0
  Calls idle calls = All IsFailure calls
  Calls (active path key) calls =
      (key ≡ key_of path)
      × (rest : List (Call P)) × (calls ≡ started path ∷ rest)
      × All IsFailure rest
  Calls (finalized path) calls =
      (rest : List (Call P)) × (calls ≡ ended ∷ started path ∷ rest) × All IsFailure rest

  begin-Calls :
      (path : P) (starts : Bool) (state : State P K) (calls : List (Call P))
      → Calls state calls
      → let s = (begin key_of path starts (record { state = state; calls = calls })).1 in
        Calls s.state s.calls
  unfolding begin decide
  begin-Calls path true idle calls h = (refl, calls, refl, h)
  begin-Calls path false idle calls h = (tt, h)
  begin-Calls path starts (active requested key) calls h =
      elim (Bool-cases (key_eq key (key_of path))) [
        | inl same ↦ rw (same, begin, decide) h
        | inr other ↦ rw (other, begin, decide) h
      ]
  begin-Calls path starts (finalized requested) calls h = h

  end-Calls :
      (state : State P K) (calls : List (Call P))
      → Calls state calls
      → let s = end key_of (record { state = state; calls = calls }) in Calls s.state s.calls
  unfolding end
  end-Calls idle calls h = h
  end-Calls (active path key) calls (k, rest, eq, fails) = (rest, ap (λ cs. ended ∷ cs) eq, fails)
  end-Calls (finalized path) calls h = h

  serve-Calls :
      (requests : List (Request P)) (s : Session P K)
      → Calls s.state s.calls
      → let s' = serve key_of requests s in Calls s'.state s'.calls
  unfolding serve
  serve-Calls [] s h = h
  serve-Calls (wants path starts ∷ rest) s h =
      serve-Calls rest (begin key_of path starts s).1 (begin-Calls path starts s.state s.calls h)
  serve-Calls (shutdown ∷ rest) s h = serve-Calls rest (end key_of s) (end-Calls s.state s.calls h)

  -- The check before a job says whether a request for the path would be accepted, were the logger
  -- to start.
  pub check-begin :
      (path : P) (s : Session P K) → check key_of path s ≡ (begin key_of path true s).0
  unfolding check begin decide
  check-begin path s = ground arith

  -- Whatever jobs ask for and whenever the process shuts down, the logger is started successfully
  -- at most once and ended at most once, after it was started, never asked to start again after
  -- that, and every earlier start failed; the state says which of these is so.
  pub one_session :
      (requests : List (Request P))
      → let s = serve key_of requests new_session in Calls s.state s.calls
  one_session requests = serve-Calls requests new_session tt

  -- A request that is accepted leaves the session active with the key of its path.
  AtFile : P → State P K → Type 0
  AtFile path state =
      (requested : P) × (state ≡ active requested (key_of path)) × (key_of requested ≡ key_of path)

  begin-AtFile :
      (path : P) (starts : Bool) (state : State P K) (calls : List (Call P))
      → Calls state calls
      → (begin key_of path starts (record { state = state; calls = calls })).0 ≡ true
      → AtFile path (begin key_of path starts (record { state = state; calls = calls })).1.state
  unfolding begin decide AtFile
  begin-AtFile path true idle calls c h = (path, refl, refl)
  begin-AtFile path false idle calls c h = cc
  begin-AtFile path starts (active requested key) calls c h =
      elim (Bool-cases (key_eq key (key_of path))) [
        | inl same ↦
            let at : key ≡ key_of path = (e.beq_iff key (key_of path)).0 same in
            rw (same, begin, decide) (requested, ap (active requested) at, sym c.0 ∙ at)
        | inr other ↦ ground (arith, other)
      ]
  begin-AtFile path starts (finalized requested) calls c h = cc

  -- After any requests, an accepted request for a path leaves the session active at a path with
  -- the same key: a job writes to the file it asked for.
  pub accepted_same_file :
      (requests : List (Request P)) (path : P) (starts : Bool)
      → let s = serve key_of requests new_session in
        (begin key_of path starts s).0 ≡ true
        → (requested : P) × ((begin key_of path starts s).1.state ≡ active requested (key_of path))
          × (key_of requested ≡ key_of path)
  unfolding AtFile
  accepted_same_file requests path starts h =
      let s = serve key_of requests new_session in
      begin-AtFile path starts s.state s.calls (serve-Calls requests new_session tt) h
