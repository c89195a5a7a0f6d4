-- ===== src/Replay/Flaps.antt =====
-- src/replay_streaming.rs: when a replay stops because its mode changes too often.
use sai3_bench.Prelude.{
  ℕ, ◌+◌, ◌≤◌, ◌≡◌, refl, sym, ap, ◌∙◌, inl, inr, Bool, true, false, ◌&&◌, List, [], ◌∷◌, ◌++◌,
  length, length-append, ltb, leb, if◌then◌else◌, arith, Bool-cases,
}
use sai3_bench.Replay.{
  ReplayMode, normal, best_effort, FlappingTracker, BackpressureController, recent,
  record_transition, new, switch_to, update,
}

-- The updates of a replay, each with its time and the lag, up to one that stops it; and whether none
-- does.
unfoldable pub updates : List (ℕ × ℕ) → BackpressureController → Bool
updates [] c = true
updates ((now, lag) ∷ us) c =
    let (c', goes) = update now lag c in elim goes [ true ↦ updates us c' | false ↦ false ]

-- The times at which the mode changes by the two thresholds alone.
unfoldable pub changes : ℕ → ℕ → ReplayMode → List (ℕ × ℕ) → List ℕ
changes lag_threshold recovery_threshold mode [] = []
changes lag_threshold recovery_threshold normal ((now, lag) ∷ us) =
    if ltb lag_threshold lag
    then now ∷ changes lag_threshold recovery_threshold best_effort us
    else changes lag_threshold recovery_threshold normal us
changes lag_threshold recovery_threshold best_effort ((now, lag) ∷ us) =
    if ltb lag recovery_threshold
    then now ∷ changes lag_threshold recovery_threshold normal us
    else changes lag_threshold recovery_threshold best_effort us

-- How many times of a list lie in the minute before `now`.
unfoldable pub in_minute : ℕ → List ℕ → ℕ
in_minute now [] = 0
in_minute now (t ∷ ts) = (if ltb now (t + 60000) then 1 else 0) + in_minute now ts

-- Whether the minute up to each change of a list has at most `limit` changes, after those of `past`.
unfoldable pub within_limit : ℕ → List ℕ → List ℕ → Bool
within_limit limit past [] = true
within_limit limit past (t ∷ ts) =
    leb (in_minute t past + 1) limit && within_limit limit (past ++ t ∷ []) ts

-- Updates in the order of their times, from `last` on.
abbrev pub InOrder : ℕ → List (ℕ × ℕ) → Type 0
InOrder last [] = Unit
InOrder last ((now, lag) ∷ us) = (last ≤ now) × InOrder now us

recent-recent : (a b : ℕ) (ts : List ℕ) → a ≤ b → recent b (recent a ts) ≡ recent b ts
unfolding recent
recent-recent a b [] h = refl
recent-recent a b (t ∷ ts) h = ground (arith, recent-recent a b ts h)

recent-append : (a : ℕ) (xs ys : List ℕ) → recent a (xs ++ ys) ≡ recent a xs ++ recent a ys
unfolding recent
recent-append a [] ys = refl
recent-append a (x ∷ xs) ys = ground (arith, recent-append a xs ys)

length-recent : (now : ℕ) (ts : List ℕ) → length (recent now ts) ≡ in_minute now ts
unfolding recent in_minute
length-recent now [] = refl
length-recent now (t ∷ ts) = ground (arith, length-recent now ts)

-- What a tracker keeps is enough for every time from `last` on.
abbrev Tracks : ℕ → List ℕ → FlappingTracker → Type 0
Tracks last past f = (n : ℕ) → last ≤ n → recent n f.transitions ≡ recent n past

record_transition-Tracks :
    (last now : ℕ) (past : List ℕ) (f : FlappingTracker)
    → last ≤ now
    → Tracks last past f
    → Tracks now (past ++ now ∷ []) (record_transition now f).0
unfolding record_transition
record_transition-Tracks last now past f h tracks n later =
    recent-append n (recent now f.transitions) (now ∷ [])
    ∙ ap (λ ts. ts ++ recent n (now ∷ []))
        (recent-recent now n f.transitions later ∙ tracks n (omega arith))
    ∙ sym (recent-append n past (now ∷ []))

record_transition_exceeds :
    (last now : ℕ) (past : List ℕ) (f : FlappingTracker)
    → last ≤ now
    → Tracks last past f
    → (record_transition now f).1 ≡ ltb f.max_per_minute (in_minute now past + 1)
unfolding record_transition
record_transition_exceeds last now past f h tracks =
    ap (λ k. ltb f.max_per_minute k)
      (length-append (recent now f.transitions) (now ∷ [])
        ∙ ap (λ ts. length ts + 1) (tracks now h)
        ∙ ap (λ k. k + 1) (length-recent now past))

module _ (m : ReplayMode) (now last : ℕ) (past : List ℕ) (c : BackpressureController) where
  -- A change of mode stops the replay exactly at the limit, and else is tracked.
  switch_to_lem :
      last ≤ now
      → Tracks last past c.flap_tracker
      → ((switch_to m now c).1 ≡ leb (in_minute now past + 1) c.flap_tracker.max_per_minute)
        × Tracks now (past ++ now ∷ []) (switch_to m now c).0.flap_tracker
  unfolding switch_to
  switch_to_lem h tracks =
      let exceeds = record_transition_exceeds last now past c.flap_tracker h tracks in
      let tracked = record_transition-Tracks last now past c.flap_tracker h tracks in
      elim (Bool-cases (record_transition now c.flap_tracker).1) [
        | inl e ↦ rw (e, switch_to) (ground arith, tracked)
        | inr e ↦ rw (e, switch_to) (ground arith, tracked)
      ]

  switch_to_keeps :
      let c' = (switch_to m now c).0 in
      (c'.mode ≡ m)
      × (c'.lag_threshold ≡ c.lag_threshold)
      × (c'.recovery_threshold ≡ c.recovery_threshold)
      × (c'.flap_tracker.max_per_minute ≡ c.flap_tracker.max_per_minute)
  unfolding switch_to record_transition
  switch_to_keeps = elim (Bool-cases (record_transition now c.flap_tracker).1) [
    | inl e ↦ rw (e, switch_to, record_transition) (refl, refl, refl, refl)
    | inr e ↦ rw (e, switch_to, record_transition) (refl, refl, refl, refl)
  ]

next : List (ℕ × ℕ) → BackpressureController × Bool → Bool
next us (c, goes) = elim goes [ true ↦ updates us c | false ↦ false ]

updates-next :
    (now lag : ℕ) (us : List (ℕ × ℕ)) (c : BackpressureController)
    → updates ((now, lag) ∷ us) c ≡ next us (update now lag c)
unfolding updates next
updates-next now lag us c = refl

next_and :
    (us : List (ℕ × ℕ)) (p : BackpressureController × Bool) → next us p ≡ p.1 && updates us p.0
unfolding next
next_and us (c, true) = refl
next_and us (c, false) = refl

-- The rest of the updates, for a controller in the mode of the list of changes.
abbrev Agrees : List (ℕ × ℕ) → Type 0
Agrees us =
    (last : ℕ) (past : List ℕ) (c : BackpressureController) (mode : ReplayMode)
    → c.mode ≡ mode
    → InOrder last us
    → Tracks last past c.flap_tracker
    → updates us c
      ≡ within_limit c.flap_tracker.max_per_minute past
          (changes c.lag_threshold c.recovery_threshold mode us)

switch_to-Agrees :
    (us : List (ℕ × ℕ)) (now last : ℕ) (past : List ℕ) (c : BackpressureController)
    (mode : ReplayMode)
    → Agrees us
    → last ≤ now
    → InOrder now us
    → Tracks last past c.flap_tracker
    → next us (switch_to mode now c)
      ≡ within_limit c.flap_tracker.max_per_minute past
          (now ∷ changes c.lag_threshold c.recovery_threshold mode us)
unfolding next within_limit
switch_to-Agrees us now last past c mode agrees h later tracks =
    let (goes, tracked) = switch_to_lem mode now last past c h tracks in
    let (m, lag, recovery, limit) = switch_to_keeps mode now last past c in
    let rest = agrees now (past ++ now ∷ []) (switch_to mode now c).0 mode m later tracked in
    let after = (switch_to mode now c).0 in
    let limited : ℕ → ℕ → ℕ → Bool =
      λ l a b. within_limit l (past ++ now ∷ []) (changes a b mode us) in
    next_and us (switch_to mode now c)
    ∙ ap (λ b. b && updates us after) goes
    ∙ ap (λ b. leb (in_minute now past + 1) c.flap_tracker.max_per_minute && b)
        (rest
          ∙ ap (λ l. limited l after.lag_threshold after.recovery_threshold) limit
          ∙ ap (λ l. limited c.flap_tracker.max_per_minute l after.recovery_threshold) lag
          ∙ ap (λ l. limited c.flap_tracker.max_per_minute c.lag_threshold l) recovery)

update-Agrees :
    (us : List (ℕ × ℕ)) (now lag last : ℕ) (past : List ℕ) (c : BackpressureController)
    (mode : ReplayMode)
    → Agrees us
    → c.mode ≡ mode
    → InOrder last ((now, lag) ∷ us)
    → Tracks last past c.flap_tracker
    → next us (update now lag c)
      ≡ within_limit c.flap_tracker.max_per_minute past
          (changes c.lag_threshold c.recovery_threshold mode ((now, lag) ∷ us))
unfolding changes update next
update-Agrees us now lag last past c mode agrees e (h, later) tracks =
    ap (λ m. next us (by_mode m)) e ∙ go mode e
  where
    by_mode : ReplayMode → BackpressureController × Bool
    by_mode m = elim m [
      | normal ↦ if ltb c.lag_threshold lag then switch_to best_effort now c else (c, true)
      | best_effort ↦ if ltb lag c.recovery_threshold then switch_to normal now c else (c, true)
    ]

    same_mode :
        (m : ReplayMode)
        → c.mode ≡ m
        → updates us c
          ≡ within_limit c.flap_tracker.max_per_minute past
              (changes c.lag_threshold c.recovery_threshold m us)
    same_mode m e = agrees now past c m e later (λ n after. tracks n (omega arith))

    go :
        (m : ReplayMode)
        → c.mode ≡ m
        → next us (by_mode m)
          ≡ within_limit c.flap_tracker.max_per_minute past
              (changes c.lag_threshold c.recovery_threshold m ((now, lag) ∷ us))
    go normal e = elim (Bool-cases (ltb c.lag_threshold lag)) [
      | inl change ↦
          rw change (switch_to-Agrees us now last past c best_effort agrees h later tracks)
      | inr same ↦ rw same (same_mode normal e)
    ]
    go best_effort e = elim (Bool-cases (ltb lag c.recovery_threshold)) [
      | inl change ↦ rw change (switch_to-Agrees us now last past c normal agrees h later tracks)
      | inr same ↦ rw same (same_mode best_effort e)
    ]

updates-within_limit : (us : List (ℕ × ℕ)) → Agrees us
unfolding updates changes within_limit
updates-within_limit [] last past c mode e h tracks = refl
updates-within_limit ((now, lag) ∷ us) last past c mode e h tracks =
    updates-next now lag us c
    ∙ update-Agrees us now lag last past c mode (updates-within_limit us) e h tracks

-- From a new controller on, updates in the order of their times all let the replay go on exactly if
-- no minute up to a change of mode has more changes than the limit, where the mode changes to
-- best-effort above the one threshold and back below the other.
pub updates_stop_at_limit :
    (us : List (ℕ × ℕ)) (lag_threshold recovery_threshold max_flaps drain_timeout : ℕ)
    → InOrder 0 us
    → updates us (new lag_threshold recovery_threshold max_flaps drain_timeout)
      ≡ within_limit max_flaps [] (changes lag_threshold recovery_threshold normal us)
updates_stop_at_limit us lag_threshold recovery_threshold max_flaps drain_timeout h =
    updates-within_limit us 0 [] (new lag_threshold recovery_threshold max_flaps drain_timeout)
      normal refl h (λ n after. refl)
