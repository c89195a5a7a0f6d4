-- ===== src/Controller/Barrier/Wait.antt =====
-- A wait at a barrier ends.
use sai3_bench.Prelude.{◌≡◌, ◌⊎◌, some, []}
use sai3_bench.Controller.Barrier.{ready, degraded, failed, check_barrier}
use sai3_bench.Controller.Barrier.Inv.{Inv}
use sai3_bench.Controller.Barrier.Liveness.{
  WaitOutcome, finished, insufficient, timeout, overflow, out_of_fuel,
}

-- A wait ends well: with a verdict that lets the run go on, which is the one of the manager that it
-- leaves; with the error for a failed barrier; or with the error for a timeout and nobody marked as
-- ready or failed. The manager it leaves keeps the invariant.
abbrev pub EndsWell : WaitOutcome → Type 0
EndsWell (finished s bm) = Inv bm × (check_barrier bm ≡ some s) × ((s ≡ ready) ⊎ (s ≡ degraded))
EndsWell (insufficient bm) = Inv bm × (check_barrier bm ≡ some failed)
EndsWell (timeout bm) = Inv bm × (bm.ready_agents ≡ []) × (bm.failed_agents ≡ [])
EndsWell overflow = ⊥
EndsWell out_of_fuel = ⊥
