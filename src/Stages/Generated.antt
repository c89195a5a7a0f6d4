-- ===== src/Stages/Generated.antt =====
-- The stages that an older configuration is converted to run as they were generated.
use sai3_bench.Prelude.{◌≡◌, refl, none, some, true, false}
use sai3_bench.Prelude.Keys.{nat_key, string_key, list_key}
use sai3_bench.Prelude.Assoc.{contains, set_insert}
use sai3_bench.Stages.{
  BarrierSyncConfig, Config, ok, first_duplicate, first_unfit, completion_fits, validate_stages,
  insert_stage, sort_by_order, get_sorted_stages, generate_stages,
}
use sai3_bench.Stages.Sorted.{filled}

abbrev pub RunsAsGenerated : BarrierSyncConfig → Config → Type 0
RunsAsGenerated sync c =
    get_sorted_stages (record { barrier_sync = sync; stages = generate_stages c })
    ≡ ok (filled sync.enabled sync (generate_stages c))

-- Whatever the older configuration and the barrier configuration are, the generated stages pass
-- the checks, and run in the order they were generated, barriers filled in.
pub get_sorted_stages-generate_stages :
    (c : Config) (sync : BarrierSyncConfig) → RunsAsGenerated sync c
unfolding generate_stages get_sorted_stages validate_stages first_duplicate first_unfit
    completion_fits insert_stage sort_by_order contains set_insert
get_sorted_stages-generate_stages c sync =
    elim c.prepare_section as (λ p. RunsAsGenerated sync (record c { prepare_section = p })) [
      | none ↦ refl
      | some p ↦
          elim p.cleanup_after
            as (λ b.
              RunsAsGenerated sync
                (record c { prepare_section = some (record p { cleanup_after = b }) })) [
                  | true ↦ refl
                  | false ↦ refl
                ]
    ]
