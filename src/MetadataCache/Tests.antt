-- ===== src/MetadataCache/Tests.antt =====
-- Witnesses for the endpoint cache. The keyspace is an association list; an entry is its own
-- serialisation.
use sai3_bench.Prelude.{◌≡◌, refl, true, false, none, some, List, [], ◌∷◌}
use sai3_bench.Prelude.Keys.{list_key}
use sai3_bench.Prelude.Maps.{lookup, insert, lookup-insert}
use sai3_bench.Prelude.Text.{Text}
use sai3_bench.MetadataCache.{ObjectEntry, Keyspace, Codec, batch_size, Faults, get_object}
use sai3_bench.MetadataCache.Actions.{
  Op, to_plan, to_creating, to_failed, to_created, to_record, history, perform_all, fresh,
}
use sai3_bench.MetadataCache.Objects.{get_object-perform_all}

abbrev store : Keyspace (List (Text × ObjectEntry)) ObjectEntry
store = record {
  empty = [];
  get = λ s k. lookup k s;
  insert = λ s k b. insert k b s;
  get-empty = λ k. unfold lookup in refl;
  get-insert = λ s k j b. lookup-insert k j b s;
}

abbrev plain : Codec ObjectEntry
plain = record { to_bytes = λ e. e; from_bytes = λ e. some e; from_bytes-to_bytes = λ e. refl }

abbrev none_fails : Faults
none_fails = record {
  get_fails = false;
  to_bytes_fails = false;
  insert_fails = false;
  persist_fails = false;
}

-- Two objects of one configuration: the first is planned, its failure is not written, and it is made with a failed flush, the second is
-- recorded without a plan.
abbrev ops : List Op
ops =
    record { config_hash = "c"; file_idx = 0; action = to_plan "f0" 10; faults = none_fails }
    ∷ record { config_hash = "c"; file_idx = 0; action = to_creating; faults = none_fails }
    ∷ record {
      config_hash = "c";
      file_idx = 1;
      action = to_record 8 "f1" 20 none (some 5);
      faults = none_fails;
    }
    ∷ record {
      config_hash = "c";
      file_idx = 0;
      action = to_failed;
      faults = record none_fails { insert_fails = true };
    }
    ∷ record {
      config_hash = "c";
      file_idx = 0;
      action = to_created 9 none none;
      faults = record none_fails { persist_fails = true };
    }
    ∷ []

get_object-perform_all_example :
    get_object store plain none_fails "c" 0
      (perform_all store plain ops (fresh store plain 2 (batch_size 3)))
    ≡ some (history 2 "c" 0 ops none)
get_object-perform_all_example =
    get_object-perform_all store plain 2 (batch_size 3) ops none_fails "c" 0
