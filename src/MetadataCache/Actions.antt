-- ===== src/MetadataCache/Actions.antt =====
-- Histories of operations on the objects of an endpoint of src/metadata_cache.rs, and one
-- transition per object, which says what they come to.
use mathlib.Core.Option
use sai3_bench.Prelude.{
  unwrap_or, ℕ, String, Bool, not, ◌&&◌, ◌==◌, Option, none, some, List, [], ◌∷◌, if◌then◌else◌,
}
use sai3_bench.Prelude.Keys.{list_eq}
use sai3_bench.Prelude.Text.{codes}
use sai3_bench.MetadataCache.{
  ObjectState, creating, created, failed, deleted, ObjectEntry, new_planned, Keyspace, Codec,
  FlushPolicy, EndpointCache, Faults, plan_object, mark_creating, mark_created, mark_failed,
  mark_deleted, record_created,
}

pub data Action : Type 0 where
  to_plan : String → ℕ → Action
  to_creating to_failed to_deleted : Action
  to_created : ℕ → Option ℕ → Option ℕ → Action
  to_record : ℕ → String → ℕ → Option ℕ → Option ℕ → Action

pub record Op : Type 0 where
  pub config_hash : String
  pub file_idx : ℕ
  pub action : Action
  pub faults : Faults

-- What a creation writes into an entry.
abbrev pub made : ℕ → Option ℕ → Option ℕ → ObjectEntry → ObjectEntry
made now created_at checksum entry = record entry {
  state = created;
  created_at = some (unwrap_or created_at now);
  checksum = checksum;
}

abbrev pub in_state : ObjectState → ObjectEntry → ObjectEntry
in_state s entry = record entry { state = s }

-- One object of the endpoint, `none` while nothing is known of it: marks change what is known, and
-- only planning and recording make it known.
abbrev pub next : ℕ → Action → Option ObjectEntry → Option ObjectEntry
next endpoint (to_plan path size) o = some (new_planned path size endpoint)
next endpoint to_creating o = Option.map (in_state creating) o
next endpoint to_failed o = Option.map (in_state failed) o
next endpoint to_deleted o = Option.map (in_state deleted) o
next endpoint (to_created now at sum) o = Option.map (made now at sum) o
next endpoint (to_record now path size at sum) o = some (elim o [
  | none ↦ made now at sum (new_planned path size endpoint)
  | some e ↦ made now at sum e
])

-- Whether the entry that an action makes is inserted: only planning does without a read.
abbrev pub reaches : Action → Faults → Bool
reaches (to_plan path size) f = not f.to_bytes_fails && not f.insert_fails
reaches _ f = not f.get_fails && (not f.to_bytes_fails && not f.insert_fails)

-- An object after the operations, the first one first: those for its configuration and its number
-- that reach the insertion.
abbrev pub history : ℕ → String → ℕ → List Op → Option ObjectEntry → Option ObjectEntry
history endpoint config_hash file_idx [] o = o
history endpoint config_hash file_idx (op ∷ ops) o = history endpoint config_hash file_idx ops (
    if (list_eq (codes op.config_hash) (codes config_hash) && op.file_idx == file_idx)
      && reaches op.action op.faults
    then next endpoint op.action o
    else o)

module _ {S B : Type 0} (ks : Keyspace S B) (codec : Codec B) where
  unfoldable pub perform : Op → EndpointCache S → EndpointCache S × Bool
  perform op c =
      let f = op.faults in
      elim op.action [
        | to_plan path size ↦ plan_object ks codec f op.config_hash op.file_idx path size c
        | to_creating ↦ mark_creating ks codec f op.config_hash op.file_idx c
        | to_failed ↦ mark_failed ks codec f op.config_hash op.file_idx c
        | to_deleted ↦ mark_deleted ks codec f op.config_hash op.file_idx c
        | to_created now at sum ↦ mark_created ks codec f now op.config_hash op.file_idx at sum c
        | to_record now path size at sum ↦
            record_created ks codec f now op.config_hash op.file_idx path size at sum c
      ]

  -- The cache after the operations, whether or not they succeed.
  unfoldable pub perform_all : List Op → EndpointCache S → EndpointCache S
  perform_all [] c = c
  perform_all (op ∷ ops) c = perform_all ops (perform op c).0

  -- An empty cache of an endpoint.
  abbrev pub fresh : ℕ → FlushPolicy → EndpointCache S
  fresh endpoint policy = record {
    endpoint_index = endpoint;
    objects = ks.empty;
    pending_writes = 0;
    flush_policy = policy;
  }
