-- ===== src/MetadataCache.antt =====
-- `EndpointCache` of src/metadata_cache.rs: the states of the objects of one endpoint, and when its
-- writes are flushed. The database and the serialisation, which are other packages, are the
-- interfaces `Keyspace` and `Codec`; which calls of them fail is an argument, `Faults`.
pub mod Actions
pub mod Writes
pub mod Objects
pub mod Keys
mod Tests
use sai3_bench.Prelude.{
  ℕ, ◌+◌, ◌%◌, String, ◌≡◌, Bool, true, false, not, Option, none, some, List, [], ◌∷◌, ◌++◌, leb,
  ◌==◌, if◌then◌else◌, u64, unwrap_or,
}
use sai3_bench.Prelude.Keys.{key_eq, list_key}
use sai3_bench.Prelude.Text.{Text, codes, decimal_8}

pub data ObjectState : Type 0 where
  directory_non_existent planned creating created failed deleted : ObjectState

abbrev pub from_u8 : ℕ → Option ObjectState
from_u8 value =
    if value == 0
    then some directory_non_existent
    else if value == 1
    then some planned
    else if value == 2
    then some creating
    else if value == 3
    then some created
    else if value == 4
    then some failed
    else if value == 5
    then some deleted
    else none

abbrev pub to_u8 : ObjectState → ℕ
to_u8 directory_non_existent = 0
to_u8 planned = 1
to_u8 creating = 2
to_u8 created = 3
to_u8 failed = 4
to_u8 deleted = 5

abbrev pub is_created : ObjectState → Bool
is_created created = true
is_created _ = false

abbrev pub is_failed : ObjectState → Bool
is_failed failed = true
is_failed _ = false

abbrev pub needs_creation : ObjectState → Bool
needs_creation planned = true
needs_creation failed = true
needs_creation _ = false

pub record ObjectEntry : Type 0 where
  pub path : String
  pub size : ℕ
  pub state : ObjectState
  pub endpoint_idx : ℕ
  pub created_at : Option ℕ
  pub checksum : Option ℕ

abbrev pub new_planned : String → ℕ → ℕ → ObjectEntry
new_planned path size endpoint_idx = record {
  path = path;
  size = size;
  state = planned;
  endpoint_idx = endpoint_idx;
  created_at = none;
  checksum = none;
}

-- What the program relies on of a keyspace: a read gives the last value inserted at the key.
pub record Keyspace (S B : Type 0) : Type 0 where
  pub empty : S
  pub get : S → Text → Option B
  pub insert : S → Text → B → S
  pub get-empty : (k : Text) → get empty k ≡ none
  pub get-insert :
      (s : S) (k j : Text) (b : B) → get (insert s k b) j ≡ (if key_eq k j then some b else get s j)

-- What it relies on of the serialisation: an entry is read back.
pub record Codec (B : Type 0) : Type 0 where
  pub to_bytes : ObjectEntry → B
  pub from_bytes : B → Option ObjectEntry
  pub from_bytes-to_bytes : (e : ObjectEntry) → from_bytes (to_bytes e) ≡ some e

pub data FlushPolicy : Type 0 where
  immediate : FlushPolicy
  batch_size async_interval : ℕ → FlushPolicy

-- FlushPolicy::batch
abbrev pub batch : ℕ → FlushPolicy
batch size = if size == 0 then immediate else batch_size size

pub record EndpointCache (S : Type 0) : Type 0 where
  pub endpoint_index : ℕ
  pub objects : S
  pub pending_writes : ℕ
  pub flush_policy : FlushPolicy

-- format!("{}:{:08}", config_hash, file_idx)
pub object_key : String → ℕ → Text
object_key config_hash file_idx = codes config_hash ++ b':' ∷ decimal_8 file_idx

abbrev pub owns_file : {S : Type 0} → EndpointCache S → ℕ → ℕ → Bool
owns_file c file_idx total_endpoints = file_idx % total_endpoints == c.endpoint_index

-- Which of the calls that an operation makes to the database and the serialisation fail. A failed
-- insertion leaves the keyspace as it was.
pub record Faults : Type 0 where
  pub get_fails : Bool
  pub to_bytes_fails : Bool
  pub insert_fails : Bool
  pub persist_fails : Bool

-- After a write: the cache, and whether there was no error.
pub maybe_flush : {S : Type 0} → Bool → EndpointCache S → EndpointCache S × Bool
maybe_flush persist_fails c =
    let pending = (c.pending_writes + 1) % u64 in
    elim c.flush_policy [
      | immediate ↦ (c, not persist_fails)
      | batch_size threshold ↦
          if leb threshold pending
          then (record c { pending_writes = 0 }, not persist_fails)
          else (record c { pending_writes = pending }, true)
      | async_interval secs ↦ (record c { pending_writes = pending }, true)
    ]

abbrev pub force_flush : {S : Type 0} → Bool → EndpointCache S → EndpointCache S × Bool
force_flush persist_fails c = (record c { pending_writes = 0 }, not persist_fails)

abbrev pub set_flush_policy : {S : Type 0} → FlushPolicy → EndpointCache S → EndpointCache S
set_flush_policy policy c = record c { flush_policy = policy; pending_writes = 0 }

module _ {S B : Type 0} (ks : Keyspace S B) (codec : Codec B) where
  -- The insertion of an entry, and the flush after it.
  pub put : Faults → Text → ObjectEntry → EndpointCache S → EndpointCache S × Bool
  put f key entry c =
      if f.to_bytes_fails
      then (c, false)
      else if f.insert_fails
      then (c, false)
      else maybe_flush f.persist_fails
          (record c { objects = ks.insert c.objects key (codec.to_bytes entry) })

  pub plan_object : Faults → String → ℕ → String → ℕ → EndpointCache S → EndpointCache S × Bool
  plan_object f config_hash file_idx path size c =
      put f (object_key config_hash file_idx) (new_planned path size c.endpoint_index) c

  -- The read, change and write that the `mark_` operations share.
  pub mark : Faults → (ObjectEntry → ObjectEntry) → Text → EndpointCache S → EndpointCache S × Bool
  mark f change key c = if f.get_fails then (c, false) else elim (ks.get c.objects key) [
    | none ↦ maybe_flush f.persist_fails c
    | some bytes ↦ elim (codec.from_bytes bytes) [
      | none ↦ (c, false)
      | some entry ↦ put f key (change entry) c
    ]
  ]

  abbrev pub mark_creating : Faults → String → ℕ → EndpointCache S → EndpointCache S × Bool
  mark_creating f config_hash file_idx =
      mark f (λ entry. record entry { state = creating }) (object_key config_hash file_idx)

  -- `now` is the time of the call.
  abbrev pub mark_created :
      Faults → ℕ → String → ℕ → Option ℕ → Option ℕ → EndpointCache S → EndpointCache S × Bool
  mark_created f now config_hash file_idx created_at checksum =
      mark f
        (λ entry. record entry {
          state = created;
          created_at = some (unwrap_or created_at now);
          checksum = checksum;
        })
        (object_key config_hash file_idx)

  abbrev pub mark_failed : Faults → String → ℕ → EndpointCache S → EndpointCache S × Bool
  mark_failed f config_hash file_idx =
      mark f (λ entry. record entry { state = failed }) (object_key config_hash file_idx)

  abbrev pub mark_deleted : Faults → String → ℕ → EndpointCache S → EndpointCache S × Bool
  mark_deleted f config_hash file_idx =
      mark f (λ entry. record entry { state = deleted }) (object_key config_hash file_idx)

  pub record_created :
      Faults
      → ℕ
      → String
      → ℕ
      → String
      → ℕ
      → Option ℕ
      → Option ℕ
      → EndpointCache S
      → EndpointCache S × Bool
  record_created f now config_hash file_idx path size created_at checksum c =
      let key = object_key config_hash file_idx in
      let finish = λ (entry : ObjectEntry).
        put f key
          (record entry {
            state = created;
            created_at = some (unwrap_or created_at now);
            checksum = checksum;
          })
          c in
      if f.get_fails then (c, false) else elim (ks.get c.objects key) [
        | none ↦ finish (new_planned path size c.endpoint_index)
        | some bytes ↦ elim (codec.from_bytes bytes) [
          | none ↦ (c, false)
          | some entry ↦ finish entry
        ]
      ]

  -- The outer `none` is an error.
  pub get_object : Faults → String → ℕ → EndpointCache S → Option (Option ObjectEntry)
  get_object f config_hash file_idx c =
      if f.get_fails then none else elim (ks.get c.objects (object_key config_hash file_idx)) [
        | none ↦ some none
        | some bytes ↦ elim (codec.from_bytes bytes) [
          | none ↦ none
          | some entry ↦ some (some entry)
        ]
      ]
