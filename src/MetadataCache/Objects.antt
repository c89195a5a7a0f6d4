-- ===== src/MetadataCache/Objects.antt =====
-- What the objects of an endpoint are after any history of operations.
use mathlib.Core.Option
use sai3_bench.Prelude.{
  ℕ, String, ◌&&◌, ◌==◌, ◌≡◌, ◌↔◌, refl, ap, subst, ◌∙◌, inl, inr, Option, none, some, List, [],
  ◌∷◌, if◌then◌else◌, arith, Option-cases,
}
use sai3_bench.Prelude.Keys.{key_eq, list_key, list_eq}
use sai3_bench.Prelude.Text.{Text, codes}
use sai3_bench.MetadataCache.{
  ObjectState, creating, failed, deleted, from_u8, to_u8, ObjectEntry, new_planned, Keyspace, Codec,
  FlushPolicy, EndpointCache, Faults, object_key, plan_object, get_object,
}
use sai3_bench.MetadataCache.Actions.{
  to_plan, to_creating, to_failed, to_deleted, to_created, to_record, Op, made, in_state, next,
  reaches, history, perform, perform_all, fresh,
}
use sai3_bench.MetadataCache.Keys.{object_key-list_eq}
use sai3_bench.MetadataCache.Writes.{Holds, Ran, put-Ran, mark-Ran, record_created-Ran}

-- A byte is read as a state exactly when it is the byte of that state.
pub from_u8_iff : (value : ℕ) (s : ObjectState) → (from_u8 value ≡ some s) ↔ (to_u8 s ≡ value)
from_u8_iff value s = ground arith

-- The entry at a key after the operations.
abbrev at_key : ℕ → Text → List Op → Option ObjectEntry → Option ObjectEntry
at_key endpoint key [] o = o
at_key endpoint key (op ∷ ops) o = at_key endpoint key ops (
    if key_eq (object_key op.config_hash op.file_idx) key && reaches op.action op.faults
    then next endpoint op.action o
    else o)

at_key-history :
    (endpoint : ℕ) (config_hash : String) (file_idx : ℕ) (ops : List Op) (o : Option ObjectEntry)
    → at_key endpoint (object_key config_hash file_idx) ops o
      ≡ history endpoint config_hash file_idx ops o
at_key-history endpoint config_hash file_idx [] o = refl
at_key-history endpoint config_hash file_idx (op ∷ ops) o =
    rw (object_key-list_eq op.config_hash config_hash op.file_idx file_idx) (
      at_key-history endpoint config_hash file_idx ops (
        if (list_eq (codes op.config_hash) (codes config_hash) && op.file_idx == file_idx)
          && reaches op.action op.faults
        then next endpoint op.action o
        else o))

module _ {S B : Type 0} (ks : Keyspace S B) (codec : Codec B) where
  abbrev stored : Op → ℕ → (Text → Option ObjectEntry) → Text → Option ObjectEntry
  stored op endpoint view k =
      if key_eq (object_key op.config_hash op.file_idx) k && reaches op.action op.faults
      then next endpoint op.action (view k)
      else view k

  perform-Ran :
      (view : Text → Option ObjectEntry) (c : EndpointCache S) (op : Op)
      → Holds ks codec view c
      → Ran ks codec (stored op c.endpoint_index view) c.endpoint_index (perform ks codec op c).0
  unfolding perform plan_object
  perform-Ran view c op h =
      let key = object_key op.config_hash op.file_idx in
      let f = op.faults in
      elim op.action
        as (λ a.
          Ran ks codec (stored (record op { action = a }) c.endpoint_index view) c.endpoint_index
            (perform ks codec (record op { action = a }) c).0) [
              | to_plan path size ↦
                  put-Ran ks codec view
                    (stored (record op { action = to_plan path size }) c.endpoint_index view) f c
                    key (new_planned path size c.endpoint_index) h (λ k. refl)
              | to_creating ↦
                  mark-Ran ks codec view
                    (stored (record op { action = to_creating }) c.endpoint_index view) f c key
                    (in_state creating) h (λ k. refl)
              | to_failed ↦
                  mark-Ran ks codec view
                    (stored (record op { action = to_failed }) c.endpoint_index view) f c key
                    (in_state failed) h (λ k. refl)
              | to_deleted ↦
                  mark-Ran ks codec view
                    (stored (record op { action = to_deleted }) c.endpoint_index view) f c key
                    (in_state deleted) h (λ k. refl)
              | to_created now at sum ↦
                  mark-Ran ks codec view
                    (stored (record op { action = to_created now at sum }) c.endpoint_index view) f
                    c key (made now at sum) h (λ k. refl)
              | to_record now path size at sum ↦
                  record_created-Ran ks codec view
                    (stored (record op { action = to_record now path size at sum }) c.endpoint_index
                      view)
                    f c now op.config_hash op.file_idx path size at sum h (λ k. refl)
            ]

  perform_all-Ran :
      (view : Text → Option ObjectEntry) (c : EndpointCache S) (endpoint : ℕ) (ops : List Op)
      → Ran ks codec view endpoint c
      → Holds ks codec (λ k. at_key endpoint k ops (view k)) (perform_all ks codec ops c)
  unfolding perform_all
  perform_all-Ran view c endpoint [] ran = ran.holds_after
  perform_all-Ran view c endpoint (op ∷ ops) ran =
      let one = perform-Ran view c op ran.holds_after in
      perform_all-Ran (stored op endpoint view) (perform ks codec op c).0 endpoint ops
        (subst (λ i. Ran ks codec (stored op i view) i (perform ks codec op c).0) ran.index one)

  get_object-Holds :
      (view : Text → Option ObjectEntry) (c : EndpointCache S) (f : Faults) (config_hash : String)
      (file_idx : ℕ)
      → Holds ks codec view c
      → get_object ks codec f config_hash file_idx c
        ≡ (if f.get_fails then none else some (view (object_key config_hash file_idx)))
  unfolding get_object
  get_object-Holds view c f config_hash file_idx h =
      let key = object_key config_hash file_idx in
      elim (Option-cases (view key)) [
        | inl e ↦ rw (h.holds key ∙ ap (Option.map codec.to_bytes) e, e, get_object) refl
        | inr (entry, e) ↦
            rw
              (
                h.holds key ∙ ap (Option.map codec.to_bytes) e,
                codec.from_bytes-to_bytes entry,
                e,
                get_object,
              )
              refl
      ]

  -- Whatever operations an empty cache is given, on whichever objects, under whichever flush policy,
  -- and whichever of their calls to the database and the serialisation fail: reading an object
  -- afterwards fails only where the read itself does, and else gives what the operations for the same
  -- configuration and the same number alone lead to, of which each counts whose calls up to the
  -- insertion do not fail, a failed flush included.
  pub get_object-perform_all :
      (endpoint : ℕ) (policy : FlushPolicy) (ops : List Op) (f : Faults) (config_hash : String)
      (file_idx : ℕ)
      → get_object ks codec f config_hash file_idx
          (perform_all ks codec ops (fresh ks codec endpoint policy))
        ≡ (if f.get_fails then none else some (history endpoint config_hash file_idx ops none))
  get_object-perform_all endpoint policy ops f config_hash file_idx =
      let start : Ran ks codec (λ k. none) endpoint (fresh ks codec endpoint policy) = record {
        holds_after = record { holds = λ k. ks.get-empty k };
        index = refl;
      } in
      let c = perform_all ks codec ops (fresh ks codec endpoint policy) in
      let after = perform_all-Ran (λ k. none) (fresh ks codec endpoint policy) endpoint ops start in
      get_object-Holds (λ k. at_key endpoint k ops none) c f config_hash file_idx after
      ∙ ap (λ o. if f.get_fails then none else some o)
          (at_key-history endpoint config_hash file_idx ops none)
