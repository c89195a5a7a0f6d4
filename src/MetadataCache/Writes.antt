-- ===== src/MetadataCache/Writes.antt =====
-- What each writing operation of src/metadata_cache.rs leaves at every key.
use mathlib.Core.Option
use sai3_bench.Prelude.{
  ℕ, String, Bool, not, ◌&&◌, Bool-cases, ◌≡◌, refl, sym, ap, ◌∙◌, inl, inr, Option, none, some,
  if◌then◌else◌, arith, Option-cases,
}
use sai3_bench.Prelude.Keys.{key_eq, list_key, list_eq-eq}
use sai3_bench.Prelude.Text.{Text}
use sai3_bench.MetadataCache.{
  ObjectEntry, new_planned, Keyspace, Codec, EndpointCache, Faults, object_key, maybe_flush, put,
  mark, record_created,
}
use sai3_bench.MetadataCache.Actions.{made}

module _ {S B : Type 0} (ks : Keyspace S B) (codec : Codec B) where
  -- `view` says what the cache holds at each key.
  pub record Holds (view : Text → Option ObjectEntry) (c : EndpointCache S) : Type 0 where
    pub holds : (k : Text) → ks.get c.objects k ≡ Option.map codec.to_bytes (view k)

  flush_objects : (fails : Bool) (c : EndpointCache S) → (maybe_flush fails c).0.objects ≡ c.objects
  unfolding maybe_flush
  flush_objects fails c = ground arith

  flush_index :
      (fails : Bool) (c : EndpointCache S)
      → (maybe_flush fails c).0.endpoint_index ≡ c.endpoint_index
  unfolding maybe_flush
  flush_index fails c = ground arith

  -- What a cache holds, and whose it is.
  pub record Ran (view : Text → Option ObjectEntry) (endpoint : ℕ) (c : EndpointCache S)
      : Type 0 where
    pub holds_after : Holds view c
    pub index : c.endpoint_index ≡ endpoint

  -- The views of a key before and after agree, or the entry was written.
  abbrev pub written :
      Bool → Text → ObjectEntry → (Text → Option ObjectEntry) → Text → Option ObjectEntry
  written reached key entry view k = if key_eq key k && reached then some entry else view k

  abbrev pub inserts : Faults → Bool
  inserts f = not f.to_bytes_fails && not f.insert_fails

  pub same-Ran :
      (view view' : Text → Option ObjectEntry) (c : EndpointCache S)
      → Holds view c
      → ((k : Text) → view' k ≡ view k)
      → Ran view' c.endpoint_index c
  same-Ran view view' c h same = record {
    holds_after = record { holds = λ k. h.holds k ∙ ap (Option.map codec.to_bytes) (sym (same k)) };
    index = refl;
  }

  pub flush-Ran :
      (view : Text → Option ObjectEntry) (fails : Bool) (c : EndpointCache S) (endpoint : ℕ)
      → Ran view endpoint c
      → Ran view endpoint (maybe_flush fails c).0
  flush-Ran view fails c endpoint ran = record {
    holds_after = record {
      holds = λ k. ap (λ s. ks.get s k) (flush_objects fails c) ∙ ran.holds_after.holds k;
    };
    index = flush_index fails c ∙ ran.index;
  }

  insert-Ran :
      (view view' : Text → Option ObjectEntry) (c : EndpointCache S) (key : Text)
      (entry : ObjectEntry)
      → Holds view c
      → ((k : Text) → view' k ≡ (if key_eq key k then some entry else view k))
      → Ran view' c.endpoint_index
          (record c { objects = ks.insert c.objects key (codec.to_bytes entry) })
  insert-Ran view view' c key entry h new = record {
    holds_after = record {
      holds = λ k.
          ground (arith, ks.get-insert c.objects key k (codec.to_bytes entry), h.holds k, new k);
    };
    index = refl;
  }

  pub put-Ran :
      (view view' : Text → Option ObjectEntry) (f : Faults) (c : EndpointCache S) (key : Text)
      (entry : ObjectEntry)
      → Holds view c
      → ((k : Text) → view' k ≡ written (inserts f) key entry view k)
      → Ran view' c.endpoint_index (put ks codec f key entry c).0
  unfolding put
  put-Ran view view' f c key entry h new = elim (Bool-cases f.to_bytes_fails) [
    | inl e ↦ rw (e, put) (same-Ran view view' c h (λ k. ground (arith, e, new k)))
    | inr e ↦ elim (Bool-cases f.insert_fails) [
      | inl g ↦ rw (e, g, put) (same-Ran view view' c h (λ k. ground (arith, g, new k)))
      | inr g ↦
          rw (e, g, put)
            (flush-Ran view' f.persist_fails
              (record c { objects = ks.insert c.objects key (codec.to_bytes entry) })
              c.endpoint_index
              (insert-Ran view view' c key entry h (λ k. ground (arith, e, g, new k))))
    ]
  ]

  -- `view` with the entry at `key` changed, or made of a fresh one.
  abbrev pub changed :
      Bool
      → Text
      → (Option ObjectEntry → Option ObjectEntry)
      → (Text → Option ObjectEntry)
      → Text
      → Option ObjectEntry
  changed reached key change view k = if key_eq key k && reached then change (view k) else view k

  pub mark-Ran :
      (view view' : Text → Option ObjectEntry) (f : Faults) (c : EndpointCache S) (key : Text)
      (change : ObjectEntry → ObjectEntry)
      → Holds view c
      → ((k : Text)
          → view' k ≡ changed (not f.get_fails && inserts f) key (Option.map change) view k)
      → Ran view' c.endpoint_index (mark ks codec f change key c).0
  unfolding mark
  mark-Ran view view' f c key change h new = elim (Bool-cases f.get_fails) [
    | inl e ↦ rw (e, mark) (same-Ran view view' c h (λ k. ground (arith, e, new k)))
    | inr e ↦ elim (Option-cases (view key)) [
      | inl none_there ↦
          rw (e, h.holds key ∙ ap (Option.map codec.to_bytes) none_there, mark)
            (flush-Ran view' f.persist_fails c c.endpoint_index (
              same-Ran view view' c h
                (λ k. ground (arith, e, new k, none_there, list_eq-eq key k))))
      | inr (entry, there) ↦
          rw
            (
              e,
              h.holds key ∙ ap (Option.map codec.to_bytes) there,
              codec.from_bytes-to_bytes entry,
              mark,
            )
            (put-Ran view view' f c key (change entry) h
              (λ k. ground (arith, e, new k, there, list_eq-eq key k)))
    ]
  ]

  abbrev pub recorded :
      (ObjectEntry → ObjectEntry) → ObjectEntry → Option ObjectEntry → Option ObjectEntry
  recorded change start o = some (elim o [ none ↦ change start | some e ↦ change e ])

  pub record_created-Ran :
      (view view' : Text → Option ObjectEntry) (f : Faults) (c : EndpointCache S) (now : ℕ)
      (config_hash : String) (file_idx : ℕ) (path : String) (size : ℕ) (at sum : Option ℕ)
      → Holds view c
      → ((k : Text)
          → view' k
            ≡ changed
                (not f.get_fails && inserts f)
                (object_key config_hash file_idx)
                (recorded (made now at sum) (new_planned path size c.endpoint_index))
                view
                k)
      → Ran view' c.endpoint_index
          (record_created ks codec f now config_hash file_idx path size at sum c).0
  unfolding record_created
  record_created-Ran view view' f c now config_hash file_idx path size at sum h new =
      let key = object_key config_hash file_idx in
      let start = new_planned path size c.endpoint_index in
      elim (Bool-cases f.get_fails) [
        | inl e ↦ rw (e, record_created) (same-Ran view view' c h (λ k. ground (arith, e, new k)))
        | inr e ↦ elim (Option-cases (view key)) [
          | inl none_there ↦
              rw (e, h.holds key ∙ ap (Option.map codec.to_bytes) none_there, record_created)
                (put-Ran view view' f c key (made now at sum start) h
                  (λ k. ground (arith, e, new k, none_there, list_eq-eq key k)))
          | inr (entry, there) ↦
              rw
                (
                  e,
                  h.holds key ∙ ap (Option.map codec.to_bytes) there,
                  codec.from_bytes-to_bytes entry,
                  record_created,
                )
                (put-Ran view view' f c key (made now at sum entry) h
                  (λ k. ground (arith, e, new k, there, list_eq-eq key k)))
        ]
      ]
