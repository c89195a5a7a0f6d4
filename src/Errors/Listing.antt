-- ===== src/Errors/Listing.antt =====
-- `ListingErrorTracker` of src/prepare/error_tracking.rs.
use sai3_bench.Prelude.{
  ℕ, zero, suc, ◌+◌, ◌%◌, String, ◌≡◌, refl, sym, ap, ◌∙◌, Bool, ◌||◌, List, [], ◌∷◌, ◌++◌, leb,
  ltb, if◌then◌else◌, length, length-append, u64, arith,
}
use mathlib.Core.List.{append-nil, append_assoc}

pub record ListingErrorTracker : Type 0 where
  pub total_errors : ℕ
  pub consecutive_errors : ℕ
  pub max_total_errors : ℕ
  pub max_consecutive_errors : ℕ
  pub error_messages : List String

pub with_thresholds : ℕ → ℕ → ListingErrorTracker
with_thresholds max_total max_consecutive = record {
  total_errors = 0;
  consecutive_errors = 0;
  max_total_errors = max_total;
  max_consecutive_errors = max_consecutive;
  error_messages = [];
}

pub record_success : ListingErrorTracker → ListingErrorTracker
record_success t = record t { consecutive_errors = 0 }

-- The tracker afterwards, and whether to abort, the total and the consecutive errors.
pub record_error : String → ListingErrorTracker → ListingErrorTracker × (Bool × (ℕ × ℕ))
record_error error_msg t =
    let total = (t.total_errors + 1) % u64 in
    let consecutive = (t.consecutive_errors + 1) % u64 in
    (
      record t {
        total_errors = total;
        consecutive_errors = consecutive;
        error_messages =
            if ltb (length t.error_messages) 20
            then t.error_messages ++ error_msg ∷ []
            else t.error_messages;
      },
      (
        leb t.max_total_errors total || leb t.max_consecutive_errors consecutive,
        (total, consecutive),
      ),
    )

-- What a listing meets.
pub data Event : Type 0 where
  item : Event
  list_error : String → Event

-- A listing that meets the events, the first one first.
pub listing : List Event → ListingErrorTracker → ListingErrorTracker
listing [] t = t
listing (item ∷ es) t = listing es (record_success t)
listing (list_error e ∷ es) t = listing es (record_error e t).0

abbrev pub errors : List Event → List String
errors [] = []
errors (item ∷ es) = errors es
errors (list_error e ∷ es) = e ∷ errors es

abbrev pub take : ℕ → List String → List String
take zero xs = []
take (suc n) [] = []
take (suc n) (x ∷ xs) = x ∷ take n xs

messages_full :
    (es : List Event) (t : ListingErrorTracker)
    → length t.error_messages ≡ 20
    → (listing es t).error_messages ≡ t.error_messages
unfolding listing record_error record_success
messages_full [] t h = refl
messages_full (item ∷ es) t h = messages_full es (record_success t) h
messages_full (list_error e ∷ es) t h =
    let kept : (record_error e t).0.error_messages ≡ t.error_messages = ground arith in
    messages_full es (record_error e t).0 (ap length kept ∙ h) ∙ kept

messages_from :
    (es : List Event) (t : ListingErrorTracker) (room : ℕ)
    → length t.error_messages + room ≡ 20
    → (listing es t).error_messages ≡ t.error_messages ++ take room (errors es)
unfolding listing record_error record_success
messages_from es t zero h = messages_full es t (omega arith) ∙ sym (append-nil t.error_messages)
messages_from [] t (suc room) h = sym (append-nil t.error_messages)
messages_from (item ∷ es) t (suc room) h = messages_from es (record_success t) (suc room) h
messages_from (list_error e ∷ es) t (suc room) h =
    let kept : (record_error e t).0.error_messages ≡ t.error_messages ++ e ∷ [] = ground arith in
    let longer : length (record_error e t).0.error_messages + room ≡ 20 =
      omega (arith, ap length kept, length-append t.error_messages (e ∷ [])) in
    messages_from es (record_error e t).0 room longer
    ∙ ap (λ ms. ms ++ take room (errors es)) kept
    ∙ append_assoc t.error_messages (e ∷ []) (take room (errors es))

-- Whatever a listing meets, and wherever the errors stand among the items, a new tracker keeps
-- exactly the first twenty error messages, in their order.
pub listing-messages :
    (max_total max_consecutive : ℕ) (es : List Event)
    → (listing es (with_thresholds max_total max_consecutive)).error_messages ≡ take 20 (errors es)
unfolding with_thresholds
listing-messages max_total max_consecutive es =
    messages_from es (with_thresholds max_total max_consecutive) 20 refl
