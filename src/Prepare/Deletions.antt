-- ===== src/Prepare/Deletions.antt =====
-- src/cleanup.rs: how a cleanup ends, in each of its modes.
use sai3_bench.Prelude.{
  ℕ, ◌+◌, ◌≡◌, ap, ◌∙◌, Bool, true, false, ◌&&◌, ◌||◌, not, none, some, List, [], ◌∷◌, length, ltb,
  ◌==◌, if◌then◌else◌, arith, inl, inr, Bool-cases,
}
use sai3_bench.Prepare.Cleanup.{
  CleanupMode, strict, tolerant, best_effort, DeleteAnswer, gone, refused, is_not_found,
  delete_result, Summary, nothing_done, summarise, results_of, cleanup_prepared_objects,
}

-- The objects that were there, those that were not, and those whose deletion failed.
abbrev pub deleted_now : List DeleteAnswer → ℕ
deleted_now [] = 0
deleted_now (gone ∷ answers) = deleted_now answers + 1
deleted_now (refused msg ∷ answers) = deleted_now answers

abbrev pub not_there : List DeleteAnswer → ℕ
not_there [] = 0
not_there (gone ∷ answers) = not_there answers
not_there (refused msg ∷ answers) = (if is_not_found msg then 1 else 0) + not_there answers

abbrev pub not_deleted : List DeleteAnswer → ℕ
not_deleted [] = 0
not_deleted (gone ∷ answers) = not_deleted answers
not_deleted (refused msg ∷ answers) = (if is_not_found msg then 0 else 1) + not_deleted answers

abbrev pub is_strict : CleanupMode → Bool
is_strict strict = true
is_strict tolerant = false
is_strict best_effort = false

abbrev added : Summary → List DeleteAnswer → Summary
added s answers = record {
  succeeded = s.succeeded + deleted_now answers;
  already = s.already + not_there answers;
  errors = s.errors + not_deleted answers;
}

summarise_lem :
    (mode : CleanupMode) (answers : List DeleteAnswer) (s : Summary)
    → summarise mode (results_of mode answers) s ≡ (
        if is_strict mode && ltb 0 (not_there answers + not_deleted answers)
        then none
        else some (added s answers))
unfolding summarise results_of delete_result
summarise_lem strict [] s = ground arith
summarise_lem tolerant [] s = ground arith
summarise_lem best_effort [] s = ground arith
summarise_lem mode (gone ∷ answers) s =
    summarise_lem mode answers (record s { succeeded = s.succeeded + 1 })
    ∙ ap
        (λ (n : ℕ).
          if is_strict mode && ltb 0 (not_there answers + not_deleted answers)
          then none
          else some (record (added s answers) { succeeded = n }))
        (omega arith)
summarise_lem strict (refused msg ∷ answers) s = elim (Bool-cases (is_not_found msg)) [
  | inl e ↦ rw e (ground arith)
  | inr e ↦ rw e (ground arith)
]
summarise_lem tolerant (refused msg ∷ answers) s = elim (Bool-cases (is_not_found msg)) [
  | inl e ↦
      rw e (summarise_lem tolerant answers (record s { already = s.already + 1 }) ∙ ground arith)
  | inr e ↦
      rw e (summarise_lem tolerant answers (record s { errors = s.errors + 1 }) ∙ ground arith)
]
summarise_lem best_effort (refused msg ∷ answers) s = elim (Bool-cases (is_not_found msg)) [
  | inl e ↦
      rw e (summarise_lem best_effort answers (record s { already = s.already + 1 }) ∙ ground arith)
  | inr e ↦
      rw e (summarise_lem best_effort answers (record s { errors = s.errors + 1 }) ∙ ground arith)
]

all_answered :
    (answers : List DeleteAnswer)
    → deleted_now answers + not_there answers + not_deleted answers ≡ length answers
all_answered [] = omega arith
all_answered (gone ∷ answers) = omega (arith, all_answered answers)
all_answered (refused msg ∷ answers) = ground (arith, all_answered answers)

by_answers :
    (opens : Bool) (mode : CleanupMode) (answers : List DeleteAnswer)
    → cleanup_prepared_objects opens mode answers ≡ (
        if ltb 0 (length answers)
          && (not opens || (is_strict mode && ltb 0 (not_there answers + not_deleted answers)))
        then none
        else some (record {
          succeeded = deleted_now answers;
          already = not_there answers;
          errors = not_deleted answers;
        }))
unfolding cleanup_prepared_objects
by_answers opens mode [] = ground arith
by_answers false mode (answer ∷ answers) = ground arith
by_answers true mode (answer ∷ answers) =
    let some_there : (length (answer ∷ answers) == 0) ≡ false = ground arith in
    rw (some_there, cleanup_prepared_objects)
      (summarise_lem mode (answer ∷ answers) nothing_done ∙ ground arith)

-- A cleanup of no objects does nothing. One of some objects ends with an error exactly where no store
-- can be made, or in the strict mode where some object was not deleted by it, so in the tolerant mode
-- not for a deletion that failed; else it counts the objects that it deleted, those that were not
-- there and those whose deletion failed, each object once.
pub cleanup_prepared_objects_lem :
    (opens : Bool) (cleanup_mode : CleanupMode) (answers : List DeleteAnswer)
    → (cleanup_prepared_objects opens cleanup_mode answers ≡ (
        if ltb 0 (length answers)
          && (not opens
              || (is_strict cleanup_mode && ltb 0 (not_there answers + not_deleted answers)))
        then none
        else some (record {
          succeeded = deleted_now answers;
          already = not_there answers;
          errors = not_deleted answers;
        })))
      × (deleted_now answers + not_there answers + not_deleted answers ≡ length answers)
cleanup_prepared_objects_lem opens mode answers =
    (by_answers opens mode answers, all_answered answers)
