-- ===== src/Errors.antt =====
-- Error budgets and retries: src/prepare/error_tracking.rs (the children Prepare and Listing), and
-- `retry_with_backoff`, `ErrorTracker` and `execute_with_error_handling` of src/workload.rs (the
-- children Retry and Budget). Counters wrap at their width. The delays between attempts, which
-- are floating point and random, are left out.
pub mod Prepare
pub mod Listing
pub mod Retry
pub mod Budget
mod Tests
