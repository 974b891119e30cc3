-- ===== src/Ratelimit.antt =====
-- internal/ratelimit: the fixed-window limiter. `Buckets` is the process-local store of limiter.go,
-- `permit` its fail-open rule, and `limit` the middleware. Time is in nanoseconds.
pub mod Window
pub mod Budget
