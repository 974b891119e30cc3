-- ===== src/Ratelimit/Window.antt =====
-- internal/ratelimit/limiter.go and middleware.go.
use rallya.Common.{
  ℕ, ◌+◌, ◌-◌, ◌*◌, ◌/◌, String, str_eq, Bool, true, false, ◌||◌, Option, none, some, List, [], ◌∷◌,
  ltb, leb, if◌then◌else◌,
}
use text.Mathlib.Text.{starts_with}
use rallya.Common.Int.{ℤ, pos, pos_part, is_positive}

pub record Bucket : Type 0 where
  pub count : ℕ
  pub reset_at : ℕ

-- The map of `memoryStore`.
abbrev pub Buckets : Type 0
Buckets = List (String × Bucket)

unfoldable pub lookup : String → Buckets → Option Bucket
lookup k [] = none
lookup k ((j, b) ∷ bs) = if str_eq j k then some b else lookup k bs

unfoldable pub store : String → Bucket → Buckets → Buckets
store k b [] = (k, b) ∷ []
store k b ((j, c) ∷ bs) = if str_eq j k then (k, b) ∷ bs else (j, c) ∷ store k b bs

-- The bucket that a request counts in: the stored one until its window ends.
abbrev pub current : Option Bucket → ℕ → ℕ → Bucket
current none now window = record { count = 0; reset_at = now + window }
current (some b) now window =
    if ltb now b.reset_at then b else record { count = 0; reset_at = now + window }

pub record Answer : Type 0 where
  pub allowed : Bool
  pub retry_after : ℕ

-- `memoryStore.Allow`
unfoldable pub allow : String → ℕ → ℕ → ℕ → Buckets → Answer × Buckets
unfolding lookup store
allow key limit window now bs =
    let b = current (lookup key bs) now window in
    let counted : Bucket = record b { count = b.count + 1 } in
    (
      if leb counted.count limit
          then record { allowed = true; retry_after = 0 }
          else record { allowed = false; retry_after = counted.reset_at - now },
      store key counted bs,
    )

-- What `redisStore.Allow` makes of the reply of its script, in milliseconds: a TTL below 0 says that
-- the key has none.
unfoldable pub redis_answer : ℕ → ℤ → ℕ → ℕ → Answer
redis_answer count ttl limit window =
    if leb count limit then record { allowed = true; retry_after = 0 } else elim ttl [
      | pos ms ↦ record { allowed = false; retry_after = ms * 1000000 }
      | ℤ.negsuc _ ↦ record { allowed = false; retry_after = window }
    ]

-- `permit`: a store that fails lets the request through.
unfoldable pub permit : Option Answer → Answer
permit none = record { allowed = true; retry_after = 0 }
permit (some a) = a

pub data Response : Type 0 where
  next : Response
  too_many_requests : ℕ → Response  -- Retry-After, in seconds

-- `int(retry.Round(time.Second).Seconds())`, at least 1
abbrev pub retry_seconds : ℕ → ℕ
retry_seconds ns = let secs = (ns + 500000000) / 1000000000 in if ltb secs 1 then 1 else secs

abbrev pub minute : ℕ
minute = 60000000000

-- `Limit`'s budget
abbrev pub budget : ℤ → ℕ
budget per_min = if is_positive per_min then pos_part per_min else 1

abbrev pub skips : String → Bool
skips path = starts_with path "/health" || starts_with path "/swagger"

abbrev pub answer : Answer → Response
answer a = if a.allowed then next else too_many_requests (retry_seconds a.retry_after)

-- `Limit` over the process-local store, for a request with this path and bucket key
unfoldable pub limit : ℤ → String → String → ℕ → Buckets → Response × Buckets
unfolding allow permit
limit per_min path key now bs = if skips path then (next, bs) else (
  answer (permit (some (allow key (budget per_min) minute now bs).0)),
  (allow key (budget per_min) minute now bs).1,
)
