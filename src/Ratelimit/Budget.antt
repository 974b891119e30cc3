-- ===== src/Ratelimit/Budget.antt =====
-- internal/ratelimit/limiter.go: sequences of requests under one key.
use rallya.Common.{
  ℕ, suc, ◌+◌, ◌-◌, ◌<◌, ◌≡◌, refl, String, str_eq, false, Option, none, some, List, [], ◌∷◌, arith,
  All, length, Bool-cases, inl, inr, leb, ltb, some_and, if◌then◌else◌,
}
use text.Mathlib.TextPositions.{eq_refl}
use rallya.Ratelimit.Window.{Bucket, Buckets, lookup, store, allow, current}

lookup-store : (k : String) (b : Bucket) (bs : Buckets) → lookup k (store k b bs) ≡ some b
unfolding lookup store
lookup-store k b [] = rw (eq_refl k) refl
lookup-store k b ((j, c) ∷ bs) = elim (Bool-cases (str_eq j k)) [
  | inl here ↦ rw (here, eq_refl k) refl
  | inr further ↦ rw (further, further) (lookup-store k b bs)
]

-- Requests under one key at the given times, and how many of them are allowed.
unfoldable pub allowed_count : String → ℕ → ℕ → List ℕ → Buckets → ℕ
allowed_count key limit window [] bs = 0
allowed_count key limit window (now ∷ times) bs =
    let step = allow key limit window now bs in
    let rest = allowed_count key limit window times step.1 in
    (if step.0.allowed then 1 else 0) + rest

abbrev pub min : ℕ → ℕ → ℕ
min a b = if leb a b then a else b

counted :
    (key : String) (limit window now : ℕ) (bs : Buckets) {b : Bucket}
    → current (lookup key bs) now window ≡ b
    → ((allow key limit window now bs).0.allowed ≡ leb (b.count + 1) limit)
      × (lookup key (allow key limit window now bs).1 ≡ some (record b { count = b.count + 1 }))
unfolding allow
counted key limit window now bs {b = b} h =
    rw h (ground arith, lookup-store key (record b { count = b.count + 1 }) bs)

-- Within the window of a stored bucket, the requests that are allowed are those that its budget has
-- left.
allowed_count-stored :
    (key : String) (limit window : ℕ) (times : List ℕ) (bs : Buckets) {b : Bucket}
    → lookup key bs ≡ some b
    → All (λ t. t < b.reset_at) times
    → allowed_count key limit window times bs ≡ min (length times) (limit - b.count)
unfolding allowed_count
allowed_count-stored key limit window [] bs found within = ground arith
allowed_count-stored key limit window (now ∷ times) bs {b = b} found within =
    let here : current (lookup key bs) now window ≡ b = ground (arith, within.0) in
    let (said, kept) = counted key limit window now bs {b = b} here in
    let rest =
      allowed_count-stored key limit window times (allow key limit window now bs).1
        {b = record b { count = b.count + 1 }} kept within.1 in
    ground (arith, rest)

current-fresh :
    (b : Option Bucket) (now window : ℕ)
    → some_and b (λ c. ltb now c.reset_at) ≡ false
    → current b now window ≡ record { count = 0; reset_at = now + window }
current-fresh none now window h = refl
current-fresh (some b) now window h = rw h refl

-- If a key has no live window, of the request that opens one and any sequence of requests within
-- it exactly the budget is allowed, or all of them if there are fewer.
pub allowed_count-fresh :
    (key : String) (limit window now : ℕ) (times : List ℕ) (bs : Buckets)
    → some_and (lookup key bs) (λ b. ltb now b.reset_at) ≡ false
    → All (λ t. t < now + window) times
    → allowed_count key limit window (now ∷ times) bs ≡ min (suc (length times)) limit
unfolding allowed_count
allowed_count-fresh key limit window now times bs absent within =
    let (said, kept) =
      counted key limit window now bs {b = record { count = 0; reset_at = now + window }}
        (current-fresh (lookup key bs) now window absent) in
    let rest =
      allowed_count-stored key limit window times (allow key limit window now bs).1
        {b = record { count = 1; reset_at = now + window }} kept within in
    ground (arith, rest)
