-- ===== src/Orders/SweepProgress.antt =====
-- internal/order/service/order_service.go: which orders `SweepExpired` expires, and what it counts.
use rallya.Common.{
  ℕ, ◌+◌, ◌<◌, ◌≤◌, leb, All-of_count, ◌≡◌, ◌⊎◌, inl, inr, refl, ap, ◌∙◌, Bool, true, false, List,
  [], ◌∷◌, some, some_and, arith, ok, err, Result, All, All-take, All-filter, Distinct, NoneHas,
  Distinct-take, Distinct-filter, filter, take, count, update_first, ◌==◌, Bool-cases,
  if◌then◌else◌,
}
use rallya.Common.Int.{ℤ}
use rallya.Model.Order.{Order, OrderStatus, expired}
use rallya.Store.{Db, Env}
use rallya.Orders.Types.{OrderError}
use rallya.Orders.Rows.{is_expired, has_id, find_order}
use rallya.Orders.Sweep.{expire_one, expire_all, tally, sweep_expired, batch_size}
use rallya.Orders.SweepBooks.{
  order_key, Sound, Current, tally-Sound, selected-Current, expire_one-orders,
}
use rallya.Orders.Progress.{CommitCalls, release_covered, expire_one-granted}
use rallya.Orders.Replays.{find-update}

-- Every order's organization is known to the environment of its expiry.
abbrev pub KnowsOrgs : (ℕ → Env) → Type 0
KnowsOrgs envs = (o : Order) → (org : ℕ) × ((envs o.id).org_of o.event_id ≡ some org)

abbrev has_lapsed : OrderStatus → Bool
has_lapsed expired = true
has_lapsed _ = false

-- Whether the stored row of an order is EXPIRED.
abbrev pub is_swept : Db → Order → Bool
is_swept db o = some_and (find_order o.id db.orders) (λ p. has_lapsed p.status)

-- The stored row of an order is the order marked EXPIRED, or, where not all calls of its transaction
-- work, possibly the order as it was.
abbrev pub EndsAs : (ℕ → Bool) → Db → Order → Type 0
EndsAs works db o =
    (find_order o.id db.orders ≡ some (record o { status = expired }))
    ⊎ ((works o.id ≡ false) × (find_order o.id db.orders ≡ some o))

find-apart :
    (id q : ℕ) (p : Order) (os : List Order)
    → (id == q) ≡ false
    → p.id ≡ id
    → find_order q (update_first (has_id id) (λ _. p) os) ≡ find_order q os
find-apart id q p [] ne same = refl
find-apart id q p (x ∷ os) ne same = ground (arith, find-apart id q p os ne same)

-- An expiry, done or not, leaves the rows of other orders.
tally-others :
    (env : Env) (o : Order) (q done : ℕ) (db : Db)
    → (o.id == q) ≡ false
    → find_order q (tally (expire_one env o db) done db).1.orders ≡ find_order q db.orders
tally-others env o q done db ne = go (expire_one env o db) refl
  where
    go :
        (x : Result OrderError (Unit {0} × Db))
        → expire_one env o db ≡ x
        → find_order q (tally x done db).1.orders ≡ find_order q db.orders
    go (err e) h = refl
    go (ok r) h =
        ap (find_order q) (expire_one-orders env o db h)
        ∙ find-apart o.id q (record o { status = expired }) db.orders ne refl

expire_all-others :
    (envs : ℕ → Env) (os : List Order) (q done : ℕ) (db : Db)
    → NoneHas order_key q os
    → find_order q (expire_all envs os done db).1.orders ≡ find_order q db.orders
unfolding expire_all
expire_all-others envs [] q done db apart = refl
expire_all-others envs (o ∷ os) q done db apart =
    let next = tally (expire_one (envs o.id) o db) done db in
    expire_all-others envs os q next.0 next.1 apart.1 ∙ tally-others (envs o.id) o q done db apart.0

expire_all-unselected :
    (envs : ℕ → Env) (os : List Order) (q done : ℕ) (db : Db)
    → (1 ≤ count (has_id q) os)
      ⊎ (find_order q (expire_all envs os done db).1.orders ≡ find_order q db.orders)
expire_all-unselected envs os q done db = elim (Bool-cases (leb 1 (count (has_id q) os))) [
  | inl selected ↦ inl (ground arith)
  | inr apart ↦
      inr (expire_all-others envs os q done db (All-of_count (has_id q) os (ground arith)))
]

-- One turn counts the order if its row is then EXPIRED, and expires it if its calls work.
tally-Ends :
    (env : Env) (works : ℕ → Bool) (o : Order) (org done : ℕ) (db : Db)
    → (works o.id ≡ true → CommitCalls env)
    → env.org_of o.event_id ≡ some org
    → Current db o
    → 0 < o.quantity
    → Sound db
    → let next = tally (expire_one env o db) done db in
      (next.0 ≡ done + (if is_swept next.1 o then 1 else 0)) × EndsAs works next.1 o
tally-Ends env works o org done db calls known current positive sound =
    go (expire_one env o db) refl
  where
    lapses : works o.id ≡ true → (r : Unit {0} × Db) × (expire_one env o db ≡ ok r)
    lapses w =
        let (t, e, covered) = release_covered o db sound.0 current.0 current.1 positive in
        (
          _,
          expire_one-granted env o org db {t = t} (calls w) current.0 refl known e positive covered,
        )

    go :
        (x : Result OrderError (Unit {0} × Db))
        → expire_one env o db ≡ x
        → let next = tally x done db in
          (next.0 ≡ done + (if is_swept next.1 o then 1 else 0)) × EndsAs works next.1 o
    go (err e) h = elim (Bool-cases (works o.id)) [
      | inl w ↦ let (r, granted) = lapses w in absurd (cc)
      | inr fails ↦ (rw (current.0) (ground arith), inr (fails, current.0))
    ]
    go (ok r) h =
        let row : find_order o.id r.1.orders ≡ some (record o { status = expired }) =
          ap (find_order o.id) (expire_one-orders env o db h)
          ∙ find-update (record o { status = expired }) {o = o} db.orders current.0 in
        (rw row (omega arith), inl row)

expire_all-Ends :
    (envs : ℕ → Env) (works : ℕ → Bool) (os : List Order) (done : ℕ) (db : Db)
    → ((id : ℕ) → works id ≡ true → CommitCalls (envs id))
    → KnowsOrgs envs
    → Distinct order_key os
    → All (Current db) os
    → All (λ o. 0 < o.quantity) os
    → Sound db
    → let last = expire_all envs os done db in
      (last.0 ≡ done + count (is_swept last.1) os) × All (EndsAs works last.1) os
unfolding expire_all
expire_all-Ends envs works [] done db calls orgs distinct current positive sound = (omega arith, tt)
expire_all-Ends envs works (o ∷ os) done db calls orgs distinct current positive sound =
    let next = tally (expire_one (envs o.id) o db) done db in
    let (counted, ends) =
      tally-Ends (envs o.id) works o (orgs o).0 done db (calls o.id) (orgs o).1 current.0 positive.0
        sound in
    let (sound', rest) =
      tally-Sound (envs o.id) o os done db distinct.0 current.0 current.1 sound in
    let (total, all) =
      expire_all-Ends envs works os next.0 next.1 calls orgs distinct.1 rest positive.1 sound' in
    let kept = expire_all-others envs os o.id next.0 next.1 distinct.0 in
    (rw kept (omega (arith, total, counted)), (rw kept ends, all))

-- A sweep counts the orders that it has expired, and touches no others. If the books balance, order
-- identifiers are distinct, every order has a positive quantity and organizations are known, then
-- the number that a sweep returns is the number of selected orders whose stored row is EXPIRED
-- afterwards, whichever calls fail. Each selected order whose calls all work is EXPIRED with the rest
-- of its row as it was, since the inventory refuses no release; each other one is EXPIRED so or has
-- the row that it had. An order that is not selected has the row that it had.
pub sweep_expired-count :
    (env : Env) (envs : ℕ → Env) (works : ℕ → Bool) (batch : ℤ) (db : Db) {r : ℕ × Db}
    → ((id : ℕ) → works id ≡ true → CommitCalls (envs id))
    → KnowsOrgs envs
    → Sound db
    → All (λ o. 0 < o.quantity) db.orders
    → sweep_expired env envs batch db ≡ ok r
    → let os = take (batch_size batch) (filter (is_expired env.now) db.orders) in
      (r.0 ≡ count (is_swept r.1) os)
      × All (EndsAs works r.1) os
      × ((q : ℕ) → (1 ≤ count (has_id q) os) ⊎ (find_order q r.1.orders ≡ find_order q db.orders))
unfolding sweep_expired
sweep_expired-count env envs works batch db {r = r} calls orgs sound positive h =
    let os = take (batch_size batch) (filter (is_expired env.now) db.orders) in
    let last = expire_all envs os 0 db in
    let swept : last ≡ r = ground arith in
    let (total, all) =
      expire_all-Ends envs works os 0 db calls orgs
        (Distinct-take order_key (batch_size batch) (filter (is_expired env.now) db.orders)
          (Distinct-filter order_key (is_expired env.now) db.orders sound.1))
        (selected-Current env.now (batch_size batch) db sound.1)
        (All-take (λ o. 0 < o.quantity) (batch_size batch) (filter (is_expired env.now) db.orders)
          (All-filter (λ o. 0 < o.quantity) (is_expired env.now) db.orders positive))
        sound in
    rw (← swept) (omega (arith, total), all, λ q. expire_all-unselected envs os q 0 db)
