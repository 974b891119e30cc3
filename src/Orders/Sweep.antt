-- ===== src/Orders/Sweep.antt =====
-- internal/order/service/order_service.go: `SweepExpired` and `expireOne`, which the periodic job of
-- internal/order/jobs/jobs.go runs. Each order is expired in a transaction of its own, so each has
-- an environment of its own.
use rallya.Common.{
  ℕ, ◌+◌, none, List, [], ◌∷◌, Tx, ok, err, Result, ◌>>=◌, ◌>>◌, map_err, or_raise, ◌||◌, not,
  if◌then◌else◌,
}
use rallya.Common.Int.{ℤ, pos, pos_part, is_positive, gt_bound}
use rallya.Model.Order.{Order, expired}
use rallya.Store.{Db, Env, emit_tx}
use rallya.Ticketing.Inventory.{release_tx}
use rallya.Orders.Types.{OrderError, call_err, order_entry, internal}
use rallya.Orders.Rows.{update_order_row, expired_pending}

-- `expireOne`
unfoldable pub expire_one : Env → Order → Tx Db OrderError (Unit {0})
unfolding release_tx update_order_row
expire_one env o = do
  org ← or_raise (env.org_of o.event_id) internal
  map_err (λ _. internal) (release_tx env o.ticket_type_id (pos o.quantity))
  map_err call_err (update_order_row env (record o { status = expired }))
  emit_tx env internal (order_entry org none "order.expired" o.id)

abbrev pub tally : Result OrderError (Unit {0} × Db) → ℕ → Db → ℕ × Db
tally (ok r) done db = (done + 1, r.1)
tally (err e) done db = (done, db)

-- The loop: a failure is logged and skipped.
unfoldable pub expire_all : (ℕ → Env) → List Order → ℕ → Db → ℕ × Db
expire_all envs [] done db = (done, db)
expire_all envs (o ∷ os) done db =
    let next = tally (expire_one (envs o.id) o db) done db in expire_all envs os next.0 next.1

-- The batch size that is used.
abbrev pub batch_size : ℤ → ℕ
batch_size n = if not (is_positive n) || gt_bound n 500 then 100 else pos_part n

-- `SweepExpired`
unfoldable pub sweep_expired : Env → (ℕ → Env) → ℤ → Tx Db OrderError ℕ
unfolding expire_all expired_pending
sweep_expired env envs batch = do
  os ← map_err call_err (expired_pending env (batch_size batch))
  λ db. ok (expire_all envs os 0 db)

-- The periodic job
unfoldable pub work : Env → (ℕ → Env) → Tx Db OrderError ℕ
unfolding sweep_expired
work env envs = sweep_expired env envs (pos 100)
