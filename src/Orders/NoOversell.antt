-- ===== src/Orders/NoOversell.antt =====
-- internal/order/service/order_service.go: the sold counts over `CreateOrder` and `CancelOrder`.
use rallya.Common.{
  ℕ, ◌≡◌, sym, ap, ◌∙◌, ◌⊎◌, inl, inr, not, Option, none, some, arith, ok, map_err, or_raise,
  raise_if, map_err-eq-ok, bind-eq-ok, pure-eq-ok, is_empty, trim_space,
}
use rallya.Common.Int.{ℤ, pos, pos_part, is_positive}
use rallya.Model.Order.{Order, is_confirmed, cancelled}
use rallya.Store.{Db, Env, emit_tx}
use rallya.Ticketing.Inventory.{reserve_tx, release_tx, inspect_type}
use rallya.Ticketing.Bounds.{Stocked, reserve_tx-Stocked, release_tx-Stocked}
use rallya.Orders.Types.{
  OrderView, call_err, morph_reserve_err, morph_release_err, internal, order_entry, ticket_gone,
  invalid_qty,
}
use rallya.Orders.Rows.{create_order_row, update_order_row}
use rallya.Orders.Create.{
  CreateInput, claim, new_order, create_new, create_order, check_type, check_attendee_capacity,
  find_replay, replay_or,
}
use rallya.Orders.Cancel.{cancel_order, cancel_prepare, cancel_commit}
use rallya.Orders.CreateBooks.{
  emit_tx-SameStock, confirm_now-SameStock, inspect_type-unchanged, check_type-unchanged,
  check_attendee_capacity-unchanged, find_replay-unchanged, create_order_row-eq-ok,
}
use rallya.Orders.ChangeBooks.{cancel_prepare-eq-ok, update_order_row-eq-ok}

-- The types after a claim are those after its reservation.
claim-types :
    (env : Env) (org user : ℕ) (o : Order) (n : ℤ) (db : Db) {r : Unit {0} × Db}
    → claim env org user o n db ≡ ok r
    → (a : Unit {0} × Db) × (reserve_tx env o.ticket_type_id n db ≡ ok a) × (r.1.types ≡ a.1.types)
unfolding claim
claim-types env org user o n db h =
    let (a, e, k) =
      bind-eq-ok (map_err morph_reserve_err (reserve_tx env o.ticket_type_id n) db) _ h in
    let (b, e', k') = bind-eq-ok (map_err call_err (create_order_row env o) a.1) _ k in
    let (c, e'', k'') =
      bind-eq-ok (emit_tx env internal (order_entry org (some user) "order.created" o.id) b.1) _
        k' in
    (
      a,
      map_err-eq-ok morph_reserve_err (reserve_tx env o.ticket_type_id n) db e,
      (confirm_now-SameStock env org user o (is_confirmed o.status) c.1 k'').0
          ∙ (emit_tx-SameStock env org user "order.created" o.id b.1 e'').0
          ∙ (create_order_row-eq-ok env o 0 a.1
              (map_err-eq-ok call_err (create_order_row env o) a.1 e')).0,
    )

-- A claim that this request has made.
abbrev Claims : Env → ℕ → ℤ → Db → Db → Type 0
Claims env user n db db' =
    (org : ℕ) × (o : Order) × (c : Unit {0} × Db) × (claim env org user o n db ≡ ok c) × (db' ≡ c.1)

create_new-Claims :
    (env : Env) (user event_id : ℕ) (input : CreateInput) (db : Db) {r : OrderView × Db}
    → create_new env user event_id input db ≡ ok r
    → Claims env user input.quantity db r.1
unfolding create_new
create_new-Claims env user event_id input db h =
    let (a, e, k) =
      bind-eq-ok (map_err (λ _. ticket_gone) (inspect_type env input.ticket_type_id) db) _ h in
    let (b, e', k') = bind-eq-ok (check_type a.0.0 a.0.1 event_id input.quantity a.1) _ k in
    let (c, e'', k'') =
      bind-eq-ok (check_attendee_capacity env event_id (pos_part input.quantity) b.1) _ k' in
    let (d, e3, k3) = bind-eq-ok (or_raise (env.org_of event_id) internal c.1) _ k'' in
    let o =
      new_order env user event_id a.0.0 (pos_part input.quantity)
        (trim_space input.idempotency_key) in
    let (f, e4, k4) = bind-eq-ok (claim env d.0 user o input.quantity d.1) _ k3 in
    let same : d.1 ≡ db = ground (
      arith,
      inspect_type-unchanged env input.ticket_type_id db
          (map_err-eq-ok (λ _. ticket_gone) (inspect_type env input.ticket_type_id) db e),
      check_type-unchanged a.0.0 a.0.1 event_id input.quantity a.1 e',
      check_attendee_capacity-unchanged env event_id (pos_part input.quantity) b.1 e'',
    ) in
    (
      d.0,
      o,
      f,
      ap (claim env d.0 user o input.quantity) (sym same) ∙ e4,
      sym (pure-eq-ok _ f.1 k4).1,
    )

replay_or-Claims :
    (env : Env) (user event_id : ℕ) (input : CreateInput) (existing : Option Order) (db : Db)
    {r : OrderView × Db}
    → replay_or existing (create_new env user event_id input) db ≡ ok r
    → (r.1 ≡ db) ⊎ Claims env user input.quantity db r.1
replay_or-Claims env user event_id input none db h =
    inr (create_new-Claims env user event_id input db h)
replay_or-Claims env user event_id input (some o) db h = inl (ground arith)

-- A claim that succeeds is a replay, which changes nothing, or one reservation with its order.
create_order-Claims :
    (env : Env) (user event_id : ℕ) (input : CreateInput) (db : Db) {r : OrderView × Db}
    → create_order env user event_id input db ≡ ok r
    → (r.1 ≡ db) ⊎ Claims env user input.quantity db r.1
unfolding create_order
create_order-Claims env user event_id input db {r = r} h =
    let key = trim_space input.idempotency_key in
    let (a, e, k) = bind-eq-ok (raise_if (not (is_positive input.quantity)) invalid_qty db) _ h in
    let (b, e', k') = bind-eq-ok (find_replay env user key (is_empty key) a.1) _ k in
    let same : b.1 ≡ db =
      ground (arith, find_replay-unchanged env user key (is_empty key) a.1 e') in
    replay_or-Claims env user event_id input b.0 db
      (ap (replay_or b.0 (create_new env user event_id input)) (sym same) ∙ k')

-- No claim oversells: if every type has sold at most its total, and every total fits its column, both
-- still hold after a claim that succeeds.
pub create_order-Stocked :
    (env : Env) (user event_id : ℕ) (input : CreateInput) (db : Db) {r : OrderView × Db}
    → create_order env user event_id input db ≡ ok r
    → Stocked db
    → Stocked r.1
create_order-Stocked env user event_id input db h stocked =
    elim (create_order-Claims env user event_id input db h) [
      | inl same ↦ rw same stocked
      | inr (org, o, c, made, last) ↦
          let (a, reserved, types) = claim-types env org user o input.quantity db made in
          rw (last, types)
            (reserve_tx-Stocked env o.ticket_type_id input.quantity db reserved stocked)
    ]

cancel_commit-types :
    (env : Env) (caller : ℕ) (o : Order) (org : ℕ) (db : Db) {r : OrderView × Db}
    → cancel_commit env caller o org db ≡ ok r
    → (a : Unit {0} × Db) × (release_tx env o.ticket_type_id (pos o.quantity) db ≡ ok a)
      × (r.1.types ≡ a.1.types)
unfolding cancel_commit
cancel_commit-types env caller o org db h =
    let (a, e, k) =
      bind-eq-ok (map_err morph_release_err (release_tx env o.ticket_type_id (pos o.quantity)) db) _
        h in
    let (b, e', k') =
      bind-eq-ok (map_err call_err (update_order_row env (record o { status = cancelled })) a.1) _
        k in
    (
      a,
      map_err-eq-ok morph_release_err (release_tx env o.ticket_type_id (pos o.quantity)) db e,
      ground (
        arith,
        update_order_row-eq-ok env (record o { status = cancelled }) a.1
            (map_err-eq-ok call_err (update_order_row env (record o { status = cancelled })) a.1
              e'),
      ),
    )

-- A cancellation that succeeds keeps what every type has sold at most its total, and the totals
-- within their column.
pub cancel_order-Stocked :
    (env : Env) (caller id : ℕ) (db : Db) {r : OrderView × Db}
    → cancel_order env caller id db ≡ ok r
    → Stocked db
    → Stocked r.1
unfolding cancel_order
cancel_order-Stocked env caller id db h stocked =
    let (plan, e, k) = bind-eq-ok (cancel_prepare env caller id db) _ h in
    let (same, found, live) = cancel_prepare-eq-ok env caller id db e in
    let (a, released, types) = cancel_commit-types env caller plan.0.0 plan.0.1 plan.1 k in
    rw types (
      release_tx-Stocked env plan.0.0.ticket_type_id (pos plan.0.0.quantity) plan.1 released
        (rw same stocked))
