-- ===== src/Orders/CreateBooks.antt =====
-- internal/order/service/order_service.go: the books over `CreateOrder`.
use rallya.Common.{
  ℕ, ◌+◌, ◌≡◌, refl, String, Bool, true, false, not, Option, none, some, List, [], ◌∷◌, arith, ok,
  map_err, or_raise, raise_if, sum_of-append, map_err-eq-ok, bind-eq-ok, is_empty, trim_space,
}
use rallya.Common.Int.{ℤ, pos_part, is_positive}
use rallya.Model.Order.{Order, is_confirmed}
use rallya.Store.{Db, Env, emit_tx}
use rallya.Attendees.Types.{Minted}
use rallya.Attendees.Mint.{mint_for_order, Buyer}
use rallya.Attendees.Frame.{mint_units-OnlyAttendees}
use rallya.Ticketing.Types.{TicketView}
use rallya.Ticketing.Inventory.{reserve_tx, inspect_type}
use rallya.Orders.Types.{
  OrderView, call_err, morph_reserve_err, internal, order_entry, ticket_gone, invalid_qty,
}
use rallya.Orders.Rows.{create_order_row, get_order_by_idempotency}
use rallya.Orders.Create.{
  CreateInput, mint_wired, mint_tx, enqueue_confirmation, confirm_now, claim, new_order, create_new,
  create_order, check_type, check_attendee_capacity, find_replay, replay_or, any_attendee_err,
  buyer_name,
}
use rallya.Orders.Accounts.{is_live, weight, held, Balanced, reserve_tx-sold}

-- The ticket types and the orders are the same.
abbrev pub SameStock : Db → Db → Type 0
SameStock db db' = (db'.types ≡ db.types) × (db'.orders ≡ db.orders)

mint_wired-SameStock :
    (env : Env) (o : Order) (user : ℕ) (wired : Bool) (db : Db) {r : List Minted × Db}
    → mint_wired env o user wired db ≡ ok r
    → SameStock db r.1
unfolding mint_for_order
mint_wired-SameStock env o user false db h = ground arith
mint_wired-SameStock env o user true db h =
    let (u, e, k) = bind-eq-ok (or_raise (env.get_user user) internal db) _ h in
    let b : Buyer = record {
      order_id = o.id;
      user_id = user;
      event_id = o.event_id;
      email = u.0.email;
      name = buyer_name u.0;
    } in
    let m = map_err-eq-ok any_attendee_err (mint_for_order env b o.quantity) u.1 k in
    let f = mint_units-OnlyAttendees env b 0 o.quantity u.1 m in ground arith

enqueue_confirmation-SameStock :
    (env : Env) (o : Order) (user : ℕ) (minted : List Minted) (db : Db) {r : Unit {0} × Db}
    → enqueue_confirmation env o user minted db ≡ ok r
    → SameStock db r.1
unfolding enqueue_confirmation
enqueue_confirmation-SameStock env o user minted db h = ground arith

pub emit_tx-SameStock :
    (env : Env) (org user : ℕ) (action : String) (id : ℕ) (db : Db) {r : Unit {0} × Db}
    → emit_tx env internal (order_entry org (some user) action id) db ≡ ok r
    → SameStock db r.1
emit_tx-SameStock env org user action id db h = ground arith

pub confirm_now-SameStock :
    (env : Env) (org user : ℕ) (o : Order) (free : Bool) (db : Db) {r : Unit {0} × Db}
    → confirm_now env org user o free db ≡ ok r
    → SameStock db r.1
unfolding mint_tx
confirm_now-SameStock env org user o false db h = ground arith
confirm_now-SameStock env org user o true db h =
    let (minted, e, k) = bind-eq-ok (mint_tx env o user db) _ h in
    let (sent, e', k') = bind-eq-ok (enqueue_confirmation env o user minted.0 minted.1) _ k in
    ground (
      arith,
      mint_wired-SameStock env o user env.minter_wired db e,
      enqueue_confirmation-SameStock env o user minted.0 minted.1 e',
      emit_tx-SameStock env org user "order.confirmed" o.id sent.1 k',
    )

pub create_order_row-eq-ok :
    (env : Env) (o : Order) (id : ℕ) (db : Db) {r : Unit {0} × Db}
    → create_order_row env o db ≡ ok r
    → (r.1.types ≡ db.types) × (held id r.1.orders ≡ held id db.orders + weight id o)
unfolding create_order_row
create_order_row-eq-ok env o id db h = ground (arith, sum_of-append (weight id) db.orders (o ∷ []))

pub claim-Balanced :
    (env : Env) (org user : ℕ) (o : Order) (n : ℤ) (db : Db) {r : Unit {0} × Db}
    → o.quantity ≡ pos_part n
    → is_live o.status ≡ true
    → claim env org user o n db ≡ ok r
    → Balanced db
    → Balanced r.1
unfolding claim
claim-Balanced env org user o n db q live h balanced id =
    let (a, e, k) =
      bind-eq-ok (map_err morph_reserve_err (reserve_tx env o.ticket_type_id n) db) _ h in
    let (b, e', k') = bind-eq-ok (map_err call_err (create_order_row env o) a.1) _ k in
    let (c, e'', k'') =
      bind-eq-ok (emit_tx env internal (order_entry org (some user) "order.created" o.id) b.1) _
        k' in
    ground (
      arith,
      balanced id,
      reserve_tx-sold env o.ticket_type_id id n db
          (map_err-eq-ok morph_reserve_err (reserve_tx env o.ticket_type_id n) db e),
      create_order_row-eq-ok env o id a.1 (map_err-eq-ok call_err (create_order_row env o) a.1 e'),
      emit_tx-SameStock env org user "order.created" o.id b.1 e'',
      confirm_now-SameStock env org user o (is_confirmed o.status) c.1 k'',
    )

pub inspect_type-unchanged :
    (env : Env) (id : ℕ) (db : Db) {r : (TicketView × Bool) × Db}
    → inspect_type env id db ≡ ok r
    → r.1 ≡ db
unfolding inspect_type
inspect_type-unchanged env id db h = ground arith

pub check_type-unchanged :
    (t : TicketView) (published : Bool) (event_id : ℕ) (n : ℤ) (db : Db) {r : Unit {0} × Db}
    → check_type t published event_id n db ≡ ok r
    → r.1 ≡ db
check_type-unchanged t published event_id n db h = ground arith

pub check_attendee_capacity-unchanged :
    (env : Env) (event_id q : ℕ) (db : Db) {r : Unit {0} × Db}
    → check_attendee_capacity env event_id q db ≡ ok r
    → r.1 ≡ db
unfolding check_attendee_capacity
check_attendee_capacity-unchanged env event_id q db h = ground arith

pub find_replay-unchanged :
    (env : Env) (user : ℕ) (key : String) (blank : Bool) (db : Db) {r : Option Order × Db}
    → find_replay env user key blank db ≡ ok r
    → r.1 ≡ db
unfolding get_order_by_idempotency
find_replay-unchanged env user key true db h = ground arith
find_replay-unchanged env user key false db h = ground arith

new_order-live :
    (env : Env) (user event_id : ℕ) (t : TicketView) (q : ℕ) (key : String)
    → is_live (new_order env user event_id t q key).status ≡ true
new_order-live env user event_id t q key = ground arith

create_new-Balanced :
    (env : Env) (user event_id : ℕ) (input : CreateInput) (db : Db) {r : OrderView × Db}
    → create_new env user event_id input db ≡ ok r
    → Balanced db
    → Balanced r.1
unfolding create_new
create_new-Balanced env user event_id input db {r = r} h balanced =
    let (a, e, k) =
      bind-eq-ok (map_err (λ _. ticket_gone) (inspect_type env input.ticket_type_id) db) _ h in
    let (b, e', k') = bind-eq-ok (check_type a.0.0 a.0.1 event_id input.quantity a.1) _ k in
    let (c, e'', k'') =
      bind-eq-ok (check_attendee_capacity env event_id (pos_part input.quantity) b.1) _ k' in
    let (d, e3, k3) = bind-eq-ok (or_raise (env.org_of event_id) internal c.1) _ k'' in
    let o =
      new_order env user event_id a.0.0 (pos_part input.quantity)
        (trim_space input.idempotency_key) in
    let (f, e4, k4) = bind-eq-ok (claim env d.0 user o input.quantity d.1) _ k3 in
    let same : d.1 ≡ db = ground (
      arith,
      inspect_type-unchanged env input.ticket_type_id db
          (map_err-eq-ok (λ _. ticket_gone) (inspect_type env input.ticket_type_id) db e),
      check_type-unchanged a.0.0 a.0.1 event_id input.quantity a.1 e',
      check_attendee_capacity-unchanged env event_id (pos_part input.quantity) b.1 e'',
    ) in
    let after : Balanced f.1 =
      claim-Balanced env d.0 user o input.quantity d.1 refl
        (new_order-live env user event_id a.0.0 (pos_part input.quantity)
          (trim_space input.idempotency_key))
        e4 (rw same balanced) in
    let last : r.1 ≡ f.1 = ground arith in rw last after

replay_or-Balanced :
    (env : Env) (user event_id : ℕ) (input : CreateInput) (existing : Option Order) (db : Db)
    {r : OrderView × Db}
    → replay_or existing (create_new env user event_id input) db ≡ ok r
    → Balanced db
    → Balanced r.1
replay_or-Balanced env user event_id input none db h balanced =
    create_new-Balanced env user event_id input db h balanced
replay_or-Balanced env user event_id input (some o) db {r = r} h balanced =
    let same : r.1 ≡ db = ground arith in rw same balanced

-- If the sold count of every ticket type is what its live orders hold, it still is after a claim
-- that succeeds, be it a new order or a replay.
pub create_order-Balanced :
    (env : Env) (user event_id : ℕ) (input : CreateInput) (db : Db) {r : OrderView × Db}
    → create_order env user event_id input db ≡ ok r
    → Balanced db
    → Balanced r.1
unfolding create_order
create_order-Balanced env user event_id input db h balanced =
    let (a, e, k) = bind-eq-ok (raise_if (not (is_positive input.quantity)) invalid_qty db) _ h in
    let (b, e', k') =
      bind-eq-ok
        (find_replay env user (trim_space input.idempotency_key)
          (is_empty (trim_space input.idempotency_key)) a.1)
        _ k in
    let same : b.1 ≡ db = ground (
      arith,
      find_replay-unchanged env user (trim_space input.idempotency_key)
          (is_empty (trim_space input.idempotency_key)) a.1 e',
    ) in
    replay_or-Balanced env user event_id input b.0 b.1 k' (rw same balanced)
