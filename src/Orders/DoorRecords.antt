-- ===== src/Orders/DoorRecords.antt =====
-- internal/order/service/order_service.go: the order operations and the door records of their units.
use rallya.Common.{
  ℕ, ◌<◌, ◌≡◌, sym, ap, ◌∙◌, String, true, some, List, arith, ok, map_err, map_err-eq-ok,
  bind-eq-ok, or_raise,
}
use rallya.Common.Int.{ℤ, pos}
use rallya.Model.Order.{Order, is_confirmed}
use rallya.Store.{Db, Env, emit_tx}
use rallya.Attendees.Types.{Minted}
use rallya.Attendees.Mint.{Buyer, mint_for_order}
use rallya.Attendees.Twice.{has_unit, mint_units-has}
use rallya.Ticketing.Inventory.{reserve_tx, release_tx}
use rallya.Ticketing.Stock.{release_tx-eq-ok}
use rallya.Orders.Types.{
  OrderView, call_err, morph_reserve_err, morph_release_err, internal, order_entry,
}
use rallya.Orders.Rows.{create_order_row, update_order_row}
use rallya.Orders.Create.{
  mint_tx, mint_wired, enqueue_confirmation, confirm_now, claim, any_attendee_err, buyer_name,
}
use rallya.Orders.Payment.{mark_paid}
use rallya.Orders.ChangeBooks.{cancel_prepare-eq-ok}
use rallya.Orders.Cancel.{cancel_order, cancel_prepare, cancel_commit}

mint_wired-has :
    (env : Env) (o : Order) (user j : ℕ) (db : Db) {r : List Minted × Db}
    → mint_wired env o user true db ≡ ok r
    → j < o.quantity
    → has_unit o.id r.1 j ≡ true
unfolding mint_for_order
mint_wired-has env o user j db h low =
    let (u, e, k) = bind-eq-ok (or_raise (env.get_user user) internal db) _ h in
    let b : Buyer = record {
      order_id = o.id;
      user_id = user;
      event_id = o.event_id;
      email = u.0.email;
      name = buyer_name u.0;
    } in
    mint_units-has env b 0 o.quantity j u.1
      (map_err-eq-ok any_attendee_err (mint_for_order env b o.quantity) u.1 k) (omega arith)
      (omega arith)

enqueue_confirmation-attendees :
    (env : Env) (o : Order) (user : ℕ) (minted : List Minted) (db : Db) {r : Unit {0} × Db}
    → enqueue_confirmation env o user minted db ≡ ok r
    → r.1.attendees ≡ db.attendees
unfolding enqueue_confirmation
enqueue_confirmation-attendees env o user minted db h = ground arith

emit_tx-attendees :
    (env : Env) (org user : ℕ) (action : String) (id : ℕ) (db : Db) {r : Unit {0} × Db}
    → emit_tx env internal (order_entry org (some user) action id) db ≡ ok r
    → r.1.attendees ≡ db.attendees
emit_tx-attendees env org user action id db h = ground arith

confirm_now-has :
    (env : Env) (org user : ℕ) (o : Order) (j : ℕ) (db : Db) {r : Unit {0} × Db}
    → env.minter_wired ≡ true
    → confirm_now env org user o true db ≡ ok r
    → j < o.quantity
    → has_unit o.id r.1 j ≡ true
unfolding mint_tx
confirm_now-has env org user o j db {r = r} wired h low =
    let (minted, e, k) = bind-eq-ok (mint_tx env o user db) _ h in
    let (sent, e', k') = bind-eq-ok (enqueue_confirmation env o user minted.0 minted.1) _ k in
    let made : mint_wired env o user true db ≡ ok minted =
      ap (λ w. mint_wired env o user w db) (sym wired) ∙ e in
    let has = mint_wired-has env o user j db {r = minted} made low in
    let same : r.1.attendees ≡ minted.1.attendees =
      emit_tx-attendees env org user "order.confirmed" o.id sent.1 k'
      ∙ enqueue_confirmation-attendees env o user minted.0 minted.1 e' in
    rw same has

-- The transaction of a claim on an order that is confirmed at once leaves a door record for each
-- of the order's units, if it succeeds and a minter is wired.
pub claim-has_units :
    (env : Env) (org user : ℕ) (o : Order) (n : ℤ) (j : ℕ) (db : Db) {r : Unit {0} × Db}
    → env.minter_wired ≡ true
    → is_confirmed o.status ≡ true
    → claim env org user o n db ≡ ok r
    → j < o.quantity
    → has_unit o.id r.1 j ≡ true
unfolding claim
claim-has_units env org user o n j db {r = r} wired free h low =
    let (a, e, k) =
      bind-eq-ok (map_err morph_reserve_err (reserve_tx env o.ticket_type_id n) db) _ h in
    let (b, e', k') = bind-eq-ok (map_err call_err (create_order_row env o) a.1) _ k in
    let (c, e'', k'') =
      bind-eq-ok (emit_tx env internal (order_entry org (some user) "order.created" o.id) b.1) _
        k' in
    let confirmed : confirm_now env org user o true c.1 ≡ ok r =
      ap (λ x. confirm_now env org user o x c.1) (sym free) ∙ k'' in
    confirm_now-has env org user o j c.1 {r = r} wired confirmed low

-- Marking an order paid, if it succeeds, makes no door record and queues no mail.
pub mark_paid-mints_nothing :
    (env : Env) (id : ℕ) (session intent : String) (db : Db) {r : OrderView × Db}
    → mark_paid env id session intent db ≡ ok r
    → (r.1.attendees ≡ db.attendees) × (r.1.emails ≡ db.emails)
unfolding mark_paid
mark_paid-mints_nothing env id session intent db h = (ground arith, ground arith)

release_tx-attendees :
    (env : Env) (id : ℕ) (n : ℤ) (db : Db) {r : Unit {0} × Db}
    → release_tx env id n db ≡ ok r
    → r.1.attendees ≡ db.attendees
release_tx-attendees env id n db h =
    let (t, found, positive, fits, written) = release_tx-eq-ok env id n db h in
    ap (λ x. x.attendees) written

-- Cancelling an order, if it succeeds, leaves every attendee as it is: the order's door records
-- are not cancelled.
pub cancel_order-keeps_attendees :
    (env : Env) (caller id : ℕ) (db : Db) {r : OrderView × Db}
    → cancel_order env caller id db ≡ ok r
    → r.1.attendees ≡ db.attendees
unfolding cancel_order cancel_commit update_order_row
cancel_order-keeps_attendees env caller id db {r = r} h =
    let (plan, e, k) = bind-eq-ok (cancel_prepare env caller id db) _ h in
    let (same, found, live) = cancel_prepare-eq-ok env caller id db e in
    let o = plan.0.0 in
    let (a, e', k') =
      bind-eq-ok
        (map_err morph_release_err (release_tx env o.ticket_type_id (pos o.quantity)) plan.1) _ k in
    let kept = release_tx-attendees env o.ticket_type_id (pos o.quantity) plan.1 (
      map_err-eq-ok morph_release_err (release_tx env o.ticket_type_id (pos o.quantity)) plan.1
        e') in
    let rest : r.1.attendees ≡ a.1.attendees = ground arith in
    rest ∙ kept ∙ ap (λ x. x.attendees) same
