-- ===== src/Ticketing/Bounds.antt =====
-- internal/ticketing/service/ticket_service.go: sold counts against totals, over `ReserveTx`,
-- `ReleaseTx` and `CreateType`.
use rallya.Common.{
  ℕ, ◌+◌, ◌-◌, ◌≤◌, ◌<◌, ◌≡◌, sym, ap, ◌∙◌, String, not, Option, none, some, [], ◌∷◌, ◌++◌, arith,
  ok, bind-eq-ok, map_err, map_err-eq-ok, raise_if, raise_if-eq-ok, or_raise, or_raise-eq-ok,
  pure-eq-ok, is_empty, trim_space, some_and, All, All-append, All-find, All-update_found,
  Option-cases, inl, inr, sum_of, sum_of-append, update_first,
}
use rallya.Common.Int.{ℤ, pos_part, is_negative, is_positive}
use rallya.Model.Ticket.{TicketType}
use rallya.Model.Audit.{Entry}
use rallya.Store.{Db, Env, EventInfo, emit_tx}
use rallya.Ticketing.Types.{
  TicketView, call_err, internal, event_unresolved, invalid_name, invalid_price, invalid_qty,
  invalid_window,
}
use rallya.Ticketing.Rows.{
  has_id, set_sold, create_type_row, update_type_row, allocated_total, allocation,
}
use rallya.Ticketing.Inventory.{reserve_tx, release_tx}
use rallya.Ticketing.Admin.{
  CreateInput, create_type, new_type, check_window, check_event_headroom, ticket_entry, bad_window,
}
use rallya.Ticketing.Stock.{reserve_tx-eq-ok, release_tx-eq-ok}

abbrev pub InStock : TicketType → Type 0
InStock t = (t.quantity_sold ≤ t.quantity_total) × (t.quantity_total < 2147483648)

abbrev pub Stocked : Db → Type 0
Stocked db = All InStock db.types

-- No oversell: if every type has sold at most its total, and every total fits its column, both
-- still hold after a reservation that succeeds, of whatever 64-bit quantity.
pub reserve_tx-Stocked :
    (env : Env) (id : ℕ) (n : ℤ) (db : Db) {r : Unit {0} × Db}
    → reserve_tx env id n db ≡ ok r
    → Stocked db
    → Stocked r.1
reserve_tx-Stocked env id n db h stocked =
    let (t, found, on, positive, fits, written) = reserve_tx-eq-ok env id n db h in
    let (within, column) = All-find InStock (has_id id) {a = t} db.types stocked found in
    rw written (
      All-update_found InStock (has_id id) (set_sold (t.quantity_sold + pos_part n)) {a = t}
        db.types found (fits within column, column) stocked)

-- If every type has sold at most its total, and every total fits its column, both still hold after
-- a release that succeeds.
pub release_tx-Stocked :
    (env : Env) (id : ℕ) (n : ℤ) (db : Db) {r : Unit {0} × Db}
    → release_tx env id n db ≡ ok r
    → Stocked db
    → Stocked r.1
release_tx-Stocked env id n db h stocked =
    let (t, found, positive, fits, written) = release_tx-eq-ok env id n db h in
    let (within, column) = All-find InStock (has_id id) {a = t} db.types stocked found in
    rw written (
      All-update_found InStock (has_id id) (set_sold (t.quantity_sold - pos_part n)) {a = t}
        db.types found (omega arith, column) stocked)

pub create_type_row-eq-ok :
    (env : Env) (t : TicketType) (db : Db) {r : Unit {0} × Db}
    → create_type_row env t db ≡ ok r
    → (r.1.types ≡ db.types ++ t ∷ []) × (t.quantity_total < 2147483648)
unfolding create_type_row
create_type_row-eq-ok env t db h = (ground arith, ground arith)

pub update_type_row-eq-ok :
    (env : Env) (t : TicketType) (db : Db) {r : Unit {0} × Db}
    → update_type_row env t db ≡ ok r
    → (r.1.types ≡ update_first (has_id t.id) (λ _. t) db.types) × (t.quantity_total < 2147483648)
unfolding update_type_row
update_type_row-eq-ok env t db h = (ground arith, ground arith)

pub emit_tx-types :
    (env : Env) (e : Entry) (db : Db) {r : Unit {0} × Db}
    → emit_tx env internal e db ≡ ok r
    → r.1.types ≡ db.types
emit_tx-types env e db h = ground arith

-- The headroom check writes nothing, and under a cap the sum fits it.
pub check_event_headroom-eq-ok :
    (env : Env) (ev : EventInfo) (qty : ℕ) (exclude : Option ℕ) (db : Db) {r : Unit {0} × Db}
    → check_event_headroom env ev qty exclude db ≡ ok r
    → (db ≡ r.1)
      × ((cap : ℕ)
          → ev.capacity ≡ some cap
          → sum_of (allocation ev.event_id exclude) db.types + qty < 9223372036854775808
          → sum_of (allocation ev.event_id exclude) db.types + qty ≤ cap)
unfolding check_event_headroom allocated_total
check_event_headroom-eq-ok env ev qty exclude db h = elim (Option-cases ev.capacity) [
  | inl uncapped ↦ (ground arith, λ cap e small. absurd (ground arith))
  | inr (c, capped) ↦ (ground arith, λ cap e small. ground arith)
]

-- What a creation that succeeds has checked and added.
pub create_type-eq-ok :
    (env : Env) (caller : Option ℕ) (org_ref event_ref : String) (input : CreateInput) (db : Db)
    {r : TicketView × Db}
    → create_type env caller org_ref event_ref input db ≡ ok r
    → (ev : EventInfo) × (env.get_event caller org_ref event_ref ≡ some ev)
      × (r.1.types ≡ db.types ++ new_type env ev input ∷ [])
      × (pos_part input.quantity_total < 2147483648)
      × ((cap : ℕ)
          → ev.capacity ≡ some cap
          → sum_of (allocation ev.event_id none) db.types + pos_part input.quantity_total
            < 9223372036854775808
          → sum_of (allocation ev.event_id none) db.types + pos_part input.quantity_total ≤ cap)
unfolding create_type
create_type-eq-ok env caller org_ref event_ref input db {r = r} h =
    let (ev, e0, k0) =
      bind-eq-ok (or_raise (env.get_event caller org_ref event_ref) event_unresolved db) _ h in
    let (a1, e1, k1) =
      bind-eq-ok (raise_if (is_empty (trim_space input.name)) invalid_name ev.1) _ k0 in
    let (a2, e2, k2) =
      bind-eq-ok (raise_if (is_negative input.price_cents) invalid_price a1.1) _ k1 in
    let (a3, e3, k3) =
      bind-eq-ok (raise_if (not (is_positive input.quantity_total)) invalid_qty a2.1) _ k2 in
    let (a4, e4, k4) =
      bind-eq-ok (check_window input.sale_starts_at input.sale_ends_at a3.1) _ k3 in
    let (a5, e5, k5) =
      bind-eq-ok
        (raise_if (some_and input.max_per_order (λ m. not (is_positive m))) invalid_qty a4.1) _
        k4 in
    let (a6, e6, k6) =
      bind-eq-ok (check_event_headroom env ev.0 (pos_part input.quantity_total) none a5.1) _ k5 in
    let (org, e7, k7) = bind-eq-ok (or_raise (env.org_of ev.0.event_id) internal a6.1) _ k6 in
    let (a8, e8, k8) =
      bind-eq-ok (map_err call_err (create_type_row env (new_type env ev.0 input)) org.1) _ k7 in
    let (a9, e9, k9) =
      bind-eq-ok (emit_tx env internal (ticket_entry org.0 caller "ticket.created" env.new_id) a8.1)
        _ k8 in
    let known = or_raise-eq-ok (env.get_event caller org_ref event_ref) event_unresolved db e0 in
    let room = check_event_headroom-eq-ok env ev.0 (pos_part input.quantity_total) none a5.1 e6 in
    let added =
      create_type_row-eq-ok env (new_type env ev.0 input) org.1
        (map_err-eq-ok call_err (create_type_row env (new_type env ev.0 input)) org.1 e8) in
    let start : db ≡ a5.1 =
      known.1
      ∙ (raise_if-eq-ok (is_empty (trim_space input.name)) invalid_name ev.1 e1).1
      ∙ (raise_if-eq-ok (is_negative input.price_cents) invalid_price a1.1 e2).1
      ∙ (raise_if-eq-ok (not (is_positive input.quantity_total)) invalid_qty a2.1 e3).1
      ∙ (raise_if-eq-ok (bad_window input.sale_starts_at input.sale_ends_at) invalid_window a3.1
          e4).1
      ∙ (raise_if-eq-ok (some_and input.max_per_order (λ m. not (is_positive m))) invalid_qty a4.1
          e5).1 in
    let before : db ≡ org.1 =
      start ∙ room.0 ∙ (or_raise-eq-ok (env.org_of ev.0.event_id) internal a6.1 e7).1 in
    (
      ev.0,
      known.0,
      ap (λ x. x.types) (sym (pure-eq-ok _ a9.1 k9).1)
          ∙ emit_tx-types env (ticket_entry org.0 caller "ticket.created" env.new_id) a8.1 e9
          ∙ added.0
          ∙ ap (λ x. x.types ++ new_type env ev.0 input ∷ []) (sym before),
      added.1,
      rw start room.1,
    )

-- If every type has sold at most its total, and every total fits its column, both still hold after
-- a type is created.
pub create_type-Stocked :
    (env : Env) (caller : Option ℕ) (org_ref event_ref : String) (input : CreateInput) (db : Db)
    {r : TicketView × Db}
    → create_type env caller org_ref event_ref input db ≡ ok r
    → Stocked db
    → Stocked r.1
create_type-Stocked env caller org_ref event_ref input db h stocked =
    let (ev, known, added, column, room) =
      create_type-eq-ok env caller org_ref event_ref input db h in
    rw added
      (All-append InStock db.types (new_type env ev input ∷ []) stocked ((omega arith, column), tt))

-- Creating a type that succeeds, under an event with a capacity, leaves the total allocated to the
-- event within that capacity, if what was allocated before is below 2^62.
pub create_type-headroom :
    (env : Env) (caller : Option ℕ) (org_ref event_ref : String) (input : CreateInput) (db : Db)
    {ev : EventInfo} {cap : ℕ} {r : TicketView × Db}
    → create_type env caller org_ref event_ref input db ≡ ok r
    → env.get_event caller org_ref event_ref ≡ some ev
    → ev.capacity ≡ some cap
    → sum_of (allocation ev.event_id none) db.types < 4611686018427387904
    → sum_of (allocation ev.event_id none) r.1.types ≤ cap
create_type-headroom env caller org_ref event_ref input db {ev = ev} {cap = cap} h known capped
      small =
    let (ev', known', added, column, room) =
      create_type-eq-ok env caller org_ref event_ref input db h in
    let same : ev' ≡ ev = cc in
    let total = sum_of-append (allocation ev.event_id none) db.types (new_type env ev input ∷ []) in
    let fits : sum_of (allocation ev.event_id none) db.types + pos_part input.quantity_total ≤ cap =
      (rw same at room) cap capped (omega arith) in
    rw (added, same) (ground arith)
