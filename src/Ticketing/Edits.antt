-- ===== src/Ticketing/Edits.antt =====
-- internal/ticketing/service/ticket_service.go: sold counts against totals, over `UpdateType`.
use rallya.Common.{
  ℕ, ◌≤◌, ◌≡◌, sym, ap, ◌∙◌, String, false, not, Option, none, some, arith, ok, bind-eq-ok, map_err,
  map_err-eq-ok, raise_if, raise_if-eq-ok, or_raise, or_raise-eq-ok, pure-eq-ok, is_empty,
  trim_space, codes, some_and, All-find, All-update_first, Option-cases, inl, inr, update_first,
}
use mathlib.Core.Option.{map as map_option}
use rallya.Common.Int.{ℤ, pos, pos_part, is_negative, is_positive, lt_bound}
use rallya.Model.Ticket.{TicketType}
use rallya.Store.{Db, Env}
use rallya.Ticketing.Types.{
  TicketView, call_err, event_unresolved, invalid_name, invalid_price, invalid_qty, invalid_window,
  has_sales, ticket_not_found,
}
use rallya.Ticketing.Rows.{has_id, find_type, update_type_row}
use rallya.Ticketing.Admin.{
  UpdateInput, update_type, edited, check_update, check_window, check_event_headroom, given,
  resolve_type, bad_window,
}
use rallya.Ticketing.Bounds.{InStock, Stocked, update_type_row-eq-ok, check_event_headroom-eq-ok}

total_covers :
    (total : Option ℤ) (t : TicketType)
    → some_and total (λ q. lt_bound q t.quantity_sold) ≡ false
    → t.quantity_sold ≤ t.quantity_total
    → t.quantity_sold ≤ given (map_option pos_part total) t.quantity_total
total_covers none t h within = within
total_covers (some (pos q)) t h within = ground arith
total_covers (some (ℤ.negsuc q)) t h within = absurd (ground arith)

check_update-eq-ok :
    (input : UpdateInput) (t : TicketType) (db : Db) {r : Unit {0} × Db}
    → check_update input t db ≡ ok r
    → (db ≡ r.1)
      × (t.quantity_sold ≤ t.quantity_total
          → t.quantity_sold ≤ given (map_option pos_part input.quantity_total) t.quantity_total)
check_update-eq-ok input t db h =
    let (a1, e1, k1) =
      bind-eq-ok (raise_if (some_and input.name (λ n. is_empty (trim_space n))) invalid_name db) _
        h in
    let (a2, e2, k2) =
      bind-eq-ok (raise_if (some_and input.price_cents is_negative) invalid_price a1.1) _ k1 in
    let (a3, e3, k3) =
      bind-eq-ok
        (raise_if (some_and input.quantity_total (λ q. not (is_positive q))) invalid_qty a2.1) _
        k2 in
    let (a4, e4, k4) =
      bind-eq-ok
        (raise_if (some_and input.quantity_total (λ q. lt_bound q t.quantity_sold)) has_sales a3.1)
        _ k3 in
    (
      (raise_if-eq-ok (some_and input.name (λ n. is_empty (trim_space n))) invalid_name db e1).1
          ∙ (raise_if-eq-ok (some_and input.price_cents is_negative) invalid_price a1.1 e2).1
          ∙ (raise_if-eq-ok (some_and input.quantity_total (λ q. not (is_positive q))) invalid_qty
              a2.1 e3).1
          ∙ (raise_if-eq-ok (some_and input.quantity_total (λ q. lt_bound q t.quantity_sold))
              has_sales a3.1 e4).1
          ∙ (raise_if-eq-ok (some_and input.max_per_order (λ m. not (is_positive m))) invalid_qty
              a4.1 k4).1,
      total_covers input.quantity_total t
          (raise_if-eq-ok (some_and input.quantity_total (λ q. lt_bound q t.quantity_sold))
            has_sales a3.1 e4).0,
    )

resolve_type-eq-ok :
    (env : Env) (event_id : ℕ) (ref : String) (db : Db) {r : TicketType × Db}
    → resolve_type env event_id ref db ≡ ok r
    → (db ≡ r.1) × (id : ℕ) × (find_type id db.types ≡ some r.0)
unfolding resolve_type
resolve_type-eq-ok env event_id ref db {r = r} h =
    let (a, e, k) =
      bind-eq-ok (or_raise (env.parse_uuid (codes (trim_space ref))) ticket_not_found db) _ h in
    elim (Option-cases (find_type a.0 db.types)) [
      | inl missing ↦ absurd (ground arith)
      | inr (t, found) ↦ (ground arith, a.0, ground arith)
    ]

-- If every type has sold at most its total, and every total fits its column, both still hold after
-- an update of a type that succeeds.
pub update_type-Stocked :
    (env : Env) (caller : Option ℕ) (org_ref event_ref ref : String) (input : UpdateInput) (db : Db)
    {r : TicketView × Db}
    → update_type env caller org_ref event_ref ref input db ≡ ok r
    → Stocked db
    → Stocked r.1
unfolding update_type
update_type-Stocked env caller org_ref event_ref ref input db {r = r} h stocked =
    let (ev, e0, k0) =
      bind-eq-ok (or_raise (env.get_event caller org_ref event_ref) event_unresolved db) _ h in
    let (t, e1, k1) = bind-eq-ok (resolve_type env ev.0.event_id ref ev.1) _ k0 in
    let (a2, e2, k2) = bind-eq-ok (check_update input t.0 t.1) _ k1 in
    let u = edited env input t.0 in
    let (a3, e3, k3) = bind-eq-ok (check_window u.sale_starts_at u.sale_ends_at a2.1) _ k2 in
    let (a4, e4, k4) =
      bind-eq-ok (check_event_headroom env ev.0 u.quantity_total (some t.0.id) a3.1) _ k3 in
    let (a5, e5, k5) = bind-eq-ok (map_err call_err (update_type_row env u) a4.1) _ k4 in
    let (unread, id, found) = resolve_type-eq-ok env ev.0.event_id ref ev.1 e1 in
    let known = or_raise-eq-ok (env.get_event caller org_ref event_ref) event_unresolved db e0 in
    let (unchanged, covers) = check_update-eq-ok input t.0 t.1 e2 in
    let window =
      raise_if-eq-ok (bad_window u.sale_starts_at u.sale_ends_at) invalid_window a2.1 e3 in
    let room = check_event_headroom-eq-ok env ev.0 u.quantity_total (some t.0.id) a3.1 e4 in
    let wrote =
      update_type_row-eq-ok env u a4.1 (map_err-eq-ok call_err (update_type_row env u) a4.1 e5) in
    let before : db ≡ a4.1 = known.1 ∙ unread ∙ unchanged ∙ window.1 ∙ room.0 in
    let (within, column) =
      All-find InStock (has_id id) {a = t.0} ev.1.types (rw known.1 at stocked) found in
    let types : r.1.types ≡ update_first (has_id u.id) (λ _. u) db.types =
      ap (λ x. x.types) (sym (pure-eq-ok _ a5.1 k5).1)
      ∙ wrote.0
      ∙ ap (λ x. update_first (has_id u.id) (λ _. u) x.types) (sym before) in
    rw types (
      All-update_first InStock (has_id u.id) (λ _. u) db.types
        (λ x here old. (covers within, wrote.1)) stocked)
