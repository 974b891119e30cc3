-- ===== src/Ticketing/Races.antt =====
-- `UpdateType` and `setStatus` read a type, and write the whole row back later, without the row lock
-- that a reservation takes. Here a reservation falls between the read and the write.
use rallya.Common.{ℕ, ◌+◌, ◌<◌, ◌≡◌, ap, sym, ◌∙◌, some, List, [], ◌∷◌, arith, ok, update_first}
use rallya.Common.Int.{ℤ, pos_part}
use rallya.Model.Ticket.{TicketType}
use rallya.Store.{Db, Env}
use rallya.Ticketing.Rows.{find_type, has_id, set_sold, update_type_row}
use rallya.Ticketing.Inventory.{reserve_tx}
use rallya.Ticketing.Admin.{UpdateInput, edited}
use rallya.Ticketing.Stock.{sold_of, reserve_tx-eq-ok, find_type-set_sold}
use rallya.Ticketing.Bounds.{update_type_row-eq-ok}

sold_of-overwritten :
    (id : ℕ) (u : TicketType) {t : TicketType} (ts : List TicketType)
    → u.id ≡ id
    → u.deleted ≡ t.deleted
    → find_type id ts ≡ some t
    → sold_of id (update_first (has_id id) (λ _. u) ts) ≡ u.quantity_sold
sold_of-overwritten id u {t = t} [] own kept h = cc
sold_of-overwritten id u {t = t} (x ∷ ts) own kept h =
    ground (arith, sold_of-overwritten id u {t = t} ts)

find_type-id :
    (id : ℕ) {t : TicketType} (ts : List TicketType) → find_type id ts ≡ some t → t.id ≡ id
find_type-id id {t = t} [] h = cc
find_type-id id {t = t} (x ∷ ts) h = ground (arith, find_type-id id {t = t} ts)

-- A reservation that commits between an edit's read of the type and its write raises the sold count,
-- and the write sets it back to the count that the edit had read: the units of the reservation are
-- for sale again.
pub stale_edit-loses_sale :
    (env env' : Env) (id : ℕ) (n : ℤ) (input : UpdateInput) (db : Db) {t : TicketType}
    {r r' : Unit {0} × Db}
    → find_type id db.types ≡ some t
    → reserve_tx env id n db ≡ ok r
    → update_type_row env' (edited env' input t) r.1 ≡ ok r'
    → (t.quantity_sold < sold_of id r.1.types) × (sold_of id r'.1.types ≡ t.quantity_sold)
stale_edit-loses_sale env env' id n input db {t = t} {r = r} found h h' =
    let (t', found', on, positive, fits, written) = reserve_tx-eq-ok env id n db h in
    let same : t' ≡ t = cc in
    let raised = t'.quantity_sold + pos_part n in
    let own = find_type-id id {t = t} db.types found in
    let now = find_type-set_sold id raised {t = t'} db.types found' in
    let wrote = update_type_row-eq-ok env' (edited env' input t) r.1 h' in
    let stock : sold_of id r.1.types ≡ raised = ground (arith, now) in
    (
      ground arith,
      ap (sold_of id) wrote.0
          ∙ ap (λ x. sold_of id (update_first (has_id x) (λ _. edited env' input t) r.1.types)) own
          ∙ sold_of-overwritten id (edited env' input t) {t = set_sold raised t'} r.1.types own
              (ap (λ x. x.deleted) (sym same)) (ap (λ x. find_type id x.types) written ∙ now),
    )
