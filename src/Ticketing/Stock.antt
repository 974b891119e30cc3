-- ===== src/Ticketing/Stock.antt =====
-- internal/ticketing/service/ticket_service.go: `ReserveTx` and `ReleaseTx` on the stock of a type.
use rallya.Common.{
  ltb, some_and, ℕ, zero, suc, ◌+◌, ◌-◌, ◌≤◌, ◌<◌, ◌≡◌, ◌∙◌, refl, ◌↔◌, inl, inr, false, ◌==◌, none,
  some, List, [], ◌∷◌, arith, ok, update_first, Option-cases, if◌then◌else◌,
}
use rallya.Common.Int.{ℤ, pos, negsuc, pos_part}
use rallya.Model.Ticket.{TicketType, active}
use rallya.Store.{Db, Env, lock_type, add_sold as call_add_sold}
use rallya.Ticketing.Rows.{has_id, find_type, set_sold}
use rallya.Ticketing.Inventory.{reserve_tx, release_tx}

-- The units that a type counts as sold; an unknown or deleted type counts none.
abbrev pub sold_of : ℕ → List TicketType → ℕ
sold_of id ts = elim (find_type id ts) [ none ↦ 0 | some t ↦ t.quantity_sold ]

-- Writing the sold count of one type changes that count and no other.
pub sold_of-set_sold :
    (id j q : ℕ) {t : TicketType} (ts : List TicketType)
    → find_type id ts ≡ some t
    → sold_of j (update_first (has_id id) (set_sold q) ts) ≡ (if id == j then q else sold_of j ts)
sold_of-set_sold id j q {t = t} [] h = cc
sold_of-set_sold id j q {t = t} (x ∷ ts) h = ground (arith, sold_of-set_sold id j q {t = t} ts)

-- What a successful reservation has checked and written.
pub reserve_tx-eq-ok :
    (env : Env) (id : ℕ) (n : ℤ) (db : Db) {r : Unit {0} × Db}
    → reserve_tx env id n db ≡ ok r
    → (t : TicketType) × (find_type id db.types ≡ some t)
      × (t.status ≡ active)
      × (0 < pos_part n)
      × (t.quantity_sold ≤ t.quantity_total
          → t.quantity_total < 2147483648
          → t.quantity_sold + pos_part n ≤ t.quantity_total)
      × (r.1 ≡ record db {
        types = update_first (has_id id) (set_sold (t.quantity_sold + pos_part n)) db.types;
      })
unfolding reserve_tx
reserve_tx-eq-ok env id (negsuc k) db h = cc
reserve_tx-eq-ok env id (pos n) db h = elim (Option-cases (find_type id db.types)) [
  | inl none_found ↦ ground arith
  | inr (t, e) ↦ (t, e, ground arith, ground arith, ground arith, ground arith)
]

-- What a successful release has checked and written.
pub release_tx-eq-ok :
    (env : Env) (id : ℕ) (n : ℤ) (db : Db) {r : Unit {0} × Db}
    → release_tx env id n db ≡ ok r
    → (t : TicketType) × (find_type id db.types ≡ some t)
      × (0 < pos_part n)
      × (pos_part n ≤ t.quantity_sold)
      × (r.1 ≡ record db {
        types = update_first (has_id id) (set_sold (t.quantity_sold - pos_part n)) db.types;
      })
unfolding release_tx
release_tx-eq-ok env id (negsuc k) db h = cc
release_tx-eq-ok env id (pos zero) db h = cc
release_tx-eq-ok env id (pos (suc k)) db h = elim (Option-cases (find_type id db.types)) [
  | inl none_found ↦ ground arith
  | inr (t, e) ↦ (t, e, ground arith, ground arith, ground arith)
]

-- The calls of a reservation succeed.
abbrev pub StockCalls : Env → Type 0
StockCalls env = (env.fault lock_type ≡ false) × (env.fault call_add_sold ≡ false)

-- The stated rules of a claim, in plain arithmetic.
abbrev pub Claimable : ℕ → TicketType → Type 0
Claimable m t =
    (0 < m)
    × (t.status ≡ active)
    × (some_and t.max_per_order (λ k. ltb k m) ≡ false)
    × (t.quantity_sold + m ≤ t.quantity_total)

-- A claim that meets the rules is granted, at once.
pub reserve_tx-granted :
    (env : Env) (id m : ℕ) (db : Db) {t : TicketType}
    → StockCalls env
    → find_type id db.types ≡ some t
    → t.quantity_total < 2147483648
    → Claimable m t
    → reserve_tx env id (pos m) db
      ≡ ok (
        tt,
        record db { types = update_first (has_id id) (set_sold (t.quantity_sold + m)) db.types },
      )
unfolding reserve_tx
reserve_tx-granted env id m db calls e fits rules = ground arith

-- If its database calls work, and the type is found with its sold count within a total that fits
-- the column, a reservation of m units is granted and adds m to the sold count exactly if m is
-- positive, the type is active, m is within the limit per order, and m more units are within the
-- total.
pub reserve_tx_iff :
    (env : Env) (id m : ℕ) (db : Db) (t : TicketType)
    → StockCalls env
    → find_type id db.types ≡ some t
    → t.quantity_total < 2147483648
    → t.quantity_sold ≤ t.quantity_total
    → (reserve_tx env id (pos m) db
        ≡ ok (
          tt,
          record db { types = update_first (has_id id) (set_sold (t.quantity_sold + m)) db.types },
        ))
      ↔ Claimable m t
unfolding reserve_tx
reserve_tx_iff env id m db t calls e fits within = (
  λ h. (ground arith, ground arith, ground arith, ground arith),
  λ rules. reserve_tx-granted env id m db calls e fits rules,
)

pub release_tx-granted :
    (env : Env) (id m : ℕ) (db : Db) {t : TicketType}
    → StockCalls env
    → find_type id db.types ≡ some t
    → 0 < m
    → m ≤ t.quantity_sold
    → release_tx env id (pos m) db
      ≡ ok (
        tt,
        record db { types = update_first (has_id id) (set_sold (t.quantity_sold - m)) db.types },
      )
unfolding release_tx
release_tx-granted env id zero db calls e p q = absurd (omega arith)
release_tx-granted env id (suc k) db calls e p q = ground arith

pub find_type-set_sold :
    (id q : ℕ) {t : TicketType} (ts : List TicketType)
    → find_type id ts ≡ some t
    → find_type id (update_first (has_id id) (set_sold q) ts) ≡ some (set_sold q t)
find_type-set_sold id q {t = t} [] h = cc
find_type-set_sold id q {t = t} (x ∷ ts) h = ground (arith, find_type-set_sold id q {t = t} ts)

set_sold_again :
    (id q : ℕ) {t : TicketType} (ts : List TicketType)
    → find_type id ts ≡ some t
    → update_first (has_id id) (set_sold t.quantity_sold) (update_first (has_id id) (set_sold q) ts)
      ≡ ts
set_sold_again id q {t = t} [] h = refl
set_sold_again id q {t = t} (x ∷ ts) h = ground (arith, set_sold_again id q {t = t} ts)

release_after :
    (env : Env) (id m : ℕ) (db : Db) {t : TicketType}
    → StockCalls env
    → find_type id db.types ≡ some t
    → 0 < m
    → release_tx env id
        (pos m)
        (record db { types = update_first (has_id id) (set_sold (t.quantity_sold + m)) db.types })
      ≡ ok (tt, db)
release_after env id m db {t = t} calls e p =
    let ts = update_first (has_id id) (set_sold (t.quantity_sold + m)) db.types in
    let back : t.quantity_sold + m - m ≡ t.quantity_sold = omega arith in
    release_tx-granted env id m (record db { types = ts }) calls
      (find_type-set_sold id (t.quantity_sold + m) db.types e) p (omega arith)
    ∙ rw (back, set_sold_again id (t.quantity_sold + m) db.types e)

-- After a reservation that succeeded, releasing the same quantity succeeds and leaves the database
-- as it was before, if the release's database calls work.
pub release_tx-reserve_tx :
    (env : Env) (id : ℕ) (n : ℤ) (db : Db) {r : Unit {0} × Db}
    → StockCalls env
    → reserve_tx env id n db ≡ ok r
    → release_tx env id n r.1 ≡ ok (tt, db)
release_tx-reserve_tx env id (negsuc k) db calls h =
    absurd (omega (arith, (reserve_tx-eq-ok env id (negsuc k) db h).3))
release_tx-reserve_tx env id (pos m) db calls h =
    let (t, found, on, positive, fits, written) = reserve_tx-eq-ok env id (pos m) db h in
    rw written (release_after env id m db calls found positive)
