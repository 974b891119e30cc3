-- ===== src/Ticketing/Rows.antt =====
-- internal/ticketing/repository/ticket_repository.go: the queries on ticket_types. A deleted row is
-- kept with deleted_at set, and GORM leaves it out of every query.
use rallya.Common.{
  ℕ, suc, ◌+◌, ◌-◌, Bool, true, not, ◌&&◌, Option, none, some, some_and, List, [], ◌∷◌, ◌++◌, ltb,
  leb, ◌==◌, find, sum_of, update_first, Tx, ◌>>=◌, ◌>>◌, raise_if, or_raise, gets, modify, pure,
  is_some, if◌then◌else◌, filter,
}
use rallya.Common.Int.{ℤ, pos, negsuc}
use rallya.Model.Ticket.{TicketType, is_active}
use rallya.Store.{
  Db, DbError, Env, unique_violation, failed, first, call, get_type, lock_type,
  add_sold as call_add_sold, create_type as call_create_type, update_type as call_update_type,
  delete_type as call_delete_type, allocated_total as call_allocated_total,
}

-- The range of an INTEGER column that is not negative.
abbrev pub fits_column : ℕ → Bool
fits_column n = ltb n 2147483648

abbrev pub has_id : ℕ → TicketType → Bool
has_id id t = t.id == id && not t.deleted

abbrev pub find_type : ℕ → List TicketType → Option TicketType
find_type id = find (has_id id)

-- `GetTypeByID`
unfoldable pub get_type_by_id : Env → ℕ → Tx Db DbError TicketType
get_type_by_id env id = first env get_type (has_id id) (λ db. db.types)

-- `LockType`
unfoldable pub lock_type_row : Env → ℕ → Tx Db DbError TicketType
lock_type_row env id = first env lock_type (has_id id) (λ db. db.types)

-- quantity_sold + n in the column: the database refuses a value below 0 or out of range.
abbrev pub add_to_column : ℕ → ℤ → Option ℕ
add_to_column q (pos n) = if fits_column (q + n) then some (q + n) else none
add_to_column q (negsuc n) = if leb (suc n) q then some (q - suc n) else none

abbrev pub set_sold : ℕ → TicketType → TicketType
set_sold q t = record t { quantity_sold = q }

-- `AddSold`; an UPDATE of no row is no error.
unfoldable pub add_sold : Env → ℕ → ℤ → Tx Db DbError (Unit {0})
add_sold env id n = do
  call env call_add_sold
  row ← gets (λ db. find_type id db.types)
  elim row [
    | none ↦ pure tt
    | some t ↦ do
      q ← or_raise (add_to_column t.quantity_sold n) failed
      modify (λ db. record db { types = update_first (has_id id) (set_sold q) db.types })
  ]

abbrev row_fits : TicketType → Bool
row_fits t =
    fits_column t.price_cents
    && fits_column t.quantity_total
    && not (some_and t.max_per_order (λ m. not (fits_column m)))

-- `CreateType`; the identifier is a primary key, over deleted rows too.
unfoldable pub create_type_row : Env → TicketType → Tx Db DbError (Unit {0})
create_type_row env t = do
  call env call_create_type
  clash ← gets (λ db. find (λ u. u.id == t.id) db.types)
  raise_if (is_some clash) unique_violation
  raise_if (not (row_fits t)) failed
  modify (λ db. record db { types = db.types ++ t ∷ [] })

-- `UpdateType`: the row with this key is overwritten.
unfoldable pub update_type_row : Env → TicketType → Tx Db DbError (Unit {0})
update_type_row env t = do
  call env call_update_type
  raise_if (not (row_fits t)) failed
  modify (λ db. record db { types = update_first (has_id t.id) (λ _. t) db.types })

-- `DeleteType` sets deleted_at.
unfoldable pub delete_type_row : Env → ℕ → Tx Db DbError (Unit {0})
delete_type_row env id = do
  call env call_delete_type
  modify (λ db. record db {
    types = update_first (has_id id) (λ t. record t { deleted = true }) db.types;
  })

-- What a row adds to its event's allocation.
abbrev pub allocation : ℕ → Option ℕ → TicketType → ℕ
allocation event_id exclude t =
    if t.event_id == event_id && not t.deleted && not (some_and exclude (λ x. t.id == x))
    then t.quantity_total
    else 0

-- `AllocatedTotal`
unfoldable pub allocated_total : Env → ℕ → Option ℕ → Tx Db DbError ℕ
allocated_total env event_id exclude = do
  call env call_allocated_total
  gets (λ db. sum_of (allocation event_id exclude) db.types)

-- `ListTypesByEvent`
unfoldable pub list_types_by_event : ℕ → Bool → Db → List TicketType
list_types_by_event event_id include_drafts db =
    filter
      (λ t.
        t.event_id == event_id
        && not t.deleted
        && (if include_drafts then true else is_active t.status))
      db.types
