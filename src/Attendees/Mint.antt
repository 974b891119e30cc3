-- ===== src/Attendees/Mint.antt =====
-- internal/attendee/service/attendee_service.go: `MintForOrder` and `CancelForOrder`.
use rallya.Common.{
  ℕ, zero, suc, ◌+◌, String, Bytes, Bool, true, false, none, some, List, [], ◌∷◌, ◌++◌, Tx, ◌>>=◌,
  ◌>>◌, map_err, or_raise, pure, trim_space, is_empty, if◌then◌else◌,
}
use rallya.Model.Attendee.{Attendee, registered}
use rallya.Store.{Db, Env}
use rallya.Attendees.Types.{AttendeeError, Minted, call_err, internal}
use rallya.Attendees.Rows.{exists_for_order, create_attendee, cancel_for_order as cancel_rows}

-- The buyer's data that each unit of an order carries.
pub record Buyer : Type 0 where
  pub order_id : ℕ
  pub user_id : ℕ
  pub event_id : ℕ
  pub email : String
  pub name : String

abbrev pub unit_row : Env → Buyer → ℕ → Bytes → Attendee
unit_row env b unit token = record {
  id = env.unit_id unit;
  order_id = some b.order_id;
  unit_index = unit;
  event_id = b.event_id;
  user_id = some b.user_id;
  email = b.email;
  name = if is_empty (trim_space b.name) then none else some b.name;
  token_hash = env.hash_token token;
  status = registered;
  checked_in_at = none;
}

-- The loop's body for a unit that has no row yet.
unfoldable pub mint_unit : Env → Buyer → ℕ → Tx Db AttendeeError (List Minted)
unfolding create_attendee
mint_unit env b unit = do
  token ← or_raise (env.token unit) internal
  map_err call_err (create_attendee env (unit_row env b unit token))
  pure (record { id = env.unit_id unit; qr_token = token } ∷ [])

abbrev pub unless_exists :
    Bool → Tx Db AttendeeError (List Minted) → Tx Db AttendeeError (List Minted)
unless_exists true m = pure []
unless_exists false m = m

-- The loop over the units from `unit` on, with the number of units left.
unfoldable pub mint_units : Env → Buyer → ℕ → ℕ → Tx Db AttendeeError (List Minted)
mint_units env b unit zero = pure []
mint_units env b unit (suc left) = do
  exists ← map_err call_err (exists_for_order env b.order_id unit)
  minted ← unless_exists exists (mint_unit env b unit)
  rest ← mint_units env b (unit + 1) left
  pure (minted ++ rest)

-- `MintForOrder`
unfoldable pub mint_for_order : Env → Buyer → ℕ → Tx Db AttendeeError (List Minted)
unfolding mint_units mint_unit exists_for_order
mint_for_order env b quantity = mint_units env b 0 quantity

-- `CancelForOrder`
unfoldable pub cancel_for_order : Env → ℕ → Tx Db AttendeeError (Unit {0})
unfolding cancel_rows
cancel_for_order env order = map_err call_err (cancel_rows env order)
