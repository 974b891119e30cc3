-- ===== src/Kits/Handout.antt =====
-- internal/kit/service/kit_service.go: handing kits to attendees.
use rallya.Common.{
  ℕ, Bool, true, false, not, Option, none, some, List, map, String, str_eq, trim_space, codes,
  is_empty, leb, ◌==◌, Tx, ◌>>=◌, ◌>>◌, raise_if, or_raise, map_err, pure, raise, find,
  if◌then◌else◌,
}
use rallya.Model.Kit.{
  Kit, KitCollection, CollectionStatus, pending, collected, voided, is_pending, is_voided,
}
use rallya.Model.Attendee.{is_checked_in}
use rallya.Store.{Db, Env, emit_tx}
use rallya.Attendees.Door.{attendee_status_in_event}
use rallya.Kits.Types.{
  KitError, CollectionView, call_err, kit_err, attendee_err, collection_err, conflict_err,
  kit_not_found, collection_not_found, attendee_not_found, not_checked_in, quantity_exhausted,
  invalid_status, internal,
}
use rallya.Kits.Rows.{
  has_id, get_kit_row, count_active, find_by_idempotency, create_collection_row, get_collection_row,
  update_collection_row, list_collections, list_kits_by_event,
}
use rallya.Kits.Manage.{kit_entry, resolve_refs}

-- A new handout: a reservation, or one that is handed over at once.
abbrev pub new_collection : Env → ℕ → ℕ → ℕ → String → ℕ → Bool → KitCollection
new_collection env kit_id event_id attendee_id key staff reserve = record {
  id = env.new_id;
  kit_id = kit_id;
  event_id = event_id;
  attendee_id = attendee_id;
  idempotency_key = key;
  status = if reserve then pending else collected;
  collected_at = if reserve then none else some env.now;
  collected_by = if reserve then none else some staff;
}

abbrev pub collect_action : Bool → String
collect_action true = "kit.reserved"
collect_action false = "kit.collected"

-- The record minted under an idempotency key; an empty key looks for none.
abbrev pub replayed : Env → ℕ → ℕ → String → Tx Db KitError (Option KitCollection)
replayed env kit_id attendee_id key =
    if is_empty key
    then pure none
    else map_err call_err (find_by_idempotency env kit_id attendee_id key)

-- The rest of the transaction of `Collect`, given what the idempotency key found.
unfoldable pub hand_out :
    Env → ℕ → Kit → KitCollection → Bool → ℕ → Option KitCollection → Tx Db KitError CollectionView
unfolding count_active create_collection_row
hand_out env org k c reserve staff (some old) =
    pure (record { collection = old; kit_name = k.name })
hand_out env org k c reserve staff none = do
  active ← map_err call_err (count_active env k.id)
  raise_if (leb k.quantity_total active) quantity_exhausted
  map_err conflict_err (create_collection_row env c)
  emit_tx env internal (kit_entry org staff (collect_action reserve) "kit_collection" c.id)
  pure (record { collection = c; kit_name = k.name })

-- `Collect`
unfoldable pub collect :
    Env → ℕ → String → String → String → Bool → String → ℕ → Tx Db KitError CollectionView
unfolding get_kit_row find_by_idempotency hand_out attendee_status_in_event
collect env org event_ref kit_ref attendee_ref reserve key staff = do
  refs ← resolve_refs env org event_ref kit_ref
  attendee_id ← or_raise (env.parse_uuid (codes (trim_space attendee_ref))) attendee_not_found
  status ← map_err attendee_err (attendee_status_in_event env attendee_id refs.0)
  raise_if (not (is_checked_in status)) not_checked_in
  k ← map_err kit_err (get_kit_row env refs.1)
  raise_if (not (k.event_id == refs.0)) kit_not_found
  existing ← replayed env refs.1 attendee_id key
  hand_out env org k (new_collection env refs.1 refs.0 attendee_id key staff reserve) reserve staff
      existing

-- The row after a transition.
abbrev pub moved : Env → CollectionStatus → ℕ → KitCollection → KitCollection
moved env collected staff c = record c {
  status = collected;
  collected_at = some env.now;
  collected_by = some staff;
}
moved env to staff c = record c { status = to }

-- `transition`, with the statuses that it may start from as a test.
unfoldable pub transition :
    Env
    → ℕ
    → String
    → String
    → ℕ
    → CollectionStatus
    → String
    → (CollectionStatus → Bool)
    → Tx Db KitError CollectionView
unfolding get_collection_row update_collection_row get_kit_row
transition env org event_ref ref staff to action from = do
  event_id ← or_raise (env.resolve_event org event_ref) collection_not_found
  id ← or_raise (env.parse_uuid (codes (trim_space ref))) collection_not_found
  c ← map_err collection_err (get_collection_row env id)
  raise_if (not (c.event_id == event_id)) collection_not_found
  raise_if (not (from c.status)) invalid_status
  let u = moved env to staff c
  map_err call_err (update_collection_row env u)
  k ← map_err call_err (get_kit_row env u.kit_id)
  emit_tx env internal (kit_entry org staff action "kit_collection" u.id)
  pure (record { collection = u; kit_name = k.name })

-- `MarkCollected`
unfoldable pub mark_collected : Env → ℕ → String → String → ℕ → Tx Db KitError CollectionView
unfolding transition
mark_collected env org event_ref ref staff =
    transition env org event_ref ref staff collected "kit.collected" is_pending

-- `Void`
unfoldable pub void : Env → ℕ → String → String → ℕ → Tx Db KitError CollectionView
unfolding transition
void env org event_ref ref staff =
    transition env org event_ref ref staff voided "kit.voided" (λ st. not (is_voided st))

-- The name of a kit of the event, or the zero value.
abbrev pub name_in : List Kit → ℕ → String
name_in kits id = elim (find (has_id id) kits) [ none ↦ "" | some k ↦ k.name ]

-- `withNames`
unfoldable pub with_names : Env → ℕ → List KitCollection → Tx Db KitError (List CollectionView)
unfolding list_kits_by_event
with_names env event_id rows = do
  kits ← map_err call_err (list_kits_by_event env event_id)
  pure (map (λ c. record { collection = c; kit_name = name_in kits c.kit_id }) rows)

-- The status filter of a request: empty text is no filter.
abbrev pub parse_status : String → Tx Db KitError (Option CollectionStatus)
parse_status text =
    if is_empty text
    then pure none
    else if str_eq text "PENDING"
    then pure (some pending)
    else if str_eq text "COLLECTED"
    then pure (some collected)
    else if str_eq text "VOIDED"
    then pure (some voided)
    else raise invalid_status

-- `ListCollections`
unfoldable pub list_handouts :
    Env → ℕ → String → Option ℕ → Option ℕ → String → Tx Db KitError (List CollectionView × ℕ)
unfolding list_collections with_names
list_handouts env org event_ref kit_id attendee_id status_text = do
  event_id ← or_raise (env.resolve_event org event_ref) kit_not_found
  status ← parse_status status_text
  rows ← map_err call_err (
      list_collections env event_id
        (record { kit_id = kit_id; status = status; attendee_id = attendee_id }))
  views ← with_names env event_id rows.0
  pure (views, rows.1)

-- `AttendeeCollections`
unfoldable pub attendee_collections :
    Env → ℕ → String → String → Tx Db KitError (List CollectionView)
unfolding list_collections with_names
attendee_collections env org event_ref attendee_ref = do
  event_id ← or_raise (env.resolve_event org event_ref) attendee_not_found
  attendee_id ← or_raise (env.parse_uuid (codes (trim_space attendee_ref))) attendee_not_found
  rows ← map_err call_err (
      list_collections env event_id
        (record { kit_id = none; status = none; attendee_id = some attendee_id }))
  with_names env event_id rows.0
