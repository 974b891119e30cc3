-- ===== src/Kits/Rows.antt =====
-- internal/kit/repository/kit_repository.go, with the unique indexes of
-- migrations/000021_kit.up.sql. Foreign keys other than the cascade of a deleted kit are left out:
-- the kit of a handout is locked, and attendees are never deleted.
use rallya.Common.{
  ℕ, String, str_eq, is_empty, Bool, not, ◌&&◌, ◌||◌, Option, some_and, List, [], ◌∷◌, ◌++◌, ltb,
  ◌==◌, find, filter, count, length, update_first, Tx, ◌>>=◌, ◌>>◌, raise_if, gets, modify, is_some,
  reverse,
}
use rallya.Model.Kit.{
  Kit, KitCollection, CollectionStatus, pending, collected, voided, is_voided, is_collected,
  is_pending,
}
use rallya.Store.{
  Db, DbError, Env, unique_violation, failed, first, call, get_kit as call_get_kit,
  create_kit as call_create_kit, update_kit as call_update_kit, delete_kit as call_delete_kit,
  list_kits as call_list_kits, count_active as call_count_active,
  count_collected as call_count_collected, counts_by_kit as call_counts_by_kit,
  find_by_idempotency as call_find_by_idempotency, create_collection as call_create_collection,
  get_collection as call_get_collection, update_collection as call_update_collection,
  list_collections as call_list_collections,
}

abbrev pub has_id : ℕ → Kit → Bool
has_id id k = k.id == id

abbrev pub is_row : ℕ → KitCollection → Bool
is_row id c = c.id == id

abbrev quantity_fits : Kit → Bool
quantity_fits k = ltb k.quantity_total 2147483648

-- `CreateKit`
unfoldable pub create_kit_row : Env → Kit → Tx Db DbError (Unit {0})
create_kit_row env k = do
  call env call_create_kit
  clash ← gets (λ db. find (has_id k.id) db.kits)
  raise_if (is_some clash) unique_violation
  raise_if (not (quantity_fits k)) failed
  modify (λ db. record db { kits = db.kits ++ k ∷ [] })

-- `GetKitByID`, and `GetKitForUpdate`, which locks the row too.
unfoldable pub get_kit_row : Env → ℕ → Tx Db DbError Kit
get_kit_row env id = first env call_get_kit (has_id id) (λ db. db.kits)

-- `ListKitsByEvent`, oldest first.
unfoldable pub list_kits_by_event : Env → ℕ → Tx Db DbError (List Kit)
list_kits_by_event env event_id = do
  call env call_list_kits
  gets (λ db. filter (λ k. k.event_id == event_id) db.kits)

-- `UpdateKit`
unfoldable pub update_kit_row : Env → Kit → Tx Db DbError (Unit {0})
update_kit_row env k = do
  call env call_update_kit
  raise_if (not (quantity_fits k)) failed
  modify (λ db. record db { kits = update_first (has_id k.id) (λ _. k) db.kits })

-- `DeleteKit`; the handouts of the kit go with it.
unfoldable pub delete_kit_row : Env → ℕ → Tx Db DbError (Unit {0})
delete_kit_row env id = do
  call env call_delete_kit
  modify (λ db. record db {
    kits = filter (λ k. not (has_id id k)) db.kits;
    collections = filter (λ c. not (c.kit_id == id)) db.collections;
  })

abbrev pub same_status : CollectionStatus → CollectionStatus → Bool
same_status pending = is_pending
same_status collected = is_collected
same_status voided = is_voided

abbrev pub tallied : ℕ → ℕ → CollectionStatus → KitCollection → Bool
tallied event_id kit_id st c =
    c.event_id == event_id && (c.kit_id == kit_id && same_status st c.status)

-- `CountsByKit`; the map gives 0 for a kit or a status without rows.
unfoldable pub counts_by_kit : Env → ℕ → Tx Db DbError (ℕ → CollectionStatus → ℕ)
counts_by_kit env event_id = do
  call env call_counts_by_kit
  gets (λ db kit_id st. count (tallied event_id kit_id st) db.collections)

-- A handout of the kit that holds stock.
abbrev pub is_live : ℕ → KitCollection → Bool
is_live kit_id c = c.kit_id == kit_id && not (is_voided c.status)

-- `CountActive`
unfoldable pub count_active : Env → ℕ → Tx Db DbError ℕ
count_active env kit_id = do
  call env call_count_active
  gets (λ db. count (is_live kit_id) db.collections)

abbrev pub handed_over : ℕ → KitCollection → Bool
handed_over kit_id c = c.kit_id == kit_id && is_collected c.status

-- The count that `UpdateKit` of the service runs itself.
unfoldable pub count_collected : Env → ℕ → Tx Db DbError ℕ
count_collected env kit_id = do
  call env call_count_collected
  gets (λ db. count (handed_over kit_id) db.collections)

abbrev pub has_key : ℕ → ℕ → String → KitCollection → Bool
has_key kit_id attendee_id key c =
    c.kit_id == kit_id && (c.attendee_id == attendee_id && str_eq c.idempotency_key key)

-- `FindByIdempotency`: an absent row is no error.
unfoldable pub find_by_idempotency : Env → ℕ → ℕ → String → Tx Db DbError (Option KitCollection)
find_by_idempotency env kit_id attendee_id key = do
  call env call_find_by_idempotency
  gets (λ db. find (has_key kit_id attendee_id key) db.collections)

-- `uq_kit_collections_active`, of rows that are not voided.
abbrev pub same_holder : KitCollection → KitCollection → Bool
same_holder c d =
    d.kit_id == c.kit_id
    && (d.attendee_id == c.attendee_id && (not (is_voided c.status) && not (is_voided d.status)))

-- `uq_kit_collections_idem`, of rows with a key.
abbrev same_key : KitCollection → KitCollection → Bool
same_key c d =
    not (is_empty c.idempotency_key) && has_key c.kit_id c.attendee_id c.idempotency_key d

abbrev pub clashes : KitCollection → KitCollection → Bool
clashes c d = is_row c.id d || (same_holder c d || same_key c d)

-- `CreateCollection`
unfoldable pub create_collection_row : Env → KitCollection → Tx Db DbError (Unit {0})
create_collection_row env c = do
  call env call_create_collection
  clash ← gets (λ db. find (clashes c) db.collections)
  raise_if (is_some clash) unique_violation
  modify (λ db. record db { collections = db.collections ++ c ∷ [] })

-- `GetCollectionForUpdate`
unfoldable pub get_collection_row : Env → ℕ → Tx Db DbError KitCollection
get_collection_row env id = first env call_get_collection (is_row id) (λ db. db.collections)

-- `UpdateCollection`
unfoldable pub update_collection_row : Env → KitCollection → Tx Db DbError (Unit {0})
update_collection_row env c = do
  call env call_update_collection
  modify (λ db. record db { collections = update_first (is_row c.id) (λ _. c) db.collections })

-- `CollectionFilter`; an empty status is `none`.
pub record CollectionFilter : Type 0 where
  pub kit_id : Option ℕ
  pub status : Option CollectionStatus
  pub attendee_id : Option ℕ

abbrev unless_other : Option ℕ → ℕ → Bool
unless_other wanted id = not (some_and wanted (λ w. not (id == w)))

abbrev pub selects : ℕ → CollectionFilter → KitCollection → Bool
selects event_id f c =
    c.event_id == event_id
    && (unless_other f.kit_id c.kit_id
        && (not (some_and f.status (λ st. not (same_status st c.status)))
            && unless_other f.attendee_id c.attendee_id))

-- `ListCollections`, newest first, with the total.
unfoldable pub list_collections :
    Env → ℕ → CollectionFilter → Tx Db DbError (List KitCollection × ℕ)
list_collections env event_id f = do
  call env call_list_collections
  gets (λ db. let rows = filter (selects event_id f) db.collections in (reverse rows, length rows))
