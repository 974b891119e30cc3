-- ===== src/Kits/Manage.antt =====
-- internal/kit/service/kit_service.go: the management of kit types.
use rallya.Common.{
  ℕ, ◌-◌, Bool, false, not, Option, none, some, some_and, List, length, map, String, trim_space,
  codes, is_empty, ltb, leb, ◌==◌, Tx, Run, ◌>>=◌, ◌>>◌, transaction, proceed, raise_if, or_raise,
  map_err, pure, gets,
}
use rallya.Common.Int.{ℤ, pos, negsuc, pos_part, is_positive, lt_bound}
use rallya.Ticketing.Admin.{given}
use mathlib.Core.Option.{map as map_option}
use rallya.Model.Kit.{Kit, CollectionStatus, pending, collected, voided}
use rallya.Model.Subscription.{kits as kits_feature}
use rallya.Model.Audit.{Entry}
use rallya.Store.{Db, Env, emit_tx}
use rallya.Subscription.Entitlements.{entitlement}
use rallya.Kits.Types.{
  KitError, KitWithCounts, call_err, kit_err, kit_not_found, invalid_quantity, upgrade_required,
  quantity_below_collected, kit_has_collections, internal,
}
use rallya.Kits.Rows.{
  create_kit_row, get_kit_row, list_kits_by_event, update_kit_row, delete_kit_row, counts_by_kit,
  count_active, count_collected,
}

-- `audit`
abbrev pub kit_entry : ℕ → ℕ → String → String → ℕ → Entry
kit_entry org staff action object_type id = record {
  org_id = some org;
  actor_id = some staff;
  action = action;
  object_type = object_type;
  object_id = some id;
}

-- Whether a quota, of which a negative one means no limit, is used up.
abbrev pub quota_used : ℤ → ℕ → Bool
quota_used (pos max) n = leb max n
quota_used (negsuc m) n = false

-- The plan's quota on kits; the list is read only under a limit.
abbrev pub check_quota : Env → ℤ → ℕ → Tx Db KitError (Unit {0})
check_quota env (negsuc m) event_id = pure tt
check_quota env (pos max) event_id = do
  kits ← map_err call_err (list_kits_by_event env event_id)
  raise_if (quota_used (pos max) (length kits)) upgrade_required

abbrev pub new_kit : Env → ℕ → String → String → ℤ → Kit
new_kit env event_id name description quantity = record {
  id = env.new_id;
  event_id = event_id;
  name = trim_space name;
  description = trim_space description;
  quantity_total = pos_part quantity;
}

abbrev pub untouched : Kit → KitWithCounts
untouched k = record {
  kit = k;
  pending = 0;
  collected = 0;
  voided = 0;
  remaining = k.quantity_total;
}

-- `CreateKit`
unfoldable pub create_kit :
    Env → ℕ → String → String → String → ℤ → ℕ → Tx Db KitError KitWithCounts
unfolding create_kit_row list_kits_by_event
create_kit env org event_ref name description quantity staff = do
  event_id ← or_raise (env.resolve_event org event_ref) kit_not_found
  raise_if (is_empty (trim_space name)) kit_not_found
  raise_if (not (is_positive quantity)) invalid_quantity
  ent ← gets (entitlement env org)
  raise_if (not (ent.features kits_feature)) upgrade_required
  check_quota env ent.limits.max_kits_per_event event_id
  let k = new_kit env event_id name description quantity
  map_err call_err (create_kit_row env k)
  emit_tx env internal (kit_entry org staff "kit.created" "kit" k.id)
  pure (untouched k)

-- One kit with its tallies; what is left is never below 0.
abbrev pub with_tally : (ℕ → CollectionStatus → ℕ) → Kit → KitWithCounts
with_tally counts k = record {
  kit = k;
  pending = counts k.id pending;
  collected = counts k.id collected;
  voided = counts k.id voided;
  remaining = k.quantity_total - counts k.id pending - counts k.id collected;
}

-- `ListKits`
unfoldable pub list_kits : Env → ℕ → String → Tx Db KitError (List KitWithCounts)
unfolding list_kits_by_event counts_by_kit
list_kits env org event_ref = do
  event_id ← or_raise (env.resolve_event org event_ref) kit_not_found
  kits ← map_err call_err (list_kits_by_event env event_id)
  counts ← map_err call_err (counts_by_kit env event_id)
  pure (map (with_tally counts) kits)

-- `withCounts`
unfoldable pub with_counts : Env → ℕ → Kit → Tx Db KitError KitWithCounts
unfolding counts_by_kit
with_counts env event_id k = do
  counts ← map_err call_err (counts_by_kit env event_id)
  pure (with_tally counts k)

-- The guards on a new quantity.
abbrev pub check_quantity : Env → ℕ → Option ℤ → Tx Db KitError (Unit {0})
check_quantity env id none = pure tt
check_quantity env id (some q) = do
  raise_if (not (is_positive q)) invalid_quantity
  taken ← map_err call_err (count_collected env id)
  raise_if (lt_bound q taken) quantity_below_collected

abbrev pub edited : Option String → Option String → Option ℤ → Kit → Kit
edited name description quantity k = record k {
  name = given (map_option trim_space name) k.name;
  description = given (map_option trim_space description) k.description;
  quantity_total = given (map_option pos_part quantity) k.quantity_total;
}

-- The transaction of `UpdateKit`.
unfoldable pub update_kit_tx :
    Env → ℕ → ℕ → ℕ → Option String → Option String → Option ℤ → ℕ → Tx Db KitError Kit
unfolding get_kit_row count_collected update_kit_row
update_kit_tx env org event_id id name description quantity staff = do
  k ← map_err kit_err (get_kit_row env id)
  raise_if (not (k.event_id == event_id)) kit_not_found
  raise_if (some_and name (λ n. is_empty (trim_space n))) kit_not_found
  check_quantity env id quantity
  let u = edited name description quantity k
  map_err call_err (update_kit_row env u)
  emit_tx env internal (kit_entry org staff "kit.updated" "kit" u.id)
  pure u

-- What `UpdateKit`, `DeleteKit` and `Collect` read first: the event and the kit's key.
abbrev pub resolve_refs : Env → ℕ → String → String → Tx Db KitError (ℕ × ℕ)
resolve_refs env org event_ref kit_ref = do
  event_id ← or_raise (env.resolve_event org event_ref) kit_not_found
  id ← or_raise (env.parse_uuid (codes (trim_space kit_ref))) kit_not_found
  pure (event_id, id)

-- `UpdateKit`: the tallies are read after the commit.
unfoldable pub update_kit :
    Env
    → ℕ
    → String
    → String
    → Option String
    → Option String
    → Option ℤ
    → ℕ
    → Run Db KitError KitWithCounts
unfolding update_kit_tx with_counts
update_kit env org event_ref kit_ref name description quantity staff db =
    proceed (transaction (resolve_refs env org event_ref kit_ref) db) (λ refs db1.
      proceed
        (transaction (update_kit_tx env org refs.0 refs.1 name description quantity staff) db1)
        (λ u db2. transaction (with_counts env refs.0 u) db2))

-- `DeleteKit`
unfoldable pub delete_kit : Env → ℕ → String → String → ℕ → Tx Db KitError (Unit {0})
unfolding get_kit_row count_active delete_kit_row
delete_kit env org event_ref kit_ref staff = do
  refs ← resolve_refs env org event_ref kit_ref
  k ← map_err kit_err (get_kit_row env refs.1)
  raise_if (not (k.event_id == refs.0)) kit_not_found
  active ← map_err call_err (count_active env refs.1)
  raise_if (ltb 0 active) kit_has_collections
  map_err call_err (delete_kit_row env refs.1)
  emit_tx env internal (kit_entry org staff "kit.deleted" "kit" refs.1)
