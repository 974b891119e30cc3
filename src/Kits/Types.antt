-- ===== src/Kits/Types.antt =====
-- internal/kit/service: the error sentinels of errors.go and the views of kits and handouts.
use rallya.Common.{ℕ, String}
use rallya.Model.Kit.{Kit, KitCollection}
use rallya.Store.{DbError, not_found, unique_violation}

-- errors.go, and `ErrUpgradeRequired` of the subscription domain; `internal` is a database failure
-- that is passed on.
pub data KitError : Type 0 where
  kit_not_found collection_not_found attendee_not_found invalid_quantity : KitError
  invalid_status not_checked_in quantity_exhausted already_collected : KitError
  quantity_below_collected kit_has_collections upgrade_required internal : KitError

abbrev pub call_err : DbError → KitError
call_err e = internal

-- `err == gorm.ErrRecordNotFound` at the three lookups.
abbrev pub kit_err : DbError → KitError
kit_err not_found = kit_not_found
kit_err _ = internal

abbrev pub attendee_err : DbError → KitError
attendee_err not_found = attendee_not_found
attendee_err _ = internal

abbrev pub collection_err : DbError → KitError
collection_err not_found = collection_not_found
collection_err _ = internal

-- `isConflictErr` at the insert of a handout.
abbrev pub conflict_err : DbError → KitError
conflict_err unique_violation = already_collected
conflict_err _ = internal

-- `KitWithCounts`
pub record KitWithCounts : Type 0 where
  pub kit : Kit
  pub pending : ℕ
  pub collected : ℕ
  pub voided : ℕ
  pub remaining : ℕ

-- `CollectionView`
pub record CollectionView : Type 0 where
  pub collection : KitCollection
  pub kit_name : String
