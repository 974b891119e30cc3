-- ===== src/Model/Kit.antt =====
-- internal/kit/model/kit.go.
use rallya.Common.{ℕ, String, Bool, true, false, Option}

pub data CollectionStatus : Type 0 where
  pending collected voided : CollectionStatus

pub record Kit : Type 0 where
  pub id : ℕ
  pub event_id : ℕ
  pub name : String
  pub description : String
  pub quantity_total : ℕ

pub record KitCollection : Type 0 where
  pub id : ℕ
  pub kit_id : ℕ
  pub event_id : ℕ
  pub attendee_id : ℕ
  pub idempotency_key : String
  pub status : CollectionStatus
  pub collected_at : Option ℕ
  pub collected_by : Option ℕ

abbrev pub is_voided : CollectionStatus → Bool
is_voided voided = true
is_voided _ = false

abbrev pub is_collected : CollectionStatus → Bool
is_collected collected = true
is_collected _ = false

abbrev pub is_pending : CollectionStatus → Bool
is_pending pending = true
is_pending _ = false
