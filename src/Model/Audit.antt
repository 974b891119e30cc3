-- ===== src/Model/Audit.antt =====
-- internal/audit/service/audit_service.go, `Entry`. The diffs Before and After, the address and the
-- user agent of an entry are left out.
use rallya.Common.{ℕ, String, Option}

pub record Entry : Type 0 where
  pub org_id : Option ℕ
  pub actor_id : Option ℕ
  pub action : String
  pub object_type : String
  pub object_id : Option ℕ
