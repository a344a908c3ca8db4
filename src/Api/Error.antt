-- ===== src/Api/Error.antt =====
-- apps/api/src/error.rs: what a handler answers when it refuses.
use safe_cameroon.Common.{ℕ, String}
use safe_cameroon.Domain.Ids.{Uuid}

pub record ApiError : Type 0 where
  pub status : ℕ
  pub code : String
  pub message : String
  pub request_id : Uuid
