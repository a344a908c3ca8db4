-- ===== src/Domain/Report.antt =====
-- crates/domain/src/report.rs: anonymous reports.
mod Vocabulary
unfoldable pub use Vocabulary.*
use safe_cameroon.Common.{String, Option}
use safe_cameroon.Domain.Ids.{ReportId}
use safe_cameroon.Domain.Case.{IncidentType}

pub record AnonymousReport : Type 0 where
  pub id : ReportId
  pub source_channel : ReportSourceChannel
  pub raw_content : String
  pub reported_incident_type : Option IncidentType
