-- ===== src/Validate/Report/Violation.antt =====
-- What a check reports.
use pod_os_go_client.Prelude.{List, Bytes}

pub data Severity : Type 0 where
  error warn : Severity

pub data Rule : Type 0 where
  required one_of_required format nil_struct header_missing header_value payload_type : Rule
  payload_format semantic uncovered not_serialized : Rule

pub record ValidationError : Type 0 where
  pub severity : Severity
  pub intent : Bytes
  pub field : Bytes
  pub wire_field : Bytes
  pub rule : Rule

abbrev pub ValidationErrors : Type 0
ValidationErrors = List ValidationError
