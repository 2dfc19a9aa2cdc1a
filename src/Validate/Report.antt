-- ===== src/Validate/Report.antt =====
-- `ValidationError` of message/validate.go and the functions that make one. The texts for the reader
-- (Message, Fix, ExampleCode, References) are left out.
mod Violation
use pod_os_go_client.Prelude.{
  ◌&&◌, none, some, [], ◌∷◌, ◌++◌, ◌-◌, Bool, false, ltb, if◌then◌else◌, Bytes, codes, length,
  str_eq,
}
use pod_os_go_client.Text.{index_byte}
pub use pod_os_go_client.Wire.Encoder.{is_empty}
pub use Violation.{Rule, Severity, ValidationError, ValidationErrors}

abbrev pub errorf : Severity → Bytes → Bytes → Bytes → Rule → ValidationError
errorf s i f w r = record { severity = s; intent = i; field = f; wire_field = w; rule = r }

-- `if broken { errs = append(errs, e) }`
unfoldable pub report : Bool → ValidationError → ValidationErrors
report broken e = if broken then e ∷ [] else []

abbrev pub required_field : Bytes → Bytes → Bytes → ValidationError
required_field i f w = errorf Severity.error i f w Rule.required

abbrev pub nil_struct : Bytes → Bytes → ValidationError
nil_struct i f = errorf Severity.error i f [] Rule.nil_struct

abbrev slash : Bytes → Bytes → Bytes
slash a b = a ++ codes " / " ++ b

abbrev pub one_of_required : Bytes → Bytes → Bytes → Bytes → Bytes → ValidationError
one_of_required i a wire_a b wire_b =
    errorf Severity.error i (slash a b) (slash wire_a wire_b) Rule.one_of_required

abbrev pub warn_uncovered : Bytes → ValidationError
warn_uncovered i = errorf Severity.warn i [] [] Rule.uncovered

abbrev pub semantic_error : Bytes → Bytes → Bytes → ValidationError
semantic_error i f w = errorf Severity.error i f w Rule.semantic

abbrev pub semantic_warn : Bytes → Bytes → Bytes → ValidationError
semantic_warn i f w = errorf Severity.warn i f w Rule.semantic

-- `isSysID`
abbrev pub is_sys_id : Bytes → Bool
is_sys_id s = str_eq s (codes "$sys")

-- `idx := strings.IndexByte(s, '@'); idx > 0 && idx < len(s)-1`
unfoldable pub is_name_at_gateway : Bytes → Bool
unfolding index_byte
is_name_at_gateway s = elim (index_byte b'@' s) [
  | none ↦ false
  | some i ↦ ltb 0 i && ltb i (length s - 1)
]
