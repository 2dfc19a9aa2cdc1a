-- ===== src/Validate/Accepts.antt =====
-- A message is accepted when its checks report warnings at most.
use pod_os_go_client.Prelude.{◌≡◌, refl, Bool, true, false, [], ◌∷◌, ◌++◌, if◌then◌else◌}
use pod_os_go_client.Validate.Report.{Severity, ValidationError, ValidationErrors, report}

-- No report is an error.
abbrev pub AllWarn : ValidationErrors → Type 0
AllWarn [] = Unit {0}
AllWarn (e ∷ es) = (e.severity ≡ Severity.warn) × AllWarn es

AllWarn-append : (xs ys : ValidationErrors) → AllWarn (xs ++ ys) → AllWarn xs × AllWarn ys
AllWarn-append [] ys a = (tt, a)
AllWarn-append (x ∷ xs) ys a = let (front, back) = AllWarn-append xs ys a.1 in ((a.0, front), back)

-- The same as a type of its own, by which the parts of a chain of checks are found.
pub record IsAccepted (es : ValidationErrors) : Type 0 where
  pub warnings : AllWarn es

pub front-IsAccepted : (xs ys : ValidationErrors) → IsAccepted (xs ++ ys) → IsAccepted xs
front-IsAccepted xs ys a = record { warnings = (AllWarn-append xs ys a.warnings).0 }

pub back-IsAccepted : (xs ys : ValidationErrors) → IsAccepted (xs ++ ys) → IsAccepted ys
back-IsAccepted xs ys a = record { warnings = (AllWarn-append xs ys a.warnings).1 }

-- An error that is not reported.
pub report-IsAccepted :
    (broken : Bool) (e : ValidationError)
    → IsAccepted (report broken e)
    → e.severity ≡ Severity.error
    → broken ≡ false
unfolding report
report-IsAccepted broken e a is = hidden broken e a.warnings is
  where
    hidden :
        (b : Bool) (e : ValidationError)
        → AllWarn (if b then e ∷ [] else [])
        → e.severity ≡ Severity.error
        → b ≡ false
    hidden true e w is = cc (is, w.0)
    hidden false e w is = refl
