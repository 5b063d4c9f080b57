-- ===== src/Validation/Finding.antt =====
-- pkg/validation/finding.go. A finding's message is display text and is left out.
use ovl.Base.{String, Bool, true, false, List, any, keep, str_eq}

-- `unknown` is any other text that a config bundle may carry.
pub data Severity : Type 0 where
  error warning info : Severity
  unknown : String → Severity

pub record Finding : Type 0 where
  pub rule_id : String
  pub severity : Severity
  pub field : String

abbrev pub is_error : Severity → Bool
is_error error = true
is_error _ = false

abbrev pub Findings : Type 0
Findings = List Finding

-- `HasErrors`
abbrev pub has_errors : Findings → Bool
has_errors fs = any (λ f. is_error f.severity) fs

-- `ByRule`
unfoldable pub by_rule : Findings → String → Findings
by_rule fs rule_id = keep (λ f. str_eq f.rule_id rule_id) fs
