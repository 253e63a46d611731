-- ===== src/Service/Limits.antt =====
-- agent/worker/WorkerLimits.ts, agent/privacy/RetentionPolicy.ts and agent/privacy/OcrRetention.ts. The
-- clock's readings are arguments.
use toni_ai_agent.Common.{
  ℕ, ◌+◌, Bool, false, ◌||◌, Option, none, some, String, ltb, leb, if◌then◌else◌,
}
use toni_ai_agent.Types.{Result, ok, err, plain_error}

pub record WorkerLimits : Type 0 where
  pub timeout_ms : ℕ
  pub max_output_bytes : ℕ
  pub max_error_bytes : ℕ
  pub max_processes : ℕ
  pub max_memory_mb : ℕ

unfoldable pub default_worker_limits : WorkerLimits
default_worker_limits = record {
  timeout_ms = 30000;
  max_output_bytes = 1048576;
  max_error_bytes = 262144;
  max_processes = 16;
  max_memory_mb = 512;
}

unfoldable pub validate_worker_limits : WorkerLimits → Result (Unit {0})
validate_worker_limits l =
    if ltb l.timeout_ms 100 || ltb 300000 l.timeout_ms
    then err (plain_error "Worker timeout must be between 100 and 300000 ms.")
    else if ltb l.max_output_bytes 1024
    then err (plain_error "Worker output limit is invalid.")
    else if ltb l.max_error_bytes 1024
    then err (plain_error "Worker error limit is invalid.")
    else if ltb l.max_processes 1
    then err (plain_error "Worker process limit is invalid.")
    else if ltb l.max_memory_mb 64
    then err (plain_error "Worker memory limit is invalid.")
    else ok tt

pub record RetentionPolicy : Type 0 where
  pub audit_days : ℕ
  pub session_days : ℕ
  pub ocr_text_minutes : ℕ
  pub approval_days : ℕ
  pub keep_raw_screenshots : Bool

unfoldable pub default_retention_policy : RetentionPolicy
default_retention_policy = record {
  audit_days = 30;
  session_days = 7;
  ocr_text_minutes = 5;
  approval_days = 1;
  keep_raw_screenshots = false;
}

unfoldable pub validate_retention_policy : RetentionPolicy → Result (Unit {0})
validate_retention_policy p =
    if ltb p.audit_days 1 || ltb 365 p.audit_days
    then err (plain_error "auditDays must be between 1 and 365.")
    else if ltb 90 p.session_days
    then err (plain_error "sessionDays must be between 0 and 90.")
    else if ltb 60 p.ocr_text_minutes
    then err (plain_error "ocrTextMinutes must be between 0 and 60.")
    else if p.keep_raw_screenshots
    then err (plain_error "Raw screenshots must not be retained.")
    else ok tt

pub record OcrSnapshot : Type 0 where
  pub text : String
  pub captured_at : ℕ
  pub expires_at : ℕ

pub record OcrRetention : Type 0 where
  pub ttl_ms : ℕ
  pub snapshot : Option OcrSnapshot

unfoldable pub keep_text : ℕ → String → OcrRetention → OcrRetention
keep_text now text r = record r {
  snapshot = some (record { text = text; captured_at = now; expires_at = now + r.ttl_ms });
}

unfoldable pub kept_text : ℕ → OcrRetention → Option String × OcrRetention
kept_text now r = elim r.snapshot [
  | none ↦ (none, r)
  | some s ↦ if leb s.expires_at now then (none, record r { snapshot = none }) else (some s.text, r)
]

unfoldable pub clear : OcrRetention → OcrRetention
clear r = record r { snapshot = none }
