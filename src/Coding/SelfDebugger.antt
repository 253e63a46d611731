-- ===== src/Coding/SelfDebugger.antt =====
-- agent/debug/SelfDebugger.ts. `show` stands for the host's text of a number.
use Prim.Native.String.{◌++◌ as ◌+++◌}
use toni_ai_agent.Common.{
  ℕ, Bool, true, false, not, ◌&&◌, ◌||◌, List, [], ◌∷◌, String, str_eq, eq_iff, leb, ◌==◌,
  if◌then◌else◌, any, ◌≡◌, ◌≢◌, ◌↔◌, ◌<◌, arith,
}
use toni_ai_agent.Common.Text.{codes, includes_ci, trim}

pub data DebugOutcome : Type 0 where
  retry repair_plan blocked failed : DebugOutcome

-- `changedFiles` is never read.
pub record DebugFailure : Type 0 where
  pub operation : String
  pub error : String
  pub attempt : ℕ

pub record RepairPlan : Type 0 where
  pub outcome : DebugOutcome
  pub summary : String
  pub suspected_cause : String
  pub next_checks : List String
  pub safe_to_retry : Bool

is_digit : ℕ → Bool
is_digit c = leb 48 c && leb c 57

-- `/ts\d{4}/i` at the start of a text
starts_with_ts_code : List ℕ → Bool
unfolding is_digit
starts_with_ts_code (t ∷ s ∷ a ∷ b ∷ c ∷ d ∷ rest) =
    ((t == 116) || (t == 84))
    && (((s == 115) || (s == 83)) && (is_digit a && (is_digit b && (is_digit c && is_digit d))))
starts_with_ts_code _ = false

has_ts_code : List ℕ → Bool
unfolding starts_with_ts_code
has_ts_code [] = false
has_ts_code (c ∷ rest) = starts_with_ts_code (c ∷ rest) || has_ts_code rest

-- one of the words occurs, in any case
mentions : String → List String → Bool
mentions error words = any (includes_ci error) words

unfoldable pub classify : String → String
unfolding mentions has_ts_code
classify error =
    if mentions error ("permission" ∷ "access denied" ∷ "unauthorized" ∷ "forbidden" ∷ [])
    then "permission_or_access"
    else if mentions error ("timeout" ∷ "timed out" ∷ "abort" ∷ [])
    then "timeout_or_network"
    else if mentions error ("module not found" ∷ "cannot find package" ∷ "import" ∷ [])
    then "dependency_or_import"
    else if mentions error ("syntax" ∷ "type error" ∷ []) || has_ts_code (codes error)
    then "code_or_type_error"
    else if mentions error ("enoent" ∷ "no such file" ∷ "path" ∷ [])
    then "missing_path_or_file"
    else "unknown_runtime_error"

unfoldable pub checks_for : String → List String
checks_for cause =
    if str_eq cause "dependency_or_import"
    then "inspect package.json" ∷ "verify the import path and installed dependency"
      ∷ "rerun the narrowest relevant check" ∷ []
    else if str_eq cause "code_or_type_error"
    then "inspect the failing file and compiler message" ∷ "make the smallest reversible correction"
      ∷ "rerun the targeted check" ∷ []
    else if str_eq cause "missing_path_or_file"
    then "verify the path relative to workspace root" ∷ "check file existence"
      ∷ "retry only after the path is corrected" ∷ []
    else if str_eq cause "timeout_or_network"
    then "check connectivity and endpoint status" ∷ "retry once with the existing timeout policy"
      ∷ "do not disable safety timeouts" ∷ []
    else if str_eq cause "permission_or_access"
    then "verify the configured permission" ∷ "check whether human approval is required"
      ∷ "do not bypass authentication or access controls" ∷ []
    else "capture the complete observable error" ∷ "inspect the smallest relevant scope"
      ∷ "prepare a reversible repair" ∷ []

unfoldable pub is_safe_retry : String → Bool
is_safe_retry cause = not (str_eq cause "permission_or_access")

unfoldable pub analyse : (ℕ → String) → ℕ → DebugFailure → RepairPlan
unfolding is_safe_retry
analyse show max_attempts failure =
    let error = trim failure.error in
    let cause = classify error in
    if str_eq error ""
    then record {
      outcome = blocked;
      summary = "Empty error; no retry without observable failure data.";
      suspected_cause = "unknown";
      next_checks = "capture the command/tool result" ∷ [];
      safe_to_retry = false;
    }
    else if leb max_attempts failure.attempt
    then record {
      outcome = failed;
      summary = "Retry limit reached.";
      suspected_cause = cause;
      next_checks = "inspect logs and changed files" ∷ "prepare a human-reviewed repair plan" ∷ [];
      safe_to_retry = false;
    }
    else record {
      outcome = retry;
      summary =
          "Attempt " +++ show failure.attempt +++ " failed during " +++ failure.operation +++ ".";
      suspected_cause = cause;
      next_checks = checks_for cause;
      safe_to_retry = is_safe_retry cause;
    }

-- A plan is safe to retry exactly when there is an error text besides white space, the attempt is
-- below the limit, and the error is not classified as one of permission or access.
pub analyse-safe_iff :
    (show : ℕ → String) (max_attempts : ℕ) (failure : DebugFailure)
    → ((analyse show max_attempts failure).safe_to_retry ≡ true) ↔ (
        (trim failure.error ≢ "")
        × (failure.attempt < max_attempts)
        × (classify (trim failure.error) ≢ "permission_or_access"))
unfolding analyse is_safe_retry
analyse-safe_iff show max_attempts failure = ground (
  arith,
  eq_iff (trim failure.error) "",
  eq_iff (classify (trim failure.error)) "permission_or_access",
)
