-- ===== src/Service/Startup.antt =====
-- app/lifecycle/StartupState.ts and app/health/StartupChecks.ts. A check acts on a state of the host; one
-- that throws gives an `err`.
use Prim.Native.String.{◌++◌ as ◌+++◌}
use toni_ai_agent.Common.{
  Bool, true, false, ◌&&◌, Option, none, some, List, [], ◌∷◌, String, if◌then◌else◌,
}
use toni_ai_agent.Types.{Result, ok, err, plain_error, message_of}

pub data StartupPhase : Type 0 where
  created config_loaded storage_ready tools_ready providers_ready : StartupPhase
  sandbox_ready server_ready failed stopping stopped : StartupPhase

pub record StartupState : Type 0 where
  pub phase : StartupPhase
  pub failure : Option String

unfoldable pub initial : StartupState
initial = record { phase = created; failure = none }

unfoldable pub set_phase : StartupPhase → StartupState → Result (Unit {0}) × StartupState
set_phase next s = elim s.phase [
  | failed ↦ (err (plain_error "Cannot transition from failed."), s)
  | stopped ↦ (err (plain_error "Cannot transition from stopped."), s)
  | _ ↦ (ok tt, record s { phase = next })
]

unfoldable pub fail : String → StartupState → StartupState
fail reason s = record { phase = failed; failure = some reason }

unfoldable pub is_ready : StartupState → Bool
is_ready s = elim s.phase [ server_ready ↦ true | _ ↦ false ]

unfoldable pub is_stopping : StartupState → Bool
is_stopping s = elim s.phase [ stopping ↦ true | _ ↦ false ]

pub record StartupCheck (W : Type 0) : Type 0 where
  pub name : String
  pub required_in_production : Bool
  pub run : W → Result (Unit {0}) × W

pub record StartupCheckResult : Type 0 where
  pub name : String
  pub ok : Bool
  pub error : Option String

-- the results of one check and of those after it
unfoldable pub before :
    {W : Type 0}
    → StartupCheckResult
    → Result (List StartupCheckResult) × W
    → Result (List StartupCheckResult) × W
before r (err e, w) = (err e, w)
before r (ok rs, w) = (ok (r ∷ rs), w)

unfoldable pub run_startup_checks :
    {W : Type 0} → Bool → List (StartupCheck W) → W → Result (List StartupCheckResult) × W
unfolding before
run_startup_checks production [] w = (ok [], w)
run_startup_checks production (check ∷ checks) w =
    let (ran, w') = check.run w in
    let rest = run_startup_checks production checks w' in
    elim ran [
      | ok _ ↦ before (record { name = check.name; ok = true; error = none }) rest
      | err e ↦
          if production && check.required_in_production
          then (
            err (
                plain_error
                  ("Required startup check failed: " +++ check.name +++ ": " +++ message_of e)),
            w',
          )
          else before (record { name = check.name; ok = false; error = some (message_of e) }) rest
    ]
