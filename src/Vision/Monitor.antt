-- ===== src/Vision/Monitor.antt =====
-- agent/vision/ScreenMonitor.ts with the gate of agent/vision/ScreenObservation.ts. A tick is three
-- steps: up to the capture, from its settling to the callback, and the callback's settling. What
-- comes in between is a list of events.
use toni_ai_agent.Common.{
  ℕ, Bool, true, false, not, ◌||◌, Option, none, some, List, [], ◌∷◌, ◌++◌, min, max, if◌then◌else◌,
}
use toni_ai_agent.Types.{Result, ok, err, plain_error}
use toni_ai_agent.Computer.Validator.{ScreenObservation}

pub data ScreenMonitoringState : Type 0 where
  off on : ScreenMonitoringState

abbrev pub is_on : ScreenMonitoringState → Bool
is_on on = true
is_on off = false

-- `assertEnabled`
unfoldable pub assert_enabled : ScreenMonitoringState → Result (Unit {0})
assert_enabled on = ok tt
assert_enabled off = err (plain_error "Screen monitoring is disabled by the user")

pub record ScreenMonitor : Type 0 where
  pub gate : ScreenMonitoringState
  pub interval_ms : ℕ
  pub timer : Bool
  pub capture_in_flight : Bool

-- What a step does to the outside: it asks for a capture, or passes an observation on.
pub data Effect : Type 0 where
  captures : Effect
  observes : ScreenObservation → Effect

pub data Event : Type 0 where
  enable_asked disable_asked capture_asked timer_fired callback_settled : Event
  capture_settled : Result ScreenObservation → Event

unfoldable pub create : Option ℕ → ScreenMonitor
create interval = record {
  gate = off;
  interval_ms = max 1000 (min 60000 (elim interval [ none ↦ 3000 | some ms ↦ ms ]));
  timer = false;
  capture_in_flight = false;
}

-- `captureNow`
unfoldable pub capture_now : ScreenMonitor → Result (Unit {0}) × List Effect
unfolding assert_enabled
capture_now m = elim (assert_enabled m.gate) [ err e ↦ (err e, []) | ok _ ↦ (ok tt, captures ∷ []) ]

-- `tick`, up to the capture
unfoldable pub tick : ScreenMonitor → ScreenMonitor × List Effect
unfolding capture_now
tick m = if not (is_on m.gate) || m.capture_in_flight then (m, []) else elim (capture_now m).0 [
  | err e ↦ (m, [])
  | ok _ ↦ (record m { capture_in_flight = true }, (capture_now m).1)
]

-- `tick`, from the settling of the capture on
unfoldable pub tick_settled : Result ScreenObservation → ScreenMonitor → ScreenMonitor × List Effect
tick_settled (err e) m = (record m { capture_in_flight = false }, [])
tick_settled (ok observation) m =
    if is_on m.gate
    then (m, observes observation ∷ [])
    else (record m { capture_in_flight = false }, [])

unfoldable pub enable : ScreenMonitor → ScreenMonitor × List Effect
unfolding tick
enable m = if is_on m.gate then (m, []) else tick (record m { gate = on; timer = true })

unfoldable pub disable : ScreenMonitor → ScreenMonitor
disable m = record m { gate = off; timer = false }

unfoldable pub step : Event → ScreenMonitor → ScreenMonitor × List Effect
unfolding enable disable tick tick_settled capture_now
step enable_asked m = enable m
step disable_asked m = (disable m, [])
step capture_asked m = (m, (capture_now m).1)
step timer_fired m = if m.timer then tick m else (m, [])
step (capture_settled r) m = tick_settled r m
step callback_settled m = (record m { capture_in_flight = false }, [])

unfoldable pub run : List Event → ScreenMonitor → ScreenMonitor × List Effect
unfolding step
run [] m = (m, [])
run (e ∷ es) m = let (m1, now) = step e m in let (m2, later) = run es m1 in (m2, now ++ later)

abbrev pub asks_enable : Event → Bool
asks_enable enable_asked = true
asks_enable _ = false
