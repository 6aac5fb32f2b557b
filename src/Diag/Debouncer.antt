-- ===== src/Diag/Debouncer.antt =====
-- src/ara/diag/debouncing/debouncer.cpp and counter_based_debouncer.cpp. The comparisons are made
-- on an `int`, which holds a sum of an `int16_t` and a `uint16_t`. The counter is an `int16_t`:
-- where a step is added or taken, the result lies between the counter and a threshold, so nothing
-- wraps. A call returns what it passes to the callback.
pub mod Bounds
pub mod Steps
use adaptive_autosar.Prelude.{ℕ, Bool, true, false, List, [], ◌∷◌, ◌&&◌, not, if◌then◌else◌}
use adaptive_autosar.Prelude.Int.{ℤ, pos, negsuc, ◌+ℤ◌, ◌-ℤ◌, leb_ℤ, ltb_ℤ}

pub data EventStatus : Type 0 where
  passed pending failed : EventStatus

pub record CounterBased : Type 0 where
  pub failed_threshold : ℤ
  pub passed_threshold : ℤ
  pub failed_stepsize : ℕ
  pub passed_stepsize : ℕ
  pub failed_jump_value : ℤ
  pub passed_jump_value : ℤ
  pub use_jump_to_failed : Bool
  pub use_jump_to_passed : Bool

pub record Debouncer : Type 0 where
  pub event_status : EventStatus
  pub has_callback : Bool
  pub fdc : ℤ

unfoldable pub new_debouncer : Bool → Debouncer
new_debouncer has_callback = record {
  event_status = pending;
  has_callback = has_callback;
  fdc = pos 0;
}

unfoldable pub same_status : EventStatus → EventStatus → Bool
same_status passed passed = true
same_status pending pending = true
same_status failed failed = true
same_status _ _ = false

-- The `switch` of `SetEventStatus`.
unfoldable pub notifications : EventStatus → List Bool
notifications passed = true ∷ []
notifications failed = false ∷ []
notifications pending = []

-- `SetEventStatus`.
unfoldable pub set_event_status : Debouncer → EventStatus → Debouncer × List Bool
unfolding same_status notifications
set_event_status d status =
    if same_status d.event_status status
    then (d, [])
    else (record d { event_status = status }, (if d.has_callback then notifications status else []))

unfoldable pub report_prepassed : CounterBased → Debouncer → Debouncer × List Bool
unfolding set_event_status
report_prepassed c d =
    if leb_ℤ (d.fdc -ℤ pos c.passed_stepsize) c.passed_threshold
    then set_event_status (record d { fdc = c.passed_threshold }) passed
    else if c.use_jump_to_passed && ltb_ℤ c.passed_jump_value d.fdc
    then (record d { fdc = c.passed_jump_value }, [])
    else (record d { fdc = d.fdc -ℤ pos c.passed_stepsize }, [])

unfoldable pub report_passed : CounterBased → Debouncer → Debouncer × List Bool
unfolding set_event_status
report_passed c d = set_event_status (record d { fdc = c.passed_threshold }) passed

unfoldable pub report_prefailed : CounterBased → Debouncer → Debouncer × List Bool
unfolding set_event_status
report_prefailed c d =
    if leb_ℤ c.failed_threshold (d.fdc +ℤ pos c.failed_stepsize)
    then set_event_status (record d { fdc = c.failed_threshold }) failed
    else if c.use_jump_to_failed && ltb_ℤ d.fdc c.failed_jump_value
    then (record d { fdc = c.failed_jump_value }, [])
    else (record d { fdc = d.fdc +ℤ pos c.failed_stepsize }, [])

unfoldable pub report_failed : CounterBased → Debouncer → Debouncer × List Bool
unfolding set_event_status
report_failed c d = set_event_status (record d { fdc = c.failed_threshold }) failed

unfoldable pub reset : Debouncer → Debouncer × List Bool
unfolding set_event_status
reset d = set_event_status (record d { fdc = pos 0 }) pending

unfoldable pub freeze : Debouncer → Debouncer × List Bool
unfolding reset
freeze d = reset d
