-- ===== src/Diag/Monitor.antt =====
-- src/ara/diag/monitor.cpp, with a counter-based debouncer. The callback that the debouncer gets in
-- the constructor is run over what a report passes to it. A call returns the bytes that the event's
-- notifier gets, and the reasons for which the monitor is initialised again.
pub mod Reports
pub mod Shown
pub mod Agreement
pub mod Tests
use adaptive_autosar.Prelude.{
  ℕ, Bool, true, false, not, Option, none, some, List, [], ◌∷◌, ◌++◌, if◌then◌else◌, Result, ok,
  throws, invalid_argument,
}
use adaptive_autosar.Diag.Debouncer.{
  CounterBased, Debouncer, new_debouncer, report_prepassed, report_passed, report_prefailed,
  report_failed, reset, freeze,
}
use adaptive_autosar.Diag.Event.{
  Event, test_failed, test_not_completed_this_operation_cycle, set_event_status_bits,
  set_fault_detection_counter, fdc_max, fdc_min,
}

pub data InitMonitorReason : Type 0 where
  clear restart reenabled disabled : InitMonitorReason

pub data MonitorAction : Type 0 where
  passing failing prepassing prefailing fdc_threshold_reached : MonitorAction
  reset_test_failed freeze_debouncing reset_debouncing : MonitorAction

pub record Monitor : Type 0 where
  pub default_values : CounterBased
  pub debouncer : Debouncer
  pub event : Option Event
  pub offered : Bool
  pub has_init_monitor : Bool

unfoldable pub new_monitor : Bool → CounterBased → Monitor
new_monitor has_init_monitor default_values = record {
  default_values = default_values;
  debouncer = new_debouncer true;
  event = none;
  offered = false;
  has_init_monitor = has_init_monitor;
}

-- `onEventStatusChanged`, for the event that is attached.
unfoldable pub on_event_status_changed : Event → Bool → Event × List ℕ
on_event_status_changed e passed =
    set_event_status_bits (set_fault_detection_counter e (if passed then fdc_min else fdc_max))
      ((test_failed, not passed) ∷ (test_not_completed_this_operation_cycle, false) ∷ [])

-- The calls of the callback, one after the other.
unfoldable pub on_calls : Event → List Bool → Event × List ℕ
on_calls e [] = (e, [])
on_calls e (passed ∷ calls) = (
  (on_calls (on_event_status_changed e passed).0 calls).0,
  (on_event_status_changed e passed).1 ++ (on_calls (on_event_status_changed e passed).0 calls).1,
)

-- A report to the debouncer, and the event it leaves.
unfoldable pub debounced : Monitor → Debouncer × List Bool → Monitor × List ℕ
debounced m result = elim m.event [
  | none ↦ (record m { debouncer = result.0 }, [])
  | some e ↦ (
    record m { debouncer = result.0; event = some (on_calls e result.1).0 },
    (on_calls e result.1).1,
  )
]

-- The case `kResetTestFailed`.
unfoldable pub clear_test_failed : Monitor → Monitor × List ℕ
clear_test_failed m = elim m.event [
  | none ↦ (m, [])
  | some e ↦ (
    record m { event = some (set_event_status_bits e ((test_failed, false) ∷ [])).0 },
    (set_event_status_bits e ((test_failed, false) ∷ [])).1,
  )
]

-- The `switch` of `ReportMonitorAction`.
unfoldable pub act : Monitor → MonitorAction → Result (Monitor × List ℕ)
act m passing = ok (debounced m (report_passed m.default_values m.debouncer))
act m failing = ok (debounced m (report_failed m.default_values m.debouncer))
act m prepassing = ok (debounced m (report_prepassed m.default_values m.debouncer))
act m prefailing = ok (debounced m (report_prefailed m.default_values m.debouncer))
act m freeze_debouncing = ok (debounced m (freeze m.debouncer))
act m reset_debouncing = ok (debounced m (reset m.debouncer))
act m reset_test_failed = ok (clear_test_failed m)
act m fdc_threshold_reached = throws invalid_argument

unfoldable pub report_monitor_action : Monitor → MonitorAction → Result (Monitor × List ℕ)
report_monitor_action m action = if m.offered then act m action else ok (m, [])

unfoldable pub attach_event : Monitor → Event → Monitor
attach_event m e = record m { event = some e }

-- `Offer`: the monitor, whether the call succeeded, and the reasons. An offered one is an error.
unfoldable pub offer : Monitor → Monitor × Bool × List InitMonitorReason
offer m =
    if m.offered
    then (m, false, [])
    else (record m { offered = true }, true, (if m.has_init_monitor then reenabled ∷ [] else []))

unfoldable pub stop_offer : Monitor → Monitor × List InitMonitorReason
stop_offer m =
    if m.offered
    then (record m { offered = false }, (if m.has_init_monitor then disabled ∷ [] else []))
    else (m, [])
