-- ===== src/Diag/Monitor/Tests.antt =====
-- src/ara/diag/monitor.cpp: a monitor that fails, whose test-failed bit is cleared, and that
-- passes.
use adaptive_autosar.Prelude.{refl, true, false, some, [], ◌∷◌, arith}
use adaptive_autosar.Prelude.Int.{pos, negsuc}
use adaptive_autosar.Diag.Debouncer.{
  same_status, notifications, set_event_status, report_passed, report_failed, CounterBased, pending,
  passed,
}
use adaptive_autosar.Diag.Event.{
  Event, set_fault_detection_counter, set_event_status_bits, set_bits, set_bit, position,
}
use adaptive_autosar.Diag.Monitor.{
  report_monitor_action, act, debounced, clear_test_failed, on_calls, on_event_status_changed,
  Monitor, passing, failing, reset_test_failed,
}
use adaptive_autosar.Diag.Monitor.Shown.{Shows}
use adaptive_autosar.Diag.Monitor.Agreement.{IsAgreed, run_actions, run_actions-IsAgreed}

abbrev ten_steps : CounterBased
ten_steps = record {
  failed_threshold = pos 10;
  passed_threshold = negsuc 9;
  failed_stepsize = 1;
  passed_stepsize = 1;
  failed_jump_value = pos 0;
  passed_jump_value = pos 0;
  use_jump_to_failed = false;
  use_jump_to_passed = false;
}

abbrev new_event_attached : Event
new_event_attached = record {
  encoded_bits = 0x02;
  has_notifier = true;
  wir_status = false;
  dtc_number = 0;
  fdc = pos 0;
}

abbrev offered_monitor : Monitor
offered_monitor = record {
  default_values = ten_steps;
  debouncer = record { event_status = pending; has_callback = true; fdc = pos 0 };
  event = some new_event_attached;
  offered = true;
  has_init_monitor = false;
}

abbrev healed_monitor : Monitor
healed_monitor = record {
  default_values = ten_steps;
  debouncer = record { event_status = passed; has_callback = true; fdc = negsuc 9 };
  event = some (record {
    encoded_bits = 0;
    has_notifier = true;
    wir_status = false;
    dtc_number = 0;
    fdc = negsuc 127;
  });
  offered = true;
  has_init_monitor = false;
}

run_actions-IsAgreed_example : IsAgreed healed_monitor
unfolding Shows run_actions report_monitor_action act debounced clear_test_failed on_calls
    on_event_status_changed set_fault_detection_counter set_event_status_bits set_bits set_bit
    position report_passed report_failed set_event_status notifications same_status
run_actions-IsAgreed_example =
    run_actions-IsAgreed offered_monitor (failing ∷ reset_test_failed ∷ passing ∷ []) healed_monitor
      (record {
        shown = new_event_attached;
        attached = refl;
        calls = refl;
        byte = omega arith;
        shows = tt;
      })
      refl
