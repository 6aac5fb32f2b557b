-- ===== src/Diag/Monitor/Agreement.antt =====
-- src/ara/diag/monitor.cpp: the event of a monitor against its debouncer.
use adaptive_autosar.Prelude.{
  ℕ, ◌^◌, ◌<◌, ◌≡◌, refl, sym, ap, ◌∙◌, transport, Bool, true, false, some, List, [], ◌∷◌,
  Bool-cases, inl, inr, Result, ok, >>=-eq-ok, ok-inj, ◌>>=◌,
}
use adaptive_autosar.Prelude.Int.{pos}
use adaptive_autosar.Diag.Debouncer.{
  passed, pending, failed, Debouncer, notifications, report_passed, report_failed, reset, freeze,
}
use adaptive_autosar.Diag.Event.{Event, test_failed, set_event_status_bits}
use adaptive_autosar.Diag.Monitor.{
  Monitor, MonitorAction, passing, failing, prepassing, prefailing, fdc_threshold_reached,
  reset_test_failed, freeze_debouncing, reset_debouncing, on_calls, debounced, clear_test_failed,
  act, report_monitor_action,
}
use adaptive_autosar.Diag.Monitor.Reports.{
  Reports, set_event_status-Reports, report_prepassed-Reports, report_prefailed-Reports,
}
use adaptive_autosar.Diag.Monitor.Shown.{Shows, on_calls-Shows, cleared-Shows}

-- The event attached to a monitor shows the status of its debouncer, which calls the monitor.
pub record IsAgreed (m : Monitor) : Type 0 where
  pub shown : Event
  pub attached : m.event ≡ some shown
  pub calls : m.debouncer.has_callback ≡ true
  pub byte : shown.encoded_bits < 2 ^ 8
  pub shows : Shows m.debouncer.event_status shown

debounced-some :
    (m : Monitor) (result : Debouncer × List Bool) (e : Event)
    → m.event ≡ some e
    → debounced m result ≡ (
      record m { debouncer = result.0; event = some (on_calls e result.1).0 },
      (on_calls e result.1).1,
    )
unfolding debounced
debounced-some m result e h = simp (debounced, h)

on_calls_none : (e : Event) → some (on_calls e []).0 ≡ some e
unfolding on_calls
on_calls_none e = refl

debounced-IsAgreed :
    (m : Monitor) (result : Debouncer × List Bool)
    → IsAgreed m
    → Reports m.debouncer result
    → IsAgreed (debounced m result).0
unfolding Reports
debounced-IsAgreed m result i (same_callback, change) =
    rw (debounced-some m result i.shown i.attached) (elim change [
      | inl (same, quiet) ↦ record {
        shown = i.shown;
        attached = ap (λ c. some (on_calls i.shown c).0) quiet ∙ on_calls_none i.shown;
        calls = same_callback ∙ i.calls;
        byte = i.byte;
        shows = rw (same) i.shows;
      }
      | inr (status, new_status, loud) ↦
          let (byte, shows) = on_calls-Shows i.shown status i.byte in
          record {
            shown = (on_calls i.shown (notifications status)).0;
            attached = ap (λ c. some (on_calls i.shown c).0) loud;
            calls = same_callback ∙ i.calls;
            byte = byte;
            shows = rw (new_status) shows;
          }
    ])

clear_test_failed-some :
    (m : Monitor) (e : Event)
    → m.event ≡ some e
    → clear_test_failed m ≡ (
      record m { event = some (set_event_status_bits e ((test_failed, false) ∷ [])).0 },
      (set_event_status_bits e ((test_failed, false) ∷ [])).1,
    )
unfolding clear_test_failed
clear_test_failed-some m e h = simp (clear_test_failed, h)

clear_test_failed-IsAgreed : (m : Monitor) → IsAgreed m → IsAgreed (clear_test_failed m).0
unfolding clear_test_failed
clear_test_failed-IsAgreed m i =
    let (byte, shows) = cleared-Shows i.shown m.debouncer.event_status i.byte i.shows in
    let cleared = (set_event_status_bits i.shown ((test_failed, false) ∷ [])).0 in
    let e : (clear_test_failed m).0 ≡ record m { event = some cleared } =
      ap (λ p. p.0) (clear_test_failed-some m i.shown i.attached) in
    rw (e)
      (record { shown = cleared; attached = refl; calls = i.calls; byte = byte; shows = shows })

ok-IsAgreed :
    (m : Monitor) (result : Debouncer × List Bool) (next : Monitor × List ℕ)
    → IsAgreed m
    → ok (debounced m result) ≡ ok next
    → Reports m.debouncer result
    → IsAgreed next.0
ok-IsAgreed m result next i e reports =
    transport (ap (λ p. IsAgreed p.0) (ok-inj e)) (debounced-IsAgreed m result i reports)

act-IsAgreed :
    (m : Monitor) (action : MonitorAction) (next : Monitor × List ℕ)
    → IsAgreed m
    → act m action ≡ ok next
    → IsAgreed next.0
unfolding act report_passed report_failed reset freeze Reports
act-IsAgreed m passing next i e = ok-IsAgreed m _ next i e (
    set_event_status-Reports (record m.debouncer { fdc = m.default_values.passed_threshold }) passed
      i.calls)
act-IsAgreed m failing next i e = ok-IsAgreed m _ next i e (
    set_event_status-Reports (record m.debouncer { fdc = m.default_values.failed_threshold }) failed
      i.calls)
act-IsAgreed m prepassing next i e =
    ok-IsAgreed m _ next i e (report_prepassed-Reports m.default_values m.debouncer i.calls)
act-IsAgreed m prefailing next i e =
    ok-IsAgreed m _ next i e (report_prefailed-Reports m.default_values m.debouncer i.calls)
act-IsAgreed m freeze_debouncing next i e =
    ok-IsAgreed m _ next i e
      (set_event_status-Reports (record m.debouncer { fdc = pos 0 }) pending i.calls)
act-IsAgreed m reset_debouncing next i e =
    ok-IsAgreed m _ next i e
      (set_event_status-Reports (record m.debouncer { fdc = pos 0 }) pending i.calls)
act-IsAgreed m reset_test_failed next i e =
    transport (ap (λ p. IsAgreed p.0) (ok-inj e)) (clear_test_failed-IsAgreed m i)
act-IsAgreed m fdc_threshold_reached next i e = cc

report_offered :
    (m : Monitor) (action : MonitorAction)
    → m.offered ≡ true
    → report_monitor_action m action ≡ act m action
unfolding report_monitor_action
report_offered m action h = simp (report_monitor_action, h)

report_not_offered :
    (m : Monitor) (action : MonitorAction)
    → m.offered ≡ false
    → report_monitor_action m action ≡ ok (m, [])
unfolding report_monitor_action
report_not_offered m action h = simp (report_monitor_action, h)

report_monitor_action-IsAgreed :
    (m : Monitor) (action : MonitorAction) (next : Monitor × List ℕ)
    → IsAgreed m
    → report_monitor_action m action ≡ ok next
    → IsAgreed next.0
report_monitor_action-IsAgreed m action next i e = elim (Bool-cases m.offered) [
  | inl offered ↦ act-IsAgreed m action next i (sym (report_offered m action offered) ∙ e)
  | inr not_offered ↦
      transport
        (ap (λ p. IsAgreed p.0) (ok-inj (sym (report_not_offered m action not_offered) ∙ e))) i
]

-- The monitor after actions, each of which is supported.
unfoldable pub run_actions : Monitor → List MonitorAction → Result Monitor
run_actions m [] = ok m
run_actions m (action ∷ actions) =
    report_monitor_action m action >>= λ next. run_actions next.0 actions

-- Over any actions that are supported, whether the monitor is offered or not, the event attached to
-- it shows the status of the debouncer: when it is failed, the event is finally defective, and when
-- it is passed, the event is finally healed and its bit for a failed test is clear; in both cases
-- the bit for a test not completed in the operation cycle is clear.
pub run_actions-IsAgreed :
    (m : Monitor) (actions : List MonitorAction) (final : Monitor)
    → IsAgreed m
    → run_actions m actions ≡ ok final
    → IsAgreed final
unfolding run_actions
run_actions-IsAgreed m [] final i e = transport (ap IsAgreed (ok-inj e)) i
run_actions-IsAgreed m (action ∷ actions) final i e =
    let (next, e1, e2) = >>=-eq-ok (report_monitor_action m action) _ e in
    run_actions-IsAgreed next.0 actions final (report_monitor_action-IsAgreed m action next i e1) e2
