-- ===== src/Diag/Monitor/Reports.antt =====
-- src/ara/diag/debouncing: what a report passes to the callback.
use adaptive_autosar.Prelude.{
  ◌≡◌, ◌⊎◌, refl, ap, Bool, true, ◌&&◌, List, [], Bool-cases, inl, inr, if◌then◌else◌,
}
use adaptive_autosar.Prelude.Int.{pos, ◌+ℤ◌, ◌-ℤ◌, leb_ℤ, ltb_ℤ}
use adaptive_autosar.Diag.Debouncer.{
  EventStatus, passed, failed, CounterBased, Debouncer, same_status, notifications,
  set_event_status, report_prepassed, report_prefailed,
}

-- A report's result: the status and no calls, or a status with its calls.
unfoldable pub Reports : Debouncer → Debouncer × List Bool → Type 0
Reports d result =
    (result.0.has_callback ≡ d.has_callback)
    × (((result.0.event_status ≡ d.event_status) × (result.1 ≡ []))
        ⊎ ((status : EventStatus) × (result.0.event_status ≡ status)
            × (result.1 ≡ notifications status)))

pub set_event_status-Reports :
    (d : Debouncer) (status : EventStatus)
    → d.has_callback ≡ true
    → Reports d (set_event_status d status)
unfolding set_event_status Reports
set_event_status-Reports d status calls = elim (Bool-cases (same_status d.event_status status)) [
  | inl same ↦ rw (same, set_event_status) (refl, inl (refl, refl))
  | inr other ↦
      rw (other, set_event_status)
        (refl, inr (status, refl, ap (λ b. if b then notifications status else []) calls))
]

pub report_prepassed-Reports :
    (c : CounterBased) (d : Debouncer) → d.has_callback ≡ true → Reports d (report_prepassed c d)
unfolding report_prepassed Reports
report_prepassed-Reports c d calls =
    elim (Bool-cases (leb_ℤ (d.fdc -ℤ pos c.passed_stepsize) c.passed_threshold)) [
      | inl reached ↦
          rw (reached, report_prepassed)
            (set_event_status-Reports (record d { fdc = c.passed_threshold }) passed calls)
      | inr short ↦ elim (Bool-cases (c.use_jump_to_passed && ltb_ℤ c.passed_jump_value d.fdc)) [
        | inl jumps ↦ rw (short, jumps, report_prepassed) (refl, inl (refl, refl))
        | inr steps ↦ rw (short, steps, report_prepassed) (refl, inl (refl, refl))
      ]
    ]

pub report_prefailed-Reports :
    (c : CounterBased) (d : Debouncer) → d.has_callback ≡ true → Reports d (report_prefailed c d)
unfolding report_prefailed Reports
report_prefailed-Reports c d calls =
    elim (Bool-cases (leb_ℤ c.failed_threshold (d.fdc +ℤ pos c.failed_stepsize))) [
      | inl reached ↦
          rw (reached, report_prefailed)
            (set_event_status-Reports (record d { fdc = c.failed_threshold }) failed calls)
      | inr short ↦ elim (Bool-cases (c.use_jump_to_failed && ltb_ℤ d.fdc c.failed_jump_value)) [
        | inl jumps ↦ rw (short, jumps, report_prefailed) (refl, inl (refl, refl))
        | inr steps ↦ rw (short, steps, report_prefailed) (refl, inl (refl, refl))
      ]
    ]
