-- ===== src/Diag/Debouncer/Bounds.antt =====
-- src/ara/diag/debouncing: the range of the fault detection counter, against its thresholds.
use adaptive_autosar.Prelude.{
  ◌≡◌, refl, Bool, List, [], ◌∷◌, ◌&&◌, arith, Bool-cases, inl, inr, leb→gt,
}
use adaptive_autosar.Prelude.Int.{pos, ◌+ℤ◌, ◌-ℤ◌, ◌≤ℤ◌, leb_ℤ, ltb_ℤ, +ℤ_parts, -ℤ_parts}
use adaptive_autosar.Diag.Debouncer.{
  EventStatus, passed, pending, failed, CounterBased, Debouncer, set_event_status, report_prepassed,
  report_passed, report_prefailed, report_failed, reset, freeze, same_status,
}

-- A configuration whose thresholds enclose zero and the jump values.
pub record IsConfigured (c : CounterBased) : Type 0 where
  pub heals : c.passed_threshold ≤ℤ pos 0
  pub fails : pos 0 ≤ℤ c.failed_threshold
  pub passed_low : c.passed_threshold ≤ℤ c.passed_jump_value
  pub passed_high : c.passed_jump_value ≤ℤ c.failed_threshold
  pub failed_low : c.passed_threshold ≤ℤ c.failed_jump_value
  pub failed_high : c.failed_jump_value ≤ℤ c.failed_threshold

pub record IsBounded (c : CounterBased) (d : Debouncer) : Type 0 where
  pub low : c.passed_threshold ≤ℤ d.fdc
  pub high : d.fdc ≤ℤ c.failed_threshold

pub data Report : Type 0 where
  prepassed passing prefailed failing freezing resetting : Report

unfoldable pub report : CounterBased → Debouncer → Report → Debouncer × List Bool
report c d prepassed = report_prepassed c d
report c d passing = report_passed c d
report c d prefailed = report_prefailed c d
report c d failing = report_failed c d
report c d freezing = freeze d
report c d resetting = reset d

set_event_status-fdc :
    (d : Debouncer) (status : EventStatus) → (set_event_status d status).0.fdc ≡ d.fdc
unfolding set_event_status
set_event_status-fdc d status = elim (Bool-cases (same_status d.event_status status)) [
  | inl same ↦ rw (same, set_event_status) refl
  | inr other ↦ rw (other, set_event_status) refl
]

report_prepassed-fdc :
    (c : CounterBased) (d : Debouncer)
    → IsConfigured c
    → IsBounded c d
    → (c.passed_threshold ≤ℤ (report_prepassed c d).0.fdc)
      × ((report_prepassed c d).0.fdc ≤ℤ c.failed_threshold)
unfolding report_prepassed
report_prepassed-fdc c d ok b =
    elim (Bool-cases (leb_ℤ (d.fdc -ℤ pos c.passed_stepsize) c.passed_threshold)) [
      | inl reached ↦ rw (reached, report_prepassed, set_event_status-fdc) (omega arith)
      | inr short ↦ elim (Bool-cases (c.use_jump_to_passed && ltb_ℤ c.passed_jump_value d.fdc)) [
        | inl jumps ↦ rw (short, jumps, report_prepassed) (omega arith)
        | inr steps ↦
            rw (short, steps, report_prepassed)
              (omega (arith, leb→gt _ _ short, -ℤ_parts d.fdc (pos c.passed_stepsize)))
      ]
    ]

report_prefailed-fdc :
    (c : CounterBased) (d : Debouncer)
    → IsConfigured c
    → IsBounded c d
    → (c.passed_threshold ≤ℤ (report_prefailed c d).0.fdc)
      × ((report_prefailed c d).0.fdc ≤ℤ c.failed_threshold)
unfolding report_prefailed
report_prefailed-fdc c d ok b =
    elim (Bool-cases (leb_ℤ c.failed_threshold (d.fdc +ℤ pos c.failed_stepsize))) [
      | inl reached ↦ rw (reached, report_prefailed, set_event_status-fdc) (omega arith)
      | inr short ↦ elim (Bool-cases (c.use_jump_to_failed && ltb_ℤ d.fdc c.failed_jump_value)) [
        | inl jumps ↦ rw (short, jumps, report_prefailed) (omega arith)
        | inr steps ↦
            rw (short, steps, report_prefailed)
              (omega (arith, leb→gt _ _ short, +ℤ_parts d.fdc (pos c.failed_stepsize)))
      ]
    ]

unfoldable pub run : CounterBased → Debouncer → List Report → Debouncer
unfolding report
run c d [] = d
run c d (r ∷ reports) = run c (report c d r).0 reports

report-IsBounded :
    (c : CounterBased) (d : Debouncer) (r : Report)
    → IsConfigured c
    → IsBounded c d
    → IsBounded c (report c d r).0
unfolding report report_passed report_failed freeze reset
report-IsBounded c d prepassed ok b =
    let (low, high) = report_prepassed-fdc c d ok b in record { low = low; high = high }
report-IsBounded c d prefailed ok b =
    let (low, high) = report_prefailed-fdc c d ok b in record { low = low; high = high }
report-IsBounded c d passing ok b =
    let e = set_event_status-fdc (record d { fdc = c.passed_threshold }) passed in
    record { low = rw e (omega arith); high = rw e (omega arith) }
report-IsBounded c d failing ok b =
    let e = set_event_status-fdc (record d { fdc = c.failed_threshold }) failed in
    record { low = rw e (omega arith); high = rw e (omega arith) }
report-IsBounded c d freezing ok b =
    let e = set_event_status-fdc (record d { fdc = pos 0 }) pending in
    record { low = rw e ok.heals; high = rw e ok.fails }
report-IsBounded c d resetting ok b =
    let e = set_event_status-fdc (record d { fdc = pos 0 }) pending in
    record { low = rw e ok.heals; high = rw e ok.fails }

-- With thresholds that enclose zero and the jump values, the fault detection counter of a counter-
-- based debouncer that starts between the thresholds stays there over any reports.
pub run-IsBounded :
    (c : CounterBased) (d : Debouncer) (reports : List Report)
    → IsConfigured c
    → IsBounded c d
    → IsBounded c (run c d reports)
unfolding run
run-IsBounded c d [] ok b = b
run-IsBounded c d (r ∷ reports) ok b =
    run-IsBounded c (report c d r).0 reports ok (report-IsBounded c d r ok b)
