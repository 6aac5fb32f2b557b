-- ===== src/Diag/Debouncer/Steps.antt =====
-- src/ara/diag/debouncing: how many reports it takes until an event has failed.
use adaptive_autosar.Prelude.{
  ℕ, zero, suc, ◌+◌, ◌*◌, ◌≡◌, refl, ap, ◌∙◌, true, false, arith, Bool-cases, inl, inr, leb→gt,
  leb_gt,
}
use adaptive_autosar.Prelude.Int.{ℤ, pos, ◌+ℤ◌, leb_ℤ, +ℤ_parts, eq_of_parts}
use adaptive_autosar.Diag.Debouncer.{
  EventStatus, passed, pending, failed, CounterBased, Debouncer, set_event_status, report_prefailed,
  same_status,
}

unfoldable pub prefail : CounterBased → Debouncer → ℕ → Debouncer
prefail c d zero = d
prefail c d (suc n) = (report_prefailed c (prefail c d n)).0

-- The counter after n reports that do not reach the threshold.
unfoldable pub counted : CounterBased → Debouncer → ℕ → ℤ
counted c d n = d.fdc +ℤ pos (n * c.failed_stepsize)

same_status-eq : (a b : EventStatus) → same_status a b ≡ true → a ≡ b
unfolding same_status
same_status-eq passed passed h = refl
same_status-eq pending pending h = refl
same_status-eq failed failed h = refl
same_status-eq passed pending h = cc
same_status-eq passed failed h = cc
same_status-eq pending passed h = cc
same_status-eq pending failed h = cc
same_status-eq failed passed h = cc
same_status-eq failed pending h = cc

set_event_status-status :
    (d : Debouncer) (status : EventStatus) → (set_event_status d status).0.event_status ≡ status
unfolding set_event_status
set_event_status-status d status = elim (Bool-cases (same_status d.event_status status)) [
  | inl same ↦ rw (same, set_event_status) (same_status-eq d.event_status status same)
  | inr other ↦ rw (other, set_event_status) refl
]

suc_times : (n step : ℕ) → suc n * step ≡ n * step + step
suc_times n step = omega arith

counted-suc :
    (c : CounterBased) (d : Debouncer) (n : ℕ)
    → counted c d n +ℤ pos c.failed_stepsize ≡ counted c d (suc n)
unfolding counted
counted-suc c d n = eq_of_parts (counted c d n +ℤ pos c.failed_stepsize) (counted c d (suc n)) (
    omega (
      arith,
      suc_times n c.failed_stepsize,
      +ℤ_parts (counted c d n) (pos c.failed_stepsize),
      +ℤ_parts d.fdc (pos (n * c.failed_stepsize)),
      +ℤ_parts d.fdc (pos (suc n * c.failed_stepsize)),
    ))

counted-zero : (c : CounterBased) (d : Debouncer) → d.fdc ≡ counted c d zero
unfolding counted
counted-zero c d =
    eq_of_parts d.fdc (counted c d zero)
      (omega (arith, +ℤ_parts d.fdc (pos (zero * c.failed_stepsize))))

short_before :
    (c : CounterBased) (d : Debouncer) (n : ℕ)
    → leb_ℤ c.failed_threshold (counted c d (suc n)) ≡ false
    → leb_ℤ c.failed_threshold (counted c d n) ≡ false
unfolding counted
short_before c d n h = leb_gt _ _ (
    omega (
      arith,
      leb→gt _ _ h,
      suc_times n c.failed_stepsize,
      +ℤ_parts d.fdc (pos (n * c.failed_stepsize)),
      +ℤ_parts d.fdc (pos (suc n * c.failed_stepsize)),
    ))

report_prefailed-short :
    (c : CounterBased) (d : Debouncer) (next : ℤ)
    → c.use_jump_to_failed ≡ false
    → d.fdc +ℤ pos c.failed_stepsize ≡ next
    → leb_ℤ c.failed_threshold next ≡ false
    → (report_prefailed c d).0 ≡ record d { fdc = next }
unfolding report_prefailed
report_prefailed-short c d next jump e short = rw (e, short, jump) refl

prefail-counted :
    (c : CounterBased) (d : Debouncer) (n : ℕ)
    → c.use_jump_to_failed ≡ false
    → leb_ℤ c.failed_threshold (counted c d n) ≡ false
    → prefail c d n ≡ record d { fdc = counted c d n }
unfolding prefail
prefail-counted c d zero jump short = ap (λ f. record d { fdc = f }) (counted-zero c d)
prefail-counted c d (suc n) jump short =
    let before = prefail-counted c d n jump (short_before c d n short) in
    ap (λ e. (report_prefailed c e).0) before
    ∙ report_prefailed-short c (record d { fdc = counted c d n }) (counted c d (suc n)) jump
        (counted-suc c d n) short

report_prefailed-reached :
    (c : CounterBased) (d : Debouncer) (next : ℤ)
    → d.fdc +ℤ pos c.failed_stepsize ≡ next
    → leb_ℤ c.failed_threshold next ≡ true
    → (report_prefailed c d).0.event_status ≡ failed
unfolding report_prefailed
report_prefailed-reached c d next e reached =
    rw (e, reached) (set_event_status-status (record d { fdc = c.failed_threshold }) failed)

-- Without jumps, prefailed reports leave the status alone while the counter with their steps is
-- below the failed threshold, and the first report that brings it there makes the event failed.
prefail-fails :
    (c : CounterBased) (d : Debouncer) (n : ℕ)
    → c.use_jump_to_failed ≡ false
    → leb_ℤ c.failed_threshold (counted c d n) ≡ false
    → leb_ℤ c.failed_threshold (counted c d (suc n)) ≡ true
    → (prefail c d n ≡ record d { fdc = counted c d n })
      × ((prefail c d (suc n)).event_status ≡ failed)
unfolding prefail
prefail-fails c d n jump short reached =
    let before = prefail-counted c d n jump short in
    (
      before,
      ap (λ e. (report_prefailed c e).0.event_status) before
          ∙ report_prefailed-reached c (record d { fdc = counted c d n }) (counted c d (suc n))
              (counted-suc c d n) reached,
    )
