-- ===== src/Phm/Alive/Expiry.antt =====
-- src/ara/phm/supervisors/alive_supervision.cpp: when a supervision expires.
use adaptive_autosar.Prelude.{
  ℕ, zero, suc, ◌+◌, ◌%◌, ◌^◌, ◌<◌, ◌≡◌, ◌≢◌, refl, ap, ◌∙◌, sym, true, false, List, [], ◌∷◌, arith,
  ltb, true-ne-false, Bool-cases, inl, inr, ltb→lt,
}
use adaptive_autosar.Phm.Elementary.{
  ElementarySupervision, well, failed, expired, report, transition, change, rank,
}
use adaptive_autosar.Phm.Alive.{
  AliveSupervision, report_aliveness, in_range, passed_cycle, failed_cycle, supervise, indicate,
  run,
}

pub report-status-failed :
    (b : ElementarySupervision) → b.status ≢ expired → (report b failed).0.status ≡ failed
unfolding report transition change rank
report-status-failed b h = ground arith

pub ne_failed-expired : failed ≡ expired → ⊥
ne_failed-expired e = cc

ne_well-expired : well ≡ expired → ⊥
ne_well-expired e = cc

pub report-status-expired : (b : ElementarySupervision) → (report b expired).0.status ≡ expired
unfolding report transition change rank
report-status-expired b = ground arith

report-status-well :
    (b : ElementarySupervision) → b.status ≢ expired → (report b well).0.status ≡ well
unfolding report transition change rank
report-status-well b h = ground arith

-- A supervision runs until it has expired, and then the failed cycles have used up the tolerance.
pub record IsConsistent (a : AliveSupervision) : Type 0 where
  pub tolerates : a.running ≡ true → a.alive_counter < a.tolerance
  pub runs : a.running ≡ true → a.base.status ≢ expired
  pub stops : a.running ≡ false → a.base.status ≡ expired
  pub byte : a.tolerance < 2 ^ 8

supervise_stopped : (a : AliveSupervision) → a.running ≡ false → supervise a ≡ a
unfolding supervise
supervise_stopped a h = simp (supervise, h)

supervise_passed :
    (a : AliveSupervision) → a.running ≡ true → in_range a ≡ true → supervise a ≡ passed_cycle a
unfolding supervise
supervise_passed a h i = simp (supervise, h, i)

pub supervise_failed :
    (a : AliveSupervision) → a.running ≡ true → in_range a ≡ false → supervise a ≡ failed_cycle a
unfolding supervise
supervise_failed a h i = simp (supervise, h, i)

passed_cycle-IsConsistent :
    (a : AliveSupervision) → a.running ≡ true → IsConsistent a → IsConsistent (passed_cycle a)
unfolding passed_cycle
passed_cycle-IsConsistent a running c = record {
  tolerates = λ r. ground (arith, c.tolerates running);
  runs = λ r e. ne_well-expired (sym (report-status-well a.base (c.runs running)) ∙ e);
  stops = λ s. absurd (true-ne-false (sym running ∙ s));
  byte = c.byte;
}

failed_cycle-IsConsistent :
    (a : AliveSupervision) → a.running ≡ true → IsConsistent a → IsConsistent (failed_cycle a)
unfolding failed_cycle
failed_cycle-IsConsistent a running c =
    elim (Bool-cases (ltb ((a.alive_counter + 1) % 2 ^ 8) a.tolerance)) [
      | inl within ↦
          rw (within, failed_cycle)
            (record {
              tolerates = λ r. ltb→lt _ _ within;
              runs =
                  λ r e. ne_failed-expired (sym (report-status-failed a.base (c.runs running)) ∙ e);
              stops = λ s. absurd (true-ne-false (sym running ∙ s));
              byte = c.byte;
            })
      | inr beyond ↦
          rw (beyond, failed_cycle)
            (record {
              tolerates = λ r. absurd (true-ne-false (sym r));
              runs = λ r. absurd (true-ne-false (sym r));
              stops = λ s. report-status-expired a.base;
              byte = c.byte;
            })
    ]

indicate-keeps :
    (a : AliveSupervision) (n : ℕ)
    → ((indicate a n).running ≡ a.running) × ((indicate a n).base ≡ a.base)
unfolding indicate report_aliveness
indicate-keeps a zero = (refl, refl)
indicate-keeps a (suc n) = elim (Bool-cases (ltb (indicate a n).indications 0xffff)) [
  | inl room ↦ rw (room, report_aliveness) (indicate-keeps a n)
  | inr full ↦ rw (full, report_aliveness) (indicate-keeps a n)
]

pub run-stopped :
    (a : AliveSupervision) (cycles : List ℕ)
    → a.running ≡ false
    → ((run a cycles).running ≡ false) × ((run a cycles).base ≡ a.base)
unfolding run
run-stopped a [] stopped = (stopped, refl)
run-stopped a (n ∷ cycles) stopped =
    let (r, b) = indicate-keeps a n in
    let still = supervise_stopped (indicate a n) (r ∙ stopped) in
    let (r2, b2) = run-stopped (indicate a n) cycles (r ∙ stopped) in rw (run, still) (r2, b2 ∙ b)

indicate-IsConsistent :
    (a : AliveSupervision) (n : ℕ) → IsConsistent a → IsConsistent (indicate a n)
unfolding indicate report_aliveness
indicate-IsConsistent a zero c = c
indicate-IsConsistent a (suc n) c = elim (Bool-cases (ltb (indicate a n).indications 0xffff)) [
  | inl room ↦
      rw (room, report_aliveness)
        (let before = indicate-IsConsistent a n c in
          record {
            tolerates = before.tolerates;
            runs = before.runs;
            stops = before.stops;
            byte = before.byte;
          })
  | inr full ↦ rw (full, report_aliveness) (indicate-IsConsistent a n c)
]

supervise-IsConsistent : (a : AliveSupervision) → IsConsistent a → IsConsistent (supervise a)
supervise-IsConsistent a c = elim (Bool-cases a.running) [
  | inr stopped ↦ rw (supervise_stopped a stopped) c
  | inl running ↦ elim (Bool-cases (in_range a)) [
    | inl passes ↦ rw (supervise_passed a running passes) (passed_cycle-IsConsistent a running c)
    | inr fails ↦ rw (supervise_failed a running fails) (failed_cycle-IsConsistent a running c)
  ]
]

-- Over any cycles, a supervision runs exactly until it has expired, and while it runs the counter
-- of failed cycles is below the tolerance.
pub run-IsConsistent :
    (a : AliveSupervision) (cycles : List ℕ) → IsConsistent a → IsConsistent (run a cycles)
unfolding run
run-IsConsistent a [] c = c
run-IsConsistent a (n ∷ cycles) c =
    run-IsConsistent (supervise (indicate a n)) cycles
      (supervise-IsConsistent (indicate a n) (indicate-IsConsistent a n c))

-- A supervision that is consistent and has expired stays expired over any cycles.
pub run-expired :
    (a : AliveSupervision) (cycles : List ℕ)
    → IsConsistent a
    → a.base.status ≡ expired
    → (run a cycles).base.status ≡ expired
run-expired a cycles c over = elim (Bool-cases a.running) [
  | inl running ↦ absurd (c.runs running over)
  | inr stopped ↦ ap (λ b. b.status) (run-stopped a cycles stopped).1 ∙ over
]
