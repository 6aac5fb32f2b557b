-- ===== src/Phm/Deadline/Once.antt =====
-- src/ara/phm/supervisors/deadline_supervision.cpp: what the worker decides, and how often.
use adaptive_autosar.Prelude.{
  ◌≡◌, ◌≢◌, ◌↔◌, ◌⊎◌, refl, sym, ◌∙◌, Bool, true, false, not, ◌||◌, if◌then◌else◌, arith,
  Bool-cases, inl, inr,
}
use adaptive_autosar.Prelude.Int.{ℤ, ◌-ℤ◌, ltb_ℤ}
use adaptive_autosar.Phm.Elementary.{
  ElementarySupervision, deactivated, well, expired, report, transition, change, rank,
}
use adaptive_autosar.Phm.Deadline.{
  Worker, DeadlineSupervision, absent, waiting, finished, is_joinable, report_source_checkpoint,
  report_target_checkpoint, deadline_worker, Step, source, target, wake, Steps, done, next,
}

-- The worker has decided exactly when it has finished, and a decision is not `failed`.
pub record IsDecided (d : DeadlineSupervision) : Type 0 where
  pub before : d.worker ≢ finished → d.base.status ≡ deactivated
  pub after : d.worker ≡ finished → (d.base.status ≡ well) ⊎ (d.base.status ≡ expired)

Worker-cases : (w : Worker) → (w ≡ absent) ⊎ ((w ≡ waiting) ⊎ (w ≡ finished))
Worker-cases absent = inl refl
Worker-cases waiting = inr (inl refl)
Worker-cases finished = inr (inr refl)

source_worker : (w : Worker) → ((if is_joinable w then w else waiting) ≡ finished) ↔ (w ≡ finished)
unfolding is_joinable
source_worker w = ground arith

report-decides :
    (b : ElementarySupervision)
    → b.status ≡ deactivated
    → ((report b expired).0.status ≡ expired) × ((report b well).0.status ≡ well)
unfolding report transition change rank
report-decides b h = ground arith

deadline_worker-finished :
    (d : DeadlineSupervision) (timed_out : Bool) (now : ℤ)
    → d.base.status ≡ deactivated
    → ((deadline_worker d timed_out now).worker ≡ finished)
      × (((deadline_worker d timed_out now).base.status ≡ well)
          ⊎ ((deadline_worker d timed_out now).base.status ≡ expired))
unfolding deadline_worker
deadline_worker-finished d timed_out now fresh =
    let (e, w) = report-decides d.base fresh in
    elim (Bool-cases (timed_out || not d.target_is_reached)) [
      | inl late ↦ rw (late, deadline_worker) (refl, inr e)
      | inr reached ↦ elim (Bool-cases (ltb_ℤ (now -ℤ d.time_reference) d.min_deadline)) [
        | inl early ↦ rw (reached, deadline_worker, early) (refl, inr e)
        | inr timely ↦ rw (reached, deadline_worker, timely) (refl, inl w)
      ]
    ]

Step-IsDecided : {d e : DeadlineSupervision} → Step d e → IsDecided d → IsDecided e
unfolding report_source_checkpoint report_target_checkpoint
Step-IsDecided (source d now) i = record {
  before = λ w. i.before (λ f. w ((source_worker d.worker).1 f));
  after = λ w. i.after ((source_worker d.worker).0 w);
}
Step-IsDecided (target d) i = record { before = i.before; after = i.after }
Step-IsDecided (wake d timed_out now waits) i =
    let (f, s) = deadline_worker-finished d timed_out now (i.before (λ e. cc)) in
    record { before = λ w. absurd (w f); after = λ w. s }

-- Along any steps of checkpoints and wake-ups, the supervision is deactivated until the worker has
-- finished, and correct or expired once it has.
pub Steps-IsDecided : {d e : DeadlineSupervision} → Steps d e → IsDecided d → IsDecided e
Steps-IsDecided (done d) i = i
Steps-IsDecided (next d e f step steps) i = Steps-IsDecided steps (Step-IsDecided step i)

waiting-ne-finished : waiting ≡ finished → ⊥
waiting-ne-finished e = cc

Step-finished :
    {d e : DeadlineSupervision}
    → Step d e
    → d.worker ≡ finished
    → (e.worker ≡ finished) × (e.base ≡ d.base)
unfolding report_source_checkpoint report_target_checkpoint
Step-finished (source d now) f = ((source_worker d.worker).1 f, refl)
Step-finished (target d) f = (f, refl)
Step-finished (wake d timed_out now waits) f = absurd (waiting-ne-finished (sym waits ∙ f))

-- Once the worker has finished, no checkpoints start it again: its thread stays joinable, and along
-- any steps the status stays what it is.
pub Steps-finished :
    {d e : DeadlineSupervision}
    → Steps d e
    → d.worker ≡ finished
    → (e.worker ≡ finished) × (e.base ≡ d.base)
Steps-finished (done d) f = (f, refl)
Steps-finished (next d e f step steps) w =
    let (w1, b1) = Step-finished step w in let (w2, b2) = Steps-finished steps w1 in (w2, b2 ∙ b1)

-- From a deactivated supervision, the worker reports a correct supervision exactly when it
-- was not timed out, the target checkpoint is reached, and the minimum deadline has passed by then.
pub deadline_worker-well :
    (d : DeadlineSupervision) (timed_out : Bool) (now : ℤ)
    → d.base.status ≡ deactivated
    → ((deadline_worker d timed_out now).base.status ≡ well)
      ↔ (timed_out ≡ false)
        × (d.target_is_reached ≡ true)
        × (ltb_ℤ (now -ℤ d.time_reference) d.min_deadline ≡ false)
unfolding deadline_worker report transition change rank
deadline_worker-well d timed_out now fresh = ground arith
