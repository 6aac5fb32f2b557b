-- ===== src/Phm/Deadline.antt =====
-- src/ara/phm/supervisors/deadline_supervision.cpp. The worker thread waits once on the condition
-- variable; the wait ends by a time-out, by a notification, or by a spurious wake-up, so while the
-- worker waits a step `wake` is possible, whatever was notified. Times are in milliseconds.
pub mod Once
use adaptive_autosar.Prelude.{
  ◌≡◌, Bool, true, false, ◌||◌, not, if◌then◌else◌, Result, ok, throws, invalid_argument,
}
use adaptive_autosar.Prelude.Int.{ℤ, pos, ◌-ℤ◌, ltb_ℤ}
use adaptive_autosar.Phm.Elementary.{
  ElementarySupervision, deadline_supervision, new_elementary, well, expired, report,
}

-- The thread object: none yet, one that waits, one that has finished. The last two are joinable.
pub data Worker : Type 0 where
  absent waiting finished : Worker

pub record DeadlineSupervision : Type 0 where
  pub base : ElementarySupervision
  pub min_deadline : ℤ
  pub max_deadline : ℤ
  pub worker : Worker
  pub target_is_reached : Bool
  pub time_reference : ℤ

unfoldable pub new_deadline_supervision : ℤ → ℤ → Result DeadlineSupervision
new_deadline_supervision min_deadline max_deadline =
    if ltb_ℤ min_deadline max_deadline
    then (if ltb_ℤ (pos 0) max_deadline
        then ok (record {
          base = new_elementary deadline_supervision;
          min_deadline = min_deadline;
          max_deadline = max_deadline;
          worker = absent;
          target_is_reached = false;
          time_reference = pos 0;
        })
        else throws invalid_argument)
    else throws invalid_argument

unfoldable pub is_joinable : Worker → Bool
is_joinable absent = false
is_joinable waiting = true
is_joinable finished = true

unfoldable pub report_source_checkpoint : DeadlineSupervision → ℤ → DeadlineSupervision
report_source_checkpoint d now = record d {
  time_reference = now;
  target_is_reached = false;
  worker = if is_joinable d.worker then d.worker else waiting;
}

unfoldable pub report_target_checkpoint : DeadlineSupervision → DeadlineSupervision
report_target_checkpoint d = record d { target_is_reached = true }

-- `deadlineWorker` after its wait, at the time `now`.
unfoldable pub deadline_worker : DeadlineSupervision → Bool → ℤ → DeadlineSupervision
deadline_worker d timed_out now =
    if timed_out || not d.target_is_reached
    then record d { base = (report d.base expired).0; worker = finished }
    else if ltb_ℤ (now -ℤ d.time_reference) d.min_deadline
    then record d { base = (report d.base expired).0; worker = finished }
    else record d { base = (report d.base well).0; worker = finished }

pub data Step : DeadlineSupervision → DeadlineSupervision → Type 0 where
  source : (d : DeadlineSupervision) (now : ℤ) → Step d (report_source_checkpoint d now)
  target : (d : DeadlineSupervision) → Step d (report_target_checkpoint d)
  wake :
      (d : DeadlineSupervision) (timed_out : Bool) (now : ℤ)
      → d.worker ≡ waiting
      → Step d (deadline_worker d timed_out now)

pub data Steps : DeadlineSupervision → DeadlineSupervision → Type 0 where
  done : (d : DeadlineSupervision) → Steps d d
  next : (d e f : DeadlineSupervision) → Step d e → Steps e f → Steps d f
