-- ===== src/Phm/Tests.antt =====
-- src/ara/phm: an alive supervision that expects two to four indications and tolerates two missed
-- cycles, a deadline supervision, and a global supervision of two.
use adaptive_autosar.Prelude.{◌≡◌, refl, true, [], ◌∷◌, arith, inl, inr}
use adaptive_autosar.Prelude.Int.{pos}
use adaptive_autosar.Phm.Elementary.{
  ElementarySupervision, SupervisionStatus, TypeOfSupervision, alive_supervision,
  deadline_supervision, well, failed, expired, rank,
}
use adaptive_autosar.Phm.Alive.{AliveSupervision}
use adaptive_autosar.Phm.Alive.Margins.{constructed}
use adaptive_autosar.Phm.Deadline.{
  DeadlineSupervision, finished, done, next, source, target, report_source_checkpoint,
  report_target_checkpoint,
}
use adaptive_autosar.Phm.Deadline.Once.{Steps-finished}
use adaptive_autosar.Phm.Global.{GlobalSupervision, report_elementary}
use adaptive_autosar.Phm.Global.Maximum.{IsGlobal, AllBelow, Has, AllCall, statuses}
use adaptive_autosar.Phm.Global.Reports.{IsReported, report_elementary-IsReported}

abbrev two_to_four : AliveSupervision
two_to_four = constructed 3 1 1 2

abbrev decided : DeadlineSupervision
decided = record {
  base = record { supervision_type = deadline_supervision; status = well; has_callback = true };
  min_deadline = pos 10;
  max_deadline = pos 100;
  worker = finished;
  target_is_reached = true;
  time_reference = pos 0;
}

abbrev late_again : DeadlineSupervision
late_again = report_target_checkpoint (report_source_checkpoint decided (pos 1000))

Steps-finished_example : (late_again.worker ≡ finished) × (late_again.base ≡ decided.base)
Steps-finished_example =
    Steps-finished
      (next decided (report_source_checkpoint decided (pos 1000)) late_again
        (source decided (pos 1000))
        (next (report_source_checkpoint decided (pos 1000)) late_again late_again
          (target (report_source_checkpoint decided (pos 1000))) (done late_again)))
      refl

abbrev supervisor : TypeOfSupervision → SupervisionStatus → ElementarySupervision
supervisor supervision_type status = record {
  supervision_type = supervision_type;
  status = status;
  has_callback = true;
}

abbrev two_supervisors : GlobalSupervision
two_supervisors = record {
  supervisors = supervisor alive_supervision well ∷ supervisor deadline_supervision failed ∷ [];
  status = failed;
  has_callback = true;
}

two_supervisors-IsGlobal : IsGlobal two_supervisors
unfolding AllBelow Has AllCall statuses rank
two_supervisors-IsGlobal = record {
  worst = record { bounds = (omega arith, (omega arith, tt)); has = inr (inl refl) };
  calls = (refl, (refl, tt));
}

report_elementary-IsReported_example :
    IsReported two_supervisors (report_elementary two_supervisors 0 expired)
report_elementary-IsReported_example =
    report_elementary-IsReported two_supervisors 0 expired two_supervisors-IsGlobal refl
