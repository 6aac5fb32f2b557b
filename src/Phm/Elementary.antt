-- ===== src/Phm/Elementary.antt =====
-- src/ara/phm/supervisors/elementary_supervision.cpp: the status of one supervision. A call returns
-- what it passes to the callback.
use adaptive_autosar.Prelude.{ℕ, Bool, true, false, List, [], ◌∷◌, if◌then◌else◌, ◌==◌}

pub data SupervisionStatus : Type 0 where
  deactivated well failed expired : SupervisionStatus

pub data TypeOfSupervision : Type 0 where
  alive_supervision deadline_supervision logical_supervision : TypeOfSupervision

-- The values of the enumeration, which the source compares.
unfoldable pub rank : SupervisionStatus → ℕ
rank deactivated = 0
rank well = 1
rank failed = 2
rank expired = 3

pub record ElementarySupervision : Type 0 where
  pub supervision_type : TypeOfSupervision
  pub status : SupervisionStatus
  pub has_callback : Bool

unfoldable pub new_elementary : TypeOfSupervision → ElementarySupervision
new_elementary supervision_type = record {
  supervision_type = supervision_type;
  status = deactivated;
  has_callback = false;
}

-- The assignment of a status, and the callback's call.
unfoldable pub change :
    ElementarySupervision → SupervisionStatus → ElementarySupervision × List SupervisionStatus
change s status = (record s { status = status }, (if s.has_callback then status ∷ [] else []))

-- The `switch` of `Report`.
unfoldable pub transition :
    ElementarySupervision → SupervisionStatus → ElementarySupervision × List SupervisionStatus
transition s deactivated = change s deactivated
transition s expired = change s expired
transition s well = if rank s.status == rank expired then (s, []) else change s well
transition s failed = if rank s.status == rank expired then (s, []) else change s failed

unfoldable pub report :
    ElementarySupervision → SupervisionStatus → ElementarySupervision × List SupervisionStatus
report s status = if rank s.status == rank status then (s, []) else transition s status

unfoldable pub set_callback : ElementarySupervision → ElementarySupervision
set_callback s = record s { has_callback = true }
