-- ===== src/Phm/Global.antt =====
-- src/ara/phm/supervisors/global_supervision.cpp. A global supervision holds its elementary ones,
-- whose callback it has set; a report of one of them is an operation here, which calls the
-- callback. `operator[]` on no supervisors is undefined behaviour.
pub mod Maximum
pub mod Reports
use adaptive_autosar.Prelude.{
  ℕ, zero, suc, Bool, true, false, Option, none, some, List, [], ◌∷◌, if◌then◌else◌, ◌==◌, ltb, not,
  Result, ok, throws, undefined, ◌>>=◌,
}
use adaptive_autosar.Phm.Elementary.{
  ElementarySupervision, SupervisionStatus, TypeOfSupervision, deactivated, rank, report,
  set_callback,
}

pub record SupervisionUpdate : Type 0 where
  pub status : SupervisionStatus
  pub supervision_type : TypeOfSupervision

pub record GlobalSupervision : Type 0 where
  pub supervisors : List ElementarySupervision
  pub status : SupervisionStatus
  pub has_callback : Bool

-- The loop of `getGlobalUpdate`.
unfoldable pub update_loop : SupervisionUpdate → List ElementarySupervision → SupervisionUpdate
update_loop result [] = result
update_loop result (s ∷ supervisors) =
    let worse : SupervisionUpdate = record {
      status = s.status;
      supervision_type = s.supervision_type;
    } in
    update_loop (if ltb (rank result.status) (rank s.status) then worse else result) supervisors

unfoldable pub get_global_update : List ElementarySupervision → Result SupervisionUpdate
get_global_update [] = throws undefined
get_global_update (s ∷ supervisors) =
    ok (
      update_loop (record { status = s.status; supervision_type = s.supervision_type }) supervisors)

unfoldable pub set_callbacks : List ElementarySupervision → List ElementarySupervision
set_callbacks [] = []
set_callbacks (s ∷ supervisors) = set_callback s ∷ set_callbacks supervisors

unfoldable pub new_global_supervision : List ElementarySupervision → Result GlobalSupervision
new_global_supervision [] =
    ok (record { supervisors = []; status = deactivated; has_callback = false })
new_global_supervision (s ∷ supervisors) = get_global_update (s ∷ supervisors) >>= λ update.
    ok (record {
      supervisors = set_callbacks (s ∷ supervisors);
      status = update.status;
      has_callback = false;
    })

-- The global callback is called with the update.
unfoldable pub on_elementary_status_changed :
    GlobalSupervision → Result (GlobalSupervision × List SupervisionUpdate)
on_elementary_status_changed g = get_global_update g.supervisors >>= λ update.
    if rank update.status == rank g.status
    then ok (g, [])
    else ok (record g { status = update.status }, (if g.has_callback then update ∷ [] else []))

-- The supervisor at a place reports, and the calls of its callback are counted.
unfoldable pub report_at :
    ℕ
    → SupervisionStatus
    → List ElementarySupervision
    → List ElementarySupervision × List SupervisionStatus
report_at place status [] = ([], [])
report_at zero status (s ∷ supervisors) = ((report s status).0 ∷ supervisors, (report s status).1)
report_at (suc place) status (s ∷ supervisors) =
    (s ∷ (report_at place status supervisors).0, (report_at place status supervisors).1)

-- A report of one of the supervisors. The status is already written when the callback is called.
unfoldable pub report_elementary :
    GlobalSupervision → ℕ → SupervisionStatus → Result (GlobalSupervision × List SupervisionUpdate)
report_elementary g place status = elim (report_at place status g.supervisors).1 [
  | [] ↦ ok (record g { supervisors = (report_at place status g.supervisors).0 }, [])
  | _ ∷ _ ↦
      on_elementary_status_changed
        (record g { supervisors = (report_at place status g.supervisors).0 })
]

unfoldable pub set_global_callback : GlobalSupervision → GlobalSupervision
set_global_callback g = record g { has_callback = true }
