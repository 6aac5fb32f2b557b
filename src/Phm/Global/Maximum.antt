-- ===== src/Phm/Global/Maximum.antt =====
-- src/ara/phm/supervisors/global_supervision.cpp: the global status against those of the
-- supervisors.
use adaptive_autosar.Prelude.{
  ℕ, zero, suc, ◌≤◌, ◌≡◌, ◌⊎◌, refl, ap, ◌∙◌, transport, true, List, [], ◌∷◌, arith, ltb, ltb→lt,
  ltb→ge, Bool-cases, inl, inr, ok, >>=-eq-ok, ok-inj,
}
use adaptive_autosar.Phm.Elementary.{
  ElementarySupervision, SupervisionStatus, rank, report, transition, change, set_callback,
}
use adaptive_autosar.Phm.Global.{
  SupervisionUpdate, GlobalSupervision, new_global_supervision, update_loop, get_global_update,
  set_callbacks, report_at,
}

unfoldable pub statuses : List ElementarySupervision → List SupervisionStatus
statuses [] = []
statuses (s ∷ supervisors) = s.status ∷ statuses supervisors

-- No status is above the bound.
unfoldable pub AllBelow : ℕ → List SupervisionStatus → Type 0
AllBelow bound [] = Unit
AllBelow bound (s ∷ rest) = (rank s ≤ bound) × AllBelow bound rest

-- One of them is the status.
unfoldable pub Has : SupervisionStatus → List SupervisionStatus → Type 0
Has status [] = ⊥
Has status (s ∷ rest) = (s ≡ status) ⊎ Has status rest

-- The worst of the statuses.
pub record IsWorst (status : SupervisionStatus) (all : List SupervisionStatus) : Type 0 where
  pub bounds : AllBelow (rank status) all
  pub has : Has status all

-- What the loop's result is to its start and the supervisors.
unfoldable IsLoopResult :
    SupervisionStatus → List ElementarySupervision → SupervisionStatus → Type 0
IsLoopResult start supervisors result =
    (rank start ≤ rank result)
    × AllBelow (rank result) (statuses supervisors)
    × ((start ≡ result) ⊎ Has result (statuses supervisors))

loop_done : (start : SupervisionStatus) → IsLoopResult start [] start
unfolding IsLoopResult AllBelow statuses
loop_done start = (omega arith, tt, inl refl)

loop_worse :
    (start : SupervisionStatus) (s : ElementarySupervision)
    (supervisors : List ElementarySupervision) (result : SupervisionStatus)
    → rank start ≤ rank s.status
    → IsLoopResult s.status supervisors result
    → IsLoopResult start (s ∷ supervisors) result
unfolding IsLoopResult AllBelow Has statuses
loop_worse start s supervisors result worse (a, b, c) = (omega arith, (a, b), inr c)

loop_other :
    (start : SupervisionStatus) (s : ElementarySupervision)
    (supervisors : List ElementarySupervision) (result : SupervisionStatus)
    → rank s.status ≤ rank start
    → IsLoopResult start supervisors result
    → IsLoopResult start (s ∷ supervisors) result
unfolding IsLoopResult AllBelow Has statuses
loop_other start s supervisors result other (a, b, c) =
    (a, (omega arith, b), elim c [ inl e ↦ inl e | inr m ↦ inr (inr m) ])

update_loop-result :
    (start : SupervisionUpdate) (supervisors : List ElementarySupervision)
    → IsLoopResult start.status supervisors (update_loop start supervisors).status
unfolding update_loop
update_loop-result start [] = loop_done start.status
update_loop-result start (s ∷ supervisors) =
    elim (Bool-cases (ltb (rank start.status) (rank s.status))) [
      | inl worse ↦
          let here : SupervisionUpdate = record {
            status = s.status;
            supervision_type = s.supervision_type;
          } in
          let h : rank start.status ≤ rank s.status = omega (arith, ltb→lt _ _ worse) in
          let e : update_loop start (s ∷ supervisors) ≡ update_loop here supervisors =
            rw (update_loop, worse) refl in
          rw e (
            loop_worse start.status s supervisors (update_loop here supervisors).status h
              (update_loop-result here supervisors))
      | inr other ↦
          let e : update_loop start (s ∷ supervisors) ≡ update_loop start supervisors =
            rw (update_loop, other) refl in
          rw e (
            loop_other start.status s supervisors (update_loop start supervisors).status
              (ltb→ge _ _ other) (update_loop-result start supervisors))
    ]

pub get_global_update-IsWorst :
    (supervisors : List ElementarySupervision) (update : SupervisionUpdate)
    → get_global_update supervisors ≡ ok update
    → IsWorst update.status (statuses supervisors)
unfolding get_global_update AllBelow Has IsLoopResult statuses
get_global_update-IsWorst [] update e = cc
get_global_update-IsWorst (s ∷ supervisors) update e =
    let start : SupervisionUpdate = record {
      status = s.status;
      supervision_type = s.supervision_type;
    } in
    let (a, b, c) = update_loop-result start supervisors in
    rw⁻¹ (ok-inj e) (record { bounds = (a, b); has = c })

pub rank-inj : (a b : SupervisionStatus) → rank a ≡ rank b → a ≡ b
unfolding rank
rank-inj a b h = ground arith

statuses-set_callbacks :
    (supervisors : List ElementarySupervision)
    → statuses (set_callbacks supervisors) ≡ statuses supervisors
unfolding statuses set_callbacks set_callback
statuses-set_callbacks [] = refl
statuses-set_callbacks (s ∷ supervisors) =
    ap (λ ts. s.status ∷ ts) (statuses-set_callbacks supervisors)

-- All supervisors call the global supervision.
unfoldable pub AllCall : List ElementarySupervision → Type 0
AllCall [] = Unit
AllCall (s ∷ supervisors) = (s.has_callback ≡ true) × AllCall supervisors

AllCall-set_callbacks :
    (supervisors : List ElementarySupervision) → AllCall (set_callbacks supervisors)
unfolding AllCall set_callbacks set_callback
AllCall-set_callbacks [] = tt
AllCall-set_callbacks (s ∷ supervisors) = (refl, AllCall-set_callbacks supervisors)

pub record IsGlobal (g : GlobalSupervision) : Type 0 where
  pub worst : IsWorst g.status (statuses g.supervisors)
  pub calls : AllCall g.supervisors

-- Made from one or more supervisors, a global supervision has the worst of their statuses, and each
-- of them calls it.
pub new_global_supervision-IsGlobal :
    (s : ElementarySupervision) (supervisors : List ElementarySupervision) (g : GlobalSupervision)
    → new_global_supervision (s ∷ supervisors) ≡ ok g
    → IsGlobal g
unfolding new_global_supervision
new_global_supervision-IsGlobal s supervisors g e =
    let (update, e1, e2) = >>=-eq-ok (get_global_update (s ∷ supervisors)) _ e in
    let w = get_global_update-IsWorst (s ∷ supervisors) update e1 in
    transport (ap IsGlobal (ok-inj e2)) (record {
      worst = rw (statuses-set_callbacks (s ∷ supervisors)) w;
      calls = AllCall-set_callbacks (s ∷ supervisors);
    })

report-quiet :
    (s : ElementarySupervision) (status : SupervisionStatus)
    → s.has_callback ≡ true
    → (report s status).1 ≡ []
    → (report s status).0.status ≡ s.status
unfolding report transition change
report-quiet s status calls quiet = ground arith

report-calls :
    (s : ElementarySupervision) (status : SupervisionStatus)
    → (report s status).0.has_callback ≡ s.has_callback
unfolding report transition change
report-calls s status = ground arith

pub report_at-AllCall :
    (place : ℕ) (status : SupervisionStatus) (supervisors : List ElementarySupervision)
    → AllCall supervisors
    → AllCall (report_at place status supervisors).0
unfolding report_at AllCall
report_at-AllCall place status [] calls = calls
report_at-AllCall zero status (s ∷ supervisors) (h, calls) = (report-calls s status ∙ h, calls)
report_at-AllCall (suc place) status (s ∷ supervisors) (h, calls) =
    (h, report_at-AllCall place status supervisors calls)

-- A report that calls no callback leaves all statuses as they are.
pub report_at-quiet :
    (place : ℕ) (status : SupervisionStatus) (supervisors : List ElementarySupervision)
    → AllCall supervisors
    → (report_at place status supervisors).1 ≡ []
    → statuses (report_at place status supervisors).0 ≡ statuses supervisors
unfolding report_at AllCall statuses
report_at-quiet place status [] calls quiet = refl
report_at-quiet zero status (s ∷ supervisors) (h, calls) quiet =
    ap (λ t. t ∷ statuses supervisors) (report-quiet s status h quiet)
report_at-quiet (suc place) status (s ∷ supervisors) (h, calls) quiet =
    ap (λ ts. s.status ∷ ts) (report_at-quiet place status supervisors calls quiet)
