-- ===== src/Phm/Global/Reports.antt =====
-- src/ara/phm/supervisors/global_supervision.cpp: a report of a supervisor, up to the global
-- callback.
use adaptive_autosar.Prelude.{
  ℕ, zero, suc, ◌≡◌, ◌≢◌, ◌⊎◌, refl, sym, ap, ◌∙◌, transport, true, false, List, [], ◌∷◌, ◌==◌,
  ==_iff, Bool-cases, inl, inr, Result, ok, ==_self, true-ne-false,
}
use adaptive_autosar.Phm.Elementary.{ElementarySupervision, SupervisionStatus, rank}
use adaptive_autosar.Phm.Global.{
  SupervisionUpdate, GlobalSupervision, get_global_update, on_elementary_status_changed, report_at,
  report_elementary,
}
use adaptive_autosar.Phm.Global.Maximum.{
  statuses, Has, IsWorst, AllCall, IsGlobal, get_global_update-IsWorst, report_at-AllCall,
  report_at-quiet, rank-inj,
}

List-cases {ℓ} :
    {A : Type ℓ} (xs : List A) → (xs ≡ []) ⊎ ((x : A) × (rest : List A) × (xs ≡ x ∷ rest))
List-cases [] = inl refl
List-cases (x ∷ rest) = inr (x, rest, refl)

-- What the global callback gets when the status goes from one to the other.
unfoldable pub Tells : SupervisionStatus → SupervisionStatus → List SupervisionUpdate → Type 0
Tells before after [] = before ≡ after
Tells before after (update ∷ []) = (before ≢ after) × (update.status ≡ after)
Tells before after _ = ⊥

-- A call that ends in a global supervision, and tells a change to its callback.
pub record IsReported (g : GlobalSupervision)
    (call : Result (GlobalSupervision × List SupervisionUpdate)) : Type 0 where
  pub next : GlobalSupervision
  pub updates : List SupervisionUpdate
  pub returns : call ≡ ok (next, updates)
  pub global : IsGlobal next
  pub tells : Tells g.status next.status updates
  pub callback : next.has_callback ≡ g.has_callback

get_global_update-ok :
    (supervisors : List ElementarySupervision)
    → (status : SupervisionStatus) → Has status (statuses supervisors)
    → (update : SupervisionUpdate) × (get_global_update supervisors ≡ ok update)
unfolding get_global_update Has statuses
get_global_update-ok [] status h = absurd h
get_global_update-ok (s ∷ supervisors) status h = (_, refl)

on_changed_same :
    (g : GlobalSupervision) (update : SupervisionUpdate)
    → get_global_update g.supervisors ≡ ok update
    → update.status ≡ g.status
    → on_elementary_status_changed g ≡ ok (g, [])
unfolding on_elementary_status_changed
on_changed_same g update e same =
    simp (on_elementary_status_changed, e, same, ==_self (rank g.status))

on_changed_other :
    (g : GlobalSupervision) (update : SupervisionUpdate)
    → g.has_callback ≡ true
    → get_global_update g.supervisors ≡ ok update
    → (rank update.status == rank g.status) ≡ false
    → on_elementary_status_changed g ≡ ok (record g { status = update.status }, update ∷ [])
unfolding on_elementary_status_changed
on_changed_other g update told e other = simp (on_elementary_status_changed, e, other, told)

on_elementary_status_changed-IsReported :
    (g : GlobalSupervision) (status : SupervisionStatus)
    → g.has_callback ≡ true
    → AllCall g.supervisors
    → Has status (statuses g.supervisors)
    → IsReported g (on_elementary_status_changed g)
unfolding Tells
on_elementary_status_changed-IsReported g status told calls some_status =
    let (update, e) = get_global_update-ok g.supervisors status some_status in
    let w = get_global_update-IsWorst g.supervisors update e in
    elim (Bool-cases (rank update.status == rank g.status)) [
      | inl same ↦
          let eq = rank-inj update.status g.status ((==_iff _ _).0 same) in
          record {
            next = g;
            updates = [];
            returns = on_changed_same g update e eq;
            global = record {
              worst = transport (ap (λ s. IsWorst s (statuses g.supervisors)) eq) w;
              calls = calls;
            };
            tells = refl;
            callback = refl;
          }
      | inr other ↦ record {
        next = record g { status = update.status };
        updates = update ∷ [];
        returns = on_changed_other g update told e other;
        global = record { worst = w; calls = calls };
        tells = (λ e. true-ne-false (sym ((==_iff _ _).1 (ap rank (sym e))) ∙ other), refl);
        callback = refl;
      }
    ]

report_at-some :
    (place : ℕ) (status : SupervisionStatus) (supervisors : List ElementarySupervision)
    (some : SupervisionStatus)
    → Has some (statuses supervisors)
    → (other : SupervisionStatus) × Has other (statuses (report_at place status supervisors).0)
unfolding Has statuses report_at
report_at-some place status [] some h = absurd h
report_at-some zero status (s ∷ supervisors) some h = (_, inl refl)
report_at-some (suc place) status (s ∷ supervisors) some h = (_, inl refl)

called :
    (g : GlobalSupervision) (place : ℕ) (status x : SupervisionStatus)
    (rest : List SupervisionStatus)
    → (report_at place status g.supervisors).1 ≡ x ∷ rest
    → report_elementary g place status
      ≡ on_elementary_status_changed
          (record g { supervisors = (report_at place status g.supervisors).0 })
unfolding report_elementary
called g place status x rest loud = rw (report_elementary, loud) refl

-- In a global supervision whose status is the worst of its supervisors', which all call it, and
-- which has a callback, any report of any supervisor returns; the status is the worst again; and
-- the callback is called exactly when the global status changes, with the new one.
pub report_elementary-IsReported :
    (g : GlobalSupervision) (place : ℕ) (status : SupervisionStatus)
    → IsGlobal g
    → g.has_callback ≡ true
    → IsReported g (report_elementary g place status)
unfolding report_elementary Tells
report_elementary-IsReported g place status i told =
    let reported = (report_at place status g.supervisors).0 in
    let calls = report_at-AllCall place status g.supervisors i.calls in
    elim (List-cases (report_at place status g.supervisors).1) [
      | inl quiet ↦ record {
        next = record g { supervisors = reported };
        updates = [];
        returns = simp (report_elementary, quiet);
        global = record {
          worst =
              transport
                (ap (IsWorst g.status)
                  (sym (report_at-quiet place status g.supervisors i.calls quiet)))
                i.worst;
          calls = calls;
        };
        tells = refl;
        callback = refl;
      }
      | inr (x, rest, loud) ↦
          let (other, h) = report_at-some place status g.supervisors g.status i.worst.has in
          let r =
            on_elementary_status_changed-IsReported (record g { supervisors = reported }) other told
              calls h in
          record {
            next = r.next;
            updates = r.updates;
            returns = called g place status x rest loud ∙ r.returns;
            global = r.global;
            tells = r.tells;
            callback = r.callback;
          }
    ]
