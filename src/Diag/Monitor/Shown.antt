-- ===== src/Diag/Monitor/Shown.antt =====
-- src/ara/diag/monitor.cpp: the event after the calls of the debouncer's callback.
use adaptive_autosar.Prelude.{
  ◌==◌, ◌^◌, ◌<◌, ◌≡◌, refl, ◌∙◌, Bool, true, false, List, [], ◌∷◌, Bool-cases, inl, inr,
}
use adaptive_autosar.Diag.Debouncer.{EventStatus, passed, pending, failed, notifications}
use adaptive_autosar.Diag.Event.{
  EventStatusBit, Event, finally_defective, finally_healed, test_failed,
  test_not_completed_this_operation_cycle, get_debouncing_status, set_event_status_bits,
  set_fault_detection_counter, position, set_bits, fdc_max, fdc_min,
}
use adaptive_autosar.Diag.Event.Bits.{bit_at, requested, same_bit, set_event_status_bits-bit}
use adaptive_autosar.Diag.Monitor.{on_event_status_changed, on_calls}

-- What an event shows for a status of the debouncer. A pending status says nothing of the event.
unfoldable pub Shows : EventStatus → Event → Type 0
Shows pending e = Unit
Shows passed e =
    (get_debouncing_status e ≡ finally_healed)
    × (bit_at e.encoded_bits (position test_failed) ≡ 0)
    × (bit_at e.encoded_bits (position test_not_completed_this_operation_cycle) ≡ 0)
Shows failed e =
    (get_debouncing_status e ≡ finally_defective)
    × (bit_at e.encoded_bits (position test_not_completed_this_operation_cycle) ≡ 0)

set_event_status_bits-fdc :
    (e : Event) (bits : List (EventStatusBit × Bool)) → (set_event_status_bits e bits).0.fdc ≡ e.fdc
unfolding set_event_status_bits
set_event_status_bits-fdc e [] = refl
set_event_status_bits-fdc e (b ∷ bits) =
    elim (Bool-cases (set_bits e.encoded_bits (b ∷ bits) == e.encoded_bits)) [
      | inl same ↦ rw (same, set_event_status_bits) refl
      | inr other ↦ rw (other, set_event_status_bits) refl
    ]

debouncing_healed : (e : Event) → e.fdc ≡ fdc_min → get_debouncing_status e ≡ finally_healed
unfolding get_debouncing_status
debouncing_healed e h = rw (h, get_debouncing_status) refl

debouncing_defective : (e : Event) → e.fdc ≡ fdc_max → get_debouncing_status e ≡ finally_defective
unfolding get_debouncing_status
debouncing_defective e h = rw (h, get_debouncing_status) refl

-- The calls of a new status make the event show it.
pub on_calls-Shows :
    (e : Event) (status : EventStatus)
    → e.encoded_bits < 2 ^ 8
    → ((on_calls e (notifications status)).0.encoded_bits < 2 ^ 8)
      × Shows status (on_calls e (notifications status)).0
unfolding on_calls notifications Shows on_event_status_changed set_fault_detection_counter requested
    same_bit
on_calls-Shows e pending small = (small, tt)
on_calls-Shows e passed small =
    let f = record e { fdc = fdc_min } in
    let bits = (test_failed, false) ∷ (test_not_completed_this_operation_cycle, false) ∷ [] in
    let (fits, failing_bit) = set_event_status_bits-bit f bits test_failed small in
    let (_, open_bit) =
      set_event_status_bits-bit f bits test_not_completed_this_operation_cycle small in
    (
      fits,
      (
        debouncing_healed (set_event_status_bits f bits).0 (set_event_status_bits-fdc f bits),
        failing_bit,
        open_bit,
      ),
    )
on_calls-Shows e failed small =
    let f = record e { fdc = fdc_max } in
    let bits = (test_failed, true) ∷ (test_not_completed_this_operation_cycle, false) ∷ [] in
    let (fits, open_bit) =
      set_event_status_bits-bit f bits test_not_completed_this_operation_cycle small in
    (
      fits,
      (
        debouncing_defective (set_event_status_bits f bits).0 (set_event_status_bits-fdc f bits),
        open_bit,
      ),
    )

debouncing_of_fdc :
    (e f : Event) → e.fdc ≡ f.fdc → get_debouncing_status e ≡ get_debouncing_status f
unfolding get_debouncing_status
debouncing_of_fdc e f h = rw (h, get_debouncing_status) refl

cleared_event-Shows :
    (status : EventStatus) (e f : Event)
    → get_debouncing_status f ≡ get_debouncing_status e
    → bit_at f.encoded_bits (position test_failed) ≡ 0
    → bit_at f.encoded_bits (position test_not_completed_this_operation_cycle)
      ≡ bit_at e.encoded_bits (position test_not_completed_this_operation_cycle)
    → Shows status e
    → Shows status f
unfolding Shows
cleared_event-Shows pending e f counter failing_bit open_bit shows = tt
cleared_event-Shows passed e f counter failing_bit open_bit (healed, _, done) =
    (counter ∙ healed, failing_bit, open_bit ∙ done)
cleared_event-Shows failed e f counter failing_bit open_bit (defective, done) =
    (counter ∙ defective, open_bit ∙ done)

pub cleared-Shows :
    (e : Event) (status : EventStatus)
    → e.encoded_bits < 2 ^ 8
    → Shows status e
    → ((set_event_status_bits e ((test_failed, false) ∷ [])).0.encoded_bits < 2 ^ 8)
      × Shows status (set_event_status_bits e ((test_failed, false) ∷ [])).0
unfolding Shows requested same_bit
cleared-Shows e status small shows =
    let bits = (test_failed, false) ∷ [] in
    let (fits, failing_bit) = set_event_status_bits-bit e bits test_failed small in
    let (_, open_bit) =
      set_event_status_bits-bit e bits test_not_completed_this_operation_cycle small in
    let counter =
      debouncing_of_fdc (set_event_status_bits e bits).0 e (set_event_status_bits-fdc e bits) in
    (
      fits,
      cleared_event-Shows status e (set_event_status_bits e bits).0 counter failing_bit open_bit
          shows,
    )
