-- ===== src/Diag/Event.antt =====
-- src/ara/diag/event.cpp: an event, with its status byte and fault detection counter. A map of
-- status bits is a list of bits with their values. A call returns what it passes to the notifier.
pub mod Bits
use adaptive_autosar.Prelude.{
  Result, ok, throws, invalid_argument, ◌||◌, ℕ, ◌+◌, ◌-◌, ◌*◌, ◌/◌, ◌%◌, ◌^◌, Bool, true, false,
  not, List, [], ◌∷◌, if◌then◌else◌, ◌==◌,
}
use adaptive_autosar.Prelude.Int.{ℤ, pos, negsuc, ltb_ℤ, eqb_ℤ}

pub data EventStatusBit : Type 0 where
  test_failed test_failed_this_operation_cycle : EventStatusBit
  test_not_completed_this_operation_cycle : EventStatusBit

pub record Event : Type 0 where
  pub encoded_bits : ℕ
  pub has_notifier : Bool
  pub wir_status : Bool
  pub dtc_number : ℕ
  pub fdc : ℤ

-- The `switch` of `SetEventStatusBits`.
unfoldable pub position : EventStatusBit → ℕ
position test_failed = 7
position test_failed_this_operation_cycle = 6
position test_not_completed_this_operation_cycle = 1

-- `std::bitset::set`.
unfoldable pub set_bit : ℕ → ℕ → Bool → ℕ
set_bit byte place value =
    byte - byte / 2 ^ place % 2 * 2 ^ place + (if value then 2 ^ place else 0)

-- The loop over the requested bits.
unfoldable pub set_bits : ℕ → List (EventStatusBit × Bool) → ℕ
unfolding position set_bit
set_bits byte [] = byte
set_bits byte ((bit, value) ∷ bits) = set_bits (set_bit byte (position bit) value) bits

-- `SetEventStatusBits`: the event, and the bytes that the notifier gets. No bits change nothing.
unfoldable pub set_event_status_bits : Event → List (EventStatusBit × Bool) → Event × List ℕ
unfolding set_bits
set_event_status_bits e [] = (e, [])
set_event_status_bits e (b ∷ bits) =
    let new_bits = set_bits e.encoded_bits (b ∷ bits) in
    if not (new_bits == e.encoded_bits)
    then (record e { encoded_bits = new_bits }, (if e.has_notifier then new_bits ∷ [] else []))
    else (e, [])

unfoldable pub new_event : Event
new_event = record {
  encoded_bits = 0x02;
  has_notifier = false;
  wir_status = false;
  dtc_number = 0;
  fdc = pos 0;
}

unfoldable pub set_notifier : Event → Event
set_notifier e = record e { has_notifier = true }

unfoldable pub set_latched_wir_status : Event → Bool → Event
set_latched_wir_status e status = record e { wir_status = status }

unfoldable pub set_dtc_number : Event → ℕ → Event
set_dtc_number e number = record e { dtc_number = number }

-- `GetDTCNumber`, with whether the format is that of UDS.
unfoldable pub get_dtc_number : Event → Bool → Result ℕ
get_dtc_number e true = ok e.dtc_number
get_dtc_number e false = throws invalid_argument

unfoldable pub set_fault_detection_counter : Event → ℤ → Event
set_fault_detection_counter e fdc = record e { fdc = fdc }

pub data DebouncingState : Type 0 where
  neutral temporarily_defective finally_defective : DebouncingState
  temporarily_healed finally_healed : DebouncingState

-- The limits of an `int8_t`.
abbrev pub fdc_max : ℤ
fdc_max = pos 127

abbrev pub fdc_min : ℤ
fdc_min = negsuc 127

unfoldable pub get_debouncing_status : Event → DebouncingState
get_debouncing_status e =
    if eqb_ℤ e.fdc fdc_max
    then finally_defective
    else if ltb_ℤ (pos 0) e.fdc
    then temporarily_defective
    else if eqb_ℤ e.fdc fdc_min
    then finally_healed
    else if ltb_ℤ e.fdc (pos 0)
    then temporarily_healed
    else neutral

unfoldable pub get_test_complete : Event → Bool
get_test_complete e = eqb_ℤ e.fdc fdc_min || eqb_ℤ e.fdc fdc_max
