-- ===== src/Diag/Event/Bits.antt =====
-- src/ara/diag/event.cpp: which bits of the status byte a call changes.
use adaptive_autosar.Prelude.{
  ℕ, ◌/◌, ◌%◌, ◌^◌, ◌<◌, ◌≡◌, refl, sym, ap, ◌∙◌, Bool, true, false, List, [], ◌∷◌, arith,
  if◌then◌else◌, ◌==◌, ==_iff, Bool-cases, inl, inr,
}
use adaptive_autosar.Diag.Event.{
  EventStatusBit, test_failed, test_failed_this_operation_cycle,
  test_not_completed_this_operation_cycle, Event, position, set_bit, set_bits,
  set_event_status_bits,
}

unfoldable pub same_bit : EventStatusBit → EventStatusBit → Bool
same_bit test_failed test_failed = true
same_bit test_failed_this_operation_cycle test_failed_this_operation_cycle = true
same_bit test_not_completed_this_operation_cycle test_not_completed_this_operation_cycle = true
same_bit _ _ = false

unfoldable pub bit_at : ℕ → ℕ → ℕ
bit_at byte place = byte / 2 ^ place % 2

abbrev pub bit_number : Bool → ℕ
bit_number true = 1
bit_number false = 0

-- The place in the status byte that each bit is found at, counted from the lowest bit.
unfoldable pub coded_place : EventStatusBit → ℕ
coded_place test_failed = 7
coded_place test_failed_this_operation_cycle = 6
coded_place test_not_completed_this_operation_cycle = 1

position-coded_place : (bit : EventStatusBit) → position bit ≡ coded_place bit
unfolding position coded_place
position-coded_place test_failed = refl
position-coded_place test_failed_this_operation_cycle = refl
position-coded_place test_not_completed_this_operation_cycle = refl

-- What the last request for a bit says, or the bit's old value.
unfoldable pub requested : ℕ → List (EventStatusBit × Bool) → EventStatusBit → ℕ
unfolding same_bit
requested old [] bit = old
requested old ((b, value) ∷ bits) bit =
    requested (if same_bit b bit then bit_number value else old) bits bit

set_bit-bit :
    (byte : ℕ) (b : EventStatusBit) (value : Bool) (bit : EventStatusBit)
    → byte < 2 ^ 8
    → (set_bit byte (position b) value < 2 ^ 8)
      × (bit_at (set_bit byte (position b) value) (position bit)
          ≡ (if same_bit b bit then bit_number value else bit_at byte (position bit)))
unfolding set_bit bit_at position same_bit
set_bit-bit byte b value bit h = ground arith

set_bits-bit :
    (byte : ℕ) (bits : List (EventStatusBit × Bool)) (bit : EventStatusBit)
    → byte < 2 ^ 8
    → (set_bits byte bits < 2 ^ 8)
      × (bit_at (set_bits byte bits) (position bit)
          ≡ requested (bit_at byte (position bit)) bits bit)
unfolding set_bits requested
set_bits-bit byte [] bit h = (h, refl)
set_bits-bit byte ((b, value) ∷ bits) bit h =
    let (small, here) = set_bit-bit byte b value bit h in
    let (fits, there) = set_bits-bit (set_bit byte (position b) value) bits bit small in
    (fits, there ∙ ap (λ old. requested old bits bit) here)

set_event_status_bits-set_bits :
    (e : Event) (bits : List (EventStatusBit × Bool))
    → (set_event_status_bits e bits).0.encoded_bits ≡ set_bits e.encoded_bits bits
unfolding set_event_status_bits set_bits
set_event_status_bits-set_bits e [] = refl
set_event_status_bits-set_bits e (b ∷ bits) =
    let new_bits = set_bits e.encoded_bits (b ∷ bits) in
    elim (Bool-cases (new_bits == e.encoded_bits)) [
      | inl same ↦ rw (same, set_event_status_bits) (sym ((==_iff new_bits e.encoded_bits).0 same))
      | inr other ↦ rw (other, set_event_status_bits) refl
    ]

pub set_event_status_bits-bit :
    (e : Event) (bits : List (EventStatusBit × Bool)) (bit : EventStatusBit)
    → e.encoded_bits < 2 ^ 8
    → ((set_event_status_bits e bits).0.encoded_bits < 2 ^ 8)
      × (bit_at (set_event_status_bits e bits).0.encoded_bits (position bit)
          ≡ requested (bit_at e.encoded_bits (position bit)) bits bit)
set_event_status_bits-bit e bits bit h =
    rw (set_event_status_bits-set_bits e bits) (set_bits-bit e.encoded_bits bits bit h)

-- After SetEventStatusBits the bits 7 (test failed), 6 (test failed this operation cycle) and 1
-- (test not completed this operation cycle) of the status byte, counted from the lowest, each have
-- the value that the last request for it gives, or its old value where there is none, and the byte
-- still fits in 8 bits.
pub set_event_status_bits-requested :
    (e : Event) (bits : List (EventStatusBit × Bool)) (bit : EventStatusBit)
    → e.encoded_bits < 2 ^ 8
    → ((set_event_status_bits e bits).0.encoded_bits < 2 ^ 8)
      × (bit_at (set_event_status_bits e bits).0.encoded_bits (coded_place bit)
          ≡ requested (bit_at e.encoded_bits (coded_place bit)) bits bit)
set_event_status_bits-requested e bits bit h =
    rw (sym (position-coded_place bit)) (set_event_status_bits-bit e bits bit h)
