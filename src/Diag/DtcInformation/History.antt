-- ===== src/Diag/DtcInformation/History.antt =====
-- src/ara/diag/dtc_information.cpp: what is left of a sequence of calls, bit by bit.
use Prim.Native.Nat.{bit_xor}
use adaptive_autosar.Prelude.{
  ℕ, ◌≡◌, refl, ap, ◌∙◌, Bool, Option, none, some, List, [], ◌∷◌, arith, digit, digit-flip, not,
  ◌⊎◌, find-assign_if, find-erase_if, find_same, bit_xor-zero, if◌then◌else◌, ◌==◌, ==_iff,
  Bool-cases, inl, inr, find,
}
use adaptive_autosar.Diag.DtcInformation.{
  DtcInformation, DtcError, UdsDtcStatusBit, test_failed, test_failed_this_operation_cycle,
  pending_dtc, confirmed_dtc, test_not_completed_since_last_clear, test_failed_since_last_clear,
  test_not_completed_this_operation_cycle, warning_indicator_requested, get_current_status,
  status_at, ControlDtcStatus, dtc_setting_on, dtc_setting_off, mask_byte, masked_difference,
  edit_status, add_status, set_found_status, set_current_status, clear_found, clear, enable_control,
  enable_control_dtc,
}

-- The place of a bit in the status byte.
unfoldable pub place : UdsDtcStatusBit → ℕ
place test_failed = 0
place test_failed_this_operation_cycle = 1
place pending_dtc = 2
place confirmed_dtc = 3
place test_not_completed_since_last_clear = 4
place test_failed_since_last_clear = 5
place test_not_completed_this_operation_cycle = 6
place warning_indicator_requested = 7

pub data Call : Type 0 where
  set : ℕ → UdsDtcStatusBit → ℕ → Call
  clearing : ℕ → Call
  enabling : Call

unfoldable pub call : DtcInformation → Call → DtcInformation
call info (set dtc mask status) = (set_current_status info dtc mask status).0
call info (clearing dtc) = (clear info dtc).0
call info enabling = (enable_control_dtc info).0

unfoldable pub run : DtcInformation → List Call → DtcInformation
run info [] = info
run info (c ∷ cs) = run (call info c) cs

unfoldable pub digit_of : ℕ ⊎ DtcError → ℕ → Option ℕ
digit_of (inl status) k = some (digit status k)
digit_of (inr e) k = none

-- A bit of the status byte that GetCurrentStatus gives for a trouble code, if it gives one.
unfoldable pub current_bit : DtcInformation → ℕ → UdsDtcStatusBit → Option ℕ
current_bit info dtc bit = digit_of (get_current_status info dtc) (place bit)

-- What a request does to one bit of a trouble code: it sets every bit of a new code, and the
-- masked bit of a stored one.
unfoldable pub requested : Bool → ℕ → Option ℕ → Option ℕ
requested masked new none = some new
requested masked new (some old) = some (if masked then new else old)

unfoldable pub after : ℕ → UdsDtcStatusBit → Call → Option ℕ → Option ℕ
after dtc bit (set d mask status) old =
    if d == dtc then requested (place mask == place bit) (digit status (place bit)) old else old
after dtc bit (clearing d) old = if d == dtc then none else old
after dtc bit enabling old = old

unfoldable pub history : ℕ → UdsDtcStatusBit → List Call → Option ℕ → Option ℕ
history dtc bit [] old = old
history dtc bit (c ∷ cs) old = history dtc bit cs (after dtc bit c old)

mask-digit :
    (mask bit : UdsDtcStatusBit)
    → (digit (mask_byte mask) (place bit) == 0) ≡ not (place mask == place bit)
unfolding digit mask_byte place
mask-digit mask bit = ground arith

-- The bits of an edited byte.
edited-digit :
    (current status : ℕ) (mask bit : UdsDtcStatusBit)
    → digit (bit_xor current (masked_difference current (mask_byte mask) status)) (place bit)
      ≡ (if place mask == place bit then digit status (place bit) else digit current (place bit))
unfolding masked_difference
edited-digit current status mask bit =
    digit-flip (place bit) current status (mask_byte mask)
    ∙ rw (mask-digit mask bit) (elim (Bool-cases (place mask == place bit)) [
      | inl same ↦ rw same refl
      | inr other ↦ rw other refl
    ])

find-edit :
    (info : DtcInformation) (d dtc current mask status : ℕ)
    → find d info.statuses ≡ some current
    → find dtc (edit_status info d current mask status).0.statuses ≡ (
        if d == dtc
        then some (bit_xor current (masked_difference current mask status))
        else find dtc info.statuses)
unfolding edit_status
find-edit info d dtc current mask status found =
    let difference = masked_difference current mask status in
    elim (Bool-cases (difference == 0)) [
      | inl equal ↦
          let none_differs = (==_iff difference 0).0 equal in
          rw (equal, edit_status, none_differs, bit_xor-zero current)
            (elim (Bool-cases (d == dtc)) [
              | inl same ↦ rw same (find_same d dtc info.statuses same ∙ found)
              | inr other ↦ rw other refl
            ])
      | inr differs ↦
          rw (differs, edit_status)
            (find-assign_if d dtc (bit_xor current difference) info.statuses)
    ]

set_found-after :
    (info : DtcInformation) (d dtc status : ℕ) (mask bit : UdsDtcStatusBit) (found : Option ℕ)
    → find d info.statuses ≡ found
    → current_bit (set_found_status info d mask status found).0 dtc bit
      ≡ after dtc bit (set d mask status) (current_bit info dtc bit)
unfolding set_found_status add_status current_bit get_current_status after requested digit_of
    status_at
set_found-after info d dtc status mask bit none found =
    rw (find-assign_if d dtc status info.statuses) (elim (Bool-cases (d == dtc)) [
      | inl same ↦ rw (same, find_same d dtc info.statuses same, found) refl
      | inr other ↦ rw other refl
    ])
set_found-after info d dtc status mask bit (some current) found =
    rw (find-edit info d dtc current (mask_byte mask) status found) (elim (Bool-cases (d == dtc)) [
      | inl same ↦
          rw (same, find_same d dtc info.statuses same, found)
            (ap some (edited-digit current status mask bit))
      | inr other ↦ rw other refl
    ])

clear_found-after :
    (info : DtcInformation) (d dtc : ℕ) (bit : UdsDtcStatusBit) (found : Option ℕ)
    → find d info.statuses ≡ found
    → current_bit (clear_found info d found).0 dtc bit
      ≡ after dtc bit (clearing d) (current_bit info dtc bit)
unfolding clear_found current_bit get_current_status after digit_of status_at
clear_found-after info d dtc bit none found = elim (Bool-cases (d == dtc)) [
  | inl same ↦ rw (same, find_same d dtc info.statuses same, found) refl
  | inr other ↦ rw other refl
]
clear_found-after info d dtc bit (some status) found =
    rw (find-erase_if d dtc info.statuses)
      (elim (Bool-cases (d == dtc)) [ inl same ↦ rw same refl | inr other ↦ rw other refl ])

enable-after :
    (info : DtcInformation) (s : ControlDtcStatus) (dtc : ℕ) (bit : UdsDtcStatusBit)
    → current_bit (enable_control info s).0 dtc bit ≡ current_bit info dtc bit
unfolding enable_control current_bit get_current_status
enable-after info dtc_setting_on dtc bit = refl
enable-after info dtc_setting_off dtc bit = refl

-- What a call does to a bit, from what is found for its code.
call-after :
    (info : DtcInformation) (c : Call) (dtc : ℕ) (bit : UdsDtcStatusBit)
    → current_bit (call info c) dtc bit ≡ after dtc bit c (current_bit info dtc bit)
unfolding call set_current_status clear enable_control_dtc after
call-after info (set d mask status) dtc bit =
    set_found-after info d dtc status mask bit (find d info.statuses) refl
call-after info (clearing d) dtc bit = clear_found-after info d dtc bit (find d info.statuses) refl
call-after info enabling dtc bit = enable-after info info.control_status dtc bit

-- After any SetCurrentStatus, Clear and EnableControlDtc calls, each bit of the status that
-- GetCurrentStatus gives for a trouble code is the one that the calls for this code leave: a
-- request for a code that is not stored sets every bit, one for a stored code sets the masked bit
-- only, Clear makes the code unknown, and calls for other codes and EnableControlDtc change nothing
-- of it.
pub run-history :
    (info : DtcInformation) (calls : List Call) (dtc : ℕ) (bit : UdsDtcStatusBit)
    → current_bit (run info calls) dtc bit ≡ history dtc bit calls (current_bit info dtc bit)
unfolding run history
run-history info [] dtc bit = refl
run-history info (c ∷ cs) dtc bit =
    run-history (call info c) cs dtc bit ∙ ap (history dtc bit cs) (call-after info c dtc bit)
