-- ===== src/Diag/DtcInformation.antt =====
-- src/ara/diag/dtc_information.cpp: the stored trouble codes with their status bytes. Each call
-- gives the calls of the notifiers, in their order. A setter of a notifier records that there is
-- one.
pub mod History
pub mod Tests
use Prim.Native.Nat.{bit_and, bit_xor}
use adaptive_autosar.Prelude.{
  ℕ, ◌%◌, ◌^◌, Bool, true, false, not, Option, none, some, List, [], ◌∷◌, ◌⊎◌, inl, inr,
  if◌then◌else◌, ◌==◌, length, find, assign, erase,
}

pub data ControlDtcStatus : Type 0 where
  dtc_setting_on dtc_setting_off : ControlDtcStatus

pub data UdsDtcStatusBit : Type 0 where
  test_failed test_failed_this_operation_cycle pending_dtc confirmed_dtc : UdsDtcStatusBit
  test_not_completed_since_last_clear test_failed_since_last_clear : UdsDtcStatusBit
  test_not_completed_this_operation_cycle warning_indicator_requested : UdsDtcStatusBit

unfoldable pub mask_byte : UdsDtcStatusBit → ℕ
mask_byte test_failed = 0x01
mask_byte test_failed_this_operation_cycle = 0x02
mask_byte pending_dtc = 0x04
mask_byte confirmed_dtc = 0x08
mask_byte test_not_completed_since_last_clear = 0x10
mask_byte test_failed_since_last_clear = 0x20
mask_byte test_not_completed_this_operation_cycle = 0x40
mask_byte warning_indicator_requested = 0x80

pub data DtcError : Type 0 where
  no_such_dtc wrong_dtc : DtcError

pub data DtcNotification : Type 0 where
  dtc_status_changed : ℕ → ℕ → ℕ → DtcNotification
  number_of_stored_entries : ℕ → DtcNotification
  control_dtc_status : ControlDtcStatus → DtcNotification

pub record DtcInformation : Type 0 where
  pub statuses : List (ℕ × ℕ)
  pub has_status_notifier : Bool
  pub has_number_notifier : Bool
  pub control_status : ControlDtcStatus
  pub has_control_notifier : Bool

unfoldable pub new_dtc_information : DtcInformation
new_dtc_information = record {
  statuses = [];
  has_status_notifier = false;
  has_number_notifier = false;
  control_status = dtc_setting_off;
  has_control_notifier = false;
}

-- `std::map::at`, whose exception becomes the error.
unfoldable pub status_at : Option ℕ → ℕ ⊎ DtcError
status_at (some status) = inl status
status_at none = inr no_such_dtc

unfoldable pub get_current_status : DtcInformation → ℕ → ℕ ⊎ DtcError
get_current_status info dtc = status_at (find dtc info.statuses)

-- `GetNumberOfStoredEntries`, a size cast to 32 bits.
unfoldable pub get_number_of_stored_entries : DtcInformation → ℕ
get_number_of_stored_entries info = length info.statuses % 2 ^ 32

unfoldable pub notify_number : DtcInformation → List DtcNotification
notify_number info =
    if info.has_number_notifier
    then number_of_stored_entries (get_number_of_stored_entries info) ∷ []
    else []

-- The new status byte, of which the masked bits that differ are flipped.
unfoldable pub masked_difference : ℕ → ℕ → ℕ → ℕ
masked_difference current mask status = bit_and (bit_xor current status) mask

-- The editing branch of `SetCurrentStatus`.
unfoldable pub edit_status : DtcInformation → ℕ → ℕ → ℕ → ℕ → DtcInformation × List DtcNotification
edit_status info dtc current mask status =
    let difference = masked_difference current mask status in
    if not (difference == 0)
    then (
      record info { statuses = assign dtc (bit_xor current difference) info.statuses },
      (if info.has_status_notifier
          then dtc_status_changed dtc current (bit_xor current difference) ∷ []
          else []),
    )
    else (info, [])

-- The adding branch of `SetCurrentStatus`, which does not read the mask.
unfoldable pub add_status : DtcInformation → ℕ → ℕ → DtcInformation × List DtcNotification
add_status info dtc status =
    let added = record info { statuses = assign dtc status info.statuses } in
    (added, notify_number added)

unfoldable pub set_found_status :
    DtcInformation → ℕ → UdsDtcStatusBit → ℕ → Option ℕ → DtcInformation × List DtcNotification
set_found_status info dtc mask status none = add_status info dtc status
set_found_status info dtc mask status (some current) =
    edit_status info dtc current (mask_byte mask) status

unfoldable pub set_current_status :
    DtcInformation → ℕ → UdsDtcStatusBit → ℕ → DtcInformation × List DtcNotification
set_current_status info dtc mask status =
    set_found_status info dtc mask status (find dtc info.statuses)

unfoldable pub clear_found :
    DtcInformation → ℕ → Option ℕ → DtcInformation × List DtcNotification × Option DtcError
clear_found info dtc none = (info, [], some wrong_dtc)
clear_found info dtc (some status) =
    let cleared = record info { statuses = erase dtc info.statuses } in
    (cleared, notify_number cleared, none)

unfoldable pub clear : DtcInformation → ℕ → DtcInformation × List DtcNotification × Option DtcError
clear info dtc = clear_found info dtc (find dtc info.statuses)

unfoldable pub set_dtc_status_changed_notifier : DtcInformation → DtcInformation
set_dtc_status_changed_notifier info = record info { has_status_notifier = true }

unfoldable pub set_number_of_stored_entries_notifier : DtcInformation → DtcInformation
set_number_of_stored_entries_notifier info = record info { has_number_notifier = true }

unfoldable pub set_control_dtc_status_notifier : DtcInformation → DtcInformation
set_control_dtc_status_notifier info = record info { has_control_notifier = true }

unfoldable pub enable_control :
    DtcInformation → ControlDtcStatus → DtcInformation × List DtcNotification
enable_control info dtc_setting_on = (info, [])
enable_control info dtc_setting_off = (
  record info { control_status = dtc_setting_on },
  (if info.has_control_notifier then control_dtc_status dtc_setting_on ∷ [] else []),
)

unfoldable pub enable_control_dtc : DtcInformation → DtcInformation × List DtcNotification
enable_control_dtc info = enable_control info info.control_status
