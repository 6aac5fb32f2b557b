-- ===== src/Diag/DtcInformation/Tests.antt =====
-- src/ara/diag/dtc_information.cpp: a code that is stored, edited, cleared and stored again.
use adaptive_autosar.Prelude.{◌≡◌, refl, some, List, [], ◌∷◌, inl, inr, find, assign, erase}
use adaptive_autosar.Diag.DtcInformation.{
  DtcInformation, no_such_dtc, wrong_dtc, dtc_status_changed, number_of_stored_entries, pending_dtc,
  confirmed_dtc, test_failed, new_dtc_information, set_dtc_status_changed_notifier,
  set_number_of_stored_entries_notifier, get_current_status, set_current_status, clear,
  set_found_status, add_status, edit_status, masked_difference, mask_byte, notify_number,
  get_number_of_stored_entries, clear_found, enable_control_dtc, enable_control, status_at,
}
use adaptive_autosar.Diag.DtcInformation.History.{
  Call, set, clearing, enabling, run, call, current_bit, history, run-history,
}

abbrev fresh : DtcInformation
unfolding new_dtc_information set_dtc_status_changed_notifier set_number_of_stored_entries_notifier
fresh = set_number_of_stored_entries_notifier (set_dtc_status_changed_notifier new_dtc_information)

abbrev calls : List Call
calls =
    set 7 confirmed_dtc 0x06
    ∷ set 7 confirmed_dtc 0x09
    ∷ set 9 test_failed 0x01
    ∷ enabling
    ∷ clearing 9
    ∷ []

-- The first request stores every bit, the second one edits the masked bit only; a code that is
-- cleared is unknown.
statuses_after_calls :
    (get_current_status (run fresh calls) 7 ≡ inl 0x0E)
    × (get_current_status (run fresh calls) 9 ≡ inr no_such_dtc)
    × ((clear (run fresh calls) 9).2 ≡ some wrong_dtc)
unfolding fresh new_dtc_information set_dtc_status_changed_notifier
    set_number_of_stored_entries_notifier run call set_current_status set_found_status add_status
    edit_status masked_difference mask_byte notify_number get_number_of_stored_entries clear
    clear_found enable_control_dtc enable_control get_current_status status_at find assign erase
statuses_after_calls = (refl, refl, refl)

notifications_after_calls :
    ((set_current_status (run fresh calls) 7 pending_dtc 0).1 ≡ dtc_status_changed 7 0x0E 0x0A ∷ [])
    × ((set_current_status (run fresh calls) 8 pending_dtc 0).1 ≡ number_of_stored_entries 2 ∷ [])
unfolding fresh new_dtc_information set_dtc_status_changed_notifier
    set_number_of_stored_entries_notifier run call set_current_status set_found_status add_status
    edit_status masked_difference mask_byte notify_number get_number_of_stored_entries clear
    clear_found enable_control_dtc enable_control get_current_status status_at find assign erase
notifications_after_calls = (refl, refl)

run-history_example :
    current_bit (run fresh calls) 7 pending_dtc
    ≡ history 7 pending_dtc calls (current_bit fresh 7 pending_dtc)
run-history_example = run-history fresh calls 7 pending_dtc
