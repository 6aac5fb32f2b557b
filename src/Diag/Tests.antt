-- ===== src/Diag/Tests.antt =====
-- src/ara/diag: a debouncer, an event, and a security access with a locked and an unlocked level.
use adaptive_autosar.Prelude.{
  ℕ, ◌+◌, ◌<◌, ◌^◌, ◌≡◌, refl, Bool, true, false, some, List, [], ◌∷◌, arith, length, leb, find,
}
use adaptive_autosar.Prelude.Int.{pos, negsuc, ◌+ℤ◌, leb_ℤ}
use adaptive_autosar.Diag.Debouncer.Bounds
use adaptive_autosar.Diag.Debouncer.{CounterBased, Debouncer, pending}
use adaptive_autosar.Diag.Debouncer.Bounds.{
  IsConfigured, IsBounded, prefailed, prepassed, resetting, run-IsBounded,
}
use adaptive_autosar.Diag.Debouncer.Steps.{counted}
use adaptive_autosar.Diag.Event.{
  EventStatusBit, Event, test_failed, test_not_completed_this_operation_cycle,
  set_event_status_bits,
}
use adaptive_autosar.Diag.Event.Bits.{
  bit_at, coded_place, requested, set_event_status_bits-requested,
}
use adaptive_autosar.Diag.SecurityAccess.{
  SecurityLevel, SecurityAccess, Meta, compare_key, is_reserved,
}
use adaptive_autosar.Diag.SecurityAccess.Lockout.{IsWrongKey, nothing, another, run, run-AllWrong}

abbrev steps_of_ten : CounterBased
steps_of_ten = record {
  failed_threshold = pos 25;
  passed_threshold = negsuc 24;
  failed_stepsize = 10;
  passed_stepsize = 10;
  failed_jump_value = pos 0;
  passed_jump_value = pos 0;
  use_jump_to_failed = false;
  use_jump_to_passed = true;
}

abbrev neutral : Debouncer
neutral = record { event_status = pending; has_callback = true; fdc = pos 0 }

steps_of_ten-IsConfigured : IsConfigured steps_of_ten
steps_of_ten-IsConfigured = record {
  heals = omega arith;
  fails = omega arith;
  passed_low = omega arith;
  passed_high = omega arith;
  failed_low = omega arith;
  failed_high = omega arith;
}

neutral-IsBounded : IsBounded steps_of_ten neutral
neutral-IsBounded = record { low = omega arith; high = omega arith }

run-IsBounded_example : IsBounded steps_of_ten (
    Bounds.run steps_of_ten neutral
      (prefailed ∷ prefailed ∷ prefailed ∷ prepassed ∷ resetting ∷ []))
run-IsBounded_example =
    run-IsBounded steps_of_ten neutral
      (prefailed ∷ prefailed ∷ prefailed ∷ prepassed ∷ resetting ∷ []) steps_of_ten-IsConfigured
      neutral-IsBounded

two_steps_short : leb_ℤ (pos 25) (counted steps_of_ten neutral 2) ≡ false
unfolding counted ◌+ℤ◌
two_steps_short = refl

three_steps_reach : leb_ℤ (pos 25) (counted steps_of_ten neutral 3) ≡ true
unfolding counted ◌+ℤ◌
three_steps_reach = refl

abbrev locked_level : SecurityLevel
locked_level = record { unlocked = false; seed = 2 }

abbrev two_levels : List (ℕ × SecurityLevel)
two_levels = (1, record { unlocked = true; seed = 1 }) ∷ (3, locked_level) ∷ []

abbrev idle : SecurityAccess
idle = record {
  next_seed = 3;
  levels = two_levels;
  delay_active = false;
  failed_unlock_attempt = 0;
}

abbrev delayed : SecurityAccess
delayed = record {
  next_seed = 3;
  levels = two_levels;
  delay_active = true;
  failed_unlock_attempt = 0;
}

abbrev meta : Meta
meta = record { encryptor = some 5; attempt_threshold = some 1; exceeded_attempt_delay = some 10 }

wrong_request-IsWrongKey : IsWrongKey two_levels meta (0x27 ∷ 4 ∷ 0 ∷ 8 ∷ [])
unfolding is_reserved find compare_key
wrong_request-IsWrongKey = record {
  service = 0x27;
  sub_function = 4;
  high = 0;
  low = 8;
  level = locked_level;
  shape = refl;
  even = refl;
  free = refl;
  present = refl;
  wrong = refl;
}

abbrev two_wrong : List (List ℕ)
two_wrong = (0x27 ∷ 4 ∷ 0 ∷ 8 ∷ []) ∷ (0x27 ∷ 4 ∷ 0 ∷ 8 ∷ []) ∷ []

run-AllWrong_example :
    (run idle meta two_wrong).delay_active ≡ leb 2 (idle.failed_unlock_attempt + length two_wrong)
run-AllWrong_example =
    run-AllWrong idle meta 1 10 two_wrong refl refl refl (omega arith)
      (another wrong_request-IsWrongKey (another wrong_request-IsWrongKey nothing)) (omega arith)
      (omega arith)

abbrev fresh_event : Event
fresh_event = record {
  encoded_bits = 0x02;
  has_notifier = true;
  wir_status = false;
  dtc_number = 0;
  fdc = pos 0;
}

abbrev failing_bits : List (EventStatusBit × Bool)
failing_bits = (test_failed, true) ∷ (test_not_completed_this_operation_cycle, false) ∷ []

set_event_status_bits-requested_example :
    ((set_event_status_bits fresh_event failing_bits).0.encoded_bits < 2 ^ 8)
    × (bit_at
          (set_event_status_bits fresh_event failing_bits).0.encoded_bits
          (coded_place test_failed)
        ≡ requested
            (bit_at fresh_event.encoded_bits (coded_place test_failed))
            failing_bits
            test_failed)
set_event_status_bits-requested_example =
    set_event_status_bits-requested fresh_event failing_bits test_failed (omega arith)
