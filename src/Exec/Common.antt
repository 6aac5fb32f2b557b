-- ===== src/Exec/Common.antt =====
-- src/ara/exec/exec_error_domain.h, and what the servers and clients of execution management share.
-- Names are the lists of their bytes.
use adaptive_autosar.Prelude.{
  ℕ, ◌-◌, Option, none, some, List, [], ◌∷◌, ◌++◌, length, take, drop, Result, ok, throws,
  out_of_range, undefined, if◌then◌else◌, ◌||◌, ltb,
}
use adaptive_autosar.Com.Payload.{inject_integer, extract_integer}

pub data ExecErrc : Type 0 where
  general_error invalid_arguments communication_error meta_model_error cancelled failed : ExecErrc
  failed_unexpected_termination_on_exit failed_unexpected_termination_on_enter : ExecErrc
  invalid_transition already_in_state in_transition_to_same_state no_time_stamp cycle_overrun :
      ExecErrc

unfoldable pub error_code : ExecErrc → ℕ
error_code general_error = 1
error_code invalid_arguments = 2
error_code communication_error = 3
error_code meta_model_error = 4
error_code cancelled = 5
error_code failed = 6
error_code failed_unexpected_termination_on_exit = 7
error_code failed_unexpected_termination_on_enter = 8
error_code invalid_transition = 9
error_code already_in_state = 10
error_code in_transition_to_same_state = 11
error_code no_time_stamp = 12
error_code cycle_overrun = 13

-- `injectErrorCode`, on an empty response.
unfoldable pub inject_error_code : ExecErrc → List ℕ
inject_error_code error = inject_integer (error_code error)

-- A string behind its length, as `FunctionGroupState` and `InstanceSpecifier` serialise it.
unfoldable pub serialize_text : List ℕ → List ℕ
serialize_text text = inject_integer (length text) ++ text

-- A string made from two iterators: undefined unless they are in order and in the vector.
unfoldable pub text_between : List ℕ → ℕ → ℕ → Result (List ℕ)
text_between v begin_offset end_offset =
    if ltb end_offset begin_offset || ltb (length v) end_offset
    then throws undefined
    else ok (take (end_offset - begin_offset) (drop begin_offset v))

-- What a client makes of the response to its request: a value, or the code of an exception. A
-- response that is too short to hold a code is a communication error.
unfoldable pub response_code : List ℕ → Result (Option ℕ)
response_code [] = ok none
response_code (byte ∷ rest) = elim (extract_integer (byte ∷ rest) 0) [
  | ok code ↦ ok (some code.0)
  | throws out_of_range ↦ ok (some (error_code communication_error))
  | throws fault ↦ throws fault
]
