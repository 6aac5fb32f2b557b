-- ===== src/Exec/ExecutionServer.antt =====
-- src/ara/exec/execution_server.cpp, with the request of execution_client.cpp. The only execution
-- state is running, so the table holds names. A handler's call returns the server, whether the
-- request succeeded, and the response.
pub mod Reporting
use adaptive_autosar.Prelude.{
  ℕ, ◌+◌, Bool, true, false, Option, none, some, List, [], ◌∷◌, ◌++◌, if◌then◌else◌, ◌==◌, leb, ltb,
  length, Result, ok, ◌>>=◌, lookup, store,
}
use adaptive_autosar.Com.Payload.{at, extract_integer}
use adaptive_autosar.Exec.Common.{
  ExecErrc, invalid_arguments, already_in_state, inject_error_code, serialize_text, text_between,
}

pub data ExecutionState : Type 0 where
  running : ExecutionState

abbrev pub ExecutionStates : Type 0
ExecutionStates = List (List ℕ × ExecutionState)

unfoldable pub state_byte : ExecutionState → ℕ
state_byte running = 0

unfoldable pub refuse : ExecutionStates → ExecErrc → ExecutionStates × Bool × List ℕ
refuse states error = (states, false, inject_error_code error)

-- The state of an identifier is inserted, unless it is there and the same.
unfoldable pub insert_state : ExecutionStates → List ℕ → ExecutionStates × Bool × List ℕ
insert_state states id = elim (lookup id states) [
  | none ↦ (store id running states, true, [])
  | some running ↦ refuse states already_in_state
]

-- The request once its length is known; the byte behind the identifier is the state.
unfoldable pub report_state :
    ExecutionStates → List ℕ → ℕ → ℕ → Result (ExecutionStates × Bool × List ℕ)
report_state states payload begin_offset end_offset =
    if leb (length payload) end_offset
    then ok (refuse states invalid_arguments)
    else (at payload end_offset >>= λ byte.
        if byte == state_byte running
        then (text_between payload begin_offset end_offset >>= λ id. ok (insert_state states id))
        else ok (refuse states invalid_arguments))

-- `handleExecutionStateReport`.
unfoldable pub handle_execution_state_report :
    ExecutionStates → List ℕ → Result (ExecutionStates × Bool × List ℕ)
handle_execution_state_report states payload =
    if ltb (length payload) 5
    then ok (refuse states invalid_arguments)
    else (extract_integer payload 0 >>= λ size.
        report_state states payload size.1 (size.1 + size.0))

-- `TryGetExecutionState`.
unfoldable pub try_get_execution_state : ExecutionStates → List ℕ → Option ExecutionState
try_get_execution_state states id = lookup id states

-- The request that `ReportExecutionState` sends.
unfoldable pub report_request : List ℕ → ExecutionState → List ℕ
report_request id state = serialize_text id ++ (state_byte state ∷ [])
