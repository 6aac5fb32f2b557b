-- ===== src/Exec/ExecutionServer/Reporting.antt =====
-- src/ara/exec/execution_server.cpp, on what execution_client.cpp sends.
use adaptive_autosar.Prelude.{
  ℕ, ◌+◌, ◌-◌, ◌≤◌, ◌≡◌, refl, Bool, List, arith, length, leb, ltb, ltb→ge, leb→gt, ok, Bool-cases,
  inl, inr, take, drop, ◌==◌,
}
use adaptive_autosar.Exec.Common.{invalid_arguments}
use adaptive_autosar.Exec.StateServer.Validity.{at-ok, text_between-ok, extract_integer-ok}
use adaptive_autosar.Exec.ExecutionServer.{
  ExecutionStates, running, refuse, insert_state, report_state, handle_execution_state_report,
  state_byte,
}

report_state-returns :
    (states : ExecutionStates) (payload : List ℕ) (begin_offset end_offset : ℕ)
    → begin_offset ≤ end_offset
    → (result : ExecutionStates × Bool × List ℕ) × (report_state states payload begin_offset
          end_offset
        ≡ ok result)
unfolding report_state
report_state-returns states payload begin_offset end_offset ordered =
    elim (Bool-cases (leb (length payload) end_offset)) [
      | inl short ↦ (refuse states invalid_arguments, rw (report_state, short) refl)
      | inr long ↦
          let (byte, e) = at-ok payload end_offset (leb→gt _ _ long) in
          elim (Bool-cases (byte == state_byte running)) [
            | inl known ↦ (
              insert_state states (take (end_offset - begin_offset) (drop begin_offset payload)),
              rw
                  (
                    report_state,
                    long,
                    e,
                    known,
                    text_between-ok payload begin_offset end_offset ordered
                        (omega (arith, leb→gt _ _ long)),
                  )
                  refl,
            )
            | inr unknown ↦
                (refuse states invalid_arguments, rw (report_state, long, e, unknown) refl)
          ]
    ]

-- Whatever the bytes of the payload, a report of an execution state returns, and reads nothing out
-- of range.
pub handle_execution_state_report-returns :
    (states : ExecutionStates) (payload : List ℕ)
    → (result : ExecutionStates × Bool × List ℕ) × (handle_execution_state_report states payload
        ≡ ok result)
unfolding handle_execution_state_report
handle_execution_state_report-returns states payload = elim (Bool-cases (ltb (length payload) 5)) [
  | inl short ↦ (refuse states invalid_arguments, rw (handle_execution_state_report, short) refl)
  | inr enough ↦
      let long : 5 ≤ length payload = ltb→ge _ _ enough in
      let (n, e) = extract_integer-ok payload 0 (omega arith) in
      let (result, r) = report_state-returns states payload 4 (4 + n) (omega arith) in
      (result, rw (handle_execution_state_report, enough, e) r)
]
