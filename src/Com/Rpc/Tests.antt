-- ===== src/Com/Rpc/Tests.antt =====
-- src/ara/com/someip/rpc: a server with one echoing handler, and requests to it.
use adaptive_autosar.Prelude.{
  ℕ, List, ◌-◌, ◌%◌, ◌+◌, ◌^◌, ◌<◌, ◌≡◌, refl, true, some, [], ◌∷◌, arith, ok, length, find,
}
use adaptive_autosar.Com.Message.{SomeIpMessage}
use adaptive_autosar.Com.Message.Header.{FitsHeader}
use adaptive_autosar.Com.Rpc.Message.{SomeIpRpcMessage, message_payload, deserialize_rpc}
use adaptive_autosar.Com.Rpc.Server.{Handler, RpcServer, set_handler, validate, try_invoke_handler}
use adaptive_autosar.Com.Rpc.Client.{
  RpcClient, session_or_first, new_client, message_id_of, session_of, send, invoke_handler,
}
use adaptive_autosar.Com.Rpc.Exchange.{
  Call, count_calls, request_of, send_all, send_all-consecutive, send-invoke_handler,
}
use adaptive_autosar.Com.Rpc.Reply.{reply, outcome, try_invoke_handler-reply, outcome-set_handler}

abbrev echo : Handler
echo bytes = (true, 7 ∷ bytes)

abbrev empty_server : RpcServer
empty_server = record { protocol_version = 1; interface_version = 2; handlers = []; services = [] }

abbrev request_header : SomeIpMessage
request_header = record {
  message_id = 0x00050006;
  client_id = 9;
  session_id = 4;
  protocol_version = 1;
  interface_version = 2;
  message_type = 0;
  return_code = 0;
}

abbrev request_message : SomeIpRpcMessage
request_message = record { header = request_header; rpc_payload = 1 ∷ 2 ∷ [] }

request_header-FitsHeader : FitsHeader request_header
request_header-FitsHeader = record {
  id_fits = omega arith;
  client_fits = omega arith;
  session_fits = omega arith;
}

outcome_echoed : outcome (set_handler empty_server 5 6 echo) request_message ≡ (0, 7 ∷ 1 ∷ 2 ∷ [])
outcome_echoed =
    outcome-set_handler empty_server 5 6 echo request_message (omega arith) (omega arith)
      (omega arith) refl refl refl

echoed_size : 8 + length (outcome (set_handler empty_server 5 6 echo) request_message).1 < 2 ^ 32
echoed_size = rw outcome_echoed (omega arith)

try_invoke_handler-reply_example :
    let server = set_handler empty_server 5 6 echo in
    (try_invoke_handler server (message_payload request_message)
      ≡ ok (some (message_payload (reply server request_message))))
    × (deserialize_rpc (message_payload (reply server request_message))
        ≡ ok (reply server request_message))
try_invoke_handler-reply_example =
    try_invoke_handler-reply (set_handler empty_server 5 6 echo) request_message
      request_header-FitsHeader (omega arith) echoed_size

abbrev caller : RpcClient ℕ
caller = record {
  protocol_version = 1;
  interface_version = 2;
  handlers = (0x00050006, 77) ∷ [];
  session_ids = (0x00050006, 4) ∷ [];
}

abbrev echo_server : RpcServer
echo_server = record {
  protocol_version = 1;
  interface_version = 2;
  handlers = (0x00050006, echo) ∷ [];
  services = 5 ∷ [];
}

send-invoke_handler_example :
    (d : RpcClient ℕ) × (bytes : List ℕ) × (response : List ℕ) × (send caller 5 6 9 (1 ∷ 2 ∷ [])
      ≡ ok (d, bytes))
    × (try_invoke_handler echo_server bytes ≡ ok (some response))
    × (invoke_handler d response
        ≡ ok (some (77, reply echo_server (request_of caller 5 6 9 (1 ∷ 2 ∷ [])))))
unfolding session_of session_or_first find message_id_of outcome validate
send-invoke_handler_example =
    send-invoke_handler caller echo_server 5 6 9 (1 ∷ 2 ∷ []) 77 (omega arith) (omega arith)
      (omega arith) (omega arith) (omega arith) (omega arith) refl

abbrev call : Call
call = record { service_id = 5; method_id = 6; client_id = 9; rpc_payload = [] }

send_all-consecutive_example :
    (d : RpcClient ℕ) × (e : RpcClient ℕ) × (send_all (new_client 1 2) (call ∷ call ∷ []) ≡ ok d)
    × (send d 5 6 9 (1 ∷ []) ≡ ok (e, message_payload (request_of d 5 6 9 (1 ∷ []))))
    × (session_of d (message_id_of 5 6)
        ≡ count_calls (message_id_of 5 6) (call ∷ call ∷ []) % (2 ^ 16 - 1) + 1)
send_all-consecutive_example = send_all-consecutive (call ∷ call ∷ []) 1 2 5 6 9 (1 ∷ [])
