-- ===== src/Com/Rpc/Message.antt =====
-- src/ara/com/someip/rpc/someip_rpc_message.cpp: a header with a payload behind it.
use adaptive_autosar.Prelude.{
  ℕ, ◌+◌, ◌-◌, ◌%◌, ◌^◌, ◌||◌, List, ◌++◌, Result, ok, throws, undefined, ◌>>=◌, if◌then◌else◌,
  ◌==◌, ltb, length, take, drop,
}
use adaptive_autosar.Com.Payload.{extract_integer}
use adaptive_autosar.Com.Message
use adaptive_autosar.Com.Message.{
  SomeIpMessage, new_message, new_reply, header_payload, deserialize_header,
}

pub record SomeIpRpcMessage : Type 0 where
  pub header : SomeIpMessage
  pub rpc_payload : List ℕ

-- The constructors of requests.
unfoldable pub new_request : ℕ → ℕ → ℕ → ℕ → ℕ → List ℕ → Result SomeIpRpcMessage
new_request message_id client_id session_id protocol_version interface_version rpc_payload = do
  header ←
      new_message message_id client_id protocol_version interface_version
        Message.MessageType.request session_id
  ok (record { header = header; rpc_payload = rpc_payload })

-- The constructor with a return code: a response, or an error.
unfoldable pub new_response : ℕ → ℕ → ℕ → ℕ → ℕ → ℕ → List ℕ → Result SomeIpRpcMessage
new_response message_id client_id session_id protocol_version interface_version code rpc_payload =
    do
      header ←
          new_reply message_id client_id protocol_version interface_version
            (if code == Message.ReturnCode.e_ok
              then Message.MessageType.response
              else Message.MessageType.error)
            code session_id
      ok (record { header = header; rpc_payload = rpc_payload })

-- `Length`.
unfoldable pub rpc_length : SomeIpRpcMessage → ℕ
rpc_length m = (8 + length m.rpc_payload) % 2 ^ 32

-- `Payload`.
unfoldable pub message_payload : SomeIpRpcMessage → List ℕ
unfolding rpc_length
message_payload m = header_payload m.header (rpc_length m) ++ m.rpc_payload

-- The vector between two iterators, from byte 16 on: undefined unless they are in order and in the
-- vector.
unfoldable pub slice_payload : List ℕ → ℕ → Result (List ℕ)
slice_payload v size =
    if ltb size 8 || ltb (length v) (16 + size - 8)
    then throws undefined
    else ok (take (size - 8) (drop 16 v))

-- `Deserialize`.
unfoldable pub deserialize_rpc : List ℕ → Result SomeIpRpcMessage
unfolding slice_payload
deserialize_rpc v = do
  (size, after_length) ← extract_integer v 4
  header ← deserialize_header v
  rpc_payload ← slice_payload v size
  ok (record { header = header; rpc_payload = rpc_payload })
