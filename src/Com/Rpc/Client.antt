-- ===== src/Com/Rpc/Client.antt =====
-- src/ara/com/someip/rpc/rpc_client.cpp. A handler is anything, and a call of it is what
-- InvokeHandler returns.
use Prim.Native.Nat.{bit_or}
use adaptive_autosar.Prelude.{
  ℕ, ◌*◌, ◌%◌, ◌^◌, Option, none, some, List, [], Result, ok, throws, out_of_range, ◌>>=◌, find,
  assign,
}
use adaptive_autosar.Com.Message
use adaptive_autosar.Com.Rpc.Message.{
  SomeIpRpcMessage, new_request, message_payload, deserialize_rpc,
}

pub record RpcClient (H : Type 0) : Type 0 where
  pub protocol_version : ℕ
  pub interface_version : ℕ
  pub handlers : List (ℕ × H)
  pub session_ids : List (ℕ × ℕ)

unfoldable pub message_id_of : ℕ → ℕ → ℕ
message_id_of service_id method_id = bit_or (service_id * 2 ^ 16 % 2 ^ 32) method_id

-- A missing entry of the map of sessions stands for the first session.
unfoldable pub session_or_first : Option ℕ → ℕ
session_or_first none = 1
session_or_first (some session) = session

module _ {H : Type 0} where
  unfoldable pub set_handler : RpcClient H → ℕ → ℕ → H → RpcClient H
  set_handler c service_id method_id handler = record c {
    handlers = assign (message_id_of service_id method_id) handler c.handlers;
  }

  unfoldable pub call_of : SomeIpRpcMessage → Option H → Option (H × SomeIpRpcMessage)
  call_of message none = none
  call_of message (some handler) = some (handler, message)

  -- `catch (std::out_of_range)`: no call.
  abbrev pub ignore_corrupted :
      Result (Option (H × SomeIpRpcMessage)) → Result (Option (H × SomeIpRpcMessage))
  ignore_corrupted (ok call) = ok call
  ignore_corrupted (throws out_of_range) = ok none
  ignore_corrupted (throws fault) = throws fault

  -- `InvokeHandler`: the handler that is called, with its message.
  unfoldable pub invoke_handler : RpcClient H → List ℕ → Result (Option (H × SomeIpRpcMessage))
  invoke_handler c bytes = ignore_corrupted (do
    message ← deserialize_rpc bytes
    ok (call_of message (find message.header.message_id c.handlers)))

  unfoldable pub session_of : RpcClient H → ℕ → ℕ
  session_of c message_id = session_or_first (find message_id c.session_ids)

  -- `Send`: the client, and the bytes that the network layer gets.
  unfoldable pub send : RpcClient H → ℕ → ℕ → ℕ → List ℕ → Result (RpcClient H × List ℕ)
  send c service_id method_id client_id rpc_payload = do
    request ←
        new_request (message_id_of service_id method_id) client_id
          (session_of c (message_id_of service_id method_id)) c.protocol_version c.interface_version
          rpc_payload
    ok (
      record c {
        session_ids =
            assign (message_id_of service_id method_id)
              ((Message.increment_session_id request.header).0).session_id c.session_ids;
      },
      message_payload request,
    )

  unfoldable pub new_client : ℕ → ℕ → RpcClient H
  new_client protocol interface = record {
    protocol_version = protocol;
    interface_version = interface;
    handlers = [];
    session_ids = [];
  }
