-- ===== src/Com/Rpc/Server.antt =====
-- src/ara/com/someip/rpc/rpc_server.cpp: validation of requests, and dispatch to handlers.
use Prim.Native.Nat.{bit_or}
use adaptive_autosar.Prelude.{
  ℕ, ◌*◌, ◌/◌, ◌%◌, ◌^◌, Bool, true, false, not, Option, none, some, List, [], ◌∷◌, Result, ok,
  throws, out_of_range, ◌>>=◌, if◌then◌else◌, ◌==◌, find, assign,
}
use adaptive_autosar.Com.Message
use adaptive_autosar.Com.Rpc.Message.{
  SomeIpRpcMessage, new_response, message_payload, deserialize_rpc,
}

abbrev pub Handler : Type 0
Handler = List ℕ → Bool × List ℕ

pub record RpcServer : Type 0 where
  pub protocol_version : ℕ
  pub interface_version : ℕ
  pub handlers : List (ℕ × Handler)
  pub services : List ℕ

unfoldable pub new_server : ℕ → ℕ → RpcServer
new_server protocol interface = record {
  protocol_version = protocol;
  interface_version = interface;
  handlers = [];
  services = [];
}

unfoldable pub has_service : ℕ → List ℕ → Bool
has_service id [] = false
has_service id (service ∷ services) = if service == id then true else has_service id services

unfoldable pub insert_service : ℕ → List ℕ → List ℕ
unfolding has_service
insert_service id services = if has_service id services then services else id ∷ services

-- `SetHandler`.
unfoldable pub set_handler : RpcServer → ℕ → ℕ → Handler → RpcServer
unfolding insert_service
set_handler s service_id method_id handler = record s {
  handlers = assign (bit_or (service_id * 2 ^ 16 % 2 ^ 32) method_id) handler s.handlers;
  services = insert_service service_id s.services;
}

-- `validate`: the return code.
unfoldable pub validate : RpcServer → SomeIpRpcMessage → ℕ
unfolding has_service
validate s request =
    if not (request.header.message_type == Message.MessageType.request)
    then Message.ReturnCode.e_wrong_message_type
    else if not (request.header.protocol_version == s.protocol_version)
    then Message.ReturnCode.e_wrong_protocol_version
    else if not (request.header.interface_version == s.interface_version)
    then Message.ReturnCode.e_wrong_interface_version
    else if not (has_service (request.header.message_id / 2 ^ 16 % 2 ^ 16) s.services)
    then Message.ReturnCode.e_unknown_service
    else Message.ReturnCode.e_ok

-- `getResponsePayload`.
unfoldable pub get_response_payload : RpcServer → SomeIpRpcMessage → ℕ → List ℕ → Result (List ℕ)
get_response_payload s request code rpc_payload = do
  response ←
      new_response request.header.message_id request.header.client_id request.header.session_id
        s.protocol_version s.interface_version code rpc_payload
  ok (message_payload response)

-- The body of `TryInvokeHandler` behind the deserialisation.
unfoldable pub invoke : RpcServer → SomeIpRpcMessage → Result (List ℕ)
unfolding validate get_response_payload
invoke s request =
    let code = validate s request in
    if not (code == Message.ReturnCode.e_ok)
    then get_response_payload s request code []
    else elim (find request.header.message_id s.handlers) [
      | none ↦ get_response_payload s request Message.ReturnCode.e_unknown_method []
      | some handler ↦
          let (handled, rpc_payload) = handler request.rpc_payload in
          get_response_payload s request
            (if handled then Message.ReturnCode.e_ok else Message.ReturnCode.e_not_ok) rpc_payload
    ]

-- `catch (std::out_of_range)`: no response.
abbrev pub catch_out_of_range : Result (List ℕ) → Result (Option (List ℕ))
catch_out_of_range (ok response) = ok (some response)
catch_out_of_range (throws out_of_range) = ok none
catch_out_of_range (throws fault) = throws fault

-- `TryInvokeHandler`: the response's bytes, or `none` where it returns false.
unfoldable pub try_invoke_handler : RpcServer → List ℕ → Result (Option (List ℕ))
unfolding invoke
try_invoke_handler s bytes =
    catch_out_of_range (deserialize_rpc bytes >>= λ request. invoke s request)
