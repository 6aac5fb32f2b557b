-- ===== src/Com/Rpc/Reply.antt =====
-- src/ara/com/someip/rpc/rpc_server.cpp: what a client gets for a request.
use Prim.Native.Nat.{bit_or}
use mathlib.Core.List.{append-nil}
use adaptive_autosar.Prelude.{
  ℕ, ◌+◌, ◌*◌, ◌/◌, ◌%◌, ◌^◌, ◌<◌, ◌≡◌, refl, sym, ap, ◌∙◌, true, Option, none, some, List, [], ok,
  if◌then◌else◌, ◌==◌, arith, length, Bool-cases, Option-cases, inl, inr, ==_self, bit_or_shifted,
  find, find-assign,
}
use adaptive_autosar.Com.Message
use adaptive_autosar.Com.Message.{SomeIpMessage, new_reply}
use adaptive_autosar.Com.Message.Header.{FitsHeader}
use adaptive_autosar.Com.Rpc.Message.{
  SomeIpRpcMessage, new_response, message_payload, deserialize_rpc,
}
use adaptive_autosar.Com.Rpc.RoundTrip.{deserialize_rpc-payload}
use adaptive_autosar.Com.Rpc.Server.{
  Handler, RpcServer, has_service, insert_service, set_handler, validate, get_response_payload,
  invoke, try_invoke_handler,
}

-- The return code and the payload that a request deserves.
unfoldable pub handled_by : Option Handler → List ℕ → ℕ × List ℕ
handled_by none bytes = (Message.ReturnCode.e_unknown_method, [])
handled_by (some handler) bytes = (
  if (handler bytes).0 then Message.ReturnCode.e_ok else Message.ReturnCode.e_not_ok,
  (handler bytes).1,
)

unfoldable pub outcome : RpcServer → SomeIpRpcMessage → ℕ × List ℕ
unfolding handled_by
outcome s m =
    if validate s m == Message.ReturnCode.e_ok
    then handled_by (find m.header.message_id s.handlers) m.rpc_payload
    else (validate s m, [])

-- The reply to a request: the request's identifiers, the server's versions.
unfoldable pub reply : RpcServer → SomeIpRpcMessage → SomeIpRpcMessage
unfolding outcome
reply s m = record {
  header = record {
    message_id = m.header.message_id;
    client_id = m.header.client_id;
    session_id = m.header.session_id;
    protocol_version = s.protocol_version;
    interface_version = s.interface_version;
    message_type =
        if (outcome s m).0 == Message.ReturnCode.e_ok
        then Message.MessageType.response
        else Message.MessageType.error;
    return_code = (outcome s m).0;
  };
  rpc_payload = (outcome s m).1;
}

get_response_payload_ok :
    (s : RpcServer) (m : SomeIpRpcMessage) (code : ℕ) (bytes : List ℕ)
    → outcome s m ≡ (code, bytes)
    → get_response_payload s m code bytes ≡ ok (message_payload (reply s m))
unfolding get_response_payload new_response new_reply reply
get_response_payload_ok s m code bytes h = elim (Bool-cases (code == 0)) [
  | inl z ↦ rw (h, z) refl
  | inr z ↦ rw (h, z) refl
]

invoke-reply :
    (s : RpcServer) (m : SomeIpRpcMessage) → invoke s m ≡ ok (message_payload (reply s m))
unfolding invoke outcome handled_by
invoke-reply s m = elim (Bool-cases (validate s m == Message.ReturnCode.e_ok)) [
  | inr refused ↦
      rw (refused, invoke) (get_response_payload_ok s m (validate s m) [] (rw refused refl))
  | inl valid ↦ elim (Option-cases (find m.header.message_id s.handlers)) [
    | inl missing ↦
        rw (valid, missing, invoke)
          (get_response_payload_ok s m Message.ReturnCode.e_unknown_method []
            (rw (valid, missing) refl))
    | inr (handler, found) ↦
        rw (valid, found, invoke) (get_response_payload_ok s m _ _ (rw (valid, found) refl))
  ]
]

reply-FitsHeader :
    (s : RpcServer) (m : SomeIpRpcMessage) → FitsHeader m.header → FitsHeader (reply s m).header
unfolding reply
reply-FitsHeader s m fits = record {
  id_fits = fits.id_fits;
  client_fits = fits.client_fits;
  session_fits = fits.session_fits;
}

-- TryInvokeHandler answers the payload of a request whose fields and lengths fit with the payload
-- of a reply that has the request's message, client and session identifiers, the code and payload
-- that validation and the handler give, and that the client reads back whole.
pub try_invoke_handler-reply :
    (s : RpcServer) (m : SomeIpRpcMessage)
    → FitsHeader m.header
    → 8 + length m.rpc_payload < 2 ^ 32
    → 8 + length (outcome s m).1 < 2 ^ 32
    → (try_invoke_handler s (message_payload m) ≡ ok (some (message_payload (reply s m))))
      × (deserialize_rpc (message_payload (reply s m)) ≡ ok (reply s m))
unfolding try_invoke_handler reply
try_invoke_handler-reply s m fits small reply_small =
    let read = rw append-nil at (deserialize_rpc-payload m [] fits small) in
    let back =
      rw append-nil at
        (deserialize_rpc-payload (reply s m) [] (reply-FitsHeader s m fits) reply_small) in
    (rw (read, invoke-reply s m) refl, back)

has_service-insert_service :
    (id : ℕ) (services : List ℕ) → has_service id (insert_service id services) ≡ true
unfolding has_service insert_service
has_service-insert_service id services = elim (Bool-cases (has_service id services)) [
  | inl present ↦ rw (present, insert_service) present
  | inr absent ↦ rw (absent, insert_service) (rw (==_self id) refl)
]

-- After SetHandler, a request for that service and method, numbers of 16 bits, with the server's
-- versions is valid, and the handler decides the return code and the reply's payload.
pub outcome-set_handler :
    (s : RpcServer) (service_id method_id : ℕ) (handler : Handler) (m : SomeIpRpcMessage)
    → service_id < 2 ^ 16
    → method_id < 2 ^ 16
    → m.header.message_id ≡ service_id * 2 ^ 16 + method_id
    → m.header.message_type ≡ Message.MessageType.request
    → m.header.protocol_version ≡ s.protocol_version
    → m.header.interface_version ≡ s.interface_version
    → outcome (set_handler s service_id method_id handler) m ≡ (
      if (handler m.rpc_payload).0 then Message.ReturnCode.e_ok else Message.ReturnCode.e_not_ok,
      (handler m.rpc_payload).1,
    )
unfolding outcome set_handler validate handled_by
outcome-set_handler s service_id method_id handler m hs hm id type protocol interface =
    let whole : service_id * 2 ^ 16 % 2 ^ 32 ≡ service_id * 2 ^ 16 = omega arith in
    let key : bit_or (service_id * 2 ^ 16 % 2 ^ 32) method_id ≡ m.header.message_id =
      ap (λ x. bit_or x method_id) whole ∙ bit_or_shifted 16 service_id method_id hm ∙ sym id in
    let service : m.header.message_id / 2 ^ 16 % 2 ^ 16 ≡ service_id = omega (arith, id) in
    rw (
      key,
      type,
      protocol,
      interface,
      service,
      ==_self s.protocol_version,
      ==_self s.interface_version,
      has_service-insert_service service_id s.services,
      find-assign m.header.message_id handler s.handlers,
      handled_by,
    )
