-- ===== src/Com/Message.antt =====
-- src/ara/com/someip/someip_message.cpp: the header that all SOME/IP messages share. Message type
-- and return code are kept as bytes, since the deserialiser casts any byte to the enumerations.
-- The virtual `Length` is an argument of `header_payload`.
pub mod MessageType
pub mod ReturnCode
pub mod Header
use adaptive_autosar.Prelude.{
  ℕ, zero, suc, ◌+◌, ◌%◌, ◌-◌, ◌^◌, Bool, true, false, not, ◌&&◌, ◌||◌, List, [], ◌∷◌, ◌++◌, Result,
  ok, throws, invalid_argument, ◌>>=◌, if◌then◌else◌, ◌==◌,
}
use adaptive_autosar.Com.Payload.{
  get_unchecked, inject_short, inject_integer, extract_short, extract_integer,
}

pub record SomeIpMessage : Type 0 where
  pub message_id : ℕ
  pub client_id : ℕ
  pub session_id : ℕ
  pub protocol_version : ℕ
  pub interface_version : ℕ
  pub message_type : ℕ
  pub return_code : ℕ

-- The protected constructor without a return code: requests and notifications only.
unfoldable pub new_message : ℕ → ℕ → ℕ → ℕ → ℕ → ℕ → Result SomeIpMessage
new_message message_id client_id protocol_version interface_version message_type session_id =
    if not (message_type == MessageType.request) && not (message_type == MessageType.notification)
    then throws invalid_argument
    else ok (record {
      message_id = message_id;
      client_id = client_id;
      session_id = session_id;
      protocol_version = protocol_version;
      interface_version = interface_version;
      message_type = message_type;
      return_code = ReturnCode.e_ok;
    })

-- The protected constructor with a return code: any other message.
unfoldable pub new_reply : ℕ → ℕ → ℕ → ℕ → ℕ → ℕ → ℕ → Result SomeIpMessage
new_reply message_id client_id protocol_version interface_version message_type code session_id =
    if message_type == MessageType.request || message_type == MessageType.notification
    then throws invalid_argument
    else if message_type == MessageType.error && code == ReturnCode.e_ok
    then throws invalid_argument
    else ok (record {
      message_id = message_id;
      client_id = client_id;
      session_id = session_id;
      protocol_version = protocol_version;
      interface_version = interface_version;
      message_type = message_type;
      return_code = code;
    })

abbrev pub session_id_max : ℕ
session_id_max = 2 ^ 16 - 1

-- `IncrementSessionId`: the message, and whether the identifier wrapped.
unfoldable pub increment_session_id : SomeIpMessage → SomeIpMessage × Bool
increment_session_id m =
    if m.session_id == session_id_max
    then (record m { session_id = 1 }, true)
    else (record m { session_id = (m.session_id + 1) % 2 ^ 16 }, false)

-- `SomeIpMessage::Payload`.
unfoldable pub header_payload : SomeIpMessage → ℕ → List ℕ
header_payload m length =
    inject_integer m.message_id
    ++ (inject_integer length
        ++ (inject_short m.client_id
            ++ (inject_short m.session_id
                ++ (m.protocol_version ∷ m.interface_version ∷ m.message_type ∷ m.return_code
                    ∷ []))))

-- `SomeIpMessage::Deserialize`, which sets every member. Four bytes of length are skipped.
unfoldable pub deserialize_header : List ℕ → Result SomeIpMessage
deserialize_header v = do
  (message_id, after_id) ← extract_integer v 0
  (client_id, after_client) ← extract_short v (suc (suc (suc (suc after_id))))
  (session_id, after_session) ← extract_short v after_client
  protocol_version ← get_unchecked v after_session
  interface_version ← get_unchecked v (suc after_session)
  message_type ← get_unchecked v (suc (suc after_session))
  return_code ← get_unchecked v (suc (suc (suc after_session)))
  ok (record {
    message_id = message_id;
    client_id = client_id;
    session_id = session_id;
    protocol_version = protocol_version;
    interface_version = interface_version;
    message_type = message_type;
    return_code = return_code;
  })
