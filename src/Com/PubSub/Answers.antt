-- ===== src/Com/PubSub/Answers.antt =====
-- src/ara/com/someip/pubsub/someip_pubsub_server.cpp: the notifications that the server sends.
use mathlib.Core.List.{append-nil}
use adaptive_autosar.Prelude.{
  ℕ, ◌+◌, ◌*◌, ◌^◌, ◌<◌, ◌≡◌, refl, ap, true, some, List, [], ok, arith, length, bit_or_shifted,
}
use adaptive_autosar.Com.Payload.{inject_short, inject_integer}
use adaptive_autosar.Com.Message.{header_payload}
use adaptive_autosar.Com.Rpc.Message.{
  SomeIpRpcMessage, message_payload, rpc_length, deserialize_rpc,
}
use adaptive_autosar.Com.Rpc.RoundTrip.{deserialize_rpc-payload}
use adaptive_autosar.Com.PubSub.{
  subscribed, SomeIpPubSubServer, publish, notification_bytes, same_state,
}

-- The notification that `publish` means.
unfoldable pub notification : SomeIpPubSubServer → ℕ → List ℕ → SomeIpRpcMessage
notification s event_id payload = record {
  header = record {
    message_id = s.service_id * 2 ^ 16 + event_id;
    client_id = 0;
    session_id = s.session_id;
    protocol_version = 1;
    interface_version = s.major_version;
    message_type = 0x02;
    return_code = 0x00;
  };
  rpc_payload = payload;
}

notification_bytes-payload :
    (s : SomeIpPubSubServer) (event_id : ℕ) (payload : List ℕ)
    → event_id < 2 ^ 16
    → notification_bytes s event_id payload ≡ message_payload (notification s event_id payload)
unfolding notification_bytes message_payload rpc_length notification header_payload inject_integer
    inject_short
notification_bytes-payload s event_id payload small =
    rw (bit_or_shifted 16 s.service_id event_id small) refl

-- With an event layer and a subscriber, Publish sends bytes that a client reads back as a
-- notification with the service, event and session identifiers and the payload, when these fit.
pub publish-read :
    (s : SomeIpPubSubServer) (event_id : ℕ) (payload : List ℕ)
    → s.has_event_layer ≡ true
    → s.machine.current ≡ subscribed
    → s.service_id < 2 ^ 16
    → s.session_id < 2 ^ 16
    → event_id < 2 ^ 16
    → 8 + length payload < 2 ^ 32
    → ((publish s event_id payload).1 ≡ some (message_payload (notification s event_id payload)))
      × (deserialize_rpc (message_payload (notification s event_id payload))
          ≡ ok (notification s event_id payload))
unfolding publish notification same_state
publish-read s event_id payload layer state hs hn he hp =
    let read = rw append-nil at (
      deserialize_rpc-payload (notification s event_id payload) []
        (record { id_fits = omega arith; client_fits = omega arith; session_fits = hn }) hp) in
    (rw (layer, state, publish) (ap some (notification_bytes-payload s event_id payload he)), read)
