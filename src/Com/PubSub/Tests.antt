-- ===== src/Com/PubSub/Tests.antt =====
-- src/ara/com/someip/pubsub: a server that is started and gets a subscription.
use adaptive_autosar.Prelude.{◌≡◌, refl, true, some, [], ◌∷◌, ◌++◌, arith, ok}
use adaptive_autosar.Com.Entries.{SdEntry, eventgroup, subscribing}
use adaptive_autosar.Com.Rpc.Message.{message_payload, deserialize_rpc}
use adaptive_autosar.Com.PubSub.{
  PubSubState, service_down, not_subscribed, subscribed, SomeIpPubSubServer, publish,
}
use adaptive_autosar.Com.PubSub.Counting.{
  receiving, handle, subscriptions, abstract_add, abstract_handle, IsValid, handle-IsValid,
}
use adaptive_autosar.Com.Options.{
  create_multicast_endpoint, Ipv4EndpointOption, ipv4_multicast, udp,
}
use adaptive_autosar.Com.Sd.{SomeIpSdMessage}
use adaptive_autosar.Com.PubSub
use adaptive_autosar.Com.PubSub.Client
use adaptive_autosar.Com.PubSub.Client.{
  SomeIpPubSubClient, subscribe, try_get_processed_subscription,
}
use adaptive_autosar.Com.PubSub.Subscription.{
  count_acknowledging, copies, request_for, answer_of, answer_entry, on_message_received-copies,
  subscribe-acknowledged,
}
use adaptive_autosar.Com.PubSub.Answers.{notification, publish-read}

abbrev server_in : PubSubState → SomeIpPubSubServer
server_in state = record {
  machine = record { current = state; subscription_counter = 1 };
  has_event_layer = true;
  session_id = 1;
  service_id = 5;
  instance_id = 1;
  major_version = 2;
  eventgroup_id = 3;
  endpoint_ip = record { octet0 = 239; octet1 = 0; octet2 = 0; octet3 = 1 };
  endpoint_port = 5555;
}

abbrev subscription : SdEntry
subscription =
    eventgroup
      (record {
        type = subscribing;
        first_options = [];
        second_options = [];
        service_id = 5;
        instance_id = 1;
        major_version = 2;
        ttl = 0xffffff;
      })
      0 3

server_in-IsValid : (state : PubSubState) → IsValid (server_in state)
server_in-IsValid state = record {
  counted = λ e. omega arith;
  nonzero = omega arith;
  fits = omega arith;
}

handle-IsValid_example :
    IsValid (handle (server_in not_subscribed) (receiving (subscription ∷ [])))
    × (subscriptions (handle (server_in not_subscribed) (receiving (subscription ∷ []))).machine
        ≡ abstract_handle
            (server_in not_subscribed)
            (receiving (subscription ∷ []))
            (subscriptions (server_in not_subscribed).machine))
handle-IsValid_example =
    handle-IsValid (server_in not_subscribed) (receiving (subscription ∷ []))
      (server_in-IsValid not_subscribed) (omega arith)

publish-read_example :
    ((publish (server_in subscribed) 7 (1 ∷ 2 ∷ [])).1
      ≡ some (message_payload (notification (server_in subscribed) 7 (1 ∷ 2 ∷ []))))
    × (deserialize_rpc (message_payload (notification (server_in subscribed) 7 (1 ∷ 2 ∷ [])))
        ≡ ok (notification (server_in subscribed) 7 (1 ∷ 2 ∷ [])))
publish-read_example =
    publish-read (server_in subscribed) 7 (1 ∷ 2 ∷ []) refl refl (omega arith) (omega arith)
      (omega arith) (omega arith)

abbrev client : SomeIpPubSubClient
client = record { counter = 4; message_buffer = []; valid_notify = true }

abbrev multicast : Ipv4EndpointOption
multicast = record {
  type = ipv4_multicast;
  discardable = true;
  ip_address = record { octet0 = 239; octet1 = 0; octet2 = 0; octet3 = 1 };
  l4_proto = udp;
  port = 5555;
}

multicast_made :
    create_multicast_endpoint true (server_in not_subscribed).endpoint_ip 5555 ≡ ok multicast
unfolding create_multicast_endpoint
multicast_made = refl

subscribe-acknowledged_example :
    let request = request_for 4 (server_in not_subscribed) in
    let answer = answer_of 4 (server_in not_subscribed) multicast in
    (subscribe client 5 1 2 3 ≡ ok request)
    × ((PubSub.on_message_received (server_in not_subscribed) request.entries).1 ≡ some (ok answer))
    × (subscriptions
          (PubSub.on_message_received (server_in not_subscribed) request.entries).0.machine
        ≡ abstract_add (subscriptions (server_in not_subscribed).machine))
    × (try_get_processed_subscription
          (Client.on_message_received client answer (λ _. true))
          []
          true
          true
        ≡ ok (client, some answer))
subscribe-acknowledged_example =
    subscribe-acknowledged client (server_in not_subscribed) multicast true (omega arith) refl
      (λ e. cc) (omega arith) multicast_made

-- An acknowledgement of two subscriptions.
abbrev two_answers : SomeIpSdMessage
two_answers = record (request_for 4 (server_in subscribed)) {
  entries =
      answer_entry 4 (server_in subscribed) multicast
      ∷ answer_entry 5 (server_in subscribed) multicast
      ∷ [];
}

on_message_received-copies_example :
    (Client.on_message_received client two_answers (λ _. true)).message_buffer
    ≡ [] ++ copies (count_acknowledging two_answers.entries) two_answers
on_message_received-copies_example = on_message_received-copies client two_answers
