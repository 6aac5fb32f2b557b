-- ===== src/Com/PubSub/Subscription.antt =====
-- src/ara/com/someip/pubsub: a subscription on its way from someip_pubsub_client.cpp to
-- someip_pubsub_server.cpp and back.
use adaptive_autosar.Prelude.{
  ℕ, zero, suc, ◌-◌, ◌^◌, ◌<◌, ◌≤◌, ◌≡◌, ◌≢◌, refl, ap, sym, ◌∙◌, Bool, true, some, List, [], ◌∷◌,
  ◌++◌, ok, arith, if◌then◌else◌, ◌==◌, Bool-cases, inl, inr,
}
use mathlib.Core.Path.{subst}
use adaptive_autosar.Com.Payload.{Ipv4Address}
use adaptive_autosar.Com.Message
use adaptive_autosar.Com.Message.{new_message}
use adaptive_autosar.Com.Options.{
  Ipv4EndpointOption, endpoint, create_multicast_endpoint, ipv4_multicast, option_type,
  option_type_byte,
}
use adaptive_autosar.Com.Entries.{
  SdEntry, base, eventgroup, acknowledging, subscribing, entry_type_byte, add_first_option,
  validate_option, validate_eventgroup, validate_base, validate_in_group, is_acknowledge,
  contains_option, any_of_type,
}
use adaptive_autosar.Com.Entries.Build.{
  new_entry, new_eventgroup, create_subscribe, create_acknowledge,
}
use adaptive_autosar.Com.Sd.{SomeIpSdMessage, new_sd_message, add_entry}
use adaptive_autosar.Com.PubSub.{
  PubSubState, service_down, not_subscribed, subscribed, SomeIpPubSubServer, acknowledge,
  process_entry, is_addressed,
}
use adaptive_autosar.Com.PubSub
use adaptive_autosar.Com.PubSub.Counting.{
  count_subscription-one_more, one_more, one_more-add, subscriptions, abstract_add,
}
use adaptive_autosar.Com.PubSub.Client
use adaptive_autosar.Com.PubSub.Client.{
  SomeIpPubSubClient, moved_from, enqueue_each, subscribe, dequeue_from, try_dequeue, get_after,
  try_get_processed_subscription,
}

-- The acknowledging entries of a message.
unfoldable pub count_acknowledging : List SdEntry → ℕ
count_acknowledging [] = 0
count_acknowledging (e ∷ entries) =
    let rest = count_acknowledging entries in
    if entry_type_byte (base e).type == entry_type_byte acknowledging then suc rest else rest

-- A message, and so many empty ones behind it.
unfoldable pub copies : ℕ → SomeIpSdMessage → List SomeIpSdMessage
copies zero m = []
copies (suc n) m = m ∷ copies n (moved_from m)

enqueue_each-copies :
    (entries : List SdEntry) (m : SomeIpSdMessage)
    → enqueue_each entries m (λ _. true) ≡ copies (count_acknowledging entries) m
unfolding enqueue_each copies count_acknowledging
enqueue_each-copies [] m = refl
enqueue_each-copies (e ∷ entries) m =
    elim (Bool-cases (entry_type_byte (base e).type == entry_type_byte acknowledging)) [
      | inl mine ↦
          rw (mine, enqueue_each, count_acknowledging)
            (ap (λ ms. m ∷ ms) (enqueue_each-copies entries (moved_from m)))
      | inr other ↦ rw (other, enqueue_each, count_acknowledging) (enqueue_each-copies entries m)
    ]

-- A message that a client receives while its queue is free is enqueued once for each of its
-- acknowledging entries, whole the first time and without entries from then on.
pub on_message_received-copies :
    (c : SomeIpPubSubClient) (m : SomeIpSdMessage)
    → (Client.on_message_received c m (λ _. true)).message_buffer
      ≡ c.message_buffer ++ copies (count_acknowledging m.entries) m
unfolding Client.on_message_received
on_message_received-copies c m = ap (λ ms. c.message_buffer ++ ms) (enqueue_each-copies m.entries m)

-- The request of a client, and the answer of a server that is up.
abbrev pub request_for : ℕ → SomeIpPubSubServer → SomeIpSdMessage
request_for counter s = record {
  header = record {
    message_id = 0xffff8100;
    client_id = 0;
    session_id = 1;
    protocol_version = 1;
    interface_version = 1;
    message_type = Message.MessageType.notification;
    return_code = Message.ReturnCode.e_ok;
  };
  rebooted = true;
  entries =
      eventgroup (new_entry subscribing s.service_id s.instance_id 0xffffff s.major_version) counter
        s.eventgroup_id
      ∷ [];
}

abbrev pub answer_entry : ℕ → SomeIpPubSubServer → Ipv4EndpointOption → SdEntry
answer_entry counter s option =
    eventgroup
      (record (new_entry acknowledging s.service_id s.instance_id 0xffffff s.major_version) {
        first_options = endpoint option ∷ [];
      })
      counter s.eventgroup_id

abbrev pub answer_of : ℕ → SomeIpPubSubServer → Ipv4EndpointOption → SomeIpSdMessage
answer_of counter s option = record (request_for counter s) {
  entries = answer_entry counter s option ∷ [];
}

subscribe-request_for :
    (c : SomeIpPubSubClient) (s : SomeIpPubSubServer)
    → c.counter ≤ 15
    → subscribe c s.service_id s.instance_id s.major_version s.eventgroup_id
      ≡ ok (request_for c.counter s)
unfolding subscribe create_subscribe new_eventgroup new_sd_message new_message add_entry
subscribe-request_for c s h = ground arith

create_acknowledge-new_entry :
    (counter : ℕ) (s : SomeIpPubSubServer)
    → counter ≤ 15
    → create_acknowledge
        (new_entry subscribing s.service_id s.instance_id 0xffffff s.major_version)
        counter
        s.eventgroup_id
      ≡ ok (
          eventgroup
            (new_entry acknowledging s.service_id s.instance_id 0xffffff s.major_version)
            counter
            s.eventgroup_id)
unfolding create_acknowledge new_eventgroup new_entry
create_acknowledge-new_entry counter s small = ground arith

create_multicast_endpoint-type :
    (ip : Ipv4Address) (port : ℕ) (option : Ipv4EndpointOption)
    → create_multicast_endpoint true ip port ≡ ok option
    → option.type ≡ ipv4_multicast
unfolding create_multicast_endpoint
create_multicast_endpoint-type ip port option built = ground arith

validate_option-multicast :
    (counter : ℕ) (s : SomeIpPubSubServer) (option : Ipv4EndpointOption)
    → option.type ≡ ipv4_multicast
    → validate_option
        (eventgroup
          (new_entry acknowledging s.service_id s.instance_id 0xffffff s.major_version)
          counter
          s.eventgroup_id)
        (endpoint option)
      ≡ true
unfolding new_entry validate_option validate_eventgroup is_acknowledge contains_option validate_base
    validate_in_group option_type option_type_byte entry_type_byte any_of_type
validate_option-multicast counter s option type = rw type refl

acknowledge-up :
    (state : PubSubState) (counter : ℕ) (s : SomeIpPubSubServer) (option : Ipv4EndpointOption)
    → counter ≤ 15
    → state ≢ service_down
    → create_multicast_endpoint true s.endpoint_ip s.endpoint_port ≡ ok option
    → acknowledge s state
        (new_entry subscribing s.service_id s.instance_id 0xffffff s.major_version)
        counter
        s.eventgroup_id
      ≡ ok (answer_entry counter s option)
unfolding acknowledge add_first_option new_entry
acknowledge-up service_down counter s option small up built = absurd (up refl)
acknowledge-up not_subscribed counter s option small up built =
    rw
      (
        acknowledge,
        create_acknowledge-new_entry counter s small,
        built,
        validate_option-multicast counter s option
            (create_multicast_endpoint-type s.endpoint_ip s.endpoint_port option built),
      )
      refl
acknowledge-up subscribed counter s option small up built =
    rw
      (
        acknowledge,
        create_acknowledge-new_entry counter s small,
        built,
        validate_option-multicast counter s option
            (create_multicast_endpoint-type s.endpoint_ip s.endpoint_port option built),
      )
      refl

request_for-answered :
    (counter : ℕ) (s : SomeIpPubSubServer) (option : Ipv4EndpointOption)
    → counter ≤ 15
    → s.machine.current ≢ service_down
    → s.machine.subscription_counter < 2 ^ 31 - 1
    → create_multicast_endpoint true s.endpoint_ip s.endpoint_port ≡ ok option
    → (PubSub.on_message_received s (request_for counter s).entries).1
      ≡ some (ok (answer_of counter s option))
unfolding PubSub.on_message_received process_entry acknowledge is_addressed create_acknowledge
    new_eventgroup new_entry new_sd_message new_message add_entry add_first_option validate_option
    validate_eventgroup validate_base option_type option_type_byte
request_for-answered counter s option small up room built = ground (
  arith,
  acknowledge-up s.machine.current counter s option small up built,
  count_subscription-one_more s.machine.current s.machine.subscription_counter room,
)

request_for-counted :
    (counter : ℕ) (s : SomeIpPubSubServer)
    → s.machine.subscription_counter < 2 ^ 31 - 1
    → (PubSub.on_message_received s (request_for counter s).entries).0.machine ≡ one_more s.machine
unfolding PubSub.on_message_received process_entry is_addressed new_entry
request_for-counted counter s room =
    ground
      (arith, count_subscription-one_more s.machine.current s.machine.subscription_counter room)

gets_answer :
    (c : SomeIpPubSubClient) (s : SomeIpPubSubServer) (option : Ipv4EndpointOption)
    (timed_out : Bool)
    → c.message_buffer ≡ []
    → let answer = answer_of c.counter s option in
      try_get_processed_subscription
        (Client.on_message_received c answer (λ _. true))
        []
        timed_out
        true
      ≡ ok (c, some answer)
unfolding Client.on_message_received try_get_processed_subscription get_after try_dequeue
    dequeue_from enqueue_each new_entry entry_type_byte
gets_answer c s option timed_out empty =
    let answer = answer_of c.counter s option in
    subst
      (λ d.
        try_get_processed_subscription (Client.on_message_received d answer (λ _. true)) []
          timed_out true
        ≡ ok (d, some answer))
      (ap (λ ms. record c { message_buffer = ms }) (sym empty)) refl

-- A subscription that a client with a counter of at most 15 sends for the identifiers of a server
-- that is up, whose counter is below 2^31 - 1, and whose multicast endpoint can be made, is
-- answered with an acknowledgement that has these identifiers, the counter and the endpoint, and
-- counts as one subscription more; a client with an empty buffer that receives the answer while its
-- queue is free gets it from TryGetProcessedSubscription, if the queue is free again, and its
-- buffer is then empty.
pub subscribe-acknowledged :
    (c : SomeIpPubSubClient) (s : SomeIpPubSubServer) (option : Ipv4EndpointOption)
    (timed_out : Bool)
    → c.counter ≤ 15
    → c.message_buffer ≡ []
    → s.machine.current ≢ service_down
    → s.machine.subscription_counter < 2 ^ 31 - 1
    → create_multicast_endpoint true s.endpoint_ip s.endpoint_port ≡ ok option
    → let request = request_for c.counter s in
      let answer = answer_of c.counter s option in
      (subscribe c s.service_id s.instance_id s.major_version s.eventgroup_id ≡ ok request)
      × ((PubSub.on_message_received s request.entries).1 ≡ some (ok answer))
      × (subscriptions (PubSub.on_message_received s request.entries).0.machine
          ≡ abstract_add (subscriptions s.machine))
      × (try_get_processed_subscription
            (Client.on_message_received c answer (λ _. true))
            []
            timed_out
            true
          ≡ ok (c, some answer))
subscribe-acknowledged c s option timed_out small empty up room built = (
  subscribe-request_for c s small,
  request_for-answered c.counter s option small up room built,
  ap subscriptions (request_for-counted c.counter s room)
      ∙ (one_more-add s.machine.current s.machine.subscription_counter).0,
  gets_answer c s option timed_out empty,
)
