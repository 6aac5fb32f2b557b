-- ===== src/Com/PubSub.antt =====
-- src/ara/com/someip/pubsub/someip_pubsub_server.cpp, its states under fsm/, and the transitions of
-- src/ara/com/helper/finite_state_machine.h. The network layers are the messages that a call
-- returns. The subscription counter is an `int32_t`, whose overflow is undefined behaviour.
pub mod Counting
pub mod Answers
pub mod Client
pub mod Subscription
pub mod Tests
use Prim.Native.Nat.{bit_or}
use adaptive_autosar.Prelude.{
  ℕ, ◌+◌, ◌-◌, ◌*◌, ◌%◌, ◌^◌, Bool, true, false, not, ◌&&◌, ◌||◌, Option, none, some, List, [], ◌∷◌,
  ◌++◌, Result, ok, throws, undefined, ◌>>=◌, if◌then◌else◌, ◌==◌, ltb, leb, length,
}
use adaptive_autosar.Com.Payload.{Ipv4Address, inject_short, inject_integer}
use adaptive_autosar.Com.Options.{SdOption, endpoint, create_multicast_endpoint}
use adaptive_autosar.Com.Entries.{
  Entry, SdEntry, service, eventgroup, EntryType, subscribing, entry_type_byte, add_first_option,
}
use adaptive_autosar.Com.Entries.Build.{create_acknowledge, create_negative_acknowledge}
use adaptive_autosar.Com.Sd.{SomeIpSdMessage, new_sd_message, add_entry}

pub data PubSubState : Type 0 where
  service_down not_subscribed subscribed : PubSubState

-- The state machine with the counter of `SubscribedState`.
pub record Machine : Type 0 where
  pub current : PubSubState
  pub subscription_counter : ℕ

unfoldable pub same_state : PubSubState → PubSubState → Bool
same_state service_down service_down = true
same_state not_subscribed not_subscribed = true
same_state subscribed subscribed = true
same_state _ _ = false

-- The states' `Activate`.
unfoldable pub activate : PubSubState → Machine → Machine
activate subscribed m = record m { subscription_counter = 1 }
activate _ m = m

-- `FiniteStateMachine::Transit`.
unfoldable pub transit : PubSubState → PubSubState → Machine → Machine
unfolding same_state activate
transit previous next m =
    if same_state previous m.current then activate next (record m { current = next }) else m

-- `SubscribedState::Unsubscribed`.
unfoldable pub count_down : Machine → Machine
unfolding transit
count_down m =
    let counted : Machine = record m { subscription_counter = m.subscription_counter - 1 } in
    if leb counted.subscription_counter 0
    then transit subscribed not_subscribed counted
    else counted

pub record SomeIpPubSubServer : Type 0 where
  pub machine : Machine
  pub has_event_layer : Bool
  pub session_id : ℕ
  pub service_id : ℕ
  pub instance_id : ℕ
  pub major_version : ℕ
  pub eventgroup_id : ℕ
  pub endpoint_ip : Ipv4Address
  pub endpoint_port : ℕ

-- `Subscribed` of the current state, if it has one.
unfoldable pub count_subscription : Machine → Result Machine
unfolding transit
count_subscription m = elim m.current [
  | service_down ↦ ok m
  | not_subscribed ↦ ok (transit not_subscribed subscribed m)
  | subscribed ↦
      if ltb m.subscription_counter 0x7fffffff
      then ok (record m { subscription_counter = m.subscription_counter + 1 })
      else throws undefined
]

-- The acknowledgement entry of `processEntry`, by the state before the call.
unfoldable pub acknowledge : SomeIpPubSubServer → PubSubState → Entry → ℕ → ℕ → Result SdEntry
acknowledge s service_down e counter id = create_negative_acknowledge e counter id
acknowledge s _ e counter id = do
  entry ← create_acknowledge e counter id
  option ← create_multicast_endpoint true s.endpoint_ip s.endpoint_port
  add_first_option entry (endpoint option)

-- `processEntry`: the server, and the message that is sent.
unfoldable pub process_entry :
    SomeIpPubSubServer → Entry → ℕ → ℕ → SomeIpPubSubServer × Result SomeIpSdMessage
unfolding acknowledge count_subscription
process_entry s e counter id = elim (count_subscription s.machine) [
  | throws fault ↦ (s, throws fault)
  | ok counted ↦ (
    record s { machine = counted },
    (do
      message ← new_sd_message
      entry ← acknowledge s s.machine.current e counter id
      ok (add_entry message entry)),
  )
]

-- The comparison of a subscribing entry's identifiers with the server's.
unfoldable pub is_addressed : SomeIpPubSubServer → Entry → ℕ → Bool
is_addressed s e id =
    e.service_id == s.service_id
    && ((e.instance_id == 0xffff || e.instance_id == s.instance_id)
        && ((e.major_version == 0xff || e.major_version == s.major_version)
            && id == s.eventgroup_id))

-- The calls of the states' methods, by the current state.
unfoldable pub remove_subscription : Machine → Machine
unfolding count_down
remove_subscription m = elim m.current [ subscribed ↦ count_down m | _ ↦ m ]

unfoldable pub start_machine : Machine → Machine
unfolding transit
start_machine m = elim m.current [ service_down ↦ transit service_down not_subscribed m | _ ↦ m ]

unfoldable pub stop_machine : Machine → Machine
unfolding transit
stop_machine m = elim m.current [
  | service_down ↦ m
  | not_subscribed ↦ transit not_subscribed service_down m
  | subscribed ↦ transit subscribed service_down m
]

-- `onMessageReceived`, on the entries of a message: the first entry that is addressed to the
-- server decides. `none` is no answer.
unfoldable pub on_message_received :
    SomeIpPubSubServer → List SdEntry → SomeIpPubSubServer × Option (Result SomeIpSdMessage)
unfolding process_entry is_addressed remove_subscription
on_message_received s [] = (s, none)
on_message_received s (service e minor ∷ entries) = on_message_received s entries
on_message_received s (eventgroup e counter id ∷ entries) =
    if entry_type_byte e.type == entry_type_byte subscribing && is_addressed s e id
    then (if ltb 0 e.ttl
        then ((process_entry s e counter id).0, some (process_entry s e counter id).1)
        else (record s { machine = remove_subscription s.machine }, none))
    else on_message_received s entries

unfoldable pub next_session_id : ℕ → ℕ
next_session_id id = if (id + 1) % 2 ^ 16 == 0 then 1 else (id + 1) % 2 ^ 16

-- The bytes that `Publish` builds.
unfoldable pub notification_bytes : SomeIpPubSubServer → ℕ → List ℕ → List ℕ
notification_bytes s event_id payload =
    inject_integer (bit_or (s.service_id * 2 ^ 16) event_id)
    ++ (inject_integer ((8 + length payload) % 2 ^ 32)
        ++ (inject_short 0
            ++ (inject_short s.session_id ++ (1 ∷ s.major_version ∷ 0x02 ∷ 0x00 ∷ payload))))

-- `Publish`: the server, and what goes to the event layer.
unfoldable pub publish : SomeIpPubSubServer → ℕ → List ℕ → SomeIpPubSubServer × Option (List ℕ)
unfolding next_session_id notification_bytes same_state
publish s event_id payload =
    if not s.has_event_layer
    then (s, none)
    else if not (same_state s.machine.current subscribed)
    then (s, none)
    else (
      record s { session_id = next_session_id s.session_id },
      some (notification_bytes s event_id payload),
    )

unfoldable pub set_event_layer : SomeIpPubSubServer → Bool → SomeIpPubSubServer
set_event_layer s present = record s { has_event_layer = present }

unfoldable pub start : SomeIpPubSubServer → SomeIpPubSubServer
unfolding start_machine
start s = record s { machine = start_machine s.machine }

unfoldable pub stop : SomeIpPubSubServer → SomeIpPubSubServer
unfolding stop_machine
stop s = record s { machine = stop_machine s.machine }
