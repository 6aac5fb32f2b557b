-- ===== src/Com/Discovery/Server.antt =====
-- src/ara/com/someip/sd/someip_sd_server.cpp with its states under fsm/ and someip_sd_agent.h. The
-- thread of `std::async` sleeps in a timer or runs up to its next sleep in one step, `wake`. Other
-- threads' calls come between these steps. A call gives the messages that it sends. Nothing calls
-- `Interrupt`, so its flag is left out.
pub mod Waking
pub mod Offers
pub mod Answers
pub mod Phases
pub mod Restart
use adaptive_autosar.Prelude.{
  ℕ, zero, suc, Bool, true, false, ◌&&◌, ◌||◌, List, [], ◌∷◌, ◌++◌, Result, ok, throws, logic_error,
  invalid_argument, ◌>>=◌, if◌then◌else◌, ◌==◌, ltb,
}
use adaptive_autosar.Prelude.Int.{ℤ, pos, ltb_ℤ}
use adaptive_autosar.Com.Payload.{Ipv4Address}
use adaptive_autosar.Com.Options.{endpoint, create_unicast_endpoint, tcp}
use adaptive_autosar.Com.Entries.{
  Entry, SdEntry, service, eventgroup, finding, entry_type_byte, add_first_option,
}
use adaptive_autosar.Com.Entries.Build.{create_offer_service, create_stop_offer}
use adaptive_autosar.Com.Sd.{SomeIpSdMessage, new_sd_message, add_entry, increment_session_id}

pub data SdServerState : Type 0 where
  not_ready initial_wait_phase repetition_phase main_phase : SdServerState

-- The `Future`: not valid, about to run `ServiceActivated`, in the n-th sleep of the current
-- state's timer, or at its end.
pub data Thread : Type 0 where
  absent starting finished : Thread
  sleeping : ℕ → Thread

-- A timer's delays, which its constructor checks.
unfoldable pub check_delays : ℤ → ℤ → ℤ → ℤ → Bool
check_delays initial_min initial_max repetition_base cyclic_offer =
    ltb_ℤ initial_min (pos 0)
    || (ltb_ℤ initial_max (pos 0)
        || (ltb_ℤ initial_max initial_min
            || (ltb_ℤ repetition_base (pos 0) || ltb_ℤ cyclic_offer (pos 0))))

pub record OfferedService : Type 0 where
  pub service_id : ℕ
  pub instance_id : ℕ
  pub major_version : ℕ
  pub minor_version : ℕ

pub record SomeIpSdServer : Type 0 where
  pub current : SdServerState
  pub thread : Thread
  -- `mStopped` of the three timers.
  pub initial_wait_stopped : Bool
  pub repetition_stopped : Bool
  pub main_stopped : Bool
  pub repetitions_max : ℕ
  pub message_buffer : List SomeIpSdMessage
  pub offer_message : SomeIpSdMessage
  pub stop_offer_message : SomeIpSdMessage
  pub offered : OfferedService

-- A message with one entry, which holds the endpoint.
unfoldable pub endpoint_message : SdEntry → Ipv4Address → ℕ → Result SomeIpSdMessage
endpoint_message entry ip port = do
  message ← new_sd_message
  with_endpoint ← add_first_option entry (endpoint (create_unicast_endpoint false ip tcp port))
  ok (add_entry message with_endpoint)

-- The constructor, with the delays in the order of its parameters.
unfoldable pub new_sd_server :
    ℕ → ℕ → ℕ → ℕ → Ipv4Address → ℕ → ℤ → ℤ → ℤ → ℤ → ℕ → Result SomeIpSdServer
new_sd_server id instance major minor ip port initial_min initial_max base cyclic max =
    if check_delays initial_min initial_max base cyclic then throws invalid_argument else do
      offer_entry ← create_offer_service id instance major minor 0xffffff
      offer_message ← endpoint_message offer_entry ip port
      stop_offer_message ← endpoint_message (create_stop_offer id instance major minor) ip port
      ok (record {
        current = not_ready;
        thread = absent;
        initial_wait_stopped = false;
        repetition_stopped = false;
        main_stopped = false;
        repetitions_max = max;
        message_buffer = [];
        offer_message = offer_message;
        stop_offer_message = stop_offer_message;
        offered = record {
          service_id = id;
          instance_id = instance;
          major_version = major;
          minor_version = minor;
        };
      })

-- The comparison of a finding entry with the service.
unfoldable pub is_sought : OfferedService → Entry → ℕ → Bool
is_sought s e minor =
    e.service_id == s.service_id
    && ((e.instance_id == 0xffff || e.instance_id == s.instance_id)
        && ((e.major_version == 0xff || e.major_version == s.major_version)
            && (minor == 0xffffffff || minor == s.minor_version)))

-- `matchOfferingService`: the first finding entry decides.
unfoldable pub match_offering_service : OfferedService → List SdEntry → Bool
match_offering_service s [] = false
match_offering_service s (eventgroup e counter id ∷ entries) = match_offering_service s entries
match_offering_service s (service e minor ∷ entries) =
    let rest = match_offering_service s entries in
    if entry_type_byte e.type == entry_type_byte finding then is_sought s e minor else rest

-- `receiveFind`; the buffer is tried until it takes the message.
unfoldable pub receive_find : SomeIpSdServer → SomeIpSdMessage → SomeIpSdServer
receive_find s m =
    if match_offering_service s.offered m.entries
    then record s { message_buffer = s.message_buffer ++ m ∷ [] }
    else s

-- The loop of `sendOffer`: the offer after it, and the offers sent.
unfoldable pub offer_each :
    List SomeIpSdMessage → SomeIpSdMessage → SomeIpSdMessage × List SomeIpSdMessage
offer_each [] offer = (offer, [])
offer_each (find ∷ finds) offer =
    let (last, offers) = offer_each finds (increment_session_id offer).0 in (last, offer ∷ offers)

unfoldable pub send_offer : SomeIpSdServer → SomeIpSdServer × List SomeIpSdMessage
send_offer s =
    let (offer, offers) = offer_each s.message_buffer s.offer_message in
    (record s { message_buffer = []; offer_message = offer }, offers)

-- `StartAgent`.
unfoldable pub start_agent : SdServerState → SomeIpSdServer → SomeIpSdServer
start_agent not_ready s = record s { thread = starting }
start_agent _ s = s

-- `Start`, by the thread that there is.
unfoldable pub start_beside : Thread → SdServerState → SomeIpSdServer → Result SomeIpSdServer
start_beside absent c s = ok (start_agent c s)
start_beside _ c s = throws logic_error

unfoldable pub start : SomeIpSdServer → Result SomeIpSdServer
start s = start_beside s.thread s.current s

-- `StopAgent` up to `Join`.
unfoldable pub service_stopped : SomeIpSdServer → SomeIpSdServer
service_stopped s = record s {
  initial_wait_stopped = true;
  repetition_stopped = true;
  main_stopped = true;
}

-- The end of `Join`, which is blocked while the thread runs.
unfoldable pub join_thread : Thread → Thread
join_thread finished = absent
join_thread t = t

unfoldable pub join : SomeIpSdServer → SomeIpSdServer
join s = record s { thread = join_thread s.thread }
