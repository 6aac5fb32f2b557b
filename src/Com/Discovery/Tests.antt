-- ===== src/Com/Discovery/Tests.antt =====
-- src/ara/com/someip/sd: a server of service 5 on 10.0.0.1:80, and a client that looks for it.
use adaptive_autosar.Prelude.{
  ℕ, ◌+◌, ◌≤◌, ◌≡◌, ◌≢◌, refl, true, false, some, none, List, [], ◌∷◌, ok, throws, out_of_range,
  system_error, arith, length,
}
use adaptive_autosar.Prelude.Int.{pos}
use adaptive_autosar.Com.Payload.{Ipv4Address}
use adaptive_autosar.Com.Payload.Dotted.{IsDotted, HasOctets}
use adaptive_autosar.Com.Message.{new_message}
use adaptive_autosar.Com.Options.{
  SdOption, endpoint, ipv4_endpoint, udp, option_type, option_type_byte, create_unicast_endpoint,
}
use adaptive_autosar.Com.Entries.{
  service, offering, add_first_option, validate_option, validate_base, entry_type_byte,
}
use adaptive_autosar.Com.Entries.Build.{
  new_entry, create_offer_service, create_stop_offer, create_find_service,
}
use adaptive_autosar.Com.Sd.{SomeIpSdMessage, new_sd_message, add_entry, sd_payload, deserialize}
use adaptive_autosar.Com.Discovery.Server
use adaptive_autosar.Com.Discovery.Server.Waking
use adaptive_autosar.Com.Discovery.Server.{
  SomeIpSdServer, OfferedService, new_sd_server, receive_find,
}
use adaptive_autosar.Com.Discovery.Server.Waking.{stop_agent, wake}
use adaptive_autosar.Com.Discovery.Server.Answers.{sought_by_all, run-answers}
use adaptive_autosar.Com.Discovery.Server.Offers.{IsUnstopped, offers}
use adaptive_autosar.Com.Discovery.Server.Phases.{run-main_phase}
use adaptive_autosar.Com.Discovery.Server.Restart.{stop_agent-ne-main}
use adaptive_autosar.Com.Discovery.Client
use adaptive_autosar.Com.Discovery.Client.Stepping
use adaptive_autosar.Com.Discovery.Client.{
  SomeIpSdClient, new_sd_client, receive_sd_message, try_get_offered_endpoint, notified_offered,
  destroy,
}
use adaptive_autosar.Com.Discovery.Client.Stepping.{step}
use adaptive_autosar.Com.Discovery.Endpoint.{
  match_requested_service, tcp_endpoint, extract_from, extract_of, or_next,
  try_extract_offered_endpoint,
}
use adaptive_autosar.Com.Discovery.Timer.{new_ttl_timer, set_requested, set_offered, get_offered}
use adaptive_autosar.Com.Discovery.Client.Offers.{
  or_else, first_options_of, tcp_endpoints, receive-locks,
}
use adaptive_autosar.Com.Discovery.Client.Signals.{after, start-notified}
use adaptive_autosar.Com.Discovery.Client.Live.{IsAtRest}
use adaptive_autosar.Com.Discovery.Client.Settling.{run-settles}
use adaptive_autosar.Com.Discovery.Client.Ending.{destroy-finishes}
use adaptive_autosar.Com.Discovery.Handshake.{offer_message-received, find_message-sought}
use adaptive_autosar.Com.Discovery.Wire.{offer_of, find_of}

abbrev address : Ipv4Address
address = record { octet0 = 10; octet1 = 0; octet2 = 0; octet3 = 1 }

abbrev radio : OfferedService
radio = record { service_id = 5; instance_id = 1; major_version = 2; minor_version = 3 }

abbrev server : SomeIpSdServer
server = record {
  current = Server.not_ready;
  thread = Server.absent;
  initial_wait_stopped = false;
  repetition_stopped = false;
  main_stopped = false;
  repetitions_max = 1;
  message_buffer = [];
  offer_message = offer_of 0xffffff 5 1 2 3 address 80;
  stop_offer_message = offer_of 0 5 1 2 3 address 80;
  offered = radio;
}

server-IsUnstopped : IsUnstopped server
server-IsUnstopped = record { initial_wait = refl; repetition = refl; main = refl }

server_new : new_sd_server 5 1 2 3 address 80 (pos 10) (pos 20) (pos 30) (pos 40) 1 ≡ ok server
unfolding new_sd_server Server.check_delays create_offer_service Server.endpoint_message
    new_sd_message new_message add_first_option validate_option validate_base option_type
    create_unicast_endpoint option_type_byte create_stop_offer add_entry new_entry
server_new = refl

abbrev client : SomeIpSdClient
client = record {
  timer = record { requested = false; disposing = false; signal_flag = false; ttl = 0 };
  current = Client.service_not_seen;
  position = Client.idle;
  valid_state = true;
  disposing = false;
  ever_requested = false;
  repetitions_max = 2;
  find_message = find_of 5;
  service_id = 5;
  endpoint_is_locked = false;
  offered_ip_address = none;
  offered_port = none;
}

abbrev asking_client : SomeIpSdClient
asking_client = record client {
  timer = record { requested = true; disposing = false; signal_flag = true; ttl = 0 };
  position = Client.requesting;
}

client-IsAtRest : IsAtRest client
client-IsAtRest = record {
  current = refl;
  position = refl;
  undisposed = refl;
  timer_undisposed = refl;
  valid = refl;
}

client_new : new_sd_client false 5 (pos 10) (pos 20) (pos 30) 2 ≡ ok client
unfolding new_sd_client new_sd_message new_message create_find_service new_ttl_timer add_entry
    new_entry
client_new = refl

-- A server that is asked once before its start, and once in its repetition phase.
abbrev server_events : List Waking.Event
server_events =
    Waking.finds (find_of 5)
    ∷ Waking.starts
    ∷ Waking.wakes
    ∷ Waking.wakes
    ∷ Waking.finds (find_of 5)
    ∷ Waking.wakes
    ∷ []

run-answers_example :
    (n : ℕ) × ((Waking.run server_events server).1 ≡ offers n server.offer_message)
    × (n + length (Waking.run server_events server).0.message_buffer
        ≡ sought_by_all radio server_events + 0)
run-answers_example = run-answers server_events server refl server-IsUnstopped

abbrev waking : List Waking.Event
waking = Waking.wakes ∷ Waking.finds (find_of 5) ∷ Waking.wakes ∷ Waking.wakes ∷ []

run-main_phase_example :
    ((Waking.run (Waking.starts ∷ waking) server).0.current ≡ Server.main_phase)
    × ((wake (Waking.run (Waking.starts ∷ waking) server).0).0.message_buffer ≡ [])
run-main_phase_example =
    run-main_phase waking server refl refl server-IsUnstopped refl (omega arith)

stop_agent-ne-main_example :
    ((stop_agent (Waking.run (Waking.starts ∷ waking) server).0).0.thread ≡ Server.absent)
    × ((Waking.run
          (Waking.starts ∷ waking)
          (stop_agent (Waking.run (Waking.starts ∷ waking) server).0).0).0.current
        ≢ Server.main_phase)
stop_agent-ne-main_example =
    stop_agent-ne-main waking (Waking.starts ∷ waking) server refl refl server-IsUnstopped refl

-- An offer with an endpoint over UDP only.
abbrev udp_endpoint : SdOption
udp_endpoint = endpoint (record {
  type = ipv4_endpoint;
  discardable = false;
  ip_address = address;
  l4_proto = udp;
  port = 80;
})

abbrev udp_offer : SomeIpSdMessage
udp_offer = record (find_of 5) {
  entries =
      service
        (record {
          type = offering;
          first_options = udp_endpoint ∷ [];
          second_options = [];
          service_id = 5;
          instance_id = 1;
          major_version = 2;
          ttl = 9;
        })
        3
      ∷ [];
}

receive-locks_example :
    ((receive_sd_message client udp_offer).1 ≡ throws out_of_range)
    × (try_get_offered_endpoint (
          Stepping.run
            (Stepping.starts ∷ Stepping.steps false ∷ [])
            (receive_sd_message client udp_offer).0)
        ≡ throws system_error)
unfolding match_requested_service entry_type_byte first_options_of or_else tcp_endpoints
    tcp_endpoint option_type_byte
receive-locks_example =
    receive-locks udp_offer (Stepping.starts ∷ Stepping.steps false ∷ []) client 9 udp_endpoint []
      refl refl refl refl refl

start-notified_example :
    ((after 8 (λ k. false) asking_client).current ≡ Client.service_ready)
    × (get_offered (after 8 (λ k. false) asking_client).timer ≡ false)
    × ((step true (after 8 (λ k. false) asking_client)).1 ≡ notified_offered ∷ [])
unfolding Client.start Client.start_at set_requested
start-notified_example = start-notified client asking_client (λ k. false) refl refl refl refl

-- A client that hears an offer in its initial wait.
abbrev client_events : List Stepping.Event
client_events = Stepping.steps false ∷ Stepping.receives (offer_of 0xffffff 5 1 2 3 address 80) ∷ []

client_requested : (Stepping.run (Stepping.starts ∷ client_events) client).timer.requested ≡ true
unfolding Stepping.run Stepping.handle receive_sd_message step Stepping.step_at Stepping.started
    Client.start Client.start_at Stepping.request_service Stepping.go Client.on_offer
    match_requested_service entry_type_byte Client.store_endpoint try_extract_offered_endpoint
    extract_of extract_from or_next set_offered set_requested tcp_endpoint option_type_byte
client_requested = refl

client_offered : get_offered (Stepping.run (Stepping.starts ∷ client_events) client).timer ≡ true
unfolding Stepping.run Stepping.handle receive_sd_message step Stepping.step_at Stepping.started
    Client.start Client.start_at Stepping.request_service Stepping.go Client.on_offer
    match_requested_service entry_type_byte Client.store_endpoint try_extract_offered_endpoint
    extract_of extract_from or_next set_offered set_requested tcp_endpoint option_type_byte
    get_offered
client_offered = refl

run-settles_example :
    (k : ℕ) × (k ≤ 4)
    × ((after k (λ n. false) (Stepping.run (Stepping.starts ∷ client_events) client)).current
        ≡ Client.service_ready)
    × ((after k (λ n. false) (Stepping.run (Stepping.starts ∷ client_events) client)).position
        ≡ Client.waiting)
run-settles_example =
    run-settles client_events client (λ n. false) client-IsAtRest refl client_requested
      client_offered

destroy-finishes_example :
    (after
      ((Stepping.run (Stepping.starts ∷ client_events) client).repetitions_max + 8)
      (λ n. false)
      (destroy (Stepping.run (Stepping.starts ∷ client_events) client))).position
    ≡ Client.finished
destroy-finishes_example = destroy-finishes client_events client (λ n. false) client-IsAtRest refl

address-HasOctets : HasOctets address
address-HasOctets = record {
  octet0 = omega arith;
  octet1 = omega arith;
  octet2 = omega arith;
  octet3 = omega arith;
}

offer_message-received_example :
    (deserialize (sd_payload server.offer_message) ≡ some (ok server.offer_message))
    × (get_offered (receive_sd_message client server.offer_message).0.timer ≡ true)
    × ((text : List ℕ) × IsDotted address text
        × (try_get_offered_endpoint (receive_sd_message client server.offer_message).0
            ≡ ok (some (text, 80))))
offer_message-received_example =
    offer_message-received 5 1 2 3 address 80 (pos 10) (pos 20) (pos 30) (pos 40) 1 server client
      server_new (omega arith) (omega arith) (omega arith) (omega arith) (omega arith)
      address-HasOctets refl refl refl

find_message-sought_example :
    (deserialize (sd_payload client.find_message) ≡ some (ok client.find_message))
    × ((receive_find server client.find_message).message_buffer ≡ client.find_message ∷ [])
find_message-sought_example =
    find_message-sought false 5 (pos 10) (pos 20) (pos 30) 2 client server client_new (omega arith)
      refl
