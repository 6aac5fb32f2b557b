-- ===== src/Com/Discovery/Handshake.antt =====
-- src/ara/com/someip/sd: what a server and a client of one service say to each other.
use mathlib.Core.Path.{subst}
use adaptive_autosar.Prelude.{
  ◌++◌, ℕ, ◌^◌, ◌<◌, ◌≡◌, refl, sym, Bool, true, false, some, List, [], ◌∷◌, ok, arith,
}
use adaptive_autosar.Prelude.Int.{ℤ}
use adaptive_autosar.Com.Payload.{Ipv4Address, address_string}
use adaptive_autosar.Com.Payload.Dotted.{IsDotted, HasOctets, address_string-IsDotted}
use adaptive_autosar.Com.Message.{new_message}
use adaptive_autosar.Com.Options.{create_unicast_endpoint, option_type, option_type_byte}
use adaptive_autosar.Com.Entries.{
  service, offering, add_first_option, validate_option, validate_service, validate_base,
  entry_type_byte,
}
use adaptive_autosar.Com.Entries.Build.{
  new_entry, create_offer_service, create_stop_offer, create_find_service,
}
use adaptive_autosar.Com.Sd.{new_sd_message, add_entry, sd_payload, deserialize}
use adaptive_autosar.Com.Sd.RoundTrip.{deserialize-payload}
use adaptive_autosar.Com.Discovery.Wire.{offer_of, find_of, find_of-IsSendable, offer_of-IsSendable}
use adaptive_autosar.Com.Discovery.Server.{
  SomeIpSdServer, receive_find, endpoint_message, new_sd_server, match_offering_service, is_sought,
}
use adaptive_autosar.Com.Discovery.Client.{
  SomeIpSdClient, new_sd_client, receive_sd_message, on_offer, store_endpoint,
  try_get_offered_endpoint, both,
}
use adaptive_autosar.Com.Discovery.Endpoint.{
  match_requested_service, try_extract_offered_endpoint, extract_of, extract_from, or_next,
  tcp_endpoint,
}
use adaptive_autosar.Com.Discovery.Timer.{get_offered, set_offered}

endpoint_message-offer_of :
    (ttl id instance major minor : ℕ) (ip : Ipv4Address) (port : ℕ)
    → endpoint_message (service (new_entry offering id instance ttl major) minor) ip port
      ≡ ok (offer_of ttl id instance major minor ip port)
unfolding endpoint_message new_entry add_first_option validate_option validate_service validate_base
    create_unicast_endpoint new_sd_message new_message add_entry option_type option_type_byte
endpoint_message-offer_of ttl id instance major minor ip port = refl

-- What a server offers, and under which numbers.
new_sd_server-offers :
    (id instance major minor : ℕ) (ip : Ipv4Address) (port : ℕ)
    (initial_min initial_max base cyclic : ℤ) (max : ℕ) (s : SomeIpSdServer)
    → new_sd_server id instance major minor ip port initial_min initial_max base cyclic max ≡ ok s
    → (s.offer_message ≡ offer_of 0xffffff id instance major minor ip port)
      × (s.offered ≡ record {
        service_id = id;
        instance_id = instance;
        major_version = major;
        minor_version = minor;
      })
unfolding new_sd_server create_offer_service create_stop_offer
new_sd_server-offers id instance major minor ip port initial_min initial_max base cyclic max s h =
    ground (
      arith,
      endpoint_message-offer_of 0xffffff id instance major minor ip port,
      endpoint_message-offer_of 0 id instance major minor ip port,
    )

client_gets :
    (c : SomeIpSdClient) (id instance major minor : ℕ) (ip : Ipv4Address) (port : ℕ)
    → c.service_id ≡ id
    → c.valid_state ≡ true
    → c.endpoint_is_locked ≡ false
    → (get_offered
          (receive_sd_message c (offer_of 0xffffff id instance major minor ip port)).0.timer
        ≡ true)
      × (try_get_offered_endpoint
            (receive_sd_message c (offer_of 0xffffff id instance major minor ip port)).0
          ≡ ok (some (address_string ip, port)))
unfolding receive_sd_message on_offer match_requested_service try_extract_offered_endpoint
    extract_of extract_from or_next tcp_endpoint store_endpoint try_get_offered_endpoint both
    get_offered set_offered option_type_byte entry_type_byte
client_gets c id instance major minor ip port same valid free = ground arith

-- The offer of a server made with numbers and an address that fit their fields is read back whole
-- from its payload; a client of that service that has not been destroyed and whose endpoint is not
-- locked then counts the service as offered, and TryGetOfferedEndpoint gives the port that the
-- server was made with and the text of its address: the four octets in decimal, with a dot between
-- each two.
pub offer_message-received :
    (id instance major minor : ℕ) (ip : Ipv4Address) (port : ℕ)
    (initial_min initial_max base cyclic : ℤ) (max : ℕ) (s : SomeIpSdServer) (c : SomeIpSdClient)
    → new_sd_server id instance major minor ip port initial_min initial_max base cyclic max ≡ ok s
    → id < 2 ^ 16
    → instance < 2 ^ 16
    → major < 2 ^ 8
    → minor < 2 ^ 32
    → port < 2 ^ 16
    → HasOctets ip
    → c.service_id ≡ id
    → c.valid_state ≡ true
    → c.endpoint_is_locked ≡ false
    → (deserialize (sd_payload s.offer_message) ≡ some (ok s.offer_message))
      × (get_offered (receive_sd_message c s.offer_message).0.timer ≡ true)
      × ((text : List ℕ) × IsDotted ip text
          × (try_get_offered_endpoint (receive_sd_message c s.offer_message).0
              ≡ ok (some (text, port))))
offer_message-received id instance major minor ip port initial_min initial_max base cyclic max s c
      built hid hinstance hmajor hminor hport octets same valid free =
    let offer = offer_of 0xffffff id instance major minor ip port in
    let (is_offer, numbers) =
      new_sd_server-offers id instance major minor ip port initial_min initial_max base cyclic max s
        built in
    let sendable =
      offer_of-IsSendable id instance major minor ip port hid hinstance hmajor hminor hport in
    let (offered, stored) = client_gets c id instance major minor ip port same valid free in
    subst
      (λ m.
        (deserialize (sd_payload m) ≡ some (ok m))
        × (get_offered (receive_sd_message c m).0.timer ≡ true)
        × ((text : List ℕ) × IsDotted ip text
            × (try_get_offered_endpoint (receive_sd_message c m).0 ≡ ok (some (text, port)))))
      (sym is_offer)
      (
        deserialize-payload offer sendable,
        offered,
        (address_string ip, address_string-IsDotted ip octets, stored),
      )

new_sd_client-finds :
    (flag : Bool) (id : ℕ) (initial_min initial_max base : ℤ) (max : ℕ) (c : SomeIpSdClient)
    → new_sd_client flag id initial_min initial_max base max ≡ ok c
    → c.find_message ≡ find_of id
unfolding new_sd_client create_find_service new_sd_message new_message add_entry new_entry
new_sd_client-finds flag id initial_min initial_max base max c built = ground arith

-- The find of a new client for a 16-bit service identifier is read back whole from its payload, and
-- a server of that service takes it into its buffer.
pub find_message-sought :
    (flag : Bool) (id : ℕ) (initial_min initial_max base : ℤ) (max : ℕ) (c : SomeIpSdClient)
    (s : SomeIpSdServer)
    → new_sd_client flag id initial_min initial_max base max ≡ ok c
    → id < 2 ^ 16
    → s.offered.service_id ≡ id
    → (deserialize (sd_payload c.find_message) ≡ some (ok c.find_message))
      × ((receive_find s c.find_message).message_buffer ≡ s.message_buffer ++ c.find_message ∷ [])
unfolding receive_find match_offering_service is_sought entry_type_byte
find_message-sought flag id initial_min initial_max base max c s built h same =
    let is_find = new_sd_client-finds flag id initial_min initial_max base max c built in
    subst
      (λ m.
        (deserialize (sd_payload m) ≡ some (ok m))
        × ((receive_find s m).message_buffer ≡ s.message_buffer ++ m ∷ []))
      (sym is_find) (deserialize-payload (find_of id) (find_of-IsSendable id h), ground arith)
