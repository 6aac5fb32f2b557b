-- ===== src/Com/Discovery/Endpoint.antt =====
-- src/ara/com/someip/sd/someip_sd_client.cpp: what a client reads in an offer.
use adaptive_autosar.Prelude.{
  ℕ, ◌&&◌, Option, none, some, List, [], ◌∷◌, Result, ok, throws, out_of_range, ◌>>=◌,
  if◌then◌else◌, ◌==◌,
}
use adaptive_autosar.Com.Payload.{address_string}
use adaptive_autosar.Com.Options.{
  SdOption, endpoint, balancing, option_type_byte, ipv4_endpoint, tcp,
}
use adaptive_autosar.Com.Entries.{SdEntry, service, eventgroup, base, offering, entry_type_byte}

-- `matchRequestedService`: the first offering entry decides; its time to live, if it matches.
unfoldable pub match_requested_service : ℕ → List SdEntry → Option ℕ
match_requested_service id [] = none
match_requested_service id (eventgroup e counter group ∷ entries) =
    match_requested_service id entries
match_requested_service id (service e minor ∷ entries) =
    let rest = match_requested_service id entries in
    if entry_type_byte e.type == entry_type_byte offering
    then (if e.service_id == id then some e.ttl else none)
    else rest

-- An option of the inner loop: an endpoint over TCP, with its address as a string.
unfoldable pub tcp_endpoint : SdOption → Option (List ℕ × ℕ)
unfolding address_string
tcp_endpoint (endpoint o) =
    if option_type_byte o.type == option_type_byte ipv4_endpoint && o.l4_proto == tcp
    then some (address_string o.ip_address, o.port)
    else none
tcp_endpoint (balancing o) = none

-- The inner loop from an option on. Its condition is the number of the entry's options, not the
-- index, so it goes on behind the last one, where `at` throws.
unfoldable pub extract_from : List SdOption → Result (Option (List ℕ × ℕ))
extract_from [] = throws out_of_range
extract_from (o ∷ os) =
    let rest = extract_from os in
    elim (tcp_endpoint o) [ some found ↦ ok (some found) | none ↦ rest ]

unfoldable pub extract_of : List SdOption → Result (Option (List ℕ × ℕ))
extract_of [] = ok none
extract_of (o ∷ os) = extract_from (o ∷ os)

-- What an entry without options leaves to the next ones.
unfoldable pub or_next :
    Result (Option (List ℕ × ℕ)) → Option (List ℕ × ℕ) → Result (Option (List ℕ × ℕ))
or_next rest (some found) = ok (some found)
or_next rest none = rest

-- `tryExtractOfferedEndpoint`.
unfoldable pub try_extract_offered_endpoint : List SdEntry → Result (Option (List ℕ × ℕ))
try_extract_offered_endpoint [] = ok none
try_extract_offered_endpoint (e ∷ entries) =
    let rest = try_extract_offered_endpoint entries in
    extract_of (base e).first_options >>= or_next rest
