-- ===== src/Com/Discovery/Client/Offers.antt =====
-- src/ara/com/someip/sd/someip_sd_client.cpp: which endpoint an offer gives, and what an offer
-- without one does.
use adaptive_autosar.Prelude.{
  ℕ, ◌≡◌, refl, ap, ◌∙◌, Bool, true, false, Option, some, none, List, [], ◌∷◌, Result, ok, throws,
  out_of_range, system_error, ◌>>=◌, arith, if_then,
}
use adaptive_autosar.Com.Options.{SdOption}
use adaptive_autosar.Com.Entries.{SdEntry, base}
use adaptive_autosar.Com.Sd.{SomeIpSdMessage}
use adaptive_autosar.Com.Discovery.Client.{
  SdClientState, Position, idle, requesting, entering, waiting, finished, sleeping, SomeIpSdClient,
  store_endpoint, on_offer, receive_sd_message, try_get_offered_endpoint, start_at, start, stop,
  destroy,
}
use adaptive_autosar.Com.Discovery.Client.Stepping.{
  started, go, leave_not_seen, leave_seen, leave_stopped, leave_ready, wait_for_signal, seen_loop,
  ready_loop, enter, end_wait, send_find, end_sleep, request_service, step_at, step, Event, starts,
  stops, destroys, receives, steps, handle, run,
}
use adaptive_autosar.Com.Discovery.Endpoint.{
  tcp_endpoint, or_next, extract_from, extract_of, try_extract_offered_endpoint,
  match_requested_service,
}

unfoldable pub or_else : List SdOption → List SdOption → List SdOption
or_else [] rest = rest
or_else (o ∷ os) rest = o ∷ os

-- The options of the first entry that has any in its first run.
unfoldable pub first_options_of : List SdEntry → List SdOption
first_options_of [] = []
first_options_of (e ∷ entries) = or_else (base e).first_options (first_options_of entries)

-- The endpoints over TCP among options.
unfoldable pub tcp_endpoints : List SdOption → List (List ℕ × ℕ)
tcp_endpoints [] = []
tcp_endpoints (o ∷ os) =
    let rest = tcp_endpoints os in elim (tcp_endpoint o) [ some at ↦ at ∷ rest | none ↦ rest ]

abbrev pub first_or_throw : List (List ℕ × ℕ) → Result (Option (List ℕ × ℕ))
first_or_throw [] = throws out_of_range
first_or_throw (at ∷ ats) = ok (some at)

unfoldable pub endpoint_of : List SdOption → Result (Option (List ℕ × ℕ))
endpoint_of [] = ok none
endpoint_of (o ∷ os) = first_or_throw (tcp_endpoints (o ∷ os))

extract_from-first : (os : List SdOption) → extract_from os ≡ first_or_throw (tcp_endpoints os)
unfolding extract_from tcp_endpoints
extract_from-first [] = refl
extract_from-first (o ∷ os) = ground (arith, extract_from-first os)

extract_of-endpoint_of : (os : List SdOption) → extract_of os ≡ endpoint_of os
unfolding extract_of endpoint_of
extract_of-endpoint_of [] = refl
extract_of-endpoint_of (o ∷ os) = extract_from-first (o ∷ os)

or_next-first :
    (rest : Result (Option (List ℕ × ℕ))) (ats : List (List ℕ × ℕ))
    → (first_or_throw ats >>= or_next rest) ≡ first_or_throw ats
unfolding or_next
or_next-first rest [] = refl
or_next-first rest (at ∷ ats) = refl

extract_then :
    (os rest : List SdOption)
    → (endpoint_of os >>= or_next (endpoint_of rest)) ≡ endpoint_of (or_else os rest)
unfolding endpoint_of or_else or_next
extract_then [] rest = refl
extract_then (o ∷ os) rest = or_next-first (endpoint_of rest) (tcp_endpoints (o ∷ os))

-- tryExtractOfferedEndpoint only ever looks at the first options that an entry has.
pub try_extract-endpoint_of :
    (entries : List SdEntry)
    → try_extract_offered_endpoint entries ≡ endpoint_of (first_options_of entries)
unfolding try_extract_offered_endpoint first_options_of endpoint_of
try_extract-endpoint_of [] = refl
try_extract-endpoint_of (e ∷ entries) =
    rw (extract_of-endpoint_of (base e).first_options, try_extract-endpoint_of entries)
      (extract_then (base e).first_options (first_options_of entries))

-- The lock stays.
store_endpoint-locked :
    (c : SomeIpSdClient) (r : Result (Option (List ℕ × ℕ)))
    → c.endpoint_is_locked ≡ true
    → (store_endpoint c r).0.endpoint_is_locked ≡ true
unfolding store_endpoint
store_endpoint-locked c (ok none) h = h
store_endpoint-locked c (ok (some (ip, port))) h = h
store_endpoint-locked c (throws fault) h = refl

on_offer-locked :
    (c : SomeIpSdClient) (entries : List SdEntry) (ttl : Option ℕ)
    → c.endpoint_is_locked ≡ true
    → (on_offer c entries ttl).0.endpoint_is_locked ≡ true
unfolding on_offer
on_offer-locked c entries none h = h
on_offer-locked c entries (some ttl) h = rw (on_offer, if_then _ _ h) h

step_at-locked :
    (p : Position) (s : SdClientState) (t : Bool) (c : SomeIpSdClient)
    → (step_at p s t c).0.endpoint_is_locked ≡ c.endpoint_is_locked
unfolding step_at enter request_service seen_loop ready_loop leave_seen leave_not_seen leave_ready
    leave_stopped go end_wait end_sleep send_find wait_for_signal
step_at-locked idle s t c = refl
step_at-locked finished s t c = refl
step_at-locked requesting s t c = ground arith
step_at-locked entering s t c = ground arith
step_at-locked waiting s t c = ground arith
step_at-locked (sleeping i) s t c = ground arith

start_at-locked :
    (p : Position) (c : SomeIpSdClient)
    → (started c (start_at p c)).endpoint_is_locked ≡ c.endpoint_is_locked
unfolding start_at started
start_at-locked p c = ground arith

handle-locked :
    (e : Event) (c : SomeIpSdClient)
    → c.endpoint_is_locked ≡ true
    → (handle e c).endpoint_is_locked ≡ true
unfolding handle start stop destroy step receive_sd_message
handle-locked starts c h = start_at-locked c.position c ∙ h
handle-locked stops c h = ground arith
handle-locked destroys c h = h
handle-locked (receives m) c h =
    ground (arith, on_offer-locked c m.entries (match_requested_service c.service_id m.entries))
handle-locked (steps t) c h = step_at-locked c.position c.current t c ∙ h

run-locked :
    (es : List Event) (c : SomeIpSdClient)
    → c.endpoint_is_locked ≡ true
    → (run es c).endpoint_is_locked ≡ true
unfolding run
run-locked [] c h = h
run-locked (e ∷ es) c h = run-locked es (handle e c) (handle-locked e c h)

offer-locks :
    (c : SomeIpSdClient) (m : SomeIpSdMessage) (ttl : ℕ)
    → c.valid_state ≡ true
    → c.endpoint_is_locked ≡ false
    → match_requested_service c.service_id m.entries ≡ some ttl
    → try_extract_offered_endpoint m.entries ≡ throws out_of_range
    → ((receive_sd_message c m).1 ≡ throws out_of_range)
      × ((receive_sd_message c m).0.endpoint_is_locked ≡ true)
unfolding receive_sd_message on_offer store_endpoint
offer-locks c m ttl valid free matches throwing = ground arith

-- When an offer matches the service of a valid client with a free endpoint, but the first of its
-- entries with first options has no endpoint over TCP among them, receiving it throws out_of_range,
-- and from then on, whatever happens, TryGetOfferedEndpoint throws because the endpoint's lock is
-- never released.
pub receive-locks :
    (m : SomeIpSdMessage) (es : List Event) (c : SomeIpSdClient) (ttl : ℕ) (o : SdOption)
    (os : List SdOption)
    → c.valid_state ≡ true
    → c.endpoint_is_locked ≡ false
    → match_requested_service c.service_id m.entries ≡ some ttl
    → first_options_of m.entries ≡ o ∷ os
    → tcp_endpoints (o ∷ os) ≡ []
    → ((receive_sd_message c m).1 ≡ throws out_of_range)
      × (try_get_offered_endpoint (run es (receive_sd_message c m).0) ≡ throws system_error)
unfolding try_get_offered_endpoint endpoint_of
receive-locks m es c ttl o os valid free matches first none_tcp =
    let throwing : try_extract_offered_endpoint m.entries ≡ throws out_of_range =
      try_extract-endpoint_of m.entries ∙ (ap endpoint_of first ∙ ap first_or_throw none_tcp) in
    let (thrown, locked) = offer-locks c m ttl valid free matches throwing in
    (
      thrown,
      rw (try_get_offered_endpoint, if_then _ _ (run-locked es (receive_sd_message c m).0 locked)),
    )
