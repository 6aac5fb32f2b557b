-- ===== src/Com/Discovery/Client.antt =====
-- src/ara/com/someip/sd/someip_sd_client.cpp with its states under fsm/. The thread of `std::async`
-- runs in steps, each up to the next wait or the next state's `Activate`; other threads' calls come
-- between them. A step gives what it sends and which condition variables it notifies. Nothing sets
-- a timer state's flags before its destruction.
pub mod Stepping
pub mod Places
pub mod Offers
pub mod Signals
pub mod Live
pub mod Settling
pub mod Ending
use adaptive_autosar.Prelude.{
  ℕ, zero, suc, Bool, true, false, not, ◌&&◌, ◌||◌, Option, none, some, List, [], ◌∷◌, Result, ok,
  throws, out_of_range, logic_error, invalid_argument, system_error, ◌>>=◌, if◌then◌else◌, ◌==◌,
  ltb,
}
use adaptive_autosar.Prelude.Int.{ℤ, pos, ltb_ℤ}
use adaptive_autosar.Com.Options.{
  SdOption, endpoint, balancing, option_type_byte, ipv4_endpoint, tcp,
}
use adaptive_autosar.Com.Entries.{
  Entry, SdEntry, service, eventgroup, base, offering, entry_type_byte,
}
use adaptive_autosar.Com.Entries.Build.{create_find_service}
use adaptive_autosar.Com.Discovery.Timer.{
  TtlTimer, new_ttl_timer, set_requested, set_offered, get_offered, dispose, is_expired, after_wait,
}
use adaptive_autosar.Com.Discovery.Endpoint.{match_requested_service, try_extract_offered_endpoint}
use adaptive_autosar.Com.Sd.{SomeIpSdMessage, new_sd_message, add_entry, increment_session_id}

pub data SdClientState : Type 0 where
  service_not_seen service_seen service_ready : SdClientState
  stopped initial_wait_phase repetition_phase : SdClientState

-- Where the thread is: none yet, about to run `RequestService`, at the start of the current state's
-- `Activate`, in its wait on the timer, in its n-th sleep, or at its end.
pub data Position : Type 0 where
  idle requesting entering waiting finished : Position
  sleeping : ℕ → Position

pub data Output : Type 0 where
  sent : SomeIpSdMessage → Output
  notified_offered notified_stopped : Output

pub record SomeIpSdClient : Type 0 where
  pub timer : TtlTimer
  pub current : SdClientState
  pub position : Position
  pub valid_state : Bool
  -- `mDisposing` and `mEverRequested` of the state in which the service is not seen.
  pub disposing : Bool
  pub ever_requested : Bool
  pub repetitions_max : ℕ
  pub find_message : SomeIpSdMessage
  pub service_id : ℕ
  pub endpoint_is_locked : Bool
  pub offered_ip_address : Option (List ℕ)
  pub offered_port : Option ℕ

-- The constructor, with the value that the timer's flag of signals happens to have, and with the
-- delays that its timers check.
unfoldable pub new_sd_client : Bool → ℕ → ℤ → ℤ → ℤ → ℕ → Result SomeIpSdClient
new_sd_client flag id initial_min initial_max repetition_base max =
    if ltb_ℤ initial_min (pos 0)
      || (ltb_ℤ initial_max (pos 0)
          || (ltb_ℤ initial_max initial_min || ltb_ℤ repetition_base (pos 0)))
    then throws invalid_argument
    else do
      message ← new_sd_message
      find_entry ← create_find_service id 0xffffff 0xffff 0xff 0xffffffff
      ok (record {
        timer = new_ttl_timer flag;
        current = service_not_seen;
        position = idle;
        valid_state = true;
        disposing = false;
        ever_requested = false;
        repetitions_max = max;
        find_message = add_entry message find_entry;
        service_id = id;
        endpoint_is_locked = false;
        offered_ip_address = none;
        offered_port = none;
      })

-- `receiveSdMessage` from the locking of the endpoint on: the client and the exception that ends
-- it.
unfoldable pub store_endpoint :
    SomeIpSdClient → Result (Option (List ℕ × ℕ)) → SomeIpSdClient × Result (Option (List ℕ × ℕ))
store_endpoint c (ok none) = (c, ok none)
store_endpoint c (ok (some (ip, port))) =
    (record c { offered_ip_address = some ip; offered_port = some port }, ok (some (ip, port)))
store_endpoint c (throws fault) = (record c { endpoint_is_locked = true }, throws fault)

unfoldable pub on_offer :
    SomeIpSdClient → List SdEntry → Option ℕ → SomeIpSdClient × Result (Option (List ℕ × ℕ))
on_offer c entries none = (c, ok none)
on_offer c entries (some ttl) =
    let offered : SomeIpSdClient = record c { timer = set_offered c.timer ttl } in
    if c.endpoint_is_locked
    then (offered, throws system_error)
    else store_endpoint offered (try_extract_offered_endpoint entries)

unfoldable pub receive_sd_message :
    SomeIpSdClient → SomeIpSdMessage → SomeIpSdClient × Result (Option (List ℕ × ℕ))
receive_sd_message c m =
    if c.valid_state
    then on_offer c m.entries (match_requested_service c.service_id m.entries)
    else (c, ok none)

unfoldable pub both : Option (List ℕ) → Option ℕ → Option (List ℕ × ℕ)
both (some ip) (some port) = some (ip, port)
both _ _ = none

-- `TryGetOfferedEndpoint`.
unfoldable pub try_get_offered_endpoint : SomeIpSdClient → Result (Option (List ℕ × ℕ))
try_get_offered_endpoint c =
    if c.endpoint_is_locked
    then throws system_error
    else ok (both c.offered_ip_address c.offered_port)

unfoldable pub is_offered_state : SdClientState → Bool
is_offered_state service_ready = true
is_offered_state service_seen = true
is_offered_state _ = false

unfoldable pub is_stopped_state : SdClientState → Bool
is_stopped_state stopped = true
is_stopped_state service_not_seen = true
is_stopped_state _ = false

-- `TryWaitUntiServiceOffered` and `TryWaitUntiServiceOfferStopped` after their wait.
unfoldable pub try_wait_until_service_offered : SomeIpSdClient → Bool → Bool
try_wait_until_service_offered c timed_out =
    c.valid_state && (not timed_out || is_offered_state c.current)

unfoldable pub try_wait_until_service_offer_stopped : SomeIpSdClient → Bool → Bool
try_wait_until_service_offer_stopped c timed_out =
    c.valid_state && (not timed_out || is_stopped_state c.current)

-- `Start` with `StartAgent`, by the position of the thread.
unfoldable pub start_at : Position → SomeIpSdClient → Result SomeIpSdClient
start_at idle c = ok (record c { timer = set_requested c.timer true; position = requesting })
start_at _ c = throws logic_error

unfoldable pub start : SomeIpSdClient → Result SomeIpSdClient
start c = start_at c.position c

-- `Stop` with `StopAgent`.
unfoldable pub stop : SomeIpSdClient → SomeIpSdClient
stop c =
    if c.valid_state
    then record c { timer = set_requested c.timer false }
    else record c { timer = set_requested (dispose c.timer) false; disposing = true }

-- The destructor up to `Join`.
unfoldable pub destroy : SomeIpSdClient → SomeIpSdClient
destroy c = stop (record c { valid_state = false })
