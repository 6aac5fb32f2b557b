-- ===== src/Com/Discovery/Client/Stepping.antt =====
-- src/ara/com/someip/sd/someip_sd_client.cpp and its states under fsm/: the steps of the thread,
-- and the calls of other threads.
use adaptive_autosar.Prelude.{
  ℕ, suc, Bool, true, false, not, ◌&&◌, ◌||◌, List, [], ◌∷◌, Result, ok, throws, if◌then◌else◌, ltb,
}
use adaptive_autosar.Com.Discovery.Timer.{get_offered, is_expired, after_wait}
use adaptive_autosar.Com.Sd.{SomeIpSdMessage, increment_session_id}
use adaptive_autosar.Com.Discovery.Client.{
  SdClientState, service_not_seen, service_seen, service_ready, stopped, initial_wait_phase,
  repetition_phase, Position, idle, requesting, entering, waiting, finished, sleeping, Output, sent,
  notified_offered, notified_stopped, SomeIpSdClient, receive_sd_message, start, stop, destroy,
}

-- `Transit`, up to the next state's `Activate`.
unfoldable pub go : SdClientState → SomeIpSdClient → SomeIpSdClient
go next c = record c { current = next; position = entering }

-- The ends of `waitForNextState`.
unfoldable pub leave_not_seen : SomeIpSdClient → SomeIpSdClient
leave_not_seen c = if c.timer.requested then go initial_wait_phase c else go service_seen c

unfoldable pub leave_seen : SomeIpSdClient → SomeIpSdClient
leave_seen c = if c.timer.requested then go service_ready c else go service_not_seen c

unfoldable pub leave_ready : Bool → SomeIpSdClient → SomeIpSdClient
leave_ready expired c =
    if not c.timer.requested
    then go service_seen c
    else if expired
    then go initial_wait_phase c
    else go stopped c

unfoldable pub leave_stopped : SomeIpSdClient → SomeIpSdClient
leave_stopped c = if not c.timer.requested then go service_not_seen c else go service_ready c

-- `WaitForSignal`, which returns at once when the timer is disposed.
unfoldable pub wait_for_signal : (SomeIpSdClient → SomeIpSdClient) → SomeIpSdClient → SomeIpSdClient
wait_for_signal leave c = if c.timer.disposing then leave c else record c { position = waiting }

-- The head of the loop of the states that wait for the expiration.
unfoldable pub seen_loop : SomeIpSdClient → SomeIpSdClient
seen_loop c =
    if not c.timer.requested && get_offered c.timer
    then (if is_expired c.timer then leave_seen c else record c { position = waiting })
    else leave_seen c

unfoldable pub ready_loop : SomeIpSdClient → SomeIpSdClient
ready_loop c =
    if c.timer.requested && get_offered c.timer
    then (if is_expired c.timer then leave_ready true c else record c { position = waiting })
    else leave_ready false c

-- `Activate` of each state, up to its wait.
abbrev activate_not_seen : SomeIpSdClient → SomeIpSdClient × List Output
activate_not_seen c = (
  (if c.ever_requested && not c.disposing
      then (if not c.timer.requested && not (get_offered c.timer)
          then wait_for_signal leave_not_seen c
          else leave_not_seen c)
      else record c { position = finished }),
  notified_stopped ∷ [],
)

abbrev activate_seen : SomeIpSdClient → SomeIpSdClient × List Output
activate_seen c = (seen_loop c, notified_offered ∷ [])

abbrev activate_ready : SomeIpSdClient → SomeIpSdClient × List Output
activate_ready c = (ready_loop c, notified_offered ∷ [])

abbrev activate_stopped : SomeIpSdClient → SomeIpSdClient × List Output
activate_stopped c = (
  (if c.timer.requested && not (get_offered c.timer)
      then wait_for_signal leave_stopped c
      else leave_stopped c),
  notified_stopped ∷ [],
)

abbrev activate_initial_wait : SomeIpSdClient → SomeIpSdClient × List Output
activate_initial_wait c = (record c { position = sleeping 0 }, [])

abbrev activate_repetition : SomeIpSdClient → SomeIpSdClient × List Output
activate_repetition c =
    if ltb 0 c.repetitions_max then (record c { position = sleeping 0 }, []) else (go stopped c, [])

-- What `Transit` calls.
unfoldable pub enter : SdClientState → SomeIpSdClient → SomeIpSdClient × List Output
enter service_not_seen c = activate_not_seen c
enter service_seen c = activate_seen c
enter service_ready c = activate_ready c
enter stopped c = activate_stopped c
enter initial_wait_phase c = activate_initial_wait c
enter repetition_phase c = activate_repetition c

-- The end of a wait on the timer. A wait for a signal goes on until the flag is set; a wait for the
-- expiration ends by a time-out, or by a notification or a spurious wake-up. The source sets the
-- flag and notifies without the mutex, so a wake-up can be lost: this step then does not come.
unfoldable pub end_wait : SdClientState → Bool → SomeIpSdClient → SomeIpSdClient
end_wait service_not_seen timed_out c =
    if c.timer.signal_flag then leave_not_seen (record c { timer = after_wait c.timer }) else c
end_wait stopped timed_out c =
    if c.timer.signal_flag then leave_stopped (record c { timer = after_wait c.timer }) else c
end_wait service_seen timed_out c =
    if timed_out || is_expired c.timer
    then leave_seen (record c { timer = after_wait c.timer })
    else seen_loop (record c { timer = after_wait c.timer })
end_wait service_ready timed_out c =
    if timed_out || is_expired c.timer
    then leave_ready true (record c { timer = after_wait c.timer })
    else ready_loop (record c { timer = after_wait c.timer })
end_wait _ timed_out c = c

-- `sendFind`, with what follows.
unfoldable pub send_find : SomeIpSdClient → SomeIpSdClient × List Output
send_find c =
    (record c { find_message = (increment_session_id c.find_message).0 }, sent c.find_message ∷ [])

-- The two `SetTimer` after a sleep.
abbrev end_initial_sleep : SomeIpSdClient → SomeIpSdClient × List Output
end_initial_sleep c =
    if get_offered c.timer
    then (go service_ready c, [])
    else (go repetition_phase (send_find c).0, (send_find c).1)

abbrev end_repetition_sleep : ℕ → SomeIpSdClient → SomeIpSdClient × List Output
end_repetition_sleep i c =
    if get_offered c.timer
    then (go service_ready c, [])
    else if ltb (suc i) c.repetitions_max
    then (record ((send_find c).0) { position = sleeping (suc i) }, (send_find c).1)
    else (go stopped (send_find c).0, (send_find c).1)

-- The end of the n-th sleep.
unfoldable pub end_sleep : SdClientState → ℕ → SomeIpSdClient → SomeIpSdClient × List Output
end_sleep initial_wait_phase i c = end_initial_sleep c
end_sleep repetition_phase i c = end_repetition_sleep i c
end_sleep _ i c = (c, [])

-- `RequestService`; only the current state transits.
unfoldable pub request_service : SdClientState → SomeIpSdClient → SomeIpSdClient
request_service service_not_seen c = go initial_wait_phase (record c { ever_requested = true })
request_service _ c = record c { ever_requested = true; position = finished }

-- The next step of the thread.
unfoldable pub step_at :
    Position → SdClientState → Bool → SomeIpSdClient → SomeIpSdClient × List Output
step_at idle s timed_out c = (c, [])
step_at finished s timed_out c = (c, [])
step_at requesting s timed_out c = (request_service s c, [])
step_at entering s timed_out c = enter s c
step_at waiting s timed_out c = (end_wait s timed_out c, [])
step_at (sleeping i) s timed_out c = end_sleep s i c

unfoldable pub step : Bool → SomeIpSdClient → SomeIpSdClient × List Output
step timed_out c = step_at c.position c.current timed_out c

-- What can happen to a client. A `start` that throws changes nothing.
pub data Event : Type 0 where
  starts stops destroys : Event
  receives : SomeIpSdMessage → Event
  steps : Bool → Event

unfoldable pub started : SomeIpSdClient → Result SomeIpSdClient → SomeIpSdClient
started c (ok after) = after
started c (throws fault) = c

unfoldable pub handle : Event → SomeIpSdClient → SomeIpSdClient
handle starts c = started c (start c)
handle stops c = stop c
handle destroys c = destroy c
handle (receives m) c = (receive_sd_message c m).0
handle (steps timed_out) c = (step timed_out c).0

unfoldable pub run : List Event → SomeIpSdClient → SomeIpSdClient
run [] c = c
run (e ∷ es) c = run es (handle e c)
