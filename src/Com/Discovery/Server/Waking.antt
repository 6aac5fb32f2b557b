-- ===== src/Com/Discovery/Server/Waking.antt =====
-- src/ara/com/someip/sd/someip_sd_server.cpp and its states under fsm/: the steps of the thread,
-- and the calls of other threads.
use adaptive_autosar.Prelude.{
  ℕ, suc, false, List, [], ◌∷◌, ◌++◌, Result, ok, throws, if◌then◌else◌, ltb,
}
use adaptive_autosar.Com.Sd.{SomeIpSdMessage, increment_session_id}
use adaptive_autosar.Com.Discovery.Server.{
  SdServerState, not_ready, initial_wait_phase, repetition_phase, main_phase, Thread, absent,
  starting, finished, sleeping, SomeIpSdServer, receive_find, send_offer, start, service_stopped,
  join,
}

-- `NotReadyState::Activate` after another state, with `onServiceStopped`.
unfoldable pub activate_not_ready : SomeIpSdServer → SomeIpSdServer × List SomeIpSdMessage
activate_not_ready s = (
  record s {
    current = not_ready;
    thread = finished;
    stop_offer_message = (increment_session_id s.stop_offer_message).0;
  },
  s.stop_offer_message ∷ [],
)

-- `Activate` of the main phase.
unfoldable pub activate_main : SomeIpSdServer → SomeIpSdServer × List SomeIpSdMessage
activate_main s =
    if s.main_stopped
    then (record s { current = main_phase; thread = finished }, [])
    else (record s { current = main_phase; thread = sleeping 0 }, [])

-- The ends of `setTimerBase`: `Deactivate` resets the flag of the state that is left.
unfoldable pub end_main : SomeIpSdServer → SomeIpSdServer × List SomeIpSdMessage
end_main s = activate_not_ready (record s { main_stopped = false })

unfoldable pub end_repetition : SomeIpSdServer → SomeIpSdServer × List SomeIpSdMessage
end_repetition s =
    if s.repetition_stopped
    then activate_not_ready (record s { repetition_stopped = false })
    else activate_main (record s { repetition_stopped = false })

-- A round of the repetition's loop: another sleep, or the end.
unfoldable pub repeat_from : ℕ → SomeIpSdServer → SomeIpSdServer × List SomeIpSdMessage
repeat_from i s =
    if ltb i s.repetitions_max
    then (record s { current = repetition_phase; thread = sleeping i }, [])
    else end_repetition (record s { current = repetition_phase })

unfoldable pub activate_repetition : SomeIpSdServer → SomeIpSdServer × List SomeIpSdMessage
activate_repetition s =
    if s.repetition_stopped
    then (record s { current = repetition_phase; thread = finished }, [])
    else repeat_from 0 s

unfoldable pub end_initial_wait : SomeIpSdServer → SomeIpSdServer × List SomeIpSdMessage
end_initial_wait s =
    if s.initial_wait_stopped
    then activate_not_ready (record s { initial_wait_stopped = false })
    else activate_repetition (record s { initial_wait_stopped = false })

-- `ServiceActivated` with `Activate` of the initial wait phase; only the current state transits.
unfoldable pub service_activated : SdServerState → SomeIpSdServer → SomeIpSdServer
service_activated not_ready s =
    if s.initial_wait_stopped
    then record s { current = initial_wait_phase; thread = finished }
    else record s { current = initial_wait_phase; thread = sleeping 0 }
service_activated _ s = record s { thread = finished }

-- A sleep that ends with no stop: the callback, and then what follows.
unfoldable pub offer_then :
    (SomeIpSdServer → SomeIpSdServer × List SomeIpSdMessage)
    → SomeIpSdServer
    → SomeIpSdServer × List SomeIpSdMessage
offer_then next s =
    let (offered, offers) = send_offer s in
    let (after, sent) = next offered in (after, offers ++ sent)

-- The three `SetTimer` after a sleep, in its round.
abbrev wake_initial_wait : SomeIpSdServer → SomeIpSdServer × List SomeIpSdMessage
wake_initial_wait s =
    if s.initial_wait_stopped then end_initial_wait s else offer_then end_initial_wait s

abbrev wake_repetition : ℕ → SomeIpSdServer → SomeIpSdServer × List SomeIpSdMessage
wake_repetition i s =
    if s.repetition_stopped then end_repetition s else offer_then (repeat_from (suc i)) s

abbrev wake_main : ℕ → SomeIpSdServer → SomeIpSdServer × List SomeIpSdMessage
wake_main i s =
    if s.main_stopped
    then end_main s
    else offer_then (λ (t : SomeIpSdServer). (record t { thread = sleeping (suc i) }, [])) s

unfoldable pub wake_in : SdServerState → ℕ → SomeIpSdServer → SomeIpSdServer × List SomeIpSdMessage
wake_in not_ready i s = (s, [])
wake_in initial_wait_phase i s = wake_initial_wait s
wake_in repetition_phase i s = wake_repetition i s
wake_in main_phase i s = wake_main i s

unfoldable pub wake_thread :
    Thread → SdServerState → SomeIpSdServer → SomeIpSdServer × List SomeIpSdMessage
wake_thread absent c s = (s, [])
wake_thread finished c s = (s, [])
wake_thread starting c s = (service_activated c s, [])
wake_thread (sleeping i) c s = wake_in c i s

-- The next step of the thread.
unfoldable pub wake : SomeIpSdServer → SomeIpSdServer × List SomeIpSdMessage
wake s = wake_thread s.thread s.current s

-- `StopAgent` whole, where the thread ends with its next step.
unfoldable pub stop_agent : SomeIpSdServer → SomeIpSdServer × List SomeIpSdMessage
stop_agent s = let (ended, sent) = wake (service_stopped s) in (join ended, sent)

-- What can happen to a server. A `start` that throws changes nothing.
pub data Event : Type 0 where
  starts stops joins wakes : Event
  finds : SomeIpSdMessage → Event

unfoldable pub started : SomeIpSdServer → Result SomeIpSdServer → SomeIpSdServer
started s (ok after) = after
started s (throws fault) = s

unfoldable pub handle : Event → SomeIpSdServer → SomeIpSdServer × List SomeIpSdMessage
handle starts s = (started s (start s), [])
handle stops s = (service_stopped s, [])
handle joins s = (join s, [])
handle wakes s = wake s
handle (finds m) s = (receive_find s m, [])

unfoldable pub run : List Event → SomeIpSdServer → SomeIpSdServer × List SomeIpSdMessage
run [] s = (s, [])
run (e ∷ es) s =
    let (after, sent) = handle e s in let (last, more) = run es after in (last, sent ++ more)
