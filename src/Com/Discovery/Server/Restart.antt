-- ===== src/Com/Discovery/Server/Restart.antt =====
-- src/ara/com/someip/sd/someip_sd_server.cpp: a server that was stopped.
use mathlib.Core.Path.{subst}
use adaptive_autosar.Prelude.{
  ℕ, ◌≡◌, ◌≢◌, ◌⊎◌, refl, sym, ap, Bool, true, false, List, [], ◌∷◌, arith, Bool-cases, inl, inr,
  if_then,
}
use adaptive_autosar.Com.Discovery.Server.Answers.{no_stops}
use adaptive_autosar.Com.Discovery.Server.Offers.{IsUnstopped}
use adaptive_autosar.Com.Discovery.Server.Phases.{
  IsOnWay, begins, delays, repeats, arrives, run-started,
}
use adaptive_autosar.Com.Discovery.Server.{
  SdServerState, not_ready, initial_wait_phase, repetition_phase, main_phase, Thread, absent,
  starting, finished, sleeping, SomeIpSdServer, match_offering_service, receive_find, send_offer,
  start_agent, start_beside, start, service_stopped, join_thread, join,
}
use adaptive_autosar.Com.Discovery.Server.Waking.{
  activate_not_ready, end_main, end_repetition, activate_repetition, end_initial_wait,
  service_activated, offer_then, wake_in, wake_thread, wake, started, stop_agent, Event, starts,
  stops, joins, wakes, finds, handle, run,
}

abbrev is_asleep : Thread → Bool
is_asleep (sleeping i) = true
is_asleep _ = false

-- Where a server that was stopped is: the flag of a phase before the main one is left over, or the
-- server has already stopped in that phase.
abbrev IsSpentAt : SdServerState → Thread → Bool → Bool → Type 0
IsSpentAt not_ready t initial repetition = (initial ≡ true) ⊎ (repetition ≡ true)
IsSpentAt initial_wait_phase t initial repetition =
    (repetition ≡ true) ⊎ ((t ≡ absent) ⊎ (t ≡ finished))
IsSpentAt repetition_phase t initial repetition = (t ≡ absent) ⊎ (t ≡ finished)
IsSpentAt main_phase t initial repetition = ⊥

abbrev IsSpent : SomeIpSdServer → Type 0
IsSpent s = IsSpentAt s.current s.thread s.initial_wait_stopped s.repetition_stopped

IsSpent-at :
    (s : SomeIpSdServer) {c : SdServerState} {t : Thread}
    → s.current ≡ c
    → s.thread ≡ t
    → IsSpentAt c t s.initial_wait_stopped s.repetition_stopped
    → IsSpent s
IsSpent-at s {c = c} at_c at_t h =
    subst (λ c. IsSpentAt c s.thread s.initial_wait_stopped s.repetition_stopped) (sym at_c)
      (subst (λ t. IsSpentAt c t s.initial_wait_stopped s.repetition_stopped) (sym at_t) h)

wake_thread-IsSpent :
    (t : Thread) (c : SdServerState) (s : SomeIpSdServer)
    → s.current ≡ c
    → s.thread ≡ t
    → IsSpentAt c t s.initial_wait_stopped s.repetition_stopped
    → IsSpent (wake_thread t c s).0
unfolding wake_thread wake_in service_activated offer_then send_offer end_initial_wait
    activate_repetition activate_not_ready
wake_thread-IsSpent absent not_ready s at_c at_t h = IsSpent-at s at_c at_t h
wake_thread-IsSpent finished not_ready s at_c at_t h = IsSpent-at s at_c at_t h
wake_thread-IsSpent absent initial_wait_phase s at_c at_t h = IsSpent-at s at_c at_t h
wake_thread-IsSpent finished initial_wait_phase s at_c at_t h = IsSpent-at s at_c at_t h
wake_thread-IsSpent absent repetition_phase s at_c at_t h = IsSpent-at s at_c at_t h
wake_thread-IsSpent finished repetition_phase s at_c at_t h = IsSpent-at s at_c at_t h
wake_thread-IsSpent starting not_ready s at_c at_t h = ground arith
wake_thread-IsSpent starting initial_wait_phase s at_c at_t h = ground arith
wake_thread-IsSpent starting repetition_phase s at_c at_t h = absurd (ground arith)
wake_thread-IsSpent (sleeping i) not_ready s at_c at_t h = IsSpent-at s at_c at_t h
wake_thread-IsSpent (sleeping i) initial_wait_phase s at_c at_t h = ground arith
wake_thread-IsSpent (sleeping i) repetition_phase s at_c at_t h = absurd (ground arith)
wake_thread-IsSpent absent main_phase s at_c at_t h = elim h [ ]
wake_thread-IsSpent finished main_phase s at_c at_t h = elim h [ ]
wake_thread-IsSpent starting main_phase s at_c at_t h = elim h [ ]
wake_thread-IsSpent (sleeping i) main_phase s at_c at_t h = elim h [ ]

start_beside-IsSpent :
    (t : Thread) (c : SdServerState) (s : SomeIpSdServer)
    → s.current ≡ c
    → s.thread ≡ t
    → IsSpentAt c t s.initial_wait_stopped s.repetition_stopped
    → IsSpent (started s (start_beside t c s))
unfolding started start_beside start_agent
start_beside-IsSpent absent not_ready s at_c at_t h =
    IsSpent-at (record s { thread = starting }) at_c refl h
start_beside-IsSpent absent initial_wait_phase s at_c at_t h = IsSpent-at s at_c at_t h
start_beside-IsSpent absent repetition_phase s at_c at_t h = IsSpent-at s at_c at_t h
start_beside-IsSpent absent main_phase s at_c at_t h = elim h [ ]
start_beside-IsSpent starting c s at_c at_t h = IsSpent-at s at_c at_t h
start_beside-IsSpent finished c s at_c at_t h = IsSpent-at s at_c at_t h
start_beside-IsSpent (sleeping i) c s at_c at_t h = IsSpent-at s at_c at_t h

join_thread-IsSpentAt :
    (t : Thread) (c : SdServerState) (i r : Bool)
    → IsSpentAt c t i r
    → IsSpentAt c (join_thread t) i r
unfolding join_thread
join_thread-IsSpentAt absent c i r h = h
join_thread-IsSpentAt starting c i r h = h
join_thread-IsSpentAt (sleeping n) c i r h = h
join_thread-IsSpentAt finished not_ready i r h = h
join_thread-IsSpentAt finished initial_wait_phase i r h = ground arith
join_thread-IsSpentAt finished repetition_phase i r h = inl refl
join_thread-IsSpentAt finished main_phase i r h = h

flagged :
    (c : SdServerState) (t : Thread) (i r : Bool) → IsSpentAt c t i r → IsSpentAt c t true true
flagged not_ready t i r h = inl refl
flagged initial_wait_phase t i r h = inl refl
flagged repetition_phase t i r h = h
flagged main_phase t i r h = h

handle-IsSpent : (e : Event) (s : SomeIpSdServer) → IsSpent s → IsSpent (handle e s).0
unfolding handle start wake join service_stopped receive_find
handle-IsSpent starts s h = start_beside-IsSpent s.thread s.current s refl refl h
handle-IsSpent stops s h = flagged s.current s.thread s.initial_wait_stopped s.repetition_stopped h
handle-IsSpent joins s h =
    join_thread-IsSpentAt s.thread s.current s.initial_wait_stopped s.repetition_stopped h
handle-IsSpent wakes s h = wake_thread-IsSpent s.thread s.current s refl refl h
handle-IsSpent (finds m) s h = elim (Bool-cases (match_offering_service s.offered m.entries)) [
  | inl sought ↦ rw (sought, receive_find) h
  | inr other ↦ rw (other, receive_find) h
]

run-IsSpent : (es : List Event) (s : SomeIpSdServer) → IsSpent s → IsSpent (run es s).0
unfolding run
run-IsSpent [] s h = h
run-IsSpent (e ∷ es) s h = run-IsSpent es (handle e s).0 (handle-IsSpent e s h)

IsSpentAt-ne-main :
    (c : SdServerState) (t : Thread) (i r : Bool) → IsSpentAt c t i r → c ≢ main_phase
IsSpentAt-ne-main not_ready t i r h = λ e. cc
IsSpentAt-ne-main initial_wait_phase t i r h = λ e. cc
IsSpentAt-ne-main repetition_phase t i r h = λ e. cc
IsSpentAt-ne-main main_phase t i r h = λ e. h

-- The step that ends the thread of a server under way once its flags are set.
wake_thread-stopped :
    {t : Thread} {c : SdServerState} (s : SomeIpSdServer) (max left : ℕ)
    → s.initial_wait_stopped ≡ true
    → s.repetition_stopped ≡ true
    → s.main_stopped ≡ true
    → IsOnWay max left c t
    → ((wake_thread t c s).0.thread ≡ finished) × IsSpent (wake_thread t c s).0
unfolding wake_thread wake_in service_activated end_initial_wait end_repetition end_main
    activate_not_ready
wake_thread-stopped s max left i r m (begins h) = rw (wake_thread, if_then _ _ i) (refl, inl r)
wake_thread-stopped s max left i r m (delays n h) =
    rw (wake_thread, if_then _ _ i, end_initial_wait, if_then _ _ i) (refl, inr r)
wake_thread-stopped s max left i r m (repeats n lt h) =
    rw (wake_thread, if_then _ _ r, end_repetition, if_then _ _ r) (refl, inl i)
wake_thread-stopped s max left i r m (arrives n h) = rw (wake_thread, if_then _ _ m) (refl, inl i)

-- After a server at rest that was never stopped has been started, has run through any events
-- without a Stop, and is stopped, its thread has ended and been joined, but whatever happens then,
-- starts included, it is never in its main phase again.
pub stop_agent-ne-main :
    (before after : List Event) (s : SomeIpSdServer)
    → s.current ≡ not_ready
    → s.thread ≡ absent
    → IsUnstopped s
    → no_stops before ≡ true
    → ((stop_agent (run (starts ∷ before) s).0).0.thread ≡ absent)
      × ((run after (stop_agent (run (starts ∷ before) s).0).0).0.current ≢ main_phase)
unfolding stop_agent wake service_stopped join join_thread handle wake_thread
stop_agent-ne-main before after s at_rest no_thread u h =
    let w = run-started before s at_rest no_thread u h in
    let t = service_stopped (run (starts ∷ before) s).0 in
    let (ended, spent) = wake_thread-stopped t t.repetitions_max _ refl refl refl w.place in
    let joined = handle-IsSpent joins (wake t).0 spent in
    let last = run-IsSpent after _ joined in
    let end = (run after (join (wake t).0)).0 in
    (
      ap join_thread ended,
      IsSpentAt-ne-main end.current end.thread end.initial_wait_stopped end.repetition_stopped last,
    )
