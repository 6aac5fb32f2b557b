-- ===== src/Com/Discovery/Client/Ending.antt =====
-- src/ara/com/someip/sd/someip_sd_client.cpp: the thread ends after the destructor's stop.
use mathlib.Core.Path.{subst}
use adaptive_autosar.Prelude.{
  ℕ, zero, suc, ◌+◌, ◌-◌, ◌≤◌, ◌≡◌, refl, Bool, true, false, List, ◌∷◌, arith,
}
use adaptive_autosar.Com.Discovery.Client.Places.{
  IsLiveAt, IsLiveAt-Place, Place, at_request, at_entry, at_not_seen, at_seen, at_ready, at_stopped,
  at_initial_sleep, at_repetition_sleep, PlaceOrEnd, at_end, before_end,
}
use adaptive_autosar.Com.Discovery.Client.{
  SdClientState, service_not_seen, service_seen, service_ready, stopped, initial_wait_phase,
  repetition_phase, Position, idle, requesting, entering, waiting, finished, sleeping,
  SomeIpSdClient, stop, destroy,
}
use adaptive_autosar.Com.Discovery.Client.Stepping.{
  go, leave_not_seen, leave_seen, leave_stopped, leave_ready, wait_for_signal, seen_loop,
  ready_loop, enter, end_wait, send_find, end_sleep, request_service, step_at, step, Event, starts,
  handle, run,
}
use adaptive_autosar.Com.Discovery.Timer.{
  TtlTimer, set_requested, dispose, get_offered, is_expired, after_wait,
}
use adaptive_autosar.Com.Discovery.Client.Signals.{after}
use adaptive_autosar.Com.Discovery.Client.Live.{
  IsAtRest, no_destruction, run-IsLive, started-IsLive,
}

-- The thread of a disposed client has at most `left` steps to its end.
abbrev IsDoomedAt : SdClientState → Position → Bool → ℕ → ℕ → Type 0
IsDoomedAt s finished signal max left = Unit {0}
IsDoomedAt service_not_seen requesting signal max left = max + 8 ≤ left
IsDoomedAt service_not_seen entering signal max left = 1 ≤ left
IsDoomedAt service_not_seen waiting signal max left = (3 ≤ left) × (signal ≡ true)
IsDoomedAt service_seen entering signal max left = 2 ≤ left
IsDoomedAt service_seen waiting signal max left = 2 ≤ left
IsDoomedAt service_ready entering signal max left = 3 ≤ left
IsDoomedAt service_ready waiting signal max left = 3 ≤ left
IsDoomedAt stopped entering signal max left = 2 ≤ left
IsDoomedAt stopped waiting signal max left = (2 ≤ left) × (signal ≡ true)
IsDoomedAt initial_wait_phase entering signal max left = max + 7 ≤ left
IsDoomedAt initial_wait_phase (sleeping i) signal max left = max + 6 ≤ left
IsDoomedAt repetition_phase entering signal max left = max + 5 ≤ left
IsDoomedAt repetition_phase (sleeping i) signal max left = (max - i) + 4 ≤ left
IsDoomedAt _ _ signal max left = ⊥

IsDoomedAt-Place :
    (s : SdClientState) (p : Position) (signal : Bool) (max left : ℕ)
    → IsDoomedAt s p signal max left
    → PlaceOrEnd s p
IsDoomedAt-Place service_not_seen entering signal max left h =
    before_end (at_entry service_not_seen)
IsDoomedAt-Place service_not_seen finished signal max left h = at_end service_not_seen
IsDoomedAt-Place service_seen entering signal max left h = before_end (at_entry service_seen)
IsDoomedAt-Place service_seen finished signal max left h = at_end service_seen
IsDoomedAt-Place service_ready entering signal max left h = before_end (at_entry service_ready)
IsDoomedAt-Place service_ready finished signal max left h = at_end service_ready
IsDoomedAt-Place stopped entering signal max left h = before_end (at_entry stopped)
IsDoomedAt-Place stopped finished signal max left h = at_end stopped
IsDoomedAt-Place initial_wait_phase entering signal max left h =
    before_end (at_entry initial_wait_phase)
IsDoomedAt-Place initial_wait_phase finished signal max left h = at_end initial_wait_phase
IsDoomedAt-Place repetition_phase entering signal max left h =
    before_end (at_entry repetition_phase)
IsDoomedAt-Place repetition_phase finished signal max left h = at_end repetition_phase
IsDoomedAt-Place service_not_seen requesting signal max left h = before_end at_request
IsDoomedAt-Place service_not_seen waiting signal max left h = before_end at_not_seen
IsDoomedAt-Place service_seen waiting signal max left h = before_end at_seen
IsDoomedAt-Place service_ready waiting signal max left h = before_end at_ready
IsDoomedAt-Place stopped waiting signal max left h = before_end at_stopped
IsDoomedAt-Place initial_wait_phase (sleeping i) signal max left h = before_end (at_initial_sleep i)
IsDoomedAt-Place repetition_phase (sleeping i) signal max left h =
    before_end (at_repetition_sleep i)
IsDoomedAt-Place service_seen requesting signal max left h = elim h [ ]
IsDoomedAt-Place service_ready requesting signal max left h = elim h [ ]
IsDoomedAt-Place stopped requesting signal max left h = elim h [ ]
IsDoomedAt-Place initial_wait_phase requesting signal max left h = elim h [ ]
IsDoomedAt-Place repetition_phase requesting signal max left h = elim h [ ]
IsDoomedAt-Place initial_wait_phase waiting signal max left h = elim h [ ]
IsDoomedAt-Place repetition_phase waiting signal max left h = elim h [ ]
IsDoomedAt-Place service_not_seen (sleeping i) signal max left h = elim h [ ]
IsDoomedAt-Place service_seen (sleeping i) signal max left h = elim h [ ]
IsDoomedAt-Place service_ready (sleeping i) signal max left h = elim h [ ]
IsDoomedAt-Place stopped (sleeping i) signal max left h = elim h [ ]
IsDoomedAt-Place service_not_seen idle signal max left h = elim h [ ]
IsDoomedAt-Place service_seen idle signal max left h = elim h [ ]
IsDoomedAt-Place service_ready idle signal max left h = elim h [ ]
IsDoomedAt-Place stopped idle signal max left h = elim h [ ]
IsDoomedAt-Place initial_wait_phase idle signal max left h = elim h [ ]
IsDoomedAt-Place repetition_phase idle signal max left h = elim h [ ]

record IsDoomed (c : SomeIpSdClient) (left : ℕ) : Type 0 where
  place : IsDoomedAt c.current c.position c.timer.signal_flag c.repetitions_max left
  unrequested : c.timer.requested ≡ false
  timer_disposed : c.timer.disposing ≡ true
  disposed : c.disposing ≡ true

-- A step brings the thread nearer to its end.
step_at-IsDoomed :
    {p : Position} {s : SdClientState}
    → PlaceOrEnd s p
    → (t : Bool) (c : SomeIpSdClient) (left : ℕ) → c.current ≡ s
    → c.position ≡ p
    → IsDoomedAt s p c.timer.signal_flag c.repetitions_max left
    → c.timer.requested ≡ false
    → c.timer.disposing ≡ true
    → c.disposing ≡ true
    → IsDoomed (step_at p s t c).0 (left - 1)
unfolding step_at enter request_service seen_loop ready_loop leave_seen leave_not_seen leave_ready
    leave_stopped go end_wait end_sleep send_find wait_for_signal after_wait get_offered is_expired
step_at-IsDoomed (before_end at_request) t c left at_s at_p h r d e = ground arith
step_at-IsDoomed (before_end (at_entry service_not_seen)) t c left at_s at_p h r d e = ground arith
step_at-IsDoomed (before_end (at_entry service_seen)) t c left at_s at_p h r d e = ground arith
step_at-IsDoomed (before_end (at_entry service_ready)) t c left at_s at_p h r d e = ground arith
step_at-IsDoomed (before_end (at_entry stopped)) t c left at_s at_p h r d e = ground arith
step_at-IsDoomed (before_end (at_entry initial_wait_phase)) t c left at_s at_p h r d e =
    ground arith
step_at-IsDoomed (before_end (at_entry repetition_phase)) t c left at_s at_p h r d e = ground arith
step_at-IsDoomed (before_end at_not_seen) t c left at_s at_p h r d e = ground arith
step_at-IsDoomed (before_end at_seen) t c left at_s at_p h r d e = ground arith
step_at-IsDoomed (before_end at_ready) t c left at_s at_p h r d e = ground arith
step_at-IsDoomed (before_end at_stopped) t c left at_s at_p h r d e = ground arith
step_at-IsDoomed (before_end (at_initial_sleep i)) t c left at_s at_p h r d e = ground arith
step_at-IsDoomed (before_end (at_repetition_sleep i)) t c left at_s at_p h r d e = ground arith
step_at-IsDoomed (at_end service_not_seen) t c left at_s at_p h r d e = ground arith
step_at-IsDoomed (at_end service_seen) t c left at_s at_p h r d e = ground arith
step_at-IsDoomed (at_end service_ready) t c left at_s at_p h r d e = ground arith
step_at-IsDoomed (at_end stopped) t c left at_s at_p h r d e = ground arith
step_at-IsDoomed (at_end initial_wait_phase) t c left at_s at_p h r d e = ground arith
step_at-IsDoomed (at_end repetition_phase) t c left at_s at_p h r d e = ground arith

after-IsDoomed :
    (n : ℕ) (ends : ℕ → Bool) (c : SomeIpSdClient) (left : ℕ)
    → IsDoomed c left
    → IsDoomed (after n ends c) (left - n)
unfolding after step
after-IsDoomed zero ends c left d = subst (IsDoomed c) (omega arith) d
after-IsDoomed (suc n) ends c left d =
    let next =
      step_at-IsDoomed
        (IsDoomedAt-Place c.current c.position c.timer.signal_flag c.repetitions_max left d.place)
        (ends 0) c left refl refl d.place d.unrequested d.timer_disposed d.disposed in
    subst (IsDoomed (after (suc n) ends c)) (omega arith)
      (after-IsDoomed n (λ k. ends (suc k)) (step (ends 0) c).0 (left - 1) next)

-- Only the end has no steps left.
IsDoomedAt-finished :
    {s : SdClientState} {p : Position}
    → PlaceOrEnd s p
    → (signal : Bool) (max : ℕ) → IsDoomedAt s p signal max 0
    → p ≡ finished
IsDoomedAt-finished (at_end service_not_seen) signal max h = refl
IsDoomedAt-finished (at_end service_seen) signal max h = refl
IsDoomedAt-finished (at_end service_ready) signal max h = refl
IsDoomedAt-finished (at_end stopped) signal max h = refl
IsDoomedAt-finished (at_end initial_wait_phase) signal max h = refl
IsDoomedAt-finished (at_end repetition_phase) signal max h = refl
IsDoomedAt-finished (before_end at_request) signal max h = absurd (omega arith)
IsDoomedAt-finished (before_end (at_entry service_not_seen)) signal max h = absurd (omega arith)
IsDoomedAt-finished (before_end (at_entry service_seen)) signal max h = absurd (omega arith)
IsDoomedAt-finished (before_end (at_entry service_ready)) signal max h = absurd (omega arith)
IsDoomedAt-finished (before_end (at_entry stopped)) signal max h = absurd (omega arith)
IsDoomedAt-finished (before_end (at_entry initial_wait_phase)) signal max h = absurd (omega arith)
IsDoomedAt-finished (before_end (at_entry repetition_phase)) signal max h = absurd (omega arith)
IsDoomedAt-finished (before_end at_not_seen) signal max h = absurd (omega arith)
IsDoomedAt-finished (before_end at_seen) signal max h = absurd (omega arith)
IsDoomedAt-finished (before_end at_ready) signal max h = absurd (omega arith)
IsDoomedAt-finished (before_end at_stopped) signal max h = absurd (omega arith)
IsDoomedAt-finished (before_end (at_initial_sleep i)) signal max h = absurd (omega arith)
IsDoomedAt-finished (before_end (at_repetition_sleep i)) signal max h = absurd (omega arith)

IsDoomedAt-IsLiveAt :
    {s : SdClientState} {p : Position}
    → Place s p
    → (t : TtlTimer) (max : ℕ) → IsLiveAt s p t
    → IsDoomedAt s p true max (max + 8)
IsDoomedAt-IsLiveAt at_request t max h = omega arith
IsDoomedAt-IsLiveAt (at_entry service_not_seen) t max h = omega arith
IsDoomedAt-IsLiveAt (at_entry service_seen) t max h = omega arith
IsDoomedAt-IsLiveAt (at_entry service_ready) t max h = omega arith
IsDoomedAt-IsLiveAt (at_entry stopped) t max h = omega arith
IsDoomedAt-IsLiveAt (at_entry initial_wait_phase) t max h = omega arith
IsDoomedAt-IsLiveAt (at_entry repetition_phase) t max h = omega arith
IsDoomedAt-IsLiveAt at_not_seen t max h = (omega arith, refl)
IsDoomedAt-IsLiveAt at_seen t max h = omega arith
IsDoomedAt-IsLiveAt at_ready t max h = omega arith
IsDoomedAt-IsLiveAt at_stopped t max h = (omega arith, refl)
IsDoomedAt-IsLiveAt (at_initial_sleep i) t max h = omega arith
IsDoomedAt-IsLiveAt (at_repetition_sleep i) t max h = omega arith

-- After a client at rest was started, and after any messages, steps, starts and stops, the
-- destructor leaves a thread that is at its end after at most eight atomic steps more than the
-- repetitions, where the end of a wait on the timer is a step, whether it ends by a signal or by
-- its time-out.
pub destroy-finishes :
    (es : List Event) (c : SomeIpSdClient) (ends : ℕ → Bool)
    → IsAtRest c
    → no_destruction es ≡ true
    → (after
        ((run (starts ∷ es) c).repetitions_max + 8)
        ends
        (destroy (run (starts ∷ es) c))).position
      ≡ finished
unfolding run destroy stop set_requested dispose
destroy-finishes es c ends rest h =
    let d = run es (handle starts c) in
    let live = run-IsLive es (handle starts c) h (started-IsLive c rest) in
    let max = d.repetitions_max in
    let doomed : IsDoomed (destroy d) (max + 8) = record {
      place =
          IsDoomedAt-IsLiveAt (IsLiveAt-Place d.current d.position d.timer live.place) d.timer max
            live.place;
      unrequested = refl;
      timer_disposed = refl;
      disposed = refl;
    } in
    let last = after-IsDoomed (max + 8) ends (destroy d) (max + 8) doomed in
    let end = after (max + 8) ends (destroy d) in
    IsDoomedAt-finished
      (IsDoomedAt-Place end.current end.position end.timer.signal_flag end.repetitions_max _
        last.place)
      end.timer.signal_flag end.repetitions_max
      (subst (IsDoomedAt end.current end.position end.timer.signal_flag end.repetitions_max)
        (omega arith) last.place)
