-- ===== src/Com/Discovery/Client/Settling.antt =====
-- src/ara/com/someip/sd/someip_sd_client.cpp and its states: a requested service that is offered
-- becomes ready.
use adaptive_autosar.Prelude.{
  ◌⊎◌, ℕ, suc, ◌≤◌, ◌≡◌, refl, Bool, true, false, List, ◌∷◌, arith, ltb, Bool-cases, inl, inr,
}
use adaptive_autosar.Com.Discovery.Client.Places.{
  IsLiveAt, IsLiveAt-Place, Place, at_request, at_entry, at_not_seen, at_seen, at_ready, at_stopped,
  at_initial_sleep, at_repetition_sleep,
}
use adaptive_autosar.Com.Discovery.Client.{
  SdClientState, service_not_seen, service_seen, service_ready, stopped, initial_wait_phase,
  repetition_phase, Position, requesting, entering, waiting, sleeping, SomeIpSdClient,
}
use adaptive_autosar.Com.Discovery.Client.Stepping.{
  go, leave_not_seen, leave_seen, leave_stopped, seen_loop, ready_loop, enter, end_wait, end_sleep,
  request_service, step_at, step, Event, starts, handle, run,
}
use adaptive_autosar.Com.Discovery.Timer.{get_offered, is_expired, after_wait}
use adaptive_autosar.Com.Discovery.Client.Signals.{after}
use adaptive_autosar.Com.Discovery.Client.Live.{
  IsRequestedAt, IsLive, IsAtRest, no_destruction, run-IsLive, started-IsLive,
}

pub record IsWanted (c : SomeIpSdClient) : Type 0 where
  pub requested : c.timer.requested ≡ true
  pub offered : get_offered c.timer ≡ true

-- At most n steps to the wait of the ready state.
abbrev pub Settles : ℕ → (ℕ → Bool) → SomeIpSdClient → Type 0
Settles n ends c =
    (k : ℕ) × (k ≤ n)
    × ((after k ends c).current ≡ service_ready)
    × ((after k ends c).position ≡ waiting)

Settles-step :
    (n : ℕ) (ends : ℕ → Bool) (c : SomeIpSdClient)
    → Settles n (λ k. ends (suc k)) (step (ends 0) c).0
    → Settles (suc n) ends c
unfolding after
Settles-step n ends c (k, le, ready, waits) = (suc k, omega arith, ready, waits)

-- What all steps below need of a client, at a place.
record IsAt (c : SomeIpSdClient) (s : SdClientState) (p : Position) : Type 0 where
  current : c.current ≡ s
  position : c.position ≡ p
  requested : c.timer.requested ≡ true
  offered : get_offered c.timer ≡ true
  timer_undisposed : c.timer.disposing ≡ false
  undisposed : c.disposing ≡ false

module _ (t : Bool) (c : SomeIpSdClient) where
  ready_waits : IsAt c service_ready entering → IsAt (step t c).0 service_ready waiting
  unfolding step step_at enter ready_loop get_offered is_expired
  ready_waits a = ground arith

  stopped_enters : IsAt c stopped entering → IsAt (step t c).0 service_ready entering
  unfolding step step_at enter leave_stopped go get_offered
  stopped_enters a = ground arith

  stopped_ends :
      IsAt c stopped waiting → c.timer.signal_flag ≡ true → IsAt (step t c).0 service_ready entering
  unfolding step step_at end_wait leave_stopped go get_offered after_wait
  stopped_ends a signal = ground arith

  initial_ends :
      (i : ℕ) → IsAt c initial_wait_phase (sleeping i) → IsAt (step t c).0 service_ready entering
  unfolding step step_at end_sleep go
  initial_ends i a = ground arith

  repetition_ends :
      (i : ℕ) → IsAt c repetition_phase (sleeping i) → IsAt (step t c).0 service_ready entering
  unfolding step step_at end_sleep go
  repetition_ends i a = ground arith

  seen_enters : IsAt c service_seen entering → IsAt (step t c).0 service_ready entering
  unfolding step step_at enter seen_loop leave_seen go get_offered
  seen_enters a = ground arith

  seen_ends : IsAt c service_seen waiting → IsAt (step t c).0 service_ready entering
  unfolding step step_at end_wait seen_loop leave_seen go get_offered after_wait
  seen_ends a = ground arith

  initial_enters :
      IsAt c initial_wait_phase entering → IsAt (step t c).0 initial_wait_phase (sleeping 0)
  unfolding step step_at enter
  initial_enters a = ground arith

  requests : IsAt c service_not_seen requesting → IsAt (step t c).0 initial_wait_phase entering
  unfolding step step_at request_service go
  requests a = ground arith

  not_seen_enters :
      IsAt c service_not_seen entering
      → c.ever_requested ≡ true
      → IsAt (step t c).0 initial_wait_phase entering
  unfolding step step_at enter leave_not_seen go get_offered
  not_seen_enters a ever = ground arith

  not_seen_ends :
      IsAt c service_not_seen waiting
      → c.timer.signal_flag ≡ true
      → IsAt (step t c).0 initial_wait_phase entering
  unfolding step step_at end_wait leave_not_seen go get_offered after_wait
  not_seen_ends a signal = ground arith

-- One step less.
moved :
    {s : SdClientState} {p : Position} (n : ℕ) (ends : ℕ → Bool) (c : SomeIpSdClient)
    → ((ends : ℕ → Bool) (d : SomeIpSdClient) → IsAt d s p → Settles n ends d)
    → IsAt (step (ends 0) c).0 s p
    → Settles (suc n) ends c
moved n ends c from a = Settles-step n ends c (from (λ k. ends (suc k)) (step (ends 0) c).0 a)

from_waiting :
    (ends : ℕ → Bool) (c : SomeIpSdClient) → IsAt c service_ready waiting → Settles 0 ends c
unfolding after
from_waiting ends c a = (0, omega arith, a.current, a.position)

from_ready :
    (ends : ℕ → Bool) (c : SomeIpSdClient) → IsAt c service_ready entering → Settles 1 ends c
from_ready ends c a = moved 0 ends c from_waiting (ready_waits (ends 0) c a)

from_sleeping :
    (ends : ℕ → Bool) (c : SomeIpSdClient)
    → IsAt c initial_wait_phase (sleeping 0)
    → Settles 2 ends c
from_sleeping ends c a = moved 1 ends c from_ready (initial_ends (ends 0) c 0 a)

from_initial :
    (ends : ℕ → Bool) (c : SomeIpSdClient) → IsAt c initial_wait_phase entering → Settles 3 ends c
from_initial ends c a = moved 2 ends c from_sleeping (initial_enters (ends 0) c a)

from_repeating :
    (i : ℕ) (ends : ℕ → Bool) (c : SomeIpSdClient)
    → IsAt c repetition_phase (sleeping i)
    → Settles 2 ends c
from_repeating i ends c a = moved 1 ends c from_ready (repetition_ends (ends 0) c i a)

from_stopped : (ends : ℕ → Bool) (c : SomeIpSdClient) → IsAt c stopped entering → Settles 2 ends c
from_stopped ends c a = moved 1 ends c from_ready (stopped_enters (ends 0) c a)

repetition_enters :
    (t : Bool) (c : SomeIpSdClient)
    → IsAt c repetition_phase entering
    → IsAt (step t c).0 repetition_phase (sleeping 0) ⊎ IsAt (step t c).0 stopped entering
unfolding step step_at enter go
repetition_enters t c a = elim (Bool-cases (ltb 0 c.repetitions_max)) [
  | inl more ↦ inl (ground arith)
  | inr last ↦ inr (ground arith)
]

from_repetition :
    (ends : ℕ → Bool) (c : SomeIpSdClient) → IsAt c repetition_phase entering → Settles 3 ends c
from_repetition ends c a = elim (repetition_enters (ends 0) c a) [
  | inl sleeps ↦ moved 2 ends c (from_repeating 0) sleeps
  | inr stops ↦ moved 2 ends c from_stopped stops
]

sooner :
    (m n : ℕ) (ends : ℕ → Bool) (c : SomeIpSdClient) → m ≤ n → Settles m ends c → Settles n ends c
sooner m n ends c le (k, below, ready, waits) = (k, omega arith, ready, waits)

settle_at :
    {s : SdClientState} {p : Position}
    → Place s p
    → (ends : ℕ → Bool) (c : SomeIpSdClient) → IsAt c s p
    → IsLiveAt s p c.timer
    → IsRequestedAt p c.ever_requested
    → Settles 4 ends c
settle_at at_ready ends c a live ever = sooner 0 4 ends c (omega arith) (from_waiting ends c a)
settle_at (at_entry service_ready) ends c a live ever =
    sooner 1 4 ends c (omega arith) (from_ready ends c a)
settle_at (at_entry service_seen) ends c a live ever =
    sooner 2 4 ends c (omega arith) (moved 1 ends c from_ready (seen_enters (ends 0) c a))
settle_at at_seen ends c a live ever =
    sooner 2 4 ends c (omega arith) (moved 1 ends c from_ready (seen_ends (ends 0) c a))
settle_at (at_entry stopped) ends c a live ever =
    sooner 2 4 ends c (omega arith) (from_stopped ends c a)
settle_at at_stopped ends c a live ever =
    sooner 2 4 ends c (omega arith)
      (moved 1 ends c from_ready (stopped_ends (ends 0) c a (live.1 a.offered)))
settle_at (at_entry initial_wait_phase) ends c a live ever =
    sooner 3 4 ends c (omega arith) (from_initial ends c a)
settle_at (at_initial_sleep i) ends c a live ever =
    sooner 2 4 ends c (omega arith) (moved 1 ends c from_ready (initial_ends (ends 0) c i a))
settle_at (at_entry repetition_phase) ends c a live ever =
    sooner 3 4 ends c (omega arith) (from_repetition ends c a)
settle_at (at_repetition_sleep i) ends c a live ever =
    sooner 2 4 ends c (omega arith) (from_repeating i ends c a)
settle_at at_request ends c a live ever = moved 3 ends c from_initial (requests (ends 0) c a)
settle_at (at_entry service_not_seen) ends c a live ever =
    moved 3 ends c from_initial (not_seen_enters (ends 0) c a ever)
settle_at at_not_seen ends c a live ever =
    moved 3 ends c from_initial (not_seen_ends (ends 0) c a (live.1 a.offered))

settles : (ends : ℕ → Bool) (c : SomeIpSdClient) → IsLive c → IsWanted c → Settles 4 ends c
settles ends c live wanted =
    settle_at (IsLiveAt-Place c.current c.position c.timer live.place) ends c
      (record {
        current = refl;
        position = refl;
        requested = wanted.requested;
        offered = wanted.offered;
        timer_undisposed = live.timer_undisposed;
        undisposed = live.undisposed;
      })
      live.place live.ever

-- After a client at rest was started, and after any messages, steps, starts and stops, with no
-- destruction among them, if the service is then requested and offered and nothing else happens,
-- its thread waits in the state ServiceReady after at most four more steps, however its waits end.
pub run-settles :
    (es : List Event) (c : SomeIpSdClient) (ends : ℕ → Bool)
    → IsAtRest c
    → no_destruction es ≡ true
    → (run (starts ∷ es) c).timer.requested ≡ true
    → get_offered (run (starts ∷ es) c).timer ≡ true
    → (k : ℕ) × (k ≤ 4)
      × ((after k ends (run (starts ∷ es) c)).current ≡ service_ready)
      × ((after k ends (run (starts ∷ es) c)).position ≡ waiting)
unfolding run
run-settles es c ends rest h requested offered =
    settles ends (run es (handle starts c))
      (run-IsLive es (handle starts c) h (started-IsLive c rest))
      (record { requested = requested; offered = offered })
