-- ===== src/Com/Discovery/Client/Signals.antt =====
-- src/ara/com/someip/sd/someip_sd_client.cpp and its states: what a stale signal of the timer does.
use native.Mathlib.Nat.{zero-add, suc-add}
use mathlib.Core.Path.{subst}
use adaptive_autosar.Prelude.{
  ℕ, zero, suc, ◌+◌, ◌<◌, ◌≡◌, refl, sym, Bool, true, false, [], ◌∷◌, ok, arith,
}
use adaptive_autosar.Com.Discovery.Client.{
  SdClientState, service_not_seen, service_ready, stopped, initial_wait_phase, repetition_phase,
  Position, idle, requesting, entering, waiting, finished, sleeping, notified_offered,
  SomeIpSdClient, start_at, start,
}
use adaptive_autosar.Com.Discovery.Client.Stepping.{
  go, leave_stopped, wait_for_signal, enter, end_wait, send_find, end_sleep, request_service,
  step_at, step,
}
use adaptive_autosar.Com.Discovery.Timer.{set_requested, get_offered, after_wait}

-- Steps of the thread; the stream tells how their waits end.
unfoldable pub after : ℕ → (ℕ → Bool) → SomeIpSdClient → SomeIpSdClient
after zero ends c = c
after (suc n) ends c = after n (λ k. ends (suc k)) (step (ends 0) c).0

after-add :
    (m n : ℕ) (ends : ℕ → Bool) (c : SomeIpSdClient)
    → after (m + n) ends c ≡ after n (λ k. ends (m + k)) (after m ends c)
unfolding after
after-add zero n ends c = simp zero-add refl
after-add (suc m) n ends c = simp suc-add (after-add m n (λ k. ends (suc k)) (step (ends 0) c).0)

-- A requested service that nobody offers, with the signal of the request still set.
record IsUnoffered (c : SomeIpSdClient) (s : SdClientState) (p : Position) (max : ℕ) : Type 0 where
  current : c.current ≡ s
  position : c.position ≡ p
  requested : c.timer.requested ≡ true
  unoffered : c.timer.ttl ≡ 0
  undisposed : c.timer.disposing ≡ false
  signal : c.timer.signal_flag ≡ true
  same_max : c.repetitions_max ≡ max

module _ (t : Bool) (c : SomeIpSdClient) (max : ℕ) where
  request :
      IsUnoffered c service_not_seen requesting max
      → IsUnoffered (step t c).0 initial_wait_phase entering max
  unfolding step step_at request_service go
  request u = ground arith

  begin_wait :
      IsUnoffered c initial_wait_phase entering max
      → IsUnoffered (step t c).0 initial_wait_phase (sleeping 0) max
  unfolding step step_at enter
  begin_wait u = ground arith

  end_initial :
      IsUnoffered c initial_wait_phase (sleeping 0) max
      → IsUnoffered (step t c).0 repetition_phase entering max
  unfolding step step_at end_sleep send_find go get_offered
  end_initial u = ground arith

  wait_stopped : IsUnoffered c stopped entering max → IsUnoffered (step t c).0 stopped waiting max
  unfolding step step_at enter wait_for_signal get_offered
  wait_stopped u = ground arith

  begin_repetition :
      0 < max
      → IsUnoffered c repetition_phase entering max
      → IsUnoffered (step t c).0 repetition_phase (sleeping 0) max
  unfolding step step_at enter
  begin_repetition more u = ground arith

  no_repetition :
      0 ≡ max
      → IsUnoffered c repetition_phase entering max
      → IsUnoffered (step t c).0 stopped entering max
  unfolding step step_at enter go
  no_repetition none_left u = ground arith

  repeat_again :
      (i : ℕ)
      → suc i < max
      → IsUnoffered c repetition_phase (sleeping i) max
      → IsUnoffered (step t c).0 repetition_phase (sleeping (suc i)) max
  unfolding step step_at end_sleep send_find get_offered
  repeat_again i more u = ground arith

  repeat_last :
      (i : ℕ)
      → suc i ≡ max
      → IsUnoffered c repetition_phase (sleeping i) max
      → IsUnoffered (step t c).0 stopped entering max
  unfolding step step_at end_sleep send_find get_offered go
  repeat_last i last u = ground arith

  end_stopped :
      IsUnoffered c stopped waiting max
      → ((step t c).0.current ≡ service_ready)
        × ((step t c).0.position ≡ entering)
        × ((step t c).0.timer.ttl ≡ 0)
  unfolding step step_at end_wait leave_stopped go after_wait
  end_stopped u = ground arith

repeats :
    (left i : ℕ) (ends : ℕ → Bool) (c : SomeIpSdClient) (max : ℕ)
    → suc (i + left) ≡ max
    → IsUnoffered c repetition_phase (sleeping i) max
    → IsUnoffered (after (suc left) ends c) stopped entering max
unfolding after
repeats zero i ends c max h u = repeat_last (ends 0) c max i (omega arith) u
repeats (suc left) i ends c max h u =
    repeats left (suc i) (λ k. ends (suc k)) (step (ends 0) c).0 max (omega arith)
      (repeat_again (ends 0) c max i (omega arith) u)

repetition-stopped :
    (max : ℕ) (ends : ℕ → Bool) (c : SomeIpSdClient)
    → IsUnoffered c repetition_phase entering max
    → IsUnoffered (after (suc max) ends c) stopped entering max
unfolding after
repetition-stopped zero ends c u = no_repetition (ends 0) c 0 refl u
repetition-stopped (suc max) ends c u =
    repeats max 0 (λ k. ends (suc k)) (step (ends 0) c).0 (suc max) (omega arith)
      (begin_repetition (ends 0) c (suc max) (omega arith) u)

started-IsUnoffered :
    (c : SomeIpSdClient)
    → c.current ≡ service_not_seen
    → c.timer.ttl ≡ 0
    → c.timer.disposing ≡ false
    → IsUnoffered
        (record c { timer = set_requested c.timer true; position = requesting })
        service_not_seen
        requesting
        c.repetitions_max
unfolding set_requested
started-IsUnoffered c at_rest none_offered undisposed = ground arith

-- At the start of `Activate` of the ready state, with no offer.
record IsReadyUnoffered (c : SomeIpSdClient) : Type 0 where
  current : c.current ≡ service_ready
  position : c.position ≡ entering
  unoffered : c.timer.ttl ≡ 0

stopped-IsReadyUnoffered :
    (ends : ℕ → Bool) (c : SomeIpSdClient) (max : ℕ)
    → IsUnoffered c stopped entering max
    → IsReadyUnoffered (after 2 ends c)
unfolding after
stopped-IsReadyUnoffered ends c max u =
    let (s, p, t) = end_stopped (ends 1) (step (ends 0) c).0 max (wait_stopped (ends 0) c max u) in
    record { current = s; position = p; unoffered = t }

requesting-IsReadyUnoffered :
    (ends : ℕ → Bool) (c : SomeIpSdClient) (max : ℕ)
    → IsUnoffered c service_not_seen requesting max
    → IsReadyUnoffered (after (max + 6) ends c)
requesting-IsReadyUnoffered ends c max u =
    let later = λ (k : ℕ). ends (3 + k) in
    let d = after 3 ends c in
    let waits : IsUnoffered d repetition_phase entering max =
      unfold after in
      end_initial (ends 2) _ max (begin_wait (ends 1) _ max (request (ends 0) c max u)) in
    let count : max + 6 ≡ 3 + (suc max + 2) = omega arith in
    rw (count, after-add 3 (suc max + 2) ends c, after-add (suc max) 2 later d)
      (stopped-IsReadyUnoffered _ _ max (repetition-stopped max later d waits))

start_at-requesting :
    (p : Position) (c d : SomeIpSdClient)
    → start_at p c ≡ ok d
    → d ≡ record c { timer = set_requested c.timer true; position = requesting }
unfolding start_at
start_at-requesting idle c d h = ground arith
start_at-requesting requesting c d h = cc
start_at-requesting entering c d h = cc
start_at-requesting waiting c d h = cc
start_at-requesting finished c d h = cc
start_at-requesting (sleeping i) c d h = cc

enter-notified :
    (c : SomeIpSdClient) (t : Bool)
    → IsReadyUnoffered c
    → ((step t c).1 ≡ notified_offered ∷ []) × (get_offered c.timer ≡ false)
unfolding step step_at enter get_offered
enter-notified c t r = ground arith

-- A client that is started in its first state while no offer has come, with a timer that is not
-- disposed, and that hears nothing, is in the state ServiceReady after six steps more than its
-- repetitions, however its waits end, with no offer known, and its next step notifies those who
-- wait for the service.
pub start-notified :
    (c d : SomeIpSdClient) (ends : ℕ → Bool)
    → start c ≡ ok d
    → c.current ≡ service_not_seen
    → c.timer.ttl ≡ 0
    → c.timer.disposing ≡ false
    → ((after (c.repetitions_max + 6) ends d).current ≡ service_ready)
      × (get_offered (after (c.repetitions_max + 6) ends d).timer ≡ false)
      × ((step true (after (c.repetitions_max + 6) ends d)).1 ≡ notified_offered ∷ [])
unfolding start
start-notified c d ends started at_rest none_offered undisposed =
    let begun = started-IsUnoffered c at_rest none_offered undisposed in
    let is_d = start_at-requesting c.position c d started in
    let ready = requesting-IsReadyUnoffered ends _ c.repetitions_max begun in
    let here : IsReadyUnoffered (after (c.repetitions_max + 6) ends d) =
      subst (λ e. IsReadyUnoffered (after (c.repetitions_max + 6) ends e)) (sym is_d) ready in
    let (notified, unoffered) = enter-notified _ true here in (here.current, unoffered, notified)
