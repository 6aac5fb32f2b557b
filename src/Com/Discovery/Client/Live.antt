-- ===== src/Com/Discovery/Client/Live.antt =====
-- src/ara/com/someip/sd/someip_sd_client.cpp and its states: what holds of a client until its
-- destruction.
use mathlib.Core.Path.{subst}
use adaptive_autosar.Prelude.{
  ℕ, ◌≡◌, refl, sym, ◌∙◌, Bool, true, false, ◌&&◌, List, [], ◌∷◌, ok, throws, Option, some, none,
  Result, arith, Bool-cases, inl, inr, if_then, if_else, true-ne-false,
}
use adaptive_autosar.Com.Entries.{SdEntry}
use adaptive_autosar.Com.Sd.{SomeIpSdMessage}
use adaptive_autosar.Com.Discovery.Client.Places.{
  IsLiveAt, IsLiveAt-Place, Place, at_request, at_entry, at_not_seen, at_seen, at_ready, at_stopped,
  at_initial_sleep, at_repetition_sleep,
}
use adaptive_autosar.Com.Discovery.Client.{
  SdClientState, service_not_seen, service_seen, service_ready, stopped, initial_wait_phase,
  repetition_phase, Position, idle, requesting, entering, waiting, finished, sleeping,
  SomeIpSdClient, store_endpoint, on_offer, receive_sd_message, start_at, start, stop,
}
use adaptive_autosar.Com.Discovery.Client.Stepping.{
  go, leave_not_seen, leave_seen, leave_stopped, leave_ready, wait_for_signal, seen_loop,
  ready_loop, enter, end_wait, send_find, end_sleep, request_service, step_at, step, started, Event,
  starts, stops, destroys, receives, steps, handle, run,
}
use adaptive_autosar.Com.Discovery.Endpoint.{try_extract_offered_endpoint, match_requested_service}
use adaptive_autosar.Com.Discovery.Timer.{
  TtlTimer, set_requested, set_offered, get_offered, is_expired, after_wait,
}

abbrev pub IsRequestedAt : Position → Bool → Type 0
IsRequestedAt requesting ever = Unit {0}
IsRequestedAt _ ever = ever ≡ true

pub record IsLive (c : SomeIpSdClient) : Type 0 where
  pub place : IsLiveAt c.current c.position c.timer
  pub ever : IsRequestedAt c.position c.ever_requested
  pub undisposed : c.disposing ≡ false
  pub timer_undisposed : c.timer.disposing ≡ false
  pub valid : c.valid_state ≡ true

-- What keeps a client live.
step_at-IsLive :
    {p : Position} {s : SdClientState}
    → Place s p
    → (t : Bool) (c : SomeIpSdClient) → c.current ≡ s
    → c.position ≡ p
    → IsLiveAt s p c.timer
    → IsRequestedAt p c.ever_requested
    → c.disposing ≡ false
    → c.timer.disposing ≡ false
    → c.valid_state ≡ true
    → IsLive (step_at p s t c).0
unfolding step_at enter request_service seen_loop ready_loop leave_seen leave_not_seen leave_ready
    leave_stopped go end_wait end_sleep send_find wait_for_signal after_wait get_offered is_expired
step_at-IsLive at_request t c at_s at_p live ever u v w = ground arith
step_at-IsLive (at_entry service_not_seen) t c at_s at_p live ever u v w = ground arith
step_at-IsLive (at_entry service_seen) t c at_s at_p live ever u v w = ground arith
step_at-IsLive (at_entry service_ready) t c at_s at_p live ever u v w = ground arith
step_at-IsLive (at_entry stopped) t c at_s at_p live ever u v w = ground arith
step_at-IsLive (at_entry initial_wait_phase) t c at_s at_p live ever u v w = ground arith
step_at-IsLive (at_entry repetition_phase) t c at_s at_p live ever u v w = ground arith
step_at-IsLive at_not_seen t c at_s at_p live ever u v w = ground arith
step_at-IsLive at_seen t c at_s at_p live ever u v w = ground arith
step_at-IsLive at_ready t c at_s at_p live ever u v w = ground arith
step_at-IsLive at_stopped t c at_s at_p live ever u v w = ground arith
step_at-IsLive (at_initial_sleep i) t c at_s at_p live ever u v w = ground arith
step_at-IsLive (at_repetition_sleep i) t c at_s at_p live ever u v w = ground arith

-- A signal makes every wait end.
IsLiveAt-signal :
    {s : SdClientState} {p : Position}
    → Place s p
    → (t u : TtlTimer) → u.signal_flag ≡ true
    → IsLiveAt s p t
    → IsLiveAt s p u
IsLiveAt-signal (at_entry service_not_seen) t u h live = tt
IsLiveAt-signal (at_entry service_seen) t u h live = tt
IsLiveAt-signal (at_entry service_ready) t u h live = tt
IsLiveAt-signal (at_entry stopped) t u h live = tt
IsLiveAt-signal (at_entry initial_wait_phase) t u h live = tt
IsLiveAt-signal (at_entry repetition_phase) t u h live = tt
IsLiveAt-signal at_request t u h live = tt
IsLiveAt-signal (at_initial_sleep i) t u h live = tt
IsLiveAt-signal (at_repetition_sleep i) t u h live = tt
IsLiveAt-signal at_ready t u h live = tt
IsLiveAt-signal at_seen t u h live = tt
IsLiveAt-signal at_not_seen t u h live = (λ _. h, λ _. h)
IsLiveAt-signal at_stopped t u h live = (λ _. h, λ _. h)

signalled :
    (c : SomeIpSdClient) (t : TtlTimer)
    → t.signal_flag ≡ true
    → t.disposing ≡ c.timer.disposing
    → IsLive c
    → IsLive (record c { timer = t })
signalled c t flag same live = record {
  place =
      IsLiveAt-signal (IsLiveAt-Place c.current c.position c.timer live.place) c.timer t flag
        live.place;
  ever = live.ever;
  undisposed = live.undisposed;
  timer_undisposed = same ∙ live.timer_undisposed;
  valid = live.valid;
}

stored-IsLive :
    (c : SomeIpSdClient) (r : Result (Option (List ℕ × ℕ)))
    → IsLive c
    → IsLive (store_endpoint c r).0
unfolding store_endpoint
stored-IsLive c (ok none) live = live
stored-IsLive c (ok (some (ip, port))) live = record {
  place = live.place;
  ever = live.ever;
  undisposed = live.undisposed;
  timer_undisposed = live.timer_undisposed;
  valid = live.valid;
}
stored-IsLive c (throws fault) live = record {
  place = live.place;
  ever = live.ever;
  undisposed = live.undisposed;
  timer_undisposed = live.timer_undisposed;
  valid = live.valid;
}

on_offer-IsLive :
    (c : SomeIpSdClient) (entries : List SdEntry) (ttl : Option ℕ)
    → IsLive c
    → IsLive (on_offer c entries ttl).0
unfolding on_offer set_offered
on_offer-IsLive c entries none live = live
on_offer-IsLive c entries (some ttl) live =
    let offered = signalled c (set_offered c.timer ttl) refl refl live in
    elim (Bool-cases c.endpoint_is_locked) [
      | inl locked ↦ rw (on_offer, if_then _ _ locked) offered
      | inr free ↦
          rw (on_offer, if_else _ _ free)
            (stored-IsLive (record c { timer = set_offered c.timer ttl })
              (try_extract_offered_endpoint entries) offered)
    ]

idle_dead : {s : SdClientState} → Place s idle → ⊥
idle_dead place = elim place [ ]

start_at-IsLive :
    (p : Position) (c : SomeIpSdClient)
    → c.position ≡ p
    → IsLive c
    → IsLive (started c (start_at p c))
unfolding start_at started
start_at-IsLive idle c at_p live = absurd (
    idle_dead (
      IsLiveAt-Place c.current idle c.timer
        (subst (λ q. IsLiveAt c.current q c.timer) at_p live.place)))
start_at-IsLive requesting c at_p live = live
start_at-IsLive entering c at_p live = live
start_at-IsLive waiting c at_p live = live
start_at-IsLive finished c at_p live = live
start_at-IsLive (sleeping i) c at_p live = live

receive_sd_message-IsLive :
    (c : SomeIpSdClient) (m : SomeIpSdMessage) → IsLive c → IsLive (receive_sd_message c m).0
unfolding receive_sd_message
receive_sd_message-IsLive c m live =
    rw (receive_sd_message, if_then _ _ live.valid)
      (on_offer-IsLive c m.entries (match_requested_service c.service_id m.entries) live)

abbrev pub is_no_destruction : Event → Bool
is_no_destruction destroys = false
is_no_destruction _ = true

handle-IsLive :
    (e : Event) (c : SomeIpSdClient) → is_no_destruction e ≡ true → IsLive c → IsLive (handle e c)
unfolding handle start stop step set_requested
handle-IsLive starts c h live = start_at-IsLive c.position c refl live
handle-IsLive destroys c h live = absurd (true-ne-false (sym h))
handle-IsLive stops c h live =
    rw (stop, if_then _ _ live.valid) (signalled c (set_requested c.timer false) refl refl live)
handle-IsLive (receives m) c h live = receive_sd_message-IsLive c m live
handle-IsLive (steps t) c h live =
    step_at-IsLive (IsLiveAt-Place c.current c.position c.timer live.place) t c refl refl live.place
      live.ever live.undisposed live.timer_undisposed live.valid

abbrev pub no_destruction : List Event → Bool
no_destruction [] = true
no_destruction (e ∷ es) = is_no_destruction e && no_destruction es

pub run-IsLive :
    (es : List Event) (c : SomeIpSdClient) → no_destruction es ≡ true → IsLive c → IsLive (run es c)
unfolding run
run-IsLive [] c h live = live
run-IsLive (e ∷ es) c h live =
    run-IsLive es (handle e c) (ground arith) (handle-IsLive e c (ground arith) live)

-- A client at rest, such as a new one.
pub record IsAtRest (c : SomeIpSdClient) : Type 0 where
  pub current : c.current ≡ service_not_seen
  pub position : c.position ≡ idle
  pub undisposed : c.disposing ≡ false
  pub timer_undisposed : c.timer.disposing ≡ false
  pub valid : c.valid_state ≡ true

pub started-IsLive : (c : SomeIpSdClient) → IsAtRest c → IsLive (handle starts c)
unfolding handle start start_at started set_requested
started-IsLive c r =
    subst (λ p. IsLive (started c (start_at p c))) (sym r.position)
      (record {
        place = subst (λ s. IsLiveAt s requesting (set_requested c.timer true)) (sym r.current) tt;
        ever = tt;
        undisposed = r.undisposed;
        timer_undisposed = r.timer_undisposed;
        valid = r.valid;
      })
