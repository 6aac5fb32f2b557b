-- ===== src/Com/Discovery/Client/Places.antt =====
-- src/ara/com/someip/sd/someip_sd_client.cpp and its states: where the thread can be.
use adaptive_autosar.Prelude.{ℕ, ◌≡◌, true, false}
use adaptive_autosar.Com.Discovery.Client.{
  SdClientState, service_not_seen, service_seen, service_ready, stopped, initial_wait_phase,
  repetition_phase, Position, idle, requesting, entering, waiting, finished, sleeping,
}
use adaptive_autosar.Com.Discovery.Timer.{TtlTimer, get_offered}

-- The positions of the thread in each state before its end. Proofs match on these, so that
-- positions that a state does not have need no clauses.
pub data Place : SdClientState → Position → Type 0 where
  at_request : Place service_not_seen requesting
  at_entry : (s : SdClientState) → Place s entering
  at_not_seen : Place service_not_seen waiting
  at_seen : Place service_seen waiting
  at_ready : Place service_ready waiting
  at_stopped : Place stopped waiting
  at_initial_sleep : (i : ℕ) → Place initial_wait_phase (sleeping i)
  at_repetition_sleep : (i : ℕ) → Place repetition_phase (sleeping i)

-- With the end of the thread.
pub data PlaceOrEnd : SdClientState → Position → Type 0 where
  at_end : (s : SdClientState) → PlaceOrEnd s finished
  before_end : {s : SdClientState} {p : Position} → Place s p → PlaceOrEnd s p

-- Where the thread can be, and the signal that ends its wait.
abbrev pub IsLiveAt : SdClientState → Position → TtlTimer → Type 0
IsLiveAt service_not_seen requesting t = Unit {0}
IsLiveAt _ requesting t = ⊥
IsLiveAt _ entering t = Unit {0}
IsLiveAt service_not_seen waiting t =
    (t.requested ≡ true → t.signal_flag ≡ true) × (get_offered t ≡ true → t.signal_flag ≡ true)
IsLiveAt stopped waiting t =
    (t.requested ≡ false → t.signal_flag ≡ true) × (get_offered t ≡ true → t.signal_flag ≡ true)
IsLiveAt service_seen waiting t = Unit {0}
IsLiveAt service_ready waiting t = Unit {0}
IsLiveAt initial_wait_phase (sleeping i) t = Unit {0}
IsLiveAt repetition_phase (sleeping i) t = Unit {0}
IsLiveAt _ _ t = ⊥

pub IsLiveAt-Place : (s : SdClientState) (p : Position) (t : TtlTimer) → IsLiveAt s p t → Place s p
IsLiveAt-Place service_not_seen entering t live = at_entry service_not_seen
IsLiveAt-Place service_seen entering t live = at_entry service_seen
IsLiveAt-Place service_ready entering t live = at_entry service_ready
IsLiveAt-Place stopped entering t live = at_entry stopped
IsLiveAt-Place initial_wait_phase entering t live = at_entry initial_wait_phase
IsLiveAt-Place repetition_phase entering t live = at_entry repetition_phase
IsLiveAt-Place service_not_seen requesting t live = at_request
IsLiveAt-Place service_not_seen waiting t live = at_not_seen
IsLiveAt-Place service_seen waiting t live = at_seen
IsLiveAt-Place service_ready waiting t live = at_ready
IsLiveAt-Place stopped waiting t live = at_stopped
IsLiveAt-Place initial_wait_phase (sleeping i) t live = at_initial_sleep i
IsLiveAt-Place repetition_phase (sleeping i) t live = at_repetition_sleep i
IsLiveAt-Place service_not_seen idle t live = elim live [ ]
IsLiveAt-Place service_not_seen finished t live = elim live [ ]
IsLiveAt-Place service_seen idle t live = elim live [ ]
IsLiveAt-Place service_seen finished t live = elim live [ ]
IsLiveAt-Place service_ready idle t live = elim live [ ]
IsLiveAt-Place service_ready finished t live = elim live [ ]
IsLiveAt-Place stopped idle t live = elim live [ ]
IsLiveAt-Place stopped finished t live = elim live [ ]
IsLiveAt-Place initial_wait_phase idle t live = elim live [ ]
IsLiveAt-Place initial_wait_phase finished t live = elim live [ ]
IsLiveAt-Place repetition_phase idle t live = elim live [ ]
IsLiveAt-Place repetition_phase finished t live = elim live [ ]
IsLiveAt-Place service_seen requesting t live = elim live [ ]
IsLiveAt-Place service_ready requesting t live = elim live [ ]
IsLiveAt-Place stopped requesting t live = elim live [ ]
IsLiveAt-Place initial_wait_phase requesting t live = elim live [ ]
IsLiveAt-Place repetition_phase requesting t live = elim live [ ]
IsLiveAt-Place initial_wait_phase waiting t live = elim live [ ]
IsLiveAt-Place repetition_phase waiting t live = elim live [ ]
IsLiveAt-Place service_not_seen (sleeping i) t live = elim live [ ]
IsLiveAt-Place service_seen (sleeping i) t live = elim live [ ]
IsLiveAt-Place service_ready (sleeping i) t live = elim live [ ]
IsLiveAt-Place stopped (sleeping i) t live = elim live [ ]
