-- ===== src/Com/Discovery/Server/Phases.antt =====
-- src/ara/com/someip/sd/someip_sd_server.cpp and its states: the way to the main phase.
use mathlib.Core.Path.{subst}
use adaptive_autosar.Prelude.{
  ℕ, suc, ◌+◌, ◌-◌, ◌≤◌, ◌<◌, ◌≡◌, refl, sym, ap, ◌∙◌, true, false, List, [], ◌∷◌, ◌++◌, arith, ltb,
  ltb→lt, ltb→ge, if_else, Bool-cases, inl, inr,
}
use adaptive_autosar.Com.Discovery.Server.{
  SdServerState, not_ready, initial_wait_phase, repetition_phase, main_phase, Thread, absent,
  starting, sleeping, SomeIpSdServer, match_offering_service, receive_find, send_offer, start_agent,
  start_beside, start, join_thread, join,
}
use adaptive_autosar.Com.Discovery.Server.Waking.{
  activate_main, end_repetition, repeat_from, activate_repetition, end_initial_wait,
  service_activated, offer_then, wake_in, wake_thread, wake, started, Event, starts, stops, joins,
  wakes, finds, handle, run,
}
use adaptive_autosar.Com.Discovery.Server.Answers.{is_no_stop, no_stops}
use adaptive_autosar.Com.Discovery.Server.Offers.{IsUnstopped}

-- The thread has at most `left` steps to the main phase.
pub data IsOnWay (max left : ℕ) : SdServerState → Thread → Type 0 where
  begins : left ≡ max + 2 → IsOnWay max left not_ready starting
  delays : (i : ℕ) → left ≡ max + 1 → IsOnWay max left initial_wait_phase (sleeping i)
  repeats : (i : ℕ) → i < max → left + i ≡ max → IsOnWay max left repetition_phase (sleeping i)
  arrives : (i : ℕ) → left ≡ 0 → IsOnWay max left main_phase (sleeping i)

pub record IsUnderWay (s : SomeIpSdServer) (left : ℕ) : Type 0 where
  pub unstopped : IsUnstopped s
  pub place : IsOnWay s.repetitions_max left s.current s.thread

kept :
    (s t : SomeIpSdServer)
    → IsUnstopped s
    → t.initial_wait_stopped ≡ s.initial_wait_stopped
    → t.repetition_stopped ≡ s.repetition_stopped
    → t.main_stopped ≡ s.main_stopped
    → IsUnstopped t
kept s t u i r m = record {
  initial_wait = i ∙ u.initial_wait;
  repetition = r ∙ u.repetition;
  main = m ∙ u.main;
}

end_repetition-IsUnderWay : (s : SomeIpSdServer) → IsUnstopped s → IsUnderWay (end_repetition s).0 0
unfolding end_repetition activate_main
end_repetition-IsUnderWay s u =
    rw (end_repetition, if_else _ _ u.repetition, activate_main, if_else _ _ u.main)
      (record {
        unstopped = record { initial_wait = u.initial_wait; repetition = refl; main = u.main };
        place = arrives 0 refl;
      })

repeat_from-IsUnderWay :
    (i : ℕ) (s : SomeIpSdServer)
    → IsUnstopped s
    → i ≤ s.repetitions_max
    → IsUnderWay (repeat_from i s).0 (s.repetitions_max - i)
unfolding repeat_from
repeat_from-IsUnderWay i s u h = elim (Bool-cases (ltb i s.repetitions_max)) [
  | inl more ↦
      rw (more, repeat_from)
        (record {
          unstopped = kept s _ u refl refl refl;
          place =
              repeats i (ltb→lt i s.repetitions_max more)
                (omega (arith, ltb→lt i s.repetitions_max more));
        })
  | inr last ↦
      let spent : s.repetitions_max - i ≡ 0 = omega (arith, ltb→ge i s.repetitions_max last) in
      rw (last, repeat_from, spent)
        (end_repetition-IsUnderWay (record s { current = repetition_phase })
          (kept s _ u refl refl refl))
]

end_initial_wait-IsUnderWay :
    (s : SomeIpSdServer) → IsUnstopped s → IsUnderWay (end_initial_wait s).0 s.repetitions_max
unfolding end_initial_wait activate_repetition
end_initial_wait-IsUnderWay s u =
    let t : SomeIpSdServer = record s { initial_wait_stopped = false } in
    let u' = kept s t u (sym u.initial_wait) refl refl in
    let whole : s.repetitions_max - 0 ≡ s.repetitions_max = omega arith in
    rw (end_initial_wait, if_else _ _ u.initial_wait, activate_repetition, if_else _ _ u.repetition)
      (subst (λ left. IsUnderWay (repeat_from 0 t).0 left) whole
        (repeat_from-IsUnderWay 0 t u' (omega arith)))

-- A step of the thread brings a server nearer to the main phase, and keeps it there.
wake_thread-IsUnderWay :
    {t : Thread} {c : SdServerState} (s : SomeIpSdServer) (left : ℕ)
    → IsUnstopped s
    → s.current ≡ c
    → IsOnWay s.repetitions_max left c t
    → IsUnderWay (wake_thread t c s).0 (left - 1)
unfolding wake_thread wake_in service_activated offer_then send_offer
wake_thread-IsUnderWay s left u at_c (begins h) =
    rw (wake_thread, service_activated, if_else _ _ u.initial_wait)
      (record { unstopped = kept s _ u refl refl refl; place = delays 0 (omega arith) })
wake_thread-IsUnderWay s left u at_c (delays i h) =
    let offered = (send_offer s).0 in
    let spent : left - 1 ≡ s.repetitions_max = omega arith in
    rw (wake_thread, if_else _ _ u.initial_wait, spent)
      (end_initial_wait-IsUnderWay offered (kept s offered u refl refl refl))
wake_thread-IsUnderWay s left u at_c (repeats i lt e) =
    let offered = (send_offer s).0 in
    let spent : left - 1 ≡ s.repetitions_max - suc i = omega arith in
    rw (wake_thread, if_else _ _ u.repetition, spent)
      (repeat_from-IsUnderWay (suc i) offered (kept s offered u refl refl refl) (omega arith))
wake_thread-IsUnderWay s left u at_c (arrives i h) =
    rw (wake_thread, if_else _ _ u.main)
      (record {
        unstopped = kept s _ u refl refl refl;
        place =
            subst (λ c. IsOnWay s.repetitions_max (left - 1) c (sleeping (suc i))) (sym at_c)
              (arrives (suc i) (omega arith));
      })

-- Calls of other threads keep a server under way.
start_beside-same :
    {t : Thread} {c : SdServerState} (s : SomeIpSdServer) (left : ℕ)
    → IsOnWay s.repetitions_max left c t
    → started s (start_beside t c s) ≡ s
unfolding started start_beside
start_beside-same s left (begins h) = refl
start_beside-same s left (delays i h) = refl
start_beside-same s left (repeats i lt h) = refl
start_beside-same s left (arrives i h) = refl

IsOnWay-join_thread :
    {t : Thread} {c : SdServerState} (max left : ℕ)
    → IsOnWay max left c t
    → IsOnWay max left c (join_thread t)
unfolding join_thread
IsOnWay-join_thread max left (begins h) = begins h
IsOnWay-join_thread max left (delays i h) = delays i h
IsOnWay-join_thread max left (repeats i lt h) = repeats i lt h
IsOnWay-join_thread max left (arrives i h) = arrives i h

abbrev pub is_wake : Event → ℕ
is_wake wakes = 1
is_wake _ = 0

abbrev pub count_wakes : List Event → ℕ
count_wakes [] = 0
count_wakes (e ∷ es) = is_wake e + count_wakes es

-- A call that is no step of the thread.
beside : (t : SomeIpSdServer) (n : ℕ) → IsUnderWay t n → IsUnderWay t (n - 0)
beside t n w = subst (IsUnderWay t) (omega arith) w

handle-IsUnderWay :
    (e : Event) (s : SomeIpSdServer) (left : ℕ)
    → is_no_stop e ≡ true
    → IsUnderWay s left
    → IsUnderWay (handle e s).0 (left - is_wake e)
unfolding handle start wake join receive_find
handle-IsUnderWay stops s left h w = absurd (ground arith)
handle-IsUnderWay wakes s left h w = wake_thread-IsUnderWay s left w.unstopped refl w.place
handle-IsUnderWay starts s left h w = rw (start_beside-same s left w.place) (beside s left w)
handle-IsUnderWay joins s left h w = beside (join s) left (record {
  unstopped = kept s (join s) w.unstopped refl refl refl;
  place = IsOnWay-join_thread s.repetitions_max left w.place;
})
handle-IsUnderWay (finds m) s left h w =
    elim (Bool-cases (match_offering_service s.offered m.entries)) [
      | inl sought ↦
          rw (sought, receive_find)
            (beside (record s { message_buffer = s.message_buffer ++ m ∷ [] }) left
              (record { unstopped = kept s _ w.unstopped refl refl refl; place = w.place }))
      | inr other ↦ rw (other, receive_find) (beside s left w)
    ]

run-IsUnderWay :
    (es : List Event) (s : SomeIpSdServer) (left : ℕ)
    → no_stops es ≡ true
    → IsUnderWay s left
    → IsUnderWay (run es s).0 (left - count_wakes es)
unfolding run
run-IsUnderWay [] s left h w = beside s left w
run-IsUnderWay (e ∷ es) s left h w =
    let first = handle-IsUnderWay e s left (ground arith) w in
    subst (IsUnderWay (run (e ∷ es) s).0) (omega arith)
      (run-IsUnderWay es (handle e s).0 (left - is_wake e) (ground arith) first)

-- The main phase is the only place with no steps left.
IsOnWay-main :
    {c : SdServerState} {t : Thread} (max left : ℕ)
    → IsOnWay max left c t
    → left ≡ 0
    → c ≡ main_phase
IsOnWay-main max left (begins h) z = absurd (omega arith)
IsOnWay-main max left (delays i h) z = absurd (omega arith)
IsOnWay-main max left (repeats i lt h) z = absurd (omega arith)
IsOnWay-main max left (arrives i h) z = refl

-- A step in the main phase leaves no find unanswered.
wake_in-main :
    (s : SomeIpSdServer) (i : ℕ) → IsUnstopped s → (wake_in main_phase i s).0.message_buffer ≡ []
unfolding wake_in offer_then send_offer
wake_in-main s i u = rw (wake_in, if_else _ _ u.main) refl

wake_thread-main :
    {t : Thread} {c : SdServerState} (s : SomeIpSdServer) (left : ℕ)
    → IsUnstopped s
    → IsOnWay s.repetitions_max left c t
    → left ≡ 0
    → (wake_thread t c s).0.message_buffer ≡ []
unfolding wake_thread
wake_thread-main s left u (begins h) z = absurd (omega arith)
wake_thread-main s left u (delays i h) z = absurd (omega arith)
wake_thread-main s left u (repeats i lt h) z = absurd (omega arith)
wake_thread-main s left u (arrives i h) z = wake_in-main s i u

-- A server that is started at rest is under way.
pub run-started :
    (es : List Event) (s : SomeIpSdServer)
    → s.current ≡ not_ready
    → s.thread ≡ absent
    → IsUnstopped s
    → no_stops es ≡ true
    → IsUnderWay (run (starts ∷ es) s).0 (s.repetitions_max + 2 - count_wakes es)
unfolding run handle start started start_beside start_agent
run-started es s at_rest no_thread u h =
    let under : IsUnderWay (record s { thread = starting }) (s.repetitions_max + 2) = record {
      unstopped = kept s _ u refl refl refl;
      place =
          subst (λ c. IsOnWay s.repetitions_max (s.repetitions_max + 2) c starting) (sym at_rest)
            (begins refl);
    } in
    let begun : started s (start s) ≡ record s { thread = starting } =
      ap (λ t. started s (start_beside t s.current s)) no_thread
      ∙ ap (λ c. started s (start_beside absent c s)) at_rest in
    subst (λ t. IsUnderWay (run es t).0 (s.repetitions_max + 2 - count_wakes es)) (sym begun)
      (run-IsUnderWay es (record s { thread = starting }) (s.repetitions_max + 2) h under)

-- A server at rest that was never stopped, once it is started, is in its main phase after any
-- events without a Stop that hold at least two steps of its thread more than its repetitions; its
-- next step leaves no find unanswered in the buffer.
pub run-main_phase :
    (es : List Event) (s : SomeIpSdServer)
    → s.current ≡ not_ready
    → s.thread ≡ absent
    → IsUnstopped s
    → no_stops es ≡ true
    → s.repetitions_max + 2 ≤ count_wakes es
    → ((run (starts ∷ es) s).0.current ≡ main_phase)
      × ((wake (run (starts ∷ es) s).0).0.message_buffer ≡ [])
unfolding wake
run-main_phase es s at_rest no_thread u h enough =
    let w = run-started es s at_rest no_thread u h in
    let t = (run (starts ∷ es) s).0 in
    let spent : s.repetitions_max + 2 - count_wakes es ≡ 0 = omega arith in
    (IsOnWay-main t.repetitions_max _ w.place spent, wake_thread-main t _ w.unstopped w.place spent)
