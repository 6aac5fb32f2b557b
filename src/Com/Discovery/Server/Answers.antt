-- ===== src/Com/Discovery/Server/Answers.antt =====
-- src/ara/com/someip/sd/someip_sd_server.cpp: which offers a server sends.
use mathlib.Core.List.{append-nil}
use adaptive_autosar.Prelude.{
  ℕ, suc, ◌+◌, ◌≡◌, refl, sym, ap, ◌∙◌, Bool, true, false, List, [], ◌∷◌, ◌++◌, ◌&&◌, if◌then◌else◌,
  arith, length, length-append, Bool-cases, inl, inr,
}
use adaptive_autosar.Com.Sd.{SomeIpSdMessage}
use adaptive_autosar.Com.Discovery.Server.Offers.{
  offers, offer_after, IsUnstopped, IsQuiet, offer_each-offers, repeat_from-IsQuiet,
  end_initial_wait-IsQuiet, offers-add,
}
use adaptive_autosar.Com.Discovery.Server.{
  SdServerState, not_ready, initial_wait_phase, repetition_phase, main_phase, Thread, absent,
  starting, finished, sleeping, OfferedService, SomeIpSdServer, match_offering_service,
  receive_find, send_offer, start_agent, start_beside, start, join,
}
use adaptive_autosar.Com.Discovery.Server.Waking.{
  repeat_from, end_initial_wait, service_activated, offer_then, wake_in, wake_thread, wake, started,
  Event, starts, stops, joins, wakes, finds, handle, run,
}

-- After a step that took `taken` more finds: each find is answered or waits in the buffer.
pub record IsAccounted (taken : ℕ) (s : SomeIpSdServer) (r : SomeIpSdServer × List SomeIpSdMessage)
    : Type 0 where
  pub answered : ℕ
  pub sent : r.1 ≡ offers answered s.offer_message
  pub next_offer : r.0.offer_message ≡ offer_after answered s.offer_message
  pub conserved : answered + length r.0.message_buffer ≡ taken + length s.message_buffer
  pub same_service : r.0.offered ≡ s.offered
  pub unstopped : IsUnstopped r.0

-- A sleep that ends with no stop answers the whole buffer.
offer_then-IsAccounted :
    (next : SomeIpSdServer → SomeIpSdServer × List SomeIpSdMessage) (s : SomeIpSdServer)
    → ((t : SomeIpSdServer) → IsUnstopped t → IsQuiet t (next t))
    → IsUnstopped s
    → IsAccounted 0 s (offer_then next s) × ((offer_then next s).0.message_buffer ≡ [])
unfolding offer_then send_offer
offer_then-IsAccounted next s quiet u =
    let (last, sent) = offer_each-offers s.message_buffer s.offer_message in
    let q =
      quiet (send_offer s).0
        (record { initial_wait = u.initial_wait; repetition = u.repetition; main = u.main }) in
    let empty : (offer_then next s).0.message_buffer ≡ [] = q.same_buffer in
    (
      record {
        answered = length s.message_buffer;
        sent = ap (λ ms. (send_offer s).1 ++ ms) q.sent ∙ (append-nil _ ∙ sent);
        next_offer = q.same_offer ∙ last;
        conserved = omega (arith, ap length empty);
        same_service = q.same_service;
        unstopped = q.unstopped;
      },
      empty,
    )

-- What a step of the thread sends.
wake_in-IsAccounted :
    (c : SdServerState) (i : ℕ) (s : SomeIpSdServer)
    → IsUnstopped s
    → IsAccounted 0 s (wake_in c i s)
unfolding wake_in offers offer_after
wake_in-IsAccounted not_ready i s u = record {
  answered = 0;
  sent = refl;
  next_offer = refl;
  conserved = refl;
  same_service = refl;
  unstopped = u;
}
wake_in-IsAccounted initial_wait_phase i s u =
    simp u.initial_wait ((offer_then-IsAccounted end_initial_wait s end_initial_wait-IsQuiet u).0)
wake_in-IsAccounted repetition_phase i s u =
    simp u.repetition
      ((offer_then-IsAccounted (repeat_from (suc i)) s (repeat_from-IsQuiet (suc i)) u).0)
wake_in-IsAccounted main_phase i s u = simp u.main (
    (offer_then-IsAccounted (λ (t : SomeIpSdServer). (record t { thread = sleeping (suc i) }, [])) s
      (λ t v. ground arith) u).0)

nothing_sent :
    (s t : SomeIpSdServer)
    → t.message_buffer ≡ s.message_buffer
    → t.offer_message ≡ s.offer_message
    → t.offered ≡ s.offered
    → IsUnstopped t
    → IsAccounted 0 s (t, [])
unfolding offers offer_after
nothing_sent s t b o same u = record {
  answered = 0;
  sent = refl;
  next_offer = o;
  conserved = omega (arith, ap length b);
  same_service = same;
  unstopped = u;
}

service_activated-IsAccounted :
    (c : SdServerState) (s : SomeIpSdServer)
    → IsUnstopped s
    → IsAccounted 0 s (service_activated c s, [])
unfolding service_activated
service_activated-IsAccounted not_ready s u =
    nothing_sent s (service_activated not_ready s) (ground arith) (ground arith) (ground arith)
      (ground arith)
service_activated-IsAccounted initial_wait_phase s u =
    nothing_sent s _ refl refl refl (ground arith)
service_activated-IsAccounted repetition_phase s u = nothing_sent s _ refl refl refl (ground arith)
service_activated-IsAccounted main_phase s u = nothing_sent s _ refl refl refl (ground arith)

wake_thread-IsAccounted :
    (t : Thread) (c : SdServerState) (s : SomeIpSdServer)
    → IsUnstopped s
    → IsAccounted 0 s (wake_thread t c s)
unfolding wake_thread
wake_thread-IsAccounted absent c s u = nothing_sent s s refl refl refl u
wake_thread-IsAccounted finished c s u = nothing_sent s s refl refl refl u
wake_thread-IsAccounted starting c s u = service_activated-IsAccounted c s u
wake_thread-IsAccounted (sleeping i) c s u = wake_in-IsAccounted c i s u

start_beside-IsAccounted :
    (t : Thread) (c : SdServerState) (s : SomeIpSdServer)
    → IsUnstopped s
    → IsAccounted 0 s (started s (start_beside t c s), [])
unfolding start_beside started start_agent
start_beside-IsAccounted absent not_ready s u =
    nothing_sent s (record s { thread = starting }) refl refl refl (ground arith)
start_beside-IsAccounted absent initial_wait_phase s u = nothing_sent s s refl refl refl u
start_beside-IsAccounted absent repetition_phase s u = nothing_sent s s refl refl refl u
start_beside-IsAccounted absent main_phase s u = nothing_sent s s refl refl refl u
start_beside-IsAccounted starting c s u = nothing_sent s s refl refl refl u
start_beside-IsAccounted finished c s u = nothing_sent s s refl refl refl u
start_beside-IsAccounted (sleeping i) c s u = nothing_sent s s refl refl refl u

-- Whether an event is no `Stop`, and how many finds of the service it brings.
abbrev pub is_no_stop : Event → Bool
is_no_stop stops = false
is_no_stop _ = true

abbrev pub sought_by : OfferedService → Event → ℕ
sought_by offered (finds m) = if match_offering_service offered m.entries then 1 else 0
sought_by offered _ = 0

handle-IsAccounted :
    (e : Event) (s : SomeIpSdServer)
    → is_no_stop e ≡ true
    → IsUnstopped s
    → IsAccounted (sought_by s.offered e) s (handle e s)
unfolding handle start wake join receive_find offers offer_after
handle-IsAccounted starts s h u = start_beside-IsAccounted s.thread s.current s u
handle-IsAccounted stops s h u = absurd (ground arith)
handle-IsAccounted joins s h u =
    nothing_sent s (join s) refl refl refl
      (record { initial_wait = u.initial_wait; repetition = u.repetition; main = u.main })
handle-IsAccounted wakes s h u = wake_thread-IsAccounted s.thread s.current s u
handle-IsAccounted (finds m) s h u =
    elim (Bool-cases (match_offering_service s.offered m.entries)) [
      | inl sought ↦
          rw (sought, receive_find)
            (record {
              answered = 0;
              sent = refl;
              next_offer = refl;
              conserved = omega (arith, length-append s.message_buffer (m ∷ []));
              same_service = refl;
              unstopped = (record {
                initial_wait = u.initial_wait;
                repetition = u.repetition;
                main = u.main;
              });
            })
      | inr other ↦ rw (other, receive_find) (nothing_sent s s refl refl refl u)
    ]

abbrev pub no_stops : List Event → Bool
no_stops [] = true
no_stops (e ∷ es) = is_no_stop e && no_stops es

abbrev pub sought_by_all : OfferedService → List Event → ℕ
sought_by_all offered [] = 0
sought_by_all offered (e ∷ es) = sought_by offered e + sought_by_all offered es

run-IsAccounted :
    (es : List Event) (s : SomeIpSdServer)
    → no_stops es ≡ true
    → IsUnstopped s
    → IsAccounted (sought_by_all s.offered es) s (run es s)
unfolding run
run-IsAccounted [] s h u = nothing_sent s s refl refl refl u
run-IsAccounted (e ∷ es) s h u =
    let first = handle-IsAccounted e s (ground arith) u in
    let rest = run-IsAccounted es (handle e s).0 (ground arith) first.unstopped in
    let (ms, last) = offers-add first.answered rest.answered s.offer_message in
    let same : sought_by_all (handle e s).0.offered es ≡ sought_by_all s.offered es =
      ap (λ o. sought_by_all o es) first.same_service in
    record {
      answered = first.answered + rest.answered;
      sent =
          ap (λ m. (handle e s).1 ++ m) rest.sent
          ∙ (ap (λ m. (handle e s).1 ++ offers rest.answered m) first.next_offer
              ∙ (ap (λ m. m ++ offers rest.answered (offer_after first.answered s.offer_message))
                    first.sent
                  ∙ sym ms));
      next_offer = rest.next_offer ∙ (ap (offer_after rest.answered) first.next_offer ∙ sym last);
      conserved = omega (arith, first.conserved, rest.conserved, same);
      same_service = rest.same_service ∙ first.same_service;
      unstopped = rest.unstopped;
    }

-- Over any events without a Stop, an unstopped server sends nothing but its offer, with the session
-- identifiers in a row, and each find for its service, together with those that were in the buffer,
-- is either answered by one offer or still in the buffer.
pub run-answers :
    (es : List Event) (s : SomeIpSdServer)
    → no_stops es ≡ true
    → IsUnstopped s
    → (n : ℕ) × ((run es s).1 ≡ offers n s.offer_message)
      × (n + length (run es s).0.message_buffer
          ≡ sought_by_all s.offered es + length s.message_buffer)
run-answers es s h u = let a = run-IsAccounted es s h u in (a.answered, a.sent, a.conserved)
