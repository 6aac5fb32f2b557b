-- ===== src/Com/Discovery/Server/Offers.antt =====
-- src/ara/com/someip/sd/someip_sd_server.cpp: its offers, and the steps of its timers that send
-- nothing.
use native.Mathlib.Nat.{zero-add, suc-add}
use adaptive_autosar.Prelude.{
  ℕ, zero, suc, ◌+◌, ◌≡◌, refl, ap, false, List, [], ◌∷◌, ◌++◌, arith, length,
}
use adaptive_autosar.Com.Sd.{SomeIpSdMessage, increment_session_id}
use adaptive_autosar.Com.Discovery.Server.{repetition_phase, SomeIpSdServer, offer_each}
use adaptive_autosar.Com.Discovery.Server.Waking.{
  activate_main, end_repetition, repeat_from, activate_repetition, end_initial_wait,
}

-- The next offers of a server, which differ in their session identifiers, and the one after them.
unfoldable pub offers : ℕ → SomeIpSdMessage → List SomeIpSdMessage
offers zero offer = []
offers (suc n) offer = offer ∷ offers n (increment_session_id offer).0

unfoldable pub offer_after : ℕ → SomeIpSdMessage → SomeIpSdMessage
offer_after zero offer = offer
offer_after (suc n) offer = offer_after n (increment_session_id offer).0

pub record IsUnstopped (s : SomeIpSdServer) : Type 0 where
  pub initial_wait : s.initial_wait_stopped ≡ false
  pub repetition : s.repetition_stopped ≡ false
  pub main : s.main_stopped ≡ false

-- A step of the timers that sends nothing.
pub record IsQuiet (s : SomeIpSdServer) (r : SomeIpSdServer × List SomeIpSdMessage) : Type 0 where
  pub sent : r.1 ≡ []
  pub same_buffer : r.0.message_buffer ≡ s.message_buffer
  pub same_offer : r.0.offer_message ≡ s.offer_message
  pub same_service : r.0.offered ≡ s.offered
  pub unstopped : IsUnstopped r.0

pub offer_each-offers :
    (buffer : List SomeIpSdMessage) (offer : SomeIpSdMessage)
    → ((offer_each buffer offer).0 ≡ offer_after (length buffer) offer)
      × ((offer_each buffer offer).1 ≡ offers (length buffer) offer)
unfolding offer_each offers offer_after
offer_each-offers [] offer = (refl, refl)
offer_each-offers (find ∷ buffer) offer =
    let (after, sent) = offer_each-offers buffer (increment_session_id offer).0 in
    (after, ap (λ ms. offer ∷ ms) sent)

pub activate_main-IsQuiet : (s : SomeIpSdServer) → IsUnstopped s → IsQuiet s (activate_main s)
unfolding activate_main
activate_main-IsQuiet s u = ground arith

pub end_repetition-IsQuiet : (s : SomeIpSdServer) → IsUnstopped s → IsQuiet s (end_repetition s)
unfolding end_repetition
end_repetition-IsQuiet s u =
    ground (arith, activate_main-IsQuiet (record s { repetition_stopped = false }))

pub repeat_from-IsQuiet : (i : ℕ) (s : SomeIpSdServer) → IsUnstopped s → IsQuiet s (repeat_from i s)
unfolding repeat_from
repeat_from-IsQuiet i s u =
    ground (arith, end_repetition-IsQuiet (record s { current = repetition_phase }))

pub activate_repetition-IsQuiet :
    (s : SomeIpSdServer) → IsUnstopped s → IsQuiet s (activate_repetition s)
unfolding activate_repetition
activate_repetition-IsQuiet s u = ground (arith, repeat_from-IsQuiet 0 s)

pub end_initial_wait-IsQuiet : (s : SomeIpSdServer) → IsUnstopped s → IsQuiet s (end_initial_wait s)
unfolding end_initial_wait
end_initial_wait-IsQuiet s u =
    ground (arith, activate_repetition-IsQuiet (record s { initial_wait_stopped = false }))

pub offers-add :
    (a b : ℕ) (offer : SomeIpSdMessage)
    → (offers (a + b) offer ≡ offers a offer ++ offers b (offer_after a offer))
      × (offer_after (a + b) offer ≡ offer_after b (offer_after a offer))
unfolding offers offer_after
offers-add zero b offer = simp zero-add (refl, refl)
offers-add (suc a) b offer =
    let (ms, last) = offers-add a b (increment_session_id offer).0 in
    simp suc-add (ap (λ rest. offer ∷ rest) ms, last)
