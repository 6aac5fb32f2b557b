-- ===== src/Com/PubSub/Counting.antt =====
-- src/ara/com/someip/pubsub/someip_pubsub_server.cpp against an abstract server, which is down or
-- has a number of subscriptions.
use mathlib.Core.Path.{subst}
use adaptive_autosar.Prelude.{
  ℕ, zero, suc, ◌+◌, ◌-◌, ◌^◌, ◌<◌, ◌≡◌, refl, ap, sym, true, false, ok, Option, none, some, List,
  [], ◌∷◌, arith, Bool-cases, inl, inr, if◌then◌else◌, ◌==◌, ltb, leb, ◌&&◌,
}
use adaptive_autosar.Com.Entries.{SdEntry, service, eventgroup, entry_type_byte, subscribing}
use adaptive_autosar.Com.PubSub.{
  PubSubState, service_down, not_subscribed, subscribed, Machine, SomeIpPubSubServer, count_down,
  count_subscription, process_entry, remove_subscription, start_machine, stop_machine, is_addressed,
  on_message_received, publish, start, stop, transit, same_state, activate, next_session_id,
}

-- What a caller or the network can do to a server.
pub data Event : Type 0 where
  starting stopping : Event
  receiving : List SdEntry → Event
  publishing : ℕ → List ℕ → Event

unfoldable pub handle : SomeIpPubSubServer → Event → SomeIpPubSubServer
handle s starting = start s
handle s stopping = stop s
handle s (receiving entries) = (on_message_received s entries).0
handle s (publishing id payload) = (publish s id payload).0

-- The abstract server: `none` is down, `some n` has n subscriptions.
unfoldable pub subscriptions : Machine → Option ℕ
subscriptions m = elim m.current [
  | service_down ↦ none
  | not_subscribed ↦ some 0
  | subscribed ↦ some m.subscription_counter
]

unfoldable pub abstract_start : Option ℕ → Option ℕ
abstract_start none = some 0
abstract_start (some n) = some n

unfoldable pub abstract_add : Option ℕ → Option ℕ
abstract_add none = none
abstract_add (some n) = some (n + 1)

unfoldable pub abstract_remove : Option ℕ → Option ℕ
abstract_remove none = none
abstract_remove (some n) = some (n - 1)

-- The first entry addressed to the server subscribes or unsubscribes.
unfoldable pub abstract_receive : SomeIpPubSubServer → List SdEntry → Option ℕ → Option ℕ
unfolding abstract_add abstract_remove
abstract_receive s [] n = n
abstract_receive s (service e minor ∷ entries) n = abstract_receive s entries n
abstract_receive s (eventgroup e counter id ∷ entries) n =
    if entry_type_byte e.type == entry_type_byte subscribing && is_addressed s e id
    then (if ltb 0 e.ttl then abstract_add n else abstract_remove n)
    else abstract_receive s entries n

unfoldable pub abstract_handle : SomeIpPubSubServer → Event → Option ℕ → Option ℕ
unfolding abstract_start abstract_receive
abstract_handle s starting n = abstract_start n
abstract_handle s stopping n = none
abstract_handle s (receiving entries) n = abstract_receive s entries n
abstract_handle s (publishing id payload) n = n

abbrev IsCounted : Machine → Type 0
IsCounted m = m.current ≡ subscribed → 0 < m.subscription_counter

-- A machine with a subscription more.
unfoldable pub one_more : Machine → Machine
one_more m = elim m.current [
  | service_down ↦ m
  | not_subscribed ↦ record { current = subscribed; subscription_counter = 1 }
  | subscribed ↦ record m { subscription_counter = m.subscription_counter + 1 }
]

pub count_subscription-one_more :
    (c : PubSubState) (n : ℕ)
    → n < 2 ^ 31 - 1
    → let m : Machine = record { current = c; subscription_counter = n } in
      count_subscription m ≡ ok (one_more m)
unfolding count_subscription one_more transit same_state activate
count_subscription-one_more service_down n h = refl
count_subscription-one_more not_subscribed n h = refl
count_subscription-one_more subscribed n h =
    let room : ltb n 0x7fffffff ≡ true = ground arith in rw (room, count_subscription) refl

pub one_more-add :
    (c : PubSubState) (n : ℕ)
    → let m : Machine = record { current = c; subscription_counter = n } in
      (subscriptions (one_more m) ≡ abstract_add (subscriptions m)) × IsCounted (one_more m)
unfolding subscriptions one_more abstract_add
one_more-add service_down n = (refl, λ h. cc)
one_more-add not_subscribed n = (refl, λ h. omega arith)
one_more-add subscribed n = (refl, λ h. omega arith)

count_down-remove :
    (n : ℕ)
    → let m : Machine = record { current = subscribed; subscription_counter = suc n } in
      (subscriptions (count_down m) ≡ some (suc n - 1)) × IsCounted (count_down m)
unfolding subscriptions count_down transit same_state activate
count_down-remove zero = (refl, λ h. cc)
count_down-remove (suc n) =
    let one_less : suc (suc n) - 1 ≡ suc n = omega arith in
    let left : leb (suc n) 0 ≡ false = ground arith in
    rw (one_less, count_down, left) (refl, λ h. omega arith)

remove_subscription-remove :
    (c : PubSubState) (n : ℕ)
    → let m : Machine = record { current = c; subscription_counter = n } in
      IsCounted m
      → (subscriptions (remove_subscription m) ≡ abstract_remove (subscriptions m))
        × IsCounted (remove_subscription m)
unfolding remove_subscription subscriptions abstract_remove
remove_subscription-remove service_down n h = (refl, h)
remove_subscription-remove not_subscribed n h = (refl, h)
remove_subscription-remove subscribed zero h = absurd (omega (arith, h refl))
remove_subscription-remove subscribed (suc n) h = count_down-remove n

start_machine-start :
    (c : PubSubState) (n : ℕ)
    → let m : Machine = record { current = c; subscription_counter = n } in
      IsCounted m
      → (subscriptions (start_machine m) ≡ abstract_start (subscriptions m))
        × IsCounted (start_machine m)
unfolding start_machine subscriptions abstract_start transit same_state activate
start_machine-start service_down n h = (refl, λ e. cc)
start_machine-start not_subscribed n h = (refl, h)
start_machine-start subscribed n h = (refl, h)

stop_machine-stop :
    (c : PubSubState) (n : ℕ)
    → let m : Machine = record { current = c; subscription_counter = n } in
      (subscriptions (stop_machine m) ≡ none) × IsCounted (stop_machine m)
unfolding stop_machine subscriptions transit same_state activate
stop_machine-stop service_down n = (refl, λ e. cc)
stop_machine-stop not_subscribed n = (refl, λ e. cc)
stop_machine-stop subscribed n = (refl, λ e. cc)

on_message_received_lem :
    (s : SomeIpPubSubServer) (entries : List SdEntry)
    → IsCounted s.machine
    → s.machine.subscription_counter < 2 ^ 31 - 1
    → (subscriptions (on_message_received s entries).0.machine
        ≡ abstract_receive s entries (subscriptions s.machine))
      × IsCounted (on_message_received s entries).0.machine
      × ((on_message_received s entries).0.session_id ≡ s.session_id)
unfolding on_message_received abstract_receive process_entry
on_message_received_lem s [] h room = (refl, h, refl)
on_message_received_lem s (service e minor ∷ entries) h room =
    on_message_received_lem s entries h room
on_message_received_lem s (eventgroup e counter id ∷ entries) h room =
    elim (Bool-cases
      (entry_type_byte e.type == entry_type_byte subscribing && is_addressed s e id)) [
        | inr other ↦
            rw (other, on_message_received, abstract_receive)
              (on_message_received_lem s entries h room)
        | inl mine ↦ elim (Bool-cases (ltb 0 e.ttl)) [
          | inl adds ↦
              rw
                (
                  mine,
                  adds,
                  on_message_received,
                  process_entry,
                  abstract_receive,
                  count_subscription-one_more s.machine.current s.machine.subscription_counter room,
                )
                (let (more, counted) =
                    one_more-add s.machine.current s.machine.subscription_counter in
                  (more, counted, refl))
          | inr removes ↦
              rw (mine, removes, on_message_received, abstract_receive)
                (let (fewer, counted) =
                    remove_subscription-remove s.machine.current s.machine.subscription_counter h in
                  (fewer, counted, refl))
        ]
      ]

-- A subscribed server has a subscription, and the session identifier is a nonzero 16-bit number.
pub record IsValid (s : SomeIpPubSubServer) : Type 0 where
  pub counted : s.machine.current ≡ subscribed → 0 < s.machine.subscription_counter
  pub nonzero : 0 < s.session_id
  pub fits : s.session_id < 2 ^ 16

next_session_id-fits : (id : ℕ) → (0 < next_session_id id) × (next_session_id id < 2 ^ 16)
unfolding next_session_id
next_session_id-fits id = ground arith

publish-keeps :
    (s : SomeIpPubSubServer) (id : ℕ) (payload : List ℕ)
    → 0 < s.session_id
    → s.session_id < 2 ^ 16
    → let s' = (publish s id payload).0 in
      (s'.machine ≡ s.machine) × (0 < s'.session_id) × (s'.session_id < 2 ^ 16)
unfolding publish
publish-keeps s id payload positive small = elim (Bool-cases s.has_event_layer) [
  | inr missing ↦ rw (missing, publish) (refl, positive, small)
  | inl present ↦ elim (Bool-cases (same_state s.machine.current subscribed)) [
    | inr idle ↦ rw (present, idle, publish) (refl, positive, small)
    | inl busy ↦
        rw (present, busy, publish)
          (let (more, fits) = next_session_id-fits s.session_id in (refl, more, fits))
  ]
]

-- While the counter is below 2^31 - 1, every event keeps a valid publish and subscribe server
-- valid, and changes the number of its subscriptions as it changes an abstract server that is down
-- or has a number of them.
pub handle-IsValid :
    (s : SomeIpPubSubServer) (event : Event)
    → IsValid s
    → s.machine.subscription_counter < 2 ^ 31 - 1
    → IsValid (handle s event)
      × (subscriptions (handle s event).machine ≡ abstract_handle s event (subscriptions s.machine))
unfolding handle abstract_handle start stop
handle-IsValid s starting v room =
    let (same, counted) =
      start_machine-start s.machine.current s.machine.subscription_counter v.counted in
    (record { counted = counted; nonzero = v.nonzero; fits = v.fits }, same)
handle-IsValid s stopping v room =
    let (same, counted) = stop_machine-stop s.machine.current s.machine.subscription_counter in
    (record { counted = counted; nonzero = v.nonzero; fits = v.fits }, same)
handle-IsValid s (receiving entries) v room =
    let (same, counted, session) = on_message_received_lem s entries v.counted room in
    (record { counted = counted; nonzero = rw session v.nonzero; fits = rw session v.fits }, same)
handle-IsValid s (publishing id payload) v room =
    let (same, positive, small) = publish-keeps s id payload v.nonzero v.fits in
    (
      record { counted = subst IsCounted (sym same) v.counted; nonzero = positive; fits = small },
      ap subscriptions same,
    )
