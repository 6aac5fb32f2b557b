-- ===== src/Com/PubSub/Client.antt =====
-- src/ara/com/someip/pubsub/someip_pubsub_client.cpp, with the queue of
-- src/ara/com/helper/concurrent_queue.h as a list. Whether the queue's `try_lock` succeeds is an
-- argument of each call of it.
use adaptive_autosar.Prelude.{
  ℕ, suc, Bool, true, false, not, ◌&&◌, Option, none, some, List, [], ◌∷◌, ◌++◌, Result, ok, throws,
  undefined, ◌>>=◌, if◌then◌else◌, ◌==◌,
}
use adaptive_autosar.Com.Entries.{SdEntry, base, acknowledging, entry_type_byte}
use adaptive_autosar.Com.Entries.Build.{create_subscribe, create_unsubscribe}
use adaptive_autosar.Com.Sd.{SomeIpSdMessage, new_sd_message, add_entry}

pub record SomeIpPubSubClient : Type 0 where
  pub counter : ℕ
  pub message_buffer : List SomeIpSdMessage
  pub valid_notify : Bool

unfoldable pub new_client : ℕ → SomeIpPubSubClient
new_client counter = record { counter = counter; message_buffer = []; valid_notify = true }

-- What the move constructor leaves of a message.
unfoldable pub moved_from : SomeIpSdMessage → SomeIpSdMessage
moved_from m = record m { entries = [] }

-- The loop of `onMessageReceived`: what it puts into the queue. It goes on over the same entries
-- when they have moved into the queue with their message.
unfoldable pub enqueue_each : List SdEntry → SomeIpSdMessage → (ℕ → Bool) → List SomeIpSdMessage
enqueue_each [] m locks = []
enqueue_each (e ∷ entries) m locks =
    let moved = enqueue_each entries (moved_from m) (λ n. locks (suc n)) in
    let kept = enqueue_each entries m (λ n. locks (suc n)) in
    let skipped = enqueue_each entries m locks in
    if entry_type_byte (base e).type == entry_type_byte acknowledging
    then (if locks 0 then m ∷ moved else kept)
    else skipped

-- `onMessageReceived`; it notifies once for each message that it enqueues.
unfoldable pub on_message_received :
    SomeIpPubSubClient → SomeIpSdMessage → (ℕ → Bool) → SomeIpPubSubClient
on_message_received c m locks = record c {
  message_buffer = c.message_buffer ++ enqueue_each m.entries m locks;
}

-- `Subscribe` and `Unsubscribe`: the message that is sent.
unfoldable pub subscribe : SomeIpPubSubClient → ℕ → ℕ → ℕ → ℕ → Result SomeIpSdMessage
subscribe c service_id instance_id major_version eventgroup_id = do
  message ← new_sd_message
  entry ← create_subscribe service_id instance_id major_version c.counter eventgroup_id
  ok (add_entry message entry)

unfoldable pub unsubscribe : SomeIpPubSubClient → ℕ → ℕ → ℕ → ℕ → Result SomeIpSdMessage
unsubscribe c service_id instance_id major_version eventgroup_id = do
  message ← new_sd_message
  entry ← create_unsubscribe service_id instance_id major_version c.counter eventgroup_id
  ok (add_entry message entry)

-- `TryDequeue`: the front of an empty queue is undefined.
unfoldable pub dequeue_from :
    SomeIpPubSubClient → List SomeIpSdMessage → Result (SomeIpPubSubClient × Option SomeIpSdMessage)
dequeue_from c [] = throws undefined
dequeue_from c (m ∷ ms) = ok (record c { message_buffer = ms }, some m)

unfoldable pub try_dequeue :
    SomeIpPubSubClient → Bool → Result (SomeIpPubSubClient × Option SomeIpSdMessage)
try_dequeue c locks = if locks then dequeue_from c c.message_buffer else ok (c, none)

-- `TryGetProcessedSubscription` after its wait, if it had to wait: how the wait ended, and the
-- messages that were enqueued meanwhile.
unfoldable pub get_after :
    SomeIpPubSubClient
    → List SomeIpSdMessage
    → List SomeIpSdMessage
    → Bool
    → Bool
    → Result (SomeIpPubSubClient × Option SomeIpSdMessage)
get_after c [] arrived timed_out locks =
    let waited : SomeIpPubSubClient = record c { message_buffer = arrived } in
    if c.valid_notify && not timed_out then try_dequeue waited locks else ok (waited, none)
get_after c (m ∷ ms) arrived timed_out locks = try_dequeue c locks

unfoldable pub try_get_processed_subscription :
    SomeIpPubSubClient
    → List SomeIpSdMessage
    → Bool
    → Bool
    → Result (SomeIpPubSubClient × Option SomeIpSdMessage)
try_get_processed_subscription c arrived timed_out locks =
    get_after c c.message_buffer arrived timed_out locks

-- The destructor.
unfoldable pub destroy : SomeIpPubSubClient → SomeIpPubSubClient
destroy c = record c { valid_notify = false }
