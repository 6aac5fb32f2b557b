-- ===== src/Com/Sd/Fuel.antt =====
-- src/ara/com/someip/sd/someip_sd_message.cpp: the fuel of the reading loop, against how far each
-- round moves the entry offset on.
use adaptive_autosar.Prelude.{
  ℕ, zero, suc, ◌+◌, ◌%◌, ◌/◌, ◌^◌, ◌≤◌, ◌<◌, ◌≡◌, ◌≢◌, inl, inr, refl, ap, Bool, some, none,
  Option, List, [], ◌∷◌, arith, Result, ok, throws, ◌>>=◌, >>=-eq-ok, length, ltb, Bool-cases,
  Result-cases, ok-inj,
}
use Prim.Native.Nat.{bit_and}
use adaptive_autosar.Com.Payload.{at, extract_short, extract_integer}
use adaptive_autosar.Com.Entries.{
  SdEntry, add_first_option, add_second_option, EntryType, finding, offering, subscribing,
  acknowledging, entry_type_of,
}
use adaptive_autosar.Com.Entries.Build.{
  ReadEntry, deserialize_entry, deserialize_as, deserialize_service, deserialize_eventgroup,
  service_as, eventgroup_as,
}
use adaptive_autosar.Com.Message.{SomeIpMessage}
use adaptive_autosar.Com.Sd.{
  read_options, Round, read_entry, read_entries, prepend, finish, read_start, read_rest,
  deserialize,
}

at-lt : (v : List ℕ) (i : ℕ) {b : ℕ} → at v i ≡ ok b → i < length v
unfolding at
at-lt [] i h = cc
at-lt (c ∷ v) zero h = omega arith
at-lt (c ∷ v) (suc i) h = omega (arith, at-lt v i h)

pub extract_short-end :
    (v : List ℕ) (i : ℕ) {r : ℕ × ℕ} → extract_short v i ≡ ok r → r.1 ≡ suc (suc i)
unfolding extract_short
extract_short-end v i h = ground arith

pub extract_integer-end :
    (v : List ℕ) (i : ℕ) {r : ℕ × ℕ} → extract_integer v i ≡ ok r → r.1 ≡ suc (suc (suc (suc i)))
unfolding extract_integer
extract_integer-end v i h = ground arith

bind-last :
    {A B : Type 0} (m : Result A) (f : A → B) {r : B}
    → (m >>= λ a. ok (f a)) ≡ ok r
    → (a : A) × (f a ≡ r)
bind-last (ok a) f h = (a, cc)
bind-last (throws e) f h = cc

deserialize_service-end :
    (v : List ℕ) (i : ℕ) (type : EntryType) (service_id instance_id ttl major : ℕ) {r : SdEntry × ℕ}
    → deserialize_service v i type service_id instance_id ttl major ≡ ok r
    → i < r.1
unfolding deserialize_service
deserialize_service-end v i type service_id instance_id ttl major h =
    let (a, read, h1) = >>=-eq-ok (extract_integer v i) _ h in
    let (e, same) = bind-last (service_as type service_id instance_id ttl major a.0) _ h1 in
    omega (arith, extract_integer-end v i read, ap (λ p. p.1) same)

deserialize_eventgroup-end :
    (v : List ℕ) (i : ℕ) (type : EntryType) (service_id instance_id ttl major : ℕ) {r : SdEntry × ℕ}
    → deserialize_eventgroup v i type service_id instance_id ttl major ≡ ok r
    → i < r.1
unfolding deserialize_eventgroup
deserialize_eventgroup-end v i type service_id instance_id ttl major h =
    let (c, counter, h1) = >>=-eq-ok (at v (suc i)) _ h in
    let (a, read, h2) = >>=-eq-ok (extract_short v (suc (suc i))) _ h1 in
    let (e, same) = bind-last (eventgroup_as type service_id instance_id ttl major c a.0) _ h2 in
    omega (arith, extract_short-end v (suc (suc i)) read, ap (λ p. p.1) same)

deserialize_as-end :
    (type : Option EntryType) (v : List ℕ) (i service_id instance_id ttl major : ℕ)
    {r : SdEntry × ℕ}
    → deserialize_as type v i service_id instance_id ttl major ≡ ok r
    → i < r.1
unfolding deserialize_as
deserialize_as-end none v i s n ttl major h = cc
deserialize_as-end (some finding) v i s n ttl major h =
    deserialize_service-end v i finding s n ttl major h
deserialize_as-end (some offering) v i s n ttl major h =
    deserialize_service-end v i offering s n ttl major h
deserialize_as-end (some subscribing) v i s n ttl major h =
    deserialize_eventgroup-end v i subscribing s n ttl major h
deserialize_as-end (some acknowledging) v i s n ttl major h =
    deserialize_eventgroup-end v i acknowledging s n ttl major h

deserialize_entry-end :
    (v : List ℕ) (i : ℕ) {r : ReadEntry}
    → deserialize_entry v i ≡ ok r
    → (i < length v) × (i < r.end)
unfolding deserialize_entry
deserialize_entry-end v i h =
    let (type, t, h1) = >>=-eq-ok (at v i) _ h in
    let (sizes, s, h2) = >>=-eq-ok (at v (suc (suc (suc i)))) _ h1 in
    let j = suc (suc (suc (suc i))) in
    let (id, read_id, h3) = >>=-eq-ok (extract_short v j) _ h2 in
    let (instance, read_instance, h4) = >>=-eq-ok (extract_short v id.1) _ h3 in
    let (combined, read_combined, h5) = >>=-eq-ok (extract_integer v instance.1) _ h4 in
    let (e, read_e, h6) =
      >>=-eq-ok
        (deserialize_as (entry_type_of type) v combined.1 id.0 instance.0
          (bit_and combined.0 0x00ffffff) (combined.0 / 2 ^ 24 % 2 ^ 8))
        _ h5 in
    (
      at-lt v i t,
      omega (
        arith,
        extract_short-end v j read_id,
        extract_short-end v id.1 read_instance,
        extract_integer-end v instance.1 read_combined,
        deserialize_as-end (entry_type_of type) v combined.1 _ _ _ _ read_e,
        ap ReadEntry.end (ok-inj h6),
      ),
    )

read_entry-end :
    (v : List ℕ) (i j : ℕ) {r : Round}
    → read_entry v i j ≡ ok r
    → (i < length v) × (i < r.entry_offset)
unfolding read_entry
read_entry-end v i j h =
    let (e, read, h1) = >>=-eq-ok (deserialize_entry v i) _ h in
    let (first, read_first, h2) =
      >>=-eq-ok (read_options e.first_count add_first_option v j e.entry) _ h1 in
    let (second, read_second, h3) =
      >>=-eq-ok (read_options e.second_count add_second_option v first.1 first.0) _ h2 in
    let (here, on) = deserialize_entry-end v i read in
    (here, omega (arith, on, ap Round.entry_offset (ok-inj h3)))

prepend-ne-none : (e : SdEntry) (r : Option (Result (List SdEntry))) → r ≢ none → prepend e r ≢ none
prepend-ne-none e none h k = h k
prepend-ne-none e (some (ok es)) h k = cc
prepend-ne-none e (some (throws x)) h k = cc

-- One round, when every later round at a higher offset, if there is a byte left, returns.
read_entries-round :
    (fuel : ℕ) (v : List ℕ) (max i j : ℕ)
    → ((k l : ℕ) → i < length v → i < k → read_entries fuel v max k l ≢ none)
    → read_entries (suc fuel) v max i j ≢ none
unfolding read_entries
read_entries-round fuel v max i j later = elim (Bool-cases (ltb i max)) [
  | inr past ↦ rw (past, read_entries) (λ h. cc)
  | inl below ↦ elim (Result-cases (read_entry v i j)) [
    | inr (x, failed) ↦ rw (below, failed, read_entries) (λ h. cc)
    | inl (r, read) ↦
        rw (below, read, read_entries)
          (prepend-ne-none r.entry (read_entries fuel v max r.entry_offset r.option_offset) (
            later r.entry_offset r.option_offset (read_entry-end v i j read).0
              (read_entry-end v i j read).1))
  ]
]

read_entries-enough :
    (fuel : ℕ) (v : List ℕ) (max i j : ℕ)
    → length v ≤ i + fuel
    → read_entries (suc fuel) v max i j ≢ none
read_entries-enough zero v max i j enough =
    read_entries-round zero v max i j (λ k l here on. absurd (omega arith))
read_entries-enough (suc fuel) v max i j enough =
    read_entries-round (suc fuel) v max i j
      (λ k l here on. read_entries-enough fuel v max k l (omega arith))

finish-ne-none :
    (header : SomeIpMessage) (rebooted : Bool) (r : Option (Result (List SdEntry)))
    → r ≢ none
    → finish header rebooted r ≢ none
finish-ne-none header rebooted none h k = h refl
finish-ne-none header rebooted (some (ok es)) h k = cc
finish-ne-none header rebooted (some (throws x)) h k = cc

-- The fuel of the reading loop does not run out.
pub deserialize-returns : (v : List ℕ) → deserialize v ≢ none
unfolding deserialize read_rest
deserialize-returns v = elim (Result-cases (read_start v)) [
  | inr (x, failed) ↦ rw (failed, deserialize) (λ h. cc)
  | inl (s, started) ↦
      rw (started, deserialize)
        (finish-ne-none s.header s.rebooted _
          (read_entries-enough (length v) v _ s.entry_offset _ (omega arith)))
]
