-- ===== src/Com/Sd/Defined/Parts.antt =====
-- src/ara/com/option and src/ara/com/entry: what is read of a vector without undefined behaviour.
use adaptive_autosar.Prelude.{
  ℕ, zero, suc, ◌%◌, ◌/◌, ◌^◌, ◌<◌, ◌≡◌, ◌≢◌, refl, Bool, some, none, Option, List, [], ◌∷◌, arith,
  not, ◌==◌, Result, ok, throws, undefined, ◌>>=◌, length,
}
use adaptive_autosar.Com.Payload
use adaptive_autosar.Com.Payload.{
  at, get_unchecked, extract_short, extract_integer, extract_address,
}
use adaptive_autosar.Com.Options
use adaptive_autosar.Com.Options.{
  OptionType, deserialize_option, deserialize_endpoint, deserialize_balancing, create_endpoint,
  create_multicast_endpoint, create_unicast_endpoint, create_sd_endpoint, ipv4_endpoint,
  ipv4_multicast, ipv4_sd_endpoint, load_balancing,
}
use adaptive_autosar.Com.Entries.{
  SdEntry, add_first_option, add_second_option, EntryType, finding, offering, subscribing,
  acknowledging, entry_type_of,
}
use adaptive_autosar.Com.Entries.Build.{
  deserialize_entry, deserialize_as, deserialize_service, deserialize_eventgroup, service_as,
  eventgroup_as, create_find_service, create_offer_service, create_stop_offer, create_subscribe,
  create_unsubscribe, new_eventgroup,
}
use Prim.Native.Nat.{bit_and}

abbrev pub IsDefined {ℓ} : {A : Type ℓ} → Result A → Type ℓ
IsDefined r = r ≢ throws undefined

pub bind-IsDefined :
    {A B : Type 0} (m : Result A) (f : A → Result B)
    → IsDefined m
    → ((a : A) → m ≡ ok a → IsDefined (f a))
    → IsDefined (m >>= f)
bind-IsDefined (ok a) f defined rest = rest a refl
bind-IsDefined (throws fault) f defined rest = λ h. defined (cc)

pub at-IsDefined : (v : List ℕ) (i : ℕ) → IsDefined (at v i)
unfolding at
at-IsDefined [] i = λ h. cc
at-IsDefined (b ∷ v) zero = λ h. cc
at-IsDefined (b ∷ v) (suc i) = at-IsDefined v i

pub get_unchecked-IsDefined : (v : List ℕ) (i : ℕ) → i < length v → IsDefined (get_unchecked v i)
unfolding get_unchecked
get_unchecked-IsDefined [] i h = absurd (omega arith)
get_unchecked-IsDefined (b ∷ v) zero h = λ e. cc
get_unchecked-IsDefined (b ∷ v) (suc i) h = get_unchecked-IsDefined v i (omega arith)

pub extract_short-IsDefined : (v : List ℕ) (i : ℕ) → IsDefined (extract_short v i)
unfolding extract_short
extract_short-IsDefined v i =
    bind-IsDefined _ _ (at-IsDefined v i)
      (λ a read. bind-IsDefined _ _ (at-IsDefined v (suc i)) (λ b also h. cc))

pub extract_integer-IsDefined : (v : List ℕ) (i : ℕ) → IsDefined (extract_integer v i)
unfolding extract_integer
extract_integer-IsDefined v i = bind-IsDefined _ _ (at-IsDefined v i) (λ a ra.
    bind-IsDefined _ _ (at-IsDefined v (suc i)) (λ b rb.
      bind-IsDefined _ _ (at-IsDefined v (suc (suc i)))
        (λ c rc. bind-IsDefined _ _ (at-IsDefined v (suc (suc (suc i)))) (λ d rd h. cc))))

extract_address-IsDefined : (v : List ℕ) (i : ℕ) → IsDefined (extract_address v i)
unfolding extract_address
extract_address-IsDefined v i = bind-IsDefined _ _ (at-IsDefined v i) (λ a ra.
    bind-IsDefined _ _ (at-IsDefined v (suc i)) (λ b rb.
      bind-IsDefined _ _ (at-IsDefined v (suc (suc i)))
        (λ c rc. bind-IsDefined _ _ (at-IsDefined v (suc (suc (suc i)))) (λ d rd h. cc))))

create_endpoint-IsDefined :
    (type : OptionType) (d : Bool) (a : Payload.Ipv4Address) (protocol port : ℕ)
    → IsDefined (create_endpoint type d a protocol port)
unfolding create_endpoint create_multicast_endpoint
create_endpoint-IsDefined type d a protocol port = ground arith

service_as-IsDefined :
    (type : EntryType) (s n ttl major minor : ℕ) → IsDefined (service_as type s n ttl major minor)
unfolding service_as create_find_service create_offer_service create_stop_offer
service_as-IsDefined type s n ttl major minor = ground arith

eventgroup_as-IsDefined :
    (type : EntryType) (s n ttl major counter id : ℕ)
    → IsDefined (eventgroup_as type s n ttl major counter id)
unfolding eventgroup_as create_subscribe create_unsubscribe new_eventgroup
eventgroup_as-IsDefined type s n ttl major counter id = ground arith

pub add_first_option-IsDefined :
    (e : SdEntry) (o : Options.SdOption) → IsDefined (add_first_option e o)
unfolding add_first_option
add_first_option-IsDefined e o = ground arith

pub add_second_option-IsDefined :
    (e : SdEntry) (o : Options.SdOption) → IsDefined (add_second_option e o)
unfolding add_second_option
add_second_option-IsDefined e o = ground arith

deserialize_option_as-IsDefined :
    (type : Option OptionType) (d : Bool) (v : List ℕ) (i : ℕ)
    → IsDefined (deserialize_endpoint v i ipv4_endpoint d)
    → IsDefined (deserialize_endpoint v i ipv4_multicast d)
    → IsDefined (deserialize_endpoint v i ipv4_sd_endpoint d)
    → IsDefined (deserialize_balancing v i d)
    → IsDefined (Options.deserialize_as type d v i)
unfolding Options.deserialize_as
deserialize_option_as-IsDefined type d v i unicast multicast sd balancing = ground arith

deserialize_endpoint-IsDefined :
    (v : List ℕ) (i : ℕ) (type : OptionType) (d : Bool)
    → IsDefined (deserialize_endpoint v i type d)
unfolding deserialize_endpoint
deserialize_endpoint-IsDefined v i type d =
    bind-IsDefined _ _ (extract_address-IsDefined v i) (λ a ra.
      bind-IsDefined _ _ (at-IsDefined v (suc a.1)) (λ protocol rp.
        bind-IsDefined _ _ (extract_short-IsDefined v (suc (suc a.1))) (λ port rs.
          bind-IsDefined _ _ (create_endpoint-IsDefined type d a.0 protocol port.0)
            (λ o ro h. cc))))

deserialize_balancing-IsDefined :
    (v : List ℕ) (i : ℕ) (d : Bool) → IsDefined (deserialize_balancing v i d)
unfolding deserialize_balancing
deserialize_balancing-IsDefined v i d =
    bind-IsDefined _ _ (extract_short-IsDefined v i)
      (λ priority rp. bind-IsDefined _ _ (extract_short-IsDefined v priority.1) (λ weight re h. cc))

pub deserialize_option-IsDefined : (v : List ℕ) (i : ℕ) → IsDefined (deserialize_option v i)
unfolding deserialize_option
deserialize_option-IsDefined v i = bind-IsDefined _ _ (at-IsDefined v (suc (suc i))) (λ type rt.
    bind-IsDefined _ _ (at-IsDefined v (suc (suc (suc i)))) (λ d rd.
      let k = suc (suc (suc (suc i))) in
      deserialize_option_as-IsDefined (Options.option_type_of type) (not (d == 0)) v k
        (deserialize_endpoint-IsDefined v k ipv4_endpoint (not (d == 0)))
        (deserialize_endpoint-IsDefined v k ipv4_multicast (not (d == 0)))
        (deserialize_endpoint-IsDefined v k ipv4_sd_endpoint (not (d == 0)))
        (deserialize_balancing-IsDefined v k (not (d == 0)))))

deserialize_service-IsDefined :
    (v : List ℕ) (i : ℕ) (type : EntryType) (s n ttl major : ℕ)
    → IsDefined (deserialize_service v i type s n ttl major)
unfolding deserialize_service
deserialize_service-IsDefined v i type s n ttl major =
    bind-IsDefined _ _ (extract_integer-IsDefined v i) (λ minor rm.
      bind-IsDefined _ _ (service_as-IsDefined type s n ttl major minor.0) (λ e re h. cc))

deserialize_eventgroup-IsDefined :
    (v : List ℕ) (i : ℕ) (type : EntryType) (s n ttl major : ℕ)
    → IsDefined (deserialize_eventgroup v i type s n ttl major)
unfolding deserialize_eventgroup
deserialize_eventgroup-IsDefined v i type s n ttl major =
    bind-IsDefined _ _ (at-IsDefined v (suc i)) (λ counter rc.
      bind-IsDefined _ _ (extract_short-IsDefined v (suc (suc i))) (λ id ri.
        bind-IsDefined _ _ (eventgroup_as-IsDefined type s n ttl major counter id.0)
          (λ e re h. cc)))

deserialize_as-IsDefined :
    (type : Option EntryType) (v : List ℕ) (i s n ttl major : ℕ)
    → IsDefined (deserialize_as type v i s n ttl major)
unfolding deserialize_as
deserialize_as-IsDefined none v i s n ttl major = λ h. cc
deserialize_as-IsDefined (some finding) v i s n ttl major =
    deserialize_service-IsDefined v i finding s n ttl major
deserialize_as-IsDefined (some offering) v i s n ttl major =
    deserialize_service-IsDefined v i offering s n ttl major
deserialize_as-IsDefined (some subscribing) v i s n ttl major =
    deserialize_eventgroup-IsDefined v i subscribing s n ttl major
deserialize_as-IsDefined (some acknowledging) v i s n ttl major =
    deserialize_eventgroup-IsDefined v i acknowledging s n ttl major

pub deserialize_entry-IsDefined : (v : List ℕ) (i : ℕ) → IsDefined (deserialize_entry v i)
unfolding deserialize_entry
deserialize_entry-IsDefined v i = bind-IsDefined _ _ (at-IsDefined v i) (λ type rt.
    bind-IsDefined _ _ (at-IsDefined v (suc (suc (suc i)))) (λ sizes rs.
      bind-IsDefined _ _ (extract_short-IsDefined v (suc (suc (suc (suc i))))) (λ s rv.
        bind-IsDefined _ _ (extract_short-IsDefined v s.1) (λ n rn.
          bind-IsDefined _ _ (extract_integer-IsDefined v n.1) (λ c rc.
            bind-IsDefined _ _
              (deserialize_as-IsDefined (entry_type_of type) v c.1 s.0 n.0 (bit_and c.0 0x00ffffff)
                (c.0 / 2 ^ 24 % 2 ^ 8))
              (λ e re h. cc))))))
