-- ===== src/Com/Options/RoundTrip.antt =====
-- src/ara/com/option: what the option deserialiser makes of an option's payload.
use adaptive_autosar.Prelude.{
  ℕ, suc, ◌+◌, ◌^◌, ◌≤◌, ◌<◌, ◌≡◌, ap, refl, Bool, true, false, some, List, ◌∷◌, ◌++◌, not, arith,
  ok, ◌>>=◌, length, ◌==◌,
}
use adaptive_autosar.Com.Payload.{inject_short, inject_address}
use adaptive_autosar.Com.Payload.Laws.{
  Reads, at-Reads, Reads-suc, Reads-two, Reads-four, Reads-short, Reads-address,
  extract_short-Reads, extract_address-Reads,
}
use adaptive_autosar.Com.Options.{
  bool_byte, OptionType, configuration, load_balancing, ipv4_endpoint, ipv4_multicast,
  ipv4_sd_endpoint, option_type_byte, option_type_of, udp, Ipv4EndpointOption, LoadBalancingOption,
  SdOption, endpoint, balancing, option_length, option_payload, create_endpoint,
  deserialize_endpoint, deserialize_balancing, deserialize_as, deserialize_option,
}

pub option_type_of-byte : (t : OptionType) → option_type_of (option_type_byte t) ≡ some t
unfolding option_type_of option_type_byte
option_type_of-byte configuration = refl
option_type_of-byte _ = refl

-- The endpoint options that the creation functions make.
pub data IsEndpoint (o : Ipv4EndpointOption) : Type 0 where
  unicast : o.type ≡ ipv4_endpoint → IsEndpoint o
  sd : o.type ≡ ipv4_sd_endpoint → IsEndpoint o
  multicast :
      o.type ≡ ipv4_multicast
      → 224 ≤ o.ip_address.octet0
      → o.ip_address.octet0 ≤ 239
      → o.l4_proto ≡ udp
      → IsEndpoint o

-- An option as its class builds it, with its numbers within their 16 bits.
abbrev pub IsBuilt : SdOption → Type 0
IsBuilt (endpoint o) = IsEndpoint o × (o.port < 2 ^ 16)
IsBuilt (balancing o) = (o.priority < 2 ^ 16) × (o.weight < 2 ^ 16)

pub length-option_payload : (o : SdOption) → length (option_payload o) ≡ 3 + option_length o
unfolding option_payload inject_short inject_address
length-option_payload (endpoint o) = refl
length-option_payload (balancing o) = refl

create_endpoint_lem :
    (o : Ipv4EndpointOption)
    → IsEndpoint o
    → create_endpoint o.type o.discardable o.ip_address o.l4_proto o.port ≡ ok o
unfolding create_endpoint
create_endpoint_lem o (unicast t) = rw (t, create_endpoint) (ground arith)
create_endpoint_lem o (sd t) = rw (t, create_endpoint) (ground arith)
create_endpoint_lem o (multicast t low high p) = rw (t, create_endpoint) (ground arith)

deserialize_endpoint-Reads :
    (v : List ℕ) (i : ℕ) (o : Ipv4EndpointOption) (rest : List ℕ)
    → IsBuilt (endpoint o)
    → Reads v i (inject_address o.ip_address ++ 0x00 ∷ o.l4_proto ∷ (inject_short o.port ++ rest))
    → deserialize_endpoint v i o.type o.discardable ≡ ok (o, 8 + i)
unfolding deserialize_endpoint
deserialize_endpoint-Reads v i o rest built h =
    let after_ip = Reads-address v i o.ip_address _ h in
    let j = suc (suc (suc (suc i))) in
    let after_reserved = Reads-suc v j 0x00 _ after_ip in
    let after_proto = Reads-suc v (suc j) o.l4_proto _ after_reserved in
    rw
      (
        extract_address-Reads v i o.ip_address _ h,
        at-Reads v (suc j) o.l4_proto _ after_reserved,
        extract_short-Reads v (suc (suc j)) o.port rest built.1 after_proto,
        create_endpoint_lem o built.0,
      )
      (ap (λ (e : ℕ). ok (o, e)) (omega arith))

deserialize_balancing-Reads :
    (v : List ℕ) (i : ℕ) (o : LoadBalancingOption) (rest : List ℕ)
    → IsBuilt (balancing o)
    → Reads v i (inject_short o.priority ++ (inject_short o.weight ++ rest))
    → deserialize_balancing v i o.discardable ≡ ok (o, 4 + i)
unfolding deserialize_balancing
deserialize_balancing-Reads v i o rest built h =
    rw
      (
        extract_short-Reads v i o.priority _ built.0 h,
        extract_short-Reads v _ o.weight rest built.1 (Reads-short v i o.priority _ h),
      )
      (ap (λ (e : ℕ). ok (o, e)) (omega arith))

deserialize_as-endpoint :
    (o : Ipv4EndpointOption) (v : List ℕ) (i : ℕ)
    → IsEndpoint o
    → deserialize_as (some o.type) o.discardable v i
      ≡ (deserialize_endpoint v i o.type o.discardable >>= λ r. ok (endpoint r.0, r.1))
unfolding deserialize_as
deserialize_as-endpoint o v i (unicast t) = rw (t, deserialize_as)
deserialize_as-endpoint o v i (sd t) = rw (t, deserialize_as)
deserialize_as-endpoint o v i (multicast t low high p) = rw (t, deserialize_as)

flag-bool_byte : (d : Bool) → not (bool_byte d == 0) ≡ d
flag-bool_byte true = refl
flag-bool_byte false = refl

-- The header of an option: two bytes that are skipped, the type, the discardable flag.
deserialize_option-header :
    (v : List ℕ) (i high low : ℕ) (t : OptionType) (d : Bool) (rest : List ℕ)
    → Reads v i (high ∷ low ∷ option_type_byte t ∷ bool_byte d ∷ rest)
    → deserialize_option v i ≡ deserialize_as (some t) d v (suc (suc (suc (suc i))))
unfolding deserialize_option
deserialize_option-header v i high low t d rest h =
    let after_length = Reads-two v i high low _ h in
    let after_type = Reads-suc v (suc (suc i)) (option_type_byte t) _ after_length in
    rw
      (
        at-Reads v (suc (suc i)) (option_type_byte t) _ after_length,
        at-Reads v (suc (suc (suc i))) (bool_byte d) rest after_type,
        option_type_of-byte t,
      )
      (ap (λ e. deserialize_as (some t) e v (suc (suc (suc (suc i))))) (flag-bool_byte d))

-- Where a vector holds the bytes of a built option, OptionDeserializer reads it back and stops
-- behind it.
pub deserialize_option-payload :
    (v : List ℕ) (i : ℕ) (o : SdOption) (rest : List ℕ)
    → IsBuilt o
    → Reads v i (option_payload o ++ rest)
    → deserialize_option v i ≡ ok (o, 3 + option_length o + i)
unfolding option_payload deserialize_as inject_short inject_address
deserialize_option-payload v i (endpoint o) rest built h =
    let j = suc (suc (suc (suc i))) in
    let after_header = Reads-four v i _ _ _ _ _ h in
    rw
      (
        deserialize_option-header v i _ _ o.type o.discardable _ h,
        deserialize_as-endpoint o v j built.0,
        deserialize_endpoint-Reads v j o rest built after_header,
      )
      (ap (λ (e : ℕ). ok (endpoint o, e)) (omega arith))
deserialize_option-payload v i (balancing o) rest built h =
    let j = suc (suc (suc (suc i))) in
    let after_header = Reads-four v i _ _ _ _ _ h in
    rw
      (
        deserialize_option-header v i _ _ load_balancing o.discardable _ h,
        deserialize_as,
        deserialize_balancing-Reads v j o rest built after_header,
      )
      (ap (λ (e : ℕ). ok (balancing o, e)) (omega arith))
