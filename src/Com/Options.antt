-- ===== src/Com/Options.antt =====
-- src/ara/com/option: the options of service discovery entries, and their deserialiser.
-- The class hierarchy is the data type `SdOption`. A layer-4 protocol is kept as its byte, since
-- `static_cast` to the enumeration keeps any byte; an option type outside the enumeration only
-- reaches the `default` of a `switch`.
pub mod RoundTrip
use Prim.Native.Nat.{bit_or}
use adaptive_autosar.Prelude.{
  ℕ, zero, suc, ◌+◌, ◌*◌, ◌/◌, ◌%◌, ◌^◌, Bool, true, false, not, ◌||◌, Option, none, some, List, [],
  ◌∷◌, ◌++◌, Result, ok, throws, out_of_range, invalid_argument, ◌>>=◌, if◌then◌else◌, ◌==◌, ltb,
}
use adaptive_autosar.Com.Payload.{
  at, inject_short, extract_short, Ipv4Address, inject_address, extract_address,
}

pub data OptionType : Type 0 where
  configuration load_balancing ipv4_endpoint ipv6_endpoint : OptionType
  ipv4_multicast ipv6_multicast ipv4_sd_endpoint ipv6_sd_endpoint : OptionType

-- The enumeration's values.
unfoldable pub option_type_byte : OptionType → ℕ
option_type_byte configuration = 0x01
option_type_byte load_balancing = 0x02
option_type_byte ipv4_endpoint = 0x04
option_type_byte ipv6_endpoint = 0x06
option_type_byte ipv4_multicast = 0x14
option_type_byte ipv6_multicast = 0x16
option_type_byte ipv4_sd_endpoint = 0x24
option_type_byte ipv6_sd_endpoint = 0x26

-- `static_cast<OptionType>`, where the byte names a value of the enumeration.
unfoldable pub option_type_of : ℕ → Option OptionType
option_type_of b =
    if b == 0x01
    then some configuration
    else if b == 0x02
    then some load_balancing
    else if b == 0x04
    then some ipv4_endpoint
    else if b == 0x06
    then some ipv6_endpoint
    else if b == 0x14
    then some ipv4_multicast
    else if b == 0x16
    then some ipv6_multicast
    else if b == 0x24
    then some ipv4_sd_endpoint
    else if b == 0x26
    then some ipv6_sd_endpoint
    else none

abbrev pub tcp : ℕ
tcp = 0x06

abbrev pub udp : ℕ
udp = 0x11

pub record Ipv4EndpointOption : Type 0 where
  pub type : OptionType
  pub discardable : Bool
  pub ip_address : Ipv4Address
  pub l4_proto : ℕ
  pub port : ℕ

pub record LoadBalancingOption : Type 0 where
  pub discardable : Bool
  pub priority : ℕ
  pub weight : ℕ

pub data SdOption : Type 0 where
  endpoint : Ipv4EndpointOption → SdOption
  balancing : LoadBalancingOption → SdOption

-- `Option::Type`; the constructor of a load balancing option fixes its type.
unfoldable pub option_type : SdOption → OptionType
option_type (endpoint o) = o.type
option_type (balancing o) = load_balancing

-- The virtual `Length`.
unfoldable pub option_length : SdOption → ℕ
option_length (endpoint o) = 9
option_length (balancing o) = 5

abbrev pub bool_byte : Bool → ℕ
bool_byte true = 1
bool_byte false = 0

unfoldable pub base_payload : ℕ → OptionType → Bool → List ℕ
base_payload length type discardable =
    inject_short length ++ option_type_byte type ∷ bool_byte discardable ∷ []

-- The virtual `Payload`.
unfoldable pub option_payload : SdOption → List ℕ
unfolding base_payload option_length
option_payload (endpoint o) =
    base_payload (option_length (endpoint o)) o.type o.discardable
    ++ (inject_address o.ip_address ++ (0x00 ∷ o.l4_proto ∷ inject_short o.port))
option_payload (balancing o) =
    base_payload (option_length (balancing o)) load_balancing o.discardable
    ++ (inject_short o.priority ++ inject_short o.weight)

unfoldable pub create_unicast_endpoint : Bool → Ipv4Address → ℕ → ℕ → Ipv4EndpointOption
create_unicast_endpoint discardable ip protocol port = record {
  type = ipv4_endpoint;
  discardable = discardable;
  ip_address = ip;
  l4_proto = protocol;
  port = port;
}

unfoldable pub create_multicast_endpoint : Bool → Ipv4Address → ℕ → Result Ipv4EndpointOption
create_multicast_endpoint discardable ip port =
    if ltb ip.octet0 224 || ltb 239 ip.octet0
    then throws invalid_argument
    else ok (record {
      type = ipv4_multicast;
      discardable = discardable;
      ip_address = ip;
      l4_proto = udp;
      port = port;
    })

unfoldable pub create_sd_endpoint : Bool → Ipv4Address → ℕ → ℕ → Ipv4EndpointOption
create_sd_endpoint discardable ip protocol port = record {
  type = ipv4_sd_endpoint;
  discardable = discardable;
  ip_address = ip;
  l4_proto = protocol;
  port = port;
}

-- The `switch` of `Ipv4EndpointOption::Deserialize`.
unfoldable pub create_endpoint : OptionType → Bool → Ipv4Address → ℕ → ℕ → Result Ipv4EndpointOption
unfolding create_unicast_endpoint create_multicast_endpoint create_sd_endpoint
create_endpoint ipv4_endpoint d ip protocol port = ok (create_unicast_endpoint d ip protocol port)
create_endpoint ipv4_multicast d ip protocol port = create_multicast_endpoint d ip port
create_endpoint ipv4_sd_endpoint d ip protocol port = ok (create_sd_endpoint d ip protocol port)
create_endpoint _ d ip protocol port = throws out_of_range

unfoldable pub deserialize_endpoint :
    List ℕ → ℕ → OptionType → Bool → Result (Ipv4EndpointOption × ℕ)
unfolding create_endpoint
deserialize_endpoint v offset type discardable = do
  (ip, after_ip) ← extract_address v offset
  protocol ← at v (suc after_ip)
  (port, end) ← extract_short v (suc (suc after_ip))
  option ← create_endpoint type discardable ip protocol port
  ok (option, end)

unfoldable pub deserialize_balancing : List ℕ → ℕ → Bool → Result (LoadBalancingOption × ℕ)
deserialize_balancing v offset discardable = do
  (priority, after_priority) ← extract_short v offset
  (weight, end) ← extract_short v after_priority
  ok (record { discardable = discardable; priority = priority; weight = weight }, end)

abbrev as_endpoint : Result (Ipv4EndpointOption × ℕ) → Result (SdOption × ℕ)
as_endpoint r = do (o, end) ← r; ok (endpoint o, end)

abbrev as_balancing : Result (LoadBalancingOption × ℕ) → Result (SdOption × ℕ)
as_balancing r = do (o, end) ← r; ok (balancing o, end)

-- The `switch` of `OptionDeserializer::Deserialize`.
unfoldable pub deserialize_as : Option OptionType → Bool → List ℕ → ℕ → Result (SdOption × ℕ)
deserialize_as (some ipv4_endpoint) d v offset =
    as_endpoint (deserialize_endpoint v offset ipv4_endpoint d)
deserialize_as (some ipv4_multicast) d v offset =
    as_endpoint (deserialize_endpoint v offset ipv4_multicast d)
deserialize_as (some ipv4_sd_endpoint) d v offset =
    as_endpoint (deserialize_endpoint v offset ipv4_sd_endpoint d)
deserialize_as (some load_balancing) d v offset = as_balancing (deserialize_balancing v offset d)
deserialize_as _ d v offset = throws out_of_range

-- `OptionDeserializer::Deserialize`. The two bytes of the length field are skipped, not read.
unfoldable pub deserialize_option : List ℕ → ℕ → Result (SdOption × ℕ)
deserialize_option v offset = do
  type ← at v (suc (suc offset))
  discardable ← at v (suc (suc (suc offset)))
  deserialize_as (option_type_of type) (not (discardable == 0)) v (suc (suc (suc (suc offset))))
