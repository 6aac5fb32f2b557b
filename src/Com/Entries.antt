-- ===== src/Com/Entries.antt =====
-- src/ara/com/entry: the entries of service discovery messages. The two subclasses of `Entry` are
-- the constructors of `SdEntry`; a virtual method is a function by clauses. A counter that the code
-- keeps in a `uint8_t` wraps at 256. Only the four values of `EntryType` reach an entry: any other
-- byte ends in the `default` of the deserialiser's `switch`.
pub mod Build
pub mod RoundTrip
pub mod Validation
pub mod Complete
use Prim.Native.Nat.{bit_and, bit_or}
use adaptive_autosar.Prelude.{
  ℕ, zero, suc, ◌+◌, ◌*◌, ◌/◌, ◌%◌, ◌^◌, Bool, true, false, not, ◌&&◌, ◌||◌, Option, none, some,
  List, [], ◌∷◌, ◌++◌, Result, ok, throws, out_of_range, invalid_argument, ◌>>=◌, if◌then◌else◌,
  ◌==◌, ltb, length,
}
use adaptive_autosar.Com.Payload.{at, inject_short, inject_integer, extract_short, extract_integer}
use adaptive_autosar.Com.Options.{
  OptionType, configuration, load_balancing, ipv4_endpoint, ipv6_endpoint, ipv4_multicast,
  ipv6_multicast, ipv4_sd_endpoint, ipv6_sd_endpoint, option_type_byte, SdOption, option_type,
}

pub data EntryType : Type 0 where
  finding offering subscribing acknowledging : EntryType

unfoldable pub entry_type_byte : EntryType → ℕ
entry_type_byte finding = 0x00
entry_type_byte offering = 0x01
entry_type_byte subscribing = 0x06
entry_type_byte acknowledging = 0x07

unfoldable pub entry_type_of : ℕ → Option EntryType
entry_type_of b =
    if b == 0x00
    then some finding
    else if b == 0x01
    then some offering
    else if b == 0x06
    then some subscribing
    else if b == 0x07
    then some acknowledging
    else none

-- The members of the base class.
pub record Entry : Type 0 where
  pub type : EntryType
  pub first_options : List SdOption
  pub second_options : List SdOption
  pub service_id : ℕ
  pub instance_id : ℕ
  pub major_version : ℕ
  pub ttl : ℕ

-- A service entry has a minor version; an eventgroup entry a counter and an eventgroup ID.
pub data SdEntry : Type 0 where
  service : Entry → ℕ → SdEntry
  eventgroup : Entry → ℕ → ℕ → SdEntry

abbrev pub base : SdEntry → Entry
base (service e minor) = e
base (eventgroup e counter id) = e

abbrev pub with_base : SdEntry → Entry → SdEntry
with_base (service e minor) e' = service e' minor
with_base (eventgroup e counter id) e' = eventgroup e' counter id

-- Two values of the enumeration are compared by their bytes.
abbrev pub same_type : OptionType → OptionType → Bool
same_type t u = option_type_byte t == option_type_byte u

unfoldable pub any_of_type : List SdOption → OptionType → Bool
any_of_type [] t = false
any_of_type (o ∷ os) t = same_type (option_type o) t || any_of_type os t

unfoldable pub contains_option : Entry → OptionType → Bool
contains_option e t = any_of_type e.first_options t || any_of_type e.second_options t

-- `Entry::ValidateOption`, on the type of the option.
unfoldable pub validate_base : Entry → OptionType → Bool
validate_base e configuration = not (contains_option e configuration)
validate_base e load_balancing = not (contains_option e load_balancing)
validate_base e ipv4_sd_endpoint = false
validate_base e ipv6_sd_endpoint = false
validate_base e _ = true

-- `ServiceEntry::ValidateOption`.
unfoldable pub validate_service : Entry → OptionType → Bool
validate_service e t =
    validate_base e t && (not (same_type t ipv4_multicast) && not (same_type t ipv6_multicast))

abbrev is_type : EntryType → EntryType → Bool
is_type t u = entry_type_byte t == entry_type_byte u

unfoldable pub is_acknowledge : Entry → Bool
is_acknowledge e = is_type e.type acknowledging && ltb 0 e.ttl

-- The `switch` of `EventgroupEntry::ValidateOption`.
unfoldable pub validate_in_group : Entry → OptionType → Bool
unfolding is_acknowledge
validate_in_group e ipv4_endpoint = is_type e.type subscribing
validate_in_group e ipv6_endpoint = is_type e.type subscribing
validate_in_group e ipv4_multicast =
    if is_acknowledge e then not (contains_option e ipv4_multicast) else false
validate_in_group e ipv6_multicast =
    if is_acknowledge e then not (contains_option e ipv6_multicast) else false
validate_in_group e _ = false

unfoldable pub validate_eventgroup : Entry → OptionType → Bool
validate_eventgroup e t = if validate_base e t then validate_in_group e t else false

-- The virtual `ValidateOption`.
unfoldable pub validate_option : SdEntry → SdOption → Bool
unfolding validate_service validate_eventgroup
validate_option (service e minor) o = validate_service e (option_type o)
validate_option (eventgroup e counter id) o = validate_eventgroup e (option_type o)

abbrev pub push_first : Entry → SdOption → Entry
push_first e o = record e { first_options = e.first_options ++ o ∷ [] }

abbrev pub push_second : Entry → SdOption → Entry
push_second e o = record e { second_options = e.second_options ++ o ∷ [] }

unfoldable pub add_first_option : SdEntry → SdOption → Result SdEntry
add_first_option e o =
    if validate_option e o
    then ok (with_base e (push_first (base e) o))
    else throws invalid_argument

unfoldable pub add_second_option : SdEntry → SdOption → Result SdEntry
add_second_option e o =
    if validate_option e o
    then ok (with_base e (push_second (base e) o))
    else throws invalid_argument

-- `Entry::BasePayload`: the bytes, and the option index that the caller's reference is left with.
unfoldable pub base_payload : Entry → ℕ → List ℕ × ℕ
base_payload e option_index =
    let first_size = length e.first_options % 2 ^ 8 in
    let second_index = (option_index + first_size) % 2 ^ 8 in
    let second_size = length e.second_options % 2 ^ 8 in
    let sizes = bit_or (first_size * 2 ^ 4 % 2 ^ 8) second_size in
    (
      entry_type_byte e.type
          ∷ option_index
          ∷ second_index
          ∷ sizes
          ∷ (inject_short e.service_id
              ++ (inject_short e.instance_id
                  ++ inject_integer (bit_or (e.major_version * 2 ^ 24) e.ttl))),
      (second_index + second_size) % 2 ^ 8,
    )

-- The virtual `Payload`.
unfoldable pub entry_payload : SdEntry → ℕ → List ℕ × ℕ
unfolding base_payload
entry_payload (service e minor) option_index =
    let (bytes, index) = base_payload e option_index in (bytes ++ inject_integer minor, index)
entry_payload (eventgroup e counter id) option_index =
    let (bytes, index) = base_payload e option_index in
    (bytes ++ (inject_short counter ++ inject_short id), index)
