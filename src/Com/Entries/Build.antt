-- ===== src/Com/Entries/Build.antt =====
-- src/ara/com/entry: the creation functions of service_entry.cpp and eventgroup_entry.cpp, and the
-- deserialisers.
use Prim.Native.Nat.{bit_and}
use adaptive_autosar.Prelude.{
  ℕ, suc, ◌/◌, ◌%◌, ◌^◌, Option, none, some, List, [], Result, ok, throws, out_of_range,
  invalid_argument, ◌>>=◌, if◌then◌else◌, ◌==◌, ltb,
}
use adaptive_autosar.Com.Payload.{at, extract_short, extract_integer}
use adaptive_autosar.Com.Entries.{
  EntryType, finding, offering, subscribing, acknowledging, entry_type_of, Entry, SdEntry, service,
  eventgroup,
}

-- The constructor `Entry::Entry`: no options yet.
unfoldable pub new_entry : EntryType → ℕ → ℕ → ℕ → ℕ → Entry
new_entry type service_id instance_id ttl major_version = record {
  type = type;
  first_options = [];
  second_options = [];
  service_id = service_id;
  instance_id = instance_id;
  major_version = major_version;
  ttl = ttl;
}

-- The arguments stand in the order of each C++ function.
unfoldable pub create_find_service : ℕ → ℕ → ℕ → ℕ → ℕ → Result SdEntry
create_find_service service_id ttl instance_id major minor =
    if ttl == 0
    then throws invalid_argument
    else ok (service (new_entry finding service_id instance_id ttl major) minor)

unfoldable pub create_offer_service : ℕ → ℕ → ℕ → ℕ → ℕ → Result SdEntry
create_offer_service service_id instance_id major minor ttl =
    if ttl == 0
    then throws invalid_argument
    else ok (service (new_entry offering service_id instance_id ttl major) minor)

unfoldable pub create_stop_offer : ℕ → ℕ → ℕ → ℕ → SdEntry
create_stop_offer service_id instance_id major minor =
    service (new_entry offering service_id instance_id 0x000000 major) minor

abbrev pub counter_max : ℕ
counter_max = 0x0f

-- The constructor `EventgroupEntry::EventgroupEntry`.
unfoldable pub new_eventgroup : EntryType → ℕ → ℕ → ℕ → ℕ → ℕ → ℕ → Result SdEntry
unfolding new_entry
new_eventgroup type service_id instance_id ttl major counter eventgroup_id =
    if ltb counter_max counter
    then throws out_of_range
    else ok (eventgroup (new_entry type service_id instance_id ttl major) counter eventgroup_id)

unfoldable pub create_subscribe : ℕ → ℕ → ℕ → ℕ → ℕ → Result SdEntry
create_subscribe service_id instance_id major counter eventgroup_id =
    new_eventgroup subscribing service_id instance_id 0xffffff major counter eventgroup_id

unfoldable pub create_unsubscribe : ℕ → ℕ → ℕ → ℕ → ℕ → Result SdEntry
create_unsubscribe service_id instance_id major counter eventgroup_id =
    new_eventgroup subscribing service_id instance_id 0x000000 major counter eventgroup_id

-- From the fields of a received eventgroup entry.
unfoldable pub create_acknowledge : Entry → ℕ → ℕ → Result SdEntry
create_acknowledge e counter eventgroup_id =
    new_eventgroup acknowledging e.service_id e.instance_id e.ttl e.major_version counter
      eventgroup_id

unfoldable pub create_negative_acknowledge : Entry → ℕ → ℕ → Result SdEntry
create_negative_acknowledge e counter eventgroup_id =
    new_eventgroup acknowledging e.service_id e.instance_id 0x000000 e.major_version counter
      eventgroup_id

-- The `switch` of `ServiceEntry::Deserialize`.
unfoldable pub service_as : EntryType → ℕ → ℕ → ℕ → ℕ → ℕ → Result SdEntry
unfolding create_find_service create_offer_service create_stop_offer
service_as finding service_id instance_id ttl major minor =
    create_find_service service_id ttl instance_id major minor
service_as offering service_id instance_id ttl major minor =
    if ltb 0 ttl
    then create_offer_service service_id instance_id major minor ttl
    else ok (create_stop_offer service_id instance_id major minor)
service_as _ service_id instance_id ttl major minor = throws out_of_range

unfoldable pub deserialize_service : List ℕ → ℕ → EntryType → ℕ → ℕ → ℕ → ℕ → Result (SdEntry × ℕ)
deserialize_service v offset type service_id instance_id ttl major = do
  (minor, end) ← extract_integer v offset
  entry ← service_as type service_id instance_id ttl major minor
  ok (entry, end)

-- The `switch` of `EventgroupEntry::Deserialize`.
unfoldable pub eventgroup_as : EntryType → ℕ → ℕ → ℕ → ℕ → ℕ → ℕ → Result SdEntry
unfolding create_subscribe create_unsubscribe new_eventgroup
eventgroup_as subscribing service_id instance_id ttl major counter id =
    if ltb 0x000000 ttl
    then create_subscribe service_id instance_id major counter id
    else create_unsubscribe service_id instance_id major counter id
eventgroup_as acknowledging service_id instance_id ttl major counter id =
    new_eventgroup acknowledging service_id instance_id ttl major counter id
eventgroup_as _ service_id instance_id ttl major counter id = throws out_of_range

unfoldable pub deserialize_eventgroup :
    List ℕ → ℕ → EntryType → ℕ → ℕ → ℕ → ℕ → Result (SdEntry × ℕ)
deserialize_eventgroup v offset type service_id instance_id ttl major = do
  counter ← at v (suc offset)
  (id, end) ← extract_short v (suc (suc offset))
  entry ← eventgroup_as type service_id instance_id ttl major counter id
  ok (entry, end)

-- The `switch` of `EntryDeserializer::Deserialize`.
unfoldable pub deserialize_as : Option EntryType → List ℕ → ℕ → ℕ → ℕ → ℕ → ℕ → Result (SdEntry × ℕ)
deserialize_as (some finding) v offset service_id instance_id ttl major =
    deserialize_service v offset finding service_id instance_id ttl major
deserialize_as (some offering) v offset service_id instance_id ttl major =
    deserialize_service v offset offering service_id instance_id ttl major
deserialize_as (some subscribing) v offset service_id instance_id ttl major =
    deserialize_eventgroup v offset subscribing service_id instance_id ttl major
deserialize_as (some acknowledging) v offset service_id instance_id ttl major =
    deserialize_eventgroup v offset acknowledging service_id instance_id ttl major
deserialize_as none v offset service_id instance_id ttl major = throws out_of_range

-- An entry without its options, the numbers of options that follow, and the offset behind it.
pub record ReadEntry : Type 0 where
  pub entry : SdEntry
  pub first_count : ℕ
  pub second_count : ℕ
  pub end : ℕ

-- `EntryDeserializer::Deserialize`. The two index bytes are skipped, not read.
unfoldable pub deserialize_entry : List ℕ → ℕ → Result ReadEntry
deserialize_entry v offset = do
  type ← at v offset
  sizes ← at v (suc (suc (suc offset)))
  (service_id, after_service) ← extract_short v (suc (suc (suc (suc offset))))
  (instance_id, after_instance) ← extract_short v after_service
  (combined, after_combined) ← extract_integer v after_instance
  let major = combined / 2 ^ 24 % 2 ^ 8
  let ttl = bit_and combined 0x00ffffff
  (entry, end) ←
      deserialize_as (entry_type_of type) v after_combined service_id instance_id ttl major
  ok (record {
    entry = entry;
    first_count = sizes / 2 ^ 4;
    second_count = bit_and sizes 0x0f;
    end = end;
  })
