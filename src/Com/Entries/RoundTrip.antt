-- ===== src/Com/Entries/RoundTrip.antt =====
-- src/ara/com/entry: what the entry deserialiser makes of an entry's payload.
use Prim.Native.Nat.{bit_and, bit_or}
use adaptive_autosar.Prelude.{
  ℕ, suc, ap, ◌+◌, ◌*◌, ◌/◌, ◌%◌, ◌^◌, ◌≤◌, ◌<◌, ◌≡◌, ◌≢◌, refl, some, List, [], ◌∷◌, ◌++◌, arith,
  ok, ◌>>=◌, length, bit_or_shifted, bit_and_mask,
}
use adaptive_autosar.Com.Payload.{inject_short, inject_integer}
use adaptive_autosar.Com.Payload.Laws.{
  Reads, at-Reads, Reads-suc, Reads-two, Reads-four, Reads-short, Reads-integer,
  extract_short-Reads, extract_integer-Reads,
}
use adaptive_autosar.Com.Entries.{
  EntryType, finding, offering, subscribing, acknowledging, entry_type_byte, entry_type_of, Entry,
  SdEntry, service, eventgroup, base, with_base, entry_payload,
}
use adaptive_autosar.Com.Entries.Build.{
  deserialize_service, deserialize_eventgroup, service_as, eventgroup_as, deserialize_as,
  deserialize_entry, counter_max, new_entry,
}

pub entry_type_of-byte : (t : EntryType) → entry_type_of (entry_type_byte t) ≡ some t
unfolding entry_type_of entry_type_byte
entry_type_of-byte finding = refl
entry_type_of-byte _ = refl

-- The types and lifetimes that the creation functions give.
pub data IsServiceKind (e : Entry) : Type 0 where
  finds : e.type ≡ finding → e.ttl ≢ 0 → IsServiceKind e
  offers : e.type ≡ offering → IsServiceKind e

pub data IsEventgroupKind (e : Entry) : Type 0 where
  subscribes : e.type ≡ subscribing → e.ttl ≡ 0xffffff → IsEventgroupKind e
  unsubscribes : e.type ≡ subscribing → e.ttl ≡ 0 → IsEventgroupKind e
  acknowledges : e.type ≡ acknowledging → IsEventgroupKind e

-- The fields fit their places in the payload.
pub record FitsFields (e : Entry) : Type 0 where
  pub few_first : length e.first_options < 16
  pub few_second : length e.second_options < 16
  pub service_fits : e.service_id < 2 ^ 16
  pub instance_fits : e.instance_id < 2 ^ 16
  pub major_fits : e.major_version < 2 ^ 8
  pub ttl_fits : e.ttl < 2 ^ 24

abbrev pub IsSound : SdEntry → Type 0
IsSound (service e minor) = FitsFields e × IsServiceKind e × (minor < 2 ^ 32)
IsSound (eventgroup e counter id) =
    FitsFields e × IsEventgroupKind e × (counter ≤ counter_max) × (id < 2 ^ 16)

-- The entry without its options.
abbrev pub bare : SdEntry → SdEntry
bare e = with_base e (record (base e) { first_options = []; second_options = [] })

combined_version :
    (major ttl : ℕ)
    → major < 2 ^ 8
    → ttl < 2 ^ 24
    → let c = bit_or (major * 2 ^ 24) ttl in
      (c < 2 ^ 32) × (c / 2 ^ 24 % 2 ^ 8 ≡ major) × (bit_and c 0x00ffffff ≡ ttl)
combined_version major ttl hm ht =
    let sum = bit_or_shifted 24 major ttl ht in
    let masked = bit_and_mask 24 (bit_or (major * 2 ^ 24) ttl) in
    (omega (arith, sum), omega (arith, sum), omega (arith, sum, masked))

combined_sizes :
    (first second : ℕ)
    → first < 16
    → second < 16
    → let c = bit_or (first % 2 ^ 8 * 2 ^ 4 % 2 ^ 8) (second % 2 ^ 8) in
      (c / 2 ^ 4 ≡ first) × (bit_and c 0x0f ≡ second)
combined_sizes first second hf hs =
    let wraps : first % 2 ^ 8 * 2 ^ 4 % 2 ^ 8 ≡ first * 2 ^ 4 = omega arith in
    let fits : second % 2 ^ 8 ≡ second = omega arith in
    let sum = bit_or_shifted 4 first second hs in
    let masked = bit_and_mask 4 (bit_or (first * 2 ^ 4) second) in
    rw (wraps, fits) (omega (arith, sum), omega (arith, sum, masked))

service_as_lem :
    (e : Entry) (minor : ℕ)
    → IsServiceKind e
    → service_as e.type e.service_id e.instance_id e.ttl e.major_version minor
      ≡ ok (bare (service e minor))
unfolding service_as new_entry
service_as_lem e minor (finds t h) = ground arith
service_as_lem e minor (offers t) = ground arith

eventgroup_as_lem :
    (e : Entry) (counter id : ℕ)
    → IsEventgroupKind e
    → counter ≤ counter_max
    → eventgroup_as e.type e.service_id e.instance_id e.ttl e.major_version counter id
      ≡ ok (bare (eventgroup e counter id))
unfolding eventgroup_as
eventgroup_as_lem e counter id (subscribes t u) h = ground arith
eventgroup_as_lem e counter id (unsubscribes t u) h = ground arith
eventgroup_as_lem e counter id (acknowledges t) h = ground arith

-- The twelve bytes that all entries share, and what is read from them.
deserialize_entry-header :
    (v : List ℕ) (i a b : ℕ) (e : Entry) (rest : List ℕ)
    → FitsFields e
    → Reads v i (
        entry_type_byte e.type
        ∷ a
        ∷ b
        ∷ bit_or (length e.first_options % 2 ^ 8 * 2 ^ 4 % 2 ^ 8) (length e.second_options % 2 ^ 8)
        ∷ (inject_short e.service_id
            ++ (inject_short e.instance_id
                ++ (inject_integer (bit_or (e.major_version * 2 ^ 24) e.ttl) ++ rest))))
    → (deserialize_entry v i ≡ (
        deserialize_as
          (some e.type)
          v
          (suc (suc (suc (suc (suc (suc (suc (suc (suc (suc (suc (suc i))))))))))))
          e.service_id
          e.instance_id
          e.ttl
          e.major_version
        >>= λ r. ok (record {
          entry = r.0;
          first_count = length e.first_options;
          second_count = length e.second_options;
          end = r.1;
        })))
      × Reads v (suc (suc (suc (suc (suc (suc (suc (suc (suc (suc (suc (suc i)))))))))))) rest
unfolding deserialize_entry
deserialize_entry-header v i a b e rest fits h =
    let j = suc (suc (suc (suc i))) in
    let at_sizes = Reads-suc v (suc (suc i)) b _ (Reads-two v i _ a _ h) in
    let at_service = Reads-four v i _ a b _ _ h in
    let at_instance = Reads-short v j e.service_id _ at_service in
    let at_combined = Reads-short v (suc (suc j)) e.instance_id _ at_instance in
    let at_rest = Reads-integer v (suc (suc (suc (suc j)))) _ rest at_combined in
    let version = combined_version e.major_version e.ttl fits.major_fits fits.ttl_fits in
    let sizes =
      combined_sizes (length e.first_options) (length e.second_options) fits.few_first
        fits.few_second in
    (
      rw (
        at-Reads v i _ _ h,
        at-Reads v (suc (suc (suc i))) _ _ at_sizes,
        extract_short-Reads v j e.service_id _ fits.service_fits at_service,
        extract_short-Reads v (suc (suc j)) e.instance_id _ fits.instance_fits at_instance,
        extract_integer-Reads v (suc (suc (suc (suc j)))) _ rest version.0 at_combined,
        entry_type_of-byte e.type,
        version.1,
        version.2,
        sizes.0,
        sizes.1,
      ),
      at_rest,
    )

as_service :
    (e : Entry) (v : List ℕ) (i : ℕ)
    → IsServiceKind e
    → deserialize_as (some e.type) v i e.service_id e.instance_id e.ttl e.major_version
      ≡ deserialize_service v i e.type e.service_id e.instance_id e.ttl e.major_version
unfolding deserialize_as
as_service e v i (finds t h) = rw (t, deserialize_as)
as_service e v i (offers t) = rw (t, deserialize_as)

as_eventgroup :
    (e : Entry) (v : List ℕ) (i : ℕ)
    → IsEventgroupKind e
    → deserialize_as (some e.type) v i e.service_id e.instance_id e.ttl e.major_version
      ≡ deserialize_eventgroup v i e.type e.service_id e.instance_id e.ttl e.major_version
unfolding deserialize_as
as_eventgroup e v i (subscribes t u) = rw (t, deserialize_as)
as_eventgroup e v i (unsubscribes t u) = rw (t, deserialize_as)
as_eventgroup e v i (acknowledges t) = rw (t, deserialize_as)

deserialize_service-Reads :
    (v : List ℕ) (i : ℕ) (e : Entry) (minor : ℕ) (rest : List ℕ)
    → IsSound (service e minor)
    → Reads v i (inject_integer minor ++ rest)
    → deserialize_as (some e.type) v i e.service_id e.instance_id e.ttl e.major_version
      ≡ ok (bare (service e minor), suc (suc (suc (suc i))))
unfolding deserialize_service
deserialize_service-Reads v i e minor rest sound h = rw (
  as_service e v i sound.1,
  extract_integer-Reads v i minor rest sound.2 h,
  service_as_lem e minor sound.1,
)

deserialize_eventgroup-Reads :
    (v : List ℕ) (i : ℕ) (e : Entry) (counter id : ℕ) (rest : List ℕ)
    → IsSound (eventgroup e counter id)
    → Reads v i (inject_short counter ++ (inject_short id ++ rest))
    → deserialize_as (some e.type) v i e.service_id e.instance_id e.ttl e.major_version
      ≡ ok (bare (eventgroup e counter id), suc (suc (suc (suc i))))
unfolding deserialize_eventgroup inject_short
deserialize_eventgroup-Reads v i e counter id rest sound h =
    let low : counter % 2 ^ 8 ≡ counter = omega (arith, sound.2) in
    let at_counter = Reads-suc v i _ _ h in
    let at_id = Reads-suc v (suc i) _ _ at_counter in
    rw (
      as_eventgroup e v i sound.1,
      at-Reads v (suc i) _ _ at_counter,
      low,
      extract_short-Reads v (suc (suc i)) id rest sound.3 at_id,
      eventgroup_as_lem e counter id sound.1 sound.2,
    )

-- Where a vector holds the bytes of a sound entry, EntryDeserializer reads it back, without its
-- options but with their numbers, and stops sixteen bytes on.
pub deserialize_entry-payload :
    (v : List ℕ) (i index : ℕ) (e : SdEntry) (rest : List ℕ)
    → IsSound e
    → Reads v i ((entry_payload e index).0 ++ rest)
    → (deserialize_entry v i
        ≡ ok (record {
          entry = bare e;
          first_count = length (base e).first_options;
          second_count = length (base e).second_options;
          end = 16 + i;
        }))
      × Reads v (16 + i) rest
unfolding entry_payload inject_short inject_integer
deserialize_entry-payload v i index (service e minor) rest sound h =
    let j = suc (suc (suc (suc (suc (suc (suc (suc (suc (suc (suc (suc i))))))))))) in
    let (header, at_rest) = deserialize_entry-header v i _ _ e _ sound.0 h in
    let shift : suc (suc (suc (suc j))) ≡ 16 + i = omega arith in
    (
      rw (header, deserialize_service-Reads v j e minor rest sound at_rest)
          (ap
            (λ (n : ℕ). ok (record {
              entry = bare (service e minor);
              first_count = length e.first_options;
              second_count = length e.second_options;
              end = n;
            }))
            shift),
      rw (← shift) (Reads-integer v j minor rest at_rest),
    )
deserialize_entry-payload v i index (eventgroup e counter id) rest sound h =
    let j = suc (suc (suc (suc (suc (suc (suc (suc (suc (suc (suc (suc i))))))))))) in
    let (header, at_rest) = deserialize_entry-header v i _ _ e _ sound.0 h in
    let shift : suc (suc (suc (suc j))) ≡ 16 + i = omega arith in
    (
      rw (header, deserialize_eventgroup-Reads v j e counter id rest sound at_rest)
          (ap
            (λ (n : ℕ). ok (record {
              entry = bare (eventgroup e counter id);
              first_count = length e.first_options;
              second_count = length e.second_options;
              end = n;
            }))
            shift),
      rw (← shift) (Reads-four v j _ _ _ _ rest at_rest),
    )
