-- ===== src/Com/Sd/Size.antt =====
-- src/ara/com/someip/sd/someip_sd_message.cpp: the sizes of what a service discovery message
-- writes, and its length field.
use adaptive_autosar.Prelude.{
  ℕ, ◌+◌, ◌*◌, ◌%◌, ◌^◌, ◌<◌, ◌≡◌, refl, List, [], ◌∷◌, ◌++◌, arith, length, length-append,
}
use adaptive_autosar.Com.Payload.{inject_short, inject_integer}
use adaptive_autosar.Com.Options.{SdOption, option_payload}
use adaptive_autosar.Com.Options.RoundTrip.{length-option_payload}
use adaptive_autosar.Com.Entries.{SdEntry, service, eventgroup, base, entry_payload}
use adaptive_autosar.Com.Message.{header_payload}
use adaptive_autosar.Com.Message.Header.{length-header_payload}
use adaptive_autosar.Com.Sd.{
  SomeIpSdMessage, entries_length, options_length, sd_length, options_size, entries_options_size,
  write_options, write_entries, reboot_flag, sd_payload,
}

pub length-write_options :
    (index : ℕ) (os : List SdOption) → length (write_options index os).0 ≡ options_size os
unfolding write_options options_size
length-write_options index [] = refl
length-write_options index (o ∷ os) = omega (
  arith,
  length-append (option_payload o) (write_options ((index + 1) % 2 ^ 8) os).0,
  length-option_payload o,
  length-write_options ((index + 1) % 2 ^ 8) os,
)

pub length-entry_payload : (e : SdEntry) (index : ℕ) → length (entry_payload e index).0 ≡ 16
unfolding entry_payload inject_short inject_integer
length-entry_payload (service e minor) index = refl
length-entry_payload (eventgroup e counter id) index = refl

pub length-write_entries :
    (index : ℕ) (es : List SdEntry)
    → (length (write_entries index es).0 ≡ 16 * length es)
      × (length (write_entries index es).1 ≡ entries_options_size es)
unfolding write_entries entries_options_size
length-write_entries index [] = (refl, refl)
length-write_entries index (e ∷ es) =
    let (bytes, after_entry) = entry_payload e index in
    let (firsts, after_first) = write_options after_entry (base e).first_options in
    let (seconds, after_second) = write_options after_first (base e).second_options in
    let rest = length-write_entries after_second es in
    (
      omega (
        arith,
        length-append bytes (write_entries after_second es).0,
        length-entry_payload e index,
        rest.0,
      ),
      omega (
        arith,
        length-append firsts (seconds ++ (write_entries after_second es).1),
        length-append seconds (write_entries after_second es).1,
        length-write_options after_entry (base e).first_options,
        length-write_options after_first (base e).second_options,
        rest.1,
      ),
    )

length-inject_integer : (x : ℕ) → length (inject_integer x) ≡ 4
unfolding inject_integer
length-inject_integer x = refl

pub length-sd_payload :
    (m : SomeIpSdMessage)
    → length (sd_payload m) ≡ 28 + 16 * length m.entries + entries_options_size m.entries
unfolding sd_payload
length-sd_payload m = omega (
  arith,
  length-append (header_payload m.header (sd_length m)) _,
  length-append (inject_integer (reboot_flag m.rebooted)) _,
  length-append (inject_integer (entries_length m)) _,
  length-append (write_entries 0 m.entries).0
      (inject_integer (options_length m) ++ (write_entries 0 m.entries).1),
  length-append (inject_integer (options_length m)) (write_entries 0 m.entries).1,
  length-header_payload m.header (sd_length m),
  length-inject_integer (reboot_flag m.rebooted),
  length-inject_integer (entries_length m),
  length-inject_integer (options_length m),
  length-write_entries 0 m.entries,
)

-- The 32-bit length field of a service discovery message is eight less than the size of its
-- payload, when that is below 2^32.
sd_length-payload :
    (m : SomeIpSdMessage) → length (sd_payload m) < 2 ^ 32 → sd_length m + 8 ≡ length (sd_payload m)
unfolding sd_length
sd_length-payload m h = omega (arith, length-sd_payload m)
