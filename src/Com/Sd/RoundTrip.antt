-- ===== src/Com/Sd/RoundTrip.antt =====
-- src/ara/com/someip/sd/someip_sd_message.cpp: `Deserialize` on what `Payload` writes.
use adaptive_autosar.Prelude.{
  ℕ, zero, suc, ◌+◌, ◌*◌, ◌%◌, ◌^◌, ◌<◌, ◌≡◌, refl, ap, Bool, true, false, some, List, [], ◌∷◌,
  ◌++◌, arith, Result, ok, >>=-eq-ok, length, ltb,
}
use mathlib.Core.List.{append_assoc, append-nil}
use adaptive_autosar.Com.Payload.{inject_integer}
use adaptive_autosar.Com.Payload.Laws.{Reads, Reads-append, Reads-integer, extract_integer-Reads}
use adaptive_autosar.Com.Options.{SdOption, option_length, option_payload}
use adaptive_autosar.Com.Options.RoundTrip.{
  IsBuilt, length-option_payload, deserialize_option-payload,
}
use adaptive_autosar.Com.Entries.{SdEntry, base, entry_payload, add_first_option, add_second_option}
use adaptive_autosar.Com.Entries.RoundTrip.{IsSound, bare, deserialize_entry-payload}
use adaptive_autosar.Com.Entries.Validation.{IsWithin}
use adaptive_autosar.Com.Entries.Complete.{add_list, add_list-IsWithin}
use adaptive_autosar.Com.Message.{header_payload, deserialize_header}
use adaptive_autosar.Com.Message.Header.{
  FitsHeader, length-header_payload, deserialize_header-payload,
}
use adaptive_autosar.Com.Sd.Size.{length-write_options, length-write_entries, length-sd_payload}
use adaptive_autosar.Com.Sd.{
  Start, SomeIpSdMessage, entries_length, options_length, sd_length, options_size,
  entries_options_size, write_options, write_entries, reboot_flag, reboot_flag_of, sd_payload,
  read_options, read_entry, read_entries, prepend, read_start, read_rest, deserialize,
}

abbrev pub AllBuilt : List SdOption → Type 0
AllBuilt [] = Unit {0}
AllBuilt (o ∷ os) = IsBuilt o × AllBuilt os

read_options-write :
    (add : SdEntry → SdOption → Result SdEntry) (v : List ℕ) (i index : ℕ) (e : SdEntry)
    (os : List SdOption) (rest : List ℕ) {e' : SdEntry}
    → AllBuilt os
    → add_list add e os ≡ ok e'
    → Reads v i ((write_options index os).0 ++ rest)
    → read_options (length os) add v i e ≡ ok (e', options_size os + i)
unfolding read_options write_options options_size add_list
read_options-write add v i index e [] rest built h r = ground arith
read_options-write add v i index e (o ∷ os) rest {e'} built h r =
    let (next, added, later) = >>=-eq-ok (add e o) _ h in
    let here = rw append_assoc at r in
    let j = 3 + option_length o + i in
    let after = rw (length-option_payload o) at (Reads-append v i (option_payload o) _ here) in
    rw
      (
        deserialize_option-payload v i o _ built.0 here,
        added,
        read_options-write add v j ((index + 1) % 2 ^ 8) next os rest built.1 later after,
      )
      (ap (λ (n : ℕ). ok (e', n)) (omega arith))

Reads-write_options :
    (v : List ℕ) (i index : ℕ) (os : List SdOption) (rest : List ℕ)
    → Reads v i ((write_options index os).0 ++ rest)
    → Reads v (options_size os + i) rest
Reads-write_options v i index os rest h =
    rw (← length-write_options index os) (Reads-append v i (write_options index os).0 rest h)

-- An entry that its class can build: sound fields, built options, within their limits.
pub record IsAdmitted (e : SdEntry) : Type 0 where
  pub sound : IsSound e
  pub first_built : AllBuilt (base e).first_options
  pub second_built : AllBuilt (base e).second_options
  pub within : IsWithin e

-- The bytes of an entry's two runs of options, written after the entry.
abbrev first_bytes : ℕ → SdEntry → List ℕ
first_bytes index e = (write_options (entry_payload e index).1 (base e).first_options).0

abbrev second_bytes : ℕ → SdEntry → List ℕ
second_bytes index e =
    (write_options (write_options (entry_payload e index).1 (base e).first_options).1
      (base e).second_options).0

read_entry-write :
    (v : List ℕ) (i j index : ℕ) (e : SdEntry) (rest rest' : List ℕ)
    → IsAdmitted e
    → Reads v i ((entry_payload e index).0 ++ rest)
    → Reads v j (first_bytes index e ++ (second_bytes index e ++ rest'))
    → (read_entry v i j
        ≡ ok (record {
          entry = e;
          entry_offset = 16 + i;
          option_offset =
              options_size (base e).first_options + options_size (base e).second_options + j;
        }))
      × Reads v (16 + i) rest
      × Reads v
          (options_size (base e).first_options + options_size (base e).second_options + j)
          rest'
unfolding read_entry
read_entry-write v i j index e rest rest' ok_e h r =
    let (read, at_rest) = deserialize_entry-payload v i index e rest ok_e.sound h in
    let k = options_size (base e).first_options + j in
    let shift : options_size (base e).second_options + k
        ≡ options_size (base e).first_options + options_size (base e).second_options + j =
      omega arith in
    let (with_first, firsts, seconds) = >>=-eq-ok _ _ (add_list-IsWithin e ok_e.within) in
    let second_here = Reads-write_options v j _ (base e).first_options _ r in
    let end = Reads-write_options v k _ (base e).second_options rest' second_here in
    (
      rw (
        read,
        read_options-write add_first_option v j _ (bare e) (base e).first_options _ ok_e.first_built
            firsts r,
        read_options-write add_second_option v k _ with_first (base e).second_options rest'
            ok_e.second_built seconds second_here,
        shift,
      ),
      at_rest,
      rw (← shift) end,
    )

abbrev pub AllAdmitted : List SdEntry → Type 0
AllAdmitted [] = Unit {0}
AllAdmitted (e ∷ es) = IsAdmitted e × AllAdmitted es

read_entries-write :
    (fuel : ℕ) (v : List ℕ) (max i j index : ℕ) (es : List SdEntry) (rest rest' : List ℕ)
    → AllAdmitted es
    → length es < fuel
    → i + 16 * length es ≡ max
    → Reads v i ((write_entries index es).0 ++ rest)
    → Reads v j ((write_entries index es).1 ++ rest')
    → read_entries fuel v max i j ≡ some (ok es)
unfolding read_entries write_entries
read_entries-write zero v max i j index es rest rest' admitted enough e h r = absurd (omega arith)
read_entries-write (suc fuel) v max i j index [] rest rest' admitted enough e h r =
    let stop : ltb i max ≡ false = ground arith in rw (stop, read_entries)
read_entries-write (suc fuel) v max i j index (x ∷ es) rest rest' admitted enough e h r =
    let go : ltb i max ≡ true = ground arith in
    let here = rw append_assoc at h in
    let options_here = simp append_assoc at r in
    let (read, next, next') = read_entry-write v i j index x _ _ admitted.0 here options_here in
    rw (go, read_entries, read)
      (ap (prepend x) (
        read_entries-write fuel v max (16 + i) _ _ es rest rest' admitted.1 (omega arith)
          (omega arith) next next'))

-- A message whose fields fit and whose size does not overflow its 32-bit length.
pub record IsSendable (m : SomeIpSdMessage) : Type 0 where
  pub header_fits : FitsHeader m.header
  pub admitted : AllAdmitted m.entries
  pub size_fits : 28 + 16 * length m.entries + entries_options_size m.entries < 2 ^ 32

reboot_flag_of-flag : (b : Bool) → reboot_flag_of (reboot_flag b) ≡ ok b
unfolding reboot_flag_of reboot_flag
reboot_flag_of-flag true = refl
reboot_flag_of-flag false = refl

reboot_flag-lt : (b : Bool) → reboot_flag b < 2 ^ 32
unfolding reboot_flag
reboot_flag-lt true = omega arith
reboot_flag-lt false = omega arith

module _ (m : SomeIpSdMessage) (s : IsSendable m) where
  entries_length-eq : entries_length m ≡ 16 * length m.entries
  unfolding entries_length
  entries_length-eq = omega (arith, s.size_fits)

  options_length-eq : options_length m ≡ entries_options_size m.entries
  unfolding options_length
  options_length-eq = omega (arith, s.size_fits)

  start_of : Start
  start_of = record {
    header = m.header;
    rebooted = m.rebooted;
    entry_offset = 24;
    entries_length = entries_length m;
  }

  after_header : Reads (sd_payload m) 16 (
      inject_integer (reboot_flag m.rebooted)
      ++ (inject_integer (entries_length m)
          ++ ((write_entries 0 m.entries).0
              ++ (inject_integer (options_length m) ++ (write_entries 0 m.entries).1))))
  unfolding sd_payload
  after_header =
      rw (length-header_payload m.header (sd_length m)) at
        (Reads-append (sd_payload m) 0 (header_payload m.header (sd_length m)) _ refl)

  after_lengths : Reads (sd_payload m) 24 (
      (write_entries 0 m.entries).0
      ++ (inject_integer (options_length m) ++ (write_entries 0 m.entries).1))
  after_lengths =
      Reads-integer (sd_payload m) 20 (entries_length m) _
        (Reads-integer (sd_payload m) 16 (reboot_flag m.rebooted) _ after_header)

  at_options :
      Reads (sd_payload m) (24 + entries_length m + 4) ((write_entries 0 m.entries).1 ++ [])
  at_options =
      let bytes = (write_entries 0 m.entries).0 in
      let after_entries = Reads-append (sd_payload m) 24 bytes _ after_lengths in
      let shift : suc (suc (suc (suc (length bytes + 24)))) ≡ 24 + entries_length m + 4 =
        omega (arith, length-write_entries 0 m.entries, entries_length-eq) in
      rw (append-nil, ← shift)
        (Reads-integer (sd_payload m) (length bytes + 24) (options_length m) _ after_entries)

  header_of : deserialize_header (sd_payload m) ≡ ok m.header
  unfolding sd_payload
  header_of = deserialize_header-payload m.header (sd_length m) _ s.header_fits

  read_start-payload : read_start (sd_payload m) ≡ ok start_of
  unfolding read_start start_of
  read_start-payload =
      let small : entries_length m < 2 ^ 32 = omega (arith, entries_length-eq, s.size_fits) in
      rw (
        header_of,
        extract_integer-Reads (sd_payload m) 16 (reboot_flag m.rebooted) _
            (reboot_flag-lt m.rebooted) after_header,
        reboot_flag_of-flag m.rebooted,
        extract_integer-Reads (sd_payload m) 20 (entries_length m) _ small
            (Reads-integer (sd_payload m) 16 (reboot_flag m.rebooted) _ after_header),
      )

  -- A service discovery message whose header fields fit, whose entries were built by the creation
  -- functions from numbers that fit their fields (a time to live below 2^24 among them) with fewer
  -- than 16 options in each run, and whose size fits in 32 bits, is read back whole by Deserialize
  -- from its own Payload.
  pub deserialize-payload : deserialize (sd_payload m) ≡ some (ok m)
  unfolding deserialize read_rest start_of
  deserialize-payload =
      let size = length-sd_payload m in
      let max : 24 + 16 * length m.entries ≡ (24 + entries_length m) % 2 ^ 32 =
        omega (arith, entries_length-eq, s.size_fits) in
      rw (
        read_start-payload,
        deserialize,
        read_entries-write (suc (length (sd_payload m))) (sd_payload m) _ 24 _ 0 m.entries _ []
            s.admitted (omega (arith, size)) max after_lengths at_options,
      )
