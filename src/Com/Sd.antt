-- ===== src/Com/Sd.antt =====
-- src/ara/com/someip/sd/someip_sd_message.cpp: service discovery messages. The loops over entries
-- and options are recursions on the lists. The reading loop takes fuel, and `none` says that it
-- ran out.
pub mod Size
pub mod RoundTrip
pub mod Fuel
pub mod Defined
pub mod Index
use adaptive_autosar.Prelude.{
  ℕ, zero, suc, ◌+◌, ◌*◌, ◌%◌, ◌^◌, Bool, true, false, not, ◌&&◌, Option, none, some, List, [], ◌∷◌,
  ◌++◌, Result, ok, throws, out_of_range, invalid_argument, ◌>>=◌, if◌then◌else◌, ◌==◌, ltb, length,
}
use adaptive_autosar.Com.Payload.{inject_integer, extract_integer}
use adaptive_autosar.Com.Options.{SdOption, option_length, option_payload, deserialize_option}
use adaptive_autosar.Com.Entries.{SdEntry, base, entry_payload, add_first_option, add_second_option}
use adaptive_autosar.Com.Entries.Build.{ReadEntry, deserialize_entry}
use adaptive_autosar.Com.Message
use adaptive_autosar.Com.Message.{SomeIpMessage, header_payload, deserialize_header}

pub record SomeIpSdMessage : Type 0 where
  pub header : SomeIpMessage
  pub rebooted : Bool
  pub entries : List SdEntry

abbrev pub rebooted_flag : ℕ
rebooted_flag = 0xc0000000

abbrev pub not_rebooted_flag : ℕ
not_rebooted_flag = 0x40000000

-- The default constructor.
unfoldable pub new_sd_message : Result SomeIpSdMessage
new_sd_message = do
  header ← Message.new_message 0xffff8100 0x0000 0x01 0x01 Message.MessageType.notification 1
  ok (record { header = header; rebooted = true; entries = [] })

unfoldable pub add_entry : SomeIpSdMessage → SdEntry → SomeIpSdMessage
add_entry m e = record m { entries = m.entries ++ e ∷ [] }

unfoldable pub set_session_id : SomeIpSdMessage → ℕ → Result SomeIpSdMessage
set_session_id m id =
    if id == 0
    then throws invalid_argument
    else ok (record m { header = record (m.header) { session_id = id } })

unfoldable pub increment_session_id : SomeIpSdMessage → SomeIpSdMessage × Bool
increment_session_id m =
    let (header, wrapped) = Message.increment_session_id m.header in
    (record m { header = header; rebooted = m.rebooted && not wrapped }, wrapped)

unfoldable pub entries_length : SomeIpSdMessage → ℕ
entries_length m = length m.entries % 2 ^ 32 * 16 % 2 ^ 32

-- The sum of `3 + Length()` over options, and over entries.
unfoldable pub options_size : List SdOption → ℕ
options_size [] = 0
options_size (o ∷ os) = 3 + option_length o + options_size os

unfoldable pub entries_options_size : List SdEntry → ℕ
unfolding options_size
entries_options_size [] = 0
entries_options_size (e ∷ es) =
    options_size (base e).first_options
    + options_size (base e).second_options
    + entries_options_size es

unfoldable pub options_length : SomeIpSdMessage → ℕ
unfolding entries_options_size
options_length m = entries_options_size m.entries % 2 ^ 32

-- The virtual `Length`: general header, flags, and two blocks with a length field each.
unfoldable pub sd_length : SomeIpSdMessage → ℕ
unfolding entries_length options_length
sd_length m = (8 + 4 + (4 + entries_length m) + (4 + options_length m)) % 2 ^ 32

-- The inner loops of `Payload`: the bytes, and the option index, a `uint8_t`, after the loop.
unfoldable pub write_options : ℕ → List SdOption → List ℕ × ℕ
write_options index [] = ([], index)
write_options index (o ∷ os) =
    let (bytes, end) = write_options ((index + 1) % 2 ^ 8) os in (option_payload o ++ bytes, end)

-- The outer loop: the bytes of the entries, and of their options.
unfoldable pub write_entries : ℕ → List SdEntry → List ℕ × List ℕ
unfolding write_options
write_entries index [] = ([], [])
write_entries index (e ∷ es) =
    let (entry_bytes, after_entry) = entry_payload e index in
    let (first_bytes, after_first) = write_options after_entry (base e).first_options in
    let (second_bytes, after_second) = write_options after_first (base e).second_options in
    let (entries_bytes, options_bytes) = write_entries after_second es in
    (entry_bytes ++ entries_bytes, first_bytes ++ (second_bytes ++ options_bytes))

unfoldable pub reboot_flag : Bool → ℕ
reboot_flag true = rebooted_flag
reboot_flag false = not_rebooted_flag

-- `SomeIpSdMessage::Payload`.
unfoldable pub sd_payload : SomeIpSdMessage → List ℕ
unfolding write_entries reboot_flag
sd_payload m =
    let (entries_bytes, options_bytes) = write_entries 0 m.entries in
    header_payload m.header (sd_length m)
    ++ (inject_integer (reboot_flag m.rebooted)
        ++ (inject_integer (entries_length m)
            ++ (entries_bytes ++ (inject_integer (options_length m) ++ options_bytes))))

-- The loops that read an entry's options and add them.
unfoldable pub read_options :
    ℕ → (SdEntry → SdOption → Result SdEntry) → List ℕ → ℕ → SdEntry → Result (SdEntry × ℕ)
read_options zero add v offset e = ok (e, offset)
read_options (suc n) add v offset e = do
  (o, after_option) ← deserialize_option v offset
  e' ← add e o
  read_options n add v after_option e'

-- One round of the outer loop: the entry, and the two offsets after it.
pub record Round : Type 0 where
  pub entry : SdEntry
  pub entry_offset : ℕ
  pub option_offset : ℕ

unfoldable pub read_entry : List ℕ → ℕ → ℕ → Result Round
unfolding read_options
read_entry v entry_offset option_offset = do
  r ← deserialize_entry v entry_offset
  (with_first, after_first) ← read_options r.first_count add_first_option v option_offset r.entry
  (entry, after_second) ← read_options r.second_count add_second_option v after_first with_first
  ok (record { entry = entry; entry_offset = r.end; option_offset = after_second })

abbrev pub prepend : SdEntry → Option (Result (List SdEntry)) → Option (Result (List SdEntry))
prepend e none = none
prepend e (some (throws x)) = some (throws x)
prepend e (some (ok es)) = some (ok (e ∷ es))

-- `while (_entryOffset < _entryOffsetMax)`.
unfoldable pub read_entries : ℕ → List ℕ → ℕ → ℕ → ℕ → Option (Result (List SdEntry))
unfolding read_entry
read_entries zero v max entry_offset option_offset = none
read_entries (suc fuel) v max entry_offset option_offset = elim (ltb entry_offset max) [
  | false ↦ some (ok [])
  | true ↦ elim (read_entry v entry_offset option_offset) [
    | throws x ↦ some (throws x)
    | ok r ↦ prepend r.entry (read_entries fuel v max r.entry_offset r.option_offset)
  ]
]

unfoldable pub reboot_flag_of : ℕ → Result Bool
reboot_flag_of flag =
    if flag == rebooted_flag
    then ok true
    else if flag == not_rebooted_flag
    then ok false
    else throws out_of_range

abbrev pub finish :
    SomeIpMessage → Bool → Option (Result (List SdEntry)) → Option (Result SomeIpSdMessage)
finish header rebooted none = none
finish header rebooted (some (throws x)) = some (throws x)
finish header rebooted (some (ok es)) =
    some (ok (record { header = header; rebooted = rebooted; entries = es }))

-- What `Deserialize` reads before the loop.
pub record Start : Type 0 where
  pub header : SomeIpMessage
  pub rebooted : Bool
  pub entry_offset : ℕ
  pub entries_length : ℕ

unfoldable pub read_start : List ℕ → Result Start
unfolding reboot_flag_of
read_start v = do
  header ← deserialize_header v
  (flag, after_flag) ← extract_integer v 16
  rebooted ← reboot_flag_of flag
  (entries_length, after_length) ← extract_integer v after_flag
  ok (record {
    header = header;
    rebooted = rebooted;
    entry_offset = after_length;
    entries_length = entries_length;
  })

-- The loop, from what was read before it. The fuel is one more than the bytes there are.
unfoldable pub read_rest : List ℕ → Start → Option (Result SomeIpSdMessage)
read_rest v s = finish s.header s.rebooted (
    read_entries (suc (length v)) v ((s.entry_offset + s.entries_length) % 2 ^ 32) s.entry_offset
      (s.entry_offset + s.entries_length + 4))

-- `SomeIpSdMessage::Deserialize`.
unfoldable pub deserialize : List ℕ → Option (Result SomeIpSdMessage)
deserialize v = elim (read_start v) [ throws x ↦ some (throws x) | ok s ↦ read_rest v s ]
