-- ===== src/Com/Sd/Index.antt =====
-- src/ara/com/someip/sd/someip_sd_message.cpp: the option index that an entry is written with.
use mathlib.Core.List.{append_assoc, append-nil}
use adaptive_autosar.Prelude.{
  ℕ, ◌+◌, ◌*◌, ◌%◌, ◌^◌, ◌<◌, ◌≡◌, refl, ap, ◌∙◌, List, [], ◌∷◌, ◌++◌, arith, length,
}
use adaptive_autosar.Com.Options.{SdOption}
use adaptive_autosar.Com.Entries.{SdEntry, service, eventgroup, base, entry_payload}
use adaptive_autosar.Com.Sd.{write_options, write_entries}

-- The number of options of a list of entries.
unfoldable pub count_all : List SdEntry → ℕ
count_all [] = 0
count_all (e ∷ es) = length (base e).first_options + length (base e).second_options + count_all es

-- The index byte of the entry after `es`, when the entries are written from `index` on.
index_after : ℕ → List SdEntry → ℕ
index_after index [] = index
index_after index (e ∷ es) =
    let after_entry = (entry_payload e index).1 in
    let after_first = (write_options after_entry (base e).first_options).1 in
    index_after (write_options after_first (base e).second_options).1 es

write_options-index :
    (index : ℕ) (os : List SdOption)
    → index < 2 ^ 8
    → (write_options index os).1 ≡ (index + length os) % 2 ^ 8
unfolding write_options
write_options-index index [] h = omega arith
write_options-index index (o ∷ os) h =
    omega (arith, write_options-index ((index + 1) % 2 ^ 8) os (omega arith))

entry_payload-index :
    (e : SdEntry) (index : ℕ)
    → index < 2 ^ 8
    → (entry_payload e index).1
      ≡ (index + length (base e).first_options + length (base e).second_options) % 2 ^ 8
unfolding entry_payload
entry_payload-index (service b minor) index h = omega arith
entry_payload-index (eventgroup b counter id) index h = omega arith

-- Every option is counted twice: once where the entry is written, once where its options are.
index_after-count :
    (index : ℕ) (es : List SdEntry)
    → index < 2 ^ 8
    → index_after index es ≡ (index + 2 * count_all es) % 2 ^ 8
unfolding index_after count_all
index_after-count index [] h = omega arith
index_after-count index (e ∷ es) h =
    let after_entry : ℕ = (entry_payload e index).1 in
    let first : List SdOption = (base e).first_options in
    let second : List SdOption = (base e).second_options in
    let after_first : ℕ = (write_options after_entry first).1 in
    let h1 = entry_payload-index e index h in
    let h2 = write_options-index after_entry first (omega (arith, h1)) in
    let h3 = write_options-index after_first second (omega (arith, h2)) in
    omega (
      arith,
      h1,
      h2,
      h3,
      index_after-count (write_options after_first second).1 es (omega (arith, h3)),
    )

write_entries-split :
    (index : ℕ) (es : List SdEntry) (e : SdEntry)
    → (write_entries index (es ++ e ∷ [])).0
      ≡ (write_entries index es).0 ++ (entry_payload e (index_after index es)).0
unfolding write_entries index_after
write_entries-split index [] e = append-nil _
write_entries-split index (x ∷ es) e =
    let after_entry = (entry_payload x index).1 in
    let after_first = (write_options after_entry (base x).first_options).1 in
    rw
      (write_entries-split (write_options after_first (base x).second_options).1 es e, append_assoc)
      refl

-- The entry behind a list of entries is written with an option index of twice the number of their
-- options modulo 256.
write_entries-last :
    (es : List SdEntry) (e : SdEntry)
    → (write_entries 0 (es ++ e ∷ [])).0
      ≡ (write_entries 0 es).0 ++ (entry_payload e (2 * count_all es % 2 ^ 8)).0
unfolding write_entries
write_entries-last es e =
    let index : index_after 0 es ≡ 2 * count_all es % 2 ^ 8 =
      omega (arith, index_after-count 0 es (omega arith)) in
    write_entries-split 0 es e ∙ ap (λ i. (write_entries 0 es).0 ++ (entry_payload e i).0) index
