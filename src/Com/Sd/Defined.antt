-- ===== src/Com/Sd/Defined.antt =====
-- src/ara/com/someip/sd/someip_sd_message.cpp: Deserialize reads no byte behind the vector's end
-- when there are the bytes of a header.
pub mod Parts
use adaptive_autosar.Prelude.{
  ℕ, zero, suc, ◌+◌, ◌%◌, ◌/◌, ◌^◌, ◌≤◌, ◌<◌, ◌≡◌, ◌≢◌, inl, inr, refl, ap, Bool, some, none,
  Option, List, [], ◌∷◌, arith, not, ◌==◌, ◌∙◌, ◌⊎◌, Fault, Result, ok, throws, undefined, ◌>>=◌,
  length, ltb, Bool-cases, Result-cases,
}
use adaptive_autosar.Com.Payload
use adaptive_autosar.Com.Payload.{
  at, get_unchecked, extract_short, extract_integer, extract_address,
}
use adaptive_autosar.Com.Options
use adaptive_autosar.Com.Options.{
  OptionType, deserialize_option, deserialize_endpoint, deserialize_balancing, create_endpoint,
  create_multicast_endpoint, create_unicast_endpoint, create_sd_endpoint, ipv4_endpoint,
  ipv4_multicast, ipv4_sd_endpoint, load_balancing,
}
use adaptive_autosar.Com.Entries.{
  SdEntry, add_first_option, add_second_option, EntryType, finding, offering, subscribing,
  acknowledging, entry_type_of,
}
use adaptive_autosar.Com.Entries.Build.{
  ReadEntry, deserialize_entry, deserialize_as, deserialize_service, deserialize_eventgroup,
  service_as, eventgroup_as, create_find_service, create_offer_service, create_stop_offer,
  create_subscribe, create_unsubscribe, new_eventgroup,
}
use adaptive_autosar.Com.Message.{SomeIpMessage, deserialize_header}
use Prim.Native.Nat.{bit_and}
use adaptive_autosar.Com.Sd.Fuel.{deserialize-returns, extract_short-end, extract_integer-end}
use adaptive_autosar.Com.Sd.{
  read_options, Round, read_entry, read_entries, prepend, finish, read_start, read_rest,
  reboot_flag_of, deserialize,
}
use adaptive_autosar.Com.Sd.Defined.Parts.{
  IsDefined, bind-IsDefined, get_unchecked-IsDefined, extract_short-IsDefined,
  extract_integer-IsDefined, add_first_option-IsDefined, add_second_option-IsDefined,
  deserialize_option-IsDefined, deserialize_entry-IsDefined,
}

read_options-IsDefined :
    (n : ℕ) (add : SdEntry → Options.SdOption → Result SdEntry) (v : List ℕ) (i : ℕ) (e : SdEntry)
    → ((f : SdEntry) (o : Options.SdOption) → IsDefined (add f o))
    → IsDefined (read_options n add v i e)
unfolding read_options
read_options-IsDefined zero add v i e adds = λ h. cc
read_options-IsDefined (suc n) add v i e adds =
    bind-IsDefined _ _ (deserialize_option-IsDefined v i)
      (λ o ro. bind-IsDefined _ _ (adds e o.0) (λ f rf. read_options-IsDefined n add v o.1 f adds))

read_entry-IsDefined : (v : List ℕ) (i j : ℕ) → IsDefined (read_entry v i j)
unfolding read_entry
read_entry-IsDefined v i j = bind-IsDefined _ _ (deserialize_entry-IsDefined v i) (λ r rr.
    bind-IsDefined _ _
      (read_options-IsDefined r.first_count add_first_option v j r.entry add_first_option-IsDefined)
      (λ first rf.
        bind-IsDefined _ _
          (read_options-IsDefined r.second_count add_second_option v first.1 first.0
            add_second_option-IsDefined)
          (λ second rs h. cc)))

thrown-inj :
    {A : Type 0} {fault : Fault}
    → ◌≡◌ {A = Option (Result A)} (some (throws fault)) (some (throws undefined))
    → fault ≡ undefined
thrown-inj e = cc

prepend_defined :
    (e : SdEntry) (r : Option (Result (List SdEntry)))
    → r ≢ some (throws undefined)
    → prepend e r ≢ some (throws undefined)
prepend_defined e none h k = cc
prepend_defined e (some (throws x)) h k = h k
prepend_defined e (some (ok es)) h k = cc

finish_defined :
    (header : SomeIpMessage) (rebooted : Bool) (r : Option (Result (List SdEntry)))
    → r ≢ some (throws undefined)
    → finish header rebooted r ≢ some (throws undefined)
finish_defined header rebooted none h k = cc
finish_defined header rebooted (some (throws x)) h k = h (cc)
finish_defined header rebooted (some (ok es)) h k = cc

read_entries_defined :
    (fuel : ℕ) (v : List ℕ) (max i j : ℕ) → read_entries fuel v max i j ≢ some (throws undefined)
unfolding read_entries
read_entries_defined zero v max i j = λ h. cc
read_entries_defined (suc fuel) v max i j = elim (Bool-cases (ltb i max)) [
  | inr past ↦ rw (past, read_entries) (λ h. cc)
  | inl below ↦ elim (Result-cases (read_entry v i j)) [
    | inr (x, failed) ↦
        rw (below, failed, read_entries)
          (λ h. read_entry-IsDefined v i j (failed ∙ ap throws (thrown-inj h)))
    | inl (r, read) ↦
        rw (below, read, read_entries)
          (prepend_defined r.entry (read_entries fuel v max r.entry_offset r.option_offset)
            (read_entries_defined fuel v max r.entry_offset r.option_offset))
  ]
]

deserialize_header-IsDefined : (v : List ℕ) → 16 ≤ length v → IsDefined (deserialize_header v)
unfolding deserialize_header
deserialize_header-IsDefined v long = bind-IsDefined _ _ (extract_integer-IsDefined v 0) (λ id ri.
    bind-IsDefined _ _ (extract_short-IsDefined v _) (λ client rc.
      bind-IsDefined _ _ (extract_short-IsDefined v client.1) (λ session rs.
        let e0 = extract_integer-end v 0 ri in
        let e1 = extract_short-end v (suc (suc (suc (suc id.1)))) rc in
        let e2 = extract_short-end v client.1 rs in
        bind-IsDefined _ _ (get_unchecked-IsDefined v session.1 (omega arith)) (λ a ra.
          bind-IsDefined _ _ (get_unchecked-IsDefined v (suc session.1) (omega arith)) (λ b rb.
            bind-IsDefined _ _ (get_unchecked-IsDefined v (suc (suc session.1)) (omega arith))
              (λ c rd.
                bind-IsDefined _ _
                  (get_unchecked-IsDefined v (suc (suc (suc session.1))) (omega arith))
                  (λ d re h. cc)))))))

reboot_flag_of-IsDefined : (flag : ℕ) → IsDefined (reboot_flag_of flag)
unfolding reboot_flag_of
reboot_flag_of-IsDefined flag = ground arith

read_start-IsDefined : (v : List ℕ) → 16 ≤ length v → IsDefined (read_start v)
unfolding read_start
read_start-IsDefined v long = bind-IsDefined _ _ (deserialize_header-IsDefined v long) (λ header rh.
    bind-IsDefined _ _ (extract_integer-IsDefined v 16) (λ flag rf.
      bind-IsDefined _ _ (reboot_flag_of-IsDefined flag.0) (λ rebooted rr.
        bind-IsDefined _ _ (extract_integer-IsDefined v flag.1) (λ entries re h. cc))))

-- Deserialize ends on every byte vector, whatever the lengths in it say, and on a vector of 16
-- bytes or more it ends with a message or a standard exception, without undefined behaviour: no
-- byte behind the end is read.
pub deserialize_defined :
    (v : List ℕ)
    → (deserialize v ≢ none) × ((length v < 16) ⊎ (deserialize v ≢ some (throws undefined)))
unfolding deserialize read_rest
deserialize_defined v = (
  deserialize-returns v,
  elim (Bool-cases (ltb (length v) 16)) [
    | inl short ↦ inl (ground arith)
    | inr long ↦
        let enough : 16 ≤ length v = ground arith in
        inr (elim (Result-cases (read_start v)) [
          | inr (x, failed) ↦
              rw (failed, deserialize)
                (λ h. read_start-IsDefined v enough (failed ∙ ap throws (thrown-inj h)))
          | inl (s, started) ↦
              rw (started, deserialize)
                (finish_defined s.header s.rebooted _
                  (read_entries_defined (suc (length v)) v _ s.entry_offset _))
        ])
  ],
)
