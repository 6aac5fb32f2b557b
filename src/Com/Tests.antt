-- ===== src/Com/Tests.antt =====
-- Runs of src/ara/com on concrete messages: what the properties of `Com` say of one input.
use adaptive_autosar.Prelude.{
  ◌⊎◌, throws, undefined, length, ◌<◌, ◌^◌, ◌<◌, ◌≡◌, ◌≢◌, refl, true, false, some, none, [], ◌∷◌,
  arith, ok, length,
}
use adaptive_autosar.Com.Options.{
  configuration, ipv4_endpoint, ipv6_endpoint, SdOption, option_length, endpoint, balancing, udp,
  option_type, option_type_byte, load_balancing,
}
use adaptive_autosar.Com.Options.RoundTrip.{IsBuilt, unicast}
use adaptive_autosar.Com.Entries.{
  Entry, SdEntry, service, offering, validate_option, validate_base, contains_option, any_of_type,
  add_first_option, add_second_option,
}
use adaptive_autosar.Com.Entries.RoundTrip.{IsSound, bare, offers}
use adaptive_autosar.Com.Entries.Validation.{
  IsWithin, count_options, limit, count_type, service_limit, add_all,
}
use adaptive_autosar.Com.Message.{SomeIpMessage}
use adaptive_autosar.Com.Message.Header.{FitsHeader}
use adaptive_autosar.Com.Sd.{
  SomeIpSdMessage, sd_payload, deserialize, entries_options_size, options_size,
}
use adaptive_autosar.Com.Sd.RoundTrip.{IsAdmitted, IsSendable, deserialize-payload}
use adaptive_autosar.Com.Sd.Size.{length-sd_payload}
use adaptive_autosar.Com.Sd.Defined.{deserialize_defined}
use adaptive_autosar.Com.E2e.{wrong_crc, try_protect, check, new_profile}
use adaptive_autosar.Com.E2e.Channel.{exchange, exchange-AllOk, AllOk, IsSynced, synced}
use adaptive_autosar.Com.E2e.Corruption.{check-corrupted}
use adaptive_autosar.Prelude.{AllBytes}

abbrev udp_option : SdOption
udp_option = endpoint (record {
  type = ipv4_endpoint;
  discardable = false;
  ip_address = record { octet0 = 192; octet1 = 168; octet2 = 0; octet3 = 7 };
  l4_proto = udp;
  port = 30509;
})

abbrev weight_option : SdOption
weight_option = balancing (record { discardable = true; priority = 1; weight = 500 })

abbrev offer : Entry
offer = record {
  type = offering;
  first_options = udp_option ∷ [];
  second_options = weight_option ∷ [];
  service_id = 0x1234;
  instance_id = 1;
  major_version = 2;
  ttl = 3600;
}

abbrev offer_entry : SdEntry
offer_entry = service offer 5

abbrev sd_header : SomeIpMessage
sd_header = record {
  message_id = 0xffff8100;
  client_id = 0;
  session_id = 3;
  protocol_version = 1;
  interface_version = 1;
  message_type = 2;
  return_code = 0;
}

abbrev offer_message : SomeIpSdMessage
offer_message = record {
  header = sd_header;
  rebooted = true;
  entries = offer_entry ∷ offer_entry ∷ [];
}

sd_header-FitsHeader : FitsHeader sd_header
sd_header-FitsHeader = record {
  id_fits = omega arith;
  client_fits = omega arith;
  session_fits = omega arith;
}

udp_option-IsBuilt : IsBuilt udp_option
udp_option-IsBuilt = (unicast refl, omega arith)

weight_option-IsBuilt : IsBuilt weight_option
weight_option-IsBuilt = (omega arith, omega arith)

offer_entry-IsSound : IsSound offer_entry
offer_entry-IsSound = (
  record {
    few_first = omega arith;
    few_second = omega arith;
    service_fits = omega arith;
    instance_fits = omega arith;
    major_fits = omega arith;
    ttl_fits = omega arith;
  },
  offers refl,
  omega arith,
)

offer_entry-IsWithin : IsWithin offer_entry
unfolding limit service_limit count_options count_type option_type_byte option_type
offer_entry-IsWithin configuration m h = omega arith
offer_entry-IsWithin load_balancing m h = ground arith
offer_entry-IsWithin ipv4_endpoint m h = cc
offer_entry-IsWithin ipv6_endpoint m h = cc
offer_entry-IsWithin _ m h = omega arith

offer_entry-IsAdmitted : IsAdmitted offer_entry
offer_entry-IsAdmitted = record {
  sound = offer_entry-IsSound;
  first_built = (udp_option-IsBuilt, tt);
  second_built = (weight_option-IsBuilt, tt);
  within = offer_entry-IsWithin;
}

offer_message-IsSendable : IsSendable offer_message
unfolding entries_options_size options_size option_length
offer_message-IsSendable = record {
  header_fits = sd_header-FitsHeader;
  admitted = (offer_entry-IsAdmitted, (offer_entry-IsAdmitted, tt));
  size_fits = omega arith;
}

deserialize-payload_example : deserialize (sd_payload offer_message) ≡ some (ok offer_message)
deserialize-payload_example = deserialize-payload offer_message offer_message-IsSendable

protected_bytes :
    (try_protect new_profile (0x11 ∷ 0x22 ∷ [])).1 ≡ some (179 ∷ 0xf1 ∷ 0x11 ∷ 0x22 ∷ [])
unfolding try_protect
protected_bytes = refl

check-corrupted_example :
    check new_profile (179 ∷ 0xf1 ∷ 0x10 ∷ 0x22 ∷ []) ≡ (new_profile, wrong_crc)
unfolding AllBytes
check-corrupted_example =
    check-corrupted new_profile new_profile (0x11 ∷ 0x22 ∷ []) (179 ∷ 0xf1 ∷ []) (0x22 ∷ []) 0x11
      0x10 protected_bytes (omega arith, (omega arith, tt)) (omega arith) (omega arith)
      (omega arith, tt) (λ e. absurd (omega arith))

new_profile-IsSynced : IsSynced new_profile new_profile
new_profile-IsSynced = synced refl (omega arith)

exchange-AllOk_example :
    let (sender, receiver, statuses) =
      exchange new_profile new_profile ((1 ∷ 2 ∷ []) ∷ [] ∷ (3 ∷ []) ∷ []) in
    AllOk statuses × IsSynced sender receiver
exchange-AllOk_example =
    exchange-AllOk new_profile new_profile ((1 ∷ 2 ∷ []) ∷ [] ∷ (3 ∷ []) ∷ []) new_profile-IsSynced

deserialize_defined_example :
    (deserialize (sd_payload offer_message) ≢ none)
    × ((length (sd_payload offer_message) < 16)
        ⊎ (deserialize (sd_payload offer_message) ≢ some (throws undefined)))
deserialize_defined_example = deserialize_defined (sd_payload offer_message)

adding_both :
    add_all (bare offer_entry) ((true, udp_option) ∷ (false, weight_option) ∷ []) ≡ ok offer_entry
unfolding add_all add_first_option add_second_option validate_option validate_base option_type
    option_type_byte contains_option any_of_type
adding_both = refl

offer_message_small : length (sd_payload offer_message) < 2 ^ 32
offer_message_small =
    omega (arith, length-sd_payload offer_message, offer_message-IsSendable.size_fits)
