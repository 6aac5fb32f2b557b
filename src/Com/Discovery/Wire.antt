-- ===== src/Com/Discovery/Wire.antt =====
-- src/ara/com/someip/sd: the offer and the find as messages, and that they fit the wire.
use adaptive_autosar.Prelude.{ℕ, ◌^◌, ◌<◌, refl, true, false, [], ◌∷◌, arith}
use adaptive_autosar.Com.Payload.{Ipv4Address}
use adaptive_autosar.Com.Message
use adaptive_autosar.Com.Message.{new_message}
use adaptive_autosar.Com.Message.Header.{FitsHeader}
use adaptive_autosar.Com.Options.RoundTrip.{unicast}
use adaptive_autosar.Com.Entries.RoundTrip.{finds, offers}
use adaptive_autosar.Com.Options.{
  endpoint, tcp, configuration, load_balancing, ipv4_endpoint, ipv6_endpoint, option_length,
  option_type, option_type_byte,
}
use adaptive_autosar.Com.Entries.{SdEntry, service, offering, finding}
use adaptive_autosar.Com.Entries.Validation.{
  IsWithin, limit, service_limit, count_options, count_type,
}
use adaptive_autosar.Com.Sd.{SomeIpSdMessage, entries_options_size, options_size}
use adaptive_autosar.Com.Sd.RoundTrip.{IsSendable}

-- The message with the endpoint that a server offers.
abbrev pub offer_of : ℕ → ℕ → ℕ → ℕ → ℕ → Ipv4Address → ℕ → SomeIpSdMessage
offer_of ttl id instance major minor ip port = record {
  header = record {
    message_id = 0xffff8100;
    client_id = 0;
    session_id = 1;
    protocol_version = 1;
    interface_version = 1;
    message_type = Message.MessageType.notification;
    return_code = Message.ReturnCode.e_ok;
  };
  rebooted = true;
  entries =
      service
        (record {
          type = offering;
          first_options =
              endpoint (record {
                type = ipv4_endpoint;
                discardable = false;
                ip_address = ip;
                l4_proto = tcp;
                port = port;
              })
              ∷ [];
          second_options = [];
          service_id = id;
          instance_id = instance;
          major_version = major;
          ttl = ttl;
        })
        minor
      ∷ [];
}

-- The message of a client that looks for a service.
abbrev pub find_of : ℕ → SomeIpSdMessage
find_of id = record {
  header =
      (offer_of 0 0 0 0 0 (record { octet0 = 0; octet1 = 0; octet2 = 0; octet3 = 0 }) 0).header;
  rebooted = true;
  entries =
      service
        (record {
          type = finding;
          first_options = [];
          second_options = [];
          service_id = id;
          instance_id = 0xffff;
          major_version = 0xff;
          ttl = 0xffffff;
        })
        0xffffffff
      ∷ [];
}

header-FitsHeader : FitsHeader (find_of 0).header
header-FitsHeader = record {
  id_fits = omega arith;
  client_fits = omega arith;
  session_fits = omega arith;
}

module _ (id instance major minor : ℕ) (ip : Ipv4Address) (port : ℕ) where
  abbrev offered_entry : SdEntry
  offered_entry =
      service
        (record {
          type = offering;
          first_options =
              endpoint (record {
                type = ipv4_endpoint;
                discardable = false;
                ip_address = ip;
                l4_proto = tcp;
                port = port;
              })
              ∷ [];
          second_options = [];
          service_id = id;
          instance_id = instance;
          major_version = major;
          ttl = 0xffffff;
        })
        minor

  offered-IsWithin : IsWithin offered_entry
  unfolding limit service_limit count_options count_type option_type_byte option_type
  offered-IsWithin configuration m h = omega arith
  offered-IsWithin load_balancing m h = omega arith
  offered-IsWithin ipv4_endpoint m h = cc
  offered-IsWithin ipv6_endpoint m h = cc
  offered-IsWithin _ m h = omega arith

  -- The offer fits the wire when its numbers fit their fields.
  pub offer_of-IsSendable :
      id < 2 ^ 16
      → instance < 2 ^ 16
      → major < 2 ^ 8
      → minor < 2 ^ 32
      → port < 2 ^ 16
      → IsSendable (offer_of 0xffffff id instance major minor ip port)
  unfolding entries_options_size options_size option_length
  offer_of-IsSendable hid hinstance hmajor hminor hport = record {
    header_fits = record {
      id_fits = omega arith;
      client_fits = omega arith;
      session_fits = omega arith;
    };
    admitted = (
      record {
        sound = (
          record {
            few_first = omega arith;
            few_second = omega arith;
            service_fits = hid;
            instance_fits = hinstance;
            major_fits = hmajor;
            ttl_fits = omega arith;
          },
          offers refl,
          hminor,
        );
        first_built = ((unicast refl, hport), tt);
        second_built = tt;
        within = offered-IsWithin;
      },
      tt,
    );
    size_fits = omega arith;
  }

pub find_of-IsSendable : (id : ℕ) → id < 2 ^ 16 → IsSendable (find_of id)
unfolding entries_options_size options_size count_options count_type
find_of-IsSendable id h = record {
  header_fits = header-FitsHeader;
  admitted = (
    record {
      sound = (
        record {
          few_first = omega arith;
          few_second = omega arith;
          service_fits = h;
          instance_fits = omega arith;
          major_fits = omega arith;
          ttl_fits = omega arith;
        },
        finds refl (omega arith),
        omega arith,
      );
      first_built = tt;
      second_built = tt;
      within = λ t m l. omega arith;
    },
    tt,
  );
  size_fits = omega arith;
}
