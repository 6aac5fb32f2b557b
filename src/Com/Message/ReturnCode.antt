-- ===== src/Com/Message/ReturnCode.antt =====
-- The values of `SomeIpReturnCode` (src/ara/com/someip/someip_message.h) that the code names.
use adaptive_autosar.Prelude.{ℕ}

abbrev pub e_ok : ℕ
e_ok = 0x00

abbrev pub e_not_ok : ℕ
e_not_ok = 0x01

abbrev pub e_unknown_service : ℕ
e_unknown_service = 0x02

abbrev pub e_unknown_method : ℕ
e_unknown_method = 0x03

abbrev pub e_wrong_protocol_version : ℕ
e_wrong_protocol_version = 0x07

abbrev pub e_wrong_interface_version : ℕ
e_wrong_interface_version = 0x08

abbrev pub e_wrong_message_type : ℕ
e_wrong_message_type = 0x0a
