-- ===== src/Com/Message/MessageType.antt =====
-- The values of `SomeIpMessageType` (src/ara/com/someip/someip_message.h) that the code names.
use adaptive_autosar.Prelude.{ℕ}

abbrev pub request : ℕ
request = 0x00

abbrev pub notification : ℕ
notification = 0x02

abbrev pub response : ℕ
response = 0x80

abbrev pub error : ℕ
error = 0x81
