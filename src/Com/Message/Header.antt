-- ===== src/Com/Message/Header.antt =====
-- src/ara/com/someip/someip_message.cpp: reading a header back, and the length of a header.
use adaptive_autosar.Prelude.{ℕ, zero, suc, ◌^◌, ◌<◌, ◌≡◌, refl, List, [], ◌∷◌, ◌++◌, ok, length}
use adaptive_autosar.Com.Payload.{get_unchecked, inject_short, inject_integer}
use adaptive_autosar.Com.Payload.Laws.{Reads, extract_short-Reads, extract_integer-Reads}
use adaptive_autosar.Com.Message.{SomeIpMessage, header_payload, deserialize_header}

-- The numbers fit their fields. (The last four are bytes that are only copied.)
pub record FitsHeader (m : SomeIpMessage) : Type 0 where
  pub id_fits : m.message_id < 2 ^ 32
  pub client_fits : m.client_id < 2 ^ 16
  pub session_fits : m.session_id < 2 ^ 16

pub length-header_payload : (m : SomeIpMessage) (n : ℕ) → length (header_payload m n) ≡ 16
unfolding header_payload inject_short inject_integer
length-header_payload m n = refl

get_unchecked-Reads :
    (v : List ℕ) (i b : ℕ) (rest : List ℕ) → Reads v i (b ∷ rest) → get_unchecked v i ≡ ok b
unfolding get_unchecked
get_unchecked-Reads [] zero b rest h = cc
get_unchecked-Reads [] (suc i) b rest h = cc
get_unchecked-Reads (c ∷ v) zero b rest h = cc
get_unchecked-Reads (c ∷ v) (suc i) b rest h = get_unchecked-Reads v i b rest h

-- The SOME/IP header whose numbers fit is read back from any payload that begins with it.
pub deserialize_header-payload :
    (m : SomeIpMessage) (n : ℕ) (rest : List ℕ)
    → FitsHeader m
    → deserialize_header (header_payload m n ++ rest) ≡ ok m
unfolding deserialize_header header_payload inject_short inject_integer get_unchecked
deserialize_header-payload m n rest fits = rw (
  extract_integer-Reads (header_payload m n ++ rest) 0 m.message_id _ fits.id_fits refl,
  extract_short-Reads (header_payload m n ++ rest) 8 m.client_id _ fits.client_fits refl,
  extract_short-Reads (header_payload m n ++ rest) 10 m.session_id _ fits.session_fits refl,
  get_unchecked,
)
