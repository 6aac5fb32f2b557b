-- ===== src/Com/Rpc/RoundTrip.antt =====
-- src/ara/com/someip/rpc/someip_rpc_message.cpp: `Deserialize` on what `Payload` writes.
use mathlib.Core.List.{append_assoc}
use adaptive_autosar.Prelude.{
  ℕ, ◌+◌, ◌-◌, ◌%◌, ◌^◌, ◌≤◌, ◌<◌, ◌≡◌, refl, ap, List, ◌++◌, ok, throws, undefined, length, drop,
  arith, length-append, take-append, ltb_ge, lt→ltb,
}
use adaptive_autosar.Com.Payload.{extract_integer, inject_integer, inject_short}
use adaptive_autosar.Com.Payload.Laws.{extract_integer-Reads}
use adaptive_autosar.Com.Message.{SomeIpMessage, header_payload}
use adaptive_autosar.Com.Message.Header.{
  FitsHeader, length-header_payload, deserialize_header-payload,
}
use adaptive_autosar.Com.Rpc.Message.{
  SomeIpRpcMessage, rpc_length, message_payload, slice_payload, deserialize_rpc,
}

length_field :
    (m : SomeIpMessage) (n : ℕ) (rest : List ℕ)
    → n < 2 ^ 32
    → extract_integer (header_payload m n ++ rest) 4 ≡ ok (n, 8)
unfolding header_payload inject_integer
length_field m n rest small = extract_integer-Reads (header_payload m n ++ rest) 4 n _ small refl

behind_header :
    (m : SomeIpMessage) (n : ℕ) (rest : List ℕ) → drop 16 (header_payload m n ++ rest) ≡ rest
unfolding header_payload inject_integer inject_short
behind_header m n rest = refl

slice_payload-header :
    (m : SomeIpMessage) (xs rest : List ℕ)
    → slice_payload (header_payload m (8 + length xs) ++ (xs ++ rest)) (8 + length xs) ≡ ok xs
unfolding slice_payload
slice_payload-header m xs rest =
    let bytes = header_payload m (8 + length xs) ++ (xs ++ rest) in
    let size : length bytes ≡ 16 + (length xs + length rest) = omega (
      arith,
      length-append (header_payload m (8 + length xs)) (xs ++ rest),
      length-header_payload m (8 + length xs),
      length-append xs rest,
    ) in
    let room : 16 + (8 + length xs) - 8 ≤ length bytes = omega (arith, size) in
    let count : 8 + length xs - 8 ≡ length xs = omega arith in
    rw
      (
        ltb_ge (8 + length xs) 8 (omega arith),
        ltb_ge (length bytes) (16 + (8 + length xs) - 8) room,
        behind_header m (8 + length xs) (xs ++ rest),
        count,
      )
      (ap ok (take-append xs rest))

-- An RPC message whose header fields and length fit is read back from any bytes that begin with
-- its payload.
pub deserialize_rpc-payload :
    (m : SomeIpRpcMessage) (rest : List ℕ)
    → FitsHeader m.header
    → 8 + length m.rpc_payload < 2 ^ 32
    → deserialize_rpc (message_payload m ++ rest) ≡ ok m
unfolding deserialize_rpc message_payload rpc_length
deserialize_rpc-payload m rest fits small =
    let size : (8 + length m.rpc_payload) % 2 ^ 32 ≡ 8 + length m.rpc_payload = omega arith in
    rw (
      append_assoc,
      size,
      length_field m.header (8 + length m.rpc_payload) (m.rpc_payload ++ rest) small,
      deserialize_header-payload m.header (8 + length m.rpc_payload) (m.rpc_payload ++ rest) fits,
      slice_payload-header m.header m.rpc_payload rest,
    )

-- A header whose fields fit, with a length field below 2^32 that exceeds the bytes behind it by
-- more than eight, makes Deserialize read outside the vector, which is undefined behaviour.
deserialize_rpc-overlong :
    (m : SomeIpMessage) (n : ℕ) (bytes : List ℕ)
    → FitsHeader m
    → n < 2 ^ 32
    → 8 + length bytes < n
    → deserialize_rpc (header_payload m n ++ bytes) ≡ throws undefined
unfolding deserialize_rpc slice_payload
deserialize_rpc-overlong m n bytes fits small long =
    let size : length (header_payload m n ++ bytes) ≡ 16 + length bytes =
      omega (arith, length-append (header_payload m n) bytes, length-header_payload m n) in
    rw (
      length_field m n bytes small,
      deserialize_header-payload m n bytes fits,
      ltb_ge n 8 (omega arith),
      lt→ltb (length (header_payload m n ++ bytes)) (16 + n - 8) (omega (arith, size)),
    )
