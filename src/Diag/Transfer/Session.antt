-- ===== src/Diag/Transfer/Session.antt =====
-- src/ara/diag/routing: the four transfer services behind a router, over the requests of a client.
use adaptive_autosar.Prelude.{
  ℕ, ◌*◌, ◌/◌, ◌^◌, ◌<◌, ◌≡◌, ◌&&◌, Option, List, [], ◌∷◌, arith, AllBytes, Result, ok, ok-inj,
  >>=-eq-ok, transport, ap, find, ◌>>=◌, Bool-cases, inl, inr, ◌==◌, bit_or_shifted,
}
use Prim.Native.Nat.{bit_and, bit_or}
use adaptive_autosar.Diag.Routing.{route}
use adaptive_autosar.Diag.Transfer.{TransferData, transfer_data_sid, transfer_exit_sid}
use adaptive_autosar.Diag.Transfer.Bounds.{
  IsValid, Keeps, try_set_configuration-IsValid, handle_message-IsValid, handle_exit-IsValid,
}
use adaptive_autosar.Diag.Transfer.Request.{
  RequestTransfer, request_data_transfer, try_parse_length_format, handle_request,
  transfer_services, download_service, upload_service, download_sid, upload_sid,
}

-- The state and the responses after a list of requests.
unfoldable pub serve :
    Option ℕ → TransferData → List (List ℕ) → Result (TransferData × List (List ℕ))
serve block_length t [] = ok (t, [])
serve block_length t (request ∷ requests) =
    route (transfer_services block_length) t request >>= λ here.
    serve block_length here.0 requests >>= λ after. ok (after.0, here.1 ∷ after.1)

size-lt : (c d : ℕ) → c < 2 ^ 8 → d < 2 ^ 8 → bit_or (c * 2 ^ 8) d < 2 ^ 16
size-lt c d hc hd = omega (arith, bit_or_shifted 8 c d hd)

request_data_transfer-IsValid :
    (r : RequestTransfer) (t : TransferData) (format lengths : ℕ) (bytes : List ℕ)
    → AllBytes bytes
    → IsValid t
    → IsValid (request_data_transfer r t format lengths bytes).0
unfolding request_data_transfer try_parse_length_format AllBytes
request_data_transfer-IsValid r t format lengths (a ∷ b ∷ c ∷ d ∷ []) (ha, (hb, (hc, (hd, _)))) v =
    elim (Bool-cases (format == 0)) [
      | inr other ↦ rw (other, request_data_transfer, try_parse_length_format) v
      | inl plain ↦ elim (Bool-cases (bit_and lengths 0x0f == 2 && lengths / 2 ^ 4 == 2)) [
        | inr other ↦ rw (plain, request_data_transfer, try_parse_length_format, other) v
        | inl short ↦
            rw (plain, request_data_transfer, try_parse_length_format, short)
              (try_set_configuration-IsValid t r.direction (bit_or (a * 2 ^ 8) b)
                (bit_or (c * 2 ^ 8) d) (size-lt c d hc hd) v)
      ]
    ]
request_data_transfer-IsValid r t format lengths _ bytes v = v

handle_request-IsValid :
    (r : RequestTransfer) (block_length : Option ℕ) (t : TransferData) (request : List ℕ)
    → AllBytes request
    → IsValid t
    → Keeps (handle_request r block_length t request)
unfolding handle_request Keeps AllBytes
handle_request-IsValid r block_length t (service ∷ format ∷ lengths ∷ first ∷ rest)
      (_, (_, (_, bytes))) v =
    request_data_transfer-IsValid r t format lengths (first ∷ rest) bytes v
handle_request-IsValid r block_length t _ bytes v = v

route-IsValid :
    (block_length : Option ℕ) (t : TransferData) (request : List ℕ)
    → AllBytes request
    → IsValid t
    → Keeps (route (transfer_services block_length) t request)
unfolding route transfer_services find Keeps
route-IsValid block_length t [] bytes v = tt
route-IsValid block_length t (sid ∷ parameters) bytes v =
    let request = sid ∷ parameters in
    elim (Bool-cases (download_sid == sid)) [
      | inl e ↦
          rw (e, route, transfer_services, find)
            (handle_request-IsValid download_service block_length t request bytes v)
      | inr a ↦ elim (Bool-cases (upload_sid == sid)) [
        | inl e ↦
            rw (a, e, route, transfer_services, find)
              (handle_request-IsValid upload_service block_length t request bytes v)
        | inr b ↦ elim (Bool-cases (transfer_data_sid == sid)) [
          | inl e ↦
              rw (a, b, e, route, transfer_services, find) (handle_message-IsValid t request v)
          | inr c ↦ elim (Bool-cases (transfer_exit_sid == sid)) [
            | inl e ↦
                rw (a, b, c, e, route, transfer_services, find) (handle_exit-IsValid t request v)
            | inr d ↦ rw (a, b, c, d, route, transfer_services, find) v
          ]
        ]
      ]
    ]

unfoldable pub AllRequests : List (List ℕ) → Type 0
AllRequests [] = Unit
AllRequests (request ∷ requests) = AllBytes request × AllRequests requests

Keeps-ok :
    (call : Result (TransferData × List ℕ)) (t : TransferData) (response : List ℕ)
    → call ≡ ok (t, response)
    → Keeps call
    → IsValid t
unfolding Keeps
Keeps-ok call t response e k = transport (ap Keeps e) k

-- Over any requests of bytes from a valid state, the memory pool keeps its size, and whenever a
-- transfer is on, its segment is not empty and lies inside the pool.
pub serve-IsValid :
    (block_length : Option ℕ) (t : TransferData) (requests responses : List (List ℕ))
    (final : TransferData)
    → AllRequests requests
    → IsValid t
    → serve block_length t requests ≡ ok (final, responses)
    → IsValid final
unfolding serve AllRequests
serve-IsValid block_length t [] responses final bytes v e =
    transport (ap IsValid (ap (λ p. p.0) (ok-inj e))) v
serve-IsValid block_length t (request ∷ requests) responses final (here, there) v e =
    let (first, e1, e2) = >>=-eq-ok (route (transfer_services block_length) t request) _ e in
    let (later, e3, e4) = >>=-eq-ok (serve block_length first.0 requests) _ e2 in
    let v1 = Keeps-ok _ first.0 first.1 e1 (route-IsValid block_length t request here v) in
    transport (ap IsValid (ap (λ p. p.0) (ok-inj e4)))
      (serve-IsValid block_length first.0 requests later.1 later.0 there v1 e3)
