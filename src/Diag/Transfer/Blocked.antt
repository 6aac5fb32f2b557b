-- ===== src/Diag/Transfer/Blocked.antt =====
-- src/ara/diag/routing/request_transfer.cpp: a request whose meta-information lacks the block
-- length.
use adaptive_autosar.Prelude.{
  ℕ, ◌+◌, ◌/◌, ◌%◌, ◌^◌, ◌<◌, ◌≤◌, ◌≡◌, ◌≢◌, refl, false, none, some, List, [], ◌∷◌, ok,
}
use adaptive_autosar.Diag.Routing.{negative_response}
use adaptive_autosar.Diag.Transfer.{
  TransferDirection, nowhere, download, upload, try_set_configuration, memory_pool_size,
}
use adaptive_autosar.Diag.Transfer.Request.{
  RequestTransfer, handle_request, request_data_transfer, respond, try_positive_response,
}
use adaptive_autosar.Diag.Transfer.RoundTrip.{
  idle, transfer_request, request_accepted, parse-address_size, fits-of_bounds,
}

module _ (address size : ℕ) (some_size : 0 < size)
    (inside : address + size ≤ memory_pool_size) where
  set_refused :
      (direction : TransferDirection) (pool : List ℕ)
      → direction ≢ nowhere
      → try_set_configuration
          (record (idle address size pool) { direction = direction })
          direction
          address
          size
        ≡ (record (idle address size pool) { direction = direction }, false)
  unfolding try_set_configuration idle
  set_refused nowhere pool on = absurd (on refl)
  set_refused download pool on = rw (fits-of_bounds address size some_size inside) refl
  set_refused upload pool on = rw (fits-of_bounds address size some_size inside) refl

  request_refused :
      (r : RequestTransfer) (pool : List ℕ)
      → r.direction ≢ nowhere
      → request_data_transfer r
          (record (idle address size pool) { direction = r.direction })
          0
          0x22
          (address / 2 ^ 8 ∷ address % 2 ^ 8 ∷ size / 2 ^ 8 ∷ size % 2 ^ 8 ∷ [])
        ≡ (record (idle address size pool) { direction = r.direction }, some 0x70)
  unfolding request_data_transfer
  request_refused r pool on =
      rw (parse-address_size address size, request_data_transfer, set_refused r.direction pool on)
        refl

-- When no transfer is on, a request for a segment inside the pool whose meta-information lacks the
-- block length is answered as not accepted, but the transfer is on: the same request with the block
-- length is then not accepted either, and leaves the service as it is.
pub handle_request-no_meta :
    (r : RequestTransfer) (n a s address size : ℕ) (pool : List ℕ)
    → r.direction ≢ nowhere
    → 0 < size
    → address + size ≤ memory_pool_size
    → (handle_request r none (idle a s pool) (transfer_request r.sid address size)
        ≡ ok (
          record (idle address size pool) { direction = r.direction },
          negative_response r.sid 0x70,
        ))
      × (handle_request r
            (some n)
            (record (idle address size pool) { direction = r.direction })
            (transfer_request r.sid address size)
          ≡ ok (
            record (idle address size pool) { direction = r.direction },
            negative_response r.sid 0x70,
          ))
unfolding handle_request transfer_request respond try_positive_response
handle_request-no_meta r n a s address size pool on some_size inside = (
  rw (request_accepted 0 address size some_size inside r a s pool on) refl,
  rw (request_refused address size some_size inside r pool on) refl,
)
