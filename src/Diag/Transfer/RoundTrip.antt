-- ===== src/Diag/Transfer/RoundTrip.antt =====
-- src/ara/diag/routing: what a client downloads to a segment and uploads from it again.
use Prim.Native.Nat.{bit_or}
use adaptive_autosar.Prelude.{
  ℕ, ◌+◌, ◌*◌, ◌/◌, ◌%◌, ◌^◌, ◌<◌, ◌≤◌, ◌≡◌, ◌≢◌, refl, ap, sym, ◌∙◌, true, none, some, List, [],
  ◌∷◌, ◌++◌, arith, length, take, drop, length-append, length-take, take-append, drop-append,
  take-length, find, ok, bit_or_shifted, ltb_ge,
}
use adaptive_autosar.Diag.Routing.{route}
use adaptive_autosar.Diag.Transfer.{
  TransferDirection, TransferData, nowhere, download, upload, write_segment, segment, fits,
  try_set_configuration, handle_message, try_transfer, handle_exit, memory_pool_size,
  initial_counter, transfer_data_sid, transfer_exit_sid, try_reset_configuration, is_expected,
  advance, positive,
}
use adaptive_autosar.Diag.Transfer.Request.{
  RequestTransfer, handle_request, request_data_transfer, try_parse_length_format, respond,
  try_positive_response, transfer_services, download_sid, upload_sid, download_service,
  upload_service,
}
use adaptive_autosar.Diag.Transfer.Session.{serve}

-- The request of a transfer to or from a segment, and the requests that follow it.
unfoldable pub transfer_request : ℕ → ℕ → ℕ → List ℕ
transfer_request sid address size =
    sid ∷ 0 ∷ 0x22 ∷ address / 2 ^ 8 ∷ address % 2 ^ 8 ∷ size / 2 ^ 8 ∷ size % 2 ^ 8 ∷ []

segment_written :
    (address size : ℕ) (pool block : List ℕ)
    → address ≤ length pool
    → length block ≡ size
    → take size
        (drop address (take address pool ++ (take size block ++ drop (address + size) pool)))
      ≡ block
segment_written address size pool block inside whole =
    let rest = drop (address + size) pool in
    let front = length-take address pool inside in
    let block_is : take size block ≡ block =
      ap (λ n. take n block) (sym whole) ∙ take-length block in
    ap (λ b. take size (drop address (take address pool ++ (b ++ rest)))) block_is
    ∙ ap (λ n. take size (drop n (take address pool ++ (block ++ rest)))) (sym front)
    ∙ ap (take size) (drop-append (take address pool) (block ++ rest))
    ∙ ap (λ n. take n (block ++ rest)) (sym whole)
    ∙ take-append block rest

-- The two bytes of a number are read back.
two_bytes : (n : ℕ) → bit_or (n / 2 ^ 8 * 2 ^ 8) (n % 2 ^ 8) ≡ n
two_bytes n = omega (arith, bit_or_shifted 8 (n / 2 ^ 8) (n % 2 ^ 8) (omega arith))

pub fits-of_bounds :
    (address size : ℕ) → 0 < size → address + size ≤ memory_pool_size → fits address size ≡ true
unfolding fits
fits-of_bounds address size some_size inside = ground arith

pub parse-address_size :
    (address size : ℕ)
    → try_parse_length_format 0 0x22
        (address / 2 ^ 8 ∷ address % 2 ^ 8 ∷ size / 2 ^ 8 ∷ size % 2 ^ 8 ∷ [])
      ≡ some (address, size)
unfolding try_parse_length_format
parse-address_size address size = rw (two_bytes address, two_bytes size) refl

-- A service that no transfer is on, with the segment of the last one.
unfoldable pub idle : ℕ → ℕ → List ℕ → TransferData
idle address size pool = record {
  direction = nowhere;
  memory_address = address;
  memory_size = size;
  memory_pool = pool;
  current_counter = initial_counter;
  next_counter = initial_counter;
}

module _ (n address size : ℕ) (some_size : 0 < size)
    (inside : address + size ≤ memory_pool_size) where
  set_accepted :
      (direction : TransferDirection) (a s : ℕ) (pool : List ℕ)
      → direction ≢ nowhere
      → try_set_configuration (idle a s pool) direction address size
        ≡ (record (idle address size pool) { direction = direction }, true)
  unfolding try_set_configuration idle
  set_accepted nowhere a s pool on = absurd (on refl)
  set_accepted download a s pool on = rw (fits-of_bounds address size some_size inside) refl
  set_accepted upload a s pool on = rw (fits-of_bounds address size some_size inside) refl

  pub request_accepted :
      (r : RequestTransfer) (a s : ℕ) (pool : List ℕ)
      → r.direction ≢ nowhere
      → request_data_transfer r
          (idle a s pool)
          0
          0x22
          (address / 2 ^ 8 ∷ address % 2 ^ 8 ∷ size / 2 ^ 8 ∷ size % 2 ^ 8 ∷ [])
        ≡ (record (idle address size pool) { direction = r.direction }, none)
  unfolding request_data_transfer
  request_accepted r a s pool on =
      rw
        (
          parse-address_size address size,
          request_data_transfer,
          set_accepted r.direction a s pool on,
        )
        refl

  handle_request-accepted :
      (r : RequestTransfer) (a s : ℕ) (pool : List ℕ)
      → r.direction ≢ nowhere
      → handle_request r (some n) (idle a s pool) (transfer_request r.sid address size)
        ≡ ok (
          record (idle address size pool) { direction = r.direction },
          (r.sid + 0x40) % 2 ^ 8 ∷ 0x10 ∷ n ∷ [],
        )
  unfolding handle_request transfer_request respond try_positive_response
  handle_request-accepted r a s pool on = rw (request_accepted r a s pool on) refl

-- A transfer after its first block.
unfoldable pub advanced : TransferDirection → ℕ → ℕ → List ℕ → TransferData
advanced direction address size pool = record {
  direction = direction;
  memory_address = address;
  memory_size = size;
  memory_pool = pool;
  current_counter = 1;
  next_counter = 2;
}

unfoldable pub written : ℕ → ℕ → List ℕ → List ℕ → List ℕ
written address size pool block =
    take address pool ++ (take size block ++ drop (address + size) pool)

written-inside :
    (address size : ℕ) (pool block : List ℕ)
    → address + size ≤ length pool
    → length block ≡ size
    → address + size ≤ length (written address size pool block)
unfolding written
written-inside address size pool block inside whole =
    let front = length-take address pool (omega arith) in
    let middle = length-take size block (omega arith) in
    rw (length-append, length-append, front, middle) (omega arith)

download_block :
    (address size : ℕ) (pool block : List ℕ)
    → size ≤ length block
    → address + size ≤ length pool
    → handle_message
        (record (idle address size pool) { direction = download })
        (transfer_data_sid ∷ 1 ∷ block)
      ≡ ok (advanced download address size (written address size pool block), 0x76 ∷ 1 ∷ [])
unfolding handle_message try_transfer is_expected advance positive write_segment idle advanced
    written
download_block address size pool block enough inside =
    rw (ltb_ge (length block) size enough, ltb_ge (length pool) (address + size) inside) refl

upload_block :
    (address size : ℕ) (pool : List ℕ)
    → address + size ≤ length pool
    → handle_message
        (record (idle address size pool) { direction = upload })
        (transfer_data_sid ∷ 1 ∷ [])
      ≡ ok (advanced upload address size pool, 0x76 ∷ 1 ∷ take size (drop address pool))
unfolding handle_message try_transfer is_expected advance positive segment idle advanced
upload_block address size pool inside = rw (ltb_ge (length pool) (address + size) inside) refl

exits :
    (direction : TransferDirection) (address size : ℕ) (pool : List ℕ)
    → direction ≢ nowhere
    → handle_exit (advanced direction address size pool) (transfer_exit_sid ∷ [])
      ≡ ok (idle address size pool, 0x77 ∷ [])
unfolding handle_exit try_reset_configuration idle advanced
exits nowhere address size pool on = absurd (on refl)
exits download address size pool on = refl
exits upload address size pool on = refl

-- The requests that write a segment and read it again.
unfoldable pub download_upload : ℕ → ℕ → List ℕ → List (List ℕ)
download_upload address size block =
    transfer_request download_sid address size
    ∷ (transfer_data_sid ∷ 1 ∷ block)
    ∷ (transfer_exit_sid ∷ [])
    ∷ transfer_request upload_sid address size
    ∷ (transfer_data_sid ∷ 1 ∷ [])
    ∷ (transfer_exit_sid ∷ [])
    ∷ []

-- When no transfer is on, a client that requests a download to a segment inside the pool, sends a
-- block of its size, exits, and requests an upload of the same segment, gets positive responses
-- only, and the upload returns the block.
pub serve-download_upload :
    (n a s address size : ℕ) (pool block : List ℕ)
    → 0 < size
    → address + size ≤ memory_pool_size
    → length pool ≡ memory_pool_size
    → length block ≡ size
    → serve (some n) (idle a s pool) (download_upload address size block)
      ≡ ok (
        idle address size (written address size pool block),
        (0x74 ∷ 0x10 ∷ n ∷ [])
            ∷ (0x76 ∷ 1 ∷ [])
            ∷ (0x77 ∷ [])
            ∷ (0x75 ∷ 0x10 ∷ n ∷ [])
            ∷ (0x76 ∷ 1 ∷ block)
            ∷ (0x77 ∷ [])
            ∷ [],
      )
unfolding serve route transfer_services download_upload find transfer_request written
serve-download_upload n a s address size pool block some_size inside pool_length whole =
    let stored = written address size pool block in
    let returned : take size (drop address stored) ≡ block =
      segment_written address size pool block (omega arith) whole in
    let still_inside : address + size ≤ length stored =
      written-inside address size pool block (omega arith) whole in
    rw
      (
        handle_request-accepted n address size some_size inside download_service a s pool (λ e. cc),
        download_block address size pool block (omega arith) (omega arith),
        exits download address size stored (λ e. cc),
        handle_request-accepted n address size some_size inside upload_service address size stored
            (λ e. cc),
        upload_block address size stored still_inside,
        exits upload address size stored (λ e. cc),
        returned,
      )
      refl
