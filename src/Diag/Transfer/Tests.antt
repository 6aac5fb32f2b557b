-- ===== src/Diag/Transfer/Tests.antt =====
-- src/ara/diag/routing: a pool of zeros, a block of three bytes, and a router of two services.
use adaptive_autosar.Prelude.{
  ℕ, zero, suc, ◌≡◌, refl, false, none, some, List, [], ◌∷◌, ◌++◌, arith, length, take, drop,
  AllBytes, ok, find,
}
use adaptive_autosar.Diag.Routing.{
  RoutableUdsService, negative_response, not_supported, route, add_service, remove_service, offer,
  stop_offer,
}
use adaptive_autosar.Diag.Routing.Dispatch.{route-changes}
use adaptive_autosar.Diag.Transfer.{
  TransferData, download, is_expected, handle_message, try_transfer, write_segment, positive,
  advance, handle_exit, try_set_configuration, fits,
}
use adaptive_autosar.Diag.Transfer.Request.{
  request_data_transfer, try_parse_length_format, respond, try_positive_response, handle_request,
  transfer_services, download_service,
}
use adaptive_autosar.Diag.Transfer.Bounds.{IsValid}
use adaptive_autosar.Diag.Transfer.Session.{serve, AllRequests, serve-IsValid}
use adaptive_autosar.Diag.Transfer.RoundTrip.{
  idle, written, transfer_request, download_upload, serve-download_upload,
}
use adaptive_autosar.Diag.Transfer.Retry.{handle_message-again}
use adaptive_autosar.Diag.Transfer.Blocked.{handle_request-no_meta}

abbrev zeros : ℕ → List ℕ
zeros zero = []
zeros (suc n) = 0 ∷ zeros n

length-zeros : (n : ℕ) → length (zeros n) ≡ n
length-zeros zero = refl
length-zeros (suc n) = omega (arith, length-zeros n)

serve-download_upload_example :
    serve (some 64) (idle 0 0 (zeros 1024)) (download_upload 512 3 (7 ∷ 8 ∷ 9 ∷ []))
    ≡ ok (
      idle 512 3 (written 512 3 (zeros 1024) (7 ∷ 8 ∷ 9 ∷ [])),
      (0x74 ∷ 0x10 ∷ 64 ∷ [])
          ∷ (0x76 ∷ 1 ∷ [])
          ∷ (0x77 ∷ [])
          ∷ (0x75 ∷ 0x10 ∷ 64 ∷ [])
          ∷ (0x76 ∷ 1 ∷ 7 ∷ 8 ∷ 9 ∷ [])
          ∷ (0x77 ∷ [])
          ∷ [],
    )
serve-download_upload_example =
    serve-download_upload 64 0 0 512 3 (zeros 1024) (7 ∷ 8 ∷ 9 ∷ []) (omega arith) (omega arith)
      (length-zeros 1024) refl

new-IsValid : IsValid (idle 0 0 (zeros 1024))
unfolding idle
new-IsValid = record { pool_length = length-zeros 1024; segment_inside = λ on. absurd (on refl) }

abbrev three_requests : List (List ℕ)
three_requests =
    (0x34 ∷ 0 ∷ 0x22 ∷ 2 ∷ 0 ∷ 0 ∷ 1 ∷ []) ∷ (0x36 ∷ 1 ∷ 5 ∷ []) ∷ (0x36 ∷ 9 ∷ 5 ∷ []) ∷ []

abbrev after_three : TransferData
after_three = record {
  direction = download;
  memory_address = 512;
  memory_size = 1;
  memory_pool = take 512 (zeros 1024) ++ (5 ∷ drop 513 (zeros 1024));
  current_counter = 1;
  next_counter = 2;
}

serve-three_requests :
    serve (some 64) (idle 0 0 (zeros 1024)) three_requests
    ≡ ok (after_three, (0x74 ∷ 0x10 ∷ 64 ∷ []) ∷ (0x76 ∷ 1 ∷ []) ∷ (0x7f ∷ 0x36 ∷ 0x73 ∷ []) ∷ [])
unfolding serve route transfer_services find idle handle_request request_data_transfer
    try_parse_length_format respond try_positive_response try_set_configuration fits handle_message
    try_transfer is_expected write_segment positive advance negative_response
serve-three_requests = refl

serve-IsValid_example : IsValid after_three
unfolding AllRequests AllBytes
serve-IsValid_example =
    serve-IsValid (some 64) (idle 0 0 (zeros 1024)) three_requests
      ((0x74 ∷ 0x10 ∷ 64 ∷ []) ∷ (0x76 ∷ 1 ∷ []) ∷ (0x7f ∷ 0x36 ∷ 0x73 ∷ []) ∷ []) after_three
      (
        (
          omega arith,
          (
            omega arith,
            (omega arith, (omega arith, (omega arith, (omega arith, (omega arith, tt))))),
          ),
        ),
        (
          (omega arith, (omega arith, (omega arith, tt))),
          ((omega arith, (omega arith, (omega arith, tt))), tt),
        ),
      )
      new-IsValid serve-three_requests

segment_in_pool : IsValid after_three
segment_in_pool = record { pool_length = refl; segment_inside = λ on. (omega arith, omega arith) }

abbrev after_four : TransferData
after_four = record {
  direction = download;
  memory_address = 512;
  memory_size = 1;
  memory_pool = take 512 (zeros 1024) ++ (6 ∷ drop 513 (zeros 1024));
  current_counter = 2;
  next_counter = 3;
}

handle_message-again_example :
    handle_message after_four (0x36 ∷ 2 ∷ 6 ∷ []) ≡ ok (after_four, 0x76 ∷ 2 ∷ [])
unfolding handle_message try_transfer is_expected write_segment positive advance
handle_message-again_example =
    handle_message-again after_three (0x36 ∷ 2 ∷ 6 ∷ []) after_four (0x76 ∷ 2 ∷ []) segment_in_pool
      refl

handle_request-no_meta_example :
    (handle_request download_service none
        (idle 0 0 [])
        (transfer_request download_service.sid 512 3)
      ≡ ok (record (idle 512 3 []) { direction = download }, negative_response 0x34 0x70))
    × (handle_request download_service
          (some 64)
          (record (idle 512 3 []) { direction = download })
          (transfer_request download_service.sid 512 3)
        ≡ ok (record (idle 512 3 []) { direction = download }, negative_response 0x34 0x70))
handle_request-no_meta_example =
    handle_request-no_meta download_service 64 0 0 512 3 [] (λ e. cc) (omega arith) (omega arith)

abbrev exit_service : RoutableUdsService TransferData
exit_service = record { sid = 0x37; offered = false; handle = handle_exit }

route-changes_example :
    (route (add_service (offer exit_service).0 []) after_three (0x37 ∷ [])
      ≡ handle_exit after_three (0x37 ∷ []))
    × (route (add_service (stop_offer exit_service) []) after_three (0x37 ∷ [])
        ≡ ok (after_three, not_supported 0x37))
    × (route (remove_service 0x37 []) after_three (0x37 ∷ [])
        ≡ ok (after_three, not_supported 0x37))
    × (route (add_service exit_service []) after_three (0x36 ∷ [])
        ≡ route [] after_three (0x36 ∷ []))
    × (route (remove_service 0x37 []) after_three (0x36 ∷ []) ≡ route [] after_three (0x36 ∷ []))
route-changes_example = route-changes [] exit_service after_three 0x36 [] (λ e. omega arith)
