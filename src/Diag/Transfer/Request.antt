-- ===== src/Diag/Transfer/Request.antt =====
-- src/ara/diag/routing/request_transfer.cpp, with download.cpp and upload.cpp, which are the same
-- service under two identifiers and directions. The exception that carries a negative response code
-- is the second summand. The meta-information is the block length it holds, if it holds one.
use Prim.Native.Nat.{bit_and, bit_or}
use adaptive_autosar.Prelude.{
  ℕ, ◌+◌, ◌*◌, ◌/◌, ◌%◌, ◌^◌, true, ◌&&◌, Option, none, some, List, [], ◌∷◌, if◌then◌else◌, ◌==◌,
  Result, ok, throws, invalid_argument,
}
use adaptive_autosar.Diag.Routing.{RoutableUdsService, negative_response}
use adaptive_autosar.Diag.Transfer.{
  TransferDirection, TransferData, nowhere, download, upload, try_set_configuration, handle_message,
  handle_exit, transfer_data_sid, transfer_exit_sid,
}

pub record RequestTransfer : Type 0 where
  pub sid : ℕ
  pub direction : TransferDirection

abbrev pub download_sid : ℕ
download_sid = 0x34

abbrev pub upload_sid : ℕ
upload_sid = 0x35

-- The constructor, which refuses a transfer without a direction.
unfoldable pub new_request_transfer : ℕ → TransferDirection → Result RequestTransfer
new_request_transfer sid nowhere = throws invalid_argument
new_request_transfer sid direction = ok (record { sid = sid; direction = direction })

abbrev pub download_service : RequestTransfer
download_service = record { sid = download_sid; direction = download }

abbrev pub upload_service : RequestTransfer
upload_service = record { sid = upload_sid; direction = upload }

-- `TryParseLengthFormat`: the address and the size. The clauses are the test on the length of the
-- list.
unfoldable pub try_parse_length_format : ℕ → ℕ → List ℕ → Option (ℕ × ℕ)
try_parse_length_format format lengths (a ∷ b ∷ c ∷ d ∷ []) =
    if format == 0
    then (if bit_and lengths 0x0f == 2 && lengths / 2 ^ 4 == 2
        then some (bit_or (a * 2 ^ 8) b, bit_or (c * 2 ^ 8) d)
        else none)
    else none
try_parse_length_format format lengths _ = none

-- `RequestDataTransfer` (and `TryRequestTransfer`): the state, and the exception if one is set.
unfoldable pub request_data_transfer :
    RequestTransfer → TransferData → ℕ → ℕ → List ℕ → TransferData × Option ℕ
request_data_transfer r t format lengths address_and_size =
    elim (try_parse_length_format format lengths address_and_size) [
      | none ↦ (t, some 0x31)
      | some place ↦ (
        (try_set_configuration t r.direction place.0 place.1).0,
        (if (try_set_configuration t r.direction place.0 place.1).1 then none else some 0x70),
      )
    ]

-- `TryGeneratePositiveResponse`.
unfoldable pub try_positive_response : RequestTransfer → Option ℕ → Option (List ℕ)
try_positive_response r none = none
try_positive_response r (some block_length) =
    some ((r.sid + 0x40) % 2 ^ 8 ∷ 0x10 ∷ block_length ∷ [])

-- The response once `RequestDataTransfer` has returned.
unfoldable pub respond : RequestTransfer → Option ℕ → Option ℕ → List ℕ
respond r block_length (some nrc) = negative_response r.sid nrc
respond r block_length none = elim (try_positive_response r block_length) [
  | none ↦ negative_response r.sid 0x70
  | some response ↦ response
]

-- `HandleMessage`; `TryParseRequest` is its first clause.
unfoldable pub handle_request :
    RequestTransfer → Option ℕ → TransferData → List ℕ → Result (TransferData × List ℕ)
handle_request r block_length t (service ∷ format ∷ lengths ∷ first ∷ rest) =
    let result = request_data_transfer r t format lengths (first ∷ rest) in
    ok (result.0, respond r block_length result.1)
handle_request r block_length t _ = ok (t, negative_response r.sid 0x13)

-- The four services as the router sees them, all offered.
unfoldable pub transfer_services : Option ℕ → List (ℕ × RoutableUdsService TransferData)
transfer_services block_length =
    (
      download_sid,
      record {
        sid = download_sid;
        offered = true;
        handle = handle_request download_service block_length;
      },
    )
    ∷ (
      upload_sid,
      record {
        sid = upload_sid;
        offered = true;
        handle = handle_request upload_service block_length;
      },
    )
    ∷ (
      transfer_data_sid,
      record { sid = transfer_data_sid; offered = true; handle = handle_message },
    )
    ∷ (transfer_exit_sid, record { sid = transfer_exit_sid; offered = true; handle = handle_exit })
    ∷ []
