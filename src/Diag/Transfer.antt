-- ===== src/Diag/Transfer.antt =====
-- src/ara/diag/routing/transfer_data.cpp and request_transfer_exit.cpp: transfer of data between a
-- diagnostic client and a memory pool. The source leaves the pool, the address and the size
-- uninitialised, so a new service takes a pool. The copy of a block reads `mMemorySize` bytes of
-- the request, which is undefined behaviour when it has fewer, as is a segment outside the pool.
pub mod Request
pub mod Bounds
pub mod Session
pub mod RoundTrip
pub mod Retry
pub mod Blocked
pub mod Tests
use adaptive_autosar.Prelude.{
  ℕ, ◌+◌, ◌%◌, ◌^◌, Bool, true, false, ◌||◌, List, [], ◌∷◌, ◌++◌, if◌then◌else◌, ◌==◌, ltb, leb,
  length, take, drop, Result, ok, throws, undefined,
}
use adaptive_autosar.Diag.Routing.{negative_response}

pub data TransferDirection : Type 0 where
  nowhere download upload : TransferDirection

pub record TransferData : Type 0 where
  pub direction : TransferDirection
  pub memory_address : ℕ
  pub memory_size : ℕ
  pub memory_pool : List ℕ
  pub current_counter : ℕ
  pub next_counter : ℕ

abbrev pub memory_pool_size : ℕ
memory_pool_size = 1024

abbrev pub initial_counter : ℕ
initial_counter = 1

abbrev pub transfer_data_sid : ℕ
transfer_data_sid = 0x36

abbrev pub transfer_exit_sid : ℕ
transfer_exit_sid = 0x37

unfoldable pub new_transfer_data : List ℕ → TransferData
new_transfer_data pool = record {
  direction = nowhere;
  memory_address = 0;
  memory_size = 0;
  memory_pool = pool;
  current_counter = initial_counter;
  next_counter = initial_counter;
}

-- `tryValidateSequenceCounter`.
unfoldable pub is_expected : TransferData → ℕ → Bool
is_expected t counter = counter == t.current_counter || counter == t.next_counter

-- The segment is not in the pool.
unfoldable pub is_outside : TransferData → Bool
is_outside t = ltb (length t.memory_pool) (t.memory_address + t.memory_size)

-- The segment of the pool that an upload returns.
unfoldable pub segment : TransferData → List ℕ
segment t = take t.memory_size (drop t.memory_address t.memory_pool)

-- The `std::copy` of a download, for a block that is long enough.
unfoldable pub write_segment : TransferData → List ℕ → List ℕ
write_segment t block =
    take t.memory_address t.memory_pool
    ++ (take t.memory_size block ++ drop (t.memory_address + t.memory_size) t.memory_pool)

unfoldable pub positive : ℕ → List ℕ → List ℕ
positive counter bytes = (transfer_data_sid + 0x40) ∷ counter ∷ bytes

-- The counters after a block that succeeded.
unfoldable pub advance : TransferData → ℕ → TransferData
advance t counter = record t { current_counter = counter; next_counter = (counter + 1) % 2 ^ 8 }

-- `tryTransfer`, with the step of the counters that `HandleMessage` takes when it succeeds.
unfoldable pub try_transfer : TransferData → ℕ → List ℕ → Result (TransferData × List ℕ)
unfolding is_outside
try_transfer t counter block = elim t.direction [
  | nowhere ↦ ok (t, negative_response transfer_data_sid 0x24)
  | download ↦
      if is_expected t counter
      then (if ltb (length block) t.memory_size || is_outside t
          then throws undefined
          else ok (
            advance (record t { memory_pool = write_segment t block }) counter,
            positive counter [],
          ))
      else ok (t, negative_response transfer_data_sid 0x73)
  | upload ↦
      if is_expected t counter
      then (if is_outside t
          then throws undefined
          else ok (advance t counter, positive counter (segment t)))
      else ok (t, negative_response transfer_data_sid 0x73)
]

-- `HandleMessage`. The clauses are the test on the length of the request.
unfoldable pub handle_message : TransferData → List ℕ → Result (TransferData × List ℕ)
handle_message t (service ∷ counter ∷ block) = try_transfer t counter block
handle_message t _ = ok (t, negative_response transfer_data_sid 0x13)

-- The tests of `TrySetTransferConfiguration` on the segment.
unfoldable pub fits : ℕ → ℕ → Bool
fits address size =
    if leb memory_pool_size address
    then false
    else if size == 0 || ltb memory_pool_size ((address + size) % 2 ^ 64)
    then false
    else true

-- `TrySetTransferConfiguration`: the state, and whether the configuration was set.
unfoldable pub try_set_configuration :
    TransferData → TransferDirection → ℕ → ℕ → TransferData × Bool
try_set_configuration t nowhere address size = (t, false)
try_set_configuration t direction address size =
    if fits address size
    then elim t.direction [
      | nowhere ↦
          (record t { direction = direction; memory_address = address; memory_size = size }, true)
      | _ ↦ (t, false)
    ]
    else (t, false)

-- `TryResetTransferConfiguration`.
unfoldable pub try_reset_configuration : TransferData → TransferData × Bool
try_reset_configuration t = elim t.direction [
  | nowhere ↦ (t, false)
  | _ ↦ (
    record t {
      direction = nowhere;
      current_counter = initial_counter;
      next_counter = initial_counter;
    },
    true,
  )
]

-- `RequestTransferExit::HandleMessage`.
unfoldable pub handle_exit : TransferData → List ℕ → Result (TransferData × List ℕ)
handle_exit t request =
    if (try_reset_configuration t).1
    then ok ((try_reset_configuration t).0, (transfer_exit_sid + 0x40) ∷ [])
    else ok ((try_reset_configuration t).0, negative_response transfer_exit_sid 0x24)
