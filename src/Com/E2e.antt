-- ===== src/Com/E2e.antt =====
-- src/ara/com/e2e/profile11.cpp: end-to-end protection by a CRC byte and a counter. The shared CRC
-- table is the function `crc_entry` of an index. A protected message is `some` of its bytes.
pub mod Corruption
pub mod Channel
use Prim.Native.Nat.{bit_and, bit_or, bit_xor}
use adaptive_autosar.Prelude.{
  ℕ, zero, suc, ◌+◌, ◌-◌, ◌*◌, ◌%◌, ◌^◌, Bool, ◌&&◌, Option, none, some, List, [], ◌∷◌, length,
  drop, if◌then◌else◌, ◌==◌, ltb, leb,
}

pub data CheckStatusType : Type 0 where
  ok_status repeated wrong_sequence no_new_data wrong_crc : CheckStatusType

pub record Profile11 : Type 0 where
  pub protecting_counter : ℕ
  pub checking_counter : ℕ

abbrev pub counter_max : ℕ
counter_max = 0x0e

abbrev pub crc_poly : ℕ
crc_poly = 0x1d

-- The constructor.
abbrev pub new_profile : Profile11
new_profile = record { protecting_counter = 0; checking_counter = 0 }

-- The inner loop of `initializeCrcTable`, on a `uint8_t`.
unfoldable pub crc_round : ℕ → ℕ
crc_round crc =
    if bit_and crc 0x80 == 0 then crc * 2 % 2 ^ 8 else bit_xor (crc * 2) crc_poly % 2 ^ 8

unfoldable pub crc_rounds : ℕ → ℕ → ℕ
unfolding crc_round
crc_rounds zero crc = crc
crc_rounds (suc n) crc = crc_rounds n (crc_round crc)

-- `mCrcTable[i]`, after the initialisation.
unfoldable pub crc_entry : ℕ → ℕ
unfolding crc_rounds
crc_entry i = crc_rounds 8 i

unfoldable pub crc_loop : ℕ → List ℕ → ℕ
unfolding crc_entry
crc_loop result [] = result
crc_loop result (element ∷ bytes) = crc_loop (crc_entry (bit_xor result element)) bytes

unfoldable pub calculate_crc : List ℕ → ℕ → ℕ
unfolding crc_loop
calculate_crc bytes offset = 2 ^ 8 - 1 - crc_loop 0xff (drop offset bytes)

unfoldable pub next_counter : ℕ → ℕ
next_counter counter = if ltb counter counter_max then suc counter else 0

-- `TryProtect`.
unfoldable pub try_protect : Profile11 → List ℕ → Profile11 × Option (List ℕ)
unfolding next_counter calculate_crc
try_protect p [] = (p, none)
try_protect p (b ∷ unprotected) =
    let counter = next_counter p.protecting_counter in
    let counted = bit_or counter 0xf0 ∷ b ∷ unprotected in
    (record p { protecting_counter = counter }, some (calculate_crc counted 0 ∷ counted))

-- The status of an intact message, by the difference of the counters as an `int8_t`.
unfoldable pub sequence_status : ℕ → ℕ → CheckStatusType
sequence_status checking received =
    let delta = (received + 2 ^ 8 - checking) % 2 ^ 8 in
    if delta == 0
    then repeated
    else if ltb checking counter_max && leb (2 ^ 7) delta
    then wrong_sequence
    else ok_status

-- `Check`. The clauses are the test on the size.
unfoldable pub check : Profile11 → List ℕ → Profile11 × CheckStatusType
unfolding sequence_status
check p (crc ∷ unmasked ∷ b ∷ bytes) =
    if crc == calculate_crc (crc ∷ unmasked ∷ b ∷ bytes) 1
    then (
      record p { checking_counter = bit_and unmasked 0x0f },
      sequence_status p.checking_counter (bit_and unmasked 0x0f),
    )
    else (p, wrong_crc)
check p _ = (p, no_new_data)
