-- ===== src/Com/E2e/Channel.antt =====
-- src/ara/com/e2e/profile11.cpp: a sender and a receiver with equal counters that exchange
-- messages.
use Prim.Native.Nat.{bit_and, bit_or}
use adaptive_autosar.Prelude.{
  ℕ, ◌≤◌, ◌≡◌, refl, ap, none, some, List, [], ◌∷◌, arith, ◌==◌, ==_iff, ==_self, all_below_sound,
}
use adaptive_autosar.Com.E2e.{
  CheckStatusType, ok_status, Profile11, counter_max, calculate_crc, next_counter, try_protect,
  sequence_status, check,
}

-- Each message of a list is protected by the sender and checked by the receiver.
unfoldable pub exchange :
    Profile11 → Profile11 → List (List ℕ) → Profile11 × Profile11 × List CheckStatusType
exchange sender receiver [] = (sender, receiver, [])
exchange sender receiver (message ∷ messages) = elim (try_protect sender message).1 [
  | none ↦ exchange (try_protect sender message).0 receiver messages
  | some bytes ↦
      let rest = exchange (try_protect sender message).0 (check receiver bytes).0 messages in
      (rest.0, rest.1, (check receiver bytes).1 ∷ rest.2)
]

-- One status for each message, all of them ok.
pub data AllOk : List CheckStatusType → Type 0 where
  nothing : AllOk []
  another : {statuses : List CheckStatusType} → AllOk statuses → AllOk (ok_status ∷ statuses)

pub data IsSynced (sender receiver : Profile11) : Type 0 where
  synced :
      sender.protecting_counter ≡ receiver.checking_counter
      → sender.protecting_counter ≤ counter_max
      → IsSynced sender receiver

next_counter-le : (c : ℕ) → next_counter c ≤ counter_max
unfolding next_counter
next_counter-le c = ground arith

mask_counter : (c : ℕ) → c ≤ counter_max → bit_and (bit_or c 0xf0) 0x0f ≡ c
mask_counter c h =
    (==_iff (bit_and (bit_or c 0xf0) 0x0f) c).0
      (all_below_sound 16 (λ c. bit_and (bit_or c 0xf0) 0x0f == c) c refl (omega arith))

sequence_status-next : (c : ℕ) → c ≤ counter_max → sequence_status c (next_counter c) ≡ ok_status
unfolding sequence_status next_counter
sequence_status-next c h = ground arith

check-counted :
    (receiver : Profile11) (c b : ℕ) (message : List ℕ)
    → receiver.checking_counter ≤ counter_max
    → c ≡ next_counter receiver.checking_counter
    → let counted = bit_or c 0xf0 ∷ b ∷ message in
      check receiver (calculate_crc counted 0 ∷ counted)
      ≡ (record receiver { checking_counter = c }, ok_status)
unfolding check calculate_crc
check-counted receiver c b message small same =
    let mask = mask_counter c (omega (arith, same, next_counter-le receiver.checking_counter)) in
    rw
      (
        ==_self (calculate_crc (bit_or c 0xf0 ∷ b ∷ message) 0),
        mask,
        same,
        sequence_status-next receiver.checking_counter small,
      )
      refl

-- Over any sequence of messages, a receiver whose counter equals the sender's, which is at most
-- 14, accepts every protected message with kOk, and the counters stay equal.
pub exchange-AllOk :
    (sender receiver : Profile11) (messages : List (List ℕ))
    → IsSynced sender receiver
    → let (sender', receiver', statuses) = exchange sender receiver messages in
      AllOk statuses × IsSynced sender' receiver'
unfolding exchange try_protect
exchange-AllOk sender receiver [] s = (nothing, s)
exchange-AllOk sender receiver ([] ∷ messages) s = exchange-AllOk sender receiver messages s
exchange-AllOk sender receiver ((b ∷ message) ∷ messages) (synced same small) =
    let c = next_counter sender.protecting_counter in
    let accepted =
      check-counted receiver c b message (omega (arith, same)) (ap next_counter same) in
    let sender' : Profile11 = record sender { protecting_counter = c } in
    let receiver' : Profile11 = record receiver { checking_counter = c } in
    let (statuses, end) =
      exchange-AllOk sender' receiver' messages
        (synced refl (next_counter-le sender.protecting_counter)) in
    rw accepted (another statuses, end)
