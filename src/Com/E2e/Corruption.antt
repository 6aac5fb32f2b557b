-- ===== src/Com/E2e/Corruption.antt =====
-- src/ara/com/e2e/profile11.cpp: the CRC of a message, against that of a message that differs from
-- it in one byte.
use Prim.Native.Nat.{bit_xor}
use adaptive_autosar.Prelude.{
  ℕ, zero, suc, ◌+◌, ◌-◌, ◌/◌, ◌%◌, ◌^◌, ◌≤◌, ◌<◌, ◌≡◌, ◌≢◌, refl, sym, ap, ◌∙◌, some, List, [],
  ◌∷◌, ◌++◌, arith, length, if◌then◌else◌, ◌==◌, ltb, ==_iff, ==_ne, all_below_sound, bit_xor-lt,
  AllBytes, bit_xor-undo, bit_xor_comm, ltb→lt, length-append,
}
use adaptive_autosar.Com.E2e.{
  wrong_crc, Profile11, crc_poly, crc_entry, crc_loop, calculate_crc, try_protect, check,
}

AllBytes-append : (xs ys : List ℕ) → AllBytes xs → AllBytes ys → AllBytes (xs ++ ys)
unfolding AllBytes
AllBytes-append [] ys hx hy = hy
AllBytes-append (x ∷ xs) ys (h, hx) hy = (h, AllBytes-append xs ys hx hy)

-- A round of the table's loop, backwards: the polynomial is odd, so the low bit tells the branch.
crc_unround : ℕ → ℕ
crc_unround crc = if crc % 2 == 0 then crc / 2 else bit_xor crc crc_poly / 2 + 0x80

crc_unrounds : ℕ → ℕ → ℕ
unfolding crc_unround
crc_unrounds zero crc = crc
crc_unrounds (suc n) crc = crc_unrounds n (crc_unround crc)

crc_entry-undo : (i : ℕ) → i < 2 ^ 8 → crc_unrounds 8 (crc_entry i) ≡ i
unfolding crc_entry crc_unrounds
crc_entry-undo i h =
    (==_iff (crc_unrounds 8 (crc_entry i)) i).0
      (all_below_sound 256 (λ c. crc_unrounds 8 (crc_entry c) == c) i refl h)

crc_entry-lt : (i : ℕ) → i < 2 ^ 8 → crc_entry i < 2 ^ 8
unfolding crc_entry
crc_entry-lt i h =
    ltb→lt (crc_entry i) 256 (all_below_sound 256 (λ c. ltb (crc_entry c) 256) i refl h)

step-lt : (crc b : ℕ) → crc < 2 ^ 8 → b < 2 ^ 8 → crc_entry (bit_xor crc b) < 2 ^ 8
step-lt crc b hc hb = crc_entry-lt (bit_xor crc b) (bit_xor-lt 8 crc b hc hb)

crc_entry-inj : {i j : ℕ} → i < 2 ^ 8 → j < 2 ^ 8 → crc_entry i ≡ crc_entry j → i ≡ j
crc_entry-inj {i = i} {j = j} hi hj e =
    sym (crc_entry-undo i hi) ∙ ap (crc_unrounds 8) e ∙ crc_entry-undo j hj

-- Equal remainders have equal predecessors, for a common byte.
step-inj :
    {a c b : ℕ}
    → a < 2 ^ 8
    → c < 2 ^ 8
    → b < 2 ^ 8
    → crc_entry (bit_xor a b) ≡ crc_entry (bit_xor c b)
    → a ≡ c
step-inj {a = a} {c = c} {b = b} ha hc hb e =
    let same = crc_entry-inj (bit_xor-lt 8 a b ha hb) (bit_xor-lt 8 c b hc hb) e in
    sym (bit_xor-undo 8 ha hb) ∙ ap (λ x. bit_xor x b) same ∙ bit_xor-undo 8 hc hb

bit_xor-right : {a b c : ℕ} → a < 2 ^ 8 → b < 2 ^ 8 → c < 2 ^ 8 → bit_xor a b ≡ bit_xor a c → b ≡ c
bit_xor-right {a = a} {b = b} {c = c} ha hb hc e =
    sym (bit_xor-undo 8 hb ha)
    ∙ ap (λ x. bit_xor x a) (bit_xor_comm 8 hb ha ∙ e ∙ bit_xor_comm 8 ha hc)
    ∙ bit_xor-undo 8 hc ha

crc_loop-lt : (crc : ℕ) (bytes : List ℕ) → crc < 2 ^ 8 → AllBytes bytes → crc_loop crc bytes < 2 ^ 8
unfolding crc_loop AllBytes
crc_loop-lt crc [] hc hb = hc
crc_loop-lt crc (b ∷ bytes) hc (hb, rest) =
    crc_loop-lt (crc_entry (bit_xor crc b)) bytes (step-lt crc b hc hb) rest

crc_loop-inj :
    (bytes : List ℕ) {a c : ℕ}
    → a < 2 ^ 8
    → c < 2 ^ 8
    → AllBytes bytes
    → crc_loop a bytes ≡ crc_loop c bytes
    → a ≡ c
unfolding crc_loop AllBytes
crc_loop-inj [] ha hc hb e = e
crc_loop-inj (b ∷ bytes) {a = a} {c = c} ha hc (hb, rest) e =
    step-inj ha hc hb (crc_loop-inj bytes (step-lt a b ha hb) (step-lt c b hc hb) rest e)

-- The remainder tells which byte stands at a place.
crc_loop-byte :
    (crc : ℕ) (before : List ℕ) (x y : ℕ) (after : List ℕ)
    → crc < 2 ^ 8
    → AllBytes before
    → x < 2 ^ 8
    → y < 2 ^ 8
    → AllBytes after
    → crc_loop crc (before ++ x ∷ after) ≡ crc_loop crc (before ++ y ∷ after)
    → x ≡ y
unfolding crc_loop AllBytes
crc_loop-byte crc [] x y after hc hb hx hy ha e =
    let same = crc_loop-inj after (step-lt crc x hc hx) (step-lt crc y hc hy) ha e in
    bit_xor-right hc hx hy
      (crc_entry-inj (bit_xor-lt 8 crc x hc hx) (bit_xor-lt 8 crc y hc hy) same)
crc_loop-byte crc (b ∷ before) x y after hc (hb, rest) hx hy ha e =
    crc_loop-byte (crc_entry (bit_xor crc b)) before x y after (step-lt crc b hc hb) rest hx hy ha e

check-wrong :
    (receiver : Profile11) (crc : ℕ) (bytes : List ℕ)
    → 2 ≤ length bytes
    → crc ≢ 2 ^ 8 - 1 - crc_loop 0xff bytes
    → check receiver (crc ∷ bytes) ≡ (receiver, wrong_crc)
unfolding check calculate_crc
check-wrong receiver crc [] long h = absurd (omega arith)
check-wrong receiver crc (b ∷ []) long h = absurd (omega arith)
check-wrong receiver crc (b ∷ c ∷ bytes) long h =
    rw (==_ne crc (2 ^ 8 - 1 - crc_loop 0xff (b ∷ c ∷ bytes)) h) refl

some-cons-inj : {a b : ℕ} {xs bs : List ℕ} → some (a ∷ xs) ≡ some (b ∷ bs) → (a ≡ b) × (xs ≡ bs)
some-cons-inj h = (cc, cc)

try_protect-crc :
    (sender : Profile11) (message : List ℕ) (crc : ℕ) (bytes : List ℕ)
    → (try_protect sender message).1 ≡ some (crc ∷ bytes)
    → (crc ≡ 2 ^ 8 - 1 - crc_loop 0xff bytes) × (2 ≤ length bytes)
unfolding try_protect calculate_crc
try_protect-crc sender [] crc bytes h = cc
try_protect-crc sender (b ∷ message) crc bytes h =
    let (head, tail) = some-cons-inj h in rw (← tail) (sym head, omega arith)

-- Replacing any single byte of a message that TryProtect made by another byte makes Check answer
-- kWrongCrc and change nothing.
pub check-corrupted :
    (sender receiver : Profile11) (message before after : List ℕ) (x y : ℕ)
    → (try_protect sender message).1 ≡ some (before ++ x ∷ after)
    → AllBytes before
    → x < 2 ^ 8
    → y < 2 ^ 8
    → AllBytes after
    → x ≢ y
    → check receiver (before ++ y ∷ after) ≡ (receiver, wrong_crc)
unfolding AllBytes
check-corrupted sender receiver message [] after x y h hb hx hy ha differ =
    let (crc, long) = try_protect-crc sender message x after h in
    check-wrong receiver y after long (λ e. differ (omega (arith, e, crc)))
check-corrupted sender receiver message (c ∷ before) after x y h (hc, hb) hx hy ha differ =
    let (crc, long) = try_protect-crc sender message c (before ++ x ∷ after) h in
    let size = length-append before in
    let lx =
      crc_loop-lt 0xff (before ++ x ∷ after) (omega arith) (AllBytes-append before _ hb (hx, ha)) in
    let ly =
      crc_loop-lt 0xff (before ++ y ∷ after) (omega arith) (AllBytes-append before _ hb (hy, ha)) in
    check-wrong receiver c (before ++ y ∷ after)
      (omega (arith, long, size (x ∷ after), size (y ∷ after)))
      (λ e. differ (
        crc_loop-byte 0xff before x y after (omega arith) hb hx hy ha
          (omega (arith, e, crc, lx, ly))))
