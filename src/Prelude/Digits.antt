-- ===== src/Prelude/Digits.antt =====
-- The binary digits of `&` and `^`.
use Prim.Native.Nat.{ℕ, zero, suc, ◌/◌, ◌%◌, ◌^◌, ◌≤◌, ◌<◌, min, bit_and, bit_xor, differ}
use mathlib.Core.Path.{◌≡◌, refl, sym, ap, ◌∙◌}
use native.Mathlib.Omega.{arith}
use native.Mathlib.Nat.{pow-suc, div-div-eq-div-mul}
use adaptive_autosar.Prelude.Bits.{xor_step, and_step}
use adaptive_autosar.Prelude.Tests.{if◌then◌else◌, ◌==◌}

-- The binary digit of a number at a place.
unfoldable pub digit : ℕ → ℕ → ℕ
digit a k = a / 2 ^ k % 2

digit-zero : (a : ℕ) → digit a 0 ≡ a % 2
unfolding digit
digit-zero a = omega arith

digit-suc : (a k : ℕ) → digit a (suc k) ≡ digit (a / 2) k
unfolding digit
digit-suc a k =
    ap (λ n. a / n % 2) (pow-suc 2 k ∙ omega arith)
    ∙ ap (λ n. n % 2) (sym (div-div-eq-div-mul a 2 (2 ^ k)))

differ-lt : (x y : ℕ) → x < 2 → y < 2 → differ x y < 2
differ-lt zero zero hx hy = omega arith
differ-lt zero (suc y) hx hy = omega arith
differ-lt (suc x) zero hx hy = omega arith
differ-lt (suc zero) (suc zero) hx hy = omega arith
differ-lt (suc (suc x)) (suc y) hx hy = absurd (omega arith)
differ-lt (suc x) (suc (suc y)) hx hy = absurd (omega arith)

pub digit-xor : (k a b : ℕ) → digit (bit_xor a b) k ≡ differ (digit a k) (digit b k)
digit-xor zero a b =
    let d = differ-lt (a % 2) (b % 2) (omega arith) (omega arith) in
    rw (digit-zero (bit_xor a b), digit-zero a, digit-zero b) (omega (arith, xor_step a b, d))
digit-xor (suc k) a b =
    let d = differ-lt (a % 2) (b % 2) (omega arith) (omega arith) in
    let half : bit_xor a b / 2 ≡ bit_xor (a / 2) (b / 2) = omega (arith, xor_step a b, d) in
    rw (digit-suc (bit_xor a b) k, digit-suc a k, digit-suc b k, half) (digit-xor k (a / 2) (b / 2))

pub digit-and : (k a b : ℕ) → digit (bit_and a b) k ≡ min (digit a k) (digit b k)
digit-and zero a b =
    rw (digit-zero (bit_and a b), digit-zero a, digit-zero b) (omega (arith, and_step a b))
digit-and (suc k) a b =
    let half : bit_and a b / 2 ≡ bit_and (a / 2) (b / 2) = omega (arith, and_step a b) in
    rw (digit-suc (bit_and a b) k, digit-suc a k, digit-suc b k, half) (digit-and k (a / 2) (b / 2))

pub digit-lt : (a k : ℕ) → digit a k < 2
unfolding digit
digit-lt a k = omega arith

differ-zero : (x : ℕ) → differ x 0 ≡ x
differ-zero zero = refl
differ-zero (suc x) = refl

xor-zero_below : (n a : ℕ) → a ≤ n → bit_xor a 0 ≡ a
xor-zero_below n zero h = refl
xor-zero_below zero (suc a) h = absurd (omega arith)
xor-zero_below (suc n) (suc a) h =
    omega (
      arith,
      xor_step (suc a) 0,
      differ-zero (suc a % 2),
      xor-zero_below n (suc a / 2) (omega arith),
    )

pub bit_xor-zero : (a : ℕ) → bit_xor a 0 ≡ a
bit_xor-zero a = xor-zero_below a a (omega arith)

-- Flipping the bits of a that differ from b and that a mask has: a bit is that of b where the mask
-- has it, and that of a elsewhere.
flip_digit :
    (x y m : ℕ) → x < 2 → y < 2 → m < 2 → differ x (min (differ x y) m) ≡ (if m == 0 then x else y)
flip_digit zero zero zero hx hy hm = refl
flip_digit zero zero (suc zero) hx hy hm = refl
flip_digit zero (suc zero) zero hx hy hm = refl
flip_digit zero (suc zero) (suc zero) hx hy hm = refl
flip_digit (suc zero) zero zero hx hy hm = refl
flip_digit (suc zero) zero (suc zero) hx hy hm = refl
flip_digit (suc zero) (suc zero) zero hx hy hm = refl
flip_digit (suc zero) (suc zero) (suc zero) hx hy hm = refl
flip_digit (suc (suc x)) y m hx hy hm = absurd (omega arith)
flip_digit x (suc (suc y)) m hx hy hm = absurd (omega arith)
flip_digit x y (suc (suc m)) hx hy hm = absurd (omega arith)

pub digit-flip :
    (k a b mask : ℕ)
    → digit (bit_xor a (bit_and (bit_xor a b) mask)) k
      ≡ (if digit mask k == 0 then digit a k else digit b k)
digit-flip k a b mask =
    digit-xor k a (bit_and (bit_xor a b) mask)
    ∙ ap (differ (digit a k))
        (digit-and k (bit_xor a b) mask ∙ ap (λ d. min d (digit mask k)) (digit-xor k a b))
    ∙ flip_digit (digit a k) (digit b k) (digit mask k) (digit-lt a k) (digit-lt b k)
        (digit-lt mask k)
