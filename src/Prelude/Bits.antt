-- ===== src/Prelude/Bits.antt =====
-- `|` of a shifted value with one that fits below the shift, `&` with a mask of low ones, and `^`.
-- Over a byte, any other law is tabulated.
use Prim.Native.Nat.{
  ℕ, zero, suc, ◌+◌, ◌-◌, ◌*◌, ◌/◌, ◌%◌, ◌^◌, ◌≤◌, ◌<◌, min, max, bit_and, bit_or, bit_xor, digits,
  differ, bit_and-bitwise, bit_or-bitwise, bit_xor-bitwise,
}
use mathlib.Core.Path.{◌≡◌, refl, ap, ◌∙◌}
use mathlib.Core.Bool.{Bool, true, ◌&&◌}
use native.Mathlib.Omega.{arith}
use native.Mathlib.Nat.{pow-suc, mod-lt, mod-eq_of_lt, div-add-mod, add-mul-mod_self_right}

-- The digit recursion does not depend on its fuel, once that reaches the first argument.
module _ (g : ℕ → ℕ) (f : ℕ → ℕ → ℕ) where
  fuel_enough : (n m a b : ℕ) → a ≤ n → a ≤ m → digits g f n a b ≡ digits g f m a b
  fuel_enough zero zero a b p q = refl
  fuel_enough zero (suc m) zero b p q = refl
  fuel_enough (suc n) zero zero b p q = refl
  fuel_enough (suc n) (suc m) zero b p q = refl
  fuel_enough zero _ (suc a) b p q = absurd (omega arith)
  fuel_enough (suc n) zero (suc a) b p q = absurd (omega arith)
  fuel_enough (suc n) (suc m) (suc a) b p q =
      omega (arith, fuel_enough n m (suc a / 2) (b / 2) (omega arith) (omega arith))

zero-or : (b : ℕ) → bit_or 0 b ≡ b
zero-or b = bit_or-bitwise 0 b

or_step : (a b : ℕ) → bit_or a b ≡ bit_or (a / 2) (b / 2) * 2 + max (a % 2) (b % 2)
or_step zero b = omega (arith, zero-or b, zero-or (b / 2))
or_step (suc a) b = omega (
  arith,
  bit_or-bitwise (suc a) b,
  bit_or-bitwise (suc a / 2) (b / 2),
  fuel_enough (λ c. c) max a (suc a / 2) (suc a / 2) (b / 2) (omega arith) (omega arith),
)

zero-and : (b : ℕ) → bit_and 0 b ≡ 0
zero-and b = bit_and-bitwise 0 b

pub and_step : (a b : ℕ) → bit_and a b ≡ bit_and (a / 2) (b / 2) * 2 + min (a % 2) (b % 2)
and_step zero b = omega (arith, zero-and b, zero-and (b / 2))
and_step (suc a) b = omega (
  arith,
  bit_and-bitwise (suc a) b,
  bit_and-bitwise (suc a / 2) (b / 2),
  fuel_enough (λ c. 0) min a (suc a / 2) (suc a / 2) (b / 2) (omega arith) (omega arith),
)

and-zero_below : (n a : ℕ) → a ≤ n → bit_and a 0 ≡ 0
and-zero_below n zero h = zero-and 0
and-zero_below zero (suc a) h = absurd (omega arith)
and-zero_below (suc n) (suc a) h =
    omega (arith, and_step (suc a) 0, and-zero_below n (suc a / 2) (omega arith))

or-zero_below : (n a : ℕ) → a ≤ n → bit_or a 0 ≡ a
or-zero_below n zero h = zero-or 0
or-zero_below zero (suc a) h = absurd (omega arith)
or-zero_below (suc n) (suc a) h =
    omega (arith, or_step (suc a) 0, or-zero_below n (suc a / 2) (omega arith))

or_double : (a y : ℕ) → bit_or (a * 2) y ≡ bit_or a (y / 2) * 2 + y % 2
or_double a y =
    let half : a * 2 / 2 ≡ a = omega arith in
    omega (arith, or_step (a * 2) y, ap (λ t. bit_or t (y / 2)) half)

-- `(x << k) | y` is a sum when `y` has at most k bits.
pub bit_or_shifted : (k x y : ℕ) → y < 2 ^ k → bit_or (x * 2 ^ k) y ≡ x * 2 ^ k + y
bit_or_shifted zero x y h =
    let e : y ≡ 0 = omega arith in rw e (omega (arith, or-zero_below (x * 1) (x * 1) (omega arith)))
bit_or_shifted (suc k) x y h =
    let double : 2 ^ suc k ≡ 2 ^ k * 2 = pow-suc 2 k in
    let shift : x * 2 ^ suc k ≡ x * 2 ^ k * 2 = rw double (omega arith) in
    omega (
      arith,
      ap (λ t. bit_or t y) shift,
      or_double (x * 2 ^ k) y,
      bit_or_shifted k x (y / 2) (omega (arith, double)),
      shift,
    )

and_mask_step : (m x : ℕ) → 0 < m → bit_and x (m * 2 - 1) ≡ bit_and (x / 2) (m - 1) * 2 + x % 2
and_mask_step m x h =
    let half : (m * 2 - 1) / 2 ≡ m - 1 = omega arith in
    omega (arith, and_step x (m * 2 - 1), ap (bit_and (x / 2)) half)

mod_double : (m x : ℕ) → 0 < m → x % (m * 2) ≡ (x / 2) % m * 2 + x % 2
mod_double m x h =
    let low : ℕ = (x / 2) % m * 2 + x % 2 in
    let small : low < m * 2 = grind (arith, mod-lt (x / 2) h) in
    let split : x ≡ low + x / 2 / m * (m * 2) = omega (arith, div-add-mod (x / 2) m) in
    ap (λ t. t % (m * 2)) split
    ∙ add-mul-mod_self_right low (x / 2 / m) (m * 2)
    ∙ mod-eq_of_lt small

pow-pos : (k : ℕ) → 0 < 2 ^ k
pow-pos zero = omega arith
pow-pos (suc k) = rw (pow-suc 2 k) (omega (arith, pow-pos k))

-- `x & (2 ^ k - 1)` keeps the low k bits.
pub bit_and_mask : (k x : ℕ) → bit_and x (2 ^ k - 1) ≡ x % 2 ^ k
bit_and_mask zero x = omega (arith, and-zero_below x x (omega arith))
bit_and_mask (suc k) x =
    let positive : 0 < 2 ^ k = pow-pos k in
    rw (pow-suc 2 k) (
      omega (
        arith,
        and_mask_step (2 ^ k) x positive,
        mod_double (2 ^ k) x positive,
        bit_and_mask k (x / 2),
      ))

zero-xor : (b : ℕ) → bit_xor 0 b ≡ b
zero-xor b = bit_xor-bitwise 0 b

pub xor_step : (a b : ℕ) → bit_xor a b ≡ bit_xor (a / 2) (b / 2) * 2 + differ (a % 2) (b % 2)
xor_step zero b = omega (arith, zero-xor b, zero-xor (b / 2))
xor_step (suc a) b = omega (
  arith,
  bit_xor-bitwise (suc a) b,
  bit_xor-bitwise (suc a / 2) (b / 2),
  fuel_enough (λ c. c) differ a (suc a / 2) (suc a / 2) (b / 2) (omega arith) (omega arith),
)

differ-digits : (x y : ℕ) → x < 2 → y < 2 → (differ x y < 2) × (differ (differ x y) y ≡ x)
differ-digits zero zero hx hy = (omega arith, refl)
differ-digits zero (suc zero) hx hy = (omega arith, refl)
differ-digits (suc zero) zero hx hy = (omega arith, refl)
differ-digits (suc zero) (suc zero) hx hy = (omega arith, refl)
differ-digits (suc (suc x)) y hx hy = absurd (omega arith)
differ-digits x (suc (suc y)) hx hy = absurd (omega arith)

-- Exclusive or keeps to k bits, and undoes itself.
pub bit_xor-lt : (k a b : ℕ) → a < 2 ^ k → b < 2 ^ k → bit_xor a b < 2 ^ k
bit_xor-lt zero a b ha hb =
    let ea : a ≡ 0 = omega arith in let eb : b ≡ 0 = omega arith in rw (ea, eb) (omega arith)
bit_xor-lt (suc k) a b ha hb =
    let double : 2 ^ suc k ≡ 2 ^ k * 2 = pow-suc 2 k in
    let (digit, back) = differ-digits (a % 2) (b % 2) (omega arith) (omega arith) in
    omega (
      arith,
      double,
      xor_step a b,
      digit,
      bit_xor-lt k (a / 2) (b / 2) (omega (arith, double)) (omega (arith, double)),
    )

xor_undo_below : (k a b : ℕ) → a < 2 ^ k → b < 2 ^ k → bit_xor (bit_xor a b) b ≡ a
xor_undo_below zero a b ha hb =
    let ea : a ≡ 0 = omega arith in let eb : b ≡ 0 = omega arith in rw (ea, eb) refl
xor_undo_below (suc k) a b ha hb =
    let double : 2 ^ suc k ≡ 2 ^ k * 2 = pow-suc 2 k in
    let (digit, back) = differ-digits (a % 2) (b % 2) (omega arith) (omega arith) in
    let high = bit_xor (a / 2) (b / 2) in
    let half : bit_xor a b / 2 ≡ high = omega (arith, xor_step a b, digit) in
    let low : bit_xor a b % 2 ≡ differ (a % 2) (b % 2) = omega (arith, xor_step a b, digit) in
    let rest = xor_undo_below k (a / 2) (b / 2) (omega (arith, double)) (omega (arith, double)) in
    omega (
      arith,
      xor_step (bit_xor a b) b,
      ap (λ h. bit_xor h (b / 2)) half,
      ap (λ d. differ d (b % 2)) low,
      back,
      rest,
    )

pub bit_xor-undo : (k : ℕ) {a b : ℕ} → a < 2 ^ k → b < 2 ^ k → bit_xor (bit_xor a b) b ≡ a
bit_xor-undo k {a = a} {b = b} = xor_undo_below k a b

differ_comm : (x y : ℕ) → differ x y ≡ differ y x
differ_comm zero zero = refl
differ_comm zero (suc y) = refl
differ_comm (suc x) zero = refl
differ_comm (suc x) (suc y) = differ_comm x y

xor_comm_below : (k a b : ℕ) → a < 2 ^ k → b < 2 ^ k → bit_xor a b ≡ bit_xor b a
xor_comm_below zero a b ha hb =
    let ea : a ≡ 0 = omega arith in let eb : b ≡ 0 = omega arith in rw (ea, eb) refl
xor_comm_below (suc k) a b ha hb =
    let double : 2 ^ suc k ≡ 2 ^ k * 2 = pow-suc 2 k in
    omega (
      arith,
      xor_step a b,
      xor_step b a,
      differ_comm (a % 2) (b % 2),
      xor_comm_below k (a / 2) (b / 2) (omega (arith, double)) (omega (arith, double)),
    )

pub bit_xor_comm : (k : ℕ) {a b : ℕ} → a < 2 ^ k → b < 2 ^ k → bit_xor a b ≡ bit_xor b a
bit_xor_comm k {a = a} {b = b} = xor_comm_below k a b

-- Over a small range, a test holds of every value if it evaluates to true at each.
abbrev pub all_below : ℕ → (ℕ → Bool) → Bool
all_below zero p = true
all_below (suc n) p = p n && all_below n p

pub all_below_sound : (n : ℕ) (p : ℕ → Bool) (x : ℕ) → all_below n p ≡ true → x < n → p x ≡ true
all_below_sound zero p x h lt = absurd (omega arith)
all_below_sound (suc n) p x h lt = ground (arith, all_below_sound n p x)
