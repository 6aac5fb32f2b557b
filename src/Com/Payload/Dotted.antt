-- ===== src/Com/Payload/Dotted.antt =====
-- src/ara/com/helper/ipv4_address.cpp: what the string of an address is.
use adaptive_autosar.Prelude.{
  ℕ, ◌+◌, ◌*◌, ◌/◌, ◌%◌, ◌^◌, ◌<◌, ◌≡◌, refl, List, [], ◌∷◌, ◌++◌, arith, Bool-cases, inl, inr, ltb,
}
use mathlib.Core.Path.{subst}
use adaptive_autosar.Com.Payload.{Ipv4Address, to_string, address_string}

-- The decimal digits of a number, without a zero in front of others.
pub data IsDecimal : ℕ → List ℕ → Type 0 where
  digit : (n : ℕ) → n < 10 → IsDecimal n ((48 + n) ∷ [])
  then_digit :
      (n d : ℕ) (text : List ℕ)
      → 0 < n
      → d < 10
      → IsDecimal n text
      → IsDecimal (n * 10 + d) (text ++ ((48 + d) ∷ []))

-- The octets of an address in decimal, with a dot between each two.
pub record IsDotted (a : Ipv4Address) (text : List ℕ) : Type 0 where
  pub text0 : List ℕ
  pub text1 : List ℕ
  pub text2 : List ℕ
  pub text3 : List ℕ
  pub joined : text ≡ text0 ++ (46 ∷ text1 ++ (46 ∷ text2 ++ (46 ∷ text3)))
  pub decimal0 : IsDecimal a.octet0 text0
  pub decimal1 : IsDecimal a.octet1 text1
  pub decimal2 : IsDecimal a.octet2 text2
  pub decimal3 : IsDecimal a.octet3 text3

pub record HasOctets (a : Ipv4Address) : Type 0 where
  pub octet0 : a.octet0 < 2 ^ 8
  pub octet1 : a.octet1 < 2 ^ 8
  pub octet2 : a.octet2 < 2 ^ 8
  pub octet3 : a.octet3 < 2 ^ 8

two_digits-IsDecimal :
    (n : ℕ) → 10 < n + 1 → n < 100 → IsDecimal n ((48 + n / 10) ∷ (48 + n % 10) ∷ [])
two_digits-IsDecimal n large small =
    subst (λ k. IsDecimal k ((48 + n / 10) ∷ (48 + n % 10) ∷ [])) (omega arith)
      (then_digit (n / 10) (n % 10) ((48 + n / 10) ∷ []) (omega arith) (omega arith)
        (digit (n / 10) (omega arith)))

three_digits-IsDecimal :
    (n : ℕ)
    → 100 < n + 1
    → n < 1000
    → IsDecimal n ((48 + n / 100) ∷ (48 + n / 10 % 10) ∷ (48 + n % 10) ∷ [])
three_digits-IsDecimal n large small =
    let hundreds : n / 10 / 10 ≡ n / 100 = omega arith in
    let front : IsDecimal (n / 10) ((48 + n / 100) ∷ (48 + n / 10 % 10) ∷ []) =
      subst (λ h. IsDecimal (n / 10) ((48 + h) ∷ (48 + n / 10 % 10) ∷ [])) hundreds
        (two_digits-IsDecimal (n / 10) (omega arith) (omega arith)) in
    subst (λ k. IsDecimal k ((48 + n / 100) ∷ (48 + n / 10 % 10) ∷ (48 + n % 10) ∷ []))
      (omega arith)
      (then_digit (n / 10) (n % 10) ((48 + n / 100) ∷ (48 + n / 10 % 10) ∷ []) (omega arith)
        (omega arith) front)

to_string-IsDecimal : (n : ℕ) → n < 2 ^ 8 → IsDecimal n (to_string n)
unfolding to_string
to_string-IsDecimal n h = elim (Bool-cases (ltb n 10)) [
  | inl one ↦ rw (one, to_string) (digit n (ground arith))
  | inr more ↦ elim (Bool-cases (ltb n 100)) [
    | inl two ↦ rw (more, two, to_string) (two_digits-IsDecimal n (ground arith) (ground arith))
    | inr three ↦
        rw (more, three, to_string) (three_digits-IsDecimal n (ground arith) (omega arith))
  ]
]

pub address_string-IsDotted : (a : Ipv4Address) → HasOctets a → IsDotted a (address_string a)
unfolding address_string
address_string-IsDotted a h = record {
  text0 = to_string a.octet0;
  text1 = to_string a.octet1;
  text2 = to_string a.octet2;
  text3 = to_string a.octet3;
  joined = refl;
  decimal0 = to_string-IsDecimal a.octet0 h.octet0;
  decimal1 = to_string-IsDecimal a.octet1 h.octet1;
  decimal2 = to_string-IsDecimal a.octet2 h.octet2;
  decimal3 = to_string-IsDecimal a.octet3 h.octet3;
}
