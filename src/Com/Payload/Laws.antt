-- ===== src/Com/Payload/Laws.antt =====
-- Reading back what was written. `Reads v offset rest` says that the bytes of `v` from the
-- offset on are `rest`.
use Prim.Native.Nat.{bit_or}
use native.Mathlib.Nat.{zero-add}
use adaptive_autosar.Prelude.{
  ℕ, zero, suc, ◌+◌, ◌*◌, ◌/◌, ◌%◌, ◌^◌, ◌<◌, ◌≡◌, List, [], ◌∷◌, ◌++◌, arith, ok, drop, length,
  bit_or_shifted,
}
use adaptive_autosar.Com.Payload.{
  at, inject_short, inject_integer, extract_short, extract_integer, Ipv4Address, inject_address,
  extract_address,
}

abbrev pub Reads : List ℕ → ℕ → List ℕ → Type 0
Reads v offset rest = drop offset v ≡ rest

pub at-Reads : (v : List ℕ) (i : ℕ) (b : ℕ) (rest : List ℕ) → Reads v i (b ∷ rest) → at v i ≡ ok b
unfolding at
at-Reads [] zero b rest h = cc
at-Reads [] (suc i) b rest h = cc
at-Reads (c ∷ v) zero b rest h = cc
at-Reads (c ∷ v) (suc i) b rest h = at-Reads v i b rest h

pub Reads-suc :
    (v : List ℕ) (i : ℕ) (b : ℕ) (rest : List ℕ) → Reads v i (b ∷ rest) → Reads v (suc i) rest
Reads-suc [] zero b rest h = cc
Reads-suc [] (suc i) b rest h = cc
Reads-suc (c ∷ v) zero b rest h = cc
Reads-suc (c ∷ v) (suc i) b rest h = Reads-suc v i b rest h

-- Skipping `n` bytes, as the code does by `offset += n`.
pub Reads-append :
    (v : List ℕ) (i : ℕ) (bs rest : List ℕ) → Reads v i (bs ++ rest) → Reads v (length bs + i) rest
Reads-append v i [] rest h = rw zero-add h
Reads-append v i (b ∷ bs) rest h =
    let shift : length (b ∷ bs) + i ≡ length bs + suc i = omega arith in
    rw shift (Reads-append v (suc i) bs rest (Reads-suc v i b (bs ++ rest) h))

pub Reads-two :
    (v : List ℕ) (i a b : ℕ) (rest : List ℕ) → Reads v i (a ∷ b ∷ rest) → Reads v (suc (suc i)) rest
Reads-two v i a b rest h = Reads-suc v (suc i) b rest (Reads-suc v i a (b ∷ rest) h)

pub Reads-four :
    (v : List ℕ) (i a b c d : ℕ) (rest : List ℕ)
    → Reads v i (a ∷ b ∷ c ∷ d ∷ rest)
    → Reads v (suc (suc (suc (suc i)))) rest
Reads-four v i a b c d rest h =
    Reads-two v (suc (suc i)) c d rest (Reads-two v i a b (c ∷ d ∷ rest) h)

pub Reads-short :
    (v : List ℕ) (i x : ℕ) (rest : List ℕ)
    → Reads v i (inject_short x ++ rest)
    → Reads v (suc (suc i)) rest
unfolding inject_short
Reads-short v i x rest h = Reads-two v i _ _ rest h

pub Reads-integer :
    (v : List ℕ) (i x : ℕ) (rest : List ℕ)
    → Reads v i (inject_integer x ++ rest)
    → Reads v (suc (suc (suc (suc i)))) rest
unfolding inject_integer
Reads-integer v i x rest h = Reads-four v i _ _ _ _ rest h

pub Reads-address :
    (v : List ℕ) (i : ℕ) (a : Ipv4Address) (rest : List ℕ)
    → Reads v i (inject_address a ++ rest)
    → Reads v (suc (suc (suc (suc i)))) rest
unfolding inject_address
Reads-address v i a rest h = Reads-four v i _ _ _ _ rest h

pub extract_short-Reads :
    (v : List ℕ) (i x : ℕ) (rest : List ℕ)
    → x < 2 ^ 16
    → Reads v i (inject_short x ++ rest)
    → extract_short v i ≡ ok (x, suc (suc i))
unfolding inject_short extract_short
extract_short-Reads v i x rest small h =
    let h1 = Reads-suc v i _ _ h in
    let value : bit_or (x / 2 ^ 8 % 2 ^ 8 * 2 ^ 8) (x % 2 ^ 8) ≡ x =
      omega (arith, bit_or_shifted 8 (x / 2 ^ 8 % 2 ^ 8) (x % 2 ^ 8) (omega arith)) in
    rw (at-Reads v i _ _ h, at-Reads v (suc i) _ _ h1, value)

-- The four bytes of a word joined from the top, as `ExtractInteger` joins them.
join_bytes :
    (b3 b2 b1 b0 : ℕ)
    → b2 < 256
    → b1 < 256
    → b0 < 256
    → bit_or (bit_or (bit_or (b3 * 2 ^ 24) (b2 * 2 ^ 16)) (b1 * 2 ^ 8)) b0
      ≡ b3 * 2 ^ 24 + b2 * 2 ^ 16 + b1 * 2 ^ 8 + b0
join_bytes b3 b2 b1 b0 h2 h1 h0 =
    let top = bit_or_shifted 24 b3 (b2 * 2 ^ 16) (omega arith) in
    let regroup2 : b3 * 2 ^ 24 + b2 * 2 ^ 16 ≡ (b3 * 2 ^ 8 + b2) * 2 ^ 16 = omega arith in
    let middle = bit_or_shifted 16 (b3 * 2 ^ 8 + b2) (b1 * 2 ^ 8) (omega arith) in
    let regroup1 : (b3 * 2 ^ 8 + b2) * 2 ^ 16 + b1 * 2 ^ 8
        ≡ (b3 * 2 ^ 16 + b2 * 2 ^ 8 + b1) * 2 ^ 8 =
      omega arith in
    let bottom = bit_or_shifted 8 (b3 * 2 ^ 16 + b2 * 2 ^ 8 + b1) b0 (omega arith) in
    rw (top, regroup2, middle, regroup1, bottom) (omega arith)

pub extract_integer-Reads :
    (v : List ℕ) (i x : ℕ) (rest : List ℕ)
    → x < 2 ^ 32
    → Reads v i (inject_integer x ++ rest)
    → extract_integer v i ≡ ok (x, suc (suc (suc (suc i))))
unfolding inject_integer extract_integer
extract_integer-Reads v i x rest small h =
    let h1 = Reads-suc v i _ _ h in
    let h2 = Reads-suc v (suc i) _ _ h1 in
    let h3 = Reads-suc v (suc (suc i)) _ _ h2 in
    let value : bit_or
          (bit_or (bit_or (x / 2 ^ 24 % 2 ^ 8 * 2 ^ 24) (x / 2 ^ 16 % 2 ^ 8 * 2 ^ 16))
            (x / 2 ^ 8 % 2 ^ 8 * 2 ^ 8))
          (x % 2 ^ 8)
        ≡ x =
      omega (
        arith,
        join_bytes (x / 2 ^ 24 % 2 ^ 8) (x / 2 ^ 16 % 2 ^ 8) (x / 2 ^ 8 % 2 ^ 8) (x % 2 ^ 8)
            (omega arith) (omega arith) (omega arith),
      ) in
    rw (
      at-Reads v i _ _ h,
      at-Reads v (suc i) _ _ h1,
      at-Reads v (suc (suc i)) _ _ h2,
      at-Reads v (suc (suc (suc i))) _ _ h3,
      value,
    )

pub extract_address-Reads :
    (v : List ℕ) (i : ℕ) (a : Ipv4Address) (rest : List ℕ)
    → Reads v i (inject_address a ++ rest)
    → extract_address v i ≡ ok (a, suc (suc (suc (suc i))))
unfolding inject_address extract_address
extract_address-Reads v i a rest h =
    let h1 = Reads-suc v i _ _ h in
    let h2 = Reads-suc v (suc i) _ _ h1 in
    let h3 = Reads-suc v (suc (suc i)) _ _ h2 in
    rw (
      at-Reads v i _ _ h,
      at-Reads v (suc i) _ _ h1,
      at-Reads v (suc (suc i)) _ _ h2,
      at-Reads v (suc (suc (suc i))) _ _ h3,
    )
