-- ===== src/Com/Payload.antt =====
-- src/ara/com/helper/payload_helper.cpp and ipv4_address.cpp: big-endian numbers in byte vectors.
-- A byte vector is a list; a call that appends to a vector returns what it appends; one that
-- advances an offset returns the new offset beside its value. `size_t` offsets are not wrapped:
-- an offset is at most a few steps past the size of a vector in memory.
pub mod Laws
pub mod Dotted
use Prim.Native.Nat.{bit_or}
use adaptive_autosar.Prelude.{
  ℕ, zero, suc, ◌+◌, ◌*◌, ◌/◌, ◌%◌, ◌^◌, ◌++◌, if◌then◌else◌, ltb, List, [], ◌∷◌, Result, ok,
  throws, out_of_range, undefined, ◌>>=◌,
}

-- `vector.at(i)`.
unfoldable pub at : List ℕ → ℕ → Result ℕ
at [] i = throws out_of_range
at (b ∷ v) zero = ok b
at (b ∷ v) (suc i) = at v i

-- `vector[i]`, which checks nothing.
unfoldable pub get_unchecked : List ℕ → ℕ → Result ℕ
get_unchecked [] i = throws undefined
get_unchecked (b ∷ v) zero = ok b
get_unchecked (b ∷ v) (suc i) = get_unchecked v i

-- `Inject(vector, uint16_t)`.
unfoldable pub inject_short : ℕ → List ℕ
inject_short value = value / 2 ^ 8 % 2 ^ 8 ∷ value % 2 ^ 8 ∷ []

-- `Inject(vector, uint32_t)`.
unfoldable pub inject_integer : ℕ → List ℕ
inject_integer value =
    value / 2 ^ 24 % 2 ^ 8 ∷ value / 2 ^ 16 % 2 ^ 8 ∷ value / 2 ^ 8 % 2 ^ 8 ∷ value % 2 ^ 8 ∷ []

unfoldable pub extract_short : List ℕ → ℕ → Result (ℕ × ℕ)
extract_short v offset = do
  high ← at v offset
  low ← at v (suc offset)
  ok (bit_or (high * 2 ^ 8) low, suc (suc offset))

unfoldable pub extract_integer : List ℕ → ℕ → Result (ℕ × ℕ)
extract_integer v offset = do
  byte3 ← at v offset
  byte2 ← at v (suc offset)
  byte1 ← at v (suc (suc offset))
  byte0 ← at v (suc (suc (suc offset)))
  ok (
    bit_or (bit_or (bit_or (byte3 * 2 ^ 24) (byte2 * 2 ^ 16)) (byte1 * 2 ^ 8)) byte0,
    suc (suc (suc (suc offset))),
  )

pub record Ipv4Address : Type 0 where
  pub octet0 : ℕ
  pub octet1 : ℕ
  pub octet2 : ℕ
  pub octet3 : ℕ

-- `Ipv4Address::Inject`.
unfoldable pub inject_address : Ipv4Address → List ℕ
inject_address a = a.octet0 ∷ a.octet1 ∷ a.octet2 ∷ a.octet3 ∷ []

-- `std::to_string` of an octet: its decimal digits, as characters.
unfoldable pub to_string : ℕ → List ℕ
to_string n =
    if ltb n 10
    then (48 + n) ∷ []
    else if ltb n 100
    then (48 + n / 10) ∷ (48 + n % 10) ∷ []
    else (48 + n / 100) ∷ (48 + n / 10 % 10) ∷ (48 + n % 10) ∷ []

-- `Ipv4Address::ToString`. A string is the list of its characters.
unfoldable pub address_string : Ipv4Address → List ℕ
unfolding to_string
address_string a =
    to_string a.octet0
    ++ (46 ∷ to_string a.octet1 ++ (46 ∷ to_string a.octet2 ++ (46 ∷ to_string a.octet3)))

-- `Ipv4Address::Extract`.
unfoldable pub extract_address : List ℕ → ℕ → Result (Ipv4Address × ℕ)
extract_address v offset = do
  octet0 ← at v offset
  octet1 ← at v (suc offset)
  octet2 ← at v (suc (suc offset))
  octet3 ← at v (suc (suc (suc offset)))
  ok (
    record { octet0 = octet0; octet1 = octet1; octet2 = octet2; octet3 = octet3 },
    suc (suc (suc (suc offset))),
  )
