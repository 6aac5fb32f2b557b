-- ===== src/Diag/SecurityAccess.antt =====
-- src/ara/diag/security_access.cpp: seeds and keys, and the delay after too many wrong keys. The
-- delay timer is the bit `delay_active`, which time clears from outside (`delay_elapsed`). What
-- `TryExtractValue` reads from the meta-information is the record `Meta`; a number there is what
-- `std::stoi` and the cast make of the text. A future holds its value when it is returned.
pub mod Lockout
pub mod Unlocking
use Prim.Native.Nat.{bit_and, bit_or, bit_xor}
use adaptive_autosar.Prelude.{
  ℕ, ◌+◌, ◌-◌, ◌*◌, ◌/◌, ◌%◌, ◌^◌, Bool, true, false, not, ◌&&◌, ◌||◌, Option, none, some, List, [],
  ◌∷◌, if◌then◌else◌, ◌==◌, ltb, leb, find, assign,
}

pub record SecurityLevel : Type 0 where
  pub unlocked : Bool
  pub seed : ℕ

pub record SecurityAccess : Type 0 where
  pub next_seed : ℕ
  pub levels : List (ℕ × SecurityLevel)
  pub delay_active : Bool
  pub failed_unlock_attempt : ℕ

pub record Meta : Type 0 where
  pub encryptor : Option ℕ
  pub attempt_threshold : Option ℕ
  pub exceeded_attempt_delay : Option ℕ

unfoldable pub new_security_access : SecurityAccess
new_security_access = record {
  next_seed = 1;
  levels = [];
  delay_active = false;
  failed_unlock_attempt = 0;
}

abbrev pub sid : ℕ
sid = 0x27

unfoldable pub generate_negative_response : ℕ → List ℕ
generate_negative_response nrc = 0x7f ∷ sid ∷ nrc ∷ []

-- The reserved sub-functions of `hasProblem`.
unfoldable pub is_reserved : ℕ → Bool
is_reserved neutral =
    neutral == 0x00
    || (leb 0x43 neutral && leb neutral 0x5e || leb 0x61 neutral && leb neutral 0x7f)

-- `hasProblem`: the negative response code, if there is a problem.
unfoldable pub has_problem : SecurityAccess → List ℕ → Option ℕ
unfolding is_reserved
has_problem s (service ∷ sub_function ∷ parameters) =
    if is_reserved (bit_and sub_function 0x7f)
    then some 0x12
    else if s.delay_active
    then some 0x36
    else none
has_problem s _ = some 0x13

-- `tryFetchSeed`.
unfoldable pub try_fetch_seed : SecurityAccess → ℕ → Option ℕ
try_fetch_seed s level = elim (find level s.levels) [
  | none ↦ none
  | some l ↦ some (if l.unlocked then 0 else l.seed)
]

-- `addLevel`: the new state, and the seed of the level.
unfoldable pub add_level : SecurityAccess → ℕ → SecurityAccess × ℕ
add_level s level =
    let levels = assign level (record { unlocked = false; seed = s.next_seed }) s.levels in
    (
      record s {
        levels = levels;
        next_seed = if s.next_seed == 2 ^ 16 - 1 then 1 else s.next_seed + 1;
      },
      s.next_seed,
    )

unfoldable pub seed_bytes : ℕ → List ℕ
seed_bytes seed = seed / 2 ^ 8 % 2 ^ 8 ∷ seed % 2 ^ 8 ∷ []

-- `GetSeed`.
unfoldable pub get_seed : SecurityAccess → ℕ → SecurityAccess × List ℕ
unfolding try_fetch_seed add_level seed_bytes
get_seed s level = elim (try_fetch_seed s level) [
  | some seed ↦ (s, seed_bytes seed)
  | none ↦ ((add_level s level).0, seed_bytes (add_level s level).1)
]

-- `handleRequestSeed`.
unfoldable pub handle_request_seed : SecurityAccess → ℕ → Bool → SecurityAccess × List ℕ
unfolding get_seed
handle_request_seed s sub_function suppress =
    ((get_seed s sub_function).0, if suppress then [] else sid ∷ (get_seed s sub_function).1)

-- `handlePassedAttempt`. The source's loop writes to copies of the map's elements, so it changes
-- no level; only the level of the key is written.
unfoldable pub handle_passed_attempt : SecurityAccess → ℕ → SecurityLevel → SecurityAccess
handle_passed_attempt s level l = record s {
  levels = assign level (record l { unlocked = true }) s.levels;
}

-- `handleFailedAttempt`.
unfoldable pub handle_failed_attempt : SecurityAccess → Meta → SecurityAccess
handle_failed_attempt s meta = if s.delay_active then s else elim meta.attempt_threshold [
  | none ↦ s
  | some threshold ↦ elim meta.exceeded_attempt_delay [
    | none ↦ s
    | some delay ↦
        let failed = (s.failed_unlock_attempt + 1) % 2 ^ 8 in
        if ltb threshold failed
        then record s { delay_active = true; failed_unlock_attempt = 0 }
        else record s { failed_unlock_attempt = failed }
  ]
]

-- `CompareKey`, for a level that is there and a key of two bytes.
unfoldable pub compare_key : Meta → SecurityLevel → ℕ → ℕ → Bool
compare_key meta l high low = elim meta.encryptor [
  | none ↦ false
  | some encryptor ↦ bit_xor l.seed encryptor % 2 ^ 16 == bit_or (high * 2 ^ 8) low
]

-- `handleSendKey`. The clauses are the test on the length of the key.
unfoldable pub handle_send_key : SecurityAccess → Meta → ℕ → List ℕ → Bool → SecurityAccess × List ℕ
unfolding handle_passed_attempt handle_failed_attempt compare_key generate_negative_response
handle_send_key s meta sub_function (high ∷ low ∷ []) suppress =
    let level = (sub_function + 2 ^ 8 - 1) % 2 ^ 8 in
    elim (find level s.levels) [
      | none ↦ (s, generate_negative_response 0x24)
      | some l ↦
          if compare_key meta l high low
          then (
            handle_passed_attempt s level l,
            (if suppress then [] else (sid + 0x40) ∷ sub_function ∷ []),
          )
          else (
            handle_failed_attempt s meta,
            generate_negative_response
                (if (handle_failed_attempt s meta).delay_active then 0x36 else 0x35),
          )
    ]
handle_send_key s meta sub_function key suppress = (s, generate_negative_response 0x13)

-- The sub-function's handler: odd ones request a seed, even ones send a key.
unfoldable pub handle_valid : SecurityAccess → Meta → ℕ → List ℕ → SecurityAccess × List ℕ
unfolding handle_request_seed handle_send_key
handle_valid s meta sub_function parameters =
    let suppress = not (bit_and sub_function 0x80 == 0) in
    if sub_function % 2 == 1
    then handle_request_seed s sub_function suppress
    else handle_send_key s meta sub_function parameters suppress

-- `HandleMessage`.
unfoldable pub handle_message : SecurityAccess → Meta → Bool → List ℕ → SecurityAccess × List ℕ
unfolding has_problem handle_valid
handle_message s meta canceled request = elim (has_problem s request) [
  | some nrc ↦ (s, generate_negative_response (if canceled then 0x10 else nrc))
  | none ↦ elim request [
    | (service ∷ sub_function ∷ parameters) ↦ handle_valid s meta sub_function parameters
    | _ ↦ (s, [])
  ]
]

-- The delay timer's thread ends.
unfoldable pub delay_elapsed : SecurityAccess → SecurityAccess
delay_elapsed s = record s { delay_active = false }
