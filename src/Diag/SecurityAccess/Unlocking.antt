-- ===== src/Diag/SecurityAccess/Unlocking.antt =====
-- src/ara/diag/security_access.cpp: which levels a request unlocks.
use adaptive_autosar.Prelude.{
  ℕ, ◌+◌, ◌-◌, ◌%◌, ◌^◌, ◌≡◌, ◌≢◌, ap, Bool, true, false, Option, none, some, List, [], ◌∷◌, find,
  find-assign_other,
}
use adaptive_autosar.Diag.SecurityAccess.{
  SecurityLevel, SecurityAccess, Meta, handle_passed_attempt, compare_key,
}

abbrev pub unlocked_in : Option SecurityLevel → Bool
unlocked_in none = false
unlocked_in (some l) = l.unlocked

-- A level is there and unlocked.
unfoldable pub is_unlocked : List (ℕ × SecurityLevel) → ℕ → Bool
is_unlocked levels level = unlocked_in (find level levels)

-- A correct key leaves every other security level as it was, the unlocked ones unlocked.
pub handle_passed_attempt-other :
    (s : SecurityAccess) (level other : ℕ) (l : SecurityLevel)
    → level ≢ other
    → is_unlocked (handle_passed_attempt s level l).levels other ≡ is_unlocked s.levels other
unfolding is_unlocked handle_passed_attempt
handle_passed_attempt-other s level other l ne =
    ap unlocked_in (find-assign_other level other (record l { unlocked = true }) s.levels ne)

-- The request sends the key that unlocks the level: its seed, combined with the encryptor.
pub record IsRightKey (s : SecurityAccess) (meta : Meta) (sub_function : ℕ) (key : List ℕ)
    (level : ℕ) : Type 0 where
  pub high : ℕ
  pub low : ℕ
  pub found : SecurityLevel
  pub shape : key ≡ high ∷ low ∷ []
  pub even : sub_function % 2 ≢ 1
  pub addressed : (sub_function + 2 ^ 8 - 1) % 2 ^ 8 ≡ level
  pub present : find level s.levels ≡ some found
  pub right : compare_key meta found high low ≡ true
