-- ===== src/Prelude/Tables.antt =====
-- `std::map` from numbers, as an association list: `find`, and `map[key] = value`.
use Prim.Native.Nat.{ℕ}
use mathlib.Core.Path.{◌≡◌, refl, sym, ap, ◌∙◌}
use mathlib.Core.Logic.{◌≢◌, inl, inr}
use mathlib.Core.Bool.{true, false, true≢false}
use mathlib.Core.Option.{Option, none, some}
use mathlib.Core.List.{List, [], ◌∷◌}
use adaptive_autosar.Prelude.Tests.{◌==◌, if◌then◌else◌, ==_self, ==_ne, Bool-cases, ==_iff}

module _ {ℓ} {A : Type ℓ} where
  unfoldable pub find : ℕ → List (ℕ × A) → Option A
  find key [] = none
  find key ((k, value) ∷ table) = if k == key then some value else find key table

  unfoldable pub assign : ℕ → A → List (ℕ × A) → List (ℕ × A)
  assign key value [] = (key, value) ∷ []
  assign key value ((k, old) ∷ table) =
      if k == key then (k, value) ∷ table else (k, old) ∷ assign key value table

  -- `erase(find(key))`, for a table that may repeat a key.
  unfoldable pub erase : ℕ → List (ℕ × A) → List (ℕ × A)
  erase key [] = []
  erase key ((k, value) ∷ table) =
      if k == key then erase key table else (k, value) ∷ erase key table

==_differs : (a b : ℕ) → (a == b) ≡ false → a ≢ b
==_differs a b h = λ e. absurd (true≢false (sym ((==_iff a b).1 e) ∙ h))

module _ {ℓ} {A : Type ℓ} where
  pub find-erase : (key : ℕ) (table : List (ℕ × A)) → find key (erase key table) ≡ none
  unfolding find erase
  find-erase key [] = refl
  find-erase key ((k, value) ∷ table) = elim (Bool-cases (k == key)) [
    | inl same ↦ rw (same, erase) (find-erase key table)
    | inr other ↦ rw (other, erase, find, other) (find-erase key table)
  ]

  pub find-erase_other :
      (key other : ℕ) (table : List (ℕ × A))
      → key ≢ other
      → find other (erase key table) ≡ find other table
  unfolding find erase
  find-erase_other key other [] ne = refl
  find-erase_other key other ((k, value) ∷ table) ne = elim (Bool-cases (k == key)) [
    | inl same ↦
        let differs : (k == other) ≡ false = rw ((==_iff k key).0 same) (==_ne key other ne) in
        rw (same, erase, find, differs) (find-erase_other key other table ne)
    | inr different ↦ rw (different, erase, find) (rw (find-erase_other key other table ne))
  ]

  pub find-assign :
      (key : ℕ) (value : A) (table : List (ℕ × A)) → find key (assign key value table) ≡ some value
  unfolding find assign
  find-assign key value [] = rw (==_self key)
  find-assign key value ((k, old) ∷ table) = elim (Bool-cases (k == key)) [
    | inl same ↦ rw (same, assign, find, same) refl
    | inr other ↦ rw (other, assign, find, other) (find-assign key value table)
  ]

  pub find-assign_other :
      (key other : ℕ) (value : A) (table : List (ℕ × A))
      → key ≢ other
      → find other (assign key value table) ≡ find other table
  unfolding find assign
  find-assign_other key other value [] ne = rw (==_ne key other ne)
  find-assign_other key other value ((k, old) ∷ table) ne = elim (Bool-cases (k == key)) [
    | inl same ↦
        let differs : (k == other) ≡ false = rw ((==_iff k key).0 same) (==_ne key other ne) in
        rw (same, assign, find, differs) refl
    | inr different ↦ rw (different, assign, find) (rw (find-assign_other key other value table ne))
  ]

  -- A table gives the same at equal keys.
  pub find_same :
      (key other : ℕ) (table : List (ℕ × A))
      → (key == other) ≡ true
      → find other table ≡ find key table
  find_same key other table same = ap (λ k. find k table) (sym ((==_iff key other).0 same))

  pub find-assign_if :
      (key other : ℕ) (value : A) (table : List (ℕ × A))
      → find other (assign key value table)
        ≡ (if key == other then some value else find other table)
  find-assign_if key other value table = elim (Bool-cases (key == other)) [
    | inl same ↦
        rw same (find_same key other (assign key value table) same ∙ find-assign key value table)
    | inr differs ↦
        rw differs (find-assign_other key other value table (==_differs key other differs))
  ]

  pub find-erase_if :
      (key other : ℕ) (table : List (ℕ × A))
      → find other (erase key table) ≡ (if key == other then none else find other table)
  find-erase_if key other table = elim (Bool-cases (key == other)) [
    | inl same ↦ rw same (find_same key other (erase key table) same ∙ find-erase key table)
    | inr differs ↦ rw differs (find-erase_other key other table (==_differs key other differs))
  ]
