-- ===== src/Prelude/Strings.antt =====
-- `std::string`, as the list of its bytes, and `std::map` from strings, as an association list.
use Prim.Native.Nat.{ℕ}
use mathlib.Core.Path.{◌≡◌, refl, sym, ap}
use mathlib.Core.Logic.{inl, inr}
use mathlib.Core.Bool.{Bool, true, false, ◌&&◌}
use mathlib.Core.Option.{Option, none, some}
use mathlib.Core.List.{List, [], ◌∷◌}
use adaptive_autosar.Prelude.Tests.{◌==◌, if◌then◌else◌, ==_iff, ==_self, Bool-cases, true-ne-false}

unfoldable pub same_string : List ℕ → List ℕ → Bool
same_string [] [] = true
same_string (a ∷ s) (b ∷ t) = (a == b) && same_string s t
same_string _ _ = false

pub same_string_self : (s : List ℕ) → same_string s s ≡ true
unfolding same_string
same_string_self [] = refl
same_string_self (a ∷ s) = rw (==_self a) (same_string_self s)

pub same_string-eq : (s t : List ℕ) → same_string s t ≡ true → s ≡ t
unfolding same_string
same_string-eq [] [] h = refl
same_string-eq [] (b ∷ t) h = absurd (true-ne-false (sym h))
same_string-eq (a ∷ s) [] h = absurd (true-ne-false (sym h))
same_string-eq (a ∷ s) (b ∷ t) h = elim (Bool-cases (a == b)) [
  | inl same ↦
      let rest : same_string s t ≡ true = rw (same) at h in
      rw ((==_iff a b).0 same) (ap (λ u. b ∷ u) (same_string-eq s t rest))
  | inr other ↦ absurd (true-ne-false (sym (rw (other) at h)))
]

module _ {ℓ} {A : Type ℓ} where
  unfoldable pub lookup : List ℕ → List (List ℕ × A) → Option A
  lookup key [] = none
  lookup key ((k, value) ∷ table) = if same_string k key then some value else lookup key table

  unfoldable pub store : List ℕ → A → List (List ℕ × A) → List (List ℕ × A)
  store key value [] = (key, value) ∷ []
  store key value ((k, old) ∷ table) =
      if same_string k key then (k, value) ∷ table else (k, old) ∷ store key value table

module _ {ℓ} {A : Type ℓ} where
  pub lookup-store :
      (key : List ℕ) (value : A) (table : List (List ℕ × A))
      → lookup key (store key value table) ≡ some value
  unfolding lookup store
  lookup-store key value [] = rw (same_string_self key) refl
  lookup-store key value ((k, old) ∷ table) = elim (Bool-cases (same_string k key)) [
    | inl same ↦ rw (same, store, lookup, same) refl
    | inr other ↦ rw (other, store, lookup, other) (lookup-store key value table)
  ]

  pub lookup-store_other :
      (key other : List ℕ) (value : A) (table : List (List ℕ × A))
      → same_string key other ≡ false
      → lookup other (store key value table) ≡ lookup other table
  unfolding lookup store
  lookup-store_other key other value [] ne = rw (ne) refl
  lookup-store_other key other value ((k, old) ∷ table) ne = elim (Bool-cases (same_string k key)) [
    | inl same ↦
        let e : k ≡ key = same_string-eq k key same in
        let differs : same_string k other ≡ false = rw (e) ne in
        rw (same, store, lookup, differs) refl
    | inr different ↦
        rw (different, store, lookup) (rw (lookup-store_other key other value table ne) refl)
  ]
